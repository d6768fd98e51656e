-- ===== src/Http/Pump/Delivers.antt =====
-- What pump_body_to_stream (src/codec/http_message.cpp) does with a body of a known length.
use reverse_proxy_server.Base.{
  ℕ, zero, suc, ◌+◌, ◌<◌, ◌≡◌, ◌≢◌, refl, ap, sym, ◌∙◌, List, [], ◌∷◌, ◌++◌, Option, none, some,
  min, length, is_empty, if◌then◌else◌, arith, Option-cases, inl, inr, ◌⊎◌, append_assoc,
  length-append,
}
use reverse_proxy_server.Text.{Bytes}
use reverse_proxy_server.Http.Stream.{ErrorCode, Input, Read, arriving}
use reverse_proxy_server.Http.Body.{
  BodySource, stream_body, buffer_body, stream_eof_body, body_read, count_down, no_more,
}
use reverse_proxy_server.Http.Body.Counts.{Counts, Fits, read_some-Fits, body_read-Counts}
use reverse_proxy_server.Http.Pump.{
  called_back, starved, Pumped, pump_size, on_written, on_body_read, pump_from, pump_body,
}

-- Of `n` bytes, those handed to the stream are the first ones of the input, the others are left,
-- and the loop has not run out of fuel.
pub record Delivers (n : ℕ) (i : Input) (p : Pumped) : Type 0 where
  pub left : ℕ
  pub counted : p.source ≡ stream_body left
  pub length_out : length p.out + left ≡ n
  pub in_order : p.out ++ arriving p.rest ≡ arriving i
  pub fuelled : p.ending ≢ starved

-- A round of the loop.
on_written-Delivers :
    (again : BodySource → Input → List (Option ErrorCode) → Pumped) (ws : List (Option ErrorCode))
    (n m : ℕ) (i : Input) (r : Read)
    → length r.got + m ≡ n
    → r.got ++ arriving r.rest ≡ arriving i
    → ((vs : List (Option ErrorCode)) → Delivers m r.rest (again (stream_body m) r.rest vs))
    → Delivers n i (on_written again ws (stream_body m) r)
unfolding on_written
on_written-Delivers again [] n m i r c o h = record {
  left = m;
  counted = refl;
  length_out = c;
  in_order = o;
  fuelled = λ e. cc;
}
on_written-Delivers again (some e ∷ ws) n m i r c o h = record {
  left = m;
  counted = refl;
  length_out = c;
  in_order = o;
  fuelled = λ e. cc;
}
on_written-Delivers again (none ∷ ws) n m i r c o h =
    let d = h ws in
    let p = again (stream_body m) r.rest ws in
    record {
      left = d.left;
      counted = d.counted;
      length_out = omega (arith, length-append r.got p.out, d.length_out, c);
      in_order = append_assoc r.got p.out (arriving p.rest) ∙ ap (λ l. r.got ++ l) d.in_order ∙ o;
      fuelled = d.fuelled;
    }

-- A read with an error gives no byte.
abbrev Silent : Option (Read × BodySource) → Type 0
Silent none = Unit
Silent (some (r, src)) = (r.ec ≡ none) ⊎ (r.got ≡ [])

count_down-Silent :
    (n cap : ℕ) (i : Input) (o : Option Read) → Fits cap i o → Silent (count_down n o)
unfolding count_down
count_down-Silent n cap i none f = tt
count_down-Silent n cap i (some r) f = elim (Option-cases r.ec) [
  | inl e ↦ rw e (inl e)
  | inr (x, e) ↦ rw e f.2
]

body_read-Silent : (cap n : ℕ) (i : Input) → Silent (body_read cap (stream_body n) i)
unfolding body_read no_more
body_read-Silent cap zero i = inl refl
body_read-Silent cap (suc n) i =
    count_down-Silent (suc n) (min cap (suc n)) i _ (read_some-Fits (min cap (suc n)) i)

on_body_read-Delivers :
    (again : BodySource → Input → List (Option ErrorCode) → Pumped) (ws : List (Option ErrorCode))
    (ec : Option ErrorCode) (n m : ℕ) (i : Input) (r : Read)
    → (ec ≡ none) ⊎ (r.got ≡ [])
    → length r.got + m ≡ n
    → r.got ++ arriving r.rest ≡ arriving i
    → ((vs : List (Option ErrorCode)) → m < n → Delivers m r.rest (again (stream_body m) r.rest vs))
    → Delivers n i (on_body_read again ws ec (stream_body m) r)
unfolding on_body_read
on_body_read-Delivers again ws (some e) n m i r (inl q) c o h = cc
on_body_read-Delivers again ws (some e) n m i r (inr q) c o h = record {
  left = m;
  counted = refl;
  length_out = omega (arith, c, ap length q);
  in_order = ap (λ l. l ++ arriving r.rest) (sym q) ∙ o;
  fuelled = λ e. cc;
}
on_body_read-Delivers again ws none n m i r q c o h = by_bytes r.got refl
  where
    by_bytes :
        (b : Bytes)
        → r.got ≡ b
        → Delivers n i (
            if is_empty b
            then record {
              out = [];
              ending = called_back none;
              source = stream_body m;
              rest = r.rest;
            }
            else on_written again ws (stream_body m) r)
    by_bytes [] e = record {
      left = m;
      counted = refl;
      length_out = omega (arith, c, ap length e);
      in_order = ap (λ l. l ++ arriving r.rest) (sym e) ∙ o;
      fuelled = λ e. cc;
    }
    by_bytes (x ∷ b) e =
        on_written-Delivers again ws n m i r c o (λ vs. h vs (omega (arith, c, ap length e)))

pump_from-Delivers :
    (again : BodySource → Input → List (Option ErrorCode) → Pumped) (ws : List (Option ErrorCode))
    (n : ℕ) (i : Input) (o : Option (Read × BodySource))
    → Counts n pump_size i o
    → Silent o
    → ((m : ℕ) (j : Input) (vs : List (Option ErrorCode))
        → m < n
        → Delivers m j (again (stream_body m) j vs))
    → Delivers n i (pump_from again (stream_body n) i ws o)
unfolding pump_from
pump_from-Delivers again ws n i none c q h = record {
  left = n;
  counted = refl;
  length_out = omega arith;
  in_order = refl;
  fuelled = λ e. cc;
}
pump_from-Delivers again ws n i (some (r, stream_body m)) c q h =
    on_body_read-Delivers again ws r.ec n m i r q c.1 c.2 (h m r.rest)
pump_from-Delivers again ws n i (some (r, buffer_body d pos)) c q h = absurd c
pump_from-Delivers again ws n i (some (r, stream_eof_body)) c q h = absurd c

-- The pump of a body of `n` bytes comes to an end: `n + 1` rounds are enough for it to call back, or to
-- wait for a read or a write. What it has handed to the stream by then, in order, are the first bytes
-- of what arrives, at most `n`, none is lost or sent twice, and the body counts those that are left.
pub pump_body-Delivers :
    (k n : ℕ) (i : Input) (ws : List (Option ErrorCode))
    → n < k
    → Delivers n i (pump_body k (stream_body n) i ws)
unfolding pump_body
pump_body-Delivers zero n i ws h = absurd (omega arith)
pump_body-Delivers (suc k) n i ws h =
    pump_from-Delivers (pump_body k) ws n i (body_read pump_size (stream_body n) i)
      (body_read-Counts n pump_size i) (body_read-Silent pump_size n i)
      (λ m j vs lt. pump_body-Delivers k m j vs (omega (arith, h, lt)))
