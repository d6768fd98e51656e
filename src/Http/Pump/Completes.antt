-- ===== src/Http/Pump/Completes.antt =====
-- A body of a known length that pump_body_to_stream (src/codec/http_message.cpp) takes to its end.
use reverse_proxy_server.Base.{
  ℕ, zero, suc, ◌-◌, ◌<◌, ◌≤◌, ◌≡◌, ◌≢◌, refl, ap, sym, subst, ◌∙◌, List, [], ◌∷◌, ◌++◌, Option,
  none, some, min, length, take, drop, is_empty, arith, leb, Bool-cases, inl, inr, All, length-take,
  length-drop, take-append-drop, append_assoc, false,
}
use reverse_proxy_server.Text.{Bytes}
use reverse_proxy_server.Http.Stream.{ErrorCode, Input, bytes, fault, read_some, arriving}
use reverse_proxy_server.Http.Body.{stream_body, body_read, count_down, no_more}
use reverse_proxy_server.Http.Body.Counts.{take_all}
use reverse_proxy_server.Http.Pump.{
  called_back, Pumped, pump_size, on_written, on_body_read, pump_from, pump_body,
}

-- A read of `n` bytes in all does not wait for ever: they arrive, or a fault does, in segments with at
-- least a byte each.
abbrev pub Served : ℕ → Input → Type 0
Served n [] = n ≡ 0
Served n (fault e ∷ i) = Unit
Served n (bytes b ∷ i) = (b ≢ []) × Served (n - length b) i

-- The next read of a body with `n` bytes left.
record Chunk (n : ℕ) (i : Input) : Type 0 where
  pub got : Bytes
  pub rest : Input
  pub solid : got ≢ []
  pub short : length got ≤ n
  pub split : got ++ arriving rest ≡ arriving i
  pub served : Served (n - length got) rest
  pub read :
      body_read pump_size (stream_body n) i
      ≡ some (record { ec = none; got = got; rest = rest }, stream_body (n - length got))

-- A read that the stream answers with at most as many bytes as are left.
count_down-short :
    (n : ℕ) (got : Bytes) (rest : Input)
    → length got ≤ n
    → count_down n (some (record { ec = none; got = got; rest = rest }))
      ≡ some (record { ec = none; got = got; rest = rest }, stream_body (n - length got))
unfolding count_down
count_down-short n got rest h =
    let e : min (length got) n ≡ length got = omega (arith, h) in rw (take_all got n h, e) refl

length-solid : (b : Bytes) → b ≢ [] → 1 ≤ length b
length-solid [] h = absurd (h refl)
length-solid (x ∷ b) h = omega arith

solid-length : (b : Bytes) → 1 ≤ length b → b ≢ []
solid-length [] h = absurd (omega (arith, h))
solid-length (x ∷ b) h = λ e. cc

next-Chunk :
    (r : ℕ) (b : Bytes) (i : Input)
    → b ≢ []
    → Served (suc r - length b) i
    → Chunk (suc r) (bytes b ∷ i)
unfolding body_read read_some
next-Chunk r b i h s =
    let cap = min pump_size (suc r) in
    elim (Bool-cases (leb (length b) cap)) [
      | inl e ↦ record {
        got = b;
        rest = i;
        solid = h;
        short = ground (arith, e);
        split = refl;
        served = s;
        read = rw e (count_down-short (suc r) b i (ground (arith, e)));
      }
      | inr e ↦
          let l : length (take cap b) ≡ cap = ground (arith, e, length-take cap b) in
          let left : suc r - length (take cap b) - length (drop cap b) ≡ suc r - length b =
            ground (arith, e, l, length-drop cap b) in
          record {
            got = take cap b;
            rest = bytes (drop cap b) ∷ i;
            solid = solid-length (take cap b) (omega (arith, l));
            short = omega (arith, l);
            split =
                sym (append_assoc (take cap b) (drop cap b) (arriving i))
                ∙ ap (λ x. x ++ arriving i) (take-append-drop cap b);
            served = (
              solid-length (drop cap b) (ground (arith, e, length-drop cap b)),
              subst (λ n. Served n i) (sym left) s,
            );
            read = rw e (count_down-short (suc r) (take cap b) _ (omega (arith, l)));
          }
    ]

take-append : (n : ℕ) (a b : Bytes) → length a ≤ n → take n (a ++ b) ≡ a ++ take (n - length a) b
take-append n [] b h = let e : n - 0 ≡ n = omega arith in rw e refl
take-append zero (x ∷ a) b h = absurd (omega (arith, h))
take-append (suc n) (x ∷ a) b h =
    let e : suc n - suc (length a) ≡ n - length a = omega arith in
    rw e (ap (◌∷◌ x) (take-append n a b (omega (arith, h))))

-- The whole of what is there of `n` bytes is handed on, and the callback is called.
pub record Completes (n : ℕ) (i : Input) (p : Pumped) : Type 0 where
  pub whole : p.out ≡ take n (arriving i)
  pub error : Option ErrorCode
  pub ended : p.ending ≡ called_back error

module _ (k : ℕ)
    (again : (m : ℕ) (j : Input) (vs : List (Option ErrorCode))
      → m < k
      → Served m j
      → All (λ w. w ≡ none) vs
      → m ≤ length vs
      → Completes m j (pump_body k (stream_body m) j vs)) where
  -- A round that reads a chunk.
  round-Completes :
      (n : ℕ) (i : Input) (ws : List (Option ErrorCode)) (c : Chunk n i)
      → n < suc k
      → All (λ w. w ≡ none) ws
      → n ≤ length ws
      → Completes n i (pump_body (suc k) (stream_body n) i ws)
  unfolding pump_body pump_from on_body_read on_written
  round-Completes n i [] c le w long =
      absurd (omega (arith, long, c.short, length-solid c.got c.solid))
  round-Completes n i (v ∷ ws) c le w long =
      let m = n - length c.got in
      let solid = length-solid c.got c.solid in
      let d =
        again m c.rest ws (omega (arith, le, c.short, solid)) c.served w.1
          (omega (arith, long, solid)) in
      let full : is_empty c.got ≡ false = not_empty c.got c.solid in
      record {
        whole =
            rw (c.read, full, w.0)
              (ap (λ l. c.got ++ l) d.whole
                ∙ sym (take-append n c.got (arriving c.rest) c.short)
                ∙ ap (take n) c.split);
        error = d.error;
        ended = rw (c.read, full, w.0) d.ended;
      }
    where
      not_empty : (b : Bytes) → b ≢ [] → is_empty b ≡ false
      not_empty [] h = absurd (h refl)
      not_empty (x ∷ b) h = refl

pub pump_body-Completes :
    (k n : ℕ) (i : Input) (ws : List (Option ErrorCode))
    → n < k
    → Served n i
    → All (λ w. w ≡ none) ws
    → n ≤ length ws
    → Completes n i (pump_body k (stream_body n) i ws)
unfolding pump_body pump_from body_read no_more on_body_read read_some count_down
pump_body-Completes zero n i ws h s w l = absurd (omega (arith, h))
pump_body-Completes (suc k) zero i ws h s w l = record { whole = refl; error = none; ended = refl }
pump_body-Completes (suc k) (suc r) [] ws h s w l = absurd (omega (arith, s))
pump_body-Completes (suc k) (suc r) (fault e ∷ i) ws h s w l = record {
  whole = refl;
  error = some e;
  ended = refl;
}
pump_body-Completes (suc k) (suc r) (bytes b ∷ i) ws h s w l =
    round-Completes k (pump_body-Completes k) (suc r) (bytes b ∷ i) ws (next-Chunk r b i s.0 s.1) h
      w l
