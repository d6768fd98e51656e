-- ===== src/Http/Body/Counts.antt =====
-- A body of a known length and the stream behind it.
use reverse_proxy_server.Base.{
  ℕ, zero, suc, ◌+◌, ◌≤◌, ◌≡◌, refl, ap, sym, ◌∙◌, [], ◌∷◌, ◌++◌, Option, none, some, min, length,
  take, drop, leb, arith, Bool-cases, inl, inr, ◌⊎◌, Option-cases, length-take, take-append-drop,
  append_assoc,
}
use reverse_proxy_server.Text.{Bytes}
use reverse_proxy_server.Http.Stream.{Input, bytes, fault, Read, read_some, arriving}
use reverse_proxy_server.Http.Body.{BodySource, stream_body, body_read, count_down}

-- A read takes at most `cap` bytes, off the front of the stream, and none with an error.
abbrev pub Fits : ℕ → Input → Option Read → Type 0
Fits cap i none = Unit {0}
Fits cap i (some r) =
    (length r.got ≤ cap) × (r.got ++ arriving r.rest ≡ arriving i) × ((r.ec ≡ none) ⊎ (r.got ≡ []))

pub read_some-Fits : (cap : ℕ) (i : Input) → Fits cap i (read_some cap i)
unfolding read_some
read_some-Fits cap [] = tt
read_some-Fits cap (fault e ∷ i) = (omega arith, refl, inr refl)
read_some-Fits cap (bytes b ∷ i) = elim (Bool-cases (leb (length b) cap)) [
  | inl e ↦ rw e (ground arith, refl, inl refl)
  | inr e ↦ rw e (
    omega (arith, length-take cap b),
    sym (append_assoc (take cap b) (drop cap b) (arriving i))
        ∙ ap (λ x. x ++ arriving i) (take-append-drop cap b),
    inl refl,
  )
]

-- What a read of a body with `n` bytes left promises, if its callback comes: at most `cap` bytes off
-- the front of the stream, and what was read and what is left make `n`.
abbrev pub Counts : ℕ → ℕ → Input → Option (Read × BodySource) → Type 0
Counts n cap i none = Unit {0}
Counts n cap i (some (r, stream_body m)) =
    (length r.got ≤ cap) × (length r.got + m ≡ n) × (r.got ++ arriving r.rest ≡ arriving i)
Counts n cap i (some (r, _)) = ⊥

pub take_all : (b : Bytes) (n : ℕ) → length b ≤ n → take (min (length b) n) b ≡ b
take_all [] n h = ground arith
take_all (x ∷ b) zero h = absurd (omega arith)
take_all (x ∷ b) (suc n) h =
    let same : min (length (x ∷ b)) (suc n) ≡ suc (min (length b) n) = omega arith in
    rw same (ap (◌∷◌ x) (take_all b n (omega arith)))

count_down-Counts :
    (n cap : ℕ) (i : Input) (o : Option Read)
    → Fits (min cap n) i o
    → Counts n cap i (count_down n o)
unfolding count_down
count_down-Counts n cap i none f = tt
count_down-Counts n cap i (some r) (le, same, quiet) = elim (Option-cases r.ec) [
  | inl e ↦ rw (e, take_all r.got n (omega arith)) (omega arith, omega arith, same)
  | inr (x, e) ↦
      let empty : length r.got ≡ 0 = elim quiet [ inl q ↦ cc | inr q ↦ ap length q ] in
      rw e (omega arith, omega (arith, empty), same)
]

-- A read of a body whose length is known never takes a byte of what follows the body on the stream:
-- it gives at most as many bytes as the buffer and the rest of the body allow, those are the next
-- ones of the stream, none is lost, and the count goes down by just their number.
pub body_read-Counts : (n cap : ℕ) (i : Input) → Counts n cap i (body_read cap (stream_body n) i)
unfolding body_read
body_read-Counts zero cap i = (omega arith, refl, refl)
body_read-Counts (suc n) cap i =
    count_down-Counts (suc n) cap i (read_some (min cap (suc n)) i)
      (read_some-Fits (min cap (suc n)) i)
