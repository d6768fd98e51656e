-- ===== src/H3/Literal/Ends.antt =====
-- The loop of parse_request_headers of src/codec/h3_codec.cpp.
use reverse_proxy_server.Base.{
  ℕ, zero, suc, ◌≢◌, ◌<◌, ◌≤◌, [], ◌∷◌, Option, none, some, arith, drop, length, length-drop, ltb,
  ◌==◌, Bool-cases, inl, inr,
}
use reverse_proxy_server.Text.{Bytes}
use reverse_proxy_server.H3.Varint.{decode_varint}
use reverse_proxy_server.H3.Literal.{
  Literals, starved, Parse, route_literal, read_literal, on_routed, on_value, on_name,
  parse_literals, parse_request_headers,
}

-- What is left behind a text is shorter.
abbrev Shrinks : Bytes → Option (Bytes × Bytes) → Type 0
Shrinks d none = Unit {0}
Shrinks d (some (s, rest)) = length rest < length d

read_literal-Shrinks : (d : Bytes) → Shrinks d (read_literal d)
unfolding read_literal decode_varint
read_literal-Shrinks [] = tt
read_literal-Shrinks (x ∷ d) =
    let vr = decode_varint (x ∷ d) in
    elim (Bool-cases (vr.bytes_read == 0)) [
      | inl e ↦ rw e tt
      | inr e ↦ elim (Bool-cases (ltb (length (drop vr.bytes_read (x ∷ d))) vr.value)) [
        | inl g ↦ rw (e, g) tt
        | inr g ↦
            rw (e, g)
              (ground (
                arith,
                length-drop vr.bytes_read (x ∷ d),
                length-drop vr.value (drop vr.bytes_read (x ∷ d)),
              ))
      ]
    ]

-- The rounds for shorter data end.
abbrev Ends : ℕ → (Literals → Bytes → Parse) → Type 0
Ends k again = (l : Literals) (d : Bytes) → length d ≤ k → (again l d).outcome ≢ starved

on_value-Ends :
    (k : ℕ) (again : Literals → Bytes → Parse) (l : Literals) (d name : Bytes)
    (r : Option (Bytes × Bytes))
    → Ends k again
    → length d ≤ k
    → Shrinks d r
    → (on_value again l name r).outcome ≢ starved
unfolding on_value on_routed
on_value-Ends k again l d name none h le s = λ e. cc
on_value-Ends k again l d name (some (value, rest)) h le s = routed (route_literal l name value)
  where
    routed : (r : Option Literals) → (on_routed again l rest r).outcome ≢ starved
    routed none = λ e. cc
    routed (some l') = h l' rest (omega (arith, le, s))

on_name-Ends :
    (k : ℕ) (again : Literals → Bytes → Parse) (l : Literals) (d : Bytes)
    (r : Option (Bytes × Bytes))
    → Ends k again
    → length d ≤ suc k
    → Shrinks d r
    → (on_name again l r).outcome ≢ starved
unfolding on_name
on_name-Ends k again l d none h le s = λ e. cc
on_name-Ends k again l d (some (name, rest)) h le s =
    on_value-Ends k again l rest name (read_literal rest) h (omega (arith, le, s))
      (read_literal-Shrinks rest)

parse_literals-Ends : (k : ℕ) → Ends k (parse_literals k)
unfolding parse_literals
parse_literals-Ends zero l [] h = λ e. cc
parse_literals-Ends zero l (x ∷ d) h = absurd (omega (arith, h))
parse_literals-Ends (suc k) l [] h = λ e. cc
parse_literals-Ends (suc k) l (x ∷ d) h =
    on_name-Ends k (parse_literals k) l (x ∷ d) (read_literal (x ∷ d)) (parse_literals-Ends k) h
      (read_literal-Shrinks (x ∷ d))

-- parse_request_headers ends on any bytes: it returns true or false or throws, after at most as many
-- rounds as there are bytes.
pub parse_request_headers-ends :
    (d : Bytes) (l : Literals) → (parse_request_headers d l).outcome ≢ starved
unfolding parse_request_headers
parse_request_headers-ends d l = parse_literals-Ends (length d) l d (omega arith)
