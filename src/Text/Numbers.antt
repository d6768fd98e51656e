-- ===== src/Text/Numbers.antt =====
-- Decimal numbers: what `to_string` writes, `strtoul` and `stream >> number` read back.
use reverse_proxy_server.Base.{
  ℕ, length, zero, suc, ◌+◌, ◌*◌, ◌/◌, ◌%◌, ◌^◌, ◌≤◌, ◌<◌, ◌≡◌, ◌≢◌, inl, inr, refl, ◌∙◌, true,
  false, ◌||◌, [], ◌∷◌, ◌++◌, none, some, arith, ltb, All, Bool-cases,
}
use reverse_proxy_server.Text.{
  Bytes, is_space, skip_while, digit_value, read_digits, read_number, read_sign, decimal_onto,
  to_string, strtoul, skip_0x, word64,
}

-- The text does not go on with a decimal digit.
abbrev pub EndsNumber : Bytes → Type 0
EndsNumber [] = Unit {0}
EndsNumber (c ∷ s) = digit_value 10 c ≡ none

-- The text begins with a decimal digit.
abbrev pub BeginsNumber : Bytes → Type 0
BeginsNumber [] = ⊥
BeginsNumber (c ∷ s) = (b'0' ≤ c) × (c ≤ b'9')

digit_value-digit : (d : ℕ) → d < 10 → digit_value 10 (b'0' + d) ≡ some d
unfolding digit_value
digit_value-digit d h = ground arith

read_digits-decimal_onto :
    (fuel n : ℕ) (out : Bytes)
    → n < fuel
    → read_digits 10 0 (decimal_onto fuel n out) ≡ read_digits 10 n out
unfolding decimal_onto read_digits
read_digits-decimal_onto zero n out h = elim h [ ]
read_digits-decimal_onto (suc fuel) n out h = elim (Bool-cases (ltb n 10)) [
  | inl small ↦ rw small (last small)
  | inr large ↦ rw large (
      read_digits-decimal_onto fuel (n / 10) ((b'0' + n % 10) ∷ out) (ground arith)
      ∙ one (n / 10) (n % 10) n (omega arith) (omega arith))
]
  where
    one :
        (acc d m : ℕ)
        → d < 10
        → m ≡ acc * 10 + d
        → read_digits 10 acc ((b'0' + d) ∷ out) ≡ read_digits 10 m out
    one acc d m p e = rw (digit_value-digit d p, read_digits) (rw e)

    last : ltb n 10 ≡ true → read_digits 10 0 ((b'0' + n % 10) ∷ out) ≡ read_digits 10 n out
    last s = one 0 (n % 10) n (omega arith) (ground arith)

decimal_onto-BeginsNumber :
    (fuel n : ℕ) (out : Bytes) → n < fuel → BeginsNumber (decimal_onto fuel n out)
unfolding decimal_onto
decimal_onto-BeginsNumber zero n out h = elim h [ ]
decimal_onto-BeginsNumber (suc fuel) n out h = elim (Bool-cases (ltb n 10)) [
  | inl small ↦ rw small (omega arith)
  | inr large ↦
      rw large (decimal_onto-BeginsNumber fuel (n / 10) ((b'0' + n % 10) ∷ out) (ground arith))
]

decimal_onto-append :
    (fuel n : ℕ) (out s : Bytes) → decimal_onto fuel n out ++ s ≡ decimal_onto fuel n (out ++ s)
unfolding decimal_onto
decimal_onto-append zero n out s = refl
decimal_onto-append (suc fuel) n out s = elim (Bool-cases (ltb n 10)) [
  | inl small ↦ rw small
  | inr large ↦ rw large (decimal_onto-append fuel (n / 10) ((b'0' + n % 10) ∷ out) s)
]

read_digits-EndsNumber : (n : ℕ) (s : Bytes) → EndsNumber s → read_digits 10 n s ≡ (n, s)
unfolding read_digits
read_digits-EndsNumber n [] h = refl
read_digits-EndsNumber n (c ∷ s) h = rw (h, read_digits)

BeginsNumber-digit : (t : Bytes) → BeginsNumber t → read_number 10 t ≡ some (read_digits 10 0 t)
unfolding read_number
BeginsNumber-digit [] h = elim h [ ]
BeginsNumber-digit (c ∷ t) h = unfold digit_value in ground arith

pub to_string-BeginsNumber : (n : ℕ) (s : Bytes) → BeginsNumber (to_string n ++ s)
unfolding to_string
to_string-BeginsNumber n s =
    rw (decimal_onto-append (n + 1) n [] s) (decimal_onto-BeginsNumber (n + 1) n s (omega arith))

-- A written number is read up to the first byte that is no digit.
pub read_number-to_string :
    (n : ℕ) (s : Bytes) → EndsNumber s → read_number 10 (to_string n ++ s) ≡ some (n, s)
unfolding to_string
read_number-to_string n s h = rw (
  BeginsNumber-digit (to_string n ++ s) (to_string-BeginsNumber n s),
  decimal_onto-append (n + 1) n [] s,
  read_digits-decimal_onto (n + 1) n s (omega arith),
  read_digits-EndsNumber n s h,
)

plain_digit : (t : Bytes) → BeginsNumber t → read_sign (skip_while is_space t) ≡ (false, t)
unfolding read_sign skip_while is_space
plain_digit [] h = elim h [ ]
plain_digit (c ∷ t) h = ground arith

-- In front of a written number there is neither a blank nor a sign to skip.
pub read_sign-to_string :
    (n : ℕ) (s : Bytes)
    → read_sign (skip_while is_space (to_string n ++ s)) ≡ (false, to_string n ++ s)
read_sign-to_string n s = plain_digit (to_string n ++ s) (to_string-BeginsNumber n s)

skip_0x-ten : (t : Bytes) → skip_0x 10 t ≡ t
unfolding skip_0x
skip_0x-ten [] = refl
skip_0x-ten (z ∷ []) = refl
skip_0x-ten (z ∷ x ∷ []) = refl
skip_0x-ten (z ∷ x ∷ d ∷ s) = refl

-- strtoul reads back every 64-bit number that to_string writes.
pub strtoul-to_string :
    (n : ℕ) (s : Bytes) → n < word64 → EndsNumber s → strtoul 10 (to_string n ++ s) ≡ n
unfolding strtoul
strtoul-to_string n s small h =
    rw (read_sign-to_string n s, skip_0x-ten (to_string n ++ s), read_number-to_string n s h)
      (ground arith)

decimal_onto-All :
    (c fuel n : ℕ) (out : Bytes)
    → (ltb c b'0' || ltb b'9' c) ≡ true
    → All (λ x. x ≢ c) out
    → All (λ x. x ≢ c) (decimal_onto fuel n out)
unfolding decimal_onto
decimal_onto-All c zero n out o h = h
decimal_onto-All c (suc fuel) n out o h = elim (Bool-cases (ltb n 10)) [
  | inl small ↦ rw small (ground arith, h)
  | inr large ↦
      rw large (decimal_onto-All c fuel (n / 10) ((b'0' + n % 10) ∷ out) o (ground arith, h))
]

-- A number holds no byte but digits.
pub to_string-Free : (c n : ℕ) → (ltb c b'0' || ltb b'9' c) ≡ true → All (λ x. x ≢ c) (to_string n)
unfolding to_string
to_string-Free c n o = decimal_onto-All c (n + 1) n [] o tt

length-decimal_onto :
    (d fuel n : ℕ) (out : Bytes)
    → n < 10 ^ suc d
    → length (decimal_onto fuel n out) ≤ length out + suc d
unfolding decimal_onto
length-decimal_onto d zero n out h = omega arith
length-decimal_onto zero (suc fuel) n out h = ground (arith, h)
length-decimal_onto (suc d) (suc fuel) n out h =
    ground
      (arith, h, length-decimal_onto d fuel (n / 10) ((b'0' + n % 10) ∷ out) (omega (arith, h)))

-- A number of 64 bits has at most 20 digits.
pub length-to_string : (n : ℕ) → n < word64 → length (to_string n) ≤ 20
unfolding to_string
length-to_string n h = length-decimal_onto 19 (n + 1) n [] (omega (arith, h))
