-- ===== src/Text.antt =====
-- Texts as lists of bytes, with the parts of std::string, <cctype>, <cstdlib> and std::istream that
-- the proxy uses: find, tolower, strtoul, to_string, getline and the `>>` of words and numbers.
pub mod Laws
pub mod Numbers
use Prim.Native.Char.{code}
use Prim.Native.String.{String}
use reverse_proxy_server.Base.{
  ℕ, zero, suc, ◌+◌, ◌-◌, ◌*◌, ◌/◌, ◌%◌, ◌^◌, ◌≡◌, ◌↔◌, refl, Bool, true, false, not, ◌&&◌, ◌||◌,
  List, [], ◌∷◌, ◌++◌, map, Option, none, some, arith, leb, ltb, ◌==◌, if◌then◌else◌, is_empty,
  is_some, value_or,
}
use mathlib.Core.Option

abbrev pub Bytes : Type 0
Bytes = List ℕ

abbrev pub codes : String → Bytes
codes String.[] = []
codes (String.◌∷◌ c s) = code c ∷ codes s

-- std::string's operator==.
unfoldable pub str_eq : Bytes → Bytes → Bool
str_eq [] [] = true
str_eq (x ∷ xs) (y ∷ ys) = x == y && str_eq xs ys
str_eq _ _ = false

-- `rfind(p, 0) == 0`.
unfoldable pub starts_with : Bytes → Bytes → Bool
starts_with [] s = true
starts_with (x ∷ p) [] = false
starts_with (x ∷ p) (y ∷ s) = x == y && starts_with p s

-- `find(p)`: the first position at which `p` stands.
unfoldable pub find : Bytes → Bytes → Option ℕ
unfolding starts_with
find p [] = if is_empty p then some 0 else none
find p (x ∷ s) = if starts_with p (x ∷ s) then some 0 else Option.map suc (find p s)

-- `find(c)` and `rfind(c)` for one byte.
unfoldable pub find_byte : ℕ → Bytes → Option ℕ
find_byte c [] = none
find_byte c (x ∷ s) = if x == c then some 0 else Option.map suc (find_byte c s)

later_or : Option ℕ → Option ℕ → Option ℕ
later_or none here = here
later_or (some i) here = some (suc i)

unfoldable pub rfind_byte : ℕ → Bytes → Option ℕ
unfolding later_or
rfind_byte c [] = none
rfind_byte c (x ∷ s) = later_or (rfind_byte c s) (if x == c then some 0 else none)

unfoldable pub lower_byte : ℕ → ℕ
lower_byte c = if leb b'A' c && leb c b'Z' then c + 32 else c

unfoldable pub lower : Bytes → Bytes
unfolding lower_byte
lower = map lower_byte

-- isspace in the C locale.
unfoldable pub is_space : ℕ → Bool
is_space c = c == 32 || (leb 9 c && leb c 13)

unfoldable pub is_blank : ℕ → Bool
is_blank c = c == 32 || c == 9

unfoldable pub skip_while : (ℕ → Bool) → Bytes → Bytes
skip_while p [] = []
skip_while p (x ∷ s) = if p x then skip_while p s else x ∷ s

unfoldable pub take_while : (ℕ → Bool) → Bytes → Bytes
take_while p [] = []
take_while p (x ∷ s) = if p x then x ∷ take_while p s else []

-- `find_first_not_of(" \t")` and `substr` from there; a text of blanks alone stays.
unfoldable pub trim_leading : Bytes → Bytes
unfolding skip_while is_blank
trim_leading s = let t = skip_while is_blank s in if is_empty t then s else t

-- `stream >> word`: the word, and what is left of the stream.
unfoldable pub next_word : Bytes → Bytes × Bytes
unfolding skip_while take_while is_space
next_word s =
    let t = skip_while is_space s in
    (take_while (λ c. not (is_space c)) t, skip_while (λ c. not (is_space c)) t)

onto_first : ℕ → List Bytes → List Bytes
onto_first c [] = (c ∷ []) ∷ []
onto_first c (l ∷ ls) = (c ∷ l) ∷ ls

-- The lines that `std::getline` takes from a stream one after the other, until it fails.
unfoldable pub lines : Bytes → List Bytes
unfolding onto_first
lines [] = []
lines (c ∷ s) = if c == 10 then [] ∷ lines s else onto_first c (lines s)

-- `if (!line.empty() && line.back() == '\r') line.pop_back()`.
unfoldable pub pop_cr : Bytes → Bytes
pop_cr [] = []
pop_cr (x ∷ []) = if x == 13 then [] else x ∷ []
pop_cr (x ∷ y ∷ s) = x ∷ pop_cr (y ∷ s)

-- The value of a digit in `base`, for strtoul.
unfoldable pub digit_value : ℕ → ℕ → Option ℕ
digit_value base c =
    let v =
      if leb b'0' c && leb c b'9'
      then c - b'0'
      else if leb b'a' c && leb c b'z'
      then c - b'a' + 10
      else if leb b'A' c && leb c b'Z'
      then c - b'A' + 10
      else 99 in
    if ltb v base then some v else none

unfoldable pub read_digits : ℕ → ℕ → Bytes → ℕ × Bytes
unfolding digit_value
read_digits base acc [] = (acc, [])
read_digits base acc (c ∷ s) = elim (digit_value base c) [
  | none ↦ (acc, c ∷ s)
  | some v ↦ read_digits base (acc * base + v) s
]

abbrev pub word64 : ℕ
word64 = 2 ^ 64

-- An optional sign: whether it is a minus, and what follows.
unfoldable pub read_sign : Bytes → Bool × Bytes
read_sign [] = (false, [])
read_sign (c ∷ s) =
    if c == b'-' then (true, s) else if c == b'+' then (false, s) else (false, c ∷ s)

-- The optional `0x` of base 16, which counts only before a digit.
unfoldable pub skip_0x : ℕ → Bytes → Bytes
unfolding digit_value
skip_0x base (z ∷ x ∷ d ∷ s) =
    if base == 16 && z == b'0' && (x == b'x' || x == b'X') && is_some (digit_value base d)
    then d ∷ s
    else z ∷ x ∷ d ∷ s
skip_0x base s = s

-- Digits at the start of `s`: their value and what follows, or none where there is no digit.
unfoldable pub read_number : ℕ → Bytes → Option (ℕ × Bytes)
unfolding read_digits digit_value
read_number base [] = none
read_number base (c ∷ s) =
    if is_some (digit_value base c) then some (read_digits base 0 (c ∷ s)) else none

clamp64 : Bool → Option (ℕ × Bytes) → Option ℕ
clamp64 minus none = none
clamp64 minus (some (v, _)) =
    some (if leb word64 v then word64 - 1 else if minus then (word64 - v) % word64 else v)

-- `strtoul(s, &end, base)`; none where `end == s`. The result is clamped to ULONG_MAX, and
-- negated modulo 2^64 behind a minus.
unfoldable pub strtoul? : ℕ → Bytes → Option ℕ
unfolding clamp64
strtoul? base s =
    let p = read_sign (skip_while is_space s) in clamp64 p.0 (read_number base (skip_0x base p.1))

-- `strtoul` with its `end` ignored: 0 where there is no number.
unfoldable pub strtoul : ℕ → Bytes → ℕ
unfolding strtoul?
strtoul base s = value_or (strtoul? base s) 0

decimal_onto : ℕ → ℕ → Bytes → Bytes
decimal_onto zero n out = out
decimal_onto (suc fuel) n out =
    let d = (b'0' + n % 10) ∷ out in
    let more = decimal_onto fuel (n / 10) d in if ltb n 10 then d else more

-- `std::to_string` of an unsigned number; a number has at most as many digits as the fuel.
unfoldable pub to_string : ℕ → Bytes
unfolding decimal_onto
to_string n = decimal_onto (n + 1) n []

abbrev pub crlf : Bytes
crlf = 13 ∷ 10 ∷ []

pub str_eq_iff : (a b : Bytes) → (str_eq a b ≡ true) ↔ (a ≡ b)
unfolding str_eq
str_eq_iff (x ∷ a) (y ∷ b) = ground (arith, str_eq_iff a b)
str_eq_iff _ _ = ground arith
