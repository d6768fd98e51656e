-- ===== src/Bits.antt =====
-- Facts about the bit operations that the varint codec uses: masking the low bits of a byte, and
-- joining parts that do not overlap.
use Prim.Native.Nat.{bit_and, bit_or, digits, bit_or-bitwise, max}
use reverse_proxy_server.Base.{
  ℕ, zero, suc, ◌+◌, ◌*◌, ◌/◌, ◌%◌, ◌^◌, ◌≤◌, ◌<◌, ◌≡◌, refl, ◌∙◌, Bool, true, ◌&&◌, ◌==◌, arith,
}

module _ (f g : ℕ → ℕ) where
  agree_below : ℕ → Bool
  agree_below zero = true
  agree_below (suc n) = f n == g n && agree_below n

  agree_below→eq : (n : ℕ) → agree_below n ≡ true → (i : ℕ) → i < n → f i ≡ g i
  unfolding agree_below
  agree_below→eq zero e i h = absurd (omega arith)
  agree_below→eq (suc n) e i h = ground (arith, agree_below→eq n (ground arith) i)

pub bit_and_mask : (x : ℕ) → x < 256 → bit_and x 0x3f ≡ x % 64
unfolding agree_below
bit_and_mask = agree_below→eq _ _ 256 refl

-- What bit_or computes with a count of digits to go.
abbrev or_digits : ℕ → ℕ → ℕ → ℕ
or_digits = digits (λ b. b) max

or_digits_disjoint : (n k a x b : ℕ) → x ≤ n → x ≡ a * 2 ^ k → b < 2 ^ k → or_digits n x b ≡ x + b
or_digits_disjoint zero k a x b le e h = omega arith
or_digits_disjoint (suc n) k a zero b le e h = omega arith
or_digits_disjoint (suc n) zero a (suc x) b le e h = omega (
  arith,
  or_digits_disjoint n zero (suc x / 2) (suc x / 2) (b / 2) (omega arith) (omega arith)
      (omega arith),
)
or_digits_disjoint (suc n) (suc k) a (suc x) b le e h = omega (
  arith,
  or_digits_disjoint n k a (suc x / 2) (b / 2) (omega arith) (omega (arith, product))
      (omega (arith, double k)),
  product,
)
  where
    double : (k : ℕ) → 2 ^ suc k ≡ 2 * 2 ^ k
    double k = omega arith

    product : suc x ≡ 2 * (a * 2 ^ k)
    product = e ∙ rw (double k) (omega arith)

-- Parts that do not overlap are joined as by addition.
pub bit_or_disjoint : (k a x b : ℕ) → x ≡ a * 2 ^ k → b < 2 ^ k → bit_or x b ≡ x + b
bit_or_disjoint k a x b e h = bit_or-bitwise x b ∙ or_digits_disjoint x k a x b (omega arith) e h
