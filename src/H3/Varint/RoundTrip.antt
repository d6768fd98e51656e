-- ===== src/H3/Varint/RoundTrip.antt =====
-- encode_varint of src/codec/h3_codec.cpp, followed by decode_varint.
use Prim.Native.Nat.{bit_and, bit_or}
use reverse_proxy_server.Base.{
  ℕ, suc, ◌+◌, ◌*◌, ◌/◌, ◌^◌, ◌≡◌, ◌<◌, ◌≤◌, refl, ◌∙◌, ◌∷◌, ◌++◌, leb, ltb, length, arith,
  Bool-cases, inl, inr, false,
}
use reverse_proxy_server.Text.{Bytes}
use reverse_proxy_server.Bits.{bit_and_mask, bit_or_disjoint}
use reverse_proxy_server.H3.Varint.{
  tag_bytes, shl, varint_value, decode_varint, byte_at, encode_varint,
}

-- Appending a byte to a number that is a multiple of 256.
join : (k a x b c : ℕ) → x ≡ a * 2 ^ k → b < 2 ^ k → x + b ≡ c → bit_or x b ≡ c
join k a x b c e h s = bit_or_disjoint k a x b e h ∙ s

-- The first byte holds the tag `t` above six bits of the value.
masked : (t a : ℕ) → t < 4 → a < 64 → bit_and (t * 64 + a) 0x3f ≡ a
masked t a ht ha = omega (arith, bit_and_mask (t * 64 + a) (omega arith))

tag_first : (t a : ℕ) → t < 4 → a < 64 → bit_or (t * 64) a ≡ t * 64 + a
tag_first t a ht ha = bit_or_disjoint 6 t (t * 64) a (omega arith) ha

one : (a v : ℕ) (rest : Bytes) → a < 64 → v ≡ a → varint_value 1 (a ∷ rest) ≡ v
unfolding varint_value
one a v rest ha e = omega (arith, bit_and_mask a (omega arith))

two :
    (a b v : ℕ) (rest : Bytes)
    → a < 64
    → b < 256
    → v ≡ a * 2 ^ 8 + b
    → varint_value 2 ((1 * 64 + a) ∷ b ∷ rest) ≡ v
unfolding varint_value
two a b v rest ha hb e =
    rw (masked 1 a (omega arith) ha) (join 8 a (shl a 8) b v (omega arith) hb (omega arith))

four :
    (a b c d v : ℕ) (rest : Bytes)
    → a < 64
    → b < 256
    → c < 256
    → d < 256
    → v ≡ a * 2 ^ 24 + b * 2 ^ 16 + c * 2 ^ 8 + d
    → varint_value 4 ((2 * 64 + a) ∷ b ∷ c ∷ d ∷ rest) ≡ v
unfolding varint_value
four a b c d v rest ha hb hc hd e =
    rw (masked 2 a (omega arith) ha, b16, c8)
      (join 8 (a * 2 ^ 16 + b * 2 ^ 8 + c) _ d v (omega arith) hd (omega arith))
  where
    b16 : bit_or (shl a 24) (shl b 16) ≡ a * 2 ^ 24 + b * 2 ^ 16
    b16 = join 24 a (shl a 24) (shl b 16) _ (omega arith) (omega arith) (omega arith)

    c8 : bit_or (a * 2 ^ 24 + b * 2 ^ 16) (shl c 8) ≡ a * 2 ^ 24 + b * 2 ^ 16 + c * 2 ^ 8
    c8 = join 16 (a * 2 ^ 8 + b) _ (shl c 8) _ (omega arith) (omega arith) (omega arith)

module _ (a b c d e f g h v : ℕ) (rest : Bytes) (ha : a < 64) (hb : b < 256) (hc : c < 256)
    (hd : d < 256) (he : e < 256) (hf : f < 256) (hg : g < 256) (hh : h < 256) where
  b48 : bit_or (shl a 56) (shl b 48) ≡ a * 2 ^ 56 + b * 2 ^ 48
  b48 = join 56 a (shl a 56) (shl b 48) _ (omega arith) (omega arith) (omega arith)

  c40 : bit_or (a * 2 ^ 56 + b * 2 ^ 48) (shl c 40) ≡ a * 2 ^ 56 + b * 2 ^ 48 + c * 2 ^ 40
  c40 = join 48 (a * 2 ^ 8 + b) _ (shl c 40) _ (omega arith) (omega arith) (omega arith)

  d32 :
      bit_or (a * 2 ^ 56 + b * 2 ^ 48 + c * 2 ^ 40) (shl d 32)
      ≡ a * 2 ^ 56 + b * 2 ^ 48 + c * 2 ^ 40 + d * 2 ^ 32
  d32 =
      join 40 (a * 2 ^ 16 + b * 2 ^ 8 + c) _ (shl d 32) _ (omega arith) (omega arith) (omega arith)

  abbrev high : ℕ
  high = a * 2 ^ 24 + b * 2 ^ 16 + c * 2 ^ 8 + d

  e24 :
      bit_or (a * 2 ^ 56 + b * 2 ^ 48 + c * 2 ^ 40 + d * 2 ^ 32) (shl e 24)
      ≡ high * 2 ^ 32 + e * 2 ^ 24
  e24 = join 32 high _ (shl e 24) _ (omega arith) (omega arith) (omega arith)

  f16 : bit_or (high * 2 ^ 32 + e * 2 ^ 24) (shl f 16) ≡ high * 2 ^ 32 + e * 2 ^ 24 + f * 2 ^ 16
  f16 = join 24 (high * 2 ^ 8 + e) _ (shl f 16) _ (omega arith) (omega arith) (omega arith)

  g8 :
      bit_or (high * 2 ^ 32 + e * 2 ^ 24 + f * 2 ^ 16) (shl g 8)
      ≡ high * 2 ^ 32 + e * 2 ^ 24 + f * 2 ^ 16 + g * 2 ^ 8
  g8 =
      join 16 (high * 2 ^ 16 + e * 2 ^ 8 + f) _ (shl g 8) _ (omega arith) (omega arith)
        (omega arith)

  eight :
      v
        ≡ (a * 2 ^ 24 + b * 2 ^ 16 + c * 2 ^ 8 + d) * 2 ^ 32
          + e * 2 ^ 24
          + f * 2 ^ 16
          + g * 2 ^ 8
          + h
      → varint_value 8 ((3 * 64 + a) ∷ b ∷ c ∷ d ∷ e ∷ f ∷ g ∷ h ∷ rest) ≡ v
  unfolding varint_value
  eight s =
      rw (masked 3 a (omega arith) ha, b48, c40, d32, e24, f16, g8)
        (join 8 (high * 2 ^ 24 + e * 2 ^ 16 + f * 2 ^ 8 + g) _ h v (omega arith) hh (omega arith))

decode_varint-known :
    (n first : ℕ) (rest : Bytes)
    → tag_bytes first ≡ n
    → n ≤ suc (length rest)
    → decode_varint (first ∷ rest)
      ≡ record { value = varint_value n (first ∷ rest); bytes_read = n }
unfolding decode_varint
decode_varint-known n first rest e h = rw (e, enough)
  where
    enough : ltb (suc (length rest)) n ≡ false
    enough = ground arith

tag_bytes-tag : (t a n : ℕ) → t < 4 → a < 64 → tag_bytes (t * 64) ≡ n → tag_bytes (t * 64 + a) ≡ n
unfolding tag_bytes
tag_bytes-tag t a n ht ha e = rw same e
  where
    same : (t * 64 + a) / 64 ≡ t * 64 / 64
    same = omega arith

module _ (t n a v : ℕ) (rest : Bytes) (ht : t < 4) (ha : a < 64) (tag : tag_bytes (t * 64) ≡ n)
    (enough : n ≤ suc (length rest)) where
  decode_varint-tagged :
      varint_value n ((t * 64 + a) ∷ rest) ≡ v
      → decode_varint (bit_or (t * 64) a ∷ rest) ≡ record { value = v; bytes_read = n }
  decode_varint-tagged e =
      rw (tag_first t a ht ha)
        (decode_varint-known n (t * 64 + a) rest (tag_bytes-tag t a n ht ha tag) enough ∙ rw e)

-- decode_varint reads back every value below 2 ^ 62 that encode_varint writes, whatever follows it,
-- and reports just the bytes that were written.
pub decode_varint-encode_varint :
    (v : ℕ) (rest : Bytes)
    → v < 2 ^ 62
    → decode_varint (encode_varint v ++ rest)
      ≡ record { value = v; bytes_read = length (encode_varint v) }
unfolding encode_varint tag_bytes
decode_varint-encode_varint v rest h = elim (Bool-cases (leb v 0x3f)) [
  | inl s1 ↦ rw s1 (
      decode_varint-known 1 (byte_at 0 v) rest (ground arith) (omega arith)
      ∙ rw (one (byte_at 0 v) v rest (ground arith) (ground arith)))
  | inr l1 ↦ elim (Bool-cases (leb v 0x3fff)) [
    | inl s2 ↦
        rw (l1, s2)
          (decode_varint-tagged 1 2 (byte_at 8 v) v (byte_at 0 v ∷ rest) (omega arith)
            (ground arith) refl (omega arith)
            (two (byte_at 8 v) (byte_at 0 v) v rest (ground arith) (omega arith) (ground arith)))
    | inr l2 ↦ elim (Bool-cases (leb v 0x3fffffff)) [
      | inl s4 ↦
          rw (l1, l2, s4)
            (decode_varint-tagged 2 4 (byte_at 24 v) v
              (byte_at 16 v ∷ byte_at 8 v ∷ byte_at 0 v ∷ rest) (omega arith) (ground arith) refl
              (omega arith)
              (four (byte_at 24 v) (byte_at 16 v) (byte_at 8 v) (byte_at 0 v) v rest (ground arith)
                (omega arith) (omega arith) (omega arith) (ground arith)))
      | inr l4 ↦
          rw (l1, l2, l4)
            (decode_varint-tagged 3 8 (byte_at 56 v) v
              (byte_at 48 v
                ∷ byte_at 40 v
                ∷ byte_at 32 v
                ∷ byte_at 24 v
                ∷ byte_at 16 v
                ∷ byte_at 8 v
                ∷ byte_at 0 v
                ∷ rest)
              (omega arith) (omega arith) refl (omega arith)
              (eight (byte_at 56 v) (byte_at 48 v) (byte_at 40 v) (byte_at 32 v) (byte_at 24 v)
                (byte_at 16 v) (byte_at 8 v) (byte_at 0 v) v rest (omega arith) (omega arith)
                (omega arith) (omega arith) (omega arith) (omega arith) (omega arith) (omega arith)
                (omega arith)))
    ]
  ]
]
