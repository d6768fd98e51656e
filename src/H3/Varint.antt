-- ===== src/H3/Varint.antt =====
-- QUIC variable-length integers (RFC 9000, 16), src/codec/h3_codec.cpp. A uint64_t is a number
-- below 2 ^ 64, a byte one below 256.
pub mod RoundTrip
use Prim.Native.Nat.{bit_and, bit_or}
use reverse_proxy_server.Base.{
  ℕ, zero, suc, ◌+◌, ◌*◌, ◌/◌, ◌%◌, ◌^◌, List, [], ◌∷◌, if◌then◌else◌, leb, ltb, ◌==◌, length,
}
use reverse_proxy_server.Text.{Bytes}

pub record VarintResult : Type 0 where
  pub value : ℕ
  pub bytes_read : ℕ

abbrev no_varint : VarintResult
no_varint = record { value = 0; bytes_read = 0 }

-- The `switch` on the two top bits.
unfoldable pub tag_bytes : ℕ → ℕ
tag_bytes first =
    let tag = first / 64 in
    if tag == 0 then 1 else if tag == 1 then 2 else if tag == 2 then 4 else 8

-- `x << k` at 64 bits.
abbrev pub shl : ℕ → ℕ → ℕ
shl x k = (x * 2 ^ k) % 2 ^ 64

-- The value, once `len >= bytes`.
unfoldable pub varint_value : ℕ → Bytes → ℕ
varint_value (suc zero) (a ∷ _) = bit_and a 0x3f
varint_value (suc (suc zero)) (a ∷ b ∷ _) = bit_or (shl (bit_and a 0x3f) 8) b
varint_value (suc (suc (suc (suc zero)))) (a ∷ b ∷ c ∷ d ∷ _) =
    bit_or (bit_or (bit_or (shl (bit_and a 0x3f) 24) (shl b 16)) (shl c 8)) d
varint_value (suc (suc (suc (suc (suc (suc (suc (suc zero))))))))
      (a ∷ b ∷ c ∷ d ∷ e ∷ f ∷ g ∷ h ∷ _) =
    bit_or
      (bit_or
        (bit_or
          (bit_or
            (bit_or (bit_or (bit_or (shl (bit_and a 0x3f) 56) (shl b 48)) (shl c 40)) (shl d 32))
            (shl e 24))
          (shl f 16))
        (shl g 8))
      h
varint_value _ _ = 0

unfoldable pub decode_varint : Bytes → VarintResult
unfolding tag_bytes
decode_varint [] = no_varint
decode_varint (first ∷ rest) =
    let bytes = tag_bytes first in
    if ltb (length (first ∷ rest)) bytes
    then no_varint
    else record { value = varint_value bytes (first ∷ rest); bytes_read = bytes }

unfoldable pub varint_size : ℕ → ℕ
varint_size value =
    if leb value 0x3f
    then 1
    else if leb value 0x3fff
    then 2
    else if leb value 0x3fffffff
    then 4
    else 8

-- `static_cast<uint8_t>(value >> k)`.
abbrev pub byte_at : ℕ → ℕ → ℕ
byte_at k value = (value / 2 ^ k) % 256

-- The bytes written to `out`; the function returns their number.
unfoldable pub encode_varint : ℕ → Bytes
unfolding varint_size
encode_varint value =
    let bytes = varint_size value in
    if bytes == 1
    then byte_at 0 value ∷ []
    else if bytes == 2
    then bit_or 0x40 (byte_at 8 value) ∷ byte_at 0 value ∷ []
    else if bytes == 4
    then bit_or 0x80 (byte_at 24 value) ∷ byte_at 16 value ∷ byte_at 8 value ∷ byte_at 0 value ∷ []
    else bit_or 0xc0 (byte_at 56 value)
      ∷ byte_at 48 value
      ∷ byte_at 40 value
      ∷ byte_at 32 value
      ∷ byte_at 24 value
      ∷ byte_at 16 value
      ∷ byte_at 8 value
      ∷ byte_at 0 value
      ∷ []
