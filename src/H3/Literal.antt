-- ===== src/H3/Literal.antt =====
-- h3_detail::parse_request_headers of src/codec/h3_codec.cpp. Its data is a list of bytes; the
-- out-parameters go in and out as a record. Each round of the loop takes a unit of fuel.
pub mod RoundTrip
pub mod Ends
use reverse_proxy_server.Base.{
  ℕ, zero, suc, ◌^◌, Bool, true, false, List, [], ◌∷◌, Option, none, some, if◌then◌else◌, take,
  drop, ltb, ◌==◌, length, ◌-◌, ◌%◌,
}
use reverse_proxy_server.Text.{
  Bytes, codes, str_eq, read_sign, read_number, skip_while, is_space, word64,
}
use reverse_proxy_server.Http.Headers.{HeaderMap, add}
use reverse_proxy_server.H3.Varint.{VarintResult, decode_varint}
use reverse_proxy_server.H3.Heads.{is_pseudo}

-- The parameters that are references.
pub record Literals : Type 0 where
  pub method : Bytes
  pub path : Bytes
  pub hdrs : HeaderMap
  pub content_length : Option ℕ

pub data Outcome : Type 0 where
  returned : Bool → Outcome
  -- std::stoull throws.
  thrown starved : Outcome

pub record Parse : Type 0 where
  pub out : Literals
  pub outcome : Outcome

unfoldable pub in_range : Bool → Option (ℕ × Bytes) → Option ℕ
in_range minus none = none
in_range minus (some (v, _)) =
    if ltb v word64 then some (if minus then (word64 - v) % word64 else v) else none

-- `std::stoull(s)`; none where it throws.
unfoldable pub stoull : Bytes → Option ℕ
unfolding in_range
stoull s = let p = read_sign (skip_while is_space s) in in_range p.0 (read_number 10 p.1)

with_length : Literals → Option ℕ → Option Literals
with_length l none = none
with_length l (some n) = some (record l { content_length = some n })

-- The `if` chain on the name; none where it throws.
unfoldable pub route_literal : Literals → Bytes → Bytes → Option Literals
unfolding with_length
route_literal l name value =
    if str_eq name (codes ":method")
    then some (record l { method = value })
    else if str_eq name (codes ":path")
    then some (record l { path = value })
    else if str_eq name (codes ":authority")
    then some (record l { hdrs = add l.hdrs (codes "host") value })
    else if str_eq name (codes "content-length")
    then with_length l (stoull value)
    else if is_pseudo name
    then some l
    else some (record l { hdrs = add l.hdrs name value })

-- A length and as many bytes, with the data behind them; none where the data is too short.
unfoldable pub read_literal : Bytes → Option (Bytes × Bytes)
read_literal bytes =
    let vr = decode_varint bytes in
    let left = drop vr.bytes_read bytes in
    if vr.bytes_read == 0
    then none
    else if ltb (length left) vr.value
    then none
    else some (take vr.value left, drop vr.value left)

unfoldable pub on_routed : (Literals → Bytes → Parse) → Literals → Bytes → Option Literals → Parse
on_routed again l bytes none = record { out = l; outcome = thrown }
on_routed again l bytes (some l') = again l' bytes

unfoldable pub on_value :
    (Literals → Bytes → Parse) → Literals → Bytes → Option (Bytes × Bytes) → Parse
unfolding on_routed
on_value again l name none = record { out = l; outcome = returned false }
on_value again l name (some (value, bytes)) = on_routed again l bytes (route_literal l name value)

unfoldable pub on_name : (Literals → Bytes → Parse) → Literals → Option (Bytes × Bytes) → Parse
unfolding on_value
on_name again l none = record { out = l; outcome = returned false }
on_name again l (some (name, bytes)) = on_value again l name (read_literal bytes)

unfoldable pub parse_literals : ℕ → Literals → Bytes → Parse
unfolding on_name
parse_literals k l [] = record { out = l; outcome = returned true }
parse_literals zero l (x ∷ bytes) = record { out = l; outcome = starved }
parse_literals (suc k) l (x ∷ bytes) = on_name (parse_literals k) l (read_literal (x ∷ bytes))

unfoldable pub parse_request_headers : Bytes → Literals → Parse
unfolding parse_literals
parse_request_headers bytes l = parse_literals (length bytes) l bytes
