-- ===== src/H3/Heads.antt =====
-- Header lists and heads, src/codec/h3_codec.cpp: h3_detail::request_head_from_headers and
-- response_head_from_headers, is_hop_by_hop, and the lists that async_write_request and
-- async_write_response send.
pub mod RoundTrip
pub mod HopByHop
use mathlib.Core.Option
use mathlib.Core.List.{foldl}
use reverse_proxy_server.Base.{
  ℕ, zero, suc, ◌+◌, ◌-◌, ◌^◌, ◌%◌, Bool, true, false, not, ◌&&◌, ◌||◌, List, [], ◌∷◌, ◌++◌, Option,
  none, some, if◌then◌else◌, is_empty, take, drop, value_or, leb, ltb, ◌==◌, length,
}
use reverse_proxy_server.Text.{
  Bytes, codes, str_eq, lower, strtoul, strtoul?, read_sign, read_number, skip_while, is_space,
  word64,
}
use reverse_proxy_server.Http.Headers.{Entry, HeaderMap, no_headers, add, get, set}
use reverse_proxy_server.Http.Message.{
  HttpRequestHead, HttpResponseHead, empty_request, empty_response, ℤ, pos, negsuc, int_to_string,
}
use reverse_proxy_server.H1.Fields.{content_length_of}
use reverse_proxy_server.H3.Varint.{VarintResult, decode_varint}

abbrev pub HeaderList : Type 0
HeaderList = List Entry

-- `n.empty() || n[0] == ':'`.
unfoldable pub is_pseudo : Bytes → Bool
is_pseudo [] = true
is_pseudo (c ∷ n) = c == b':'

abbrev pub version_3 : Bytes
version_3 = codes "HTTP/3"

unfoldable pub request_field : HttpRequestHead → Entry → HttpRequestHead
unfolding is_pseudo
request_field head (n, v) =
    if str_eq n (codes ":method")
    then record head { method = v }
    else if str_eq n (codes ":path")
    then record head { path = v }
    else if str_eq n (codes ":scheme")
    then record head { scheme = v }
    else if str_eq n (codes ":authority")
    then record head { authority = v; headers = set head.headers (codes "host") v }
    else if is_pseudo n
    then head
    else record head { headers = add head.headers n v }

unfoldable pub request_fields : HttpRequestHead → HeaderList → HttpRequestHead
request_fields head [] = head
request_fields head (e ∷ raw) = request_fields (request_field head e) raw

unfoldable pub request_head_from_headers : HeaderList → HttpRequestHead
request_head_from_headers raw =
    let head = request_fields (record empty_request { version = version_3 }) raw in
    record head { content_length = content_length_of head.headers }

-- `static_cast<int>` of a number in 64 bits, two's complement.
unfoldable pub int_of : ℕ → ℤ
int_of n = let low = n % 2 ^ 32 in if ltb low (2 ^ 31) then pos low else negsuc (2 ^ 32 - 1 - low)

-- The two's complement of a long; out of range it is clamped.
clamp_long : Bool → Option (ℕ × Bytes) → ℕ
clamp_long minus none = 0
clamp_long minus (some (v, _)) =
    if minus
    then if leb v (2 ^ 63) then (word64 - v) % word64 else 2 ^ 63
    else if ltb v (2 ^ 63)
    then v
    else 2 ^ 63 - 1

-- `static_cast<int>(std::strtol(v.c_str(), &end, 10))`.
unfoldable pub status_of : Bytes → ℤ
unfolding clamp_long int_of
status_of v =
    let p = read_sign (skip_while is_space v) in int_of (clamp_long p.0 (read_number 10 p.1))

unfoldable pub response_field : HttpResponseHead → Entry → HttpResponseHead
unfolding is_pseudo
response_field head (n, v) =
    if str_eq n (codes ":status")
    then record head { status_code = status_of v }
    else if is_pseudo n
    then head
    else record head { headers = add head.headers n v }

unfoldable pub response_fields : HttpResponseHead → HeaderList → HttpResponseHead
response_fields head [] = head
response_fields head (e ∷ raw) = response_fields (response_field head e) raw

unfoldable pub response_head_from_headers : HeaderList → HttpResponseHead
response_head_from_headers raw =
    let head = response_fields (record empty_response { version = version_3 }) raw in
    record head { content_length = content_length_of head.headers }

unfoldable pub is_hop_by_hop : Bytes → Bool
is_hop_by_hop name =
    let l = lower name in
    str_eq l (codes "connection")
    || str_eq l (codes "keep-alive")
    || str_eq l (codes "proxy-connection")
    || str_eq l (codes "transfer-encoding")
    || str_eq l (codes "upgrade")

unfoldable pub end_to_end : List Entry → HeaderList
end_to_end [] = []
end_to_end ((k, v) ∷ es) = if is_hop_by_hop k then end_to_end es else (k, v) ∷ end_to_end es

or_default : Bytes → Bytes → Bytes
or_default s d = if is_empty s then d else s

-- The header list that async_write_request sends.
unfoldable pub request_headers : HttpRequestHead → HeaderList
unfolding or_default
request_headers head =
    (codes ":method", or_default head.method (codes "GET"))
    ∷ (codes ":scheme", or_default head.scheme (codes "http"))
    ∷ (
      codes ":authority",
      or_default head.authority (value_or (get head.headers (codes "host")) []),
    )
    ∷ (codes ":path", or_default head.path (codes "/"))
    ∷ end_to_end head.headers.entries

-- The header list that async_write_response sends.
unfoldable pub response_headers : HttpResponseHead → HeaderList
response_headers head =
    (codes ":status", int_to_string head.status_code) ∷ end_to_end head.headers.entries
