-- ===== src/H3/Heads/RoundTrip.antt =====
-- The header list that async_write_request of src/codec/h3_codec.cpp sends, as the peer reads it.
use reverse_proxy_server.Base.{
  ◌≡◌, ◌≢◌, refl, ◌∙◌, true, false, List, [], ◌∷◌, ◌++◌, arith, is_empty, All, append_assoc,
  append-nil,
}
use reverse_proxy_server.Text.{Bytes, codes, str_eq, str_eq_iff}
use reverse_proxy_server.Http.Headers.{Entry, HeaderMap, add, set, remove}
use reverse_proxy_server.Http.Message.{HttpRequestHead}
use reverse_proxy_server.H1.Fields.{content_length_of}
use reverse_proxy_server.H3.Heads.{
  is_pseudo, version_3, request_field, request_fields, request_head_from_headers, end_to_end,
  request_headers,
}

-- The name of a regular field.
abbrev pub IsRegular : Entry → Type 0
IsRegular e = is_pseudo e.0 ≡ false

pub regular-str_eq : (n s : Bytes) → is_pseudo n ≡ false → is_pseudo s ≡ true → str_eq n s ≡ false
regular-str_eq n s h p = ground (arith, str_eq_iff n s)

request_field-regular :
    (head : HttpRequestHead) (n v : Bytes)
    → is_pseudo n ≡ false
    → request_field head (n, v) ≡ record head { headers = add head.headers n v }
unfolding request_field
request_field-regular head n v h = rw (
  regular-str_eq n (codes ":method") h refl,
  regular-str_eq n (codes ":path") h refl,
  regular-str_eq n (codes ":scheme") h refl,
  regular-str_eq n (codes ":authority") h refl,
  h,
)

-- Regular fields are added in order and change nothing else.
request_fields-regular :
    (es : List Entry) (head : HttpRequestHead)
    → All IsRegular es
    → request_fields head es
      ≡ record head { headers = record { entries = head.headers.entries ++ es } }
unfolding request_fields
request_fields-regular [] head h = rw (append-nil head.headers.entries)
request_fields-regular ((n, v) ∷ es) head h = rw (request_field-regular head n v h.0) (
    request_fields-regular es (record head { headers = add head.headers n v }) h.1
    ∙ unfold add in rw append_assoc)

end_to_end-IsRegular : (es : List Entry) → All IsRegular es → All IsRegular (end_to_end es)
unfolding end_to_end
end_to_end-IsRegular [] h = tt
end_to_end-IsRegular ((k, v) ∷ es) h = ground (arith, end_to_end-IsRegular es h.1)

-- What the peer knows of a request sent over HTTP/3.
abbrev pub as_received : HttpRequestHead → Bytes → HttpRequestHead
as_received h authority =
    let fields : HeaderMap = record {
      entries = (codes "host", authority) ∷ end_to_end h.headers.entries;
    } in
    record {
      method = h.method;
      version = version_3;
      path = h.path;
      scheme = h.scheme;
      authority = authority;
      absolute_target = false;
      headers = fields;
      content_length = content_length_of fields;
    }

-- A request with its method, scheme, path and authority set and with no pseudo-header among its
-- fields is read back by the H3 peer with the same method, scheme, path and authority. Its fields are
-- those that are not hop-by-hop, in their order, behind a host field that repeats the authority.
pub request_head_from_headers-request_headers :
    (h : HttpRequestHead)
    → h.method ≢ []
    → h.scheme ≢ []
    → h.path ≢ []
    → h.authority ≢ []
    → All IsRegular h.headers.entries
    → request_head_from_headers (request_headers h) ≡ as_received h h.authority
unfolding request_head_from_headers request_headers
request_head_from_headers-request_headers h m s p a r =
    rw (filled h.method m, filled h.scheme s, filled h.path p, filled h.authority a)
      (unfold request_fields request_field str_eq set remove add in
        rw (
          request_fields-regular (end_to_end h.headers.entries) _
            (end_to_end-IsRegular h.headers.entries r)))
  where
    filled : (t : Bytes) → t ≢ [] → is_empty t ≡ false
    filled [] e = absurd (e refl)
    filled (x ∷ t) e = refl
