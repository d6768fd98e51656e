-- ===== src/H3/Heads/HopByHop.antt =====
-- The fields that the H3 codec (src/codec/h3_codec.cpp) lets pass from one hop to the next.
use reverse_proxy_server.Base.{
  ◌≡◌, true, false, Bool, ◌||◌, List, [], ◌∷◌, arith, if◌then◌else◌, ◌∙◌,
}
use reverse_proxy_server.Text.{Bytes, codes, str_eq, lower, lower_byte}
use reverse_proxy_server.Http.Headers.{Entry, HeaderMap, same_key, get_all_in, get_all}
use reverse_proxy_server.Http.Headers.Laws.{same_key_iff}
use reverse_proxy_server.Http.Message.{HttpRequestHead, HttpResponseHead}
use reverse_proxy_server.H3.Heads.{
  is_pseudo, is_hop_by_hop, end_to_end, request_headers, response_headers,
}

-- The names that describe one connection only (RFC 9113, 8.2.2), in lower case.
abbrev pub connection_names : List Bytes
connection_names =
    codes "connection"
    ∷ codes "keep-alive"
    ∷ codes "proxy-connection"
    ∷ codes "transfer-encoding"
    ∷ codes "upgrade"
    ∷ []

-- Whether a name is one of a list's, whatever its case.
abbrev pub is_one_of : List Bytes → Bytes → Bool
is_one_of [] n = false
is_one_of (m ∷ ms) n = str_eq (lower n) m || is_one_of ms n

is_hop_by_hop-names : (n : Bytes) → is_hop_by_hop n ≡ is_one_of connection_names n
unfolding is_hop_by_hop
is_hop_by_hop-names n = ground arith

-- The test reads the name without case.
is_hop_by_hop-same_key : (a b : Bytes) → same_key a b ≡ true → is_hop_by_hop a ≡ is_hop_by_hop b
unfolding is_hop_by_hop
is_hop_by_hop-same_key a b h = let e = (same_key_iff a b).0 h in rw e

get_all_in-end_to_end :
    (key : Bytes) (es : List Entry)
    → get_all_in key (end_to_end es) ≡ (if is_hop_by_hop key then [] else get_all_in key es)
unfolding get_all_in end_to_end
get_all_in-end_to_end key [] = ground arith
get_all_in-end_to_end key ((k, v) ∷ es) =
    ground (arith, get_all_in-end_to_end key es, is_hop_by_hop-same_key key k)

-- No regular name is that of a pseudo-header.
colon-same_key : (key s : Bytes) → is_pseudo key ≡ false → same_key key (b':' ∷ s) ≡ false
unfolding is_pseudo same_key lower lower_byte str_eq
colon-same_key [] s h = cc
colon-same_key (c ∷ key) s h = ground (arith, h)

get_all_in-pseudo :
    (key s v : Bytes) (es : List Entry)
    → is_pseudo key ≡ false
    → get_all_in key ((b':' ∷ s, v) ∷ es) ≡ get_all_in key es
unfolding get_all_in
get_all_in-pseudo key s v es h = rw (colon-same_key key s h)

get_all_in-four :
    (key a b c d : Bytes) (t u v w : Bytes) (es : List Entry)
    → is_pseudo key ≡ false
    → get_all_in key ((b':' ∷ a, t) ∷ (b':' ∷ b, u) ∷ (b':' ∷ c, v) ∷ (b':' ∷ d, w) ∷ es)
      ≡ get_all_in key es
get_all_in-four key a b c d t u v w es h = rw (
  get_all_in-pseudo key a t _ h,
  get_all_in-pseudo key b u _ h,
  get_all_in-pseudo key c v _ h,
  get_all_in-pseudo key d w es h,
)

forwarded :
    (key : Bytes) (h : HeaderMap)
    → get_all_in key (end_to_end h.entries)
      ≡ (if is_one_of connection_names key then [] else get_all h key)
unfolding get_all
forwarded key h = get_all_in-end_to_end key h.entries ∙ rw (is_hop_by_hop-names key)

-- In the header lists that the H3 codec sends for a request and for a response, a regular name
-- (neither empty nor led by a colon) has no value if it is connection, keep-alive, proxy-connection,
-- transfer-encoding or upgrade, in whatever case; any other has just the values of the head, in order.
pub headers-forward :
    (request : HttpRequestHead) (response : HttpResponseHead) (key : Bytes)
    → is_pseudo key ≡ false
    → (get_all (record { entries = request_headers request }) key
        ≡ (if is_one_of connection_names key then [] else get_all request.headers key))
      × (get_all (record { entries = response_headers response }) key
          ≡ (if is_one_of connection_names key then [] else get_all response.headers key))
unfolding get_all request_headers response_headers
headers-forward request response key h =
    let sent = end_to_end request.headers.entries in
    (
      get_all_in-four key (codes "method") (codes "scheme") (codes "authority") (codes "path") _ _ _
            _ sent h
          ∙ unfold get_all in forwarded key request.headers,
      get_all_in-pseudo key (codes "status") _ (end_to_end response.headers.entries) h
          ∙ unfold get_all in forwarded key response.headers,
    )
