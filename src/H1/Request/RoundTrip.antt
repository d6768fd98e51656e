-- ===== src/H1/Request/RoundTrip.antt =====
-- async_write_request of src/codec/h1_codec.cpp, followed by parse_header_block of the next hop.
use reverse_proxy_server.Base.{
  ◌≡◌, refl, false, List, [], ◌∷◌, ◌++◌, none, is_empty, value_or, arith, All, append_assoc,
}
use reverse_proxy_server.Text.{Bytes, codes, find, lines, crlf}
use reverse_proxy_server.Text.Laws.{
  Free, Free-append, IsWord, Free-solid, lines_line, pop_cr-crlf, next_word_space, next_word_end,
  next_word_skip,
}
use reverse_proxy_server.Http.Headers.{no_headers, get, to_wire, wire_in}
use reverse_proxy_server.Http.Message.{HttpRequestHead, empty_request}
use reverse_proxy_server.H1.Fields.{read_fields, content_length_of, IsField, read_fields-wire_in}
use reverse_proxy_server.H1.KeepAlive.{wire_h1_version}
use reverse_proxy_server.H1.Result.{parsed}
use reverse_proxy_server.H1.Request.{
  request_line, normalize_target, with_line, parse_header_block, request_wire,
}

-- A head in origin-form that the wire form carries.
pub record IsOrigin (h : HttpRequestHead) : Type 0 where
  pub method_word : IsWord h.method
  pub path_word : IsWord h.path
  pub version_word : IsWord (wire_h1_version h.version)
  pub no_scheme : find (codes "://") h.path ≡ none
  pub fields : All IsField h.headers.entries

-- What the next hop knows of a request: the rest of the head is computed from these parts.
abbrev pub as_read : HttpRequestHead → HttpRequestHead
as_read h = record {
  method = h.method;
  version = wire_h1_version h.version;
  path = h.path;
  scheme = codes "http";
  authority = value_or (get h.headers (codes "host")) [];
  absolute_target = false;
  headers = h.headers;
  content_length = content_length_of h.headers;
}

abbrev first_line : Bytes → Bytes → Bytes → Bytes
first_line m p v = m ++ 32 ∷ p ++ 32 ∷ v

request_line-first_line :
    (m p v : Bytes)
    → IsWord m
    → IsWord p
    → IsWord v
    → request_line (m ++ 32 ∷ (p ++ 32 ∷ v)) ≡ (record empty_request { method = m; path = p }, v)
unfolding request_line
request_line-first_line m p v hm hp hv = rw (
  next_word_space m (p ++ 32 ∷ v) hm,
  next_word_skip (p ++ 32 ∷ v),
  next_word_space p v hp,
  next_word_skip v,
  next_word_end v hv,
)

is_empty-word : (w : Bytes) → IsWord w → is_empty w ≡ false
is_empty-word [] h = absurd (h.ne_nil refl)
is_empty-word (x ∷ w) h = refl

abbrev head_line : HttpRequestHead → Bytes
head_line h = h.method ++ 32 ∷ (h.path ++ 32 ∷ wire_h1_version h.version)

head_line-Free : (h : HttpRequestHead) → IsOrigin h → Free 10 (head_line h)
head_line-Free h o = Free-append 10 h.method _ (Free-solid h.method o.method_word.solid) (
  omega arith,
  Free-append 10 h.path _ (Free-solid h.path o.path_word.solid)
      (omega arith, Free-solid (wire_h1_version h.version) o.version_word.solid),
)

request_wire-lines :
    (h : HttpRequestHead)
    → IsOrigin h
    → lines (request_wire h)
      ≡ (head_line h ++ 13 ∷ []) ∷ lines (wire_in h.headers.entries ++ (crlf ++ []))
unfolding request_wire to_wire
request_wire-lines h o = simp append_assoc (
    simp append_assoc at (
      lines_line (head_line h ++ 13 ∷ []) (wire_in h.headers.entries ++ (crlf ++ []))
        (Free-append 10 (head_line h) (13 ∷ []) (head_line-Free h o) (omega arith))))

head_line-solid : (h : HttpRequestHead) → is_empty (head_line h ++ 13 ∷ []) ≡ false
head_line-solid h = is_empty-append (head_line h)
  where
    is_empty-append : (a : Bytes) → is_empty (a ++ 13 ∷ []) ≡ false
    is_empty-append [] = refl
    is_empty-append (x ∷ a) = refl

normalize_target-origin :
    (h : HttpRequestHead) → find (codes "://") h.path ≡ none → normalize_target h ≡ h
unfolding normalize_target
normalize_target-origin h e = rw (e, normalize_target)

with_line-head_line :
    (h : HttpRequestHead) (ls : List Bytes)
    → IsOrigin h
    → read_fields no_headers ls ≡ h.headers
    → with_line (head_line h) ls ≡ parsed (as_read h, wire_h1_version h.version)
unfolding with_line
with_line-head_line h ls o e = rw (
  request_line-first_line h.method h.path (wire_h1_version h.version) o.method_word o.path_word
      o.version_word,
  is_empty-word h.method o.method_word,
  is_empty-word h.path o.path_word,
  normalize_target-origin
      (record h {
        version = wire_h1_version h.version;
        scheme = [];
        authority = [];
        absolute_target = false;
        headers = no_headers;
        content_length = none;
      })
      o.no_scheme,
  e,
)

-- A request head in origin-form whose method, path and version are words and whose fields have no
-- line break, no colon in a key and no empty or blank-led value is read back by the next hop's
-- parser just as the H1 codec wrote it: method, path, headers and Content-Length are kept, the
-- version is the one on the wire, and scheme and authority are those of the Host header.
pub parse_header_block-request_wire :
    (h : HttpRequestHead)
    → IsOrigin h
    → parse_header_block (request_wire h) ≡ parsed (as_read h, wire_h1_version h.version)
unfolding parse_header_block
parse_header_block-request_wire h o =
    rw (request_wire-lines h o, head_line-solid h, pop_cr-crlf (head_line h))
      (with_line-head_line h _ o (read_fields-wire_in h.headers.entries no_headers [] o.fields))
