-- ===== src/H1/Response/RoundTrip.antt =====
-- async_write_response of src/codec/h1_codec.cpp, followed by parse_response_block of the next hop.
use reverse_proxy_server.Base.{
  ℕ, suc, ◌<◌, ◌≡◌, refl, ◌∙◌, false, List, [], ◌∷◌, ◌++◌, none, some, is_empty, arith, All,
  append_assoc,
}
use reverse_proxy_server.Text.{
  Bytes, lines, crlf, trim_leading, to_string, digit_value, skip_while, is_space,
}
use reverse_proxy_server.Text.Laws.{
  Free, Free-append, IsWord, Free-solid, lines_line, pop_cr-crlf, next_word_space,
}
use reverse_proxy_server.Text.Numbers.{read_number-to_string, read_sign-to_string, to_string-Free}
use reverse_proxy_server.Http.Headers.{HeaderMap, no_headers, to_wire, wire_in}
use reverse_proxy_server.Http.Message.{HttpResponseHead, pos, int_to_string}
use reverse_proxy_server.H1.Fields.{read_fields, content_length_of, IsField, read_fields-wire_in}
use reverse_proxy_server.H1.KeepAlive.{wire_h1_version}
use reverse_proxy_server.H1.Result.{parsed}
use reverse_proxy_server.H1.Response.{
  int_limit, extract_int, with_status, with_line, parse_response_block, response_wire,
}

-- A response head that the wire form carries; `n` is its status code less one.
pub record IsSendable (n : ℕ) (h : HttpResponseHead) : Type 0 where
  pub status : h.status_code ≡ pos (suc n)
  pub small : suc n < int_limit
  pub version_word : IsWord (wire_h1_version h.version)
  pub reason_line : Free 10 h.reason
  pub reason_solid : trim_leading (32 ∷ h.reason) ≡ h.reason
  pub fields : All IsField h.headers.entries

abbrev pub as_read : HttpResponseHead → HttpResponseHead
as_read h = record {
  status_code = h.status_code;
  reason = h.reason;
  version = wire_h1_version h.version;
  headers = h.headers;
  content_length = content_length_of h.headers;
}

abbrev head_line : ℕ → Bytes → Bytes → Bytes
head_line n v r = v ++ 32 ∷ (to_string (suc n) ++ 32 ∷ r)

extract_int-to_string :
    (n : ℕ) (r : Bytes)
    → suc n < int_limit
    → extract_int (32 ∷ (to_string (suc n) ++ 32 ∷ r)) ≡ (pos (suc n), some (32 ∷ r))
unfolding extract_int
extract_int-to_string n r small =
    rw
      (
        skip_space,
        read_sign-to_string (suc n) (32 ∷ r),
        read_number-to_string (suc n) (32 ∷ r) no_digit,
      )
      (ground arith)
  where
    skip_space :
        skip_while is_space (32 ∷ (to_string (suc n) ++ 32 ∷ r))
        ≡ skip_while is_space (to_string (suc n) ++ 32 ∷ r)
    skip_space = unfold skip_while is_space in refl

    no_digit : digit_value 10 32 ≡ none
    no_digit = unfold digit_value in refl

with_line-head_line :
    (n : ℕ) (v r : Bytes) (ls : List Bytes) (hs : HeaderMap)
    → IsWord v
    → suc n < int_limit
    → trim_leading (32 ∷ r) ≡ r
    → read_fields no_headers ls ≡ hs
    → with_line (head_line n v r) ls
      ≡ parsed (
        record {
          status_code = pos (suc n);
          reason = r;
          version = v;
          headers = hs;
          content_length = content_length_of hs;
        },
        v,
      )
unfolding with_line with_status
with_line-head_line n v r ls hs hv small solid e = rw (
  next_word_space v (to_string (suc n) ++ 32 ∷ r) hv,
  extract_int-to_string n r small,
  with_status,
  solid,
  e,
)

is_empty-solid : (a b : Bytes) → is_empty ((a ++ 32 ∷ b) ++ 13 ∷ []) ≡ false
is_empty-solid [] b = refl
is_empty-solid (x ∷ a) b = refl

response_wire-lines :
    (n : ℕ) (h : HttpResponseHead)
    → IsSendable n h
    → lines (response_wire h)
      ≡ (head_line n (wire_h1_version h.version) h.reason ++ 13 ∷ [])
        ∷ lines (wire_in h.headers.entries ++ (crlf ++ []))
unfolding response_wire to_wire int_to_string
response_wire-lines n h s = rw s.status (
    simp append_assoc (
      simp append_assoc at (
        lines_line (head_line n (wire_h1_version h.version) h.reason ++ 13 ∷ [])
          (wire_in h.headers.entries ++ (crlf ++ [])) free)))
  where
    free : Free 10 (head_line n (wire_h1_version h.version) h.reason ++ 13 ∷ [])
    free =
        Free-append 10 _ (13 ∷ [])
          (Free-append 10 (wire_h1_version h.version) _ (Free-solid _ s.version_word.solid) (
            omega arith,
            Free-append 10 (to_string (suc n)) _ (to_string-Free 10 (suc n) refl)
                (omega arith, s.reason_line),
          ))
          (omega arith)

-- A response head with a positive status code, a version that is a word, a reason that neither is
-- empty nor starts with a blank nor holds a line break, and fields that the wire form carries, is
-- read back by parse_response_block as async_write_response wrote it: status, reason, headers and
-- Content-Length are kept, and the version is the one on the wire.
pub parse_response_block-response_wire :
    (n : ℕ) (h : HttpResponseHead)
    → IsSendable n h
    → parse_response_block (response_wire h) ≡ parsed (as_read h, wire_h1_version h.version)
unfolding parse_response_block
parse_response_block-response_wire n h s =
    rw
      (
        response_wire-lines n h s,
        is_empty-solid (wire_h1_version h.version) (to_string (suc n) ++ 32 ∷ h.reason),
        pop_cr-crlf (head_line n (wire_h1_version h.version) h.reason),
      )
      (with_line-head_line n (wire_h1_version h.version) h.reason _ h.headers s.version_word s.small
          s.reason_solid (read_fields-wire_in h.headers.entries no_headers [] s.fields)
        ∙ rw s.status)
