-- ===== src/H1/Fields.antt =====
-- The header lines that parse_header_block and parse_response_block of src/codec/h1_codec.cpp read
-- in the same loop, and the Content-Length that they take from them.
use mathlib.Core.Option
use reverse_proxy_server.Base.{
  ℕ, suc, ◌≡◌, refl, ap, ◌∙◌, false, List, [], ◌∷◌, ◌++◌, Option, none, some, arith, if◌then◌else◌,
  is_empty, take, drop, length, append_assoc, append-nil, All,
}
use reverse_proxy_server.Text.{Bytes, codes, find_byte, trim_leading, lines, pop_cr, strtoul, crlf}
use reverse_proxy_server.Text.Laws.{
  Free, Free-append, lines_line, pop_cr-crlf, find_byte_append, take-length,
}
use reverse_proxy_server.Http.Headers.{Entry, HeaderMap, add, get, wire_in}

-- One line: split at the first colon, the blanks in front of the value dropped; a line without a
-- colon is skipped.
unfoldable pub read_field : HeaderMap → Bytes → HeaderMap
read_field h line = elim (find_byte b':' line) [
  | none ↦ h
  | some colon ↦ add h (take colon line) (trim_leading (drop (suc colon) line))
]

-- `while (std::getline(iss, line))`: up to the first empty line.
unfoldable pub read_fields : HeaderMap → List Bytes → HeaderMap
unfolding read_field
read_fields h [] = h
read_fields h (raw ∷ ls) =
    let line = pop_cr raw in if is_empty line then h else read_fields (read_field h line) ls

unfoldable pub content_length_of : HeaderMap → Option ℕ
content_length_of h = Option.map (strtoul 10) (get h (codes "content-length"))

-- A field that the wire form carries: no newline, no colon in the key, no carriage return at the
-- end, and a value that is neither empty nor starts with a blank.
pub record IsField (e : Entry) : Type 0 where
  pub key_colon : Free b':' e.0
  pub key_line : Free 10 e.0
  pub value_line : Free 10 e.1
  pub value_solid : trim_leading (32 ∷ e.1) ≡ e.1

drop_key : (a s : Bytes) → drop (suc (length a)) (a ++ b':' ∷ s) ≡ s
drop_key [] s = refl
drop_key (x ∷ a) s = drop_key a s

read_field-wire :
    (h : HeaderMap) (k v : Bytes) → IsField (k, v) → read_field h (k ++ b':' ∷ 32 ∷ v) ≡ add h k v
unfolding read_field
read_field-wire h k v f =
    rw (find_byte_append b':' k (32 ∷ v) f.key_colon, read_field)
      (rw (take-length k (b':' ∷ 32 ∷ v), drop_key k (32 ∷ v), f.value_solid))

is_empty_colon : (k v : Bytes) → is_empty (k ++ b':' ∷ v) ≡ false
is_empty_colon [] v = refl
is_empty_colon (x ∷ k) v = refl

abbrev field_line : Bytes → Bytes → Bytes
field_line k v = k ++ b':' ∷ 32 ∷ v

lines_field :
    (k v rest : Bytes)
    → IsField (k, v)
    → lines (k ++ (b':' ∷ 32 ∷ (v ++ (crlf ++ rest)))) ≡ (field_line k v ++ 13 ∷ []) ∷ lines rest
lines_field k v rest f =
    ap lines (simp append_assoc)
    ∙ lines_line (field_line k v ++ 13 ∷ []) rest (
        Free-append 10 (field_line k v) (13 ∷ [])
          (Free-append 10 k (b':' ∷ 32 ∷ v) f.key_line (omega arith, (omega arith, f.value_line)))
          (omega arith))

-- What `to_wire` writes is read back, entry for entry, up to the blank line behind it.
pub read_fields-wire_in :
    (es : List Entry) (h : HeaderMap) (rest : Bytes)
    → All IsField es
    → read_fields h (lines (wire_in es ++ (crlf ++ rest))) ≡ record { entries = h.entries ++ es }
unfolding read_fields wire_in
read_fields-wire_in [] h rest f = rw (append-nil h.entries) (unfold lines pop_cr in refl)
read_fields-wire_in ((k, v) ∷ es) h rest f = simp append_assoc (
    rw
      (
        lines_field k v (wire_in es ++ (crlf ++ rest)) f.0,
        pop_cr-crlf (field_line k v),
        is_empty_colon k (32 ∷ v),
        read_field-wire h k v f.0,
      )
      (rw (read_fields-wire_in es (add h k v) rest f.1) (unfold add in rw append_assoc)))
