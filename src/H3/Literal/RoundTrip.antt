-- ===== src/H3/Literal/RoundTrip.antt =====
-- parse_request_headers of src/codec/h3_codec.cpp on bytes laid out as lengths and texts, and on any
-- bytes.
use reverse_proxy_server.Base.{
  ℕ, zero, suc, ◌+◌, ◌-◌, ◌^◌, ◌≡◌, sym, ◌<◌, ◌≤◌, refl, ap, ◌∙◌, true, false, List, [], ◌∷◌, ◌++◌,
  some, arith, length, length-append, ltb, ◌==◌, All, append_assoc, append-nil,
}
use reverse_proxy_server.Text.{Bytes, codes, str_eq, to_string, word64}
use reverse_proxy_server.Text.Laws.{take-length, drop-length}
use reverse_proxy_server.Text.Numbers.{read_number-to_string, read_sign-to_string, length-to_string}
use reverse_proxy_server.Http.Headers.{Entry, add}
use reverse_proxy_server.H3.Varint.{encode_varint}
use reverse_proxy_server.H3.Varint.RoundTrip.{decode_varint-encode_varint}
use reverse_proxy_server.H3.Heads.{is_pseudo}
use reverse_proxy_server.H3.Heads.RoundTrip.{regular-str_eq}
use reverse_proxy_server.H3.Literal.{
  Literals, returned, stoull, in_range, route_literal, read_literal, on_routed, on_value, on_name,
  parse_literals, parse_request_headers,
}

-- A text behind its length.
unfoldable pub literal : Bytes → Bytes
literal s = encode_varint (length s) ++ s

unfoldable pub literal_wire : List Entry → Bytes
unfolding literal
literal_wire [] = []
literal_wire ((n, v) ∷ es) = literal n ++ (literal v ++ literal_wire es)

-- A length that a varint carries.
abbrev pub IsShort : Bytes → Type 0
IsShort s = length s < 2 ^ 62

abbrev pub IsShortField : Entry → Type 0
IsShortField e = IsShort e.0 × IsShort e.1

length-encode_varint : (v : ℕ) → 1 ≤ length (encode_varint v)
unfolding encode_varint
length-encode_varint v = ground arith

read_literal-literal :
    (s rest : Bytes) → IsShort s → read_literal (literal s ++ rest) ≡ some (s, rest)
unfolding read_literal literal
read_literal-literal s rest h = rw (
  append_assoc (encode_varint (length s)) s rest,
  decode_varint-encode_varint (length s) (s ++ rest) h,
  drop-length (encode_varint (length s)) (s ++ rest),
  some_bytes,
  enough,
  take-length s rest,
  drop-length s rest,
)
  where
    some_bytes : (length (encode_varint (length s)) == 0) ≡ false
    some_bytes = ground (arith, length-encode_varint (length s))

    enough : ltb (length (s ++ rest)) (length s) ≡ false
    enough = ground (arith, length-append s rest)

parse_literals-round :
    (k : ℕ) (l : Literals) (d : Bytes)
    → 1 ≤ length d
    → parse_literals (suc k) l d ≡ on_name (parse_literals k) l (read_literal d)
unfolding parse_literals
parse_literals-round k l [] h = absurd (omega (arith, h))
parse_literals-round k l (x ∷ d) h = refl

length-literal_wire :
    (e : Entry) (es : List Entry) → suc (length (literal_wire es)) ≤ length (literal_wire (e ∷ es))
unfolding literal_wire
length-literal_wire (n, v) es = omega (
  arith,
  length-append (encode_varint (length n)) n,
  length-append (encode_varint (length n) ++ n)
      ((encode_varint (length v) ++ v) ++ literal_wire es),
  length-append (encode_varint (length v) ++ v) (literal_wire es),
  length-encode_varint (length n),
)

-- One field is read and routed.
parse_literals-field :
    (k : ℕ) (l l' : Literals) (n v : Bytes) (es : List Entry)
    → IsShort n
    → IsShort v
    → route_literal l n v ≡ some l'
    → parse_literals (suc k) l (literal_wire ((n, v) ∷ es)) ≡ parse_literals k l' (literal_wire es)
parse_literals-field k l l' n v es hn hv r =
    parse_literals-round k l (literal_wire ((n, v) ∷ es))
      (omega (arith, length-literal_wire (n, v) es))
    ∙ unfold literal_wire on_name on_value on_routed in
      rw (
        read_literal-literal n (literal v ++ literal_wire es) hn,
        read_literal-literal v (literal_wire es) hv,
        r,
      )

-- A field that is neither a pseudo-header nor content-length, with a short name and value.
abbrev pub IsPlain : Entry → Type 0
IsPlain e = (is_pseudo e.0 ≡ false) × (str_eq e.0 (codes "content-length") ≡ false) × IsShortField e

route_literal-plain :
    (l : Literals) (n v : Bytes)
    → is_pseudo n ≡ false
    → str_eq n (codes "content-length") ≡ false
    → route_literal l n v ≡ some (record l { hdrs = add l.hdrs n v })
unfolding route_literal is_pseudo
route_literal-plain l n v h c = rw (
  regular-str_eq n (codes ":method") h refl,
  regular-str_eq n (codes ":path") h refl,
  regular-str_eq n (codes ":authority") h refl,
  c,
  h,
)

parse_literals-plain :
    (k : ℕ) (l : Literals) (es : List Entry)
    → length es ≤ k
    → All IsPlain es
    → parse_literals k l (literal_wire es) ≡ record {
      out = record l { hdrs = record { entries = l.hdrs.entries ++ es } };
      outcome = returned true;
    }
unfolding parse_literals literal_wire
parse_literals-plain zero l [] h p = rw (append-nil l.hdrs.entries)
parse_literals-plain (suc k) l [] h p = rw (append-nil l.hdrs.entries)
parse_literals-plain zero l (e ∷ es) h p = absurd (omega (arith, h))
parse_literals-plain (suc k) l ((n, v) ∷ es) h p =
    let l' : Literals = record l { hdrs = add l.hdrs n v } in
    parse_literals-field k l l' n v es p.0.2.0 p.0.2.1 (route_literal-plain l n v p.0.0 p.0.1)
    ∙ (parse_literals-plain k l' es (omega (arith, h)) p.1 ∙ unfold add in rw append_assoc)

stoull-to_string : (n : ℕ) → n < word64 → stoull (to_string n) ≡ some n
unfolding stoull in_range
stoull-to_string n h =
    rw (sym (append-nil (to_string n)))
      (rw (read_sign-to_string n [], read_number-to_string n [] tt) (ground (arith, h)))

length-literal_wire_all : (es : List Entry) → length es ≤ length (literal_wire es)
unfolding literal_wire
length-literal_wire_all [] = omega arith
length-literal_wire_all (e ∷ es) =
    omega (arith, length-literal_wire_all es, length-literal_wire e es)

module _ (l : Literals) (m p a : Bytes) (n : ℕ) (es : List Entry) where
  -- What the message says of itself, ahead of its other fields.
  abbrev pub announced : List Entry
  announced =
      (codes ":method", m)
      ∷ (codes ":path", p)
      ∷ (codes ":authority", a)
      ∷ (codes "content-length", to_string n)
      ∷ es

  abbrev with_host : Literals
  with_host = record l { method = m; path = p; hdrs = add l.hdrs (codes "host") a }

  abbrev pub understood : Literals
  understood = record {
    method = m;
    path = p;
    hdrs = record { entries = l.hdrs.entries ++ (codes "host", a) ∷ es };
    content_length = some n;
  }

  length-announced : length es + 4 ≤ length (literal_wire announced)
  length-announced = omega (arith, length-literal_wire_all announced)

  -- Laid out as lengths and texts, a method, a path, an authority, a content-length below 2 ^ 64 and
  -- then plain fields, texts shorter than 2 ^ 62 bytes, are read back: parse_request_headers returns
  -- true with that method, path and length, and the header map has a host field for the authority and
  -- the fields behind it, in order, after what it held.
  pub parse_request_headers-literal_wire :
      IsShort m
      → IsShort p
      → IsShort a
      → n < word64
      → All IsPlain es
      → parse_request_headers (literal_wire announced) l
        ≡ record { out = understood; outcome = returned true }
  unfolding parse_request_headers route_literal str_eq
  parse_request_headers-literal_wire hm hp ha small plain =
      let k = length (literal_wire announced) - 4 in
      ap (λ f. parse_literals f l (literal_wire announced)) {y = suc (suc (suc (suc k)))}
        (omega (arith, length-announced))
      ∙ (parse_literals-field (suc (suc (suc k))) l (record l { method = m }) (codes ":method") m _
            (omega arith) hm refl
          ∙ (parse_literals-field (suc (suc k)) (record l { method = m })
                (record l { method = m; path = p }) (codes ":path") p _ (omega arith) hp refl
              ∙ (parse_literals-field (suc k) (record l { method = m; path = p }) with_host
                    (codes ":authority") a _ (omega arith) ha refl
                  ∙ (parse_literals-field k with_host (record with_host { content_length = some n })
                        (codes "content-length") (to_string n) es (omega arith)
                        (omega (arith, length-to_string n small)) (rw (stoull-to_string n small))
                      ∙ (parse_literals-plain k (record with_host { content_length = some n }) es
                            (omega (arith, length-announced)) plain
                          ∙ unfold add in rw append_assoc)))))
