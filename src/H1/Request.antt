-- ===== src/H1/Request.antt =====
-- parse_header_block and the request head that async_write_request sends, src/codec/h1_codec.cpp.
pub mod RoundTrip
use reverse_proxy_server.Base.{
  ℕ, zero, suc, ◌+◌, ◌≡◌, Bool, true, false, not, ◌&&◌, ◌||◌, List, [], ◌∷◌, ◌++◌, Option, none,
  some, if◌then◌else◌, is_empty, take, drop, value_or,
}
use reverse_proxy_server.Text.{Bytes, codes, find, find_byte, lines, pop_cr, next_word, lower, crlf}
use reverse_proxy_server.Http.Headers.{HeaderMap, no_headers, get, to_wire}
use reverse_proxy_server.Http.Message.{HttpRequestHead, empty_request}
use reverse_proxy_server.H1.Fields.{read_fields, content_length_of}
use reverse_proxy_server.H1.KeepAlive.{wire_h1_version}
use reverse_proxy_server.H1.Result.{Parsed, parsed, refused, empty_message, bad_line}

-- `rl >> head.method >> head.path >> version`.
unfoldable pub request_line : Bytes → HttpRequestHead × Bytes
request_line line =
    let (method, rest) = next_word line in
    let (path, rest') = next_word rest in
    let (version, _) = next_word rest' in
    (record empty_request { method = method; path = path }, version)

-- The part of an absolute-form target behind "://".
unfoldable pub split_authority : HttpRequestHead → Bytes → Bytes → HttpRequestHead
split_authority head scheme rest = record head {
  scheme = lower scheme;
  authority = elim (find_byte b'/' rest) [ none ↦ rest | some slash ↦ take slash rest ];
  path = elim (find_byte b'/' rest) [ none ↦ codes "/" | some slash ↦ drop slash rest ];
  absolute_target = true;
}

-- Absolute-form becomes origin-form; "://" at the very start is no scheme.
unfoldable pub normalize_target : HttpRequestHead → HttpRequestHead
unfolding split_authority
normalize_target head = elim (find (codes "://") head.path) [
  | none ↦ head
  | some zero ↦ head
  | some (suc p) ↦ split_authority head (take (suc p) head.path) (drop (suc p + 3) head.path)
]

-- `if (!head.absolute_target)`: scheme and authority of an origin-form request.
unfoldable pub infer_origin : HttpRequestHead → HttpRequestHead
infer_origin head = if head.absolute_target then head else record head {
  scheme = codes "http";
  authority = value_or (get head.headers (codes "host")) head.authority;
}

unfoldable pub with_fields : HttpRequestHead → List Bytes → HttpRequestHead
unfolding infer_origin
with_fields head ls =
    let fields = read_fields head.headers ls in
    infer_origin (record head { headers = fields; content_length = content_length_of fields })

-- The first line, with its carriage return dropped.
unfoldable pub with_line : Bytes → List Bytes → Parsed (HttpRequestHead × Bytes)
unfolding with_fields
with_line line ls =
    let (head, version) = request_line line in
    if is_empty head.method || is_empty head.path
    then refused (bad_line line)
    else parsed (with_fields (normalize_target (record head { version = version })) ls, version)

-- The head and the version that the caller asked for.
unfoldable pub parse_lines : List Bytes → Parsed (HttpRequestHead × Bytes)
unfolding with_line
parse_lines [] = refused empty_message
parse_lines (line ∷ ls) =
    if is_empty line then refused empty_message else with_line (pop_cr line) ls

unfoldable pub parse_header_block : Bytes → Parsed (HttpRequestHead × Bytes)
unfolding parse_lines
parse_header_block raw = parse_lines (lines raw)

-- The text that async_write_request sends in front of the body.
unfoldable pub request_wire : HttpRequestHead → Bytes
request_wire head =
    head.method
    ++ (codes " "
        ++ (head.path
            ++ (codes " "
                ++ (wire_h1_version head.version ++ (crlf ++ (to_wire head.headers ++ crlf))))))
