-- ===== src/H1/Response.antt =====
-- parse_response_block and the response head that async_write_response sends,
-- src/codec/h1_codec.cpp.
pub mod RoundTrip
use reverse_proxy_server.Base.{
  ℕ, zero, suc, ◌+◌, ◌-◌, ◌^◌, Bool, List, [], ◌∷◌, ◌++◌, Option, none, some, if◌then◌else◌,
  is_empty, leb, ltb,
}
use reverse_proxy_server.Text.{
  Bytes, codes, lines, pop_cr, next_word, crlf, read_sign, read_number, skip_while, is_space,
  trim_leading,
}
use reverse_proxy_server.Http.Headers.{no_headers, to_wire}
use reverse_proxy_server.Http.Message.{
  HttpResponseHead, empty_response, ℤ, pos, negsuc, int_to_string,
}
use reverse_proxy_server.H1.Fields.{read_fields, content_length_of}
use reverse_proxy_server.H1.KeepAlive.{wire_h1_version}
use reverse_proxy_server.H1.Result.{Parsed, parsed, refused, empty_message, bad_line}

abbrev pub int_limit : ℕ
int_limit = 2 ^ 31

negate : ℕ → ℤ
negate zero = pos 0
negate (suc n) = negsuc n

-- The value and, unless the extraction failed, what is left of the stream. Out of range an int is
-- clamped and the stream fails.
clamp_int : Bool → Option (ℕ × Bytes) → ℤ × Option Bytes
unfolding negate
clamp_int minus none = (pos 0, none)
clamp_int minus (some (v, rest)) =
    if minus
    then if leb v int_limit then (negate v, some rest) else (negsuc (int_limit - 1), none)
    else if ltb v int_limit
    then (pos v, some rest)
    else (pos (int_limit - 1), none)

-- `rl >> head.status_code`.
unfoldable pub extract_int : Bytes → ℤ × Option Bytes
unfolding clamp_int
extract_int s = let p = read_sign (skip_while is_space s) in clamp_int p.0 (read_number 10 p.1)

-- `std::getline(rl, head.reason)`, which reads nothing from a failed stream, and the trimming.
unfoldable pub reason_of : Option Bytes → Bytes
reason_of none = []
reason_of (some rest) = trim_leading rest

unfoldable pub with_status :
    Bytes → ℤ → Option Bytes → Bytes → List Bytes → Parsed (HttpResponseHead × Bytes)
unfolding reason_of
with_status line (pos (suc n)) rest version ls =
    let fields = read_fields no_headers ls in
    parsed (
      record {
        status_code = pos (suc n);
        reason = reason_of rest;
        version = version;
        headers = fields;
        content_length = content_length_of fields;
      },
      version,
    )
with_status line _ rest version ls = refused (bad_line line)

unfoldable pub with_line : Bytes → List Bytes → Parsed (HttpResponseHead × Bytes)
with_line line ls =
    let w = next_word line in
    let status = extract_int w.1 in with_status line status.0 status.1 w.0 ls

unfoldable pub parse_lines : List Bytes → Parsed (HttpResponseHead × Bytes)
parse_lines [] = refused empty_message
parse_lines (line ∷ ls) =
    if is_empty line then refused empty_message else with_line (pop_cr line) ls

unfoldable pub parse_response_block : Bytes → Parsed (HttpResponseHead × Bytes)
unfolding parse_lines
parse_response_block raw = parse_lines (lines raw)

-- The text that async_write_response sends in front of the body.
unfoldable pub response_wire : HttpResponseHead → Bytes
response_wire head =
    wire_h1_version head.version
    ++ (codes " "
        ++ (int_to_string head.status_code
            ++ (codes " " ++ (head.reason ++ (crlf ++ (to_wire head.headers ++ crlf))))))
