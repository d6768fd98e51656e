-- ===== src/Tests/H1.antt =====
-- The HTTP/1.1 codec at a POST request, a response with a reason of two words, and a request that
-- arrives in three segments.
use reverse_proxy_server.Base.{◌≡◌, refl, [], ◌∷◌, ◌++◌, arith, All}
use reverse_proxy_server.Text.{codes, crlf, find, find_byte, trim_leading, is_space}
use reverse_proxy_server.Http.Message.{HttpResponseHead, pos, empty_response}
use reverse_proxy_server.Http.Stream.{Input, bytes, Flows, arriving}
use reverse_proxy_server.H1.Fields.{IsField}
use reverse_proxy_server.H1.Result.{parsed}
use reverse_proxy_server.H1.KeepAlive.{wire_h1_version}
use reverse_proxy_server.H1.Request.{parse_header_block, request_wire}
use reverse_proxy_server.H1.Request.RoundTrip.{IsOrigin, parse_header_block-request_wire}
use reverse_proxy_server.H1.Request.RoundTrip as OfRequest
use reverse_proxy_server.H1.Response.{parse_response_block, response_wire}
use reverse_proxy_server.H1.Response.RoundTrip.{IsSendable, parse_response_block-response_wire}
use reverse_proxy_server.H1.Response.RoundTrip as OfResponse
use reverse_proxy_server.H1.Reading.{read_head}
use reverse_proxy_server.H1.Reading.Segments.{Splits, read_head-segments}
use reverse_proxy_server.Tests.{free, word, no_space, field, fields, post}

fields-IsField : All IsField fields.entries
unfolding find_byte trim_leading
fields-IsField = (
  field (codes "Host") (codes "example.com") refl refl refl refl,
  (
    field (codes "Connection") (codes "keep-alive") refl refl refl refl,
    (field (codes "Content-Length") (codes "3") refl refl refl refl, tt),
  ),
)

post-IsOrigin : IsOrigin post
unfolding wire_h1_version find no_space is_space
post-IsOrigin = record {
  method_word = word post.method refl refl;
  path_word = word post.path refl refl;
  version_word = word (codes "HTTP/1.1") refl refl;
  no_scheme = refl;
  fields = fields-IsField;
}

parse_header_block-request_wire_example :
    parse_header_block (request_wire post)
    ≡ parsed (OfRequest.as_read post, wire_h1_version post.version)
parse_header_block-request_wire_example = parse_header_block-request_wire post post-IsOrigin

abbrev not_found : HttpResponseHead
not_found = record empty_response {
  status_code = pos 404;
  reason = codes "Not Found";
  headers = fields;
}

not_found-IsSendable : IsSendable 403 not_found
unfolding wire_h1_version find_byte trim_leading no_space is_space
not_found-IsSendable = record {
  status = refl;
  small = omega arith;
  version_word = word (codes "HTTP/1.1") refl refl;
  reason_line = free 10 not_found.reason refl;
  reason_solid = refl;
  fields = fields-IsField;
}

parse_response_block-response_wire_example :
    parse_response_block (response_wire not_found)
    ≡ parsed (OfResponse.as_read not_found, wire_h1_version not_found.version)
parse_response_block-response_wire_example =
    parse_response_block-response_wire 403 not_found not_found-IsSendable

-- The blank line is cut in two.
abbrev segments : Input
segments =
    bytes (codes "GET / HTTP/1.1" ++ crlf)
    ∷ bytes (codes "Host: a" ++ (crlf ++ 13 ∷ []))
    ∷ bytes (10 ∷ codes "xyz")
    ∷ []

segments-Flows : Flows segments
segments-Flows = (cc, (cc, (cc, tt)))

read_head-segments_example : Splits (arriving segments) 23 (read_head 40 [] segments)
unfolding find
read_head-segments_example = read_head-segments 40 segments 23 (omega arith) segments-Flows refl
