-- ===== src/Tests/H3.antt =====
-- The HTTP/3 codec at concrete inputs.
use reverse_proxy_server.Base.{
  ◌+◌, none, some, ◌≡◌, refl, [], ◌∷◌, ◌++◌, if◌then◌else◌, arith, length, take, true, ◌≢◌, List,
}
use reverse_proxy_server.Text.{codes, str_eq}
use reverse_proxy_server.Http.Headers.{get_all, Entry, no_headers}
use reverse_proxy_server.H3.Varint.{encode_varint, decode_varint}
use reverse_proxy_server.H3.Varint.RoundTrip.{decode_varint-encode_varint}
use reverse_proxy_server.H3.Heads.{is_pseudo, request_head_from_headers, request_headers}
use reverse_proxy_server.H3.Heads.RoundTrip.{as_received, request_head_from_headers-request_headers}
use reverse_proxy_server.H3.Heads.HopByHop.{connection_names, is_one_of, headers-forward}
use reverse_proxy_server.Http.Stream.{bytes, arriving}
use reverse_proxy_server.Http.Message.{HttpResponseHead, empty_response}
use reverse_proxy_server.Http.Body.{stream_body}
use reverse_proxy_server.H3.Heads.{response_headers}
use reverse_proxy_server.H3.Exchange.{h3_write_request, h3_write_response, takes}
use reverse_proxy_server.H3.Exchange.Results.{ended_message, h3_write-ends}
use reverse_proxy_server.H3.Literal.{Literals, returned, starved, parse_request_headers}
use reverse_proxy_server.H3.Literal.RoundTrip.{
  literal_wire, announced, understood, parse_request_headers-literal_wire,
}
use reverse_proxy_server.H3.Literal.Ends.{parse_request_headers-ends}
use reverse_proxy_server.Tests.{fields, post}

decode_varint-encode_varint_example :
    decode_varint (encode_varint 15293 ++ 7 ∷ [])
    ≡ record { value = 15293; bytes_read = length (encode_varint 15293) }
decode_varint-encode_varint_example = decode_varint-encode_varint 15293 (7 ∷ []) (omega arith)

request_head_from_headers-request_headers_example :
    request_head_from_headers (request_headers post) ≡ as_received post post.authority
unfolding is_pseudo
request_head_from_headers-request_headers_example =
    request_head_from_headers-request_headers post (cc) (cc) (cc) (cc) (refl, (refl, (refl, tt)))

abbrev answer : HttpResponseHead
answer = record empty_response { headers = fields }

headers-forward_example :
    (get_all (record { entries = request_headers post }) (codes "CONNECTION") ≡ (
      if is_one_of connection_names (codes "CONNECTION")
      then []
      else get_all post.headers (codes "CONNECTION")))
    × (get_all (record { entries = response_headers answer }) (codes "CONNECTION") ≡ (
        if is_one_of connection_names (codes "CONNECTION")
        then []
        else get_all answer.headers (codes "CONNECTION")))
unfolding is_pseudo
headers-forward_example = headers-forward post answer (codes "CONNECTION") refl

h3_write-ends_example :
    (h3_write_request
        (3 + 1)
        post
        (takes none)
        (some (stream_body 3))
        (bytes (codes "ab") ∷ bytes (codes "cd") ∷ [])
        (none ∷ none ∷ none ∷ [])
        none
      ≡ ended_message
          (request_headers post)
          (take 3 (arriving (bytes (codes "ab") ∷ bytes (codes "cd") ∷ [])))
          none)
    × (h3_write_response
          (3 + 1)
          empty_response
          (takes none)
          (some (stream_body 3))
          (bytes (codes "ab") ∷ bytes (codes "cd") ∷ [])
          (none ∷ none ∷ none ∷ [])
          none
        ≡ ended_message
            (response_headers empty_response)
            (take 3 (arriving (bytes (codes "ab") ∷ bytes (codes "cd") ∷ [])))
            none)
h3_write-ends_example =
    h3_write-ends 3 post empty_response (bytes (codes "ab") ∷ bytes (codes "cd") ∷ [])
      (none ∷ none ∷ none ∷ []) none ((λ e. cc), ((λ e. cc), refl)) (refl, (refl, (refl, tt)))
      (omega arith)

abbrev fresh : Literals
fresh = record { method = []; path = []; hdrs = no_headers; content_length = none }

abbrev accepts : List Entry
accepts = (codes "accept", codes "*/*") ∷ []

parse_request_headers-literal_wire_example :
    parse_request_headers
      (literal_wire
        (announced fresh (codes "POST") (codes "/upload") (codes "a.example") 42 accepts))
      fresh
    ≡ record {
      out = understood fresh (codes "POST") (codes "/upload") (codes "a.example") 42 accepts;
      outcome = returned true;
    }
unfolding is_pseudo str_eq
parse_request_headers-literal_wire_example =
    parse_request_headers-literal_wire fresh (codes "POST") (codes "/upload") (codes "a.example") 42
      accepts (omega arith) (omega arith) (omega arith) (omega arith)
      ((refl, refl, (omega arith, omega arith)), tt)

-- A text that is announced with more bytes than there are.
parse_request_headers-ends_example :
    (parse_request_headers (7 ∷ codes ":path") fresh).outcome ≢ starved
parse_request_headers-ends_example = parse_request_headers-ends (7 ∷ codes ":path") fresh
