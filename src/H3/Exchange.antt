-- ===== src/H3/Exchange.antt =====
-- H3Codec::async_parse_request, async_parse_response, async_write_request and async_write_response of
-- src/codec/h3_codec.cpp. What the stream answers is an argument: whether it takes the call, what it gives
-- its callbacks, and the result of its shutdown. Where it does not take the call, the code calls `cb`,
-- which it has moved into the callback before: an empty std::function, whose call throws.
pub mod Results
use reverse_proxy_server.Base.{
  ℕ, List, [], ◌∷◌, Option, none, some, Bool, true, false, not, if◌then◌else◌,
}
use reverse_proxy_server.Text.{Bytes}
use reverse_proxy_server.Http.Stream.{ErrorCode, operation_not_supported, Input}
use reverse_proxy_server.Http.Message.{HttpRequestHead, HttpResponseHead}
use reverse_proxy_server.Http.Body.{BodySource, stream_eof_body}
use reverse_proxy_server.Http.Pump.{
  Ending, called_back, reading, writing, starved, Pumped, pump_body,
}
use reverse_proxy_server.H3.Heads.{
  HeaderList, request_head_from_headers, response_head_from_headers, request_headers,
  response_headers,
}

-- What the callback of a parse gets, if it is called: an error, or the head and the body; the
-- connection is never kept.
pub data H3Parse (A : Type 0) : Type 0 where
  parse_pending : H3Parse A
  parse_failed : ErrorCode → H3Parse A
  parsed : A → BodySource → Bool → H3Parse A
  -- std::bad_function_call.
  parse_thrown : H3Parse A

-- The callback of async_take_headers, if it is called.
unfoldable pub on_headers :
    {A : Type 0} → (HeaderList → A) → Option (Option ErrorCode × HeaderList) → H3Parse A
on_headers head none = parse_pending
on_headers head (some (some ec, raw)) = parse_failed ec
on_headers head (some (none, raw)) = parsed (head raw) stream_eof_body false

-- `ok` where the stream takes the call.
unfoldable pub h3_parse_request :
    Bool → Option (Option ErrorCode × HeaderList) → H3Parse HttpRequestHead
unfolding on_headers
h3_parse_request ok answer =
    if ok then on_headers request_head_from_headers answer else parse_thrown

unfoldable pub h3_parse_response :
    Bool → Option (Option ErrorCode × HeaderList) → H3Parse HttpResponseHead
unfolding on_headers
h3_parse_response ok answer =
    if ok then on_headers response_head_from_headers answer else parse_thrown

-- What async_send_headers does: it takes the list and calls its callback with an error or none, or it
-- refuses; a QUIC stream that is closed has then called its callback, with end of file.
pub data HeadersAnswer : Type 0 where
  takes : Option ErrorCode → HeadersAnswer
  refuses : Bool → HeadersAnswer

-- What the caller of a write hears: nothing yet, the argument of its callback, or an exception.
pub data Told : Type 0 where
  waits : Told
  told : Option ErrorCode → Told
  thrown : Told

-- What becomes of a message that is written.
pub record H3Write : Type 0 where
  pub headers : HeaderList
  -- The bytes of the body that the stream was given.
  pub body_bytes : Bytes
  -- async_shutdown was called.
  pub fin : Bool
  pub result : Told

-- `finish`, with the result of the shutdown.
unfoldable pub finish : HeaderList → Bytes → Option ErrorCode → Option ErrorCode → H3Write
finish headers out ec sec = record {
  headers = headers;
  body_bytes = out;
  fin = true;
  result = told sec;
}

unfoldable pub on_pumped : HeaderList → Option ErrorCode → Bytes → Ending → H3Write
unfolding finish
on_pumped headers sec out (called_back ec) = finish headers out ec sec
on_pumped headers sec out _ = record {
  headers = headers;
  body_bytes = out;
  fin = false;
  result = waits;
}

-- The callback of async_send_headers.
unfoldable pub on_headers_sent :
    ℕ
    → HeaderList
    → Option ErrorCode
    → Option BodySource
    → Input
    → List (Option ErrorCode)
    → Option ErrorCode
    → H3Write
unfolding finish on_pumped
on_headers_sent fuel headers (some ec) body i ws sec = finish headers [] (some ec) sec
on_headers_sent fuel headers none none i ws sec = finish headers [] none sec
on_headers_sent fuel headers none (some src) i ws sec =
    let p = pump_body fuel src i ws in on_pumped headers sec p.out p.ending

unfoldable pub write_message :
    ℕ
    → HeaderList
    → HeadersAnswer
    → Option BodySource
    → Input
    → List (Option ErrorCode)
    → Option ErrorCode
    → H3Write
unfolding on_headers_sent
write_message fuel headers (takes ec) body i ws sec = on_headers_sent fuel headers ec body i ws sec
write_message fuel headers (refuses called) body i ws sec = record {
  headers = [];
  body_bytes = [];
  fin = called;
  result = thrown;
}

unfoldable pub h3_write_request :
    ℕ
    → HttpRequestHead
    → HeadersAnswer
    → Option BodySource
    → Input
    → List (Option ErrorCode)
    → Option ErrorCode
    → H3Write
unfolding write_message
h3_write_request fuel head = write_message fuel (request_headers head)

unfoldable pub h3_write_response :
    ℕ
    → HttpResponseHead
    → HeadersAnswer
    → Option BodySource
    → Input
    → List (Option ErrorCode)
    → Option ErrorCode
    → H3Write
unfolding write_message
h3_write_response fuel head = write_message fuel (response_headers head)
