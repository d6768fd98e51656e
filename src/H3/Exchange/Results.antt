-- ===== src/H3/Exchange/Results.antt =====
-- What the HTTP/3 codec (src/codec/h3_codec.cpp) does with a message that it writes, and what it tells.
use reverse_proxy_server.Base.{
  ℕ, ◌+◌, ◌≤◌, ◌≡◌, refl, List, Option, none, some, true, take, length, arith, All,
}
use reverse_proxy_server.Text.{Bytes}
use reverse_proxy_server.Http.Stream.{ErrorCode, Input, arriving}
use reverse_proxy_server.Http.Message.{HttpRequestHead, HttpResponseHead}
use reverse_proxy_server.Http.Body.{stream_body}
use reverse_proxy_server.Http.Pump.Completes.{Served, pump_body-Completes}
use reverse_proxy_server.H3.Heads.{HeaderList, request_headers, response_headers}
use reverse_proxy_server.H3.Exchange.{
  takes, H3Write, told, finish, on_pumped, on_headers_sent, write_message, h3_write_request,
  h3_write_response,
}

-- The message as the peer gets it: the list, the body, and the end of the stream.
abbrev pub ended_message : HeaderList → Bytes → Option ErrorCode → H3Write
ended_message headers body sec = record {
  headers = headers;
  body_bytes = body;
  fin = true;
  result = told sec;
}

write_message-ends :
    (n : ℕ) (headers : HeaderList) (i : Input) (ws : List (Option ErrorCode))
    (sec : Option ErrorCode)
    → Served n i
    → All (λ w. w ≡ none) ws
    → n ≤ length ws
    → write_message (n + 1) headers (takes none) (some (stream_body n)) i ws sec
      ≡ ended_message headers (take n (arriving i)) sec
unfolding write_message on_headers_sent on_pumped finish
write_message-ends n headers i ws sec s w l =
    let c = pump_body-Completes (n + 1) n i ws (omega arith) s w l in rw (c.ended, c.whole) refl

-- A request or a response with a body of `n` bytes, which arrive from the other hop or break off with
-- a fault, in segments with at least a byte each, is written to a stream that takes its header list
-- and all writes, with `n + 1` rounds of the pump. The peer gets the header list, then the `n` bytes, or
-- in order all that came before the fault, and then in either case the end of the stream, and the
-- callback of the write gets the result of the shutdown: a body that breaks off is not told from one
-- that is whole, neither to the peer nor to the caller.
pub h3_write-ends :
    (n : ℕ) (request : HttpRequestHead) (response : HttpResponseHead) (i : Input)
    (ws : List (Option ErrorCode)) (sec : Option ErrorCode)
    → Served n i
    → All (λ w. w ≡ none) ws
    → n ≤ length ws
    → (h3_write_request (n + 1) request (takes none) (some (stream_body n)) i ws sec
        ≡ ended_message (request_headers request) (take n (arriving i)) sec)
      × (h3_write_response (n + 1) response (takes none) (some (stream_body n)) i ws sec
          ≡ ended_message (response_headers response) (take n (arriving i)) sec)
unfolding h3_write_request h3_write_response
h3_write-ends n request response i ws sec s w l = (
  write_message-ends n (request_headers request) i ws sec s w l,
  write_message-ends n (response_headers response) i ws sec s w l,
)
