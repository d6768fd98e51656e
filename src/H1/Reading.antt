-- ===== src/H1/Reading.antt =====
-- read_header_block and read_response_header of src/codec/h1_codec.cpp: the same loop reads up to the
-- blank line behind a header block, and then the body source is chosen.
pub mod Segments
use reverse_proxy_server.Base.{
  ℕ, zero, suc, ◌+◌, ◌-◌, ◌/◌, Bool, true, false, ◌||◌, List, [], ◌∷◌, ◌++◌, Option, none, some,
  if◌then◌else◌, is_empty, take, drop, length, min, ◌==◌, is_some, leb,
}
use reverse_proxy_server.Text.{Bytes, codes, find, crlf}
use reverse_proxy_server.Http.Headers.{get}
use reverse_proxy_server.Http.Message.{HttpRequestHead, HttpResponseHead, ℤ, pos, negsuc}
use reverse_proxy_server.Http.Stream.{ErrorCode, eof, invalid_argument, Input, Read, read_some}
use reverse_proxy_server.Http.Body.{BodySource, stream_body, buffer_body, stream_eof_body}
use reverse_proxy_server.H1.KeepAlive.{compute_keep_alive}
use reverse_proxy_server.H1.Result.{Parsed, parsed, refused}
use reverse_proxy_server.H1.Request.{parse_header_block}
use reverse_proxy_server.H1.Response.{parse_response_block}

abbrev pub block_end : Bytes
block_end = crlf ++ crlf

abbrev pub chunk_size : ℕ
chunk_size = 4096

pub data HeadRead : Type 0 where
  -- The read failed with this code.
  failed : ErrorCode → HeadRead
  -- The last read is still pending.
  waiting : HeadRead
  -- The block with its blank line, the bytes that came with it, and the input behind those.
  block : Bytes → Bytes → Input → HeadRead
  -- The fuel of the model ran out.
  starved : HeadRead

split_block : Bytes → Input → ℕ → HeadRead
split_block buf rest p = block (take (p + 4) buf) (drop (p + 4) buf) rest

-- `view.find("\r\n\r\n")` over all that was read; `again` is the call that keeps reading.
search : (Bytes → Input → HeadRead) → Bytes → Input → Option ℕ → HeadRead
search again buf rest none = again buf rest
search again buf rest (some p) = split_block buf rest p

-- The callback of the read.
on_read : (Bytes → Input → HeadRead) → Bytes → Option Read → HeadRead
unfolding search
on_read again buf none = waiting
on_read again buf (some r) = elim r.ec [
  | some e ↦ failed e
  | none ↦
      if is_empty r.got
      then failed eof
      else search again (buf ++ r.got) r.rest (find block_end (buf ++ r.got))
]

unfoldable pub read_head : ℕ → Bytes → Input → HeadRead
unfolding on_read split_block
read_head zero buf i = starved
read_head (suc fuel) buf i = on_read (read_head fuel) buf (read_some chunk_size i)

-- The body of a known length: bytes that came with the head serve it only if they are all of it.
unfoldable pub counted_body : ℕ → Bytes → Option BodySource
counted_body length_ prefix =
    if is_empty prefix
    then if length_ == 0 then none else some (stream_body length_)
    else let prefix_len = min (length prefix) length_ in
      if length_ - prefix_len == 0
      then some (buffer_body (take prefix_len prefix) 0)
      else some (stream_body (length_ - prefix_len))

unfoldable pub request_body : HttpRequestHead → Bytes → Option BodySource
request_body head prefix = elim head.content_length [ none ↦ none | some n ↦ counted_body n prefix ]

-- What the relay is called back with: head, body, keep-alive and the input left, or an error code.
pub data Message (H B : Type 0) : Type 0 where
  message : H → B → Bool → Input → Message H B
  error : ErrorCode → Message H B
  pending : Message H B
  no_fuel : Message H B

finish_request :
    Parsed (HttpRequestHead × Bytes) → Bytes → Input → Message HttpRequestHead (Option BodySource)
finish_request (refused _) prefix rest = error invalid_argument
finish_request (parsed (head, version)) prefix rest =
    message head (request_body head prefix) (compute_keep_alive head.headers version) rest

-- async_parse_request.
unfoldable pub parse_request : ℕ → Input → Message HttpRequestHead (Option BodySource)
unfolding finish_request
parse_request fuel i = elim (read_head fuel [] i) [
  | failed e ↦ error e
  | waiting ↦ pending
  | starved ↦ no_fuel
  | block raw prefix rest ↦ finish_request (parse_header_block raw) prefix rest
]

-- How the body of a response is framed. The chunked decoder is named only.
pub data Framing : Type 0 where
  no_body : Framing
  chunked : Framing
  counted : Option BodySource → Framing
  close_delimited : Framing

-- `status_code / 100 == 1 || == 204 || == 304`.
unfoldable pub has_no_body : ℤ → Bool
has_no_body (pos n) = n / 100 == 1 || n == 204 || n == 304
has_no_body (negsuc n) = false

says_chunked : HttpResponseHead → Bool
says_chunked head = elim (get head.headers (codes "transfer-encoding")) [
  | none ↦ false
  | some te ↦ is_some (find (codes "chunked") te)
]

unfoldable pub response_framing : HttpResponseHead → Bytes → Framing
unfolding says_chunked
response_framing head prefix =
    if has_no_body head.status_code
    then no_body
    else if says_chunked head
    then chunked
    else elim head.content_length [
      | some n ↦ counted (counted_body n prefix)
      | none ↦ close_delimited
    ]

is_close_delimited : Framing → Bool
is_close_delimited close_delimited = true
is_close_delimited _ = false

-- A body that ends with the connection leaves no connection to keep.
finish_response :
    Parsed (HttpResponseHead × Bytes) → Bytes → Input → Message HttpResponseHead Framing
unfolding is_close_delimited
finish_response (refused _) prefix rest = error invalid_argument
finish_response (parsed (head, version)) prefix rest =
    let body = response_framing head prefix in
    message head body
      (if is_close_delimited body then false else compute_keep_alive head.headers version) rest

-- async_parse_response.
unfoldable pub parse_response : ℕ → Input → Message HttpResponseHead Framing
unfolding finish_response
parse_response fuel i = elim (read_head fuel [] i) [
  | failed e ↦ error e
  | waiting ↦ pending
  | starved ↦ no_fuel
  | block raw prefix rest ↦ finish_response (parse_response_block raw) prefix rest
]
