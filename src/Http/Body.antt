-- ===== src/Http/Body.antt =====
-- StreamBodySource, BufferBodySource and StreamEofBodySource of src/codec/http_message.cpp.
pub mod Counts
use reverse_proxy_server.Base.{
  ℕ, zero, suc, ◌+◌, ◌-◌, [], Option, none, some, min, length, take, drop,
}
use reverse_proxy_server.Text.{Bytes}
use reverse_proxy_server.Http.Stream.{Input, Read, read_some, eof}

-- A body source and its state.
pub data BodySource : Type 0 where
  stream_body : ℕ → BodySource
  buffer_body : Bytes → ℕ → BodySource
  stream_eof_body : BodySource

unfoldable pub no_more : Input → Read
no_more i = record { ec = none; got = []; rest = i }

-- The callback that StreamBodySource gives the stream.
unfoldable pub count_down : ℕ → Option Read → Option (Read × BodySource)
count_down remaining none = none
count_down remaining (some r) = elim r.ec [
  | some e ↦ some (r, stream_body remaining)
  | none ↦
      let n = min (length r.got) remaining in
      some (record r { got = take n r.got }, stream_body (remaining - n))
]

-- The callback that StreamEofBodySource gives the stream: the end of the stream is that of the body.
end_at_eof : Option Read → Option (Read × BodySource)
end_at_eof none = none
end_at_eof (some r) = elim r.ec [
  | none ↦ some (r, stream_eof_body)
  | some e ↦ some (
    elim e [ eof ↦ record r { ec = none; got = [] } | _ ↦ record r { got = [] } ],
    stream_eof_body,
  )
]

-- `async_read_some` with a buffer of `cap` bytes; none where it stays pending.
unfoldable pub body_read : ℕ → BodySource → Input → Option (Read × BodySource)
unfolding no_more count_down end_at_eof
body_read cap (stream_body zero) i = some (no_more i, stream_body 0)
body_read cap (stream_body (suc r)) i = count_down (suc r) (read_some (min cap (suc r)) i)
body_read cap (buffer_body d pos) i =
    let n = min cap (length d - pos) in
    some (record { ec = none; got = take n (drop pos d); rest = i }, buffer_body d (pos + n))
body_read cap stream_eof_body i = end_at_eof (read_some cap i)

unfoldable pub body_content_length : BodySource → Option ℕ
body_content_length (stream_body remaining) = some remaining
body_content_length (buffer_body d pos) = some (length d)
body_content_length stream_eof_body = none
