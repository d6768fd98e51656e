-- ===== src/Transport/Quic/Stream.antt =====
-- QuicTransportStream of src/transport/quic_transport.h and quic_transport.cpp. A callback is a number;
-- `called` lists the callbacks that were called, in order, with their arguments, and what a callback
-- does next is a later operation. lsquic's answers are arguments, `want_read` and `want_write` are the
-- flags that lsquic_stream_wantread and lsquic_stream_wantwrite set, and `accepted` is what
-- lsquic_stream_write has taken.
pub mod Machine
pub mod Quiet
pub mod Completions
pub mod Order
pub mod Progress
pub mod Drain
pub mod Delivery
pub mod Closed
pub mod Reentry
pub mod Twice
use mathlib.Core.List.{foldl}
use reverse_proxy_server.Base.{
  ℕ, ◌+◌, ◌-◌, ◌*◌, min, List, [], ◌∷◌, ◌++◌, Option, none, some, Bool, true, false, not, ◌&&◌,
  ◌||◌, if◌then◌else◌, ◌==◌, ltb, leb, length, take, drop, is_some, map,
}
use reverse_proxy_server.Text.{Bytes, lower}
use reverse_proxy_server.Http.Stream.{ErrorCode, eof, connection_reset, message_size}
use reverse_proxy_server.H3.Heads.{HeaderList}

pub record WriteOp : Type 0 where
  pub payload : Bytes
  pub offset : ℕ
  pub cb : ℕ

pub data Called : Type 0 where
  read_done : ℕ → Option ErrorCode → Bytes → Called
  write_done : ℕ → Option ErrorCode → ℕ → Called
  headers_taken : ℕ → HeaderList → Called
  headers_sent : ℕ → Option ErrorCode → Called
  shutdown_done : ℕ → Called

pub record QuicStream : Type 0 where
  -- `stream_` is not null.
  pub live : Bool
  -- The size of `read_buf_` and `read_cb_`.
  pub read_cb : Option (ℕ × ℕ)
  pub headers_cb : Option ℕ
  pub write_queue : List WriteOp
  pub writing : Bool
  pub shutdown_cb : Option ℕ
  pub want_read : Bool
  pub want_write : Bool
  pub accepted : Bytes
  pub header_blocks : List HeaderList
  pub called : List Called

abbrev pub new_stream : QuicStream
new_stream = record {
  live = true;
  read_cb = none;
  headers_cb = none;
  write_queue = [];
  writing = false;
  shutdown_cb = none;
  want_read = false;
  want_write = false;
  accepted = [];
  header_blocks = [];
  called = [];
}

-- What lsquic_stream_write does with the bytes it is given: it takes as many as it has room for, or
-- fails, with ECONNRESET or another errno.
pub data WriteAnswer : Type 0 where
  room : ℕ → WriteAnswer
  write_reset write_failed : WriteAnswer

-- What lsquic_stream_read returns: the bytes that it has, none at the end, or -1 with an errno.
pub data ReadAnswer : Type 0 where
  data_read : Bytes → ReadAnswer
  would_block read_reset read_failed : ReadAnswer

unfoldable pub call : Called → QuicStream → QuicStream
call c s = record s { called = s.called ++ c ∷ [] }

-- `while (!write_queue_.empty())`: every callback with the error, and nothing written.
unfoldable pub flush_calls : ErrorCode → List WriteOp → List Called
flush_calls e [] = []
flush_calls e (op ∷ q) = write_done op.cb (some e) 0 ∷ flush_calls e q

unfoldable pub flush_queue : ErrorCode → QuicStream → QuicStream
flush_queue e s = record s { write_queue = []; called = s.called ++ flush_calls e s.write_queue }

unfoldable pub block_write : QuicStream → QuicStream
block_write s = record s { writing = true; want_write = true }

-- lsquic has taken `n` bytes, not none, of the front of the queue.
unfoldable pub advance : ℕ → WriteOp → List WriteOp → QuicStream → QuicStream
unfolding block_write call
advance n op q s =
    let op' : WriteOp = record op { offset = op.offset + n } in
    let s' = record s { accepted = s.accepted ++ take n (drop op.offset op.payload) } in
    if leb (length op.payload) op'.offset
    then call (write_done op.cb none op'.offset) (record s' { write_queue = q })
    else block_write (record s' { write_queue = op' ∷ q })

unfoldable pub fail_write : ErrorCode → WriteOp → List WriteOp → QuicStream → QuicStream
unfolding call
fail_write e op q s = call (write_done op.cb (some e) 0) (record s { write_queue = q })

unfoldable pub write_front : WriteAnswer → WriteOp → List WriteOp → QuicStream → QuicStream
unfolding block_write
write_front (room k) op q s =
    let n = min k (length op.payload - op.offset) in
    if n == 0 then block_write s else advance n op q s
write_front write_reset op q s = fail_write connection_reset op q s
write_front write_failed op q s = fail_write eof op q s

unfoldable pub pump_queue : WriteAnswer → List WriteOp → QuicStream → QuicStream
pump_queue w [] s = s
pump_queue w (op ∷ q) s = write_front w op q s

unfoldable pub pump_write : WriteAnswer → QuicStream → QuicStream
unfolding flush_queue pump_queue
pump_write w s =
    if not s.live then flush_queue eof s else if s.writing then s else pump_queue w s.write_queue s

unfoldable pub async_write_some : Bytes → ℕ → WriteAnswer → QuicStream → QuicStream
async_write_some buf cb w s =
    pump_write w (record s {
      write_queue = s.write_queue ++ record { payload = buf; offset = 0; cb = cb } ∷ [];
    })

unfoldable pub on_writeable : WriteAnswer → QuicStream → QuicStream
on_writeable w s = pump_write w (record s { writing = false })

unfoldable pub async_read_some : ℕ → ℕ → QuicStream → QuicStream
unfolding call
async_read_some size cb s =
    if not s.live
    then call (read_done cb (some eof) []) s
    else record s { read_cb = some (size, cb); want_read = true }

-- The header callback with the decoded header set, if lsquic has one.
unfoldable pub take_headers : Option HeaderList → Option ℕ → QuicStream → QuicStream
unfolding call
take_headers hset none s = s
take_headers none (some cb) s = s
take_headers (some raw) (some cb) s = call (headers_taken cb raw) (record s { headers_cb = none })

unfoldable pub try_take_headers : Option HeaderList → QuicStream → QuicStream
unfolding take_headers
try_take_headers hset s = if not s.live then s else take_headers hset s.headers_cb s

-- With the result, whether the take is pending or done.
unfoldable pub async_take_headers : ℕ → Option HeaderList → QuicStream → QuicStream × Bool
async_take_headers cb hset s =
    if not s.live || is_some s.headers_cb
    then (s, false)
    else (try_take_headers hset (record s { headers_cb = some cb; want_read = true }), true)

unfoldable pub finish_read : ℕ → Option ErrorCode → Bytes → QuicStream → QuicStream
unfolding call
finish_read cb ec got s =
    call (read_done cb ec got) (record s { read_cb = none; want_read = false })

-- The read callback with lsquic's answer for a buffer of the size.
unfoldable pub read_into : ReadAnswer → Option (ℕ × ℕ) → QuicStream → QuicStream
unfolding finish_read
read_into a none s = s
read_into (data_read b) (some (size, cb)) s = finish_read cb none (take size b) s
read_into would_block (some p) s = record s { want_read = true }
read_into read_reset (some (size, cb)) s = finish_read cb (some connection_reset) [] s
read_into read_failed (some (size, cb)) s = finish_read cb (some eof) [] s

unfoldable pub on_readable : Option HeaderList → ReadAnswer → QuicStream → QuicStream
unfolding read_into
on_readable hset a s =
    if is_some s.headers_cb then try_take_headers hset s else read_into a s.read_cb s

abbrev pub fields_size : HeaderList → ℕ
fields_size [] = 0
fields_size ((k, v) ∷ es) = length k + length v + fields_size es

unfoldable pub lower_names : HeaderList → HeaderList
lower_names = map (λ e. (lower e.0, e.1))

-- `ok` where lsquic_stream_send_headers returns 0.
unfoldable pub async_send_headers : HeaderList → ℕ → Bool → QuicStream → QuicStream × Bool
unfolding call
async_send_headers headers cb ok s =
    if not s.live
    then (call (headers_sent cb (some eof)) s, false)
    else if ltb (64 * 1024) (fields_size headers)
    then (call (headers_sent cb (some message_size)) s, true)
    else if ok
    then (
      call (headers_sent cb none)
          (record s { header_blocks = s.header_blocks ++ lower_names headers ∷ [] }),
      true,
    )
    else (call (headers_sent cb (some eof)) s, true)

-- The stream after lsquic_stream_shutdown; `ok` where that returns 0.
unfoldable pub sent_shutdown : ℕ → Bool → QuicStream → QuicStream
unfolding call
sent_shutdown cb ok s =
    if ok
    then call (shutdown_done cb) (record s { shutdown_cb = none })
    else record s { shutdown_cb = some cb }

-- `none` where the code hands lsquic_stream_shutdown a null stream.
unfoldable pub async_shutdown : ℕ → Bool → QuicStream → Option QuicStream
async_shutdown cb ok s = if s.live then some (sent_shutdown cb ok s) else none

unfoldable pub fail_read : ErrorCode → Option (ℕ × ℕ) → QuicStream → QuicStream
unfolding call
fail_read e none s = s
fail_read e (some (size, cb)) s = call (read_done cb (some e) []) (record s { read_cb = none })

unfoldable pub finish_shutdown : Option ℕ → QuicStream → QuicStream
unfolding call
finish_shutdown none s = s
finish_shutdown (some cb) s = call (shutdown_done cb) (record s { shutdown_cb = none })

unfoldable pub on_close : QuicStream → QuicStream
unfolding fail_read finish_shutdown flush_queue
on_close s =
    let r = fail_read eof s.read_cb (record s { live = false }) in
    let w = flush_queue eof r in record (finish_shutdown s.shutdown_cb w) { writing = false }

-- 0 is the reading side, 1 the writing side, 2 both.
unfoldable pub on_reset : ℕ → QuicStream → QuicStream
unfolding fail_read flush_queue
on_reset how s =
    let r = if how == 0 || how == 2 then fail_read connection_reset s.read_cb s else s in
    if how == 1 || how == 2 then record (flush_queue connection_reset r) { writing = false } else r
