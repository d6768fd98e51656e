-- ===== src/Transport/Quic/Stream/Quiet.antt =====
-- The operations of a QuicTransportStream (src/transport/quic_transport.cpp) that leave its writes
-- alone.
use reverse_proxy_server.Base.{
  ℕ, ◌≡◌, refl, ap, List, [], ◌∷◌, ◌++◌, append-nil, Option, none, some, Bool, true, false, arith,
  not, if◌then◌else◌, is_some,
}
use reverse_proxy_server.Text.{Bytes}
use reverse_proxy_server.Http.Stream.{ErrorCode, eof, message_size}
use reverse_proxy_server.H3.Heads.{HeaderList}
use reverse_proxy_server.Transport.Quic.Stream.{
  QuicStream, Called, WriteOp, ReadAnswer, data_read, would_block, read_reset, read_failed,
  read_done, write_done, headers_taken, headers_sent, shutdown_done, call, fail_read,
  finish_shutdown, finish_read, take_headers, try_take_headers, read_into, lower_names,
  async_read_some, async_take_headers, async_send_headers, sent_shutdown, on_readable,
}
use reverse_proxy_server.Transport.Quic.Stream.Machine.{written}

pub written-append : (a b : List Called) → written (a ++ b) ≡ written a ++ written b
written-append [] b = refl
written-append (read_done _ _ _ ∷ a) b = written-append a b
written-append (write_done cb ec n ∷ a) b = ap (◌∷◌ (cb, ec, n)) (written-append a b)
written-append (headers_taken _ _ ∷ a) b = written-append a b
written-append (headers_sent _ _ ∷ a) b = written-append a b
written-append (shutdown_done _ ∷ a) b = written-append a b

-- What a stream has to do with its writes.
pub record WriteSide : Type 0 where
  pub live : Bool
  pub queue : List WriteOp
  pub writing : Bool
  pub want : Bool
  pub accepted : Bytes
  pub results : List (ℕ × Option ErrorCode × ℕ)

abbrev pub write_side : QuicStream → WriteSide
write_side s = record {
  live = s.live;
  queue = s.write_queue;
  writing = s.writing;
  want = s.want_write;
  accepted = s.accepted;
  results = written s.called;
}

abbrev pub Quiet : QuicStream → QuicStream → Type 0
Quiet s t = write_side t ≡ write_side s

-- A callback of another kind.
call-Quiet : (c : Called) (s : QuicStream) → written (c ∷ []) ≡ [] → Quiet s (call c s)
unfolding call
call-Quiet c s e = rw (written-append s.called, e, append-nil) refl

pub fail_read-Quiet :
    (e : ErrorCode) (o : Option (ℕ × ℕ)) (s : QuicStream) → Quiet s (fail_read e o s)
unfolding fail_read
fail_read-Quiet e none s = refl
fail_read-Quiet e (some (size, cb)) s =
    call-Quiet (read_done cb (some e) []) (record s { read_cb = none }) refl

pub finish_shutdown-Quiet : (o : Option ℕ) (s : QuicStream) → Quiet s (finish_shutdown o s)
unfolding finish_shutdown
finish_shutdown-Quiet none s = refl
finish_shutdown-Quiet (some cb) s =
    call-Quiet (shutdown_done cb) (record s { shutdown_cb = none }) refl

finish_read-Quiet :
    (cb : ℕ) (ec : Option ErrorCode) (b : Bytes) (s : QuicStream) → Quiet s (finish_read cb ec b s)
unfolding finish_read
finish_read-Quiet cb ec b s =
    call-Quiet (read_done cb ec b) (record s { read_cb = none; want_read = false }) refl

read_into-Quiet : (a : ReadAnswer) (o : Option (ℕ × ℕ)) (s : QuicStream) → Quiet s (read_into a o s)
unfolding read_into
read_into-Quiet a none s = refl
read_into-Quiet (data_read b) (some (size, cb)) s = finish_read-Quiet cb _ _ s
read_into-Quiet would_block (some p) s = refl
read_into-Quiet read_reset (some (size, cb)) s = finish_read-Quiet cb _ _ s
read_into-Quiet read_failed (some (size, cb)) s = finish_read-Quiet cb _ _ s

take_headers-Quiet :
    (hset : Option HeaderList) (o : Option ℕ) (s : QuicStream) → Quiet s (take_headers hset o s)
unfolding take_headers
take_headers-Quiet hset none s = refl
take_headers-Quiet none (some cb) s = refl
take_headers-Quiet (some raw) (some cb) s =
    call-Quiet (headers_taken cb raw) (record s { headers_cb = none }) refl

-- Whichever branch is taken.
if-Quiet : (b : Bool) (s x y : QuicStream) → Quiet s x → Quiet s y → Quiet s (if b then x else y)
if-Quiet true s x y hx hy = hx
if-Quiet false s x y hx hy = hy

try_take_headers-Quiet :
    (hset : Option HeaderList) (s : QuicStream) → Quiet s (try_take_headers hset s)
unfolding try_take_headers
try_take_headers-Quiet hset s =
    if-Quiet (not s.live) s _ _ refl (take_headers-Quiet hset s.headers_cb s)

pub async_send_headers-Quiet :
    (h : HeaderList) (cb : ℕ) (ok : Bool) (s : QuicStream)
    → Quiet s (async_send_headers h cb ok s).0
unfolding async_send_headers
async_send_headers-Quiet h cb ok s = ground (
  arith,
  call-Quiet (headers_sent cb (some eof)) s refl,
  call-Quiet (headers_sent cb (some message_size)) s refl,
  call-Quiet (headers_sent cb none)
      (record s { header_blocks = s.header_blocks ++ lower_names h ∷ [] }) refl,
)

pub async_read_some-Quiet : (size cb : ℕ) (s : QuicStream) → Quiet s (async_read_some size cb s)
unfolding async_read_some
async_read_some-Quiet size cb s =
    if-Quiet (not s.live) s _ _ (call-Quiet (read_done cb (some eof) []) s refl) refl

pub async_take_headers-Quiet :
    (cb : ℕ) (hset : Option HeaderList) (s : QuicStream) → Quiet s (async_take_headers cb hset s).0
unfolding async_take_headers
async_take_headers-Quiet cb hset s =
    let s' = record s { headers_cb = some cb; want_read = true } in
    ground (arith, try_take_headers-Quiet hset s')

pub on_readable-Quiet :
    (hset : Option HeaderList) (a : ReadAnswer) (s : QuicStream) → Quiet s (on_readable hset a s)
unfolding on_readable
on_readable-Quiet hset a s =
    if-Quiet (is_some s.headers_cb) s _ _ (try_take_headers-Quiet hset s)
      (read_into-Quiet a s.read_cb s)

pub sent_shutdown-Quiet : (cb : ℕ) (ok : Bool) (s : QuicStream) → Quiet s (sent_shutdown cb ok s)
unfolding sent_shutdown
sent_shutdown-Quiet cb true s = call-Quiet (shutdown_done cb) (record s { shutdown_cb = none }) refl
sent_shutdown-Quiet cb false s = refl
