-- ===== src/Transport/Quic/Stream/Machine.antt =====
-- What happens to a QuicTransportStream (src/transport/quic_transport.cpp): the operations of its
-- user and the callbacks of lsquic, one after the other.
use mathlib.Core.Option
use reverse_proxy_server.Base.{
  ℕ, ◌≡◌, refl, List, [], ◌∷◌, Option, none, some, Bool, true, false, if◌then◌else◌,
}
use reverse_proxy_server.Text.{Bytes}
use reverse_proxy_server.Http.Stream.{ErrorCode}
use reverse_proxy_server.H3.Heads.{HeaderList}
use reverse_proxy_server.Transport.Quic.Stream.{
  QuicStream, Called, WriteOp, WriteAnswer, ReadAnswer, write_done, async_write_some, on_writeable,
  async_read_some, async_take_headers, async_send_headers, sent_shutdown, async_shutdown,
  on_readable, on_close, on_reset,
}

pub data Event : Type 0 where
  writes : Bytes → ℕ → WriteAnswer → Event
  writeable : WriteAnswer → Event
  reads : ℕ → ℕ → Event
  takes_headers : ℕ → Option HeaderList → Event
  sends_headers : HeaderList → ℕ → Bool → Event
  shuts_down : ℕ → Bool → Event
  readable : Option HeaderList → ReadAnswer → Event
  closes : Event
  resets : ℕ → Event

abbrev pub step : Event → QuicStream → Option QuicStream
step (writes buf cb w) s = some (async_write_some buf cb w s)
step (writeable w) s = some (on_writeable w s)
step (reads size cb) s = some (async_read_some size cb s)
step (takes_headers cb hset) s = some (async_take_headers cb hset s).0
step (sends_headers headers cb ok) s = some (async_send_headers headers cb ok s).0
step (shuts_down cb ok) s = async_shutdown cb ok s
step (readable hset a) s = some (on_readable hset a s)
step closes s = some (on_close s)
step (resets how) s = some (on_reset how s)

-- `none` from the first operation that hands lsquic a null stream.
abbrev pub run : List Event → QuicStream → Option QuicStream
run [] s = some s
run (e ∷ es) s = Option.bind (step e s) (run es)

-- The writes that were handed over, in order.
abbrev pub submitted : List Event → List (Bytes × ℕ)
submitted [] = []
submitted (writes buf cb w ∷ es) = (buf, cb) ∷ submitted es
submitted (_ ∷ es) = submitted es

-- The write callbacks that were called, in order, with their arguments.
abbrev pub written : List Called → List (ℕ × Option ErrorCode × ℕ)
written [] = []
written (write_done cb ec n ∷ cs) = (cb, ec, n) ∷ written cs
written (_ ∷ cs) = written cs

abbrev pub queued : List WriteOp → List ℕ
queued [] = []
queued (op ∷ q) = op.cb ∷ queued q

pub run-cons :
    (e : Event) (es : List Event) (s t : QuicStream)
    → run (e ∷ es) s ≡ some t
    → (u : QuicStream) × (step e s ≡ some u) × (run es u ≡ some t)
run-cons e es s t h = (Option.bind-eq-some_iff (step e s) (run es)).0 h

-- Only an open stream is shut down.
pub async_shutdown-sent :
    (cb : ℕ) (ok : Bool) (s t : QuicStream)
    → async_shutdown cb ok s ≡ some t
    → (s.live ≡ true) × (sent_shutdown cb ok s ≡ t)
unfolding async_shutdown
async_shutdown-sent cb ok s t h = by_live s.live h
  where
    by_live :
        (b : Bool)
        → (if b then some (sent_shutdown cb ok s) else none) ≡ some t
        → (b ≡ true) × (sent_shutdown cb ok s ≡ t)
    by_live true e = (refl, cc)
    by_live false e = cc
