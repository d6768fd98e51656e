-- ===== src/Transport/Quic/Session.antt =====
-- QuicTransportSession of src/transport/quic_transport.h and quic_transport.cpp. A callback is a
-- number, as is a stream of lsquic; `called` lists the callbacks that were called, in order. `conn` says
-- that `conn_` is not null, `made` and `closes` count the calls of lsquic_conn_make_stream and
-- lsquic_conn_close, and `self` says that the session owns itself.
pub mod Closing
pub mod Opening
use reverse_proxy_server.Base.{
  ℕ, suc, ◌+◌, List, [], ◌∷◌, ◌++◌, Option, none, some, Bool, true, false, not, ◌&&◌, if◌then◌else◌,
}

pub data SessionCall : Type 0 where
  -- A callback, with the stream or the null that it gets.
  stream_given : ℕ → Option ℕ → SessionCall
  closed_told : ℕ → SessionCall

pub record QuicSession : Type 0 where
  pub conn : Bool
  pub new_stream_cb : Option ℕ
  pub closed_cb : Option ℕ
  pub closed : Bool
  pub self : Bool
  pub made : ℕ
  pub closes : ℕ
  pub called : List SessionCall

-- After adopt_self.
abbrev pub new_session : QuicSession
new_session = record {
  conn = true;
  new_stream_cb = none;
  closed_cb = none;
  closed = false;
  self = true;
  made = 0;
  closes = 0;
  called = [];
}

unfoldable pub set_new_stream_cb : ℕ → QuicSession → QuicSession
set_new_stream_cb cb s = record s { new_stream_cb = some cb }

unfoldable pub set_closed_cb : ℕ → QuicSession → QuicSession
set_closed_cb cb s = record s { closed_cb = some cb }

-- The result, a null pointer, is left out.
unfoldable pub open_stream : QuicSession → QuicSession
open_stream s = if s.conn then record s { made = suc s.made } else s

unfoldable pub async_open_stream : ℕ → QuicSession → QuicSession
unfolding set_new_stream_cb
async_open_stream cb s =
    let t = set_new_stream_cb cb s in if t.conn then record t { made = suc t.made } else t

unfoldable pub close : QuicSession → QuicSession
close s = if s.conn && not s.closed then record s { closed = true; closes = suc s.closes } else s

unfoldable pub give_stream : Option ℕ → Option ℕ → QuicSession → QuicSession
give_stream none st s = s
give_stream (some cb) st s = record s { called = s.called ++ stream_given cb st ∷ [] }

unfoldable pub on_new_stream : Option ℕ → QuicSession → QuicSession
unfolding give_stream
on_new_stream st s = give_stream s.new_stream_cb st s

unfoldable pub tell_closed : Option ℕ → QuicSession → QuicSession
tell_closed none s = s
tell_closed (some cb) s = record s { closed_cb = none; called = s.called ++ closed_told cb ∷ [] }

unfoldable pub on_closed : QuicSession → QuicSession
unfolding tell_closed
on_closed s = tell_closed s.closed_cb (record s { closed = true; conn = false })

-- lsquic's last callback for the connection, which finds the session while the connection has one.
unfoldable pub conn_closed_cb : QuicSession → QuicSession
conn_closed_cb s = if s.conn then record (on_closed s) { self = false } else s

pub data Event : Type 0 where
  opens : ℕ → Event
  asks : Event
  watches : ℕ → Event
  closes_it : Event
  streams : Option ℕ → Event
  ends : Event

abbrev pub step : Event → QuicSession → QuicSession
step (opens cb) s = async_open_stream cb s
step asks s = open_stream s
step (watches cb) s = set_closed_cb cb s
step closes_it s = close s
step (streams st) s = on_new_stream st s
step ends s = conn_closed_cb s

abbrev pub run : List Event → QuicSession → QuicSession
run [] s = s
run (e ∷ es) s = run es (step e s)
