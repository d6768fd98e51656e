-- ===== src/Transport/Quic/Client.antt =====
-- QuicClientEngine of src/transport/quic_transport.h and quic_transport.cpp. What the resolver, the
-- kernel and lsquic answer are arguments: the family of the first address, whether an IPv6 socket opens
-- and binds, and the connection. new_session_cb_ is set; lsquic_engine_connect calls on_new_conn_cb before it gives a connection.
pub mod Listening
use reverse_proxy_server.Base.{
  ℕ, List, [], ◌∷◌, ◌++◌, Option, none, some, Bool, true, false, not, ◌&&◌, ◌||◌, if◌then◌else◌,
}
use reverse_proxy_server.Text.{Bytes}
use reverse_proxy_server.Http.Message.{ℤ}
use reverse_proxy_server.Http.Stream.{ErrorCode, operation_aborted}
use reverse_proxy_server.Proxy.Config.{BackendEndpoint}
use reverse_proxy_server.Transport.Demux.{Family, v4, v6}
use reverse_proxy_server.Transport.Quic.Engine.{
  Told, packet_in, process_conns, send_unsent, tick_delay, OutSpec, send_specs,
}

pub record QuicClientEngine : Type 0 where
  -- `engine_` is not null.
  pub engine : Bool
  pub started : Bool
  pub open6 : Bool
  pub receiving : Bool
  pub receiving6 : Bool
  pub send_retry_armed : Bool
  pub send_retry6_armed : Bool
  pub tick : Option ℕ
  -- `none` when empty or moved from.
  pub current_connect_ep : Option BackendEndpoint
  -- The sessions given to `new_session_cb_`, each with its endpoint.
  pub sessions : List (ℕ × Option BackendEndpoint)
  pub told : List Told

abbrev pub new_client : QuicClientEngine
new_client = record {
  engine = true;
  started = false;
  open6 = false;
  receiving = false;
  receiving6 = false;
  send_retry_armed = false;
  send_retry6_armed = false;
  tick = none;
  current_connect_ep = none;
  sessions = [];
  told = [];
}

unfoldable pub client_tell : Told → QuicClientEngine → QuicClientEngine
client_tell t e = record e { told = e.told ++ t ∷ [] }

unfoldable pub client_recv : Family → QuicClientEngine → QuicClientEngine
client_recv v4 e = record e { receiving = true }
client_recv v6 e = record e { receiving6 = true }

unfoldable pub client_schedule_tick : ℕ → ℤ → QuicClientEngine → QuicClientEngine
client_schedule_tick next diff e = record e { tick = some (tick_delay next diff) }

unfoldable pub client_start : ℕ → ℤ → QuicClientEngine → QuicClientEngine
unfolding client_recv client_schedule_tick
client_start next diff e = client_schedule_tick next diff (client_recv v4 e)

unfoldable pub client_on_tick : Option ErrorCode → ℕ → ℤ → QuicClientEngine → QuicClientEngine
unfolding client_tell client_schedule_tick
client_on_tick (some ec) next diff e = e
client_on_tick none next diff e = client_schedule_tick next diff (client_tell process_conns e)

-- `binds` where the socket opens and binds.
unfoldable pub ensure_v6_socket : Bool → QuicClientEngine → QuicClientEngine × Bool
unfolding client_recv
ensure_v6_socket binds e =
    if e.open6
    then (e, true)
    else if binds
    then (client_recv v6 (record e { open6 = true }), true)
    else (record e { open6 = false }, false)

unfoldable pub client_on_new_conn : ℕ → QuicClientEngine → QuicClientEngine
client_on_new_conn c e = record e {
  sessions = e.sessions ++ (c, e.current_connect_ep) ∷ [];
  current_connect_ep = none;
}

-- From lsquic_engine_connect on.
unfoldable pub connect_engine :
    BackendEndpoint → Option ℕ → ℕ → ℤ → QuicClientEngine → QuicClientEngine × Bool
unfolding client_on_new_conn client_schedule_tick client_tell
connect_engine ep none next diff e = (record e { current_connect_ep = none }, false)
connect_engine ep (some c) next diff e = (
  client_schedule_tick next diff (
      client_tell process_conns (client_on_new_conn c (record e { current_connect_ep = some ep }))),
  true,
)

-- From the choice of the socket on.
unfoldable pub connect_from :
    BackendEndpoint
    → Option Family
    → Bool
    → Option ℕ
    → ℕ
    → ℤ
    → QuicClientEngine
    → QuicClientEngine × Bool
unfolding ensure_v6_socket connect_engine
connect_from ep none binds conn next diff e = (e, false)
connect_from ep (some v4) binds conn next diff e = connect_engine ep conn next diff e
connect_from ep (some v6) binds conn next diff e =
    let p = ensure_v6_socket binds e in
    if p.1 then connect_engine ep conn next diff p.0 else (p.0, false)

-- `peer` is the family of the first address, if the name resolves.
unfoldable pub connect :
    BackendEndpoint
    → Option Family
    → Bool
    → Option ℕ
    → ℕ
    → ℤ
    → QuicClientEngine
    → QuicClientEngine × Bool
unfolding client_start connect_from
connect ep peer binds conn next diff e =
    if not e.engine
    then (e, false)
    else (let s = if e.started then e else record (client_start next diff e) { started = true } in
        connect_from ep peer binds conn next diff s)

abbrev pub client_open : Family → QuicClientEngine → Bool
client_open v4 e = true
client_open v6 e = e.open6

abbrev pub is_aborted : ErrorCode → Bool
is_aborted operation_aborted = true
is_aborted _ = false

-- The callback of a receive, which is armed no more.
unfoldable pub client_received : Family → QuicClientEngine → QuicClientEngine
client_received v4 e = record e { receiving = false }
client_received v6 e = record e { receiving6 = false }

unfoldable pub client_on_packet :
    Option ErrorCode → Bytes → Family → ℕ → ℤ → QuicClientEngine → QuicClientEngine
unfolding client_tell client_schedule_tick client_recv
client_on_packet none buf f next diff e =
    client_recv f
      (client_schedule_tick next diff (client_tell process_conns (client_tell (packet_in buf) e)))
client_on_packet (some ec) buf f next diff e =
    if is_aborted ec then e else if client_open f e then client_recv f e else e

unfoldable pub client_arm_watch : Family → QuicClientEngine → QuicClientEngine
client_arm_watch v4 e = if e.send_retry_armed then e else record e { send_retry_armed = true }
client_arm_watch v6 e =
    if e.send_retry6_armed || not e.open6 then e else record e { send_retry6_armed = true }

unfoldable pub client_arm_retry : QuicClientEngine → QuicClientEngine
unfolding client_arm_watch
client_arm_retry e =
    let e' = client_arm_watch v4 e in if e'.open6 then client_arm_watch v6 e' else e'

abbrev pub client_disarm : Family → QuicClientEngine → QuicClientEngine
client_disarm v4 e = record e { send_retry_armed = false }
client_disarm v6 e = record e { send_retry6_armed = false }

-- The callback of arm_write_watch; `ok` without an error, `unsent` where lsquic still has packets.
unfoldable pub client_on_writable : Family → Bool → Bool → QuicClientEngine → QuicClientEngine
unfolding client_tell client_arm_retry
client_on_writable f ok unsent e =
    let d = client_disarm f e in
    if not ok
    then d
    else if not d.engine
    then d
    else if unsent
    then client_arm_retry (client_tell send_unsent d)
    else client_tell send_unsent d

unfoldable pub client_packets_out : List OutSpec → QuicClientEngine → ℕ × QuicClientEngine
unfolding send_specs client_arm_retry
client_packets_out specs e =
    let b = send_specs true e.open6 specs in (b.sent, if b.blocked then client_arm_retry e else e)
