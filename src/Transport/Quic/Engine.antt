-- ===== src/Transport/Quic/Engine.antt =====
-- QuicServerEngine of src/transport/quic_transport.h and quic_transport.cpp, and send_specs and cid_key of
-- src/transport/quic_demux.cpp. A connection of lsquic is a number, and stands for its session too;
-- `told` lists what lsquic is told, in order. The random bytes and the kernel's answers are arguments.
pub mod Sends
pub mod Routes
pub mod Shutdown
use reverse_proxy_server.Base.{
  ℕ, zero, suc, ◌+◌, ◌%◌, List, [], ◌∷◌, ◌++◌, map, Option, none, some, Bool, true, false,
  if◌then◌else◌, ltb, ◌==◌,
}
use reverse_proxy_server.Text.{Bytes}
use reverse_proxy_server.Http.Message.{ℤ, pos, negsuc}
use reverse_proxy_server.Http.Stream.{ErrorCode}
use reverse_proxy_server.Transport.Demux.{
  Family, v4, v6, Demux, register_cid, remove_cid, arm_send_retry,
}

pub data Told : Type 0 where
  packet_in : Bytes → Told
  process_conns : Told
  send_unsent : Told
  going_away : ℕ → Told
  conn_close : ℕ → Told

pub record QuicServerEngine : Type 0 where
  -- `worker_idx_`, none for -1.
  pub worker_idx : Option ℕ
  pub live_sessions : List ℕ
  -- The milliseconds that the tick timer is set to, if it is.
  pub tick : Option ℕ
  -- The sessions given to `new_session_cb_`.
  pub delivered : List ℕ
  pub told : List Told

abbrev pub new_engine : QuicServerEngine
new_engine = record {
  worker_idx = none;
  live_sessions = [];
  tick = none;
  delivered = [];
  told = [];
}

unfoldable pub tell : Told → QuicServerEngine → QuicServerEngine
tell t e = record e { told = e.told ++ t ∷ [] }

-- The milliseconds of schedule_tick, for the result and the `diff` of lsquic_engine_earliest_adv_tick.
unfoldable pub tick_delay : ℕ → ℤ → ℕ
tick_delay next (negsuc n) = 0
tick_delay next (pos diff) = if next == 0 then 500 else if ltb 500 diff then 500 else diff

unfoldable pub schedule_tick : ℕ → ℤ → QuicServerEngine → QuicServerEngine
unfolding tick_delay
schedule_tick next diff e = record e { tick = some (tick_delay next diff) }

unfoldable pub on_tick : Option ErrorCode → ℕ → ℤ → QuicServerEngine → QuicServerEngine
unfolding tell schedule_tick
on_tick (some ec) next diff e = e
on_tick none next diff e = schedule_tick next diff (tell process_conns e)

unfoldable pub deliver_packet : Bytes → ℕ → ℤ → QuicServerEngine → QuicServerEngine
unfolding tell schedule_tick
deliver_packet buf next diff e =
    schedule_tick next diff (tell process_conns (tell (packet_in buf) e))

unfoldable pub flush_unsent_packets : QuicServerEngine → QuicServerEngine
unfolding tell
flush_unsent_packets e = tell send_unsent e

-- ea_generate_scid: an id of as many bytes as `rng` has, which are random.
unfoldable pub generate_scid : Option ℕ → Bytes → Bytes
generate_scid idx [] = []
generate_scid none (c ∷ rng) = c ∷ rng
generate_scid (some idx) (c ∷ rng) = idx % 256 ∷ rng

-- std::set's `insert` and `erase`.
unfoldable pub insert_session : ℕ → List ℕ → List ℕ
insert_session c [] = c ∷ []
insert_session c (x ∷ xs) = if x == c then x ∷ xs else x ∷ insert_session c xs

unfoldable pub erase_session : ℕ → List ℕ → List ℕ
erase_session c [] = []
erase_session c (x ∷ xs) = if x == c then erase_session c xs else x ∷ erase_session c xs

unfoldable pub on_new_conn : ℕ → QuicServerEngine → QuicServerEngine
unfolding insert_session
on_new_conn c e = record e {
  live_sessions = insert_session c e.live_sessions;
  delivered = e.delivered ++ c ∷ [];
}

-- The closed callback that on_new_conn_cb gives the session.
unfoldable pub on_conn_closed : ℕ → QuicServerEngine → QuicServerEngine
unfolding erase_session
on_conn_closed c e = record e { live_sessions = erase_session c e.live_sessions }

-- The sessions that still lock; `alive` says which.
unfoldable pub locked : (ℕ → Bool) → List ℕ → List ℕ
locked alive [] = []
locked alive (c ∷ cs) = if alive c then c ∷ locked alive cs else locked alive cs

unfoldable pub tell_all : List Told → QuicServerEngine → QuicServerEngine
tell_all ts e = record e { told = e.told ++ ts }

unfoldable pub graceful_shutdown : (ℕ → Bool) → QuicServerEngine → QuicServerEngine
unfolding locked tell_all tell
graceful_shutdown alive e =
    let goaway = locked alive e.live_sessions in
    tell process_conns (tell_all (map going_away goaway) (record e { live_sessions = goaway }))

unfoldable pub force_close_all : (ℕ → Bool) → QuicServerEngine → QuicServerEngine
unfolding locked tell_all tell
force_close_all alive e =
    let to_close = locked alive e.live_sessions in
    tell process_conns (tell_all (map conn_close to_close) (record e { live_sessions = to_close }))

unfoldable pub on_new_scids : ℕ → List Bytes → Demux → Demux
on_new_scids idx [] d = d
on_new_scids idx (cid ∷ cids) d = on_new_scids idx cids (register_cid cid idx d)

unfoldable pub on_old_scids : List Bytes → Demux → Demux
on_old_scids [] d = d
on_old_scids (cid ∷ cids) d = on_old_scids cids (remove_cid cid d)

-- What sendmsg does with a datagram.
pub data SendAnswer : Type 0 where
  gone send_blocked send_error : SendAnswer

-- A datagram that lsquic wants sent, by the family of its destination, and what sendmsg would do.
pub record OutSpec : Type 0 where
  pub family : Family
  pub datagram : Bytes
  pub answer : SendAnswer

pub record Batch : Type 0 where
  pub sent : ℕ
  pub blocked : Bool
  -- What went out, in order.
  pub out : List Bytes

-- Whether the family's socket is there.
abbrev pub has_fd : Bool → Bool → Family → Bool
has_fd fd_v4 fd_v6 v4 = fd_v4
has_fd fd_v4 fd_v6 v6 = fd_v6

unfoldable pub send_one : SendAnswer → Bytes → Batch → Batch
send_one gone datagram b = record b { sent = suc b.sent; out = b.out ++ datagram ∷ [] }
send_one send_blocked datagram b = record b { blocked = true }
send_one send_error datagram b = b

-- One round of the loop, with a socket or without.
unfoldable pub send_if : Bool → SendAnswer → Bytes → Batch → Batch
unfolding send_one
send_if false answer datagram b = b
send_if true answer datagram b = send_one answer datagram b

unfoldable pub send_onto : Bool → Bool → List OutSpec → Batch → Batch
send_onto fd_v4 fd_v6 [] b = b
send_onto fd_v4 fd_v6 (spec ∷ specs) b =
    send_onto fd_v4 fd_v6 specs
      (send_if (has_fd fd_v4 fd_v6 spec.family) spec.answer spec.datagram b)

unfoldable pub send_specs : Bool → Bool → List OutSpec → Batch
unfolding send_onto
send_specs fd_v4 fd_v6 specs =
    send_onto fd_v4 fd_v6 specs (record { sent = 0; blocked = false; out = [] })

-- The number for lsquic, with the demultiplexer that waits for a writeable socket if one would block.
unfoldable pub on_packets_out : Bool → List OutSpec → Demux → ℕ × Demux
unfolding send_specs
on_packets_out fd_v4 specs d =
    let b = send_specs fd_v4 d.open6 specs in (b.sent, if b.blocked then arm_send_retry d else d)
