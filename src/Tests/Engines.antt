-- ===== src/Tests/Engines.antt =====
-- QUIC sessions, header sets and engines at concrete inputs.
use reverse_proxy_server.Base.{
  ℕ, ◌+◌, ◌≤◌, ◌<◌, ◌≡◌, refl, List, [], ◌∷◌, ◌++◌, map, none, some, true, false, inl, inr, All,
  arith, length, ◌&&◌, is_some,
}
use reverse_proxy_server.Text.{Bytes, codes, str_eq}
use reverse_proxy_server.Http.Message.{pos}
use reverse_proxy_server.Http.Stream.{eof}
use reverse_proxy_server.Proxy.Config.{BackendEndpoint, direct_endpoint}
use reverse_proxy_server.Transport.Demux.{Demux, v4, v6, new_demux, add_worker, find_cid, route_cid}
use reverse_proxy_server.Transport.Quic.Session.{
  QuicSession, new_session, stream_given, run, opens, closes_it, ends, close, conn_closed_cb,
  on_closed, tell_closed, async_open_stream, set_new_stream_cb,
}
use reverse_proxy_server.Transport.Quic.Session.Closing.{run-closes}
use reverse_proxy_server.Transport.Quic.Session.Opening.{late, late-streams}
use reverse_proxy_server.Transport.Quic.HeaderSet.Windows.{Field}
use reverse_proxy_server.Transport.Quic.Engine.{
  generate_scid, OutSpec, gone, send_blocked, send_specs,
}
use reverse_proxy_server.Transport.Quic.Engine.Routes.{
  CidEvent, news, olds, IsOwn, run_cids, generate_scid-route,
}
use reverse_proxy_server.Transport.Quic.Engine.Shutdown.{ConnEvent, comes, goes}
use reverse_proxy_server.Transport.Quic.Engine.Sends.{gone_out, any_blocks, send_specs-reports}
use reverse_proxy_server.Transport.Quic.Client.{new_client, connect}
use reverse_proxy_server.Transport.Quic.Client.Listening.{
  Event, connects, packets, reachable, gained, IsListening, connect-gains,
}
use reverse_proxy_server.Transport.Quic.Client.Listening

-- The session is asked to close twice, and lsquic ends the connection.
abbrev over : QuicSession
over = run (opens 1 ∷ closes_it ∷ closes_it ∷ ends ∷ []) new_session

over-gone : over.conn ≡ false
unfolding async_open_stream set_new_stream_cb close conn_closed_cb on_closed tell_closed
over-gone = refl

run-closes_example :
    (over.closes ≤ 1)
    × (over.closed ≡ true)
    × (over.self ≡ false)
    × ((run (closes_it ∷ opens 2 ∷ []) over).closes ≡ over.closes)
    × ((run (closes_it ∷ opens 2 ∷ []) over).made ≡ over.made)
run-closes_example =
    run-closes (opens 1 ∷ closes_it ∷ closes_it ∷ ends ∷ []) (closes_it ∷ opens 2 ∷ []) over-gone

late-streams_example :
    ((run (late (1 ∷ []) 2 (some 0 ∷ some 4 ∷ [])) new_session).called
      ≡ new_session.called ++ map (stream_given 2) (some 0 ∷ some 4 ∷ []))
    × ((run (late (1 ∷ []) 2 (some 0 ∷ some 4 ∷ [])) new_session).made
        ≡ new_session.made + length {A = ℕ} (1 ∷ []) + 1)
late-streams_example = late-streams (1 ∷ []) 2 (some 0 ∷ some 4 ∷ []) new_session refl

abbrev block : List Field
block =
    record { space = 128; size = 10; name = codes ":method"; value = codes "GET" }
    ∷ record { space = 64; size = 6; name = codes ":path"; value = codes "/" }
    ∷ []

abbrev pair_demux : Demux
pair_demux = (add_worker (add_worker (new_demux true)).0).0

pair_demux-workers : pair_demux.workers ≡ 2
unfolding add_worker
pair_demux-workers = refl

abbrev scid : Bytes
scid = generate_scid (some 1) (7 ∷ 9 ∷ 8 ∷ [])

abbrev cid_events : List CidEvent
cid_events = news 1 (scid ∷ []) ∷ news 0 (codes "x" ∷ []) ∷ olds (scid ∷ []) ∷ []

cid_events-IsOwn : All (IsOwn 1 scid) cid_events
unfolding generate_scid str_eq
cid_events-IsOwn = (inl refl, (inr refl, (tt, tt)))

scid-fresh : find_cid scid pair_demux.cids ≡ none
unfolding find_cid add_worker
scid-fresh = refl

one_of_two : (1 < pair_demux.workers) × (pair_demux.workers ≤ 256)
one_of_two = omega (arith, pair_demux-workers)

generate_scid-route_example : route_cid (run_cids cid_events pair_demux) scid ≡ 1
generate_scid-route_example =
    generate_scid-route pair_demux 1 7 (9 ∷ 8 ∷ []) cid_events one_of_two.0 one_of_two.1 scid-fresh
      cid_events-IsOwn

abbrev conn_events : List ConnEvent
conn_events = comes 3 ∷ comes 4 ∷ goes 3 ∷ []

-- The socket's buffer is full behind the first datagram.
abbrev batch : List OutSpec
batch =
    record { family = v4; datagram = codes "a"; answer = gone }
    ∷ record { family = v4; datagram = codes "b"; answer = send_blocked }
    ∷ record { family = v6; datagram = codes "c"; answer = gone }
    ∷ []

send_specs-reports_example :
    ((send_specs true false batch).out ≡ gone_out true false batch)
    × ((send_specs true false batch).sent ≡ length (gone_out true false batch))
    × ((send_specs true false batch).blocked ≡ any_blocks true false batch)
send_specs-reports_example = send_specs-reports true false batch

abbrev upstream : BackendEndpoint
upstream = direct_endpoint (codes "h") 443

abbrev client_events : List Event
client_events =
    connects upstream (some v4) true (some 5) 0 (pos 0) ∷ packets (some eof) [] v4 0 (pos 0) ∷ []

connect-gains_example :
    let e = Listening.run client_events new_client in
    let p = connect upstream (some v6) true (some 6) 0 (pos 0) e in
    (p.1 ≡ (reachable (some v6) true e.open6 && is_some {A = ℕ} (some 6)))
    × (p.0.sessions ≡ e.sessions ++ gained (reachable (some v6) true e.open6) (some 6) upstream)
    × (p.0.receiving ≡ true)
    × IsListening (Listening.run client_events p.0)
connect-gains_example =
    connect-gains client_events client_events upstream (some v6) true (some 6) 0 (pos 0)
      (tt, (refl, tt)) (tt, (refl, tt))
