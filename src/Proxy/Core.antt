-- ===== src/Proxy/Core.antt =====
-- ProxyCore of src/proxy/proxy_core.h and proxy_core.cpp, one worker. `live_relays` holds the relays
-- themselves; which of them still lock, and which sessions do, are arguments. A relay counts in a copy of
-- the statistics. What is posted to the worker's io_context runs at once here.
pub mod Draining
pub mod Configured
use reverse_proxy_server.Base.{
  ℕ, ◌+◌, List, [], ◌∷◌, ◌++◌, map, Option, none, some, Bool, true, false, if◌then◌else◌, ltb,
}
use reverse_proxy_server.Http.Message.{ℤ, pos, negsuc}
use reverse_proxy_server.Proxy.Config.{
  BackendEndpoint, TransportProtocol, tcp, quic, is_quic, ProxyStats, incr,
}
use reverse_proxy_server.Proxy.Load.{ProxyConfig, RouteRule}
use reverse_proxy_server.Proxy.Router.{Rule, add_rule}
use reverse_proxy_server.Proxy.Pool.{Pool, empty_pool, add_backend}
use reverse_proxy_server.Proxy.Relay.State.{Relay}
use reverse_proxy_server.Proxy.Relay.Actions.{graceful_close}
use reverse_proxy_server.Proxy.Relay.Machine
use reverse_proxy_server.Transport.Demux.{Demux, add_worker}
use reverse_proxy_server.Transport.Quic.Engine.{
  QuicServerEngine, new_engine, schedule_tick, graceful_shutdown, force_close_all,
}

pub record ProxyCore : Type 0 where
  pub rules : List Rule
  pub pool : Pool
  pub idle_enabled : Bool
  pub stats : ProxyStats
  pub live_relays : List Relay
  -- `quic_engine_`.
  pub engine : Option QuicServerEngine

unfoldable pub add_routes : List Rule → List RouteRule → List Rule
unfolding add_rule
add_routes rules [] = rules
add_routes rules (r ∷ rs) = add_routes (add_rule rules r.host_match r.backend_id) rs

unfoldable pub add_backends : Pool → List BackendEndpoint → Pool
unfolding add_backend
add_backends p [] = p
add_backends p (be ∷ bes) = add_backends (add_backend p be) bes

-- Whether the idle timeout is on: `idle_timeout_.count() > 0`.
unfoldable pub has_timeout : ℤ → Bool
has_timeout (negsuc n) = false
has_timeout (pos n) = ltb 0 n

unfoldable pub new_core : ProxyConfig → ProxyStats → ProxyCore
unfolding add_routes add_backends has_timeout
new_core cfg stats = record {
  rules = add_routes [] cfg.routes;
  pool = add_backends empty_pool cfg.backends;
  idle_enabled = has_timeout cfg.idle_timeout_secs;
  stats = stats;
  live_relays = [];
  engine = none;
}

-- With the codec: HTTP/1.1 or not.
unfoldable pub on_stream : Bool → ProxyCore → ProxyCore
on_stream h1 c = record c {
  live_relays = c.live_relays ++ Machine.start h1 c.idle_enabled c.rules c.stats ∷ [];
}

-- The codec that on_session picks, as the argument of on_stream.
unfoldable pub codec_of : TransportProtocol → Bool
codec_of protocol = if is_quic protocol then false else true

-- A TCP session has its stream at once.
unfoldable pub on_new_tcp_socket : ProxyCore → ProxyCore
unfolding on_stream codec_of
on_new_tcp_socket c =
    on_stream (codec_of tcp)
      (record c { stats = record c.stats { tcp_conns = incr c.stats.tcp_conns } })

-- The new-session callback of start_quic; streams come later.
unfoldable pub on_quic_session : ProxyCore → ProxyCore
on_quic_session c = record c { stats = record c.stats { quic_conns = incr c.stats.quic_conns } }

unfoldable pub start_quic : ℕ → ℤ → ProxyCore → Demux → ProxyCore × Demux
unfolding schedule_tick add_worker
start_quic next diff c demux =
    let p = add_worker demux in
    let e : QuicServerEngine = record new_engine { worker_idx = some p.1 } in
    (record c { engine = some (schedule_tick next diff e) }, p.0)

-- The relays that still lock.
unfoldable pub lock_relays : (Relay → Bool) → List Relay → List Relay
lock_relays alive [] = []
lock_relays alive (r ∷ rs) = if alive r then r ∷ lock_relays alive rs else lock_relays alive rs

unfoldable pub core_graceful_shutdown : (Relay → Bool) → (ℕ → Bool) → ProxyCore → ProxyCore
unfolding lock_relays graceful_shutdown
core_graceful_shutdown alive alive_sessions c = record c {
  live_relays = map graceful_close (lock_relays alive c.live_relays);
  engine = elim c.engine [ none ↦ none | some e ↦ some (graceful_shutdown alive_sessions e) ];
}

unfoldable pub force_close_quic : (ℕ → Bool) → ProxyCore → ProxyCore
unfolding force_close_all
force_close_quic alive_sessions c = record c {
  engine = elim c.engine [ none ↦ none | some e ↦ some (force_close_all alive_sessions e) ];
}
