-- ===== src/Tests/Server.antt =====
-- A configuration, a worker and a server at concrete inputs.
use reverse_proxy_server.Base.{
  ◌≡◌, refl, List, [], ◌∷◌, none, some, true, false, All, if◌then◌else◌, value_or, is_some, length,
}
use reverse_proxy_server.Text.{codes, str_eq}
use reverse_proxy_server.Http.Message.{pos}
use reverse_proxy_server.Http.Stream.{eof}
use reverse_proxy_server.Proxy.Load.{
  TomlTable, TomlDocument, array, ProxyConfig, default_config, read_listen, read_backend,
  read_route, read_all, read_array, load_config, to_port, protocol_of,
}
use reverse_proxy_server.Proxy.Load.Loading.{is_loadable, entries, load_config-loads}
use reverse_proxy_server.Proxy.Core.{
  new_core, has_timeout, core_graceful_shutdown, on_new_tcp_socket,
}
use reverse_proxy_server.Proxy.Core.Draining.{here, next, socket, IsClosing, Told, Reach-closes}
use reverse_proxy_server.Proxy.Core.Configured.{Each, RuleIs, EndpointIs, new_core-configured}
use reverse_proxy_server.Proxy.Relay.Invariant.{Inv}
use reverse_proxy_server.Proxy.Server.{
  Server, new_server, start, stop, accept_loop, stats_accept_loop, on_accept, Event, starts,
  accepts, stops, runs_posted, grace_ends, run, step,
}
use reverse_proxy_server.Proxy.Server.Phases.{stage, stop-stops}
use reverse_proxy_server.Proxy.Server.Tasks.{hand_offs, deal, closings, shutdown_tasks}
use reverse_proxy_server.Proxy.Server.Accepted.{accepted}
use reverse_proxy_server.Proxy.Server.Rounds.{run-deals}
use reverse_proxy_server.Tests.Proxy.{no_stats}

abbrev backend_table : TomlTable
backend_table = record {
  string_at = λ k.
      if str_eq k (codes "id")
      then some (codes "a")
      else if str_eq k (codes "host")
      then some (codes "h")
      else none;
  int_at = λ k. if str_eq k (codes "port") then some (pos 80) else none;
  bool_at = λ k. none;
}

abbrev route_table : TomlTable
route_table = record {
  string_at = λ k.
      if str_eq k (codes "host")
      then some (codes "*")
      else if str_eq k (codes "backend")
      then some (codes "a")
      else none;
  int_at = λ k. none;
  bool_at = λ k. none;
}

abbrev file : TomlDocument
file = record {
  listen_table = none;
  backends_value = some (array (backend_table ∷ []));
  routes_value = some (array (route_table ∷ []));
}

load_config-loads_example : is_some (load_config (some file)) ≡ is_loadable (some file)
load_config-loads_example = load_config-loads (some file)

abbrev loaded : ProxyConfig
loaded = value_or (load_config (some file)) default_config

file-loaded : load_config (some file) ≡ some loaded
unfolding load_config read_array read_all read_backend read_route read_listen str_eq to_port
    protocol_of
file-loaded = refl

new_core-configured_example :
    Each RuleIs (entries file.routes_value) (new_core loaded no_stats).rules
    × Each EndpointIs (entries file.backends_value) (new_core loaded no_stats).pool.endpoints
new_core-configured_example = new_core-configured file loaded no_stats file-loaded

abbrev untimed : ProxyConfig
untimed = record default_config { idle_timeout_secs = pos 0; num_threads = pos 2 }

untimed-timeout : has_timeout untimed.idle_timeout_secs ≡ false
unfolding has_timeout
untimed-timeout = refl

Reach-closes_example :
    All Inv (on_new_tcp_socket (new_core untimed no_stats)).live_relays
    × Told
        (λ r. true)
        (on_new_tcp_socket (new_core untimed no_stats)).live_relays
        (core_graceful_shutdown
          (λ r. true)
          (λ c. true)
          (on_new_tcp_socket (new_core untimed no_stats))).live_relays
    × All Inv
        (core_graceful_shutdown
          (λ r. true)
          (λ c. true)
          (on_new_tcp_socket (new_core untimed no_stats))).live_relays
    × All IsClosing
        (core_graceful_shutdown
          (λ r. true)
          (λ c. true)
          (on_new_tcp_socket (new_core untimed no_stats))).live_relays
Reach-closes_example =
    Reach-closes untimed no_stats (on_new_tcp_socket (new_core untimed no_stats)) (λ r. true)
      (λ c. true) untimed-timeout (next here socket)

abbrev morning : List Event
morning = starts true true no_stats ∷ accepts none 11 ∷ accepts (some eof) 0 ∷ accepts none 12 ∷ []

abbrev noon : Server
noon = run morning (new_server untimed)

noon-started : noon.started ≡ true
unfolding start accept_loop stats_accept_loop on_accept
noon-started = refl

stop-stops_example :
    let a = run (stops ∷ []) (stop noon) in
    let b = run (accepts none 13 ∷ []) (step runs_posted a) in
    let c = run [] (step grace_ends b) in (step grace_ends c).stopped ≡ true
stop-stops_example = stop-stops untimed morning (stops ∷ []) (accepts none 13 ∷ []) [] noon-started

run-deals_example :
    (hand_offs noon.posted ≡ deal (length noon.cores) 0 (accepted morning (new_server untimed)))
    × (closings noon.posted ≡ shutdown_tasks (stage noon) (length noon.cores))
run-deals_example = run-deals untimed morning
