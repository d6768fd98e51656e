-- ===== src/Tests/Proxy.antt =====
-- The router, the pool and the relay at concrete inputs.
use reverse_proxy_server.Base.{◌≡◌, refl, List, [], ◌∷◌, ◌++◌, none, some, Bool, true, false, arith}
use reverse_proxy_server.Text.{codes, to_string, str_eq, lower}
use reverse_proxy_server.Http.Message.{pos}
use reverse_proxy_server.Proxy.Config.{BackendEndpoint, tcp, ProxyStats}
use reverse_proxy_server.Proxy.Router.{Rule, route, host_of, find_rule}
use reverse_proxy_server.Proxy.Router.Choice.{Chooses, route-Chooses}
use reverse_proxy_server.Proxy.Pool.{empty_pool}
use reverse_proxy_server.Proxy.Pool.Bounds.{
  Call, adds, connects, releases, run, IsBounded, run-IsBounded,
}
use reverse_proxy_server.Proxy.Relay.State.{Relay, request_read, backend_connect, new_relay}
use reverse_proxy_server.Proxy.Relay.Target.{connect_target, forward_target}
use reverse_proxy_server.Proxy.Relay.Target.RoundTrip.{targets-authority}
use reverse_proxy_server.Proxy.Relay.Machine.{start, Reach, here, next, completes}
use reverse_proxy_server.Proxy.Relay.Handlers.{
  handle, request_got, connected, on_request, use_backend, handle_routed, note_request,
}
use reverse_proxy_server.Proxy.Relay.Actions.{request_phase, kick_idle_timer, send_backend_request}
use reverse_proxy_server.Http.Headers.{get}
use reverse_proxy_server.Proxy.Relay.Invariant.{Inv}
use reverse_proxy_server.Proxy.Relay.Invariant.Steps.{Reach-Inv}
use reverse_proxy_server.Proxy.Relay.Timeout.{timeout-crashes}
use reverse_proxy_server.Proxy.Pool.{add_backend, release, async_connect}
use reverse_proxy_server.Proxy.Pool.Ownership.{
  Holding, taking, Uses, no_use, one_more, opens, held, count, Uses-exclusive,
}
use reverse_proxy_server.Proxy.Pool.Ownership as Ownership
use reverse_proxy_server.Proxy.Pool.Quic.{Conns, put_at, pooled_at, quic_key, quic_connect}
use reverse_proxy_server.Proxy.Pool.Quic.Retry.{Serves, first_left, quic_connect-Serves}
use reverse_proxy_server.Base.{◌+◌, ◌==◌, ℕ, Option, ◌≤◌}
use reverse_proxy_server.Tests.{post}

abbrev rules : List Rule
rules =
    record { host_match = codes "*"; backend_id = codes "default" }
    ∷ record { host_match = codes "example.com"; backend_id = codes "shop" }
    ∷ []

route-Chooses_example : Chooses rules (host_of post) (route rules post)
route-Chooses_example = route-Chooses rules post

abbrev shop : BackendEndpoint
shop = record {
  backend_id = codes "shop";
  host = codes "10.0.0.1";
  port = 8080;
  weight = pos 1;
  protocol = tcp;
}

abbrev calls : List Call
calls = adds shop ∷ releases shop 4 ∷ releases shop 5 ∷ connects (λ be. true) (codes "shop") ∷ []

run-IsBounded_example : IsBounded (run empty_pool calls).endpoints
run-IsBounded_example = run-IsBounded calls

targets-authority_example :
    (connect_target (codes "[::1]" ++ b':' ∷ to_string 443) ≡ some (codes "[::1]", 443))
    × (forward_target (codes "[::1]" ++ b':' ∷ to_string 443) ≡ some (codes "[::1]", 443))
targets-authority_example = targets-authority (codes "[::1]") 443 (cc) (omega arith) (omega arith)

abbrev pub no_stats : ProxyStats
no_stats = record {
  tcp_conns = 0;
  quic_conns = 0;
  requests = 0;
  resp_ok = 0;
  resp_err = 0;
  backend_connects = 0;
  lat_us_total = 0;
  lat_count = 0;
}

-- A request is routed, and a connection of the pool is found for it.
abbrev routed : Bool → Relay
routed idle_enabled =
    handle request_read (request_got post none true)
      (record (start true idle_enabled rules no_stats) { waits = [] })

abbrev forwarded : Bool → Relay
forwarded idle_enabled =
    handle (backend_connect post none) (connected 7 shop true)
      (record (routed idle_enabled) { waits = [] })

forwarded_reached : Reach (start true false rules no_stats) (forwarded false)
unfolding handle start request_phase kick_idle_timer new_relay on_request str_eq handle_routed route
    find_rule note_request get lower
forwarded_reached =
    next (next here (completes [] request_read [] refl (request_got post none true)))
      (completes [] (backend_connect post none) [] refl (connected 7 shop true))

Reach-Inv_example : Inv (forwarded false)
Reach-Inv_example = Reach-Inv true rules no_stats (forwarded false) forwarded_reached

timeout-crashes_example : (s : Relay) × Reach (forwarded true) s × (s.crashed ≡ true)
unfolding handle use_backend send_backend_request start request_phase kick_idle_timer new_relay
    on_request str_eq handle_routed route find_rule note_request get lower
timeout-crashes_example = timeout-crashes true (forwarded true) refl refl refl

-- A connection is taken, kept by the pool, and taken again.
abbrev stocked : Holding
stocked = record { pool = add_backend empty_pool shop; out = [] }

abbrev kept : Holding
kept = record { pool = release stocked.pool shop 7; out = [] }

abbrev lent : Holding
lent = taking [] (async_connect (λ be. true) kept.pool (codes "shop"))

lent_used : Uses (record { pool = empty_pool; out = [] }) lent
unfolding add_backend
lent_used =
    one_more
      (one_more (one_more (one_more no_use (Ownership.adds shop)) (opens 7 refl))
        (Ownership.releases [] 7 [] shop refl))
      (Ownership.connects (λ be. true) (codes "shop"))

Uses-exclusive_example : held 7 lent.pool.endpoints + count 7 lent.out ≤ 1
Uses-exclusive_example = Uses-exclusive lent 7 lent_used

-- The first of two pooled sessions is dead.
abbrev conns : Conns
conns = put_at (quic_key shop) (4 ∷ 5 ∷ []) []

abbrev alive : ℕ → Option Bool
alive s = some (s == 5)

abbrev no_connect : BackendEndpoint → Option ℕ
no_connect ep = none

quic_connect-Serves_example :
    Serves alive no_connect true shop
      (first_left alive (pooled_at (quic_key shop) conns))
      (quic_connect alive no_connect 3 true conns shop)
unfolding pooled_at put_at quic_key str_eq to_string
quic_connect-Serves_example = quic_connect-Serves alive no_connect true shop 3 conns (omega arith)
