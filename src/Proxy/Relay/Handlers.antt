-- ===== src/Proxy/Relay/Handlers.antt =====
-- The callbacks that RelaySession hands to codecs, pool and streams, in
-- src/proxy/relay_session.cpp. `handle` calls the one that a completed operation has.
use reverse_proxy_server.Base.{
  ℕ, Option, none, some, Bool, true, false, not, ◌&&◌, if◌then◌else◌, is_empty, is_some, leb,
}
use reverse_proxy_server.Text.{Bytes, codes, str_eq}
use reverse_proxy_server.Http.Headers.{set}
use reverse_proxy_server.Http.Message.{
  HttpRequestHead, HttpResponseHead, bad_request, bad_gateway, service_unavailable, ℤ, pos, negsuc,
}
use reverse_proxy_server.Proxy.Config.{
  BackendEndpoint, incr, is_quic, direct_endpoint, record_latency,
}
use reverse_proxy_server.Proxy.Router.{route}
use reverse_proxy_server.Proxy.Relay.State.{
  forward, Body, Side, from_client, from_backend, Wait, request_read, backend_connect,
  tunnel_connect, retry_connect, request_write, response_read, upgrade_write, response_write,
  error_write, tunnel_write, pump_read, pump_write, drain_read, Action, write_client, connect_group,
  connect_fresh, send_backend, send_client, Relay, wait_for, act,
}
use reverse_proxy_server.Proxy.Relay.Target.{connect_target, forward_target, is_upgrade_request}
use reverse_proxy_server.Proxy.Relay.Actions.{
  goto_phase, kick_idle_timer, close_backend, teardown, drain_client, after_client_response,
  write_error, finish_backend, send_backend_request, reconnect_backend_fresh, response_phase,
  bridge_mode, start_tunnel,
}

pub data RequestResult : Type 0 where
  request_failed : RequestResult
  request_got : HttpRequestHead → Option Body → Bool → RequestResult

pub data ConnectResult : Type 0 where
  connect_failed : ConnectResult
  -- The stream, its endpoint, and whether it came from the pool.
  connected : ℕ → BackendEndpoint → Bool → ConnectResult

-- The last part of a response is its latency in microseconds.
pub data ResponseResult : Type 0 where
  response_failed : ResponseResult
  response_got : HttpResponseHead → Option Body → Bool → ℕ → ResponseResult

pub data WriteResult : Type 0 where
  write_failed written : WriteResult

-- A read that failed or met the end, or bytes (none of them is the end too).
pub data ReadResult : Type 0 where
  ended : ReadResult
  read : Bytes → ReadResult

unfoldable pub connect_to : Relay → Option (Bytes × ℕ) → Relay
connect_to r none = write_error bad_request (codes "bad CONNECT target\n") r
connect_to r (some (host, port)) =
    wait_for tunnel_connect (act (connect_fresh (direct_endpoint host port)) r)

unfoldable pub handle_connect : HttpRequestHead → Relay → Relay
handle_connect head r = connect_to r (connect_target head.path)

-- The origin is the one of the URL authority.
unfoldable pub forward_to : HttpRequestHead → Option Body → Relay → Option (Bytes × ℕ) → Relay
forward_to head body r none = write_error bad_request (codes "bad target\n") r
forward_to head body r (some (host, port)) =
    let head' = record head { headers = set head.headers (codes "host") head.authority } in
    wait_for (backend_connect head' body) (act (connect_fresh (direct_endpoint host port)) r)

unfoldable pub handle_forward : HttpRequestHead → Option Body → Relay → Relay
handle_forward head body r =
    if not (str_eq head.scheme (codes "http"))
    then write_error bad_request (codes "https absolute-form requires CONNECT\n") r
    else forward_to head body r (forward_target head.authority)

unfoldable pub handle_routed : HttpRequestHead → Option Body → Relay → Relay
handle_routed head body r =
    let backend_id = route r.rules head in
    if is_empty backend_id
    then write_error service_unavailable (codes "no route for host\n") r
    else wait_for (backend_connect head body) (act (connect_group backend_id) r)

-- The members that an arriving request sets.
unfoldable pub note_request : HttpRequestHead → Bool → Relay → Relay
note_request head keep_alive r = kick_idle_timer (record (goto_phase forward r) {
  stats = record (r.stats) { requests = incr r.stats.requests };
  client_keep_alive = keep_alive;
  request_method = head.method;
  client_version = head.version;
  request_is_upgrade = is_upgrade_request head;
})

unfoldable pub on_request : RequestResult → Relay → Relay
on_request request_failed r = teardown r
on_request (request_got head body keep_alive) r =
    let r' = note_request head keep_alive r in
    if str_eq head.method (codes "CONNECT")
    then handle_connect head r'
    else if head.absolute_target
    then handle_forward head body r'
    else handle_routed head body r'

unfoldable pub use_backend : HttpRequestHead → Option Body → ConnectResult → Relay → Relay
use_backend head body connect_failed r = write_error bad_gateway (codes "upstream unreachable\n") r
use_backend head body (connected c endpoint from_pool) r =
    let r' = kick_idle_timer (record r { backend = some c; backend_endpoint = endpoint }) in
    send_backend_request true (record r' {
      backend_h3 = is_quic endpoint.protocol;
      backend_from_pool = from_pool;
      stats =
          if from_pool
          then r.stats
          else record (r.stats) { backend_connects = incr r.stats.backend_connects };
      pending_head = some head;
      pending_body = body;
    })

unfoldable pub on_tunnel_connect : ConnectResult → Relay → Relay
on_tunnel_connect connect_failed r = write_error bad_gateway (codes "connect failed\n") r
on_tunnel_connect (connected c endpoint _) r =
    start_tunnel (record r { backend = some c; backend_endpoint = endpoint })

unfoldable pub on_retry_connect : ConnectResult → Relay → Relay
on_retry_connect connect_failed r = write_error bad_gateway (codes "upstream unreachable\n") r
on_retry_connect (connected c endpoint _) r = send_backend_request false (record r {
  backend = some c;
  backend_endpoint = endpoint;
  backend_from_pool = false;
  stats = record (r.stats) { backend_connects = incr r.stats.backend_connects };
})

unfoldable pub on_request_write : Bool → WriteResult → Relay → Relay
on_request_write retry_allowed write_failed r =
    if retry_allowed && r.backend_from_pool && not (is_some r.pending_body)
    then reconnect_backend_fresh r
    else write_error bad_gateway (codes "backend write error\n") (close_backend r)
on_request_write retry_allowed written r =
    response_phase (kick_idle_timer (record r { pending_head = none; pending_body = none }))

-- `resp.status_code >= 400`, and `== 101`.
unfoldable pub is_error_status : ℤ → Bool
is_error_status (pos n) = leb 400 n
is_error_status (negsuc n) = false

unfoldable pub is_switching : ℤ → Bool
is_switching (pos n) = leb n 101 && leb 101 n
is_switching (negsuc n) = false

-- The head with the client's version, unless that is unknown.
unfoldable pub echo_version : Bytes → HttpResponseHead → HttpResponseHead
echo_version version resp = if is_empty version then resp else record resp { version = version }

unfoldable pub note_response : HttpResponseHead → ℕ → Relay → Relay
note_response resp us r = kick_idle_timer (record r {
  stats = record_latency us (
      if is_error_status resp.status_code
      then record (r.stats) { resp_err = incr r.stats.resp_err }
      else record (r.stats) { resp_ok = incr r.stats.resp_ok });
})

unfoldable pub on_response : ResponseResult → Relay → Relay
on_response response_failed r =
    write_error bad_gateway (codes "backend response error\n") (close_backend r)
on_response (response_got resp body keep_alive us) r =
    let r' = note_response resp us r in
    let head = echo_version r.client_version resp in
    if r.request_is_upgrade && is_switching resp.status_code
    then wait_for upgrade_write (act (write_client head none) r')
    else wait_for (response_write keep_alive)
        (act (write_client head (if str_eq r.request_method (codes "HEAD") then none else body)) r')

unfoldable pub on_upgrade_write : WriteResult → Relay → Relay
on_upgrade_write write_failed r = teardown r
on_upgrade_write written r = bridge_mode (record r { backend_from_pool = false })

-- Whether the write failed makes no difference here.
unfoldable pub on_response_write : Bool → WriteResult → Relay → Relay
on_response_write keep_alive result r = after_client_response (finish_backend keep_alive r)

unfoldable pub on_tunnel_write : WriteResult → Relay → Relay
on_tunnel_write write_failed r = teardown r
on_tunnel_write written r = bridge_mode r

unfoldable pub pump_out : Side → ℕ → Bytes → Action
pump_out from_client c b = send_backend c b
pump_out from_backend c b = send_client b

unfoldable pub on_pump_read : Side → ℕ → ReadResult → Relay → Relay
on_pump_read side c ended r = if r.done then r else teardown r
on_pump_read side c (read b) r =
    if r.done
    then r
    else if is_empty b
    then teardown r
    else wait_for (pump_write side c) (act (pump_out side c b) (kick_idle_timer r))

unfoldable pub on_pump_write : Side → ℕ → WriteResult → Relay → Relay
on_pump_write side c write_failed r = if r.done then r else teardown r
on_pump_write side c written r =
    if r.done then r else wait_for (pump_read side c) (kick_idle_timer r)

unfoldable pub on_drain_read : ReadResult → Relay → Relay
on_drain_read ended r = if r.done then r else teardown r
on_drain_read (read b) r =
    if r.done then r else if is_empty b then teardown r else drain_client (kick_idle_timer r)

-- What completes an operation.
abbrev pub Answer : Wait → Type 0
Answer request_read = RequestResult
Answer (backend_connect _ _) = ConnectResult
Answer tunnel_connect = ConnectResult
Answer retry_connect = ConnectResult
Answer response_read = ResponseResult
Answer (pump_read _ _) = ReadResult
Answer drain_read = ReadResult
Answer _ = WriteResult

unfoldable pub handle : (w : Wait) → Answer w → Relay → Relay
handle request_read a r = on_request a r
handle (backend_connect head body) a r = use_backend head body a r
handle tunnel_connect a r = on_tunnel_connect a r
handle retry_connect a r = on_retry_connect a r
handle (request_write retry) a r = on_request_write retry a r
handle response_read a r = on_response a r
handle upgrade_write a r = on_upgrade_write a r
handle (response_write keep) a r = on_response_write keep a r
handle error_write a r = after_client_response r
handle tunnel_write a r = on_tunnel_write a r
handle (pump_read side c) a r = on_pump_read side c a r
handle (pump_write side c) a r = on_pump_write side c a r
handle drain_read a r = on_drain_read a r
