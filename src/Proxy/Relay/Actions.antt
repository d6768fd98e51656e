-- ===== src/Proxy/Relay/Actions.antt =====
-- The member functions of RelaySession that are called from its callbacks, in
-- src/proxy/relay_session.cpp.
use reverse_proxy_server.Base.{
  ℕ, Option, none, some, Bool, true, false, not, ◌&&◌, ◌||◌, if◌then◌else◌, length,
}
use reverse_proxy_server.Text.{Bytes, codes, to_string}
use reverse_proxy_server.Http.Headers.{no_headers, set}
use reverse_proxy_server.Http.Message.{
  HttpRequestHead, HttpResponseHead, empty_response, HttpStatus, code_of, status_reason, pos,
}
use reverse_proxy_server.Proxy.Config.{incr}
use reverse_proxy_server.Proxy.Relay.State.{
  Phase, request, response, bridge, closed, buffer, from_client, from_backend, request_read,
  request_write, response_read, error_write, tunnel_write, pump_read, drain_read, retry_connect,
  write_backend, parse_backend, write_client, shutdown_client, shutdown_backend, pool_release,
  connect_fresh, Relay, wait_for, act, crash,
}

abbrev pub goto_phase : Phase → Relay → Relay
goto_phase p r = record r { phase = p }

unfoldable pub kick_idle_timer : Relay → Relay
kick_idle_timer r = if r.done || not r.idle_enabled then r else record r { timer_armed = true }

unfoldable pub shut : Relay → Option ℕ → Relay
shut r none = r
shut r (some c) = act (shutdown_backend c) (record r { backend = none })

unfoldable pub close_backend : Relay → Relay
unfolding shut
close_backend r = shut r r.backend

unfoldable pub teardown : Relay → Relay
unfolding close_backend
teardown r =
    if r.done
    then r
    else close_backend
        (act shutdown_client (record r { done = true; timer_armed = false; phase = closed }))

unfoldable pub request_phase : Relay → Relay
request_phase r = wait_for request_read (kick_idle_timer (goto_phase request r))

unfoldable pub drain_client : Relay → Relay
drain_client r = if r.done then r else wait_for drain_read r

unfoldable pub gracefully_close_client : Relay → Relay
gracefully_close_client r =
    if r.done then r else drain_client (act shutdown_client (record r { draining = true }))

unfoldable pub after_client_response : Relay → Relay
after_client_response r =
    if r.draining
    then gracefully_close_client r
    else if r.client_keep_alive && not r.done && r.client_h1
    then request_phase r
    else if r.client_h1
    then gracefully_close_client r
    else drain_client r

unfoldable pub error_head : HttpStatus → Bytes → HttpResponseHead
error_head status msg = record empty_response {
  status_code = pos (code_of status);
  reason = status_reason status;
  headers =
      set (set no_headers (codes "content-type") (codes "text/plain")) (codes "content-length")
        (to_string (length msg));
}

unfoldable pub write_error : HttpStatus → Bytes → Relay → Relay
write_error status msg r = wait_for error_write (
    act (write_client (error_head status msg) (some (buffer msg)))
      (record r { stats = record (r.stats) { resp_err = incr r.stats.resp_err } }))

unfoldable pub return_to_pool : Relay → Option ℕ → Relay
return_to_pool r none = r
return_to_pool r (some c) = act (pool_release r.backend_endpoint c) (record r { backend = none })

unfoldable pub finish_backend : Bool → Relay → Relay
unfolding close_backend return_to_pool
finish_backend keep_alive r =
    let r' = record r { pending_head = none; pending_body = none } in
    if keep_alive then return_to_pool r' r'.backend else close_backend r'

-- Both streams and the head are used without a test.
unfoldable pub send_pending : Bool → Relay → Option ℕ → Option HttpRequestHead → Relay
send_pending retry_allowed r (some c) (some head) =
    wait_for (request_write retry_allowed) (act (write_backend c head r.pending_body) r)
send_pending retry_allowed r _ _ = crash r

unfoldable pub send_backend_request : Bool → Relay → Relay
unfolding send_pending
send_backend_request retry_allowed r = send_pending retry_allowed r r.backend r.pending_head

unfoldable pub reconnect_backend_fresh : Relay → Relay
unfolding close_backend
reconnect_backend_fresh r =
    let endpoint = r.backend_endpoint in
    wait_for retry_connect (act (connect_fresh endpoint) (close_backend r))

unfoldable pub parse_from : Relay → Option ℕ → Relay
parse_from r (some c) = wait_for response_read (act (parse_backend c) r)
parse_from r none = crash r

unfoldable pub response_phase : Relay → Relay
unfolding parse_from
response_phase r = let r' = kick_idle_timer (goto_phase response r) in parse_from r' r'.backend

-- pump_bytes reads its source at once; the two pumps start with the streams of this moment.
unfoldable pub start_pumps : Relay → Option ℕ → Relay
start_pumps r (some c) = wait_for (pump_read from_backend c) (wait_for (pump_read from_client c) r)
start_pumps r none = crash r

unfoldable pub bridge_mode : Relay → Relay
unfolding start_pumps
bridge_mode r = start_pumps (goto_phase bridge r) r.backend

unfoldable pub start_tunnel : Relay → Relay
start_tunnel r = wait_for tunnel_write (
    act
      (write_client
        (record empty_response { status_code = pos 200; reason = codes "Connection Established" })
        none)
      r)

unfoldable pub graceful_close : Relay → Relay
graceful_close r =
    if r.done
    then r
    else let r' = record r { draining = true } in
      elim r.phase [ request ↦ act shutdown_client r' | _ ↦ r' ]
