-- ===== src/Proxy/Relay/Invariant/Requests.antt =====
-- The invariant of a relay without idle timeout (src/proxy/relay_session.cpp):
-- the callbacks up to the connect to the backend.
use reverse_proxy_server.Base.{
  ℕ, ◌≡◌, refl, ap, Option, none, some, Bool, true, false, not, if◌then◌else◌, is_some, is_empty,
}
use reverse_proxy_server.Text.{Bytes, codes, str_eq}
use reverse_proxy_server.Http.Message.{HttpRequestHead}
use reverse_proxy_server.Proxy.Router.{route}
use reverse_proxy_server.Proxy.Relay.State.{
  forward, Body, request_read, backend_connect, tunnel_connect, retry_connect, request_write,
  tunnel_write, Relay,
}
use reverse_proxy_server.Proxy.Relay.Target.{connect_target, forward_target}
use reverse_proxy_server.Proxy.Relay.Actions.{send_pending, send_backend_request, start_tunnel}
use reverse_proxy_server.Proxy.Relay.Handlers.{
  Answer, on_request, connect_to, forward_to, handle_connect, handle_forward, handle_routed,
  note_request, request_failed, request_got, use_backend, connect_failed, connected,
  on_tunnel_connect, on_retry_connect,
}
use reverse_proxy_server.Proxy.Relay.Invariant.{
  Inv, Running, if-Inv, kick_lem, write_error-Inv, teardown-Inv, pending_one,
}

connect_to-Inv :
    (o : Option (Bytes × ℕ)) (r : Relay)
    → Running r
    → r.phase ≡ forward
    → r.backend ≡ none
    → Inv (connect_to r o)
unfolding connect_to
connect_to-Inv none r u p b = write_error-Inv _ _ r u b
connect_to-Inv (some (host, port)) r u p b =
    pending_one tunnel_connect r _ u refl refl refl refl refl (p, b)

forward_to-Inv :
    (head : HttpRequestHead) (body : Option Body) (o : Option (Bytes × ℕ)) (r : Relay)
    → Running r
    → r.phase ≡ forward
    → r.backend ≡ none
    → Inv (forward_to head body r o)
unfolding forward_to
forward_to-Inv head body none r u p b = write_error-Inv _ _ r u b
forward_to-Inv head body (some (host, port)) r u p b =
    pending_one (backend_connect _ body) r _ u refl refl refl refl refl (p, b)

-- Any request is answered by an error or by a connect.
dispatch-Inv :
    (head : HttpRequestHead) (body : Option Body) (r : Relay)
    → Running r
    → r.phase ≡ forward
    → r.backend ≡ none
    → Inv (
        if str_eq head.method (codes "CONNECT")
        then handle_connect head r
        else if head.absolute_target
        then handle_forward head body r
        else handle_routed head body r)
unfolding handle_connect handle_forward handle_routed
dispatch-Inv head body r u p b =
    if-Inv (str_eq head.method (codes "CONNECT")) _ _
      (connect_to-Inv (connect_target head.path) r u p b)
      (if-Inv head.absolute_target _ _
        (if-Inv (not (str_eq head.scheme (codes "http"))) _ _ (write_error-Inv _ _ r u b)
          (forward_to-Inv head body (forward_target head.authority) r u p b))
        (if-Inv (is_empty (route r.rules head)) _ _ (write_error-Inv _ _ r u b)
          (pending_one (backend_connect head body) r _ u refl refl refl refl refl (p, b))))

pub on_request-Inv :
    (a : Answer request_read) (r : Relay) → Running r → r.backend ≡ none → Inv (on_request a r)
unfolding on_request note_request
on_request-Inv request_failed r u b = teardown-Inv r u
on_request-Inv (request_got head body keep) r u b =
    rw (kick_lem, u.no_timeout)
      (dispatch-Inv head body _
        (record {
          alive = u.alive;
          no_timeout = u.no_timeout;
          unarmed = u.unarmed;
          not_done = u.not_done;
          idle = u.idle;
        })
        refl b)

send_pending-Inv :
    (retry : Bool) (r : Relay) (o : Option ℕ) (h : Option HttpRequestHead)
    → Running r
    → r.phase ≡ forward
    → r.backend ≡ o
    → r.pending_head ≡ h
    → is_some o ≡ true
    → is_some h ≡ true
    → Inv (send_pending retry r o h)
unfolding send_pending
send_pending-Inv retry r none h u p eo eh so sh = cc
send_pending-Inv retry r (some c) none u p eo eh so sh = cc
send_pending-Inv retry r (some c) (some head) u p eo eh so sh =
    pending_one (request_write retry) r _ u refl refl refl refl refl
      (p, ap is_some eo, ap is_some eh)

pub use_backend-Inv :
    (head : HttpRequestHead) (body : Option Body) (a : Answer tunnel_connect) (r : Relay)
    → Running r
    → r.phase ≡ forward
    → r.backend ≡ none
    → Inv (use_backend head body a r)
unfolding use_backend send_backend_request
use_backend-Inv head body connect_failed r u p b = write_error-Inv _ _ r u b
use_backend-Inv head body (connected c e from_pool) r u p b =
    rw (kick_lem, u.no_timeout)
      (send_pending-Inv true _ (some c) (some head)
        (record {
          alive = u.alive;
          no_timeout = u.no_timeout;
          unarmed = u.unarmed;
          not_done = u.not_done;
          idle = u.idle;
        })
        p refl refl refl refl)

pub on_tunnel_connect-Inv :
    (a : Answer tunnel_connect) (r : Relay)
    → Running r
    → r.phase ≡ forward
    → r.backend ≡ none
    → Inv (on_tunnel_connect a r)
unfolding on_tunnel_connect start_tunnel
on_tunnel_connect-Inv connect_failed r u p b = write_error-Inv _ _ r u b
on_tunnel_connect-Inv (connected c e _) r u p b =
    pending_one tunnel_write r _ u refl refl refl refl refl (p, refl)

pub on_retry_connect-Inv :
    (a : Answer retry_connect) (r : Relay)
    → Running r
    → r.phase ≡ forward
    → r.backend ≡ none
    → is_some r.pending_head ≡ true
    → Inv (on_retry_connect a r)
unfolding on_retry_connect send_backend_request
on_retry_connect-Inv connect_failed r u p b h = write_error-Inv _ _ r u b
on_retry_connect-Inv (connected c e _) r u p b h =
    send_pending-Inv false _ (some c) r.pending_head
      (record {
        alive = u.alive;
        no_timeout = u.no_timeout;
        unarmed = u.unarmed;
        not_done = u.not_done;
        idle = u.idle;
      })
      p refl refl refl h
