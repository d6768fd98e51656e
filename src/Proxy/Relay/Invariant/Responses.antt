-- ===== src/Proxy/Relay/Invariant/Responses.antt =====
-- The invariant of a relay without idle timeout (src/proxy/relay_session.cpp):
-- the callbacks from the request's write on.
use reverse_proxy_server.Base.{
  ℕ, ◌≡◌, refl, ap, ◌∙◌, ◌∷◌, Option, none, some, Bool, true, false, not, ◌&&◌, if◌then◌else◌,
  is_some,
}
use reverse_proxy_server.Proxy.Relay.State.{
  forward, response, bridge, from_client, from_backend, retry_connect, response_read, upgrade_write,
  response_write, pump_read, Relay,
}
use reverse_proxy_server.Proxy.Relay.Actions.{
  goto_phase, close_backend, shut, return_to_pool, finish_backend, reconnect_backend_fresh,
  parse_from, response_phase, start_pumps, bridge_mode,
}
use reverse_proxy_server.Proxy.Relay.Handlers.{
  Answer, on_request_write, write_failed, written, on_response, response_failed, response_got,
  note_response, is_switching, on_response_write, WriteResult,
}
use reverse_proxy_server.Proxy.Relay.Invariant.{
  bridging, Inv, Running, if-Inv, kick_lem, write_error-Inv, after_client_response-Inv, pending_one,
}

-- close_backend leaves a relay without backend, and changes nothing else that a callback relies on.
record Closes (r s : Relay) : Type 0 where
  running : Running s
  phase_same : s.phase ≡ r.phase
  head_same : s.pending_head ≡ r.pending_head
  no_backend : s.backend ≡ none

shut-Closes : (r : Relay) (o : Option ℕ) → r.backend ≡ o → Running r → Closes r (shut r o)
unfolding shut
shut-Closes r none e u = record { running = u; phase_same = refl; head_same = refl; no_backend = e }
shut-Closes r (some c) e u = record {
  running = record {
    alive = u.alive;
    no_timeout = u.no_timeout;
    unarmed = u.unarmed;
    not_done = u.not_done;
    idle = u.idle;
  };
  phase_same = refl;
  head_same = refl;
  no_backend = refl;
}

close_backend-Closes : (r : Relay) → Running r → Closes r (close_backend r)
unfolding close_backend
close_backend-Closes r u = shut-Closes r r.backend refl u

finish_backend-Closes :
    (keep : Bool) (r : Relay)
    → Running r
    → Running (finish_backend keep r) × ((finish_backend keep r).backend ≡ none)
unfolding finish_backend
finish_backend-Closes keep r u = finishes keep r.backend refl
  where
    cleared : Relay
    cleared = record r { pending_head = none; pending_body = none }

    cleared-Running : Running cleared
    cleared-Running = record {
      alive = u.alive;
      no_timeout = u.no_timeout;
      unarmed = u.unarmed;
      not_done = u.not_done;
      idle = u.idle;
    }

    finishes :
        (k : Bool) (o : Option ℕ)
        → r.backend ≡ o
        → Running (if k then return_to_pool cleared o else shut cleared o)
          × ((if k then return_to_pool cleared o else shut cleared o).backend ≡ none)
    finishes true none e = (cleared-Running, e)
    finishes true (some c) e =
        let z = shut-Closes cleared (some c) e cleared-Running in
        (
          record {
            alive = u.alive;
            no_timeout = u.no_timeout;
            unarmed = u.unarmed;
            not_done = u.not_done;
            idle = u.idle;
          },
          refl,
        )
    finishes false o e =
        let z = shut-Closes cleared o e cleared-Running in (z.running, z.no_backend)

parse_from-Inv :
    (r : Relay) (o : Option ℕ)
    → Running r
    → r.phase ≡ response
    → r.backend ≡ o
    → is_some o ≡ true
    → Inv (parse_from r o)
unfolding parse_from
parse_from-Inv r none u p e h = cc
parse_from-Inv r (some c) u p e h =
    pending_one response_read r _ u refl refl refl refl refl (p, ap is_some e)

response_phase-Inv : (r : Relay) → Running r → is_some r.backend ≡ true → Inv (response_phase r)
unfolding response_phase
response_phase-Inv r u b =
    rw (kick_lem (goto_phase response r), u.no_timeout)
      (parse_from-Inv (goto_phase response r) r.backend
        (record {
          alive = u.alive;
          no_timeout = u.no_timeout;
          unarmed = u.unarmed;
          not_done = u.not_done;
          idle = u.idle;
        })
        refl refl b)

reconnect-Inv :
    (r : Relay)
    → Running r
    → r.phase ≡ forward
    → is_some r.pending_head ≡ true
    → Inv (reconnect_backend_fresh r)
unfolding reconnect_backend_fresh
reconnect-Inv r u p h =
    let z = close_backend-Closes r u in
    pending_one retry_connect (close_backend r) _ z.running refl refl refl refl refl
      (z.phase_same ∙ p, z.no_backend, ap is_some z.head_same ∙ h)

pub on_request_write-Inv :
    (retry : Bool) (a : WriteResult) (r : Relay)
    → Running r
    → r.phase ≡ forward
    → is_some r.backend ≡ true
    → is_some r.pending_head ≡ true
    → Inv (on_request_write retry a r)
unfolding on_request_write
on_request_write-Inv retry write_failed r u p b h =
    let z = close_backend-Closes r u in
    if-Inv (retry && r.backend_from_pool && not (is_some r.pending_body)) _ _
      (reconnect-Inv r u p h) (write_error-Inv _ _ _ z.running z.no_backend)
on_request_write-Inv retry written r u p b h =
    rw (kick_lem (record r { pending_head = none; pending_body = none }), u.no_timeout)
      (response_phase-Inv (record r { pending_head = none; pending_body = none })
        (record {
          alive = u.alive;
          no_timeout = u.no_timeout;
          unarmed = u.unarmed;
          not_done = u.not_done;
          idle = u.idle;
        })
        b)

pub on_response-Inv :
    (a : Answer response_read) (r : Relay)
    → Running r
    → r.phase ≡ response
    → is_some r.backend ≡ true
    → Inv (on_response a r)
unfolding on_response note_response
on_response-Inv response_failed r u p b =
    let z = close_backend-Closes r u in write_error-Inv _ _ _ z.running z.no_backend
on_response-Inv (response_got resp body keep us) r u p b =
    rw (kick_lem, u.no_timeout)
      (if-Inv (r.request_is_upgrade && is_switching resp.status_code) _ _
        (pending_one upgrade_write r _ u refl refl refl refl refl (p, b))
        (pending_one (response_write keep) r _ u refl refl refl refl refl (p, b)))

pub on_response_write-Inv :
    (keep : Bool) (a : WriteResult) (r : Relay) → Running r → Inv (on_response_write keep a r)
unfolding on_response_write
on_response_write-Inv keep a r u =
    let z = finish_backend-Closes keep r u in
    after_client_response-Inv (finish_backend keep r) z.0 z.1

start_pumps-Inv :
    (r : Relay) (o : Option ℕ)
    → Running r
    → r.phase ≡ bridge
    → r.backend ≡ o
    → is_some o ≡ true
    → Inv (start_pumps r o)
unfolding start_pumps
start_pumps-Inv r none u p e h = cc
start_pumps-Inv r (some c) u p e h = record {
  alive = u.alive;
  no_timeout = u.no_timeout;
  unarmed = u.unarmed;
  shape =
      bridging c (pump_read from_backend c) (pump_read from_client c)
        (ap (λ l. pump_read from_backend c ∷ pump_read from_client c ∷ l) u.idle) u.not_done p e
        refl refl;
}

pub bridge_mode-Inv : (r : Relay) → Running r → is_some r.backend ≡ true → Inv (bridge_mode r)
unfolding bridge_mode
bridge_mode-Inv r u b =
    start_pumps-Inv (goto_phase bridge r) r.backend
      (record {
        alive = u.alive;
        no_timeout = u.no_timeout;
        unarmed = u.unarmed;
        not_done = u.not_done;
        idle = u.idle;
      })
      refl refl b
