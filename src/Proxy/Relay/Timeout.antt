-- ===== src/Proxy/Relay/Timeout.antt =====
-- A relay with an idle timeout: what teardown() leaves for the callback of a request that is still
-- being written to the backend (src/proxy/relay_session.cpp).
use reverse_proxy_server.Base.{
  ◌≡◌, refl, ◌∙◌, [], ◌∷◌, none, Bool, true, false, inl, inr, Option-cases, arith,
}
use reverse_proxy_server.Proxy.Relay.State.{request_write, Relay, response}
use reverse_proxy_server.Proxy.Relay.Actions.{
  goto_phase, kick_idle_timer, teardown, shut, response_phase, parse_from,
}
use reverse_proxy_server.Proxy.Relay.Handlers.{handle, on_request_write, written}
use reverse_proxy_server.Proxy.Relay.Machine.{on_idle, completes, times_out, Reach, here, next}

-- teardown() gives the backend up and leaves the pending operations.
torn_down :
    (r : Relay)
    → r.done ≡ false
    → ((teardown r).backend ≡ none) × ((teardown r).done ≡ true) × ((teardown r).waits ≡ r.waits)
unfolding teardown shut
torn_down r o = elim (Option-cases r.backend) [
  | inl e ↦ rw (o, e) (refl, refl, refl)
  | inr (c, e) ↦ rw (o, e) (refl, refl, refl)
]

kick_done : (r : Relay) → r.done ≡ true → kick_idle_timer r ≡ r
unfolding kick_idle_timer
kick_done r o = ground arith

-- The callback of the write goes on to the response, whose stream is gone.
written-crashes :
    (retry : Bool) (r : Relay)
    → r.done ≡ true
    → r.backend ≡ none
    → (on_request_write retry written r).crashed ≡ true
unfolding on_request_write response_phase parse_from
written-crashes retry r o b =
    rw (kick_done (record r { pending_head = none; pending_body = none }) o) (
      rw
        (
          kick_done (goto_phase response (record r { pending_head = none; pending_body = none })) o,
          b,
        )
        refl)

-- If a relay that is not torn down waits for nothing but the write of a request to its backend, and
-- its idle timer is armed, then it can crash: the timer fires, the teardown gives up the backend, and the write that completes
-- afterwards goes on to parse a response from the stream that is gone.
pub timeout-crashes :
    (retry : Bool) (r : Relay)
    → r.done ≡ false
    → r.timer_armed ≡ true
    → r.waits ≡ request_write retry ∷ []
    → (s : Relay) × Reach r s × (s.crashed ≡ true)
unfolding on_idle handle
timeout-crashes retry r o t e =
    let z = torn_down (record r { timer_armed = false }) o in
    (
      on_request_write retry written (record (on_idle r) { waits = [] }),
      next (next here (times_out t)) (completes [] (request_write retry) [] (z.2 ∙ e) written),
      written-crashes retry (record (on_idle r) { waits = [] }) z.1 z.0,
    )
