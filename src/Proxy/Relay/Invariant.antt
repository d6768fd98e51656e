-- ===== src/Proxy/Relay/Invariant.antt =====
-- The states between the callbacks of a relay (src/proxy/relay_session.cpp) without idle timeout: one
-- pending operation, or the two pumps of a bridge, or a relay that is torn down.
pub mod Requests
pub mod Responses
pub mod Bridge
pub mod Steps
use reverse_proxy_server.Base.{
  ℕ, ◌≡◌, refl, sym, ap, ◌∙◌, ◌⊎◌, inl, inr, List, [], ◌∷◌, ◌++◌, Option, none, some, Bool, true,
  false, not, ◌&&◌, ◌||◌, arith, if◌then◌else◌, is_some, Bool-cases, Option-cases, is_empty,
}
use reverse_proxy_server.Text.{Bytes, codes, str_eq}
use reverse_proxy_server.Http.Message.{HttpRequestHead, HttpStatus}
use reverse_proxy_server.Proxy.Config.{ProxyStats}
use reverse_proxy_server.Proxy.Router.{Rule, route}
use reverse_proxy_server.Proxy.Relay.State.{
  Phase, request, forward, response, bridge, closed, Body, Side, Wait, request_read,
  backend_connect, tunnel_connect, retry_connect, request_write, response_read, upgrade_write,
  response_write, error_write, tunnel_write, pump_read, pump_write, drain_read, Relay, new_relay,
}
use reverse_proxy_server.Proxy.Relay.Target.{connect_target, forward_target}
use reverse_proxy_server.Proxy.Relay.Actions.{
  goto_phase, kick_idle_timer, close_backend, teardown, request_phase, drain_client,
  gracefully_close_client, after_client_response, write_error, finish_backend, send_pending,
  send_backend_request, reconnect_backend_fresh, parse_from, response_phase, start_pumps,
  bridge_mode, start_tunnel, graceful_close,
}
use reverse_proxy_server.Proxy.Relay.Handlers.{
  Answer, handle, on_request, connect_to, forward_to, handle_connect, handle_forward, handle_routed,
  note_request, request_failed, request_got, use_backend, connect_failed, connected,
  on_tunnel_connect, on_retry_connect, on_request_write, write_failed, written, on_response,
  response_failed, response_got, note_response, on_upgrade_write, on_response_write,
  on_tunnel_write, on_pump_read, on_pump_write, on_drain_read, ended, read, ReadResult, WriteResult,
}
use reverse_proxy_server.Proxy.Relay.Machine.{
  start, on_idle, Step, completes, closes, times_out, Reach, here, next,
}

-- What the callback of a pending operation relies on.
abbrev pub Ready : Wait → Relay → Type 0
Ready request_read r = (r.phase ≡ request) × (r.backend ≡ none)
Ready (backend_connect _ _) r = (r.phase ≡ forward) × (r.backend ≡ none)
Ready tunnel_connect r = (r.phase ≡ forward) × (r.backend ≡ none)
Ready retry_connect r = (r.phase ≡ forward) × (r.backend ≡ none) × (is_some r.pending_head ≡ true)
Ready (request_write _) r =
    (r.phase ≡ forward) × (is_some r.backend ≡ true) × (is_some r.pending_head ≡ true)
Ready response_read r = (r.phase ≡ response) × (is_some r.backend ≡ true)
Ready upgrade_write r = (r.phase ≡ response) × (is_some r.backend ≡ true)
Ready (response_write _) r = (r.phase ≡ response) × (is_some r.backend ≡ true)
Ready error_write r = r.backend ≡ none
Ready tunnel_write r = (r.phase ≡ forward) × (is_some r.backend ≡ true)
Ready drain_read r = r.backend ≡ none
Ready (pump_read _ _) r = ⊥
Ready (pump_write _ _) r = ⊥

-- A pump of the bridge to the backend `c`.
abbrev pub Pumps : ℕ → Wait → Type 0
Pumps c (pump_read _ d) = d ≡ c
Pumps c (pump_write _ d) = d ≡ c
Pumps c _ = ⊥

pub data Shape (r : Relay) : Type 0 where
  -- One operation is pending.
  busy : (w : Wait) → r.waits ≡ w ∷ [] → r.done ≡ false → Ready w r → Shape r
  -- The two pumps are pending.
  bridging :
      (c : ℕ) (v w : Wait)
      → r.waits ≡ v ∷ w ∷ []
      → r.done ≡ false
      → r.phase ≡ bridge
      → r.backend ≡ some c
      → Pumps c v
      → Pumps c w
      → Shape r
  -- The relay is torn down; a pump may still be called back.
  over :
      r.done ≡ true
      → r.phase ≡ closed
      → r.backend ≡ none
      → (r.waits ≡ []) ⊎ ((c : ℕ) × (w : Wait) × (r.waits ≡ w ∷ []) × Pumps c w)
      → Shape r

pub record Inv (r : Relay) : Type 0 where
  pub alive : r.crashed ≡ false
  pub no_timeout : r.idle_enabled ≡ false
  pub unarmed : r.timer_armed ≡ false
  pub shape : Shape r

if-Inv : (b : Bool) (x y : Relay) → Inv x → Inv y → Inv (if b then x else y)
if-Inv true x y hx hy = hx
if-Inv false x y hx hy = hy

-- Inside a callback of a relay that goes on.
record Running (r : Relay) : Type 0 where
  alive : r.crashed ≡ false
  no_timeout : r.idle_enabled ≡ false
  unarmed : r.timer_armed ≡ false
  not_done : r.done ≡ false
  idle : r.waits ≡ []

pub kick_lem : (r : Relay) → r.idle_enabled ≡ false → kick_idle_timer r ≡ r
unfolding kick_idle_timer
kick_lem r h = ground arith

write_error-Inv :
    (s : HttpStatus) (m : Bytes) (r : Relay)
    → Running r
    → r.backend ≡ none
    → Inv (write_error s m r)
unfolding write_error
write_error-Inv s m r u b = record {
  alive = u.alive;
  no_timeout = u.no_timeout;
  unarmed = u.unarmed;
  shape = busy error_write (ap (◌∷◌ error_write) u.idle) u.not_done b;
}

teardown-Inv : (r : Relay) → Running r → Inv (teardown r)
unfolding teardown
teardown-Inv r u = elim (Option-cases r.backend) [
  | inl e ↦
      rw (u.not_done, e)
        (record {
          alive = u.alive;
          no_timeout = u.no_timeout;
          unarmed = refl;
          shape = over refl refl refl (inl u.idle);
        })
  | inr (c, e) ↦
      rw (u.not_done, e)
        (record {
          alive = u.alive;
          no_timeout = u.no_timeout;
          unarmed = refl;
          shape = over refl refl refl (inl u.idle);
        })
]

drain_client-Inv : (r : Relay) → Running r → r.backend ≡ none → Inv (drain_client r)
unfolding drain_client
drain_client-Inv r u b = rw u.not_done (record {
  alive = u.alive;
  no_timeout = u.no_timeout;
  unarmed = u.unarmed;
  shape = busy drain_read (ap (◌∷◌ drain_read) u.idle) refl b;
})

request_phase-Inv : (r : Relay) → Running r → r.backend ≡ none → Inv (request_phase r)
unfolding request_phase
request_phase-Inv r u b = rw (kick_lem (goto_phase request r) u.no_timeout) (record {
  alive = u.alive;
  no_timeout = u.no_timeout;
  unarmed = u.unarmed;
  shape = busy request_read (ap (◌∷◌ request_read) u.idle) u.not_done (refl, b);
})

gracefully_close_client-Inv :
    (r : Relay) → Running r → r.backend ≡ none → Inv (gracefully_close_client r)
unfolding gracefully_close_client
gracefully_close_client-Inv r u b = rw u.not_done (
    drain_client-Inv _
      (record {
        alive = u.alive;
        no_timeout = u.no_timeout;
        unarmed = u.unarmed;
        not_done = refl;
        idle = u.idle;
      })
      b)

after_client_response-Inv :
    (r : Relay) → Running r → r.backend ≡ none → Inv (after_client_response r)
unfolding after_client_response
after_client_response-Inv r u b = if-Inv r.draining _ _ (gracefully_close_client-Inv r u b) (
    if-Inv _ _ _ (request_phase-Inv r u b)
      (if-Inv r.client_h1 _ _ (gracefully_close_client-Inv r u b) (drain_client-Inv r u b)))

-- A single pending operation of a relay that goes on.
pending_one :
    (w : Wait) (r r' : Relay)
    → Running r
    → r'.crashed ≡ r.crashed
    → r'.idle_enabled ≡ r.idle_enabled
    → r'.timer_armed ≡ r.timer_armed
    → r'.done ≡ r.done
    → r'.waits ≡ w ∷ r.waits
    → Ready w r'
    → Inv r'
pending_one w r r' u a n t d s h = record {
  alive = a ∙ u.alive;
  no_timeout = n ∙ u.no_timeout;
  unarmed = t ∙ u.unarmed;
  shape = busy w (s ∙ ap (◌∷◌ w) u.idle) (d ∙ u.not_done) h;
}
