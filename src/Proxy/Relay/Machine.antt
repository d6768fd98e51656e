-- ===== src/Proxy/Relay/Machine.antt =====
-- The steps of a relay: a pending operation completes, the server asks it to close, or its idle timer
-- fires. All of them run on the relay's worker thread, one after the other. That a timer whose expiry
-- is already queued may fire once more after it was armed again is left out.
use reverse_proxy_server.Base.{◌≡◌, List, ◌∷◌, ◌++◌, Bool, true, false}
use reverse_proxy_server.Proxy.Config.{ProxyStats}
use reverse_proxy_server.Proxy.Router.{Rule}
use reverse_proxy_server.Proxy.Relay.State.{Wait, Relay, new_relay}
use reverse_proxy_server.Proxy.Relay.Actions.{request_phase, graceful_close, teardown}
use reverse_proxy_server.Proxy.Relay.Handlers.{Answer, handle}

-- start().
unfoldable pub start : Bool → Bool → List Rule → ProxyStats → Relay
start client_h1 idle_enabled rules stats =
    request_phase (new_relay client_h1 idle_enabled rules stats)

-- idle_timer_ fires.
unfoldable pub on_idle : Relay → Relay
on_idle r = teardown (record r { timer_armed = false })

pub data Step (r : Relay) : Relay → Type 0 where
  completes :
      (before : List Wait) (w : Wait) (after : List Wait)
      → r.waits ≡ before ++ w ∷ after
      → (a : Answer w) → Step r (handle w a (record r { waits = before ++ after }))
  closes : Step r (graceful_close r)
  times_out : r.timer_armed ≡ true → Step r (on_idle r)

pub data Reach (r : Relay) : Relay → Type 0 where
  here : Reach r r
  next : {s t : Relay} → Reach r s → Step s t → Reach r t
