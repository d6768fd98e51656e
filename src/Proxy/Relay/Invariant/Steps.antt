-- ===== src/Proxy/Relay/Invariant/Steps.antt =====
-- The invariant of a relay without idle timeout (src/proxy/relay_session.cpp):
-- the steps of a relay.
use reverse_proxy_server.Base.{
  ℕ, ◌≡◌, refl, sym, ◌∙◌, subst, inl, inr, List, [], ◌∷◌, ◌++◌, none, Bool, true, false,
  if◌then◌else◌,
}
use reverse_proxy_server.Proxy.Config.{ProxyStats}
use reverse_proxy_server.Proxy.Router.{Rule}
use reverse_proxy_server.Proxy.Relay.State.{
  Phase, request, forward, response, bridge, closed, Wait, request_read, backend_connect,
  tunnel_connect, retry_connect, request_write, response_read, upgrade_write, response_write,
  error_write, tunnel_write, pump_read, pump_write, drain_read, Relay, Action, shutdown_client,
  new_relay, act,
}
use reverse_proxy_server.Proxy.Relay.Actions.{graceful_close}
use reverse_proxy_server.Proxy.Relay.Handlers.{
  Answer, handle, write_failed, written, on_upgrade_write, on_tunnel_write, on_drain_read, ended,
  read, ReadResult,
}
use reverse_proxy_server.Proxy.Relay.Machine.{
  start, Step, completes, closes, times_out, Reach, here, next,
}
use reverse_proxy_server.Proxy.Relay.Invariant.{
  Ready, Pumps, Shape, busy, bridging, over, Inv, Running, if-Inv, kick_lem, teardown-Inv,
  drain_client-Inv, request_phase-Inv, after_client_response-Inv,
}
use reverse_proxy_server.Proxy.Relay.Invariant.Requests.{
  on_request-Inv, use_backend-Inv, on_tunnel_connect-Inv, on_retry_connect-Inv,
}
use reverse_proxy_server.Proxy.Relay.Invariant.Responses.{
  on_request_write-Inv, on_response-Inv, on_response_write-Inv, bridge_mode-Inv,
}
use reverse_proxy_server.Proxy.Relay.Invariant.Bridge.{unless-Inv, pump-Inv, late_pump}

one_pending :
    (w x : Wait) (before after : List Wait)
    → w ∷ [] ≡ before ++ x ∷ after
    → (w ≡ x) × (before ++ after ≡ [])
one_pending w x [] after e = (cc, cc)
one_pending w x (b ∷ []) after e = cc
one_pending w x (b ∷ c ∷ before) after e = cc

not_empty : (before : List Wait) (x : Wait) (after : List Wait) → ¬ ([] ≡ before ++ x ∷ after)
not_empty [] x after e = cc
not_empty (b ∷ before) x after e = cc

-- The pump that completes, and the other one.
two_pending :
    (c : ℕ) (v w x : Wait) (before after : List Wait)
    → v ∷ w ∷ [] ≡ before ++ x ∷ after
    → Pumps c v
    → Pumps c w
    → Pumps c x × ((y : Wait) × (before ++ after ≡ y ∷ []) × Pumps c y)
two_pending c v w x [] after e hv hw =
    let same : v ≡ x = cc in (subst (Pumps c) same hv, (w, cc, hw))
two_pending c v w x (b ∷ []) after e hv hw =
    let same : w ≡ x = cc in (subst (Pumps c) same hw, (v, cc, hv))
two_pending c v w x (b ∷ d ∷ before) after e hv hw =
    let rest : [] ≡ before ++ x ∷ after = cc in absurd (not_empty before x after rest)

on_drain_read-Inv :
    (a : ReadResult) (r : Relay) → Running r → r.backend ≡ none → Inv (on_drain_read a r)
unfolding on_drain_read
on_drain_read-Inv ended r u b = unless-Inv r.done _ _ u.not_done (teardown-Inv r u)
on_drain_read-Inv (read bytes) r u b =
    unless-Inv r.done _ _ u.not_done
      (rw (kick_lem r u.no_timeout) (if-Inv _ _ _ (teardown-Inv r u) (drain_client-Inv r u b)))

-- The callback of the only pending operation.
handle-Inv : (w : Wait) (a : Answer w) (r : Relay) → Running r → Ready w r → Inv (handle w a r)
unfolding handle on_upgrade_write on_tunnel_write
handle-Inv request_read a r u h = on_request-Inv a r u h.1
handle-Inv (backend_connect head body) a r u h = use_backend-Inv head body a r u h.0 h.1
handle-Inv tunnel_connect a r u h = on_tunnel_connect-Inv a r u h.0 h.1
handle-Inv retry_connect a r u h = on_retry_connect-Inv a r u h.0 h.1 h.2
handle-Inv (request_write retry) a r u h = on_request_write-Inv retry a r u h.0 h.1 h.2
handle-Inv response_read a r u h = on_response-Inv a r u h.0 h.1
handle-Inv upgrade_write write_failed r u h = teardown-Inv r u
handle-Inv upgrade_write written r u h =
    bridge_mode-Inv (record r { backend_from_pool = false })
      (record {
        alive = u.alive;
        no_timeout = u.no_timeout;
        unarmed = u.unarmed;
        not_done = u.not_done;
        idle = u.idle;
      })
      h.1
handle-Inv (response_write keep) a r u h = on_response_write-Inv keep a r u
handle-Inv error_write a r u h = after_client_response-Inv r u h
handle-Inv tunnel_write write_failed r u h = teardown-Inv r u
handle-Inv tunnel_write written r u h = bridge_mode-Inv r u h.1
handle-Inv drain_read a r u h = on_drain_read-Inv a r u h
handle-Inv (pump_read _ _) a r u h = absurd h
handle-Inv (pump_write _ _) a r u h = absurd h

cleared-Running : (r : Relay) → Inv r → r.done ≡ false → Running (record r { waits = [] })
cleared-Running r i o = record {
  alive = i.alive;
  no_timeout = i.no_timeout;
  unarmed = i.unarmed;
  not_done = o;
  idle = refl;
}

-- Ready looks neither at the pending operations nor at what was done.
Ready-keeps :
    (w : Wait) (r : Relay) (d : Bool) (l : List Wait) (acts : List Action)
    → Ready w r
    → Ready w (record r { draining = d; waits = l; actions = acts })
Ready-keeps request_read r d l acts h = h
Ready-keeps (backend_connect _ _) r d l acts h = h
Ready-keeps tunnel_connect r d l acts h = h
Ready-keeps retry_connect r d l acts h = h
Ready-keeps (request_write _) r d l acts h = h
Ready-keeps response_read r d l acts h = h
Ready-keeps upgrade_write r d l acts h = h
Ready-keeps (response_write _) r d l acts h = h
Ready-keeps error_write r d l acts h = h
Ready-keeps tunnel_write r d l acts h = h
Ready-keeps drain_read r d l acts h = h
Ready-keeps (pump_read _ _) r d l acts h = h
Ready-keeps (pump_write _ _) r d l acts h = h

completes-Inv :
    (r : Relay) (before : List Wait) (x : Wait) (after : List Wait) (a : Answer x)
    → r.waits ≡ before ++ x ∷ after
    → Inv r
    → Shape r
    → Inv (handle x a (record r { waits = before ++ after }))
completes-Inv r before x after a e i (busy w s o h) =
    let z = one_pending w x before after (sym s ∙ e) in
    subst (λ l. Inv (handle x a (record r { waits = l }))) (sym z.1)
      (handle-Inv x a (record r { waits = [] }) (cleared-Running r i o)
        (Ready-keeps x r r.draining [] r.actions (subst (λ y. Ready y r) z.0 h)))
completes-Inv r before x after a e i (bridging c v w s o p b hv hw) =
    let z = two_pending c v w x before after (sym s ∙ e) hv hw in
    pump-Inv c x z.1.0 a (record r { waits = before ++ after }) i.alive i.no_timeout i.unarmed z.1.1
      o p b z.0 z.1.2
completes-Inv r before x after a e i (over o p b (inl s)) =
    absurd (not_empty before x after (sym s ∙ e))
completes-Inv r before x after a e i (over o p b (inr (c, w, s, h))) =
    let z = one_pending w x before after (sym s ∙ e) in
    rw (late_pump c x a (record r { waits = before ++ after }) o (subst (Pumps c) z.0 h)) (record {
      alive = i.alive;
      no_timeout = i.no_timeout;
      unarmed = i.unarmed;
      shape = over o p b (inl z.1);
    })

-- The server's request to close changes only `draining` and the client's write side.
graceful_close-Inv : (r : Relay) → Inv r → Inv (graceful_close r)
unfolding graceful_close
graceful_close-Inv r i = closes-Inv r.done r.phase
  where
    marked : (acts : List Action) → Inv (record r { draining = true; actions = acts })
    marked acts = record {
      alive = i.alive;
      no_timeout = i.no_timeout;
      unarmed = i.unarmed;
      shape = marked-Shape i.shape;
    }
      where
        marked-Shape : Shape r → Shape (record r { draining = true; actions = acts })
        marked-Shape (busy w s o h) = busy w s o (Ready-keeps w r true r.waits acts h)
        marked-Shape (bridging c v w s o p b hv hw) = bridging c v w s o p b hv hw
        marked-Shape (over o p b s) = over o p b s

    closes-Inv :
        (b : Bool) (p : Phase)
        → Inv (
            if b then r else elim p [
              | request ↦ act shutdown_client (record r { draining = true })
              | _ ↦ record r { draining = true }
            ])
    closes-Inv true p = i
    closes-Inv false request = marked (r.actions ++ shutdown_client ∷ [])
    closes-Inv false forward = marked r.actions
    closes-Inv false response = marked r.actions
    closes-Inv false bridge = marked r.actions
    closes-Inv false closed = marked r.actions

pub Step-Inv : (r s : Relay) → Step r s → Inv r → Inv s
Step-Inv r _ (completes before w after e a) i = completes-Inv r before w after a e i i.shape
Step-Inv r _ closes i = graceful_close-Inv r i
Step-Inv r _ (times_out e) i = absurd (false_ne_true (sym i.unarmed ∙ e))
  where
    false_ne_true : ¬ (false ≡ true)
    false_ne_true e = cc

pub start-Inv :
    (client_h1 : Bool) (rules : List Rule) (stats : ProxyStats)
    → Inv (start client_h1 false rules stats)
unfolding start new_relay
start-Inv client_h1 rules stats =
    request_phase-Inv _
      (record { alive = refl; no_timeout = refl; unarmed = refl; not_done = refl; idle = refl })
      refl

-- Whatever requests, answers, failures and requests to close come in whatever order, a relay without
-- idle timeout never calls through a null stream or head. At every moment it is in one of three
-- states. Either exactly one operation is pending, and its callback finds what it relies on: a read of
-- the next request, a connect, an error response and a drain hold no backend, a write to the backend,
-- a read from it and a response to the client hold one, and a retry still has its head. Or exactly
-- the two pumps of a bridge are pending, both on the backend that the relay holds. Or it is torn down,
-- holds no backend, and has at most one pump still to be called back.
pub Reach-Inv :
    (client_h1 : Bool) (rules : List Rule) (stats : ProxyStats) (r : Relay)
    → Reach (start client_h1 false rules stats) r
    → Inv r
Reach-Inv client_h1 rules stats r here = start-Inv client_h1 rules stats
Reach-Inv client_h1 rules stats r (next {s} path last) =
    Step-Inv s r last (Reach-Inv client_h1 rules stats s path)
