-- ===== src/Proxy/Core/Draining.antt =====
-- The relays of a worker (src/proxy/proxy_core.cpp) at work and at shutdown.
use reverse_proxy_server.Base.{
  ℕ, ◌≡◌, refl, sym, subst, ◌⊎◌, inl, inr, List, [], ◌∷◌, ◌++◌, map, Bool, true, false,
  if◌then◌else◌, All, Bool-cases,
}
use reverse_proxy_server.Proxy.Config.{ProxyStats}
use reverse_proxy_server.Proxy.Load.{ProxyConfig}
use reverse_proxy_server.Proxy.Relay.State.{
  Relay, Phase, request, forward, response, bridge, closed, shutdown_client, act,
}
use reverse_proxy_server.Proxy.Relay.Actions.{graceful_close}
use reverse_proxy_server.Proxy.Relay.Machine
use reverse_proxy_server.Proxy.Relay.Invariant.{Inv}
use reverse_proxy_server.Proxy.Relay.Invariant.Steps.{Step-Inv, start-Inv}
use reverse_proxy_server.Proxy.Core.{
  ProxyCore, new_core, has_timeout, on_stream, on_new_tcp_socket, on_quic_session, lock_relays,
  core_graceful_shutdown, force_close_quic, codec_of,
}

-- What happens to a worker: a TCP socket, a QUIC session or stream, a step of one of its relays, and
-- the two steps of a shutdown.
pub data Step (c : ProxyCore) : ProxyCore → Type 0 where
  socket : Step c (on_new_tcp_socket c)
  session : Step c (on_quic_session c)
  quic_stream : Step c (on_stream false c)
  relay :
      (before : List Relay) (r s : Relay) (after : List Relay)
      → c.live_relays ≡ before ++ r ∷ after
      → Machine.Step r s
      → Step c (record c { live_relays = before ++ s ∷ after })
  shuts_down :
      (alive : Relay → Bool) (alive_sessions : ℕ → Bool)
      → Step c (core_graceful_shutdown alive alive_sessions c)
  force_closes : (alive_sessions : ℕ → Bool) → Step c (force_close_quic alive_sessions c)

pub data Reach (c : ProxyCore) : ProxyCore → Type 0 where
  here : Reach c c
  next : {d e : ProxyCore} → Reach c d → Step d e → Reach c e

-- No relay is in a wrong state, and none has an idle timeout.
pub record IsSound (c : ProxyCore) : Type 0 where
  pub relays : All Inv c.live_relays
  pub no_timeout : c.idle_enabled ≡ false

All-append : (P : Relay → Type 0) (rs qs : List Relay) → All P rs → All P qs → All P (rs ++ qs)
All-append P [] qs a b = b
All-append P (r ∷ rs) qs a b = (a.0, All-append P rs qs a.1 b)

All-replace :
    (P : Relay → Type 0) (before : List Relay) (r s : Relay) (after : List Relay)
    → (P r → P s)
    → All P (before ++ r ∷ after)
    → All P (before ++ s ∷ after)
All-replace P [] r s after h a = (h a.0, a.1)
All-replace P (b ∷ before) r s after h a = (a.0, All-replace P before r s after h a.1)

on_stream-IsSound : (h1 : Bool) (c : ProxyCore) → IsSound c → IsSound (on_stream h1 c)
unfolding on_stream
on_stream-IsSound h1 c i = record {
  relays = All-append Inv c.live_relays _ i.relays (
    subst (λ b. Inv (Machine.start h1 b c.rules c.stats)) (sym i.no_timeout)
        (start-Inv h1 c.rules c.stats),
    tt,
  );
  no_timeout = i.no_timeout;
}

-- A relay that is told to close: it finishes what it does and takes no further request.
abbrev pub IsClosing : Relay → Type 0
IsClosing r = (r.done ≡ true) ⊎ (r.draining ≡ true)

graceful_close-IsClosing : (r : Relay) → IsClosing (graceful_close r)
unfolding graceful_close
graceful_close-IsClosing r = by_state r.done refl r.phase
  where
    by_state :
        (b : Bool)
        → r.done ≡ b
        → (p : Phase)
        → IsClosing (
            if b then r else elim p [
              | request ↦ act shutdown_client (record r { draining = true })
              | _ ↦ record r { draining = true }
            ])
    by_state true e p = inl e
    by_state false e request = inr refl
    by_state false e forward = inr refl
    by_state false e response = inr refl
    by_state false e bridge = inr refl
    by_state false e closed = inr refl

-- A shutdown: of the relays `rs`, those that are alive are told to close, in order, and are the ones left.
pub data Told (alive : Relay → Bool) : List Relay → List Relay → Type 0 where
  nobody : Told alive [] []
  told :
      {r : Relay} {rs qs : List Relay}
      → alive r ≡ true
      → Told alive rs qs
      → Told alive (r ∷ rs) (graceful_close r ∷ qs)
  passed :
      {r : Relay} {rs qs : List Relay} → alive r ≡ false → Told alive rs qs → Told alive (r ∷ rs) qs

lock_relays-Told :
    (alive : Relay → Bool) (rs : List Relay)
    → Told alive rs (map graceful_close (lock_relays alive rs))
unfolding lock_relays
lock_relays-Told alive [] = nobody
lock_relays-Told alive (r ∷ rs) = elim (Bool-cases (alive r)) [
  | inl e ↦ rw e (told e (lock_relays-Told alive rs))
  | inr e ↦ rw e (passed e (lock_relays-Told alive rs))
]

closed-Inv : (r : Relay) → Inv r → Inv (graceful_close r)
closed-Inv r i = Step-Inv r (graceful_close r) Machine.closes i

lock_relays-All :
    (P : Relay → Type 0) (Q : Relay → Type 0) (alive : Relay → Bool) (rs : List Relay)
    → ((r : Relay) → P r → Q (graceful_close r))
    → All P rs
    → All Q (map graceful_close (lock_relays alive rs))
unfolding lock_relays
lock_relays-All P Q alive [] h a = tt
lock_relays-All P Q alive (r ∷ rs) h a = elim (Bool-cases (alive r)) [
  | inl e ↦ rw e (h r a.0, lock_relays-All P Q alive rs h a.1)
  | inr e ↦ rw e (lock_relays-All P Q alive rs h a.1)
]

Step-IsSound : (c d : ProxyCore) → Step c d → IsSound c → IsSound d
unfolding on_new_tcp_socket on_quic_session core_graceful_shutdown force_close_quic codec_of
Step-IsSound c _ socket i =
    on_stream-IsSound true _ (record { relays = i.relays; no_timeout = i.no_timeout })
Step-IsSound c _ session i = record { relays = i.relays; no_timeout = i.no_timeout }
Step-IsSound c _ quic_stream i = on_stream-IsSound false c i
Step-IsSound c _ (relay before r s after e step) i = record {
  relays = All-replace Inv before r s after (Step-Inv r s step) (subst (All Inv) e i.relays);
  no_timeout = i.no_timeout;
}
Step-IsSound c _ (shuts_down alive alive_sessions) i = record {
  relays = lock_relays-All Inv Inv alive c.live_relays closed-Inv i.relays;
  no_timeout = i.no_timeout;
}
Step-IsSound c _ (force_closes alive_sessions) i = record {
  relays = i.relays;
  no_timeout = i.no_timeout;
}

Reach-IsSound : (c d : ProxyCore) → IsSound c → Reach c d → IsSound d
Reach-IsSound c _ i here = i
Reach-IsSound c e i (next {d} path last) = Step-IsSound d e last (Reach-IsSound c d i path)

new_core-IsSound :
    (cfg : ProxyConfig) (stats : ProxyStats)
    → has_timeout cfg.idle_timeout_secs ≡ false
    → IsSound (new_core cfg stats)
unfolding new_core
new_core-IsSound cfg stats h = record { relays = tt; no_timeout = h }

-- A worker without idle timeout serves any TCP and QUIC clients, its relays move in any order. Then at
-- every moment each of its relays is in a right state: none has called through a null stream or
-- head, and each has the operations pending that its state allows. When the worker shuts down, just
-- the relays that are still alive are told to close and left, in their order; then each of these is
-- torn down or draining, and all are in a right state again.
pub Reach-closes :
    (cfg : ProxyConfig) (stats : ProxyStats) (c : ProxyCore) (alive : Relay → Bool)
    (alive_sessions : ℕ → Bool)
    → has_timeout cfg.idle_timeout_secs ≡ false
    → Reach (new_core cfg stats) c
    → All Inv c.live_relays
      × Told alive c.live_relays (core_graceful_shutdown alive alive_sessions c).live_relays
      × All Inv (core_graceful_shutdown alive alive_sessions c).live_relays
      × All IsClosing (core_graceful_shutdown alive alive_sessions c).live_relays
unfolding core_graceful_shutdown
Reach-closes cfg stats c alive alive_sessions h path =
    let i = Reach-IsSound (new_core cfg stats) c (new_core-IsSound cfg stats h) path in
    (
      i.relays,
      lock_relays-Told alive c.live_relays,
      lock_relays-All Inv Inv alive c.live_relays closed-Inv i.relays,
      lock_relays-All Inv IsClosing alive c.live_relays (λ r i. graceful_close-IsClosing r)
          i.relays,
    )
