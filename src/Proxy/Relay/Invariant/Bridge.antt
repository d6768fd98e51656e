-- ===== src/Proxy/Relay/Invariant/Bridge.antt =====
-- The invariant of a relay without idle timeout (src/proxy/relay_session.cpp):
-- the two pumps of a bridge.
use reverse_proxy_server.Base.{
  ℕ, ◌≡◌, refl, ap, inr, [], ◌∷◌, some, Bool, true, false, if◌then◌else◌, is_empty,
}
use reverse_proxy_server.Proxy.Relay.State.{
  bridge, Side, Wait, request_read, backend_connect, tunnel_connect, retry_connect, request_write,
  response_read, upgrade_write, response_write, error_write, tunnel_write, pump_read, pump_write,
  drain_read, Relay, wait_for, act,
}
use reverse_proxy_server.Proxy.Relay.Actions.{kick_idle_timer, teardown}
use reverse_proxy_server.Proxy.Relay.Handlers.{
  Answer, handle, write_failed, written, on_pump_read, on_pump_write, pump_out, ended, read,
  ReadResult, WriteResult,
}
use reverse_proxy_server.Proxy.Relay.Invariant.{Pumps, bridging, over, Inv, if-Inv, kick_lem}

-- Teardown with the other pump still pending.
teardown-over :
    (c : ℕ) (w : Wait) (r : Relay)
    → r.crashed ≡ false
    → r.idle_enabled ≡ false
    → r.waits ≡ w ∷ []
    → r.done ≡ false
    → r.backend ≡ some c
    → Pumps c w
    → Inv (teardown r)
unfolding teardown
teardown-over c w r a n s d e h =
    rw (d, e)
      (record {
        alive = a;
        no_timeout = n;
        unarmed = refl;
        shape = over refl refl refl (inr (c, w, s, h));
      })

pub unless-Inv : (b : Bool) (x y : Relay) → b ≡ false → Inv y → Inv (if b then x else y)
unless-Inv true x y e h = cc
unless-Inv false x y e h = h

-- A pump that goes on, or ends the bridge.
again-Inv :
    (c : ℕ) (x y : Wait) (r r' : Relay)
    → r'.crashed ≡ false
    → r'.idle_enabled ≡ false
    → r'.timer_armed ≡ false
    → r'.done ≡ false
    → r'.waits ≡ x ∷ y ∷ []
    → r'.phase ≡ bridge
    → r'.backend ≡ some c
    → Pumps c x
    → Pumps c y
    → Inv r'
again-Inv c x y r r' a n t d s p e hx hy = record {
  alive = a;
  no_timeout = n;
  unarmed = t;
  shape = bridging c x y s d p e hx hy;
}

pump_read-Inv :
    (c d : ℕ) (side : Side) (y : Wait) (a : ReadResult) (r : Relay)
    → r.crashed ≡ false
    → r.idle_enabled ≡ false
    → r.timer_armed ≡ false
    → r.waits ≡ y ∷ []
    → r.done ≡ false
    → r.phase ≡ bridge
    → r.backend ≡ some c
    → d ≡ c
    → Pumps c y
    → Inv (on_pump_read side d a r)
unfolding on_pump_read
pump_read-Inv c d side y ended r al n t s o p e h hy =
    unless-Inv r.done _ _ o (teardown-over c y r al n s o e hy)
pump_read-Inv c d side y (read b) r al n t s o p e h hy = unless-Inv r.done _ _ o (
    if-Inv (is_empty b) _
      (wait_for (pump_write side d) (act (pump_out side d b) (kick_idle_timer r)))
      (teardown-over c y r al n s o e hy)
      (rw (kick_lem r n)
        (again-Inv c (pump_write side d) y r _ al n t o (ap (◌∷◌ (pump_write side d)) s) p e h hy)))

pump_write-Inv :
    (c d : ℕ) (side : Side) (y : Wait) (a : WriteResult) (r : Relay)
    → r.crashed ≡ false
    → r.idle_enabled ≡ false
    → r.timer_armed ≡ false
    → r.waits ≡ y ∷ []
    → r.done ≡ false
    → r.phase ≡ bridge
    → r.backend ≡ some c
    → d ≡ c
    → Pumps c y
    → Inv (on_pump_write side d a r)
unfolding on_pump_write
pump_write-Inv c d side y write_failed r al n t s o p e h hy =
    unless-Inv r.done _ _ o (teardown-over c y r al n s o e hy)
pump_write-Inv c d side y written r al n t s o p e h hy = unless-Inv r.done _ _ o (
    rw (kick_lem r n)
      (again-Inv c (pump_read side d) y r _ al n t o (ap (◌∷◌ (pump_read side d)) s) p e h hy))

pub pump-Inv :
    (c : ℕ) (x y : Wait) (a : Answer x) (r : Relay)
    → r.crashed ≡ false
    → r.idle_enabled ≡ false
    → r.timer_armed ≡ false
    → r.waits ≡ y ∷ []
    → r.done ≡ false
    → r.phase ≡ bridge
    → r.backend ≡ some c
    → Pumps c x
    → Pumps c y
    → Inv (handle x a r)
unfolding handle
pump-Inv c (pump_read side d) y a r al n t s o p e hx hy =
    pump_read-Inv c d side y a r al n t s o p e hx hy
pump-Inv c (pump_write side d) y a r al n t s o p e hx hy =
    pump_write-Inv c d side y a r al n t s o p e hx hy
pump-Inv c request_read y a r al n t s o p e hx hy = absurd hx
pump-Inv c (backend_connect _ _) y a r al n t s o p e hx hy = absurd hx
pump-Inv c tunnel_connect y a r al n t s o p e hx hy = absurd hx
pump-Inv c retry_connect y a r al n t s o p e hx hy = absurd hx
pump-Inv c (request_write _) y a r al n t s o p e hx hy = absurd hx
pump-Inv c response_read y a r al n t s o p e hx hy = absurd hx
pump-Inv c upgrade_write y a r al n t s o p e hx hy = absurd hx
pump-Inv c (response_write _) y a r al n t s o p e hx hy = absurd hx
pump-Inv c error_write y a r al n t s o p e hx hy = absurd hx
pump-Inv c tunnel_write y a r al n t s o p e hx hy = absurd hx
pump-Inv c drain_read y a r al n t s o p e hx hy = absurd hx

-- A pump that is called back after the teardown does nothing.
pub late_pump :
    (c : ℕ) (x : Wait) (a : Answer x) (r : Relay) → r.done ≡ true → Pumps c x → handle x a r ≡ r
unfolding handle on_pump_read on_pump_write
late_pump c (pump_read side d) ended r o hx = rw o refl
late_pump c (pump_read side d) (read b) r o hx = rw o refl
late_pump c (pump_write side d) write_failed r o hx = rw o refl
late_pump c (pump_write side d) written r o hx = rw o refl
late_pump c request_read a r o hx = absurd hx
late_pump c (backend_connect _ _) a r o hx = absurd hx
late_pump c tunnel_connect a r o hx = absurd hx
late_pump c retry_connect a r o hx = absurd hx
late_pump c (request_write _) a r o hx = absurd hx
late_pump c response_read a r o hx = absurd hx
late_pump c upgrade_write a r o hx = absurd hx
late_pump c (response_write _) a r o hx = absurd hx
late_pump c error_write a r o hx = absurd hx
late_pump c tunnel_write a r o hx = absurd hx
late_pump c drain_read a r o hx = absurd hx
