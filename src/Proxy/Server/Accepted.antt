-- ===== src/Proxy/Server/Accepted.antt =====
-- The sockets that a ReverseProxyServer (src/proxy/reverse_proxy_server.cpp) accepts are those that it
-- hands off.
use reverse_proxy_server.Base.{
  ℕ, ◌≡◌, refl, sym, ap, ◌∙◌, List, [], ◌∷◌, ◌++◌, append-nil, append_assoc, Option, none, some,
  Bool, true, false, not, ◌||◌, ◌&&◌, if◌then◌else◌, ltb,
}
use reverse_proxy_server.Http.Stream.{ErrorCode}
use reverse_proxy_server.Proxy.Config.{ProxyStats}
use reverse_proxy_server.Proxy.Server.{
  Grace, to_finalize, to_stop, Server, accept_loop, stats_accept_loop, start, is_abort, on_accept,
  on_stats_accept, stop, begin_shutdown, finalize, hard_stop, on_grace, Event, starts, accepts,
  stats_accepts, stops, runs_posted, grace_ends, step, run,
}
use reverse_proxy_server.Proxy.Server.Tasks.{sockets, sockets-append, for_cores_lem}

-- The sockets of the accepts that come while the server waits for one and runs.
abbrev accepted_in : Event → Server → List ℕ
accepted_in (accepts none fd) s = if s.accepting && not s.stopped then fd ∷ [] else []
accepted_in _ s = []

abbrev pub accepted : List Event → Server → List ℕ
accepted [] s = []
accepted (e ∷ es) s = accepted_in e s ++ accepted es (step e s)

-- What a step hands off beyond `l`: the server `t` behind it.
abbrev Hands : List ℕ → Server → Type 0
Hands l t = sockets t.posted ≡ l

if-Hands :
    (b : Bool) (l : List ℕ) (x y : Server) → Hands l x → Hands l y → Hands l (if b then x else y)
if-Hands true l x y p q = p
if-Hands false l x y p q = q

start-Hands :
    (tls open6 : Bool) (stats : ProxyStats) (s : Server)
    → Hands (sockets s.posted) (start tls open6 stats s)
unfolding start accept_loop stats_accept_loop
start-Hands tls open6 stats s =
    if-Hands s.started _ s _ refl (if-Hands (ltb 0 s.cfg.stats_port) _ _ _ refl refl)

on_accept-Hands :
    (ec : Option ErrorCode) (fd : ℕ) (s : Server) (b : Bool)
    → sockets (if b then on_accept ec fd (record s { accepting = false }) else s).posted
      ≡ sockets s.posted ++ elim ec [ none ↦ if b then fd ∷ [] else [] | some e ↦ [] ]
unfolding on_accept accept_loop
on_accept-Hands none fd s true = sockets-append s.posted _
on_accept-Hands none fd s false = sym (append-nil (sockets s.posted))
on_accept-Hands (some e) fd s true =
    if-Hands (is_abort e) _ (record s { accepting = false }) (record s { accepting = true }) refl
      refl
    ∙ sym (append-nil (sockets s.posted))
on_accept-Hands (some e) fd s false = sym (append-nil (sockets s.posted))

on_grace-Hands : (g : Option Grace) (s : Server) → Hands (sockets s.posted) (on_grace g s)
unfolding on_grace finalize hard_stop
on_grace-Hands none s = refl
on_grace-Hands (some to_finalize) s =
    sockets-append s.posted _
    ∙ ap (λ l. sockets s.posted ++ l) (for_cores_lem 0 s.cores).3
    ∙ append-nil (sockets s.posted)
on_grace-Hands (some to_stop) s = refl

step-sockets :
    (e : Event) (s : Server) → sockets (step e s).posted ≡ sockets s.posted ++ accepted_in e s
unfolding on_stats_accept stats_accept_loop stop begin_shutdown
step-sockets (starts tls open6 stats) s =
    start-Hands tls open6 stats s ∙ sym (append-nil (sockets s.posted))
step-sockets (accepts none fd) s = on_accept-Hands none fd s (s.accepting && not s.stopped)
step-sockets (accepts (some e) fd) s = on_accept-Hands (some e) fd s (s.accepting && not s.stopped)
step-sockets stats_accepts s =
    if-Hands (s.stats_accepting && not s.stopped) _ _ s (if-Hands s.stopping _ _ _ refl refl) refl
    ∙ sym (append-nil (sockets s.posted))
step-sockets stops s =
    if-Hands (not s.started || s.stopping) _ s _ refl refl ∙ sym (append-nil (sockets s.posted))
step-sockets runs_posted s =
    if-Hands (s.shutdown_posted && not s.stopped) _ _ s
      (sockets-append s.posted _
        ∙ ap (λ l. sockets s.posted ++ l) (for_cores_lem 0 s.cores).0
        ∙ append-nil (sockets s.posted))
      refl
    ∙ sym (append-nil (sockets s.posted))
step-sockets grace_ends s =
    if-Hands s.stopped _ s _ refl (on_grace-Hands s.grace_timer s)
    ∙ sym (append-nil (sockets s.posted))

pub run-sockets :
    (es : List Event) (s : Server) → sockets (run es s).posted ≡ sockets s.posted ++ accepted es s
run-sockets [] s = sym (append-nil (sockets s.posted))
run-sockets (e ∷ es) s =
    run-sockets es (step e s)
    ∙ ap (λ l. l ++ accepted es (step e s)) (step-sockets e s)
    ∙ append_assoc (sockets s.posted) (accepted_in e s) (accepted es (step e s))
