-- ===== src/Proxy/Server/Rounds.antt =====
-- What a ReverseProxyServer (src/proxy/reverse_proxy_server.cpp) posts to its workers.
use reverse_proxy_server.Base.{
  ℕ, ◌+◌, ◌%◌, ◌^◌, ◌≡◌, refl, sym, ap, ◌∙◌, List, [], ◌∷◌, ◌++◌, append-nil, Option, none, some,
  Bool, true, false, not, ◌||◌, ◌&&◌, if◌then◌else◌, arith, ltb, length, length-append,
}
use reverse_proxy_server.Http.Stream.{ErrorCode}
use reverse_proxy_server.Proxy.Config.{ProxyStats}
use reverse_proxy_server.Proxy.Load.{ProxyConfig}
use reverse_proxy_server.Proxy.Core.{ProxyCore}
use reverse_proxy_server.Transport.Demux.{Demux}
use reverse_proxy_server.Proxy.Server.{
  hand_off, shut_down, force_close, Grace, to_finalize, to_stop, Server, new_server, accept_loop,
  stats_accept_loop, start, is_abort, on_accept, on_stats_accept, stop, begin_shutdown, finalize,
  hard_stop, on_grace, Event, starts, accepts, stats_accepts, stops, runs_posted, grace_ends, step,
  run,
}
use reverse_proxy_server.Proxy.Server.Phases.{
  Ordered, stage, stage_of_timer, step-Goes, new_server-Ordered,
}
use reverse_proxy_server.Proxy.Server.Tasks.{
  sockets, hand_offs, closings, deal, shutdown_tasks, for_cores-to_each, sockets-append,
  hand_offs-append, closings-append, deal-append, for_cores_lem,
}
use reverse_proxy_server.Proxy.Server.Accepted.{accepted, run-sockets}

-- Where the server is with its sockets and its shutdown.
pub record Dealt (s : Server) : Type 0 where
  pub fresh : s.started ≡ false → (s.accepting ≡ false) × (s.posted ≡ []) × (stage s ≡ 0)
  pub number : s.rr ≡ length (sockets s.posted) % 2 ^ 64
  pub rounds : hand_offs s.posted ≡ deal (length s.cores) 0 (sockets s.posted)
  pub orders : closings s.posted ≡ shutdown_tasks (stage s) (length s.cores)

-- Nothing that Dealt looks at has changed.
same-Dealt :
    (s t : Server)
    → t.started ≡ s.started
    → (s.started ≡ false → t.accepting ≡ false)
    → t.posted ≡ s.posted
    → t.rr ≡ s.rr
    → t.cores ≡ s.cores
    → stage t ≡ stage s
    → Dealt s
    → Dealt t
same-Dealt s t o a p r c g d = record {
  fresh = λ e. let f = d.fresh (sym o ∙ e) in (a (sym o ∙ e), p ∙ f.1, g ∙ f.2);
  number = rw (r, p) d.number;
  rounds = rw (p, c) d.rounds;
  orders = rw (p, c, g) d.orders;
}

if-Dealt :
    (b : Bool) (x y : Server)
    → (b ≡ true → Dealt x)
    → (b ≡ false → Dealt y)
    → Dealt (if b then x else y)
if-Dealt true x y h k = h refl
if-Dealt false x y h k = k refl

start-Dealt :
    (tls open6 : Bool) (stats : ProxyStats) (s : Server) → Dealt s → Dealt (start tls open6 stats s)
unfolding start accept_loop stats_accept_loop
start-Dealt tls open6 stats s d =
    if-Dealt s.started s _ (λ _. d)
      (λ o.
        if-Dealt (ltb 0 s.cfg.stats_port) _ _ (λ _. started_now _ _ _ _ o)
          (λ _. started_now _ _ _ _ o))
  where
    started_now :
        (cs : List ProxyCore) (dm : Option Demux) (a b : Bool)
        → s.started ≡ false
        → Dealt (record s {
          started = true;
          cores = cs;
          demux = dm;
          accepting = a;
          stats_accepting = b;
        })
    started_now cs dm a b o =
        let (x, p, g) = d.fresh o in
        record { fresh = λ e. cc; number = d.number; rounds = rw p refl; orders = rw (p, g) refl }

on_accept-Dealt :
    (ec : Option ErrorCode) (fd : ℕ) (s : Server)
    → s.accepting ≡ true
    → Dealt s
    → Dealt (on_accept ec fd (record s { accepting = false }))
unfolding on_accept accept_loop
on_accept-Dealt (some ec) fd s a d =
    if-Dealt (is_abort ec) _ _
      (λ _. same-Dealt s (record s { accepting = false }) refl (λ _. refl) refl refl refl refl d)
      (λ _.
        same-Dealt s (record s { accepting = true }) refl (λ o. let f = d.fresh o in cc) refl refl
          refl refl d)
on_accept-Dealt none fd s a d =
    let n = length s.cores in
    let task = hand_off (s.rr % n) fd in
    record {
      fresh = λ o. let f = d.fresh o in cc;
      number =
          rw (sockets-append s.posted, length-append (sockets s.posted)) (omega (arith, d.number));
      rounds =
          rw
            (
              hand_offs-append s.posted,
              sockets-append s.posted,
              d.rounds,
              deal-append n 0,
              d.number,
            )
            (let z : 0 + length (sockets s.posted) ≡ length (sockets s.posted) = omega arith in
              rw z refl);
      orders = rw (closings-append s.posted, append-nil) d.orders;
    }

begin_shutdown-Dealt :
    (s : Server)
    → s.shutdown_posted ≡ true
    → s.stopped ≡ false
    → Ordered s
    → Dealt s
    → Dealt (begin_shutdown (record s { shutdown_posted = false }))
unfolding begin_shutdown
begin_shutdown-Dealt s p o i d =
    let l = for_cores_lem 0 s.cores in
    let g : stage s ≡ 1 = rw (o, i.before p, p) refl in
    record {
      fresh = λ e. let f = d.fresh e in let x : 1 ≡ 0 = sym g ∙ f.2 in absurd (omega (arith, x));
      number = rw (sockets-append s.posted, l.0, append-nil) d.number;
      rounds =
          rw (sockets-append s.posted, hand_offs-append s.posted, l.0, l.1, append-nil)
            (rw append-nil d.rounds);
      orders =
          rw (o, closings-append s.posted, l.2, d.orders, g)
            (for_cores-to_each shut_down 0 s.cores);
    }

on_grace-Dealt : (s : Server) → s.stopped ≡ false → Dealt s → Dealt (on_grace s.grace_timer s)
unfolding on_grace finalize hard_stop
on_grace-Dealt s o d = by_timer s.grace_timer refl
  where
    by_timer : (g : Option Grace) → s.grace_timer ≡ g → Dealt (on_grace g s)
    by_timer none e = d
    by_timer (some to_finalize) e =
        let l = for_cores_lem 0 s.cores in
        let g : stage s ≡ 2 = rw (o, e) refl in
        record {
          fresh = λ f. let x : 2 ≡ 0 = sym g ∙ (d.fresh f).2 in absurd (omega (arith, x));
          number = rw (sockets-append s.posted, l.3, append-nil) d.number;
          rounds =
              rw (sockets-append s.posted, hand_offs-append s.posted, l.3, l.4, append-nil)
                (rw append-nil d.rounds);
          orders =
              rw (o, closings-append s.posted, l.5, d.orders, g)
                (ap (λ t. shutdown_tasks 2 (length s.cores) ++ t)
                  (for_cores-to_each force_close 0 s.cores));
        }
    by_timer (some to_stop) e =
        let g : stage s ≡ 3 = rw (o, e) refl in
        record {
          fresh = λ f. let x : 3 ≡ 0 = sym g ∙ (d.fresh f).2 in absurd (omega (arith, x));
          number = d.number;
          rounds = d.rounds;
          orders = d.orders ∙ ap (λ n. shutdown_tasks n (length s.cores)) g;
        }

stop-Dealt : (s : Server) → Ordered s → Dealt s → Dealt (stop s)
unfolding stop
stop-Dealt s i d =
    if-Dealt (not s.started || s.stopping) s _ (λ _. d)
      (λ h.
        let started : s.started ≡ true = ground (arith, h) in
        let t = i.asked (ground (arith, h)) in
        record {
          fresh = λ f. cc;
          number = d.number;
          rounds = d.rounds;
          orders = by_stage s.stopped refl t.0 t.1;
        })
  where
    by_stage :
        (b : Bool)
        → s.stopped ≡ b
        → s.shutdown_posted ≡ false
        → s.grace_timer ≡ none
        → closings s.posted
          ≡ shutdown_tasks
              (if s.stopped then 4 else stage_of_timer s.grace_timer true)
              (length s.cores)
    by_stage true o p t =
        let g : stage s ≡ 4 = rw o refl in
        rw o (d.orders ∙ ap (λ n. shutdown_tasks n (length s.cores)) g)
    by_stage false o p t =
        let g : stage s ≡ 0 = rw (o, t, p) refl in
        rw (o, t) (d.orders ∙ ap (λ n. shutdown_tasks n (length s.cores)) g)

step-Dealt : (e : Event) (s : Server) → Ordered s → Dealt s → Dealt (step e s)
unfolding on_stats_accept stats_accept_loop
step-Dealt (starts tls open6 stats) s i d = start-Dealt tls open6 stats s d
step-Dealt (accepts ec fd) s i d =
    if-Dealt (s.accepting && not s.stopped) _ s (λ h. on_accept-Dealt ec fd s (ground (arith, h)) d)
      (λ _. d)
step-Dealt stats_accepts s i d =
    if-Dealt (s.stats_accepting && not s.stopped) _ s
      (λ _.
        if-Dealt s.stopping _ _
          (λ _.
            same-Dealt s (record s { stats_accepting = false }) refl (λ o. (d.fresh o).0) refl refl
              refl refl d)
          (λ _.
            same-Dealt s (record s { stats_accepting = true }) refl (λ o. (d.fresh o).0) refl refl
              refl refl d))
      (λ _. d)
step-Dealt stops s i d = stop-Dealt s i d
step-Dealt runs_posted s i d =
    if-Dealt (s.shutdown_posted && not s.stopped) _ s
      (λ h. begin_shutdown-Dealt s (ground (arith, h)) (ground (arith, h)) i d) (λ _. d)
step-Dealt grace_ends s i d = if-Dealt s.stopped s _ (λ _. d) (λ o. on_grace-Dealt s o d)

run-Dealt : (es : List Event) (s : Server) → Ordered s → Dealt s → Dealt (run es s)
run-Dealt [] s i d = d
run-Dealt (e ∷ es) s i d = run-Dealt es (step e s) (step-Goes e s i).ordered (step-Dealt e s i d)

-- Whatever happens to a server: the sockets that its listener accepts, each of them and in order, are
-- dealt to its workers in turn, the first to the first worker and the next after the last to the first
-- again, until 2^64 have come. No worker is told to shut down before the shutdown begins; then the
-- workers 0, 1, and so on up to the last are each told once, and at the end of the grace period each
-- is told once, in this order, to close its QUIC connections, however often stop() is called.
pub run-deals :
    (cfg : ProxyConfig) (es : List Event)
    → let s = run es (new_server cfg) in
      (hand_offs s.posted ≡ deal (length s.cores) 0 (accepted es (new_server cfg)))
      × (closings s.posted ≡ shutdown_tasks (stage s) (length s.cores))
run-deals cfg es =
    let start : Dealt (new_server cfg) = record {
      fresh = λ e. (refl, refl, refl);
      number = refl;
      rounds = refl;
      orders = refl;
    } in
    let d = run-Dealt es (new_server cfg) (new_server-Ordered cfg) start in
    (
      d.rounds
          ∙ ap (deal (length (run es (new_server cfg)).cores) 0) (run-sockets es (new_server cfg)),
      d.orders,
    )
