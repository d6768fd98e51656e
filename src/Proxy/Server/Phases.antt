-- ===== src/Proxy/Server/Phases.antt =====
-- The shutdown of a ReverseProxyServer (src/proxy/reverse_proxy_server.cpp).
use reverse_proxy_server.Base.{
  ℕ, suc, ◌≤◌, ◌≡◌, refl, sym, ◌∙◌, subst, List, [], ◌∷◌, Option, none, some, Bool, true, false,
  not, ◌||◌, ◌&&◌, if◌then◌else◌, is_some, arith, inl, inr, ltb, Bool-cases,
}
use reverse_proxy_server.Http.Stream.{ErrorCode}
use reverse_proxy_server.Proxy.Config.{ProxyStats}
use reverse_proxy_server.Proxy.Load.{ProxyConfig}
use reverse_proxy_server.Proxy.Server.{
  Grace, to_finalize, to_stop, Server, new_server, accept_loop, stats_accept_loop, start, is_abort,
  on_accept, on_stats_accept, stop, begin_shutdown, finalize, hard_stop, on_grace, Event, starts,
  accepts, stats_accepts, stops, runs_posted, grace_ends, step, run,
}

-- How far the shutdown has come: 1 when it is posted, 2 in the grace period, 3 in the last beat, 4 when
-- all has stopped.
abbrev pub stage_of_timer : Option Grace → Bool → ℕ
stage_of_timer none posted = if posted then 1 else 0
stage_of_timer (some to_finalize) posted = 2
stage_of_timer (some to_stop) posted = 3

abbrev pub stage : Server → ℕ
stage s = if s.stopped then 4 else stage_of_timer s.grace_timer s.shutdown_posted

-- Shutdown has begun only after a stop, and is posted only before it begins.
pub record Ordered (s : Server) : Type 0 where
  pub before : s.shutdown_posted ≡ true → s.grace_timer ≡ none
  pub asked : s.stopping ≡ false → (s.shutdown_posted ≡ false) × (s.grace_timer ≡ none)
  pub begun : s.stopping ≡ true → 1 ≤ stage s

-- The parts of a server that its shutdown looks at.
abbrev pub Quiet : Server → Server → Type 0
Quiet s t =
    (t.shutdown_posted ≡ s.shutdown_posted)
    × (t.grace_timer ≡ s.grace_timer)
    × (t.stopping ≡ s.stopping)
    × (t.stopped ≡ s.stopped)

-- The order of a step, and that the stage does not go back.
pub record Goes (s t : Server) : Type 0 where
  pub ordered : Ordered t
  pub onward : stage s ≤ stage t

Quiet-Goes : (s t : Server) → Quiet s t → Ordered s → Goes s t
Quiet-Goes s t q i = record {
  ordered = record {
    before = λ e. q.1 ∙ i.before (sym q.0 ∙ e);
    asked = λ e. let a = i.asked (sym q.2 ∙ e) in (q.0 ∙ a.0, q.1 ∙ a.1);
    begun = λ e. let b = i.begun (sym q.2 ∙ e) in omega (arith, same, b);
  };
  onward = omega (arith, same);
}
  where
    same : stage t ≡ stage s
    same = rw (q.0, q.1, q.3) refl

Quiet-if : (b : Bool) (s x y : Server) → Quiet s x → Quiet s y → Quiet s (if b then x else y)
Quiet-if true s x y p q = p
Quiet-if false s x y p q = q

pub start-Quiet :
    (tls open6 : Bool) (stats : ProxyStats) (s : Server) → Quiet s (start tls open6 stats s)
unfolding start accept_loop stats_accept_loop
start-Quiet tls open6 stats s =
    Quiet-if s.started s _ _ (refl, refl, refl, refl)
      (Quiet-if (ltb 0 s.cfg.stats_port) s _ _ (refl, refl, refl, refl) (refl, refl, refl, refl))

on_accept-Quiet :
    (ec : Option ErrorCode) (fd : ℕ) (s : Server)
    → Quiet s (on_accept ec fd (record s { accepting = false }))
unfolding on_accept accept_loop
on_accept-Quiet none fd s = (refl, refl, refl, refl)
on_accept-Quiet (some ec) fd s =
    Quiet-if (is_abort ec) s _ _ (refl, refl, refl, refl) (refl, refl, refl, refl)

on_stats_accept-Quiet :
    (s : Server) → Quiet s (on_stats_accept (record s { stats_accepting = false }))
unfolding on_stats_accept stats_accept_loop
on_stats_accept-Quiet s =
    Quiet-if s.stopping s _ _ (refl, refl, refl, refl) (refl, refl, refl, refl)

pub stop-Goes : (s : Server) → Ordered s → Goes s (stop s)
unfolding stop
stop-Goes s i = by_state s.started s.stopping refl
  where
    by_state :
        (a b : Bool)
        → s.stopping ≡ b
        → Goes s (if not a || b then s else record s { stopping = true; shutdown_posted = true })
    by_state false b e = Quiet-Goes s s (refl, refl, refl, refl) i
    by_state true true e = Quiet-Goes s s (refl, refl, refl, refl) i
    by_state true false e =
        let (p, t) = i.asked e in
        record {
          ordered = record { before = λ _. t; asked = λ f. cc; begun = λ _. rw t (ground arith) };
          onward = rw (t, p) (ground arith);
        }

begin_shutdown-Goes :
    (s : Server)
    → Ordered s
    → s.shutdown_posted ≡ true
    → s.stopped ≡ false
    → Goes s (begin_shutdown (record s { shutdown_posted = false }))
      × (2 ≤ stage (begin_shutdown (record s { shutdown_posted = false })))
unfolding begin_shutdown
begin_shutdown-Goes s i p o =
    let t = i.before p in
    (
      record {
        ordered = record {
          before = λ e. cc;
          asked = λ e. let a = i.asked e in cc;
          begun = λ _. rw o (omega arith);
        };
        onward = rw (o, t, p) (omega arith);
      },
      rw o (omega arith),
    )

-- The timer ends, and the shutdown goes on.
on_grace-Goes :
    (s : Server)
    → Ordered s
    → s.stopped ≡ false
    → Goes s (on_grace s.grace_timer s)
      × (is_some s.grace_timer ≡ true → suc (stage s) ≤ stage (on_grace s.grace_timer s))
unfolding on_grace finalize hard_stop
on_grace-Goes s i o = by_timer s.grace_timer refl
  where
    by_timer :
        (g : Option Grace)
        → s.grace_timer ≡ g
        → Goes s (on_grace g s) × (is_some g ≡ true → suc (stage s) ≤ stage (on_grace g s))
    by_timer none e = (Quiet-Goes s s (refl, refl, refl, refl) i, λ h. cc)
    by_timer (some to_finalize) e = (
      record {
        ordered = record {
          before = λ p. let n = i.before p in cc;
          asked = λ p. let a = i.asked p in cc;
          begun = λ _. rw o (omega arith);
        };
        onward = rw (o, e) (omega arith);
      },
      λ _. rw (o, e) (omega arith),
    )
    by_timer (some to_stop) e = (
      record {
        ordered = record {
          before = λ p. refl;
          asked = λ p. let a = i.asked p in (a.0, refl);
          begun = λ _. omega arith;
        };
        onward = rw (o, e) (omega arith);
      },
      λ _. rw (o, e) (omega arith),
    )

if-Goes :
    (b : Bool) (s x y : Server) → (b ≡ true → Goes s x) → Goes s y → Goes s (if b then x else y)
if-Goes true s x y h k = h refl
if-Goes false s x y h k = k

pub if_true : (b : Bool) (x y : Server) → b ≡ true → (if b then x else y) ≡ x
if_true b x y e = rw e refl

pub if_false : (b : Bool) (x y : Server) → b ≡ false → (if b then x else y) ≡ y
if_false b x y e = rw e refl

pub step-Goes : (e : Event) (s : Server) → Ordered s → Goes s (step e s)
step-Goes (starts tls open6 stats) s i = Quiet-Goes s _ (start-Quiet tls open6 stats s) i
step-Goes (accepts ec fd) s i =
    if-Goes (s.accepting && not s.stopped) s _ s (λ _. Quiet-Goes s _ (on_accept-Quiet ec fd s) i)
      (Quiet-Goes s s (refl, refl, refl, refl) i)
step-Goes stats_accepts s i =
    if-Goes (s.stats_accepting && not s.stopped) s _ s
      (λ _. Quiet-Goes s _ (on_stats_accept-Quiet s) i) (Quiet-Goes s s (refl, refl, refl, refl) i)
step-Goes stops s i = stop-Goes s i
step-Goes runs_posted s i =
    if-Goes (s.shutdown_posted && not s.stopped) s _ s
      (λ h. (begin_shutdown-Goes s i (ground (arith, h)) (ground (arith, h))).0)
      (Quiet-Goes s s (refl, refl, refl, refl) i)
step-Goes grace_ends s i = elim (Bool-cases s.stopped) [
  | inl o ↦
      subst (Goes s) (sym (if_true s.stopped s _ o)) (Quiet-Goes s s (refl, refl, refl, refl) i)
  | inr o ↦ subst (Goes s) (sym (if_false s.stopped s _ o)) (on_grace-Goes s i o).0
]

run-Goes : (es : List Event) (s : Server) → Ordered s → Goes s (run es s)
run-Goes [] s i = Quiet-Goes s s (refl, refl, refl, refl) i
run-Goes (e ∷ es) s i =
    let g = step-Goes e s i in
    let h = run-Goes es (step e s) g.ordered in
    record { ordered = h.ordered; onward = omega (arith, g.onward, h.onward) }

stop-stopping : (s : Server) → s.started ≡ true → (stop s).stopping ≡ true
unfolding stop
stop-stopping s o = ground (arith, o)

-- stop() on a started server.
stop-begins : (s : Server) → Ordered s → s.started ≡ true → 1 ≤ stage (stop s)
stop-begins s i o = (stop-Goes s i).ordered.begun (stop-stopping s o)

runs_posted-advances : (s : Server) → Ordered s → 1 ≤ stage s → 2 ≤ stage (step runs_posted s)
runs_posted-advances s i h = elim (Bool-cases (s.shutdown_posted && not s.stopped)) [
  | inl e ↦
      subst (λ x. 2 ≤ stage x) (sym (if_true _ _ s e))
        (begin_shutdown-Goes s i (ground (arith, e)) (ground (arith, e))).1
  | inr e ↦
      subst (λ x. 2 ≤ stage x) (sym (if_false _ _ s e))
        (late s.stopped s.shutdown_posted s.grace_timer e h)
]
  where
    late :
        (o p : Bool) (g : Option Grace)
        → (p && not o) ≡ false
        → 1 ≤ (if o then 4 else stage_of_timer g p)
        → 2 ≤ (if o then 4 else stage_of_timer g p)
    late true p g e h = omega arith
    late false true g e h = cc
    late false false none e h = absurd (omega (arith, h))
    late false false (some to_finalize) e h = omega arith
    late false false (some to_stop) e h = omega arith

grace_ends-advances :
    (n : ℕ) (s : Server)
    → Ordered s
    → 2 ≤ n
    → n ≤ 3
    → n ≤ stage s
    → suc n ≤ stage (step grace_ends s)
grace_ends-advances n s i l u h = elim (Bool-cases s.stopped) [
  | inl o ↦ subst (λ x. suc n ≤ stage x) (sym (if_true s.stopped s _ o)) (rw o (omega (arith, u)))
  | inr o ↦
      let on : is_some s.grace_timer ≡ true =
        armed s.stopped s.shutdown_posted s.grace_timer o (omega (arith, l, h)) in
      let g = (on_grace-Goes s i o).1 on in
      subst (λ x. suc n ≤ stage x) (sym (if_false s.stopped s _ o)) (omega (arith, g, h))
]
  where
    armed :
        (o p : Bool) (g : Option Grace)
        → o ≡ false
        → 2 ≤ (if o then 4 else stage_of_timer g p)
        → is_some g ≡ true
    armed true p g e h = cc
    armed false true none e h = absurd (omega (arith, h))
    armed false false none e h = absurd (omega (arith, h))
    armed false p (some g) e h = refl

at_last : (s : Server) → 4 ≤ stage s → s.stopped ≡ true
at_last s h = by_stage s.stopped s.grace_timer s.shutdown_posted h
  where
    by_stage :
        (o : Bool) (g : Option Grace) (p : Bool)
        → 4 ≤ (if o then 4 else stage_of_timer g p)
        → o ≡ true
    by_stage true g p h = refl
    by_stage false none true h = absurd (omega (arith, h))
    by_stage false none false h = absurd (omega (arith, h))
    by_stage false (some to_finalize) p h = absurd (omega (arith, h))
    by_stage false (some to_stop) p h = absurd (omega (arith, h))

pub new_server-Ordered : (cfg : ProxyConfig) → Ordered (new_server cfg)
new_server-Ordered cfg = record { before = λ e. cc; asked = λ e. (refl, refl); begun = λ e. cc }

-- A server that has started and is told to stop comes to a halt, once the ingress thread has run what
-- was posted to it and the grace timer has ended twice after that, whatever else happens before and in
-- between: further stops, starts, accepted sockets and failed accepts.
pub stop-stops :
    (cfg : ProxyConfig) (xs ys zs ws : List Event)
    → (run xs (new_server cfg)).started ≡ true
    → let a = run ys (stop (run xs (new_server cfg))) in
      let b = run zs (step runs_posted a) in
      let c = run ws (step grace_ends b) in (step grace_ends c).stopped ≡ true
stop-stops cfg xs ys zs ws o =
    let s = run xs (new_server cfg) in
    let i = (run-Goes xs (new_server cfg) (new_server-Ordered cfg)).ordered in
    let g1 = stop-Goes s i in
    let r1 = run-Goes ys (stop s) g1.ordered in
    let a = run ys (stop s) in
    let n1 : 1 ≤ stage a = omega (arith, stop-begins s i o, r1.onward) in
    let g2 = step-Goes runs_posted a r1.ordered in
    let r2 = run-Goes zs (step runs_posted a) g2.ordered in
    let b = run zs (step runs_posted a) in
    let n2 : 2 ≤ stage b = omega (arith, runs_posted-advances a r1.ordered n1, r2.onward) in
    let g3 = step-Goes grace_ends b r2.ordered in
    let r3 = run-Goes ws (step grace_ends b) g3.ordered in
    let c = run ws (step grace_ends b) in
    let n3 : 3 ≤ stage c =
      omega (arith, grace_ends-advances 2 b r2.ordered (omega arith) (omega arith) n2, r3.onward) in
    at_last (step grace_ends c) (grace_ends-advances 3 c r3.ordered (omega arith) (omega arith) n3)
