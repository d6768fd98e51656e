-- ===== src/Proxy/Server/Tasks.antt =====
-- The tasks that a ReverseProxyServer (src/proxy/reverse_proxy_server.cpp) posts to its workers, and how
-- a list of them is read.
use reverse_proxy_server.Base.{
  ℕ, zero, suc, ◌+◌, ◌%◌, ◌^◌, ◌≡◌, refl, ap, ◌∙◌, List, [], ◌∷◌, ◌++◌, arith, length,
}
use reverse_proxy_server.Proxy.Core.{ProxyCore}
use reverse_proxy_server.Proxy.Server.{Task, hand_off, shut_down, force_close, for_cores}

-- The sockets of the hand-offs, the hand-offs, and the other tasks.
abbrev pub sockets : List Task → List ℕ
sockets [] = []
sockets (hand_off w fd ∷ ts) = fd ∷ sockets ts
sockets (shut_down w ∷ ts) = sockets ts
sockets (force_close w ∷ ts) = sockets ts

abbrev pub hand_offs : List Task → List Task
hand_offs [] = []
hand_offs (hand_off w fd ∷ ts) = hand_off w fd ∷ hand_offs ts
hand_offs (shut_down w ∷ ts) = hand_offs ts
hand_offs (force_close w ∷ ts) = hand_offs ts

abbrev pub closings : List Task → List Task
closings [] = []
closings (hand_off w fd ∷ ts) = closings ts
closings (shut_down w ∷ ts) = shut_down w ∷ closings ts
closings (force_close w ∷ ts) = force_close w ∷ closings ts

-- Sockets dealt to `n` workers in turn, the next one being number `i`.
abbrev pub deal : ℕ → ℕ → List ℕ → List Task
deal n i [] = []
deal n i (fd ∷ fds) = hand_off (i % 2 ^ 64 % n) fd ∷ deal n (i + 1) fds

-- A task for each of `n` workers, from the worker `i` on.
abbrev pub to_each : (ℕ → Task) → ℕ → ℕ → List Task
to_each t i zero = []
to_each t i (suc n) = t i ∷ to_each t (i + 1) n

-- The tasks of a shutdown of `n` workers at a stage.
abbrev pub shutdown_tasks : ℕ → ℕ → List Task
shutdown_tasks zero n = []
shutdown_tasks (suc zero) n = []
shutdown_tasks (suc (suc zero)) n = to_each shut_down 0 n
shutdown_tasks (suc (suc (suc k))) n = to_each shut_down 0 n ++ to_each force_close 0 n

pub for_cores-to_each :
    (t : ℕ → Task) (i : ℕ) (cs : List ProxyCore) → for_cores t i cs ≡ to_each t i (length cs)
unfolding for_cores
for_cores-to_each t i [] = refl
for_cores-to_each t i (c ∷ cs) =
    let e : suc i ≡ i + 1 = omega arith in
    ap (◌∷◌ (t i)) (for_cores-to_each t (suc i) cs ∙ rw e refl)

pub sockets-append : (a b : List Task) → sockets (a ++ b) ≡ sockets a ++ sockets b
sockets-append [] b = refl
sockets-append (hand_off w fd ∷ a) b = ap (◌∷◌ fd) (sockets-append a b)
sockets-append (shut_down w ∷ a) b = sockets-append a b
sockets-append (force_close w ∷ a) b = sockets-append a b

pub hand_offs-append : (a b : List Task) → hand_offs (a ++ b) ≡ hand_offs a ++ hand_offs b
hand_offs-append [] b = refl
hand_offs-append (hand_off w fd ∷ a) b = ap (◌∷◌ (hand_off w fd)) (hand_offs-append a b)
hand_offs-append (shut_down w ∷ a) b = hand_offs-append a b
hand_offs-append (force_close w ∷ a) b = hand_offs-append a b

pub closings-append : (a b : List Task) → closings (a ++ b) ≡ closings a ++ closings b
closings-append [] b = refl
closings-append (hand_off w fd ∷ a) b = closings-append a b
closings-append (shut_down w ∷ a) b = ap (◌∷◌ (shut_down w)) (closings-append a b)
closings-append (force_close w ∷ a) b = ap (◌∷◌ (force_close w)) (closings-append a b)

pub deal-append :
    (n i : ℕ) (l : List ℕ) (fd : ℕ)
    → deal n i (l ++ fd ∷ []) ≡ deal n i l ++ hand_off ((i + length l) % 2 ^ 64 % n) fd ∷ []
deal-append n i [] fd = let e : i + 0 ≡ i = omega arith in rw e refl
deal-append n i (x ∷ l) fd =
    let e : i + 1 + length l ≡ i + suc (length l) = omega arith in
    ap (◌∷◌ (hand_off (i % 2 ^ 64 % n) x)) (rw (← e) (deal-append n (i + 1) l fd))

-- The tasks for all workers hand off nothing.
pub for_cores_lem :
    (i : ℕ) (cs : List ProxyCore)
    → (sockets (for_cores shut_down i cs) ≡ [])
      × (hand_offs (for_cores shut_down i cs) ≡ [])
      × (closings (for_cores shut_down i cs) ≡ for_cores shut_down i cs)
      × (sockets (for_cores force_close i cs) ≡ [])
      × (hand_offs (for_cores force_close i cs) ≡ [])
      × (closings (for_cores force_close i cs) ≡ for_cores force_close i cs)
unfolding for_cores
for_cores_lem i [] = (refl, refl, refl, refl, refl, refl)
for_cores_lem i (c ∷ cs) =
    let r = for_cores_lem (suc i) cs in
    (r.0, r.1, ap (◌∷◌ (shut_down i)) r.2, r.3, r.4, ap (◌∷◌ (force_close i)) r.5)
