-- ===== src/Proxy/Pool/Ownership.antt =====
-- Who holds a connection: an endpoint of the pool (src/proxy/upstream_pool.cpp), or one of the relays
-- that have taken it.
use reverse_proxy_server.Base.{
  Bool, ℕ, zero, suc, ◌+◌, ◌≤◌, ◌%◌, ◌^◌, ◌≡◌, refl, ap, subst, ==_iff, List, [], ◌∷◌, ◌++◌, Option,
  none, some, arith, ◌==◌, if◌then◌else◌, get_elem?, inl, inr, Bool-cases,
}
use reverse_proxy_server.Text.{Bytes}
use reverse_proxy_server.Proxy.Config.{BackendEndpoint, is_quic}
use reverse_proxy_server.Proxy.Pool.{
  EndpointEntry, Pool, Connect, refused, reused, handshake, unresolved, quic_connect,
  quic_connect_fresh, empty_pool, add_backend, candidates, set_idle, check_out, connect_fresh_to,
  connect_entry, connect_nth, async_connect, release_in, release,
}

abbrev pub count : ℕ → List ℕ → ℕ
count c [] = 0
count c (x ∷ xs) = (if x == c then 1 else 0) + count c xs

abbrev pub held : ℕ → List EndpointEntry → ℕ
held c [] = 0
held c (e ∷ es) = count c e.idle + held c es

-- The pool, and the connections that relays have taken or opened and not yet given up.
pub record Holding : Type 0 where
  pub pool : Pool
  pub out : List ℕ

-- A relay takes the connection that async_connect hands out.
abbrev pub taking : List ℕ → Pool × Connect → Holding
taking out (p, reused c be) = record { pool = p; out = c ∷ out }
taking out (p, refused e) = record { pool = p; out = out }
taking out (p, handshake be) = record { pool = p; out = out }
taking out (p, unresolved be) = record { pool = p; out = out }
taking out (p, quic_connect be) = record { pool = p; out = out }
taking out (p, quic_connect_fresh be) = record { pool = p; out = out }

pub data Use (s : Holding) : Holding → Type 0 where
  adds : (be : BackendEndpoint) → Use s (record s { pool = add_backend s.pool be })
  connects :
      (resolves : BackendEndpoint → Bool) (id : Bytes)
      → Use s (taking s.out (async_connect resolves s.pool id))
  -- A handshake completes with a stream that nobody holds.
  opens :
      (c : ℕ) → held c s.pool.endpoints + count c s.out ≡ 0 → Use s (record s { out = c ∷ s.out })
  releases :
      (before : List ℕ) (c : ℕ) (after : List ℕ) (be : BackendEndpoint)
      → s.out ≡ before ++ c ∷ after
      → Use s (record { pool = release s.pool be c; out = before ++ after })
  closes :
      (before : List ℕ) (c : ℕ) (after : List ℕ)
      → s.out ≡ before ++ c ∷ after
      → Use s (record s { out = before ++ after })

pub data Uses (s : Holding) : Holding → Type 0 where
  no_use : Uses s s
  one_more : {t u : Holding} → Uses s t → Use t u → Uses s u

count-append : (c : ℕ) (xs ys : List ℕ) → count c (xs ++ ys) ≡ count c xs + count c ys
count-append c [] ys = omega arith
count-append c (x ∷ xs) ys = omega (arith, count-append c xs ys)

held-append : (c : ℕ) (es fs : List EndpointEntry) → held c (es ++ fs) ≡ held c es + held c fs
held-append c [] fs = omega arith
held-append c (e ∷ es) fs = omega (arith, held-append c es fs)

-- The connection at the front of an entry leaves the pool.
held-set_idle :
    (c x i : ℕ) (rest : List ℕ) (es : List EndpointEntry) (e : EndpointEntry)
    → get_elem? es i ≡ some e
    → e.idle ≡ x ∷ rest
    → held c es ≡ (if x == c then 1 else 0) + held c (set_idle i rest es)
unfolding set_idle
held-set_idle c x i rest [] e g h = cc
held-set_idle c x zero rest (f ∷ es) e g h =
    let same : f.idle ≡ x ∷ rest = cc in omega (arith, ap (count c) same)
held-set_idle c x (suc i) rest (f ∷ es) e g h = omega (arith, held-set_idle c x i rest es e g h)

held-release_in :
    (c x : ℕ) (be : BackendEndpoint) (es : List EndpointEntry)
    → held c (release_in be x es) ≤ held c es + (if x == c then 1 else 0)
unfolding release_in
held-release_in c x be [] = omega arith
held-release_in c x be (e ∷ es) =
    ground (arith, held-release_in c x be es, count-append c e.idle (x ∷ []))

-- In how many places a connection is.
abbrev places : ℕ → Holding → ℕ
places c s = held c s.pool.endpoints + count c s.out

check_out-places :
    (resolves : BackendEndpoint → Bool) (c : ℕ) (out : List ℕ) (p : Pool) (i : ℕ)
    (e : EndpointEntry) (idle : List ℕ)
    → get_elem? p.endpoints i ≡ some e
    → e.idle ≡ idle
    → places c (taking out (check_out resolves p i e idle)) ≡ held c p.endpoints + count c out
unfolding check_out connect_fresh_to
check_out-places resolves c out p i e [] g h = elim (Bool-cases (resolves e.be)) [
  | inl y ↦ rw y refl
  | inr n ↦ rw n refl
]
check_out-places resolves c out p i e (x ∷ rest) g h =
    omega (arith, held-set_idle c x i rest p.endpoints e g h)

connect_entry-places :
    (resolves : BackendEndpoint → Bool) (c : ℕ) (out : List ℕ) (p : Pool) (i : ℕ)
    (o : Option EndpointEntry)
    → get_elem? p.endpoints i ≡ o
    → places c (taking out (connect_entry resolves p i o)) ≡ held c p.endpoints + count c out
unfolding connect_entry
connect_entry-places resolves c out p i none g = refl
connect_entry-places resolves c out p i (some e) g = elim (Bool-cases (is_quic e.be.protocol)) [
  | inl q ↦ rw q refl
  | inr t ↦ rw t (check_out-places resolves c out p i e e.idle g refl)
]

connect_nth-places :
    (resolves : BackendEndpoint → Bool) (c : ℕ) (out : List ℕ) (p : Pool) (cs : List ℕ)
    → places c (taking out (connect_nth resolves p cs)) ≡ held c p.endpoints + count c out
unfolding connect_nth
connect_nth-places resolves c out p [] = refl
connect_nth-places resolves c out p (x ∷ cs) =
    connect_entry-places resolves c out (record p { rr_index = (p.rr_index + 1) % 2 ^ 64 }) _ _ refl

add_backend-places :
    (c : ℕ) (s : Holding) (be : BackendEndpoint)
    → places c (record s { pool = add_backend s.pool be }) ≡ places c s
unfolding add_backend
add_backend-places c s be =
    omega (arith, held-append c s.pool.endpoints (record { be = be; idle = [] } ∷ []))

release-held :
    (c x : ℕ) (p : Pool) (be : BackendEndpoint)
    → held c (release p be x).endpoints ≤ held c p.endpoints + (if x == c then 1 else 0)
unfolding release
release-held c x p be = elim (Bool-cases (is_quic be.protocol)) [
  | inl q ↦ rw q (omega arith)
  | inr t ↦ rw t (held-release_in c x be p.endpoints)
]

count-middle :
    (c x : ℕ) (before after : List ℕ)
    → count c (before ++ x ∷ after) ≡ (if x == c then 1 else 0) + count c (before ++ after)
count-middle c x before after =
    omega (arith, count-append c before (x ∷ after), count-append c before after)

Use-places : (c : ℕ) (s t : Holding) → Use s t → places c s ≤ 1 → places c t ≤ 1
unfolding async_connect
Use-places c s t (adds be) h = omega (arith, add_backend-places c s be)
Use-places c s t (connects resolves id) h =
    omega (arith, connect_nth-places resolves c s.out s.pool (candidates id s.pool.endpoints))
Use-places c s t (opens x fresh) h = elim (Bool-cases (x == c)) [
  | inl e ↦
      let same : x ≡ c = (==_iff x c).0 e in
      rw e (omega (arith, subst (λ y. held y s.pool.endpoints + count y s.out ≡ 0) same fresh))
  | inr e ↦ rw e (omega arith)
]
Use-places c s t (releases before x after be e) h =
    omega (arith, release-held c x s.pool be, count-middle c x before after, ap (count c) e)
Use-places c s t (closes before x after e) h =
    omega (arith, count-middle c x before after, ap (count c) e)

-- Whatever backends are added, groups asked for, connections opened, released and closed, and in
-- whatever order: if every new connection is one that nobody holds yet, then no connection ever is in
-- two places at once: not idle twice in the pool, not with two relays, and not idle in the pool while
-- a relay still uses it.
pub Uses-exclusive :
    (s : Holding) (c : ℕ)
    → Uses (record { pool = empty_pool; out = [] }) s
    → held c s.pool.endpoints + count c s.out ≤ 1
Uses-exclusive s c no_use = omega arith
Uses-exclusive s c (one_more {t} us u) = Use-places c t s u (Uses-exclusive t c us)
