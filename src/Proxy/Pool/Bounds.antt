-- ===== src/Proxy/Pool/Bounds.antt =====
-- The number of idle connections that an endpoint of the pool keeps (src/proxy/upstream_pool.cpp).
use reverse_proxy_server.Base.{
  Bool, ℕ, zero, suc, ◌≤◌, ◌≡◌, refl, List, [], ◌∷◌, ◌++◌, Option, none, some, arith, length,
  length-append, All, get_elem?, inl, inr, Bool-cases,
}
use reverse_proxy_server.Text.{Bytes}
use reverse_proxy_server.Proxy.Config.{BackendEndpoint, is_quic}
use reverse_proxy_server.Proxy.Pool.{
  EndpointEntry, Pool, empty_pool, add_backend, candidates, set_idle, check_out, connect_entry,
  connect_nth, async_connect, max_idle_per_endpoint, release_in, release,
}

abbrev pub IsBounded : List EndpointEntry → Type 0
IsBounded = All (λ (e : EndpointEntry). length e.idle ≤ max_idle_per_endpoint)

-- What the pool's owner does with it.
pub data Call : Type 0 where
  adds : BackendEndpoint → Call
  connects : (BackendEndpoint → Bool) → Bytes → Call
  releases : BackendEndpoint → ℕ → Call

unfoldable pub step : Pool → Call → Pool
step p (adds be) = add_backend p be
step p (connects resolves id) = (async_connect resolves p id).0
step p (releases be c) = release p be c

unfoldable pub run : Pool → List Call → Pool
unfolding step
run p [] = p
run p (c ∷ cs) = run (step p c) cs

IsBounded-append : (xs ys : List EndpointEntry) → IsBounded xs → IsBounded ys → IsBounded (xs ++ ys)
IsBounded-append [] ys hx hy = hy
IsBounded-append (x ∷ xs) ys hx hy = (hx.0, IsBounded-append xs ys hx.1 hy)

set_idle-IsBounded :
    (i : ℕ) (idle : List ℕ) (es : List EndpointEntry)
    → length idle ≤ max_idle_per_endpoint
    → IsBounded es
    → IsBounded (set_idle i idle es)
unfolding set_idle
set_idle-IsBounded i idle [] h b = tt
set_idle-IsBounded zero idle (e ∷ es) h b = (h, b.1)
set_idle-IsBounded (suc i) idle (e ∷ es) h b = (b.0, set_idle-IsBounded i idle es h b.1)

release_in-IsBounded :
    (be : BackendEndpoint) (c : ℕ) (es : List EndpointEntry)
    → IsBounded es
    → IsBounded (release_in be c es)
unfolding release_in
release_in-IsBounded be c [] b = tt
release_in-IsBounded be c (e ∷ es) b =
    ground (arith, release_in-IsBounded be c es b.1, length-append e.idle (c ∷ []))

get_elem?-IsBounded :
    (i : ℕ) (es : List EndpointEntry) (e : EndpointEntry)
    → get_elem? es i ≡ some e
    → IsBounded es
    → length e.idle ≤ max_idle_per_endpoint
get_elem?-IsBounded i [] e h b = cc
get_elem?-IsBounded zero (x ∷ es) e h b = ground (arith, b.0)
get_elem?-IsBounded (suc i) (x ∷ es) e h b = get_elem?-IsBounded i es e h b.1

check_out-IsBounded :
    (resolves : BackendEndpoint → Bool) (p : Pool) (i : ℕ) (e : EndpointEntry) (idle : List ℕ)
    → IsBounded p.endpoints
    → length idle ≤ max_idle_per_endpoint
    → IsBounded (check_out resolves p i e idle).0.endpoints
unfolding check_out
check_out-IsBounded resolves p i e [] b h = b
check_out-IsBounded resolves p i e (c ∷ rest) b h =
    set_idle-IsBounded i rest p.endpoints (omega arith) b

connect_entry-IsBounded :
    (resolves : BackendEndpoint → Bool) (p : Pool) (i : ℕ) (o : Option EndpointEntry)
    → get_elem? p.endpoints i ≡ o
    → IsBounded p.endpoints
    → IsBounded (connect_entry resolves p i o).0.endpoints
unfolding connect_entry
connect_entry-IsBounded resolves p i none h b = b
connect_entry-IsBounded resolves p i (some e) h b = elim (Bool-cases (is_quic e.be.protocol)) [
  | inl q ↦ rw q b
  | inr t ↦
      rw t (check_out-IsBounded resolves p i e e.idle b (get_elem?-IsBounded i p.endpoints e h b))
]

connect_nth-IsBounded :
    (resolves : BackendEndpoint → Bool) (p : Pool) (cs : List ℕ)
    → IsBounded p.endpoints
    → IsBounded (connect_nth resolves p cs).0.endpoints
unfolding connect_nth
connect_nth-IsBounded resolves p [] b = b
connect_nth-IsBounded resolves p (c ∷ cs) b = connect_entry-IsBounded resolves _ _ _ refl b

step-IsBounded : (p : Pool) (c : Call) → IsBounded p.endpoints → IsBounded (step p c).endpoints
unfolding step async_connect
step-IsBounded p (adds be) b = unfold add_backend in IsBounded-append p.endpoints _ b (omega arith)
step-IsBounded p (connects resolves id) b =
    connect_nth-IsBounded resolves p (candidates id p.endpoints) b
step-IsBounded p (releases be c) b = elim (Bool-cases (is_quic be.protocol)) [
  | inl q ↦ unfold release in rw q b
  | inr t ↦ unfold release in rw t (release_in-IsBounded be c p.endpoints b)
]

run-IsBounded_from :
    (p : Pool) (cs : List Call) → IsBounded p.endpoints → IsBounded (run p cs).endpoints
unfolding run
run-IsBounded_from p [] b = b
run-IsBounded_from p (c ∷ cs) b = run-IsBounded_from (step p c) cs (step-IsBounded p c b)

-- After any calls on a new pool every endpoint keeps at most eight idle connections.
pub run-IsBounded : (cs : List Call) → IsBounded (run empty_pool cs).endpoints
run-IsBounded cs = run-IsBounded_from empty_pool cs tt
