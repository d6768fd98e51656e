-- ===== src/Proxy/Router/Choice.antt =====
-- Which rule the router chooses.
use reverse_proxy_server.Base.{
  ◌≡◌, ◌≢◌, refl, inl, inr, List, [], ◌∷◌, Option, none, some, arith, All, false, Bool-cases,
}
use reverse_proxy_server.Text.{Bytes, str_eq, str_eq_iff}
use reverse_proxy_server.Http.Message.{HttpRequestHead}
use reverse_proxy_server.Proxy.Router.{Rule, find_rule, wildcard, host_of, route}

-- `r` is the first of the rules with this host.
pub data First (host : Bytes) (r : Rule) : List Rule → Type 0 where
  here : {rules : List Rule} → r.host_match ≡ host → First host r (r ∷ rules)
  there :
      {q : Rule} {rules : List Rule}
      → q.host_match ≢ host
      → First host r rules
      → First host r (q ∷ rules)

-- No rule has this host.
abbrev pub Unmatched : Bytes → List Rule → Type 0
Unmatched host = All (λ (r : Rule). r.host_match ≢ host)

-- The choice that the configuration promises: an exact host before a wildcard, an earlier rule before
-- a later one, and the empty name if there is neither.
pub data Chooses (rules : List Rule) (host backend : Bytes) : Type 0 where
  exact : (r : Rule) → First host r rules → backend ≡ r.backend_id → Chooses rules host backend
  fallback :
      (r : Rule)
      → Unmatched host rules
      → First wildcard r rules
      → backend ≡ r.backend_id
      → Chooses rules host backend
  nothing :
      Unmatched host rules → Unmatched wildcard rules → backend ≡ [] → Chooses rules host backend

abbrev Found : Bytes → List Rule → Option Bytes → Type 0
Found host rules none = Unmatched host rules
Found host rules (some b) = (r : Rule) × First host r rules × (b ≡ r.backend_id)

find_rule-Found : (host : Bytes) (rules : List Rule) → Found host rules (find_rule host rules)
unfolding find_rule
find_rule-Found host [] = tt
find_rule-Found host (r ∷ rules) = elim (Bool-cases (str_eq r.host_match host)) [
  | inl e ↦ rw e (r, here ((str_eq_iff r.host_match host).0 e), refl)
  | inr e ↦ rw e (later (find_rule host rules) (differs e) (find_rule-Found host rules))
]
  where
    differs : str_eq r.host_match host ≡ false → r.host_match ≢ host
    differs e = ground (arith, str_eq_iff r.host_match host)

    later : (o : Option Bytes) → r.host_match ≢ host → Found host rules o → Found host (r ∷ rules) o
    later none ne f = (ne, f)
    later (some b) ne (q, f, e) = (q, there ne f, e)

-- `route` answers the backend of the first rule for the request's host; if no rule names that host,
-- the backend of the first wildcard rule; and the empty name if there is no wildcard rule either. A
-- request without a host field counts as one for the empty host.
pub route-Chooses :
    (rules : List Rule) (req : HttpRequestHead) → Chooses rules (host_of req) (route rules req)
unfolding route
route-Chooses rules req =
    choose (find_rule (host_of req) rules) refl (find_rule wildcard rules) refl
  where
    found : (host : Bytes) (o : Option Bytes) → find_rule host rules ≡ o → Found host rules o
    found host o e = rw e at (find_rule-Found host rules)

    choose :
        (o : Option Bytes)
        → find_rule (host_of req) rules ≡ o
        → (w : Option Bytes) → find_rule wildcard rules ≡ w
        → Chooses rules (host_of req) (route rules req)
    choose (some b) e w e' =
        let (r, first, same) = found (host_of req) (some b) e in rw (e, route) (exact r first same)
    choose none e (some b) e' =
        let (r, first, same) = found wildcard (some b) e' in
        rw (e, route) (rw e' (fallback r (found (host_of req) none e) first same))
    choose none e none e' =
        rw (e, route) (rw e' (nothing (found (host_of req) none e) (found wildcard none e') refl))
