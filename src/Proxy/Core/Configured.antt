-- ===== src/Proxy/Core/Configured.antt =====
-- What a worker (src/proxy/proxy_core.cpp) is made of by a configuration file.
use reverse_proxy_server.Base.{
  ℕ, ◌<◌, ◌^◌, ◌≡◌, sym, ap, ◌∙◌, subst, List, [], ◌∷◌, ◌++◌, append_assoc, append-nil, map, Option,
  none, some, value_or, ◌+◌, ◌%◌, suc, refl, ◌↔◌, arith,
}
use reverse_proxy_server.Text.{Bytes, codes, str_eq, str_eq_iff}
use reverse_proxy_server.Http.Message.{ℤ, pos, negsuc}
use reverse_proxy_server.Proxy.Config.{BackendEndpoint, quic, ProxyStats}
use reverse_proxy_server.Proxy.Load.{
  TomlTable, TomlDocument, RouteRule, ProxyConfig, to_port, read_backend, read_route, read_array,
  load_config, protocol_of,
}
use reverse_proxy_server.Proxy.Load.Loading.{entries, bind-some, read_array-map}
use reverse_proxy_server.Proxy.Router.{Rule, add_rule}
use reverse_proxy_server.Proxy.Pool.{Pool, EndpointEntry, empty_pool, add_backend}
use reverse_proxy_server.Proxy.Core.{add_routes, add_backends, new_core}

abbrev pub rule_of : RouteRule → Rule
rule_of r = record { host_match = r.host_match; backend_id = r.backend_id }

abbrev pub fresh_entry : BackendEndpoint → EndpointEntry
fresh_entry be = record { be = be; idle = [] }

add_routes_lem :
    (rules : List Rule) (rs : List RouteRule) → add_routes rules rs ≡ rules ++ map rule_of rs
unfolding add_routes add_rule
add_routes_lem rules [] = sym (append-nil rules)
add_routes_lem rules (r ∷ rs) =
    add_routes_lem (add_rule rules r.host_match r.backend_id) rs
    ∙ append_assoc rules (rule_of r ∷ []) (map rule_of rs)

add_backends_lem :
    (p : Pool) (bes : List BackendEndpoint)
    → (add_backends p bes).endpoints ≡ p.endpoints ++ map fresh_entry bes
unfolding add_backends add_backend
add_backends_lem p [] = sym (append-nil p.endpoints)
add_backends_lem p (be ∷ bes) =
    add_backends_lem (add_backend p be) bes
    ∙ append_assoc p.endpoints (fresh_entry be ∷ []) (map fresh_entry bes)

-- A number of the file in 16 bits: it differs from it by a multiple of 2 ^ 16.
abbrev pub IsPort : ℤ → ℕ → Type 0
IsPort (pos n) p = (p < 2 ^ 16) × (p ≡ n % 2 ^ 16)
IsPort (negsuc n) p = (p < 2 ^ 16) × ((p + suc n) % 2 ^ 16 ≡ 0)

-- A rule that says what the table of a route says.
pub record RuleIs (v : TomlTable) (r : Rule) : Type 0 where
  pub host : v.string_at (codes "host") ≡ some r.host_match
  pub backend : v.string_at (codes "backend") ≡ some r.backend_id

-- An endpoint that is what the table of a backend says, with no idle connection. Without a weight it
-- has 1, and it speaks QUIC just if the protocol is h3.
pub record EndpointIs (v : TomlTable) (e : EndpointEntry) : Type 0 where
  pub id : v.string_at (codes "id") ≡ some e.be.backend_id
  pub host : v.string_at (codes "host") ≡ some e.be.host
  pub written_port : ℤ
  pub port : v.int_at (codes "port") ≡ some written_port
  pub port_bits : IsPort written_port e.be.port
  pub weight : e.be.weight ≡ value_or (v.int_at (codes "weight")) (pos 1)
  pub protocol : (e.be.protocol ≡ quic) ↔ (v.string_at (codes "protocol") ≡ some (codes "h3"))
  pub unused : e.idle ≡ []

-- Two lists of one length whose elements are related one by one.
abbrev pub Each {ℓ κ} : {A : Type ℓ} {B : Type κ} → (A → B → Type 0) → List A → List B → Type 0
Each R [] [] = Unit
Each R [] (y ∷ ys) = ⊥
Each R (x ∷ xs) [] = ⊥
Each R (x ∷ xs) (y ∷ ys) = R x y × Each R xs ys

to_port-IsPort : (z : ℤ) → IsPort z (to_port z)
unfolding to_port
to_port-IsPort (pos n) = (omega arith, refl)
to_port-IsPort (negsuc n) = (omega arith, omega arith)

read_route-RuleIs : (v : TomlTable) (r : RouteRule) → read_route v ≡ some r → RuleIs v (rule_of r)
unfolding read_route
read_route-RuleIs v r e =
    let (host, p, e1) = bind-some (v.string_at (codes "host")) _ r e in
    let (backend, q, e2) = bind-some (v.string_at (codes "backend")) _ r e1 in
    record {
      host = p ∙ ap (λ (o : Option RouteRule). some (value_or o blank).host_match) e2;
      backend = q ∙ ap (λ (o : Option RouteRule). some (value_or o blank).backend_id) e2;
    }
  where
    blank : RouteRule
    blank = record { host_match = []; backend_id = [] }

protocol_of-quic :
    (o : Option Bytes) → (protocol_of (value_or o (codes "h1")) ≡ quic) ↔ (o ≡ some (codes "h3"))
unfolding protocol_of str_eq
protocol_of-quic none = (λ e. cc, λ e. cc)
protocol_of-quic (some s) = (
  λ e. ground (arith, str_eq_iff s (codes "h3"), e),
  λ e. ground (arith, str_eq_iff s (codes "h3"), e),
)

-- The endpoint of a table with the values that its lookups gave.
read_backend-EndpointIs :
    (v : TomlTable) (be : BackendEndpoint)
    → read_backend v ≡ some be
    → EndpointIs v (fresh_entry be)
unfolding read_backend
read_backend-EndpointIs v be e =
    let (id, p, e1) = bind-some (v.string_at (codes "id")) _ be e in
    let (host, q, e2) = bind-some (v.string_at (codes "host")) _ be e1 in
    let (port, r, e3) = bind-some (v.int_at (codes "port")) _ be e2 in
    let made : BackendEndpoint = record {
      backend_id = id;
      host = host;
      port = to_port port;
      weight = value_or (v.int_at (codes "weight")) (pos 1);
      protocol = protocol_of (value_or (v.string_at (codes "protocol")) (codes "h1"));
    } in
    let same : made ≡ be = ap (λ (o : Option BackendEndpoint). value_or o made) e3 in
    subst (λ b. EndpointIs v (fresh_entry b)) same
      (record {
        id = p;
        host = q;
        written_port = port;
        port = r;
        port_bits = to_port-IsPort port;
        weight = refl;
        protocol = protocol_of-quic (v.string_at (codes "protocol"));
        unused = refl;
      })

Each-map :
    {A B : Type 0} (read : TomlTable → Option A) (f : A → B) (R : TomlTable → B → Type 0)
    → ((v : TomlTable) (x : A) → read v ≡ some x → R v (f x))
    → (vs : List TomlTable) (xs : List A) → map read vs ≡ map some xs
    → Each R vs (map f xs)
Each-map read f R h [] [] e = tt
Each-map read f R h [] (x ∷ xs) e = cc
Each-map read f R h (v ∷ vs) [] e = cc
Each-map read f R h (v ∷ vs) (x ∷ xs) e =
    let head : read v ≡ some x = cc in
    let rest : map read vs ≡ map some xs = cc in (h v x head, Each-map read f R h vs xs rest)

-- A worker that is made from a configuration file has a rule for each table of its routes, with the
-- table's host and backend, and an endpoint for each table of its backends, with the table's id, host,
-- weight and protocol, its port in 16 bits and no idle connection, both in the order of the file.
pub new_core-configured :
    (root : TomlDocument) (cfg : ProxyConfig) (stats : ProxyStats)
    → load_config (some root) ≡ some cfg
    → Each RuleIs (entries root.routes_value) (new_core cfg stats).rules
      × Each EndpointIs (entries root.backends_value) (new_core cfg stats).pool.endpoints
unfolding new_core load_config
new_core-configured root cfg stats e =
    let (bes, p, e1) = bind-some (read_array read_backend root.backends_value) _ cfg e in
    let (rs, q, e2) = bind-some (read_array read_route root.routes_value) _ cfg e1 in
    let same_backends : bes ≡ cfg.backends = ap (λ (o : Option ProxyConfig). backends_of o) e2 in
    let same_routes : rs ≡ cfg.routes = ap (λ (o : Option ProxyConfig). routes_of o) e2 in
    let b = read_array-map read_backend root.backends_value bes p ∙ ap (map some) same_backends in
    let r = read_array-map read_route root.routes_value rs q ∙ ap (map some) same_routes in
    (
      subst (Each RuleIs (entries root.routes_value)) (sym (add_routes_lem [] cfg.routes))
          (Each-map read_route rule_of RuleIs read_route-RuleIs _ cfg.routes r),
      subst (Each EndpointIs (entries root.backends_value))
          (sym (add_backends_lem empty_pool cfg.backends))
          (Each-map read_backend fresh_entry EndpointIs read_backend-EndpointIs _ cfg.backends b),
    )
  where
    backends_of : Option ProxyConfig → List BackendEndpoint
    backends_of none = []
    backends_of (some c) = c.backends

    routes_of : Option ProxyConfig → List RouteRule
    routes_of none = []
    routes_of (some c) = c.routes
