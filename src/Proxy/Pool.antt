-- ===== src/Proxy/Pool.antt =====
-- UpstreamPool of src/proxy/upstream_pool.h and upstream_pool.cpp: the keep-alive pool of TCP
-- connections. A connection is the number of its stream.
pub mod Bounds
pub mod Quic
pub mod Ownership
use reverse_proxy_server.Base.{
  ℕ, zero, suc, ◌+◌, ◌%◌, ◌^◌, List, [], ◌∷◌, ◌++◌, Option, none, some, Bool, true, false, ◌&&◌,
  ltb, ◌==◌, if◌then◌else◌, length, get_elem?, is_empty, value_or,
}
use reverse_proxy_server.Text.{Bytes, str_eq}
use reverse_proxy_server.Http.Stream.{ErrorCode, not_found}
use reverse_proxy_server.Proxy.Config.{BackendEndpoint, TransportProtocol, tcp, quic, is_quic}

pub record EndpointEntry : Type 0 where
  pub be : BackendEndpoint
  pub idle : List ℕ

pub record Pool : Type 0 where
  pub endpoints : List EndpointEntry
  pub rr_index : ℕ
  -- `quic_engine_` was created.
  pub has_engine : Bool

-- What a connect leads to: the callback at once, a handshake that calls it back later, or an exception.
pub data Connect : Type 0 where
  refused : ErrorCode → Connect
  reused : ℕ → BackendEndpoint → Connect
  handshake : BackendEndpoint → Connect
  -- resolver.resolve throws, and the callback is not called.
  unresolved : BackendEndpoint → Connect
  quic_connect : BackendEndpoint → Connect
  quic_connect_fresh : BackendEndpoint → Connect

abbrev pub empty_pool : Pool
empty_pool = record { endpoints = []; rr_index = 0; has_engine = false }

unfoldable pub add_backend : Pool → BackendEndpoint → Pool
add_backend p be = record p {
  endpoints = p.endpoints ++ record { be = be; idle = [] } ∷ [];
  has_engine = if is_quic be.protocol then true else p.has_engine;
}

-- The pointers to the entries of a group, as positions in `endpoints`.
unfoldable pub candidates_from : ℕ → Bytes → List EndpointEntry → List ℕ
candidates_from i id [] = []
candidates_from i id (e ∷ es) =
    if str_eq e.be.backend_id id
    then i ∷ candidates_from (i + 1) id es
    else candidates_from (i + 1) id es

abbrev pub candidates : Bytes → List EndpointEntry → List ℕ
candidates = candidates_from 0

unfoldable pub set_idle : ℕ → List ℕ → List EndpointEntry → List EndpointEntry
set_idle i idle [] = []
set_idle zero idle (e ∷ es) = record e { idle = idle } ∷ es
set_idle (suc i) idle (e ∷ es) = e ∷ set_idle i idle es

-- The resolver is an argument: whether it finds the host of an endpoint.
unfoldable pub connect_fresh_to : (BackendEndpoint → Bool) → BackendEndpoint → Connect
connect_fresh_to resolves be = if resolves be then handshake be else unresolved be

-- `idle.front()` and `pop_front()`, else a fresh connection.
unfoldable pub check_out :
    (BackendEndpoint → Bool) → Pool → ℕ → EndpointEntry → List ℕ → Pool × Connect
unfolding set_idle connect_fresh_to
check_out resolves p i e [] = (p, connect_fresh_to resolves e.be)
check_out resolves p i e (c ∷ rest) =
    (record p { endpoints = set_idle i rest p.endpoints }, reused c e.be)

connect_entry : (BackendEndpoint → Bool) → Pool → ℕ → Option EndpointEntry → Pool × Connect
unfolding check_out
connect_entry resolves p i none = (p, refused not_found)
connect_entry resolves p i (some e) =
    if is_quic e.be.protocol then (p, quic_connect e.be) else check_out resolves p i e e.idle

-- `rr_index_.fetch_add(1) % candidates.size()`.
connect_nth : (BackendEndpoint → Bool) → Pool → List ℕ → Pool × Connect
unfolding connect_entry
connect_nth resolves p [] = (p, refused not_found)
connect_nth resolves p (c ∷ cs) =
    let i = value_or (get_elem? (c ∷ cs) (p.rr_index % length (c ∷ cs))) c in
    connect_entry resolves (record p { rr_index = (p.rr_index + 1) % 2 ^ 64 }) i
      (get_elem? p.endpoints i)

unfoldable pub async_connect : (BackendEndpoint → Bool) → Pool → Bytes → Pool × Connect
unfolding connect_nth
async_connect resolves p id = connect_nth resolves p (candidates id p.endpoints)

unfoldable pub async_connect_fresh : (BackendEndpoint → Bool) → BackendEndpoint → Connect
unfolding connect_fresh_to
async_connect_fresh resolves e =
    if is_quic e.protocol then quic_connect_fresh e else connect_fresh_to resolves e

abbrev pub max_idle_per_endpoint : ℕ
max_idle_per_endpoint = 8

unfoldable pub same_endpoint : BackendEndpoint → BackendEndpoint → Bool
same_endpoint a b = str_eq a.backend_id b.backend_id && str_eq a.host b.host && a.port == b.port

-- The first entry of the endpoint takes the connection, unless it is full: then it is dropped.
unfoldable pub release_in : BackendEndpoint → ℕ → List EndpointEntry → List EndpointEntry
unfolding same_endpoint
release_in be c [] = []
release_in be c (e ∷ es) =
    if same_endpoint e.be be
    then (if ltb (length e.idle) max_idle_per_endpoint
        then record e { idle = e.idle ++ c ∷ [] } ∷ es
        else e ∷ es)
    else e ∷ release_in be c es

unfoldable pub release : Pool → BackendEndpoint → ℕ → Pool
unfolding release_in
release p be c =
    if is_quic be.protocol then p else record p { endpoints = release_in be c p.endpoints }
