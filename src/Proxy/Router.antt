-- ===== src/Proxy/Router.antt =====
-- Router of src/proxy/router.h and router.cpp.
pub mod Choice
use reverse_proxy_server.Base.{
  List, [], ◌∷◌, ◌++◌, Option, none, some, Bool, if◌then◌else◌, value_or,
}
use reverse_proxy_server.Text.{Bytes, codes, str_eq}
use reverse_proxy_server.Http.Headers.{get}
use reverse_proxy_server.Http.Message.{HttpRequestHead}

pub record Rule : Type 0 where
  pub host_match : Bytes
  pub backend_id : Bytes

unfoldable pub add_rule : List Rule → Bytes → Bytes → List Rule
add_rule rules host_match backend_id =
    rules ++ record { host_match = host_match; backend_id = backend_id } ∷ []

-- The first rule for `host`, by one of the two loops.
unfoldable pub find_rule : Bytes → List Rule → Option Bytes
find_rule host [] = none
find_rule host (r ∷ rules) =
    if str_eq r.host_match host then some r.backend_id else find_rule host rules

abbrev pub wildcard : Bytes
wildcard = codes "*"

abbrev pub host_of : HttpRequestHead → Bytes
host_of req = value_or (get req.headers (codes "host")) []

-- Empty if no rule matches.
unfoldable pub route : List Rule → HttpRequestHead → Bytes
route rules req = elim (find_rule (host_of req) rules) [
  | some backend ↦ backend
  | none ↦ value_or (find_rule wildcard rules) []
]
