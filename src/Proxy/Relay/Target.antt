-- ===== src/Proxy/Relay/Target.antt =====
-- The targets that a client names itself: CONNECT host:port and the authority of an absolute-form
-- request, as handle_connect and handle_forward of src/proxy/relay_session.cpp split them.
pub mod RoundTrip
use reverse_proxy_server.Base.{
  ℕ, suc, ◌+◌, ◌≤◌, ◌<◌, ◌≡◌, refl, List, [], ◌∷◌, ◌++◌, Option, none, some, Bool, true, false, not,
  ◌&&◌, ◌||◌, arith, ltb, leb, ◌==◌, if◌then◌else◌, is_empty, is_some, take, drop, length,
}
use reverse_proxy_server.Text.{Bytes, codes, rfind_byte, strtoul, find, lower}
use reverse_proxy_server.Http.Headers.{get}
use reverse_proxy_server.Http.Message.{HttpRequestHead}

-- Host and port; `none` is answered with 400.
unfoldable pub connect_target : Bytes → Option (Bytes × ℕ)
connect_target path = elim (rfind_byte b':' path) [
  | none ↦ none
  | some colon ↦
      let host = take colon path in
      let port = strtoul 10 (drop (colon + 1) path) in
      if colon == 0 || leb (length path) (colon + 1)
      then none
      else if is_empty host || port == 0 || ltb 65535 port
      then none
      else some (host, port)
]

unfoldable pub forward_target : Bytes → Option (Bytes × ℕ)
forward_target authority = elim (rfind_byte b':' authority) [
  | none ↦ some (authority, 80)
  | some colon ↦
      let port = strtoul 10 (drop (colon + 1) authority) in
      if colon == 0 || port == 0 || ltb 65535 port then none else some (take colon authority, port)
]

unfoldable pub is_upgrade_request : HttpRequestHead → Bool
is_upgrade_request head =
    is_some (get head.headers (codes "upgrade")) && elim (get head.headers (codes "connection")) [
      | none ↦ false
      | some c ↦ is_some (find (codes "upgrade") (lower c))
    ]
