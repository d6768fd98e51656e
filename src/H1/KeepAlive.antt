-- ===== src/H1/KeepAlive.antt =====
-- The keep-alive decision and the version on the wire, src/codec/h1_codec.cpp (RFC 9112, 9.3).
use reverse_proxy_server.Base.{Bool, true, false, not, none, some, if◌then◌else◌, is_some}
use reverse_proxy_server.Text.{Bytes, codes, find, starts_with}
use reverse_proxy_server.Http.Headers.{HeaderMap, get}

unfoldable pub version_keeps_alive : Bytes → Bool
unfolding starts_with
version_keeps_alive version = not (starts_with (codes "HTTP/1.0") version)

unfoldable pub header_says : Bytes → HeaderMap → Bool
unfolding find
header_says word hdrs = elim (get hdrs (codes "connection")) [
  | some c ↦ is_some (find word c)
  | none ↦ false
]

abbrev pub header_says_close : HeaderMap → Bool
header_says_close = header_says (codes "close")

abbrev pub header_says_keep_alive : HeaderMap → Bool
header_says_keep_alive = header_says (codes "keep-alive")

unfoldable pub compute_keep_alive : HeaderMap → Bytes → Bool
compute_keep_alive hdrs version =
    if header_says_close hdrs
    then false
    else if header_says_keep_alive hdrs
    then true
    else version_keeps_alive version

unfoldable pub wire_h1_version : Bytes → Bytes
unfolding starts_with
wire_h1_version v = if starts_with (codes "HTTP/1.") v then v else codes "HTTP/1.1"
