-- ===== src/Proxy/Relay/Target/RoundTrip.antt =====
-- Targets written as host, colon and decimal port (src/proxy/relay_session.cpp).
use reverse_proxy_server.Base.{
  ℕ, suc, ◌+◌, ◌≤◌, ◌<◌, ◌≡◌, ◌≢◌, refl, [], ◌∷◌, ◌++◌, none, some, false, arith, is_empty, drop,
  length, length-append, append-nil,
}
use reverse_proxy_server.Text.{Bytes, rfind_byte, strtoul, to_string}
use reverse_proxy_server.Text.Laws.{Free, take-length}
use reverse_proxy_server.Text.Numbers.{
  strtoul-to_string, to_string-Free, BeginsNumber, to_string-BeginsNumber,
}
use reverse_proxy_server.Proxy.Relay.Target.{connect_target, forward_target}

rfind_byte-Free : (c : ℕ) (s : Bytes) → Free c s → rfind_byte c s ≡ none
unfolding rfind_byte
rfind_byte-Free c [] h = refl
rfind_byte-Free c (x ∷ s) h = ground (arith, rfind_byte-Free c s h.1, h.0)

-- The last colon is the one in front of a text without any.
rfind_byte-append : (c : ℕ) (a s : Bytes) → Free c s → rfind_byte c (a ++ c ∷ s) ≡ some (length a)
unfolding rfind_byte
rfind_byte-append c [] s h = ground (arith, rfind_byte-Free c s h)
rfind_byte-append c (x ∷ a) s h = rw (rfind_byte-append c a s h)

drop_past : (a s : Bytes) (x : ℕ) → drop (suc (length a)) (a ++ x ∷ s) ≡ s
drop_past [] s x = refl
drop_past (y ∷ a) s x = drop_past a s x

drop_colon : (a s : Bytes) (x : ℕ) → drop (length a + 1) (a ++ x ∷ s) ≡ s
drop_colon a s x =
    let same : length a + 1 ≡ suc (length a) = omega arith in rw same (drop_past a s x)

strtoul-port : (port : ℕ) → port ≤ 65535 → strtoul 10 (to_string port) ≡ port
strtoul-port port h = rw append-nil at (strtoul-to_string port [] (omega arith) tt)

length-authority : (host s : Bytes) → length (host ++ b':' ∷ s) ≡ length host + suc (length s)
length-authority host s = length-append host (b':' ∷ s)

filled : (host : Bytes) → host ≢ [] → (is_empty host ≡ false) × (0 < length host)
filled [] ne = absurd (ne refl)
filled (x ∷ host) ne = (refl, omega arith)

digits : (n : ℕ) → 0 < length (to_string n)
digits n = rw append-nil at (not_nil (to_string n ++ []) (to_string-BeginsNumber n []))
  where
    not_nil : (s : Bytes) → BeginsNumber s → 0 < length s
    not_nil [] h = absurd h
    not_nil (x ∷ s) h = omega arith

-- A CONNECT target and the authority of an absolute-form request that name a host and a port from 1
-- to 65535 behind the last colon lead to just that host and port, whatever bytes the host has (the
-- colons of an IPv6 address included), provided that it is not empty.
pub targets-authority :
    (host : Bytes) (port : ℕ)
    → host ≢ []
    → 0 < port
    → port ≤ 65535
    → (connect_target (host ++ b':' ∷ to_string port) ≡ some (host, port))
      × (forward_target (host ++ b':' ∷ to_string port) ≡ some (host, port))
unfolding connect_target forward_target
targets-authority host port ne lo hi =
    rw
      (
        rfind_byte-append b':' host (to_string port) (to_string-Free b':' port refl),
        connect_target,
        forward_target,
      )
      (rw
        (
          take-length host (b':' ∷ to_string port),
          drop_colon host (to_string port) b':',
          strtoul-port port hi,
        )
        (
          ground (arith, filled host ne, length-authority host (to_string port), digits port),
          ground (arith, filled host ne),
        ))
