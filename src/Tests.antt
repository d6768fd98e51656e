-- ===== src/Tests.antt =====
-- The theorems at concrete inputs: a request and a response as a client and a backend write them, a
-- stream in segments, a routing table, and runs of the pool, of a relay and of the demultiplexer.
mod Http
mod H1
mod H3
mod Proxy
mod Transport
mod Quic
mod Engines
mod Server
use reverse_proxy_server.Base.{
  ℕ, ◌≡◌, ◌≢◌, List, [], ◌∷◌, Option, none, some, Bool, true, false, arith, is_some, is_empty, All,
  if◌then◌else◌, ◌==◌, ◌&&◌, not,
}
use reverse_proxy_server.Text.{Bytes, codes, find_byte, is_space, trim_leading}
use reverse_proxy_server.Text.Laws.{Free, IsWord}
use reverse_proxy_server.H1.Fields.{IsField}
use reverse_proxy_server.Http.Headers.{HeaderMap}
use reverse_proxy_server.Http.Message.{HttpRequestHead, empty_request}

-- A text in which find_byte finds nothing.
pub free : (c : ℕ) (s : Bytes) → find_byte c s ≡ none → Free c s
unfolding find_byte
free c [] h = tt
free c (x ∷ s) h = (ground (arith, h), free c s (ground (arith, h)))

unfoldable pub no_space : Bytes → Bool
no_space [] = true
no_space (c ∷ s) = not (is_space c) && no_space s

pub word : (s : Bytes) → no_space s ≡ true → is_empty s ≡ false → IsWord s
unfolding no_space
word s h e = record { solid = solids s h; ne_nil = λ n. not_empty s e n }
  where
    not_empty : (t : Bytes) → is_empty t ≡ false → t ≢ []
    not_empty [] e n = cc
    not_empty (c ∷ t) e n = cc

    solids : (t : Bytes) → no_space t ≡ true → All (λ c. is_space c ≡ false) t
    solids [] h = tt
    solids (c ∷ t) h = (ground (arith, h), solids t (ground (arith, h)))

pub field :
    (k v : Bytes)
    → find_byte b':' k ≡ none
    → find_byte 10 k ≡ none
    → find_byte 10 v ≡ none
    → trim_leading (32 ∷ v) ≡ v
    → IsField (k, v)
field k v a b c d = record {
  key_colon = free b':' k a;
  key_line = free 10 k b;
  value_line = free 10 v c;
  value_solid = d;
}

abbrev pub fields : HeaderMap
fields = record {
  entries =
      (codes "Host", codes "example.com")
      ∷ (codes "Connection", codes "keep-alive")
      ∷ (codes "Content-Length", codes "3")
      ∷ [];
}

abbrev pub post : HttpRequestHead
post = record empty_request {
  method = codes "POST";
  path = codes "/items?all=1";
  scheme = codes "http";
  authority = codes "example.com";
  headers = fields;
}
