-- ===== src/Transport/Demux/Sound.antt =====
-- The workers that the table and the posts of the demultiplexer name (src/transport/quic_demux.cpp).
use reverse_proxy_server.Base.{
  ℕ, zero, suc, ◌<◌, ◌≤◌, ◌≡◌, List, [], ◌∷◌, ◌++◌, Option, none, some, Bool, true, false,
  if◌then◌else◌, leb, arith, All, Bool-cases, inl, inr,
}
use reverse_proxy_server.Text.{Bytes, str_eq}
use reverse_proxy_server.Http.Stream.{
  ErrorCode, eof, connection_reset, operation_aborted, invalid_argument, not_found,
  host_unreachable, operation_not_supported, message_size, system,
}
use reverse_proxy_server.Transport.Demux.{
  Family, v4, v6, Post, deliver, flush, Demux, put_cid, erase_cid, register_cid, remove_cid,
  post_packet, do_recv, received, on_packet, arm_send_retry, flushes, on_writable,
}

abbrev pub worker_of : Post → ℕ
worker_of (deliver w buf) = w
worker_of (flush w) = w

-- There are `n` workers, and no other in the table and in a post.
pub record Sound (n : ℕ) (d : Demux) : Type 0 where
  pub count : d.workers ≡ n
  pub routed : All (λ (e : Bytes × ℕ). e.1 < n) d.cids
  pub posts : All (λ p. worker_of p < n) d.posted

-- What reaches a demultiplexer whose workers are all added.
pub data Event : Type 0 where
  registers : Bytes → ℕ → Event
  removes : Bytes → Event
  receives : Family → Option ErrorCode → Bytes → Event
  tx_blocked : Event
  writable : Family → Bool → Event

module _ (dcid : Bytes → Option (ℕ × ℕ)) where
  unfoldable pub step : Demux → Event → Demux
  step d (registers key w) = register_cid key w d
  step d (removes key) = remove_cid key d
  step d (receives f ec buf) = on_packet dcid f ec buf (received f d)
  step d tx_blocked = arm_send_retry d
  step d (writable f ok) = on_writable f ok d

  unfoldable pub run : Demux → List Event → Demux
  unfolding step
  run d [] = d
  run d (e ∷ es) = run (step d e) es

-- Engines register only workers that exist.
abbrev pub IsFrom : ℕ → Event → Type 0
IsFrom n (registers key w) = w < n
IsFrom n _ = Unit {0}

abbrev pub packet_posts : Bytes → Option ℕ → List Post
packet_posts buf none = []
packet_posts buf (some w) = deliver w buf ∷ []

put_cid-All :
    (n : ℕ) (key : Bytes) (w : ℕ) (m : List (Bytes × ℕ))
    → w < n
    → All (λ (e : Bytes × ℕ). e.1 < n) m
    → All (λ (e : Bytes × ℕ). e.1 < n) (put_cid key w m)
unfolding put_cid
put_cid-All n key w [] h a = (h, tt)
put_cid-All n key w ((k, v) ∷ m) h a = elim (Bool-cases (str_eq k key)) [
  | inl e ↦ rw e (h, a.1)
  | inr e ↦ rw e (a.0, put_cid-All n key w m h a.1)
]

erase_cid-All :
    (n : ℕ) (key : Bytes) (m : List (Bytes × ℕ))
    → All (λ (e : Bytes × ℕ). e.1 < n) m
    → All (λ (e : Bytes × ℕ). e.1 < n) (erase_cid key m)
unfolding erase_cid
erase_cid-All n key [] a = tt
erase_cid-All n key ((k, v) ∷ m) a = elim (Bool-cases (str_eq k key)) [
  | inl e ↦ rw e (erase_cid-All n key m a.1)
  | inr e ↦ rw e (a.0, erase_cid-All n key m a.1)
]

posts-append :
    (n : ℕ) (ps qs : List Post)
    → All (λ p. worker_of p < n) ps
    → All (λ p. worker_of p < n) qs
    → All (λ p. worker_of p < n) (ps ++ qs)
posts-append n [] qs a b = b
posts-append n (p ∷ ps) qs a b = (a.0, posts-append n ps qs a.1 b)

flushes-All : (n k : ℕ) → k ≤ n → All (λ p. worker_of p < n) (flushes k)
unfolding flushes
flushes-All n zero h = tt
flushes-All n (suc k) h =
    posts-append n (flushes k) (flush k ∷ []) (flushes-All n k (omega arith)) (omega arith, tt)

do_recv-Sound : (n : ℕ) (f : Family) (d : Demux) → Sound n d → Sound n (do_recv f d)
unfolding do_recv
do_recv-Sound n v4 d s = record { count = s.count; routed = s.routed; posts = s.posts }
do_recv-Sound n v6 d s = record { count = s.count; routed = s.routed; posts = s.posts }

pub received-Sound : (n : ℕ) (f : Family) (d : Demux) → Sound n d → Sound n (received f d)
unfolding received
received-Sound n v4 d s = record { count = s.count; routed = s.routed; posts = s.posts }
received-Sound n v6 d s = record { count = s.count; routed = s.routed; posts = s.posts }

post_packet-Sound :
    (n : ℕ) (d : Demux) (buf : Bytes) (o : Option ℕ) → Sound n d → Sound n (post_packet d buf o)
unfolding post_packet
post_packet-Sound n d buf none s = s
post_packet-Sound n d buf (some w) s = elim (Bool-cases (leb d.workers w)) [
  | inl e ↦ rw e s
  | inr e ↦ rw e (record {
    count = s.count;
    routed = s.routed;
    posts = posts-append n d.posted (deliver w buf ∷ []) s.posts (ground (arith, s.count), tt);
  })
]

rearm-Sound :
    (n : ℕ) (f : Family) (b : Bool) (d : Demux) → Sound n d → Sound n (if b then do_recv f d else d)
rearm-Sound n f true d s = do_recv-Sound n f d s
rearm-Sound n f false d s = s

pub on_packet-Sound :
    (dcid : Bytes → Option (ℕ × ℕ)) (n : ℕ) (f : Family) (ec : Option ErrorCode) (buf : Bytes)
    (d : Demux)
    → Sound n d
    → Sound n (on_packet dcid f ec buf d)
unfolding on_packet
on_packet-Sound dcid n f none buf d s = do_recv-Sound n f _ (post_packet-Sound n d buf _ s)
on_packet-Sound dcid n f (some operation_aborted) buf d s = s
on_packet-Sound dcid n f (some eof) buf d s = rearm-Sound n f _ d s
on_packet-Sound dcid n f (some connection_reset) buf d s = rearm-Sound n f _ d s
on_packet-Sound dcid n f (some invalid_argument) buf d s = rearm-Sound n f _ d s
on_packet-Sound dcid n f (some not_found) buf d s = rearm-Sound n f _ d s
on_packet-Sound dcid n f (some host_unreachable) buf d s = rearm-Sound n f _ d s
on_packet-Sound dcid n f (some operation_not_supported) buf d s = rearm-Sound n f _ d s
on_packet-Sound dcid n f (some message_size) buf d s = rearm-Sound n f _ d s
on_packet-Sound dcid n f (some (system k)) buf d s = rearm-Sound n f _ d s

retry-Sound : (n : ℕ) (d : Demux) → Sound n d → Sound n (arm_send_retry d)
unfolding arm_send_retry
retry-Sound n d s = elim (Bool-cases d.open6) [
  | inl e ↦ rw e (record { count = s.count; routed = s.routed; posts = s.posts })
  | inr e ↦ rw e (record { count = s.count; routed = s.routed; posts = s.posts })
]

on_writable-Sound :
    (n : ℕ) (f : Family) (ok : Bool) (d : Demux) → Sound n d → Sound n (on_writable f ok d)
unfolding on_writable
on_writable-Sound n v4 false d s = record { count = s.count; routed = s.routed; posts = s.posts }
on_writable-Sound n v6 false d s = record { count = s.count; routed = s.routed; posts = s.posts }
on_writable-Sound n v4 true d s = record {
  count = s.count;
  routed = s.routed;
  posts =
      posts-append n d.posted (flushes d.workers) s.posts
        (flushes-All n d.workers (omega (arith, s.count)));
}
on_writable-Sound n v6 true d s = record {
  count = s.count;
  routed = s.routed;
  posts =
      posts-append n d.posted (flushes d.workers) s.posts
        (flushes-All n d.workers (omega (arith, s.count)));
}

step-Sound :
    (dcid : Bytes → Option (ℕ × ℕ)) (n : ℕ) (d : Demux) (e : Event)
    → IsFrom n e
    → Sound n d
    → Sound n (step dcid d e)
unfolding step register_cid remove_cid
step-Sound dcid n d (registers key w) h s = record {
  count = s.count;
  routed = put_cid-All n key w d.cids h s.routed;
  posts = s.posts;
}
step-Sound dcid n d (removes key) h s = record {
  count = s.count;
  routed = erase_cid-All n key d.cids s.routed;
  posts = s.posts;
}
step-Sound dcid n d (receives f ec buf) h s =
    on_packet-Sound dcid n f ec buf (received f d) (received-Sound n f d s)
step-Sound dcid n d tx_blocked h s = retry-Sound n d s
step-Sound dcid n d (writable f ok) h s = on_writable-Sound n f ok d s

pub run-Sound :
    (dcid : Bytes → Option (ℕ × ℕ)) (n : ℕ) (d : Demux) (es : List Event)
    → All (IsFrom n) es
    → Sound n d
    → Sound n (run dcid d es)
unfolding run
run-Sound dcid n d [] h s = s
run-Sound dcid n d (e ∷ es) h s =
    run-Sound dcid n (step dcid d e) es h.1 (step-Sound dcid n d e h.0 s)
