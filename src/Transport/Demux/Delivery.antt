-- ===== src/Transport/Demux/Delivery.antt =====
-- What on_packet of src/transport/quic_demux.cpp does with a datagram.
use reverse_proxy_server.Base.{
  ℕ, ◌<◌, ◌≡◌, refl, sym, ap, subst, append-nil, ◌∙◌, List, ◌++◌, Option, none, some, Bool, true,
  false, if◌then◌else◌, ◌==◌, arith, All,
}
use reverse_proxy_server.Text.{Bytes}
use reverse_proxy_server.Transport.Demux.{
  Family, v4, v6, Demux, route, route_dcid, route_cid, post_packet, do_recv, received, on_packet,
}
use reverse_proxy_server.Transport.Demux.Routing.{route-bounds}
use reverse_proxy_server.Transport.Demux.Sound.{
  worker_of, Sound, Event, receives, step, run, IsFrom, packet_posts, received-Sound,
  on_packet-Sound, run-Sound,
}

route-received :
    (dcid : Bytes → Option (ℕ × ℕ)) (f : Family) (d : Demux) (buf : Bytes)
    → route dcid (received f d) buf ≡ route dcid d buf
unfolding route route_dcid route_cid received
route-received dcid v4 d buf = same (dcid buf)
  where
    same :
        (o : Option (ℕ × ℕ))
        → (if d.workers == 0 then none else route_dcid (record d { receiving = false }) buf o)
          ≡ (if d.workers == 0 then none else route_dcid d buf o)
    same none = refl
    same (some (off, n)) = refl
route-received dcid v6 d buf = same (dcid buf)
  where
    same :
        (o : Option (ℕ × ℕ))
        → (if d.workers == 0 then none else route_dcid (record d { receiving6 = false }) buf o)
          ≡ (if d.workers == 0 then none else route_dcid d buf o)
    same none = refl
    same (some (off, n)) = refl

post_packet-delivers :
    (d : Demux) (buf : Bytes) (o : Option ℕ)
    → ((w : ℕ) → o ≡ some w → w < d.workers)
    → (post_packet d buf o).posted ≡ d.posted ++ packet_posts buf o
unfolding post_packet
post_packet-delivers d buf none h = sym (append-nil d.posted)
post_packet-delivers d buf (some w) h = let lt : w < d.workers = h w refl in ground (arith, lt)

abbrev pub receiving_on : Family → Demux → Bool
receiving_on v4 d = d.receiving
receiving_on v6 d = d.receiving6

do_recv-armed :
    (f : Family) (d : Demux)
    → ((do_recv f d).posted ≡ d.posted) × (receiving_on f (do_recv f d) ≡ true)
unfolding do_recv
do_recv-armed v4 d = (refl, refl)
do_recv-armed v6 d = (refl, refl)

received-posted : (f : Family) (d : Demux) → (received f d).posted ≡ d.posted
unfolding received
received-posted v4 d = refl
received-posted v6 d = refl

-- A demultiplexer whose table and posts name only existing workers is given any registrations of
-- existing workers, removals, datagrams, receive errors and blocked sends. A datagram that arrives then
-- goes, whole, to the one worker that its connection id is routed to, behind all that was posted
-- before, and to nobody if it has no id; all posts are for workers that exist; and the receive of
-- the datagram's socket is armed again.
pub on_packet-delivers :
    (dcid : Bytes → Option (ℕ × ℕ)) (n : ℕ) (d : Demux) (es : List Event) (f : Family) (buf : Bytes)
    → All (IsFrom n) es
    → Sound n d
    → ((step dcid (run dcid d es) (receives f none buf)).posted
        ≡ (run dcid d es).posted ++ packet_posts buf (route dcid (run dcid d es) buf))
      × All (λ p. worker_of p < n) (step dcid (run dcid d es) (receives f none buf)).posted
      × (receiving_on f (step dcid (run dcid d es) (receives f none buf)) ≡ true)
unfolding step on_packet
on_packet-delivers dcid n d es f buf h s =
    let t = run dcid d es in
    let sound = run-Sound dcid n d es h s in
    let quiet = received-Sound n f t sound in
    let armed = do_recv-armed f (post_packet (received f t) buf (route dcid (received f t) buf)) in
    (
      armed.0
          ∙ post_packet-delivers (received f t) buf (route dcid (received f t) buf) (λ w e.
            route-bounds dcid (received f t) buf w
              (subst (λ k. All (λ (e : Bytes × ℕ). e.1 < k) (received f t).cids) (sym quiet.count)
                quiet.routed)
              e)
          ∙ ap (λ ps. ps ++ packet_posts buf (route dcid (received f t) buf)) (received-posted f t)
          ∙ ap (λ o. t.posted ++ packet_posts buf o) (route-received dcid f t buf),
      (on_packet-Sound dcid n f none buf (received f t) quiet).posts,
      armed.1,
    )
