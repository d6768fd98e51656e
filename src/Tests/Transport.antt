-- ===== src/Tests/Transport.antt =====
-- The demultiplexer with two workers; the connection id is the byte behind the first one.
use reverse_proxy_server.Base.{
  ℕ, ◌<◌, ◌≡◌, refl, List, [], ◌∷◌, ◌++◌, Option, none, some, true, if◌then◌else◌, All, arith,
}
use reverse_proxy_server.Text.{Bytes, codes, str_eq}
use reverse_proxy_server.Transport.Demux.{
  Demux, v6, new_demux, add_worker, start, route, route_new, route_cid, register_cid, remove_cid,
  do_recv,
}
use reverse_proxy_server.Transport.Demux.Routing.{route_cid-table}
use reverse_proxy_server.Transport.Demux.Sound.{
  worker_of, Sound, Event, registers, receives, step, run, packet_posts,
}
use reverse_proxy_server.Transport.Demux.Delivery.{receiving_on, on_packet-delivers}

abbrev dcid : Bytes → Option (ℕ × ℕ)
dcid [] = none
dcid (x ∷ []) = none
dcid (x ∷ y ∷ s) = some (1, 1)

abbrev two_workers : Demux
two_workers = start (add_worker (add_worker (new_demux true)).0).0

two_workers-Sound : Sound 2 two_workers
unfolding start add_worker do_recv
two_workers-Sound = record { count = refl; routed = tt; posts = tt }

abbrev events : List Event
events = registers (codes "a") 1 ∷ receives v6 none (codes "xa") ∷ []

on_packet-delivers_example :
    ((step dcid (run dcid two_workers events) (receives v6 none (codes "yab"))).posted
      ≡ (run dcid two_workers events).posted
        ++ packet_posts (codes "yab") (route dcid (run dcid two_workers events) (codes "yab")))
    × All
        (λ p. worker_of p < 2)
        (step dcid (run dcid two_workers events) (receives v6 none (codes "yab"))).posted
    × (receiving_on v6 (step dcid (run dcid two_workers events) (receives v6 none (codes "yab")))
        ≡ true)
on_packet-delivers_example =
    on_packet-delivers dcid 2 two_workers events v6 (codes "yab") (omega arith, (tt, tt))
      two_workers-Sound

route_cid-table_example :
    (route_cid (register_cid (codes "a") 1 two_workers) (codes "b")
      ≡ (if str_eq (codes "a") (codes "b") then 1 else route_cid two_workers (codes "b")))
    × (route_cid (remove_cid (codes "a") two_workers) (codes "b") ≡ (
        if str_eq (codes "a") (codes "b")
        then route_new two_workers.workers (codes "b")
        else route_cid two_workers (codes "b")))
route_cid-table_example = route_cid-table two_workers (codes "a") (codes "b") 1
