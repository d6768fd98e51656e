-- ===== src/Transport/Quic/Engine/Routes.antt =====
-- Where the demultiplexer (src/transport/quic_demux.cpp) sends the connection ids that a
-- QuicServerEngine (src/transport/quic_transport.cpp) makes.
use native.Mathlib.Nat.{mod-eq_of_lt}
use reverse_proxy_server.Base.{
  ℕ, ◌%◌, ◌≤◌, ◌<◌, ◌≡◌, refl, ap, ◌∙◌, ◌⊎◌, inl, inr, List, [], ◌∷◌, none, some, Bool, false, ◌||◌,
  arith, All,
}
use reverse_proxy_server.Text.{Bytes, str_eq}
use reverse_proxy_server.Transport.Demux.{
  Demux, route_cid, route_new, register_cid, remove_cid, find_cid,
}
use reverse_proxy_server.Transport.Demux.Routing.{route_cid-table}
use reverse_proxy_server.Transport.Quic.Engine.{generate_scid, on_new_scids, on_old_scids}

abbrev pub has_cid : Bytes → List Bytes → Bool
has_cid j [] = false
has_cid j (cid ∷ cids) = str_eq cid j || has_cid j cids

-- lsquic reports new ids of a worker, or old ones.
pub data CidEvent : Type 0 where
  news : ℕ → List Bytes → CidEvent
  olds : List Bytes → CidEvent

abbrev pub run_cids : List CidEvent → Demux → Demux
run_cids [] d = d
run_cids (news idx cids ∷ es) d = run_cids es (on_new_scids idx cids d)
run_cids (olds cids ∷ es) d = run_cids es (on_old_scids cids d)

-- No other worker reports the id as its own.
abbrev pub IsOwn : ℕ → Bytes → CidEvent → Type 0
IsOwn w j (news idx cids) = (idx ≡ w) ⊎ (has_cid j cids ≡ false)
IsOwn w j (olds cids) = Unit

route_new-generate_scid :
    (n w c : ℕ) (rng : Bytes) → w < n → n ≤ 256 → route_new n (generate_scid (some w) (c ∷ rng)) ≡ w
unfolding route_new generate_scid
route_new-generate_scid n w c rng h le =
    let small : w % 256 ≡ w = mod-eq_of_lt (omega (arith, h, le)) in rw small (ground (arith, h))

-- The id goes to the worker, by the table or by its first byte.
record Goes (n w : ℕ) (j : Bytes) (d : Demux) : Type 0 where
  pub count : d.workers ≡ n
  pub way : route_cid d j ≡ w

on_new_scids-Goes :
    (n w idx : ℕ) (j : Bytes) (cids : List Bytes) (d : Demux)
    → (idx ≡ w) ⊎ (has_cid j cids ≡ false)
    → Goes n w j d
    → Goes n w j (on_new_scids idx cids d)
unfolding on_new_scids register_cid
on_new_scids-Goes n w idx j [] d own g = g
on_new_scids-Goes n w idx j (cid ∷ cids) d (inl e) g =
    on_new_scids-Goes n w idx j cids (register_cid cid idx d) (inl e)
      (record { count = g.count; way = (route_cid-table d cid j idx).0 ∙ ground (arith, e, g.way) })
on_new_scids-Goes n w idx j (cid ∷ cids) d (inr e) g =
    on_new_scids-Goes n w idx j cids (register_cid cid idx d) (inr (ground (arith, e)))
      (record { count = g.count; way = (route_cid-table d cid j idx).0 ∙ ground (arith, e, g.way) })

on_old_scids-Goes :
    (n w : ℕ) (j : Bytes) (cids : List Bytes) (d : Demux)
    → route_new n j ≡ w
    → Goes n w j d
    → Goes n w j (on_old_scids cids d)
unfolding on_old_scids remove_cid
on_old_scids-Goes n w j [] d h g = g
on_old_scids-Goes n w j (cid ∷ cids) d h g =
    let home : route_new d.workers j ≡ w = ap (λ k. route_new k j) g.count ∙ h in
    on_old_scids-Goes n w j cids (remove_cid cid d) h (record {
      count = g.count;
      way = (route_cid-table d cid j 0).1 ∙ ground (arith, home, g.way);
    })

run_cids-Goes :
    (n w : ℕ) (j : Bytes) (es : List CidEvent) (d : Demux)
    → route_new n j ≡ w
    → All (IsOwn w j) es
    → Goes n w j d
    → Goes n w j (run_cids es d)
run_cids-Goes n w j [] d h own g = g
run_cids-Goes n w j (news idx cids ∷ es) d h own g =
    run_cids-Goes n w j es (on_new_scids idx cids d) h own.1
      (on_new_scids-Goes n w idx j cids d own.0 g)
run_cids-Goes n w j (olds cids ∷ es) d h own g =
    run_cids-Goes n w j es (on_old_scids cids d) h own.1 (on_old_scids-Goes n w j cids d h g)

-- With at most 256 workers, packets with a connection id that a worker's engine has made go to that
-- worker: before the id is in the table, while it is, and after it has been removed, whatever other ids
-- lsquic reports as new or old, as long as no other worker reports this one as its own.
pub generate_scid-route :
    (d : Demux) (w c : ℕ) (rng : Bytes) (es : List CidEvent)
    → w < d.workers
    → d.workers ≤ 256
    → find_cid (generate_scid (some w) (c ∷ rng)) d.cids ≡ none
    → All (IsOwn w (generate_scid (some w) (c ∷ rng))) es
    → route_cid (run_cids es d) (generate_scid (some w) (c ∷ rng)) ≡ w
unfolding route_cid
generate_scid-route d w c rng es h le fresh own =
    let j = generate_scid (some w) (c ∷ rng) in
    let home = route_new-generate_scid d.workers w c rng h le in
    let start : Goes d.workers w j d = record { count = refl; way = rw fresh home } in
    (run_cids-Goes d.workers w j es d home own start).way
