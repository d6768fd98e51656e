-- ===== src/Transport/Demux/Routing.antt =====
-- Where route of src/transport/quic_demux.cpp sends a connection id.
use native.Mathlib.Nat.{mod-lt}
use reverse_proxy_server.Base.{
  ℕ, ◌<◌, ◌≡◌, refl, List, [], ◌∷◌, Option, none, some, if◌then◌else◌, ◌==◌, arith, All,
  Option-cases, inl, inr, take, drop,
}
use reverse_proxy_server.Text.{Bytes, str_eq, str_eq_iff}
use reverse_proxy_server.Transport.Demux.{
  Demux, find_cid, put_cid, erase_cid, register_cid, remove_cid, route_new, route_cid, route_dcid,
  route,
}

find_cid-put_cid :
    (key j : Bytes) (w : ℕ) (m : List (Bytes × ℕ))
    → find_cid j (put_cid key w m) ≡ (if str_eq key j then some w else find_cid j m)
unfolding find_cid put_cid
find_cid-put_cid key j w [] = refl
find_cid-put_cid key j w ((k, v) ∷ m) =
    ground (arith, find_cid-put_cid key j w m, str_eq_iff k key, str_eq_iff k j, str_eq_iff key j)

find_cid-erase_cid :
    (key j : Bytes) (m : List (Bytes × ℕ))
    → find_cid j (erase_cid key m) ≡ (if str_eq key j then none else find_cid j m)
unfolding find_cid erase_cid
find_cid-erase_cid key j [] = ground arith
find_cid-erase_cid key j ((k, v) ∷ m) =
    ground (arith, find_cid-erase_cid key j m, str_eq_iff k key, str_eq_iff k j, str_eq_iff key j)

-- A registered connection id is routed to the worker that registered it last, a removed one as if it
-- had never been in the table, and neither call changes the way of any other id.
pub route_cid-table :
    (d : Demux) (key j : Bytes) (w : ℕ)
    → (route_cid (register_cid key w d) j ≡ (if str_eq key j then w else route_cid d j))
      × (route_cid (remove_cid key d) j
          ≡ (if str_eq key j then route_new d.workers j else route_cid d j))
unfolding route_cid register_cid remove_cid
route_cid-table d key j w =
    rw (find_cid-put_cid key j w d.cids, find_cid-erase_cid key j d.cids)
      (ground arith, ground arith)

-- Every registered worker exists.
abbrev pub IsRouted : Demux → Type 0
IsRouted d = All (λ (e : Bytes × ℕ). e.1 < d.workers) d.cids

find_cid-bounds :
    (n : ℕ) (key : Bytes) (w : ℕ) (m : List (Bytes × ℕ))
    → All (λ (e : Bytes × ℕ). e.1 < n) m
    → find_cid key m ≡ some w
    → w < n
unfolding find_cid
find_cid-bounds n key w [] a h = cc
find_cid-bounds n key w ((k, v) ∷ m) a h = ground (arith, find_cid-bounds n key w m a.1)

route_new-bounds : (n : ℕ) (key : Bytes) → 0 < n → route_new n key < n
unfolding route_new
route_new-bounds n [] h = mod-lt _ h
route_new-bounds n (c ∷ key) h = ground (arith, mod-lt _ h)

pub route_cid-bounds :
    (d : Demux) (key : Bytes) → 0 < d.workers → IsRouted d → route_cid d key < d.workers
unfolding route_cid
route_cid-bounds d key h r = elim (Option-cases (find_cid key d.cids)) [
  | inl e ↦ rw e (route_new-bounds d.workers key h)
  | inr (w, e) ↦ rw e (find_cid-bounds d.workers key w d.cids r e)
]

-- on_packet's test of the worker's index never drops a packet.
pub route-bounds :
    (dcid : Bytes → Option (ℕ × ℕ)) (d : Demux) (buf : Bytes) (w : ℕ)
    → IsRouted d
    → route dcid d buf ≡ some w
    → w < d.workers
unfolding route route_dcid
route-bounds dcid d buf w r h = found (dcid buf) h
  where
    found :
        (o : Option (ℕ × ℕ))
        → (if d.workers == 0 then none else route_dcid d buf o) ≡ some w
        → w < d.workers
    found none e = ground arith
    found (some (off, n)) e = ground (arith, route_cid-bounds d (take n (drop off buf)))
