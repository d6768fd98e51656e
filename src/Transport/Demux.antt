-- ===== src/Transport/Demux.antt =====
-- QuicPacketDemux of src/transport/quic_demux.h and quic_demux.cpp: it hands the datagrams of the
-- QUIC port to the workers. lsquic_dcid_from_packet is a parameter, offset and length of the
-- destination connection id or none. What is posted to a worker is recorded in order; the sockets
-- are the two families, each with a receive and a write watch that are armed or not.
pub mod Routing
pub mod Sound
pub mod Delivery
use Prim.Native.Nat.{bit_xor}
use reverse_proxy_server.Base.{
  ℕ, zero, suc, ◌+◌, ◌*◌, ◌%◌, ◌^◌, List, [], ◌∷◌, ◌++◌, Option, none, some, Bool, true, false, not,
  ◌||◌, if◌then◌else◌, ◌==◌, ltb, leb, take, drop, get_elem?, value_or,
}
use reverse_proxy_server.Text.{Bytes, str_eq}
use reverse_proxy_server.Http.Stream.{ErrorCode, operation_aborted}

pub data Family : Type 0 where
  v4 v6 : Family

pub data Post : Type 0 where
  deliver : ℕ → Bytes → Post
  flush : ℕ → Post

pub record Demux : Type 0 where
  -- The number of `workers_`.
  pub workers : ℕ
  pub cids : List (Bytes × ℕ)
  pub open6 : Bool
  pub receiving : Bool
  pub receiving6 : Bool
  pub retry_armed : Bool
  pub retry6_armed : Bool
  pub posted : List Post

abbrev pub new_demux : Bool → Demux
new_demux open6 = record {
  workers = 0;
  cids = [];
  open6 = open6;
  receiving = false;
  receiving6 = false;
  retry_armed = false;
  retry6_armed = false;
  posted = [];
}

unfoldable pub add_worker : Demux → Demux × ℕ
add_worker d = (record d { workers = d.workers + 1 }, d.workers)

unfoldable pub do_recv : Family → Demux → Demux
do_recv v4 d = record d { receiving = true }
do_recv v6 d = record d { receiving6 = true }

unfoldable pub start : Demux → Demux
start d = if d.open6 then do_recv v6 (do_recv v4 d) else do_recv v4 d

-- std::map's `find`, `operator[]` and `erase`.
unfoldable pub find_cid : Bytes → List (Bytes × ℕ) → Option ℕ
find_cid key [] = none
find_cid key ((k, w) ∷ m) = if str_eq k key then some w else find_cid key m

unfoldable pub put_cid : Bytes → ℕ → List (Bytes × ℕ) → List (Bytes × ℕ)
put_cid key w [] = (key, w) ∷ []
put_cid key w ((k, v) ∷ m) = if str_eq k key then (k, w) ∷ m else (k, v) ∷ put_cid key w m

unfoldable pub erase_cid : Bytes → List (Bytes × ℕ) → List (Bytes × ℕ)
erase_cid key [] = []
erase_cid key ((k, v) ∷ m) = if str_eq k key then erase_cid key m else (k, v) ∷ erase_cid key m

unfoldable pub register_cid : Bytes → ℕ → Demux → Demux
register_cid key worker_idx d = record d { cids = put_cid key worker_idx d.cids }

unfoldable pub remove_cid : Bytes → Demux → Demux
remove_cid key d = record d { cids = erase_cid key d.cids }

-- FNV-1a at 64 bits, from the hash so far.
unfoldable pub fnv_onto : ℕ → Bytes → ℕ
fnv_onto h [] = h
fnv_onto h (c ∷ s) = fnv_onto ((bit_xor h c * 0x100000001b3) % 2 ^ 64) s

unfoldable pub fnv : Bytes → ℕ
fnv = fnv_onto 0xcbf29ce484222325

-- The worker of an id that is not in the table: the routing byte if it names a worker, else the hash.
unfoldable pub route_new : ℕ → Bytes → ℕ
route_new n_workers [] = fnv [] % n_workers
route_new n_workers (c ∷ key) = if ltb c n_workers then c else fnv (c ∷ key) % n_workers

unfoldable pub route_cid : Demux → Bytes → ℕ
route_cid d key = value_or (find_cid key d.cids) (route_new d.workers key)

unfoldable pub route_dcid : Demux → Bytes → Option (ℕ × ℕ) → Option ℕ
route_dcid d buf none = none
route_dcid d buf (some (off, cid_len)) =
    if cid_len == 0 then none else some (route_cid d (take cid_len (drop off buf)))

-- `none` drops the packet.
unfoldable pub route : (Bytes → Option (ℕ × ℕ)) → Demux → Bytes → Option ℕ
route dcid d buf = if d.workers == 0 then none else route_dcid d buf (dcid buf)

unfoldable pub post_packet : Demux → Bytes → Option ℕ → Demux
post_packet d buf none = d
post_packet d buf (some w) =
    if leb d.workers w then d else record d { posted = d.posted ++ deliver w buf ∷ [] }

abbrev pub is_open : Family → Demux → Bool
is_open v4 d = true
is_open v6 d = d.open6

-- The callback of a receive has consumed the armed receive.
unfoldable pub received : Family → Demux → Demux
received v4 d = record d { receiving = false }
received v6 d = record d { receiving6 = false }

unfoldable pub on_packet :
    (Bytes → Option (ℕ × ℕ)) → Family → Option ErrorCode → Bytes → Demux → Demux
on_packet dcid f none buf d = do_recv f (post_packet d buf (route dcid d buf))
on_packet dcid f (some operation_aborted) buf d = d
on_packet dcid f (some _) buf d = if is_open f d then do_recv f d else d

unfoldable pub arm_send_retry : Demux → Demux
arm_send_retry d =
    let d' = record d { retry_armed = true } in
    if d.open6 then record d' { retry6_armed = true } else d'

unfoldable pub flushes : ℕ → List Post
flushes zero = []
flushes (suc n) = flushes n ++ flush n ∷ []

-- The callback of arm_write_watch; `ok` without an error.
unfoldable pub on_writable : Family → Bool → Demux → Demux
on_writable f ok d =
    let d' : Demux = elim f [
      | v4 ↦ record d { retry_armed = false }
      | v6 ↦ record d { retry6_armed = false }
    ] in
    if ok then record d' { posted = d'.posted ++ flushes d'.workers } else d'
