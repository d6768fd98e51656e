-- ===== src/Http/Stream.antt =====
-- ITransportStream of src/transport/itransport_stream.h, as its readers see it: the bytes and the
-- faults that arrive, in order. A read takes at most what fits its buffer, and its callback does not
-- fire before something has arrived.
use reverse_proxy_server.Base.{
  ℕ, suc, ◌+◌, ◌≢◌, List, [], ◌∷◌, ◌++◌, Option, none, some, leb, if◌then◌else◌, take, drop, length,
}
use reverse_proxy_server.Text.{Bytes}

-- The asio error codes that the code names.
pub data ErrorCode : Type 0 where
  eof connection_reset operation_aborted invalid_argument not_found : ErrorCode
  host_unreachable operation_not_supported message_size : ErrorCode
  system : ℕ → ErrorCode

pub data Arrival : Type 0 where
  bytes : Bytes → Arrival
  fault : ErrorCode → Arrival

abbrev pub Input : Type 0
Input = List Arrival

-- The arguments of a ReadCallback, with the input left behind it. `none` is no error.
pub record Read : Type 0 where
  pub ec : Option ErrorCode
  pub got : Bytes
  pub rest : Input

-- `none` where the callback stays pending. A fault is there again for the next read.
unfoldable pub read_some : ℕ → Input → Option Read
read_some cap [] = none
read_some cap (fault e ∷ i) = some (record { ec = some e; got = []; rest = fault e ∷ i })
read_some cap (bytes b ∷ i) =
    if leb (length b) cap
    then some (record { ec = none; got = b; rest = i })
    else some (record { ec = none; got = take cap b; rest = bytes (drop cap b) ∷ i })

-- All bytes that still arrive, up to the first fault.
abbrev pub arriving : Input → Bytes
arriving [] = []
arriving (fault e ∷ i) = []
arriving (bytes b ∷ i) = b ++ arriving i

-- A bound on the reads that the input serves.
abbrev pub reads_left : Input → ℕ
reads_left [] = 0
reads_left (fault e ∷ i) = suc (reads_left i)
reads_left (bytes b ∷ i) = suc (length b + reads_left i)

-- Segments with at least a byte each, and no fault.
abbrev pub Flows : Input → Type 0
Flows [] = Unit {0}
Flows (fault e ∷ i) = ⊥
Flows (bytes b ∷ i) = (b ≢ []) × Flows i
