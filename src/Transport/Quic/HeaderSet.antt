-- ===== src/Transport/Quic/HeaderSet.antt =====
-- QuicH3HeaderSet of src/transport/quic_transport.h and the header-set interface of
-- src/transport/quic_transport.cpp. The memory that lsquic decodes a header into is a window of
-- `decode_buf`; the size that lsxpack_header_get_dec_size reports for the header before it is an
-- argument.
pub mod Windows
use reverse_proxy_server.Base.{
  ℕ, ◌+◌, ◌-◌, ◌*◌, List, [], ◌∷◌, ◌++◌, Option, none, some, Bool, true, false, if◌then◌else◌, ltb,
}
use reverse_proxy_server.Text.{Bytes}
use reverse_proxy_server.H3.Heads.{HeaderList}

pub record QuicH3HeaderSet : Type 0 where
  pub headers : HeaderList
  pub decode_off : ℕ
  pub have_xhdr : Bool

-- The size of `decode_buf`.
abbrev pub decode_size : ℕ
decode_size = 64 * 1024

abbrev pub hsi_create : QuicH3HeaderSet
hsi_create = record { headers = []; decode_off = 0; have_xhdr = false }

-- Where the next header is decoded to.
unfoldable pub next_off : ℕ → QuicH3HeaderSet → ℕ
next_off dec_size hs = if hs.have_xhdr then hs.decode_off + dec_size else hs.decode_off

-- The window's offset and size, if there is one. `again` where lsquic asks for more memory for the
-- same header.
unfoldable pub hsi_prepare_decode :
    Bool → ℕ → ℕ → QuicH3HeaderSet → QuicH3HeaderSet × Option (ℕ × ℕ)
unfolding next_off
hsi_prepare_decode again dec_size space hs =
    if again
    then (hs, none)
    else (let off = next_off dec_size hs in
        let hs' : QuicH3HeaderSet = record hs { decode_off = off; have_xhdr = true } in
        if ltb decode_size (off + space) then (hs', none) else (hs', some (off, decode_size - off)))

-- A header, or none at the end of the set; its name and value are null or not. With the result,
-- whether the header was accepted.
unfoldable pub hsi_process :
    Option (Option Bytes × Option Bytes) → QuicH3HeaderSet → QuicH3HeaderSet × Bool
hsi_process none hs = (hs, true)
hsi_process (some (none, value)) hs = (hs, false)
hsi_process (some (some name, none)) hs = (hs, false)
hsi_process (some (some name, some value)) hs =
    (record hs { headers = hs.headers ++ (name, value) ∷ [] }, true)
