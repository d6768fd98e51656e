-- ===== src/Transport/Quic/HeaderSet/Windows.antt =====
-- A header set (src/transport/quic_transport.cpp) while lsquic decodes a block into it.
use reverse_proxy_server.Base.{
  ℕ, ◌+◌, ◌≤◌, ◌≡◌, List, [], ◌∷◌, ◌++◌, Option, none, some, true, false,
}
use reverse_proxy_server.Text.{Bytes}
use reverse_proxy_server.H3.Heads.{HeaderList}
use reverse_proxy_server.Transport.Quic.HeaderSet.{
  QuicH3HeaderSet, decode_size, next_off, hsi_prepare_decode, hsi_process,
}

-- A field that lsquic decodes: the memory it asks for, the size it reports afterwards, and the field.
pub record Field : Type 0 where
  pub space : ℕ
  pub size : ℕ
  pub name : Bytes
  pub value : Bytes

-- A field with the window that it is decoded into: the offset and the size that lsquic is told.
pub record Window : Type 0 where
  pub off : ℕ
  pub room : ℕ
  pub field : Field

-- A field that gets a window or none, and what becomes of the fields behind it.
decoded :
    Field
    → (QuicH3HeaderSet → List Window × QuicH3HeaderSet)
    → QuicH3HeaderSet × Option (ℕ × ℕ)
    → List Window × QuicH3HeaderSet
decoded f behind (hs, none) = ([], hs)
decoded f behind (hs, some (off, room)) =
    let rest = behind (hsi_process (some (some f.name, some f.value)) hs).0 in
    (record { off = off; room = room; field = f } ∷ rest.0, rest.1)

-- The windows that the fields get, in order, and the set, until the buffer is full. `before` is the
-- size of the field before.
unfoldable pub decode : ℕ → List Field → QuicH3HeaderSet → List Window × QuicH3HeaderSet
unfolding decoded
decode before [] hs = ([], hs)
decode before (f ∷ fs) hs =
    decoded f (decode f.size fs) (hsi_prepare_decode false before f.space hs)

-- Windows in the buffer and as large as was asked, each of which begins where the field before, from
-- the window's begin on, ends.
abbrev pub InBuffer : ℕ → List Window → Type 0
InBuffer o [] = Unit
InBuffer o (w ∷ ws) =
    (w.off ≡ o)
    × (w.off + w.room ≤ decode_size)
    × (w.field.space ≤ w.room)
    × InBuffer (w.off + w.field.size) ws

abbrev pub fields_of : List Field → HeaderList
fields_of [] = []
fields_of (f ∷ fs) = (f.name, f.value) ∷ fields_of fs

after : ℕ → Field → QuicH3HeaderSet → QuicH3HeaderSet
after before f hs = record {
  headers = hs.headers ++ (f.name, f.value) ∷ [];
  decode_off = next_off before hs;
  have_xhdr = true;
}
