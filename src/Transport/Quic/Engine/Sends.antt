-- ===== src/Transport/Quic/Engine/Sends.antt =====
-- What send_specs of src/transport/quic_demux.cpp reports to lsquic.
use reverse_proxy_server.Base.{
  ◌+◌, ◌≡◌, sym, ◌∙◌, List, [], ◌∷◌, ◌++◌, append_assoc, append-nil, Bool, true, false, ◌||◌,
  if◌then◌else◌, arith, length,
}
use reverse_proxy_server.Text.{Bytes}
use reverse_proxy_server.Transport.Quic.Engine.{
  OutSpec, SendAnswer, gone, send_blocked, send_error, Batch, has_fd, send_one, send_if, send_onto,
  send_specs,
}

-- Whether a datagram goes out, and whether it would block, with a socket or without.
abbrev pub goes_out : Bool → SendAnswer → Bool
goes_out false a = false
goes_out true gone = true
goes_out true send_blocked = false
goes_out true send_error = false

abbrev pub blocks : Bool → SendAnswer → Bool
blocks false a = false
blocks true gone = false
blocks true send_blocked = true
blocks true send_error = false

module _ (fd_v4 fd_v6 : Bool) where
  abbrev pub gone_out : List OutSpec → List Bytes
  gone_out [] = []
  gone_out (s ∷ ss) =
      if goes_out (has_fd fd_v4 fd_v6 s.family) s.answer
      then s.datagram ∷ gone_out ss
      else gone_out ss

  abbrev pub any_blocks : List OutSpec → Bool
  any_blocks [] = false
  any_blocks (s ∷ ss) = blocks (has_fd fd_v4 fd_v6 s.family) s.answer || any_blocks ss

-- What a batch has become, by the datagrams `l` and the answer `k` to whether one would block.
record Sent (l : List Bytes) (k : Bool) (b r : Batch) : Type 0 where
  pub out : r.out ≡ b.out ++ l
  pub sent : r.sent ≡ b.sent + length l
  pub blocked : r.blocked ≡ (b.blocked || k)

send_if-Sent :
    (h : Bool) (a : SendAnswer) (datagram : Bytes) (l : List Bytes) (k : Bool) (b r : Batch)
    → Sent l k (send_if h a datagram b) r
    → Sent (if goes_out h a then datagram ∷ l else l) (blocks h a || k) b r
unfolding send_if send_one
send_if-Sent false a datagram l k b r s = s
send_if-Sent true gone datagram l k b r s = record {
  out = s.out ∙ append_assoc b.out (datagram ∷ []) l;
  sent = omega (arith, s.sent);
  blocked = s.blocked;
}
send_if-Sent true send_blocked datagram l k b r s = record {
  out = s.out;
  sent = s.sent;
  blocked = ground (arith, s.blocked);
}
send_if-Sent true send_error datagram l k b r s = s

send_onto-Sent :
    (fd_v4 fd_v6 : Bool) (specs : List OutSpec) (b : Batch)
    → Sent
        (gone_out fd_v4 fd_v6 specs)
        (any_blocks fd_v4 fd_v6 specs)
        b
        (send_onto fd_v4 fd_v6 specs b)
unfolding send_onto
send_onto-Sent fd_v4 fd_v6 [] b = record {
  out = sym (append-nil b.out);
  sent = omega arith;
  blocked = ground arith;
}
send_onto-Sent fd_v4 fd_v6 (s ∷ ss) b =
    let h = has_fd fd_v4 fd_v6 s.family in
    send_if-Sent h s.answer s.datagram (gone_out fd_v4 fd_v6 ss) (any_blocks fd_v4 fd_v6 ss) b _
      (send_onto-Sent fd_v4 fd_v6 ss (send_if h s.answer s.datagram b))

-- send_specs sends the datagrams whose family has a socket and that the kernel takes, in order,
-- reports how many these are, and whether the kernel would have blocked on one.
pub send_specs-reports :
    (fd_v4 fd_v6 : Bool) (specs : List OutSpec)
    → ((send_specs fd_v4 fd_v6 specs).out ≡ gone_out fd_v4 fd_v6 specs)
      × ((send_specs fd_v4 fd_v6 specs).sent ≡ length (gone_out fd_v4 fd_v6 specs))
      × ((send_specs fd_v4 fd_v6 specs).blocked ≡ any_blocks fd_v4 fd_v6 specs)
unfolding send_specs
send_specs-reports fd_v4 fd_v6 specs =
    let s = send_onto-Sent fd_v4 fd_v6 specs (record { sent = 0; blocked = false; out = [] }) in
    (s.out, omega (arith, s.sent), s.blocked)
