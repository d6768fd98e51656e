-- ===== src/Transport/Quic/Stream/Delivery.antt =====
-- The writes of a QuicTransportStream (src/transport/quic_transport.cpp) all go out, from any state
-- that it comes to.
use reverse_proxy_server.Base.{
  ℕ, ◌+◌, ◌-◌, ◌≤◌, ◌<◌, ◌≡◌, ◌≢◌, refl, sym, ap, subst, List, [], ◌∷◌, ◌++◌, some, Bool, true,
  false, not, ◌||◌, arith, Bool-cases, inl, inr, if◌then◌else◌, leb, ◌==◌, length, min, All,
}
use reverse_proxy_server.Text.{Bytes}
use reverse_proxy_server.Http.Stream.{eof, connection_reset}
use reverse_proxy_server.Transport.Quic.Stream.{
  QuicStream, WriteOp, WriteAnswer, room, write_reset, write_failed, call, block_write, advance,
  flush_queue, fail_write, write_front, pump_queue, pump_write, on_writeable, async_write_some,
  fail_read, on_close, on_reset, new_stream,
}
use reverse_proxy_server.Transport.Quic.Stream.Machine.{
  run-cons, async_shutdown-sent, Event, step, run, writes, writeable, reads, takes_headers,
  sends_headers, shuts_down, readable, closes, resets,
}
use reverse_proxy_server.Transport.Quic.Stream.Quiet.{
  WriteSide, Quiet, async_send_headers-Quiet, async_read_some-Quiet, fail_read-Quiet,
  finish_shutdown-Quiet, async_take_headers-Quiet, on_readable-Quiet, sent_shutdown-Quiet,
}
use reverse_proxy_server.Transport.Quic.Stream.Order.{unsent}
use reverse_proxy_server.Transport.Quic.Stream.Drain.{IsPending, report, report-finishes}

All-append : (a b : List WriteOp) → All IsPending a → All IsPending b → All IsPending (a ++ b)
All-append [] b p q = q
All-append (op ∷ a) b p q = (p.0, All-append a b p.1 q)

write_front-Pending :
    (w : WriteAnswer) (op : WriteOp) (q : List WriteOp) (s : QuicStream)
    → s.write_queue ≡ op ∷ q
    → All IsPending (op ∷ q)
    → All IsPending (write_front w op q s).write_queue
unfolding write_front advance fail_write call block_write
write_front-Pending (room k) op q s e p =
    let n = min k (length op.payload - op.offset) in
    elim (Bool-cases (n == 0)) [
      | inl z ↦ rw (z, e) p
      | inr z ↦ elim (Bool-cases (leb (length op.payload) (op.offset + n))) [
        | inl d ↦ rw (z, d) p.1
        | inr d ↦ rw (z, d) (ground (arith, d), p.1)
      ]
    ]
write_front-Pending write_reset op q s e p = p.1
write_front-Pending write_failed op q s e p = p.1

pump_queue-Pending :
    (w : WriteAnswer) (q : List WriteOp) (s : QuicStream)
    → s.write_queue ≡ q
    → All IsPending q
    → All IsPending (pump_queue w q s).write_queue
unfolding pump_queue
pump_queue-Pending w [] s e p = subst (All IsPending) (sym e) p
pump_queue-Pending w (op ∷ q) s e p = write_front-Pending w op q s e p

if-Pending :
    (b : Bool) (x y : QuicStream)
    → All IsPending x.write_queue
    → All IsPending y.write_queue
    → All IsPending (if b then x else y).write_queue
if-Pending true x y hx hy = hx
if-Pending false x y hx hy = hy

pump_write-Pending :
    (w : WriteAnswer) (s : QuicStream)
    → All IsPending s.write_queue
    → All IsPending (pump_write w s).write_queue
unfolding pump_write flush_queue
pump_write-Pending w s p =
    if-Pending (not s.live) _ _ tt
      (if-Pending s.writing _ _ p (pump_queue-Pending w s.write_queue s refl p))

length-pos : (buf : Bytes) → buf ≢ [] → 0 < length buf
length-pos [] h = absurd (h refl)
length-pos (c ∷ buf) h = omega arith

-- No empty write is handed over.
abbrev pub IsSolid : Event → Type 0
IsSolid (writes buf cb w) = buf ≢ []
IsSolid _ = Unit

moved :
    (x t : QuicStream) → some x ≡ some t → All IsPending x.write_queue → All IsPending t.write_queue
moved x t h p = let eq : x ≡ t = cc in subst (λ y. All IsPending y.write_queue) eq p

quietly :
    (x t s : QuicStream)
    → some x ≡ some t
    → All IsPending s.write_queue
    → Quiet s x
    → All IsPending t.write_queue
quietly x t s h p q = moved x t h (subst (λ (w : WriteSide). All IsPending w.queue) (sym q) p)

on_close-Pending : (s : QuicStream) → All IsPending (on_close s).write_queue
unfolding on_close flush_queue
on_close-Pending s =
    let w = flush_queue eof (fail_read eof s.read_cb (record s { live = false })) in
    subst (λ (w : WriteSide). All IsPending w.queue) (sym (finish_shutdown-Quiet s.shutdown_cb w))
      tt

on_reset-Pending :
    (how : ℕ) (s : QuicStream)
    → All IsPending s.write_queue
    → All IsPending (on_reset how s).write_queue
unfolding on_reset flush_queue
on_reset-Pending how s p =
    let x = fail_read connection_reset s.read_cb s in
    let r = if how == 0 || how == 2 then x else s in
    if-Pending (how == 1 || how == 2) (record (flush_queue connection_reset r) { writing = false })
      r tt
      (if-Pending (how == 0 || how == 2) x s
        (subst (λ (w : WriteSide). All IsPending w.queue)
          (sym (fail_read-Quiet connection_reset s.read_cb s)) p)
        p)

step-Pending :
    (e : Event) (s t : QuicStream)
    → IsSolid e
    → step e s ≡ some t
    → All IsPending s.write_queue
    → All IsPending t.write_queue
unfolding async_write_some on_writeable
step-Pending (writes buf cb w) s t i h p =
    moved _ t h (pump_write-Pending w _ (All-append s.write_queue _ p (length-pos buf i, tt)))
step-Pending (writeable w) s t i h p = moved _ t h (pump_write-Pending w _ p)
step-Pending (reads size cb) s t i h p = quietly _ t s h p (async_read_some-Quiet size cb s)
step-Pending (takes_headers cb hset) s t i h p =
    quietly _ t s h p (async_take_headers-Quiet cb hset s)
step-Pending (sends_headers l cb ok) s t i h p =
    quietly _ t s h p (async_send_headers-Quiet l cb ok s)
step-Pending (shuts_down cb ok) s t i h p =
    quietly _ t s (ap some (async_shutdown-sent cb ok s t h).1) p (sent_shutdown-Quiet cb ok s)
step-Pending (readable hset a) s t i h p = quietly _ t s h p (on_readable-Quiet hset a s)
step-Pending closes s t i h p = moved _ t h (on_close-Pending s)
step-Pending (resets how) s t i h p = moved _ t h (on_reset-Pending how s p)

run-Pending :
    (es : List Event) (s t : QuicStream)
    → All IsSolid es
    → run es s ≡ some t
    → All IsPending s.write_queue
    → All IsPending t.write_queue
run-Pending [] s t i h p = moved s t h p
run-Pending (e ∷ es) s t i h p =
    let (u, k, rest) = run-cons e es s t h in
    run-Pending es u t i.1 rest (step-Pending e s u i.0 k p)

-- Whatever happened to a stream that was given no empty write: if it is open, and lsquic now reports
-- it writeable as many times as there are unsent bytes, or more, with room for something each time, then
-- no write is left, and all unsent bytes have been handed to lsquic in order.
pub run-drains :
    (es : List Event) (t : QuicStream) (ks : List ℕ)
    → All IsSolid es
    → run es new_stream ≡ some t
    → t.live ≡ true
    → All (λ k. 0 < k) ks
    → length (unsent t.write_queue) ≤ length ks
    → ((report ks t).write_queue ≡ [])
      × ((report ks t).accepted ≡ t.accepted ++ unsent t.write_queue)
run-drains es t ks i h o pos le = report-finishes ks t o (run-Pending es new_stream t i h tt) pos le
