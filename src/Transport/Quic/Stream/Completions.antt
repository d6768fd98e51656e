-- ===== src/Transport/Quic/Stream/Completions.antt =====
-- The callbacks of the writes of a QuicTransportStream (src/transport/quic_transport.cpp).
use reverse_proxy_server.Base.{
  ℕ, ◌≡◌, refl, sym, ap, ◌∙◌, List, [], ◌∷◌, ◌++◌, append_assoc, append-nil, Option, none, some,
  false, map, arith, Bool-cases, inl, inr, leb, ◌==◌, length, min, ◌+◌, ◌-◌,
}
use reverse_proxy_server.Text.{Bytes}
use reverse_proxy_server.Http.Stream.{ErrorCode, eof, connection_reset}
use reverse_proxy_server.Transport.Quic.Stream.{
  QuicStream, WriteOp, Called, WriteAnswer, room, write_reset, write_failed, write_done,
  flush_calls, flush_queue, block_write, advance, call, fail_write, write_front, pump_queue,
  pump_write, async_write_some, on_writeable, fail_read, on_close, on_reset, new_stream,
}
use reverse_proxy_server.Transport.Quic.Stream.Machine.{
  run-cons, async_shutdown-sent, written, queued, Event, step, run, submitted, writes, writeable,
  reads, takes_headers, sends_headers, shuts_down, readable, closes, resets,
}
use reverse_proxy_server.Transport.Quic.Stream.Quiet.{
  written-append, WriteSide, write_side, Quiet, fail_read-Quiet, finish_shutdown-Quiet,
  async_send_headers-Quiet, async_read_some-Quiet, async_take_headers-Quiet, on_readable-Quiet,
  sent_shutdown-Quiet,
}

abbrev pub callbacks : List (ℕ × Option ErrorCode × ℕ) → List ℕ
callbacks rs = map (λ r. r.0) rs

callbacks-append :
    (a b : List (ℕ × Option ErrorCode × ℕ)) → callbacks (a ++ b) ≡ callbacks a ++ callbacks b
callbacks-append [] b = refl
callbacks-append (r ∷ a) b = ap (◌∷◌ r.0) (callbacks-append a b)

callbacks-flush_calls :
    (e : ErrorCode) (q : List WriteOp) → callbacks (written (flush_calls e q)) ≡ queued q
unfolding flush_calls
callbacks-flush_calls e [] = refl
callbacks-flush_calls e (op ∷ q) = ap (◌∷◌ op.cb) (callbacks-flush_calls e q)

pub queued-append : (a b : List WriteOp) → queued (a ++ b) ≡ queued a ++ queued b
queued-append [] b = refl
queued-append (op ∷ a) b = ap (◌∷◌ op.cb) (queued-append a b)

-- The callbacks that were called and those that are still to be.
abbrev side_ledger : WriteSide → List ℕ
side_ledger w = callbacks w.results ++ queued w.queue

abbrev pub ledger : QuicStream → List ℕ
ledger s = side_ledger (write_side s)

flush_queue-ledger : (e : ErrorCode) (s : QuicStream) → ledger (flush_queue e s) ≡ ledger s
unfolding flush_queue
flush_queue-ledger e s =
    rw
      (
        append-nil,
        written-append s.called,
        callbacks-append (written s.called),
        callbacks-flush_calls e s.write_queue,
      )
      refl

-- The callback of the front write is called, and the write leaves the queue.
popped-ledger :
    (c : List Called) (op : WriteOp) (ec : Option ErrorCode) (n : ℕ) (q : List WriteOp)
    → callbacks (written (c ++ write_done op.cb ec n ∷ [])) ++ queued q
      ≡ callbacks (written c) ++ queued (op ∷ q)
popped-ledger c op ec n q =
    rw (written-append c, callbacks-append (written c))
      (append_assoc (callbacks (written c)) (op.cb ∷ []) (queued q))

write_front-ledger :
    (w : WriteAnswer) (op : WriteOp) (q : List WriteOp) (s : QuicStream)
    → s.write_queue ≡ op ∷ q
    → ledger (write_front w op q s) ≡ ledger s
unfolding write_front advance fail_write call block_write
write_front-ledger (room k) op q s e =
    rw e (elim (Bool-cases (min k (length op.payload - op.offset) == 0)) [
      | inl z ↦ rw z refl
      | inr z ↦
          elim (Bool-cases
            (leb (length op.payload) (op.offset + min k (length op.payload - op.offset)))) [
              | inl d ↦ rw (z, d) (popped-ledger s.called op none _ q)
              | inr d ↦ rw (z, d) refl
            ]
    ])
write_front-ledger write_reset op q s e = rw e (popped-ledger s.called op _ _ q)
write_front-ledger write_failed op q s e = rw e (popped-ledger s.called op _ _ q)

pump_queue-ledger :
    (w : WriteAnswer) (q : List WriteOp) (s : QuicStream)
    → s.write_queue ≡ q
    → ledger (pump_queue w q s) ≡ ledger s
unfolding pump_queue
pump_queue-ledger w [] s e = refl
pump_queue-ledger w (op ∷ q) s e = write_front-ledger w op q s e

pump_write-ledger : (w : WriteAnswer) (s : QuicStream) → ledger (pump_write w s) ≡ ledger s
unfolding pump_write
pump_write-ledger w s =
    ground (arith, flush_queue-ledger eof s, pump_queue-ledger w s.write_queue s refl)

async_write_some-ledger :
    (buf : Bytes) (cb : ℕ) (w : WriteAnswer) (s : QuicStream)
    → ledger (async_write_some buf cb w s) ≡ ledger s ++ cb ∷ []
unfolding async_write_some
async_write_some-ledger buf cb w s =
    pump_write-ledger w _
    ∙ rw (queued-append s.write_queue)
        (sym (append_assoc (callbacks (written s.called)) (queued s.write_queue) (cb ∷ [])))

on_writeable-ledger : (w : WriteAnswer) (s : QuicStream) → ledger (on_writeable w s) ≡ ledger s
unfolding on_writeable
on_writeable-ledger w s = pump_write-ledger w (record s { writing = false })

fail_read-ledger :
    (e : ErrorCode) (o : Option (ℕ × ℕ)) (s : QuicStream) → ledger (fail_read e o s) ≡ ledger s
fail_read-ledger e o s = ap side_ledger (fail_read-Quiet e o s)

on_close-ledger : (s : QuicStream) → ledger (on_close s) ≡ ledger s
unfolding on_close
on_close-ledger s =
    let r = fail_read eof s.read_cb (record s { live = false }) in
    ap side_ledger (finish_shutdown-Quiet s.shutdown_cb (flush_queue eof r))
    ∙ flush_queue-ledger eof r
    ∙ fail_read-ledger eof s.read_cb (record s { live = false })

on_reset-ledger : (how : ℕ) (s : QuicStream) → ledger (on_reset how s) ≡ ledger s
unfolding on_reset
on_reset-ledger how s = ground (
  arith,
  fail_read-ledger connection_reset s.read_cb s,
  flush_queue-ledger connection_reset s,
  flush_queue-ledger connection_reset (fail_read connection_reset s.read_cb s),
)

kept : (x t s : QuicStream) → some x ≡ some t → ledger x ≡ ledger s → ledger t ≡ ledger s ++ []
kept x t s h e = let same : x ≡ t = cc in sym (ap ledger same) ∙ e ∙ sym (append-nil (ledger s))

quiet : (x t s : QuicStream) → some x ≡ some t → Quiet s x → ledger t ≡ ledger s ++ []
quiet x t s h q = kept x t s h (ap side_ledger q)

-- The callbacks of the writes that were handed over.
abbrev pub submitted_cbs : List Event → List ℕ
submitted_cbs es = map (λ p. p.1) (submitted es)

step-ledger :
    (e : Event) (s t : QuicStream)
    → step e s ≡ some t
    → ledger t ≡ ledger s ++ submitted_cbs (e ∷ [])
step-ledger (writes buf cb w) s t h =
    let same : async_write_some buf cb w s ≡ t = cc in
    sym (ap ledger same) ∙ async_write_some-ledger buf cb w s
step-ledger (writeable w) s t h = kept _ t s h (on_writeable-ledger w s)
step-ledger (reads size cb) s t h = quiet _ t s h (async_read_some-Quiet size cb s)
step-ledger (takes_headers cb hset) s t h = quiet _ t s h (async_take_headers-Quiet cb hset s)
step-ledger (sends_headers l cb ok) s t h = quiet _ t s h (async_send_headers-Quiet l cb ok s)
step-ledger (shuts_down cb ok) s t h =
    quiet _ t s (ap some (async_shutdown-sent cb ok s t h).1) (sent_shutdown-Quiet cb ok s)
step-ledger (readable hset a) s t h = quiet _ t s h (on_readable-Quiet hset a s)
step-ledger closes s t h = kept _ t s h (on_close-ledger s)
step-ledger (resets how) s t h = kept _ t s h (on_reset-ledger how s)

submitted_cbs_cons :
    (e : Event) (es : List Event)
    → submitted_cbs (e ∷ es) ≡ submitted_cbs (e ∷ []) ++ submitted_cbs es
submitted_cbs_cons (writes _ _ _) es = refl
submitted_cbs_cons (writeable _) es = refl
submitted_cbs_cons (reads _ _) es = refl
submitted_cbs_cons (takes_headers _ _) es = refl
submitted_cbs_cons (sends_headers _ _ _) es = refl
submitted_cbs_cons (shuts_down _ _) es = refl
submitted_cbs_cons (readable _ _) es = refl
submitted_cbs_cons closes es = refl
submitted_cbs_cons (resets _) es = refl

run-ledger :
    (es : List Event) (s t : QuicStream)
    → run es s ≡ some t
    → ledger t ≡ ledger s ++ submitted_cbs es
run-ledger [] s t h = kept s t s h refl
run-ledger (e ∷ es) s t h =
    let (u, k, rest) = run-cons e es s t h in
    run-ledger es u t rest
    ∙ ap (λ l. l ++ submitted_cbs es) (step-ledger e s u k)
    ∙ append_assoc (ledger s) (submitted_cbs (e ∷ [])) (submitted_cbs es)
    ∙ ap (λ l. ledger s ++ l) (sym (submitted_cbs_cons e es))

-- Whatever its user and lsquic do, one call after the other, and however its writes end: as long as no
-- write callback calls the stream again before it returns, a new stream has called the callbacks of the
-- writes that it was given in the order in which it was given them, each of them once or not yet; those
-- that it has not called are in its queue.
pub run-completes :
    (es : List Event) (t : QuicStream)
    → run es new_stream ≡ some t
    → callbacks (written t.called) ++ queued t.write_queue ≡ submitted_cbs es
run-completes es t h = run-ledger es new_stream t h
