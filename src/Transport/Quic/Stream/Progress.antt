-- ===== src/Transport/Quic/Stream/Progress.antt =====
-- No write of a QuicTransportStream (src/transport/quic_transport.cpp) waits for nothing.
use reverse_proxy_server.Base.{
  ℕ, ◌+◌, ◌-◌, ◌≡◌, ◌≢◌, refl, sym, ap, subst, List, [], ◌∷◌, ◌++◌, Option, some, Bool, true, false,
  not, ◌||◌, arith, Bool-cases, inl, inr, if◌then◌else◌, leb, ◌==◌, length, min,
}
use reverse_proxy_server.Text.{Bytes}
use reverse_proxy_server.Http.Stream.{ErrorCode, eof, connection_reset}
use reverse_proxy_server.Transport.Quic.Stream.{
  QuicStream, WriteOp, WriteAnswer, room, write_reset, write_failed, call, block_write, advance,
  fail_write, flush_queue, write_front, pump_queue, pump_write, async_write_some, on_writeable,
  new_stream, fail_read, on_close, on_reset,
}
use reverse_proxy_server.Transport.Quic.Stream.Machine.{
  run-cons, async_shutdown-sent, Event, step, run, writes, writeable, reads, takes_headers,
  sends_headers, shuts_down, readable, closes, resets,
}
use reverse_proxy_server.Transport.Quic.Stream.Quiet.{
  WriteSide, write_side, Quiet, async_send_headers-Quiet, async_read_some-Quiet, fail_read-Quiet,
  finish_shutdown-Quiet, async_take_headers-Quiet, on_readable-Quiet, sent_shutdown-Quiet,
}

-- Writes wait only on an open stream that lsquic is asked to report writeable.
record Waits (w : WriteSide) : Type 0 where
  pub closed : w.live ≡ false → w.queue ≡ []
  pub blocked : w.writing ≡ true → w.want ≡ true
  pub wanted : w.queue ≢ [] → w.want ≡ true

empty-Waits :
    (l wr wa : Bool) (a : Bytes) (r : List (ℕ × Option ErrorCode × ℕ))
    → (wr ≡ true → wa ≡ true)
    → Waits (record { live = l; queue = []; writing = wr; want = wa; accepted = a; results = r })
empty-Waits l wr wa a r h = record {
  closed = λ _. refl;
  blocked = h;
  wanted = λ n. absurd (n refl);
}

-- `q` is behind the front of the queue.
write_front-Waits :
    (w : WriteAnswer) (op : WriteOp) (q : List WriteOp) (s : QuicStream)
    → s.live ≡ true
    → (s.writing ≡ true → s.want_write ≡ true)
    → (q ≢ [] → s.want_write ≡ true)
    → Waits (write_side (write_front w op q s))
unfolding write_front advance fail_write call block_write
write_front-Waits (room k) op q s o b h =
    let n = min k (length op.payload - op.offset) in
    elim (Bool-cases (n == 0)) [
      | inl z ↦ rw z (record { closed = λ e. cc; blocked = λ _. refl; wanted = λ _. refl })
      | inr z ↦ elim (Bool-cases (leb (length op.payload) (op.offset + n))) [
        | inl d ↦ rw (z, d) (record { closed = λ e. cc; blocked = b; wanted = h })
        | inr d ↦ rw (z, d) (record { closed = λ e. cc; blocked = λ _. refl; wanted = λ _. refl })
      ]
    ]
write_front-Waits write_reset op q s o b h = record { closed = λ e. cc; blocked = b; wanted = h }
write_front-Waits write_failed op q s o b h = record { closed = λ e. cc; blocked = b; wanted = h }

flush_queue-Waits :
    (e : ErrorCode) (s : QuicStream)
    → (s.writing ≡ true → s.want_write ≡ true)
    → Waits (write_side (flush_queue e s))
unfolding flush_queue
flush_queue-Waits e s h = empty-Waits _ _ _ _ _ h

if-Waits :
    (b : Bool) (x y : QuicStream)
    → (b ≡ true → Waits (write_side x))
    → (b ≡ false → Waits (write_side y))
    → Waits (write_side (if b then x else y))
if-Waits true x y hx hy = hx refl
if-Waits false x y hx hy = hy refl

-- The writes behind the front of the queue.
abbrev behind : List WriteOp → List WriteOp
behind [] = []
behind (op ∷ q) = q

pump_queue-Waits :
    (w : WriteAnswer) (q : List WriteOp) (s : QuicStream)
    → s.write_queue ≡ q
    → s.live ≡ true
    → (s.writing ≡ true → s.want_write ≡ true)
    → (behind q ≢ [] → s.want_write ≡ true)
    → Waits (write_side (pump_queue w q s))
unfolding pump_queue
pump_queue-Waits w [] s e o b h = record {
  closed = λ _. e;
  blocked = b;
  wanted = λ n. absurd (n e);
}
pump_queue-Waits w (op ∷ q) s e o b h = write_front-Waits w op q s o b h

pump_write-Waits :
    (w : WriteAnswer) (s : QuicStream)
    → (s.writing ≡ true → s.want_write ≡ true)
    → (behind s.write_queue ≢ [] → s.want_write ≡ true)
    → Waits (write_side (pump_write w s))
unfolding pump_write
pump_write-Waits w s b h =
    if-Waits (not s.live) _ _ (λ _. flush_queue-Waits eof s b)
      (λ o.
        let live : s.live ≡ true = ground (arith, o) in
        if-Waits s.writing _ _ (λ x. record { closed = λ e. cc; blocked = b; wanted = λ _. b x })
          (λ _. pump_queue-Waits w s.write_queue s refl live b h))

behind-append : (q : List WriteOp) (op : WriteOp) → q ≡ [] → behind (q ++ op ∷ []) ≡ []
behind-append [] op e = refl
behind-append (x ∷ q) op e = cc

async_write_some-Waits :
    (buf : Bytes) (cb : ℕ) (w : WriteAnswer) (s : QuicStream)
    → Waits (write_side s)
    → Waits (write_side (async_write_some buf cb w s))
unfolding async_write_some
async_write_some-Waits buf cb w s i =
    pump_write-Waits w
      (record s {
        write_queue = s.write_queue ++ record { payload = buf; offset = 0; cb = cb } ∷ [];
      })
      i.blocked (λ n. i.wanted (λ e. n (behind-append s.write_queue _ e)))

on_writeable-Waits :
    (w : WriteAnswer) (s : QuicStream)
    → Waits (write_side s)
    → Waits (write_side (on_writeable w s))
unfolding on_writeable
on_writeable-Waits w s i =
    pump_write-Waits w (record s { writing = false }) (λ e. cc)
      (λ n. i.wanted (λ e. n (ap behind e)))

idle-Waits : (w : WriteSide) → w.queue ≡ [] → w.writing ≡ false → Waits w
idle-Waits w e n = record { closed = λ _. e; blocked = λ b. cc; wanted = λ f. absurd (f e) }

on_close-Waits : (s : QuicStream) → Waits (write_side (on_close s))
unfolding on_close flush_queue
on_close-Waits s =
    let w = flush_queue eof (fail_read eof s.read_cb (record s { live = false })) in
    idle-Waits _ (ap (λ (w : WriteSide). w.queue) (finish_shutdown-Quiet s.shutdown_cb w)) refl

quiet : (s x : QuicStream) → Waits (write_side s) → Quiet s x → Waits (write_side x)
quiet s x i q = subst Waits (sym q) i

on_reset-Waits :
    (how : ℕ) (s : QuicStream) → Waits (write_side s) → Waits (write_side (on_reset how s))
unfolding on_reset flush_queue
on_reset-Waits how s i =
    let r = if how == 0 || how == 2 then fail_read connection_reset s.read_cb s else s in
    if-Waits (how == 1 || how == 2) (record (flush_queue connection_reset r) { writing = false }) r
      (λ _. idle-Waits _ refl refl)
      (λ _.
        if-Waits (how == 0 || how == 2) (fail_read connection_reset s.read_cb s) s
          (λ _.
            quiet s (fail_read connection_reset s.read_cb s) i
              (fail_read-Quiet connection_reset s.read_cb s))
          (λ _. i))

moved : (x t : QuicStream) → some x ≡ some t → Waits (write_side x) → Waits (write_side t)
moved x t h i = let eq : x ≡ t = cc in subst (λ y. Waits (write_side y)) eq i

quietly :
    (x t s : QuicStream) → some x ≡ some t → Waits (write_side s) → Quiet s x → Waits (write_side t)
quietly x t s h i q = moved x t h (quiet s x i q)

step-Waits :
    (e : Event) (s t : QuicStream) → step e s ≡ some t → Waits (write_side s) → Waits (write_side t)
step-Waits (writes buf cb w) s t h i = moved _ t h (async_write_some-Waits buf cb w s i)
step-Waits (writeable w) s t h i = moved _ t h (on_writeable-Waits w s i)
step-Waits (reads size cb) s t h i = quietly _ t s h i (async_read_some-Quiet size cb s)
step-Waits (takes_headers cb hset) s t h i = quietly _ t s h i (async_take_headers-Quiet cb hset s)
step-Waits (sends_headers l cb ok) s t h i = quietly _ t s h i (async_send_headers-Quiet l cb ok s)
step-Waits (shuts_down cb ok) s t h i =
    quietly _ t s (ap some (async_shutdown-sent cb ok s t h).1) i (sent_shutdown-Quiet cb ok s)
step-Waits (readable hset a) s t h i = quietly _ t s h i (on_readable-Quiet hset a s)
step-Waits closes s t h i = moved _ t h (on_close-Waits s)
step-Waits (resets how) s t h i = moved _ t h (on_reset-Waits how s i)

run-Waits :
    (es : List Event) (s t : QuicStream)
    → run es s ≡ some t
    → Waits (write_side s)
    → Waits (write_side t)
run-Waits [] s t h i = moved s t h i
run-Waits (e ∷ es) s t h i =
    let (u, k, rest) = run-cons e es s t h in run-Waits es u t rest (step-Waits e s u k i)

-- Whatever its user and lsquic do: while a write of the stream waits, the stream is open and lsquic is
-- asked to report when it is writeable, so that no write is forgotten; a closed stream has no write
-- left.
pub run-wanted :
    (es : List Event) (t : QuicStream)
    → run es new_stream ≡ some t
    → t.write_queue ≢ []
    → (t.live ≡ true) × (t.want_write ≡ true)
run-wanted es t h n =
    let i = run-Waits es new_stream t h (idle-Waits _ refl refl) in
    let want : t.want_write ≡ true = i.wanted n in
    elim (Bool-cases t.live) [ inl e ↦ (e, want) | inr e ↦ absurd (n (i.closed e)) ]
