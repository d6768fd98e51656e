-- ===== src/Transport/Quic/Stream/Order.antt =====
-- The bytes of the writes of a QuicTransportStream (src/transport/quic_transport.cpp) while nothing
-- goes wrong.
use reverse_proxy_server.Base.{
  ℕ, zero, suc, ◌+◌, ◌-◌, ◌≤◌, ◌≡◌, ◌≢◌, refl, sym, ap, ◌∙◌, List, [], ◌∷◌, ◌++◌, append_assoc,
  append-nil, Option, none, some, Bool, true, false, arith, Bool-cases, inl, inr, leb, ◌==◌, length,
  min, take, drop, take-append-drop, All,
}
use reverse_proxy_server.Text.{Bytes}
use reverse_proxy_server.Http.Stream.{ErrorCode}
use reverse_proxy_server.Transport.Quic.Stream.{
  QuicStream, WriteOp, room, write_reset, write_failed, call, block_write, advance, write_front,
  pump_queue, pump_write, async_write_some, on_writeable, new_stream,
}
use reverse_proxy_server.Transport.Quic.Stream.Machine.{
  run-cons, async_shutdown-sent, written, Event, step, run, submitted, writes, writeable, reads,
  takes_headers, sends_headers, shuts_down, readable, closes, resets,
}
use reverse_proxy_server.Transport.Quic.Stream.Quiet.{
  written-append, WriteSide, write_side, Quiet, async_send_headers-Quiet, async_read_some-Quiet,
  async_take_headers-Quiet, on_readable-Quiet, sent_shutdown-Quiet,
}

drop-nil : (n : ℕ) → drop {A = ℕ} n [] ≡ []
drop-nil zero = refl
drop-nil (suc n) = refl

drop-drop : (o n : ℕ) (p : Bytes) → drop n (drop o p) ≡ drop (o + n) p
drop-drop zero n p = let e : 0 + n ≡ n = omega arith in rw e refl
drop-drop (suc o) n [] = drop-nil n ∙ sym (drop-nil (suc o + n))
drop-drop (suc o) n (c ∷ p) =
    let e : suc o + n ≡ suc (o + n) = omega arith in rw e (drop-drop o n p)

drop-all : (n : ℕ) (p : Bytes) → length p ≤ n → drop n p ≡ []
drop-all zero [] h = refl
drop-all (suc n) [] h = refl
drop-all zero (c ∷ p) h = ground arith
drop-all (suc n) (c ∷ p) h = drop-all n p (omega arith)

-- What is taken of the front of the queue at its end.
at_end : (n o l : ℕ) → n ≢ 0 → n ≤ l - o → leb l (o + n) ≡ true → o + n ≡ l
at_end n o l nz le d = ground (arith, nz, le, d)

take-drop : (o n : ℕ) (p : Bytes) → take n (drop o p) ++ drop (o + n) p ≡ drop o p
take-drop o n p = rw (sym (drop-drop o n p)) (take-append-drop n (drop o p))

take-drop_all : (o n : ℕ) (p : Bytes) → length p ≤ o + n → take n (drop o p) ≡ drop o p
take-drop_all o n p h =
    sym (append-nil (take n (drop o p)))
    ∙ ap (λ l. take n (drop o p) ++ l) (sym (drop-all (o + n) p h))
    ∙ take-drop o n p

-- The bytes that lsquic has not taken.
abbrev pub unsent : List WriteOp → Bytes
unsent [] = []
unsent (op ∷ q) = drop op.offset op.payload ++ unsent q

-- How the queued writes are to end.
abbrev pub due : List WriteOp → List (ℕ × Option ErrorCode × ℕ)
due [] = []
due (op ∷ q) = (op.cb, none, length op.payload) ∷ due q

pub unsent-append : (a b : List WriteOp) → unsent (a ++ b) ≡ unsent a ++ unsent b
unsent-append [] b = refl
unsent-append (op ∷ a) b =
    ap (λ l. drop op.offset op.payload ++ l) (unsent-append a b)
    ∙ sym (append_assoc (drop op.offset op.payload) (unsent a) (unsent b))

due-append : (a b : List WriteOp) → due (a ++ b) ≡ due a ++ due b
due-append [] b = refl
due-append (op ∷ a) b = ap (◌∷◌ (op.cb, none, length op.payload)) (due-append a b)

-- The bytes of all writes, taken or not, and the results of all writes, had or due.
abbrev pub Content : Type 0
Content = Bool × Bytes × List (ℕ × Option ErrorCode × ℕ)

abbrev pub side_content : WriteSide → Content
side_content w = (w.live, w.accepted ++ unsent w.queue, w.results ++ due w.queue)

abbrev pub content : QuicStream → Content
content s = side_content (write_side s)

same :
    (l : Bool) (a b : Bytes) (r t : List (ℕ × Option ErrorCode × ℕ))
    → a ≡ b
    → r ≡ t
    → Path (Content) (l, a, r) (l, b, t)
same l a b r t p q = cc

advance-content :
    (n : ℕ) (op : WriteOp) (q : List WriteOp) (s : QuicStream)
    → s.write_queue ≡ op ∷ q
    → n ≢ 0
    → n ≤ length op.payload - op.offset
    → content (advance n op q s) ≡ content s
unfolding advance call block_write
advance-content n op q s e nz le = elim (Bool-cases (leb (length op.payload) (op.offset + n))) [
  | inl d ↦
      let full : op.offset + n ≡ length op.payload =
        at_end n op.offset (length op.payload) nz le d in
      let all : length op.payload ≤ op.offset + n = omega (arith, full) in
      rw (d, e, full, written-append s.called, take-drop_all op.offset n op.payload all)
        (same s.live _ _ _ _ (append_assoc s.accepted (drop op.offset op.payload) (unsent q))
          (append_assoc (written s.called) ((op.cb, none, length op.payload) ∷ []) (due q)))
  | inr d ↦
      rw (d, e)
        (same s.live _ _ _ _
          (append_assoc s.accepted (take n (drop op.offset op.payload))
              (drop (op.offset + n) op.payload ++ unsent q)
            ∙ ap (λ l. s.accepted ++ l)
                (sym (
                  append_assoc (take n (drop op.offset op.payload))
                    (drop (op.offset + n) op.payload) (unsent q)))
            ∙ ap (λ l. s.accepted ++ (l ++ unsent q)) (take-drop op.offset n op.payload))
          refl)
]

write_front-content :
    (k : ℕ) (op : WriteOp) (q : List WriteOp) (s : QuicStream)
    → s.write_queue ≡ op ∷ q
    → content (write_front (room k) op q s) ≡ content s
unfolding write_front block_write
write_front-content k op q s e =
    let n = min k (length op.payload - op.offset) in
    elim (Bool-cases (n == 0)) [
      | inl z ↦ rw z refl
      | inr z ↦ rw z (advance-content n op q s e (ground (arith, z)) (omega arith))
    ]

pump_queue-content :
    (k : ℕ) (q : List WriteOp) (s : QuicStream)
    → s.write_queue ≡ q
    → content (pump_queue (room k) q s) ≡ content s
unfolding pump_queue
pump_queue-content k [] s e = refl
pump_queue-content k (op ∷ q) s e = write_front-content k op q s e

pub pump_write-content :
    (k : ℕ) (s : QuicStream) → s.live ≡ true → content (pump_write (room k) s) ≡ content s
unfolding pump_write
pump_write-content k s o = ground (arith, o, pump_queue-content k s.write_queue s refl)

-- The bytes of the writes that were handed over, and how these are to end.
abbrev pub handed_bytes : List (Bytes × ℕ) → Bytes
handed_bytes [] = []
handed_bytes ((buf, cb) ∷ ws) = buf ++ handed_bytes ws

abbrev pub handed_results : List (Bytes × ℕ) → List (ℕ × Option ErrorCode × ℕ)
handed_results [] = []
handed_results ((buf, cb) ∷ ws) = (cb, none, length buf) ∷ handed_results ws

-- lsquic takes what it has room for, and neither closes nor resets the stream.
abbrev pub IsSmooth : Event → Type 0
IsSmooth (writes buf cb (room k)) = Unit
IsSmooth (writes buf cb _) = ⊥
IsSmooth (writeable (room k)) = Unit
IsSmooth (writeable _) = ⊥
IsSmooth closes = ⊥
IsSmooth (resets how) = ⊥
IsSmooth _ = Unit

-- The content, with the writes `ws` that are added.
abbrev extended : QuicStream → List (Bytes × ℕ) → Content
extended s ws = (s.live, (content s).1 ++ handed_bytes ws, (content s).2 ++ handed_results ws)

quiet : (x t s : QuicStream) → some x ≡ some t → Quiet s x → content t ≡ extended s []
quiet x t s h q =
    let eq : x ≡ t = cc in
    sym (ap content eq)
    ∙ ap side_content q
    ∙ same s.live _ _ _ _ (sym (append-nil _)) (sym (append-nil _))

async_write_some-content :
    (buf : Bytes) (cb k : ℕ) (s : QuicStream)
    → s.live ≡ true
    → content (async_write_some buf cb (room k) s) ≡ extended s ((buf, cb) ∷ [])
unfolding async_write_some
async_write_some-content buf cb k s o =
    let op : WriteOp = record { payload = buf; offset = 0; cb = cb } in
    pump_write-content k (record s { write_queue = s.write_queue ++ op ∷ [] }) o
    ∙ same s.live _ _ _ _
        (ap (λ l. s.accepted ++ l) (unsent-append s.write_queue (op ∷ []))
          ∙ sym (append_assoc s.accepted (unsent s.write_queue) (unsent (op ∷ []))))
        (ap (λ l. written s.called ++ l) (due-append s.write_queue (op ∷ []))
          ∙ sym (append_assoc (written s.called) (due s.write_queue) (due (op ∷ []))))

step-content :
    (e : Event) (s t : QuicStream)
    → IsSmooth e
    → s.live ≡ true
    → step e s ≡ some t
    → content t ≡ extended s (submitted (e ∷ []))
unfolding on_writeable
step-content (writes buf cb (room k)) s t i o h =
    let eq : async_write_some buf cb (room k) s ≡ t = cc in
    sym (ap content eq) ∙ async_write_some-content buf cb k s o
step-content (writes buf cb write_reset) s t i o h = absurd i
step-content (writes buf cb write_failed) s t i o h = absurd i
step-content (writeable (room k)) s t i o h =
    let eq : on_writeable (room k) s ≡ t = cc in
    sym (ap content eq)
    ∙ pump_write-content k (record s { writing = false }) o
    ∙ same s.live _ _ _ _ (sym (append-nil _)) (sym (append-nil _))
step-content (writeable write_reset) s t i o h = absurd i
step-content (writeable write_failed) s t i o h = absurd i
step-content (reads size cb) s t i o h = quiet _ t s h (async_read_some-Quiet size cb s)
step-content (takes_headers cb hset) s t i o h = quiet _ t s h (async_take_headers-Quiet cb hset s)
step-content (sends_headers l cb ok) s t i o h = quiet _ t s h (async_send_headers-Quiet l cb ok s)
step-content (shuts_down cb ok) s t i o h =
    quiet _ t s (ap some (async_shutdown-sent cb ok s t h).1) (sent_shutdown-Quiet cb ok s)
step-content (readable hset a) s t i o h = quiet _ t s h (on_readable-Quiet hset a s)
step-content closes s t i o h = absurd i
step-content (resets how) s t i o h = absurd i

extended-cons :
    (e : Event) (es : List Event) (s t : QuicStream)
    → content t ≡ extended s (submitted (e ∷ []))
    → extended t (submitted es) ≡ extended s (submitted (e ∷ es))
extended-cons e es s t h =
    ap
      (λ (c : Content).
        (c.0, c.1 ++ handed_bytes (submitted es), c.2 ++ handed_results (submitted es)))
      h
    ∙ by_event e
  where
    none_added :
        Path Content
          (
            s.live,
            ((content s).1 ++ []) ++ handed_bytes (submitted es),
            ((content s).2 ++ []) ++ handed_results (submitted es),
          )
          (extended s (submitted es))
    none_added =
        same s.live _ _ _ _ (ap (λ l. l ++ handed_bytes (submitted es)) (append-nil (content s).1))
          (ap (λ l. l ++ handed_results (submitted es)) (append-nil (content s).2))

    by_event :
        (e : Event)
        → Path
            (Content)
            (
              s.live,
              ((content s).1 ++ handed_bytes (submitted (e ∷ []))) ++ handed_bytes (submitted es),
              ((content s).2 ++ handed_results (submitted (e ∷ [])))
                  ++ handed_results (submitted es),
            )
            (extended s (submitted (e ∷ es)))
    by_event (writes buf cb w) =
        same s.live _ _ _ _
          (rw (append-nil buf) (append_assoc (content s).1 buf (handed_bytes (submitted es))))
          (append_assoc (content s).2 ((cb, none, length buf) ∷ []) (handed_results (submitted es)))
    by_event (writeable _) = none_added
    by_event (reads _ _) = none_added
    by_event (takes_headers _ _) = none_added
    by_event (sends_headers _ _ _) = none_added
    by_event (shuts_down _ _) = none_added
    by_event (readable _ _) = none_added
    by_event closes = none_added
    by_event (resets _) = none_added

run-content :
    (es : List Event) (s t : QuicStream)
    → All IsSmooth es
    → s.live ≡ true
    → run es s ≡ some t
    → content t ≡ extended s (submitted es)
run-content [] s t i o h =
    let eq : s ≡ t = cc in
    sym (ap content eq) ∙ same s.live _ _ _ _ (sym (append-nil _)) (sym (append-nil _))
run-content (e ∷ es) s t i o h =
    let (u, k, rest) = run-cons e es s t h in
    let now = step-content e s u i.0 o k in
    run-content es u t i.1 (ap (λ (c : Content). c.0) now ∙ o) rest ∙ extended-cons e es s u now

-- A new stream that lsquic neither closes nor resets, and whose writes lsquic takes as far as it
-- has room, hands lsquic the bytes of its writes one after the other without loss: what lsquic has
-- taken and what is still queued are all bytes of all writes in the order of the calls. The write
-- callbacks called and those to come are those of the writes in that order, each with no error and
-- the size of its write.
pub run-fifo :
    (es : List Event) (t : QuicStream)
    → All IsSmooth es
    → run es new_stream ≡ some t
    → (t.accepted ++ unsent t.write_queue ≡ handed_bytes (submitted es))
      × (written t.called ++ due t.write_queue ≡ handed_results (submitted es))
run-fifo es t i h =
    let c = run-content es new_stream t i refl h in
    (ap (λ (c : Content). c.1) c, ap (λ (c : Content). c.2) c)
