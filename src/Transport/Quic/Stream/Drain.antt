-- ===== src/Transport/Quic/Stream/Drain.antt =====
-- A QuicTransportStream (src/transport/quic_transport.cpp) that lsquic keeps reporting writeable.
use reverse_proxy_server.Base.{
  ℕ, ◌+◌, ◌-◌, ◌≤◌, ◌<◌, ◌≡◌, ◌≢◌, refl, sym, ap, ◌∙◌, subst, List, [], ◌∷◌, ◌++◌, append-nil, true,
  false, arith, Bool-cases, inl, inr, leb, ◌==◌, length, min, drop, length-drop, length-append, All,
}
use reverse_proxy_server.Transport.Quic.Stream.{
  QuicStream, WriteOp, room, call, block_write, advance, write_front, pump_queue, pump_write,
  on_writeable,
}
use reverse_proxy_server.Transport.Quic.Stream.Order.{Content, unsent, content, pump_write-content}

-- A write that lsquic has not taken to its end.
abbrev pub IsPending : WriteOp → Type 0
IsPending op = op.offset < length op.payload

-- What a report that the stream is writeable leaves to write.
record Shorter (n : ℕ) (t : QuicStream) : Type 0 where
  pub live : t.live ≡ true
  pub pending : All IsPending t.write_queue
  pub left : length (unsent t.write_queue) ≤ n - 1

length-unsent_front :
    (op : WriteOp) (q : List WriteOp)
    → length (unsent (op ∷ q)) ≡ length op.payload - op.offset + length (unsent q)
length-unsent_front op q =
    length-append (drop op.offset op.payload) (unsent q)
    ∙ ap (λ n. n + length (unsent q)) (length-drop op.offset op.payload)

write_front-Shorter :
    (k : ℕ) (op : WriteOp) (q : List WriteOp) (s : QuicStream)
    → s.live ≡ true
    → 0 < k
    → All IsPending (op ∷ q)
    → Shorter (length (unsent (op ∷ q))) (write_front (room k) op q s)
unfolding write_front advance call block_write
write_front-Shorter k op q s o h p =
    let n = min k (length op.payload - op.offset) in
    let positive : n ≢ 0 = omega (arith, h, p.0) in
    elim (Bool-cases (n == 0)) [
      | inl z ↦ absurd (ground (arith, z, positive))
      | inr z ↦ elim (Bool-cases (leb (length op.payload) (op.offset + n))) [
        | inl d ↦
            rw (z, d)
              (record {
                live = o;
                pending = p.1;
                left = omega (arith, length-unsent_front op q, p.0);
              })
        | inr d ↦
            rw (z, d)
              (record {
                live = o;
                pending = (ground (arith, d), p.1);
                left =
                    let op' : WriteOp = record op { offset = op.offset + n } in
                    omega
                      (arith, length-unsent_front op q, length-unsent_front op' q, positive, p.0);
              })
      ]
    ]

on_writeable-pumps :
    (k : ℕ) (s : QuicStream)
    → s.live ≡ true
    → on_writeable (room k) s ≡ pump_queue (room k) s.write_queue (record s { writing = false })
unfolding on_writeable pump_write
on_writeable-pumps k s o = ground (arith, o)

on_writeable-Shorter :
    (k : ℕ) (s : QuicStream)
    → s.live ≡ true
    → 0 < k
    → All IsPending s.write_queue
    → Shorter (length (unsent s.write_queue)) (on_writeable (room k) s)
unfolding pump_queue
on_writeable-Shorter k s o h p =
    subst (Shorter (length (unsent s.write_queue))) (sym (on_writeable-pumps k s o))
      (by_queue s.write_queue refl)
  where
    by_queue :
        (q : List WriteOp)
        → s.write_queue ≡ q
        → Shorter (length (unsent q)) (pump_queue (room k) q (record s { writing = false }))
    by_queue [] e =
        let none_left : length (unsent s.write_queue) ≡ 0 = ap (λ q. length (unsent q)) e in
        record { live = o; pending = p; left = omega (arith, none_left) }
    by_queue (op ∷ q) e =
        write_front-Shorter k op q (record s { writing = false }) o h (subst (All IsPending) e p)

-- lsquic reports the stream writeable, with this room each time.
unfoldable pub report : List ℕ → QuicStream → QuicStream
report [] s = s
report (k ∷ ks) s = report ks (on_writeable (room k) s)

unsent_none : (q : List WriteOp) → All IsPending q → length (unsent q) ≡ 0 → q ≡ []
unsent_none [] p e = refl
unsent_none (op ∷ q) p e = absurd (omega (arith, length-unsent_front op q, p.0, e))

report-drains :
    (ks : List ℕ) (s : QuicStream)
    → s.live ≡ true
    → All IsPending s.write_queue
    → All (λ k. 0 < k) ks
    → length (unsent s.write_queue) ≤ length ks
    → (report ks s).write_queue ≡ []
unfolding report
report-drains [] s o p h le = unsent_none s.write_queue p (omega (arith, le))
report-drains (k ∷ ks) s o p h le =
    let less = on_writeable-Shorter k s o h.0 p in
    report-drains ks (on_writeable (room k) s) less.live less.pending h.1
      (omega (arith, le, less.left))

report-content : (ks : List ℕ) (s : QuicStream) → s.live ≡ true → content (report ks s) ≡ content s
unfolding report on_writeable
report-content [] s o = refl
report-content (k ∷ ks) s o =
    let now = pump_write-content k (record s { writing = false }) o in
    report-content ks (on_writeable (room k) s) (ap (λ (c : Content). c.0) now ∙ o) ∙ now

-- The reports hand over all that is unsent.
pub report-finishes :
    (ks : List ℕ) (s : QuicStream)
    → s.live ≡ true
    → All IsPending s.write_queue
    → All (λ k. 0 < k) ks
    → length (unsent s.write_queue) ≤ length ks
    → ((report ks s).write_queue ≡ [])
      × ((report ks s).accepted ≡ s.accepted ++ unsent s.write_queue)
report-finishes ks s o p h le =
    let t = report ks s in
    let empty = report-drains ks s o p h le in
    (
      empty,
      sym (append-nil t.accepted)
          ∙ ap (λ q. t.accepted ++ unsent q) (sym empty)
          ∙ ap (λ (c : Content). c.1) (report-content ks s o),
    )
