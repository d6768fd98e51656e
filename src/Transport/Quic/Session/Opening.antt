-- ===== src/Transport/Quic/Session/Opening.antt =====
-- Which callback of a QuicTransportSession (src/transport/quic_transport.cpp) gets a stream.
use reverse_proxy_server.Base.{
  ℕ, suc, ◌+◌, ◌≡◌, refl, sym, ◌∙◌, subst, List, [], ◌∷◌, ◌++◌, append_assoc, append-nil, map,
  Option, some, true, arith, length,
}
use reverse_proxy_server.Transport.Quic.Session.{
  QuicSession, stream_given, set_new_stream_cb, async_open_stream, give_stream, on_new_stream,
  Event, opens, streams, run,
}

-- The callbacks `cbs` and then `cb` are handed over, and the streams come after that.
abbrev pub late : List ℕ → ℕ → List (Option ℕ) → List Event
late [] cb sts = opens cb ∷ map (λ st. streams st) sts
late (c ∷ cbs) cb sts = opens c ∷ late cbs cb sts

gives :
    (sts : List (Option ℕ)) (cb : ℕ) (s : QuicSession)
    → s.new_stream_cb ≡ some cb
    → ((run (map (λ st. streams st) sts) s).called ≡ s.called ++ map (stream_given cb) sts)
      × ((run (map (λ st. streams st) sts) s).made ≡ s.made)
unfolding on_new_stream give_stream
gives [] cb s e = (sym (append-nil s.called), refl)
gives (st ∷ sts) cb s e =
    let t : QuicSession = record s { called = s.called ++ stream_given cb st ∷ [] } in
    let rest = gives sts cb t e in
    let same : on_new_stream st s ≡ t = rw e refl in
    subst
      (λ u.
        ((run (map (λ st. streams st) sts) u).called ≡ s.called ++ map (stream_given cb) (st ∷ sts))
        × ((run (map (λ st. streams st) sts) u).made ≡ s.made))
      (sym same)
      (rest.0 ∙ append_assoc s.called (stream_given cb st ∷ []) (map (stream_given cb) sts), rest.1)

opened :
    (cb : ℕ) (s : QuicSession)
    → s.conn ≡ true
    → async_open_stream cb s ≡ record s { new_stream_cb = some cb; made = suc s.made }
unfolding async_open_stream set_new_stream_cb
opened cb s o = rw o refl

-- When a stream is opened with several callbacks before the first stream arrives, each open asks lsquic
-- for a stream, and all streams that arrive then are given to the last of the callbacks.
pub late-streams :
    (cbs : List ℕ) (cb : ℕ) (sts : List (Option ℕ)) (s : QuicSession)
    → s.conn ≡ true
    → ((run (late cbs cb sts) s).called ≡ s.called ++ map (stream_given cb) sts)
      × ((run (late cbs cb sts) s).made ≡ s.made + length cbs + 1)
late-streams [] cb sts s o =
    let t : QuicSession = record s { new_stream_cb = some cb; made = suc s.made } in
    let g = gives sts cb t refl in
    subst
      (λ u.
        ((run (map (λ st. streams st) sts) u).called ≡ s.called ++ map (stream_given cb) sts)
        × ((run (map (λ st. streams st) sts) u).made ≡ s.made + 0 + 1))
      (sym (opened cb s o)) (g.0, omega (arith, g.1))
late-streams (c ∷ cbs) cb sts s o =
    let t : QuicSession = record s { new_stream_cb = some c; made = suc s.made } in
    let g = late-streams cbs cb sts t o in
    subst
      (λ u.
        ((run (late cbs cb sts) u).called ≡ s.called ++ map (stream_given cb) sts)
        × ((run (late cbs cb sts) u).made ≡ s.made + suc (length cbs) + 1))
      (sym (opened c s o)) (g.0, omega (arith, g.1))
