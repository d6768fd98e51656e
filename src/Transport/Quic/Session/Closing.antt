-- ===== src/Transport/Quic/Session/Closing.antt =====
-- How a QuicTransportSession (src/transport/quic_transport.cpp) ends.
use reverse_proxy_server.Base.{ℕ, ◌≤◌, ◌≡◌, refl, List, [], ◌∷◌, true, false, arith}
use reverse_proxy_server.Transport.Quic.Session.{
  QuicSession, new_session, set_new_stream_cb, set_closed_cb, open_stream, async_open_stream, close,
  give_stream, on_new_stream, tell_closed, on_closed, conn_closed_cb, Event, opens, asks, watches,
  closes_it, streams, ends, step, run,
}

-- lsquic is told to close at most once, and only by a session that then counts as closed; one
-- without a connection counts as closed and does not own itself.
record IsOrderly (s : QuicSession) : Type 0 where
  pub once : s.closes ≤ 1
  pub closer : s.closed ≡ false → s.closes ≡ 0
  pub gone : s.conn ≡ false → (s.closed ≡ true) × (s.self ≡ false)

step-IsOrderly : (e : Event) (s : QuicSession) → IsOrderly s → IsOrderly (step e s)
unfolding async_open_stream open_stream set_new_stream_cb set_closed_cb close on_new_stream
    conn_closed_cb give_stream on_closed tell_closed
step-IsOrderly (opens cb) s i = ground (arith, i)
step-IsOrderly asks s i = ground (arith, i)
step-IsOrderly (watches cb) s i = ground (arith, i)
step-IsOrderly closes_it s i = ground (arith, i)
step-IsOrderly (streams st) s i = ground (arith, i)
step-IsOrderly ends s i = ground (arith, i)

run-IsOrderly : (es : List Event) (s : QuicSession) → IsOrderly s → IsOrderly (run es s)
run-IsOrderly [] s i = i
run-IsOrderly (e ∷ es) s i = run-IsOrderly es (step e s) (step-IsOrderly e s i)

-- lsquic hears nothing more from the session.
record IsOver (m c : ℕ) (s : QuicSession) : Type 0 where
  pub gone : s.conn ≡ false
  pub made : s.made ≡ m
  pub closes : s.closes ≡ c

step-IsOver : (m c : ℕ) (e : Event) (s : QuicSession) → IsOver m c s → IsOver m c (step e s)
unfolding async_open_stream open_stream set_new_stream_cb set_closed_cb close on_new_stream
    conn_closed_cb give_stream
step-IsOver m c (opens cb) s i = ground (arith, i)
step-IsOver m c asks s i = ground (arith, i)
step-IsOver m c (watches cb) s i = ground (arith, i)
step-IsOver m c closes_it s i = ground (arith, i)
step-IsOver m c (streams st) s i = ground (arith, i)
step-IsOver m c ends s i = ground (arith, i)

run-IsOver : (m c : ℕ) (es : List Event) (s : QuicSession) → IsOver m c s → IsOver m c (run es s)
run-IsOver m c [] s i = i
run-IsOver m c (e ∷ es) s i = run-IsOver m c es (step e s) (step-IsOver m c e s i)

-- Whatever happens to a new session, it asks lsquic to close its connection at most once; once lsquic
-- has ended the connection, the session counts as closed and has given itself up, and whatever
-- follows, it neither closes the connection again nor asks it for a stream.
pub run-closes :
    (es fs : List Event)
    → (run es new_session).conn ≡ false
    → ((run es new_session).closes ≤ 1)
      × ((run es new_session).closed ≡ true)
      × ((run es new_session).self ≡ false)
      × ((run fs (run es new_session)).closes ≡ (run es new_session).closes)
      × ((run fs (run es new_session)).made ≡ (run es new_session).made)
run-closes es fs g =
    let t = run es new_session in
    let start : IsOrderly new_session = record {
      once = omega arith;
      closer = λ _. refl;
      gone = λ e. cc;
    } in
    let i = run-IsOrderly es new_session start in
    let over = run-IsOver t.made t.closes fs t (record { gone = g; made = refl; closes = refl }) in
    (i.once, (i.gone g).0, (i.gone g).1, over.closes, over.made)
