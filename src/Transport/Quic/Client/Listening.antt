-- ===== src/Transport/Quic/Client/Listening.antt =====
-- The connections and receives of a QuicClientEngine (src/transport/quic_transport.cpp).
use reverse_proxy_server.Base.{
  ℕ, ◌≡◌, refl, sym, ap, ◌∙◌, subst, List, [], ◌∷◌, ◌++◌, append-nil, Option, none, some, Bool,
  true, false, ◌&&◌, ◌||◌, if◌then◌else◌, is_some, arith, All,
}
use reverse_proxy_server.Text.{Bytes}
use reverse_proxy_server.Http.Message.{ℤ}
use reverse_proxy_server.Http.Stream.{ErrorCode}
use reverse_proxy_server.Proxy.Config.{BackendEndpoint}
use reverse_proxy_server.Transport.Demux.{Family, v4, v6}
use reverse_proxy_server.Transport.Quic.Engine.{send_unsent, OutSpec}
use reverse_proxy_server.Transport.Quic.Client.{
  QuicClientEngine, new_client, client_tell, client_recv, client_schedule_tick, client_start,
  client_on_tick, ensure_v6_socket, client_on_new_conn, connect_engine, connect_from, connect,
  is_aborted, client_received, client_on_packet, client_arm_watch, client_arm_retry, client_disarm,
  client_on_writable, client_packets_out,
}

pub data Event : Type 0 where
  connects : BackendEndpoint → Option Family → Bool → Option ℕ → ℕ → ℤ → Event
  packets : Option ErrorCode → Bytes → Family → ℕ → ℤ → Event
  ticks : Option ErrorCode → ℕ → ℤ → Event
  writables : Family → Bool → Bool → Event
  packets_out : List OutSpec → Event

abbrev pub step : Event → QuicClientEngine → QuicClientEngine
step (connects ep peer binds conn next diff) e = (connect ep peer binds conn next diff e).0
step (packets ec buf f next diff) e = client_on_packet ec buf f next diff (client_received f e)
step (ticks ec next diff) e = client_on_tick ec next diff e
step (writables f ok unsent) e = client_on_writable f ok unsent e
step (packets_out specs) e = (client_packets_out specs e).1

abbrev pub run : List Event → QuicClientEngine → QuicClientEngine
run [] e = e
run (x ∷ xs) e = run xs (step x e)

-- No receive is cancelled.
abbrev pub IsUsed : Event → Type 0
IsUsed (packets none buf f next diff) = Unit
IsUsed (packets (some ec) buf f next diff) = is_aborted ec ≡ false
IsUsed _ = Unit

pub record IsListening (e : QuicClientEngine) : Type 0 where
  pub usable : e.engine ≡ true
  pub first : e.started ≡ true → e.receiving ≡ true
  pub second : e.open6 ≡ true → e.receiving6 ≡ true

connect_engine-IsListening :
    (ep : BackendEndpoint) (conn : Option ℕ) (next : ℕ) (diff : ℤ) (e : QuicClientEngine)
    → IsListening e
    → IsListening (connect_engine ep conn next diff e).0
unfolding connect_engine client_on_new_conn client_schedule_tick client_tell
connect_engine-IsListening ep none next diff e i = record {
  usable = i.usable;
  first = i.first;
  second = i.second;
}
connect_engine-IsListening ep (some c) next diff e i = record {
  usable = i.usable;
  first = i.first;
  second = i.second;
}

ensure_v6_socket-IsListening :
    (binds : Bool) (e : QuicClientEngine) → IsListening e → IsListening (ensure_v6_socket binds e).0
unfolding ensure_v6_socket client_recv
ensure_v6_socket-IsListening binds e i = ground (arith, i)

connect_from-IsListening :
    (ep : BackendEndpoint) (peer : Option Family) (binds : Bool) (conn : Option ℕ) (next : ℕ)
    (diff : ℤ) (e : QuicClientEngine)
    → IsListening e
    → IsListening (connect_from ep peer binds conn next diff e).0
unfolding connect_from
connect_from-IsListening ep none binds conn next diff e i = i
connect_from-IsListening ep (some v4) binds conn next diff e i =
    connect_engine-IsListening ep conn next diff e i
connect_from-IsListening ep (some v6) binds conn next diff e i =
    let p = ensure_v6_socket binds e in
    let j = ensure_v6_socket-IsListening binds e i in
    ground (arith, j, connect_engine-IsListening ep conn next diff p.0 j)

-- The engine at the choice of the socket.
abbrev at_socket : ℕ → ℤ → QuicClientEngine → QuicClientEngine
at_socket next diff e =
    if e.started then e else record (client_start next diff e) { started = true }

at_socket-IsListening :
    (next : ℕ) (diff : ℤ) (e : QuicClientEngine)
    → IsListening e
    → IsListening (at_socket next diff e)
unfolding client_start client_recv client_schedule_tick
at_socket-IsListening next diff e i = ground (arith, i)

connect-IsListening :
    (ep : BackendEndpoint) (peer : Option Family) (binds : Bool) (conn : Option ℕ) (next : ℕ)
    (diff : ℤ) (e : QuicClientEngine)
    → IsListening e
    → IsListening (connect ep peer binds conn next diff e).0
unfolding connect
connect-IsListening ep peer binds conn next diff e i =
    let s = at_socket next diff e in
    ground (
      arith,
      i,
      connect_from-IsListening ep peer binds conn next diff s (at_socket-IsListening next diff e i),
    )

client_on_packet-IsListening :
    (ec : Option ErrorCode) (buf : Bytes) (f : Family) (next : ℕ) (diff : ℤ) (e : QuicClientEngine)
    → IsUsed (packets ec buf f next diff)
    → IsListening e
    → IsListening (client_on_packet ec buf f next diff (client_received f e))
unfolding client_on_packet client_received client_tell client_schedule_tick client_recv
client_on_packet-IsListening none buf v4 next diff e u i = ground (arith, i)
client_on_packet-IsListening none buf v6 next diff e u i = ground (arith, i)
client_on_packet-IsListening (some ec) buf v4 next diff e u i = ground (arith, i, u)
client_on_packet-IsListening (some ec) buf v6 next diff e u i = ground (arith, i, u)

client_arm_retry-IsListening :
    (e : QuicClientEngine) → IsListening e → IsListening (client_arm_retry e)
unfolding client_arm_retry client_arm_watch
client_arm_retry-IsListening e i = ground (arith, i)

client_on_writable-IsListening :
    (f : Family) (ok unsent : Bool) (e : QuicClientEngine)
    → IsListening e
    → IsListening (client_on_writable f ok unsent e)
unfolding client_on_writable client_tell
client_on_writable-IsListening f ok unsent e i =
    let d = client_disarm f e in
    let j : IsListening d = disarmed f in
    let t = client_tell send_unsent d in
    let k : IsListening t = record { usable = j.usable; first = j.first; second = j.second } in
    ground (arith, j, k, client_arm_retry-IsListening t k)
  where
    disarmed : (f : Family) → IsListening (client_disarm f e)
    disarmed v4 = record { usable = i.usable; first = i.first; second = i.second }
    disarmed v6 = record { usable = i.usable; first = i.first; second = i.second }

step-IsListening :
    (x : Event) (e : QuicClientEngine) → IsUsed x → IsListening e → IsListening (step x e)
unfolding client_on_tick client_packets_out client_tell client_schedule_tick
step-IsListening (connects ep peer binds conn next diff) e u i =
    connect-IsListening ep peer binds conn next diff e i
step-IsListening (packets ec buf f next diff) e u i =
    client_on_packet-IsListening ec buf f next diff e u i
step-IsListening (ticks none next diff) e u i = record {
  usable = i.usable;
  first = i.first;
  second = i.second;
}
step-IsListening (ticks (some ec) next diff) e u i = i
step-IsListening (writables f ok unsent) e u i = client_on_writable-IsListening f ok unsent e i
step-IsListening (packets_out specs) e u i = ground (arith, i, client_arm_retry-IsListening e i)

run-IsListening :
    (xs : List Event) (e : QuicClientEngine)
    → All IsUsed xs
    → IsListening e
    → IsListening (run xs e)
run-IsListening [] e u i = i
run-IsListening (x ∷ xs) e u i = run-IsListening xs (step x e) u.1 (step-IsListening x e u.0 i)

-- Whether a connect leads to a connection: the name resolves, the family has a socket, and lsquic
-- gives a connection.
abbrev pub reachable : Option Family → Bool → Bool → Bool
reachable none binds open6 = false
reachable (some v4) binds open6 = true
reachable (some v6) binds open6 = open6 || binds

abbrev pub gained : Bool → Option ℕ → BackendEndpoint → List (ℕ × Option BackendEndpoint)
gained true (some c) ep = (c, some ep) ∷ []
gained _ _ ep = []

-- What connect_engine and connect_from give.
record Outcome (r : Bool) (ep : BackendEndpoint) (conn : Option ℕ) (e : QuicClientEngine)
    (p : QuicClientEngine × Bool) : Type 0 where
  pub result : p.1 ≡ (r && is_some conn)
  pub sessions : p.0.sessions ≡ e.sessions ++ gained r conn ep
  pub started : p.0.started ≡ e.started

connect_engine-Outcome :
    (ep : BackendEndpoint) (conn : Option ℕ) (next : ℕ) (diff : ℤ) (e : QuicClientEngine)
    → Outcome true ep conn e (connect_engine ep conn next diff e)
unfolding connect_engine client_on_new_conn client_schedule_tick client_tell
connect_engine-Outcome ep none next diff e = record {
  result = refl;
  sessions = sym (append-nil e.sessions);
  started = refl;
}
connect_engine-Outcome ep (some c) next diff e = record {
  result = refl;
  sessions = refl;
  started = refl;
}

by_socket :
    (b : Bool) (ep : BackendEndpoint) (conn : Option ℕ) (next : ℕ) (diff : ℤ)
    (e u : QuicClientEngine)
    → u.sessions ≡ e.sessions
    → u.started ≡ e.started
    → Outcome b ep conn e (if b then connect_engine ep conn next diff u else (u, false))
by_socket true ep conn next diff e u h k =
    let o = connect_engine-Outcome ep conn next diff u in
    record {
      result = o.result;
      sessions = o.sessions ∙ ap (λ l. l ++ gained true conn ep) h;
      started = o.started ∙ k;
    }
by_socket false ep conn next diff e u h k = record {
  result = refl;
  sessions = h ∙ sym (append-nil e.sessions);
  started = k;
}

ensure_v6_socket_lem :
    (binds : Bool) (e : QuicClientEngine)
    → ((ensure_v6_socket binds e).1 ≡ (e.open6 || binds))
      × ((ensure_v6_socket binds e).0.sessions ≡ e.sessions)
      × ((ensure_v6_socket binds e).0.started ≡ e.started)
unfolding ensure_v6_socket client_recv
ensure_v6_socket_lem binds e = ground arith

connect_from-Outcome :
    (ep : BackendEndpoint) (peer : Option Family) (binds : Bool) (conn : Option ℕ) (next : ℕ)
    (diff : ℤ) (e : QuicClientEngine)
    → Outcome (reachable peer binds e.open6) ep conn e (connect_from ep peer binds conn next diff e)
unfolding connect_from
connect_from-Outcome ep none binds conn next diff e = record {
  result = refl;
  sessions = sym (append-nil e.sessions);
  started = refl;
}
connect_from-Outcome ep (some v4) binds conn next diff e =
    connect_engine-Outcome ep conn next diff e
connect_from-Outcome ep (some v6) binds conn next diff e =
    let p = ensure_v6_socket binds e in
    let l = ensure_v6_socket_lem binds e in
    subst
      (λ b.
        Outcome b ep conn e (if p.1 then connect_engine ep conn next diff p.0 else (p.0, false)))
      l.0 (by_socket p.1 ep conn next diff e p.0 l.1 l.2)

at_socket_lem :
    (next : ℕ) (diff : ℤ) (e : QuicClientEngine)
    → ((at_socket next diff e).sessions ≡ e.sessions)
      × ((at_socket next diff e).open6 ≡ e.open6)
      × ((at_socket next diff e).started ≡ true)
unfolding client_start client_recv client_schedule_tick
at_socket_lem next diff e = ground arith

usable_connect :
    (ep : BackendEndpoint) (peer : Option Family) (binds : Bool) (conn : Option ℕ) (next : ℕ)
    (diff : ℤ) (e : QuicClientEngine)
    → e.engine ≡ true
    → connect ep peer binds conn next diff e
      ≡ connect_from ep peer binds conn next diff (at_socket next diff e)
unfolding connect
usable_connect ep peer binds conn next diff e u = ground (arith, u)

-- After any connects, datagrams, receive errors, ticks and blocked sends, as long as no receive has been
-- cancelled, a connect succeeds just if the name resolves, a socket of the address's family is there
-- or opens, and lsquic gives a connection. Then the pool has got one more session, for just this
-- endpoint, else none. The receive of IPv4 is armed from then on, and that of IPv6 if its socket is
-- open, after whatever follows.
pub connect-gains :
    (xs ys : List Event) (ep : BackendEndpoint) (peer : Option Family) (binds : Bool)
    (conn : Option ℕ) (next : ℕ) (diff : ℤ)
    → All IsUsed xs
    → All IsUsed ys
    → let e = run xs new_client in
      let p = connect ep peer binds conn next diff e in
      (p.1 ≡ (reachable peer binds e.open6 && is_some conn))
      × (p.0.sessions ≡ e.sessions ++ gained (reachable peer binds e.open6) conn ep)
      × (p.0.receiving ≡ true)
      × IsListening (run ys p.0)
connect-gains xs ys ep peer binds conn next diff u v =
    let e = run xs new_client in
    let fresh : IsListening new_client = record {
      usable = refl;
      first = λ n. cc;
      second = λ n. cc;
    } in
    let i = run-IsListening xs new_client u fresh in
    let s = at_socket next diff e in
    let l = at_socket_lem next diff e in
    let eq = usable_connect ep peer binds conn next diff e i.usable in
    let o : Outcome (reachable peer binds e.open6) ep conn s
        (connect ep peer binds conn next diff e) =
      subst
        (λ b. Outcome (reachable peer binds b) ep conn s (connect ep peer binds conn next diff e))
        l.1
        (subst (Outcome (reachable peer binds s.open6) ep conn s) (sym eq)
          (connect_from-Outcome ep peer binds conn next diff s)) in
    let j = connect-IsListening ep peer binds conn next diff e i in
    (
      o.result,
      o.sessions ∙ ap (λ m. m ++ gained (reachable peer binds e.open6) conn ep) l.0,
      j.first (o.started ∙ l.2),
      run-IsListening ys (connect ep peer binds conn next diff e).0 v j,
    )
