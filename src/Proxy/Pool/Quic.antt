-- ===== src/Proxy/Pool/Quic.antt =====
-- The QUIC connections of UpstreamPool (src/proxy/upstream_pool.cpp), which it keeps for further
-- streams. What a session and the QUIC engine answer are parameters: whether a session gives a stream,
-- says that it is gone, or never calls back (its connection is closed, src/transport/quic_transport.cpp,
-- async_open_stream), and the session that a connect leads to. An erased key and an empty deque are not told
-- apart, as by the code. The callback of async_open_stream runs at once here, if it
-- runs.
pub mod Retry
use reverse_proxy_server.Base.{
  ℕ, zero, suc, List, [], ◌∷◌, ◌++◌, Option, none, some, Bool, true, false, if◌then◌else◌, ◌==◌,
}
use reverse_proxy_server.Text.{Bytes, codes, str_eq, to_string}
use reverse_proxy_server.Http.Stream.{ErrorCode, eof, not_found, host_unreachable}
use reverse_proxy_server.Proxy.Config.{BackendEndpoint}

-- quic_conns_, with a session as a number.
abbrev pub Conns : Type 0
Conns = List (Bytes × List ℕ)

pub data QuicResult : Type 0 where
  -- A stream on this session, and whether the session came from the pool.
  stream : ℕ → Bool → QuicResult
  failed : ErrorCode → QuicResult
  -- The session does not call back.
  waiting : ℕ → QuicResult
  starved : QuicResult

unfoldable pub quic_key : BackendEndpoint → Bytes
quic_key ep = ep.host ++ (codes ":" ++ to_string ep.port)

unfoldable pub pooled_at : Bytes → Conns → List ℕ
pooled_at key [] = []
pooled_at key ((k, d) ∷ m) = if str_eq k key then d else pooled_at key m

unfoldable pub put_at : Bytes → List ℕ → Conns → Conns
put_at key d [] = (key, d) ∷ []
put_at key d ((k, e) ∷ m) = if str_eq k key then (k, d) ∷ m else (k, e) ∷ put_at key d m

-- `dq.erase(itq)` at the first entry that is `raw`.
unfoldable pub erase_first : ℕ → List ℕ → List ℕ
erase_first raw [] = []
erase_first raw (s ∷ d) = if s == raw then d else s ∷ erase_first raw d

unfoldable pub remove_quic_conn : Conns → BackendEndpoint → ℕ → Conns
remove_quic_conn m ep raw = put_at (quic_key ep) (erase_first raw (pooled_at (quic_key ep) m)) m

module _ (gives_stream : ℕ → Option Bool) (engine : BackendEndpoint → Option ℕ) where
  -- The callback of async_open_stream. `retry` is the call of quic_connect for a stale session.
  unfoldable pub open_quic_stream :
      (Conns → Conns × QuicResult) → Conns → ℕ → BackendEndpoint → Bool → Conns × QuicResult
  open_quic_stream retry m session ep from_pool = elim (gives_stream session) [
    | none ↦ (m, waiting session)
    | some gives ↦
        if gives
        then (
          put_at (quic_key ep) (pooled_at (quic_key ep) m ++ session ∷ []) m,
          stream session from_pool,
        )
        else if from_pool
        then retry (remove_quic_conn m ep session)
        else (remove_quic_conn m ep session, failed eof)
  ]

  -- `quic_engine_->connect`, which calls on_client_conn before it returns.
  unfoldable pub on_client_conn : Conns → BackendEndpoint → Option ℕ → Conns × QuicResult
  on_client_conn m ep none = (m, failed host_unreachable)
  on_client_conn m ep (some session) = open_quic_stream (λ m'. (m', starved)) m session ep false

  unfoldable pub quic_connect_fresh : Bool → Conns → BackendEndpoint → Conns × QuicResult
  quic_connect_fresh has_engine m ep =
      if has_engine then on_client_conn m ep (engine ep) else (m, failed not_found)

  -- The front of the deque is taken, if there is one.
  unfoldable pub connect_pooled :
      (Conns → Conns × QuicResult) → Bool → Conns → BackendEndpoint → List ℕ → Conns × QuicResult
  connect_pooled retry has_engine m ep [] = quic_connect_fresh has_engine m ep
  connect_pooled retry has_engine m ep (session ∷ rest) =
      open_quic_stream retry (put_at (quic_key ep) rest m) session ep true

  unfoldable pub quic_connect : ℕ → Bool → Conns → BackendEndpoint → Conns × QuicResult
  quic_connect zero has_engine m ep = (m, starved)
  quic_connect (suc fuel) has_engine m ep =
      connect_pooled (λ m'. quic_connect fuel has_engine m' ep) has_engine m ep
        (pooled_at (quic_key ep) m)
