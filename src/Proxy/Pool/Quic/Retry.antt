-- ===== src/Proxy/Pool/Quic/Retry.antt =====
-- The order in which quic_connect of src/proxy/upstream_pool.cpp tries the pooled sessions.
use reverse_proxy_server.Base.{
  ℕ, zero, suc, ◌<◌, ◌≤◌, ◌≡◌, refl, sym, ap, subst, ◌∙◌, List, [], ◌∷◌, ◌++◌, Option, none, some,
  Bool, true, false, if◌then◌else◌, ◌==◌, arith, length, Bool-cases, inl, inr, ==_iff,
}
use reverse_proxy_server.Text.{Bytes, str_eq_iff}
use reverse_proxy_server.Proxy.Config.{BackendEndpoint}
use reverse_proxy_server.Proxy.Pool.Quic.{
  Conns, QuicResult, stream, waiting, quic_key, pooled_at, put_at, erase_first, remove_quic_conn,
  open_quic_stream, quic_connect_fresh, connect_pooled, quic_connect,
}

pooled_at-put_at : (key : Bytes) (d : List ℕ) (m : Conns) → pooled_at key (put_at key d m) ≡ d
unfolding pooled_at put_at
pooled_at-put_at key d [] = ground (arith, str_eq_iff key key)
pooled_at-put_at key d ((k, e) ∷ m) = ground (arith, pooled_at-put_at key d m)

length-erase_first : (s : ℕ) (d : List ℕ) → length (erase_first s d) ≤ length d
unfolding erase_first
length-erase_first s [] = omega arith
length-erase_first s (x ∷ d) = ground (arith, length-erase_first s d)

-- A session that says that it is gone.
abbrev pub is_gone : Option Bool → Bool
is_gone none = false
is_gone (some gives) = if gives then false else true

-- The first session that is not gone.
abbrev pub first_left : (ℕ → Option Bool) → List ℕ → Option ℕ
first_left answer [] = none
first_left answer (s ∷ d) = if is_gone (answer s) then first_left answer d else some s

first_left-erase_first :
    (answer : ℕ → Option Bool) (s : ℕ) (d : List ℕ)
    → is_gone (answer s) ≡ true
    → first_left answer (erase_first s d) ≡ first_left answer d
unfolding erase_first
first_left-erase_first answer s [] h = refl
first_left-erase_first answer s (x ∷ d) h = elim (Bool-cases (x == s)) [
  | inl e ↦
      let same : x ≡ s = (==_iff x s).0 e in
      let gone : is_gone (answer x) ≡ true = ap (λ y. is_gone (answer y)) same ∙ h in
      rw (e, gone) refl
  | inr e ↦ rw e (ground (arith, first_left-erase_first answer s d h))
]

-- What a session that is not gone leads to: a stream on it, and it is the last of the pool, or no answer.
abbrev pub Leads : Bytes → ℕ → Option Bool → Conns × QuicResult → Type 0
Leads key s none r = r.1 ≡ waiting s
Leads key s (some gives) r =
    (r.1 ≡ stream s true) × ((d : List ℕ) × (pooled_at key r.0 ≡ d ++ s ∷ []))

-- What a connect promises: the first pooled session that is not gone serves it, or leaves it without an
-- answer; if all are gone, the pool of the endpoint is empty, and the connect is a fresh one.
abbrev pub Serves :
    (ℕ → Option Bool)
    → (BackendEndpoint → Option ℕ)
    → Bool
    → BackendEndpoint
    → Option ℕ
    → Conns × QuicResult
    → Type 0
Serves answer engine has_engine ep (some s) r = Leads (quic_key ep) s (answer s) r
Serves answer engine has_engine ep none r =
    (m : Conns) × (pooled_at (quic_key ep) m ≡ [])
    × (r ≡ quic_connect_fresh answer engine has_engine m ep)

module _ (answer : ℕ → Option Bool) (engine : BackendEndpoint → Option ℕ) (has_engine : Bool)
    (ep : BackendEndpoint) where
  open-Serves :
      (retry : Conns → Conns × QuicResult) (m : Conns) (s : ℕ) (rest : List ℕ)
      → ((m' : Conns)
          → length (pooled_at (quic_key ep) m') ≤ length rest
          → Serves answer engine has_engine ep
              (first_left answer (pooled_at (quic_key ep) m'))
              (retry m'))
      → pooled_at (quic_key ep) m ≡ rest
      → Serves answer engine has_engine ep
          (first_left answer (s ∷ rest))
          (open_quic_stream answer engine retry m s ep true)
  unfolding open_quic_stream remove_quic_conn
  open-Serves retry m s rest again e = by_answer (answer s) refl
    where
      left : Conns
      left = remove_quic_conn m ep s

      erased : pooled_at (quic_key ep) (remove_quic_conn m ep s) ≡ erase_first s rest
      erased =
          pooled_at-put_at (quic_key ep) (erase_first s (pooled_at (quic_key ep) m)) m
          ∙ ap (erase_first s) e

      after : Option Bool → Conns × QuicResult
      after none = (m, waiting s)
      after (some gives) =
          if gives
          then (put_at (quic_key ep) (pooled_at (quic_key ep) m ++ s ∷ []) m, stream s true)
          else retry left

      by_answer :
          (o : Option Bool)
          → (a : answer s ≡ o)
          → Serves answer engine has_engine ep
              (if is_gone o then first_left answer rest else some s)
              (after o)
      by_answer none a = subst (λ x. Leads (quic_key ep) s x (m, waiting s)) (sym a) refl
      by_answer (some true) a =
          subst (λ x. Leads (quic_key ep) s x (after (some true))) (sym a)
            (
              refl,
              (
                rest,
                pooled_at-put_at (quic_key ep) (pooled_at (quic_key ep) m ++ s ∷ []) m
                    ∙ ap (λ d. d ++ s ∷ []) e,
              ),
            )
      by_answer (some false) a =
          subst (λ o. Serves answer engine has_engine ep o (retry left))
            (ap (first_left answer) erased ∙ first_left-erase_first answer s rest (ap is_gone a))
            (again left (omega (arith, ap length erased, length-erase_first s rest)))

  connect_pooled-Serves :
      (retry : Conns → Conns × QuicResult) (m : Conns) (d : List ℕ)
      → pooled_at (quic_key ep) m ≡ d
      → ((m' : Conns)
          → length (pooled_at (quic_key ep) m') < length d
          → Serves answer engine has_engine ep
              (first_left answer (pooled_at (quic_key ep) m'))
              (retry m'))
      → Serves answer engine has_engine ep
          (first_left answer d)
          (connect_pooled answer engine retry has_engine m ep d)
  unfolding connect_pooled
  connect_pooled-Serves retry m [] e again = (m, e, refl)
  connect_pooled-Serves retry m (s ∷ rest) e again =
      open-Serves retry (put_at (quic_key ep) rest m) s rest (λ m' le. again m' (omega arith))
        (pooled_at-put_at (quic_key ep) rest m)

  -- With one unit of fuel more than the sessions pooled for the endpoint, quic_connect always comes to
  -- an end: those pooled sessions that say that they are gone are passed over. The first other one
  -- serves the request and is put back as the last one, or does not call back; if all are gone or there
  -- is none, then none is left and the answer is that of a fresh connect.
  pub quic_connect-Serves :
      (fuel : ℕ) (m : Conns)
      → length (pooled_at (quic_key ep) m) < fuel
      → Serves answer engine has_engine ep
          (first_left answer (pooled_at (quic_key ep) m))
          (quic_connect answer engine fuel has_engine m ep)
  unfolding quic_connect
  quic_connect-Serves zero m h = absurd (omega arith)
  quic_connect-Serves (suc fuel) m h =
      connect_pooled-Serves (λ m'. quic_connect answer engine fuel has_engine m' ep) m _ refl
        (λ m' lt. quic_connect-Serves fuel m' (omega arith))
