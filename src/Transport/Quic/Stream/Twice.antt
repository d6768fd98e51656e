-- ===== src/Transport/Quic/Stream/Twice.antt =====
-- The write callbacks that on_close of src/transport/quic_transport.cpp calls, and how often.
use reverse_proxy_server.Base.{ℕ, ◌≡◌, refl, ap, List, [], ◌∷◌, ◌++◌, none, some, Bool}
use reverse_proxy_server.Http.Stream.{eof}
use reverse_proxy_server.Transport.Quic.Stream.{WriteOp, Called, write_done}
use reverse_proxy_server.Transport.Quic.Stream.Reentry.{Reactions, Flushing}

-- The write callbacks `cbs`, each called with end of file.
abbrev pub failed : List ℕ → List Called
failed [] = []
failed (cb ∷ cbs) = write_done cb (some eof) 0 ∷ failed cbs

failed-append : (a b : List ℕ) → failed (a ++ b) ≡ failed a ++ failed b
failed-append [] b = refl
failed-append (cb ∷ a) b = ap (◌∷◌ (write_done cb (some eof) 0)) (failed-append a b)

-- The calls of a flush, and that the queue was popped empty or not.
record Calls (c : List Called) (b : Bool) (f : Flushing) : Type 0 where
  pub called : f.stream.called ≡ c
  pub broken : f.broken ≡ b

-- What callbacks that do nothing do.
abbrev pub nothing : List WriteOp → Reactions
nothing [] = []
nothing (op ∷ q) = none ∷ nothing q
