-- ===== src/Transport/Quic/Engine/Shutdown.antt =====
-- The sessions and the tick of a QuicServerEngine (src/transport/quic_transport.cpp).
use reverse_proxy_server.Base.{ℕ, suc, ◌≤◌, List, [], ◌∷◌, if◌then◌else◌, ◌==◌, arith}
use reverse_proxy_server.Http.Message.{ℤ, pos, negsuc}
use reverse_proxy_server.Transport.Quic.Engine.{
  QuicServerEngine, tick_delay, on_new_conn, on_conn_closed,
}

-- The tick timer is never set to more than half a second, and to nothing when lsquic is due.
pub tick_delay-bounds : (next : ℕ) (diff : ℤ) → tick_delay next diff ≤ 500
unfolding tick_delay
tick_delay-bounds next (negsuc n) = omega arith
tick_delay-bounds next (pos diff) = ground arith

pub data ConnEvent : Type 0 where
  comes goes : ℕ → ConnEvent

abbrev pub run_conns : List ConnEvent → QuicServerEngine → QuicServerEngine
run_conns [] e = e
run_conns (comes c ∷ es) e = run_conns es (on_new_conn c e)
run_conns (goes c ∷ es) e = run_conns es (on_conn_closed c e)

-- How often a connection is in a list.
abbrev pub count : ℕ → List ℕ → ℕ
count c [] = 0
count c (x ∷ xs) = if x == c then suc (count c xs) else count c xs

-- 1 for a connection that came and did not go since, else 0, if it was `before` at first.
abbrev pub up : ℕ → ℕ → List ConnEvent → ℕ
up c before [] = before
up c before (comes x ∷ es) = up c (if x == c then 1 else before) es
up c before (goes x ∷ es) = up c (if x == c then 0 else before) es
