-- ===== src/Proxy/Server.antt =====
-- ReverseProxyServer of src/proxy/reverse_proxy_server.h and reverse_proxy_server.cpp. What is posted
-- to the workers is recorded in order; whether the TLS context is usable, whether an IPv6 socket opens
-- for QUIC, and what asio and lsquic answer are arguments. An accepted socket is a number.
pub mod Phases
pub mod Tasks
pub mod Accepted
pub mod Rounds
use reverse_proxy_server.Base.{
  ℕ, zero, suc, ◌+◌, ◌%◌, ◌^◌, List, [], ◌∷◌, ◌++◌, Option, none, some, Bool, true, false, not,
  ◌||◌, ◌&&◌, if◌then◌else◌, ltb, ◌==◌, length,
}
use reverse_proxy_server.Text.{Bytes, codes, to_string, crlf}
use reverse_proxy_server.Http.Message.{ℤ, pos, negsuc}
use reverse_proxy_server.Http.Stream.{ErrorCode, operation_aborted}
use reverse_proxy_server.Proxy.Config.{ProxyStats}
use reverse_proxy_server.Proxy.Load.{ProxyConfig}
use reverse_proxy_server.Proxy.Core.{ProxyCore, new_core, start_quic}
use reverse_proxy_server.Transport.Demux
use reverse_proxy_server.Transport.Demux.{Demux, new_demux}

-- What the ingress thread posts to a worker, by its index: an accepted socket, the graceful shutdown
-- of its core, and the forced close of its QUIC connections.
pub data Task : Type 0 where
  hand_off : ℕ → ℕ → Task
  shut_down : ℕ → Task
  force_close : ℕ → Task

-- What `grace_timer_` waits for.
pub data Grace : Type 0 where
  to_finalize to_stop : Grace

pub record Server : Type 0 where
  pub cfg : ProxyConfig
  pub started : Bool
  pub stopping : Bool
  pub cores : List ProxyCore
  pub demux : Option Demux
  -- An accept is pending.
  pub accepting : Bool
  pub stats_accepting : Bool
  pub rr : ℕ
  pub posted : List Task
  -- stop() has posted begin_shutdown, which has not run yet.
  pub shutdown_posted : Bool
  pub grace_timer : Option Grace
  -- All io_contexts are stopped.
  pub stopped : Bool

abbrev pub new_server : ProxyConfig → Server
new_server cfg = record {
  cfg = cfg;
  started = false;
  stopping = false;
  cores = [];
  demux = none;
  accepting = false;
  stats_accepting = false;
  rr = 0;
  posted = [];
  shutdown_posted = false;
  grace_timer = none;
  stopped = false;
}

-- `std::max(1, cfg_.num_threads)`.
unfoldable pub worker_count : ℤ → ℕ
worker_count (negsuc n) = 1
worker_count (pos n) = if n == 0 then 1 else n

-- The cores, each fed by the demultiplexer if there is one and TLS is usable.
unfoldable pub make_cores :
    ℕ → Bool → ProxyConfig → ProxyStats → Option Demux → List ProxyCore × Option Demux
unfolding new_core start_quic
make_cores zero tls cfg stats d = ([], d)
make_cores (suc n) tls cfg stats none =
    let rest = make_cores n tls cfg stats none in (new_core cfg stats ∷ rest.0, rest.1)
make_cores (suc n) false cfg stats (some d) =
    let rest = make_cores n false cfg stats (some d) in (new_core cfg stats ∷ rest.0, rest.1)
make_cores (suc n) true cfg stats (some d) =
    let p = start_quic 0 (pos 0) (new_core cfg stats) d in
    let rest = make_cores n true cfg stats (some p.1) in (p.0 ∷ rest.0, rest.1)

unfoldable pub accept_loop : Server → Server
accept_loop s = record s { accepting = true }

unfoldable pub stats_accept_loop : Server → Server
stats_accept_loop s = record s { stats_accepting = true }

unfoldable pub start_demux : Option Demux → Option Demux
start_demux none = none
start_demux (some d) = some (Demux.start d)

unfoldable pub start : Bool → Bool → ProxyStats → Server → Server
unfolding make_cores accept_loop stats_accept_loop start_demux worker_count
start tls open6 stats s =
    if s.started
    then s
    else (let d = if ltb 0 s.cfg.quic_port then some (new_demux open6) else none in
        let p = make_cores (worker_count s.cfg.num_threads) tls s.cfg stats d in
        let t : Server =
          accept_loop (record s { started = true; cores = p.0; demux = start_demux p.1 }) in
        if ltb 0 s.cfg.stats_port then stats_accept_loop t else t)

abbrev pub is_abort : ErrorCode → Bool
is_abort operation_aborted = true
is_abort _ = false

-- The callback of async_accept, with the accepted socket.
unfoldable pub on_accept : Option ErrorCode → ℕ → Server → Server
unfolding accept_loop
on_accept (some ec) fd s = if is_abort ec then s else accept_loop s
on_accept none fd s = accept_loop (record s {
  rr = (s.rr + 1) % 2 ^ 64;
  posted = s.posted ++ hand_off (s.rr % length s.cores) fd ∷ [];
})

-- The callback of the stats listener's async_accept.
unfoldable pub on_stats_accept : Server → Server
unfolding stats_accept_loop
on_stats_accept s = if s.stopping then s else stats_accept_loop s

-- The response with the counters `body`.
unfoldable pub stats_response : Bytes → Bytes
stats_response body =
    codes "HTTP/1.1 200 OK"
    ++ (crlf
        ++ (codes "Content-Type: text/plain; version=0.0.4"
            ++ (crlf
                ++ (codes "Connection: close"
                    ++ (crlf
                        ++ (codes "Content-Length: "
                            ++ (to_string (length body) ++ (crlf ++ (crlf ++ body)))))))))

unfoldable pub stop : Server → Server
stop s =
    if not s.started || s.stopping then s else record s { stopping = true; shutdown_posted = true }

-- A task for each worker, in order, from the worker `i` on.
unfoldable pub for_cores : (ℕ → Task) → ℕ → List ProxyCore → List Task
for_cores t i [] = []
for_cores t i (c ∷ cs) = t i ∷ for_cores t (suc i) cs

-- Cancelled operations complete with operation_aborted later.
unfoldable pub begin_shutdown : Server → Server
unfolding for_cores
begin_shutdown s = record s {
  posted = s.posted ++ for_cores shut_down 0 s.cores;
  grace_timer = some to_finalize;
}

unfoldable pub finalize : Server → Server
unfolding for_cores
finalize s = record s {
  posted = s.posted ++ for_cores force_close 0 s.cores;
  grace_timer = some to_stop;
}

unfoldable pub hard_stop : Server → Server
hard_stop s = record s { stopped = true }

-- The callbacks of the grace timer, which is then not armed any more.
unfoldable pub on_grace : Option Grace → Server → Server
unfolding finalize hard_stop
on_grace none s = s
on_grace (some to_finalize) s = finalize s
on_grace (some to_stop) s = hard_stop (record s { grace_timer = none })

pub data Event : Type 0 where
  starts : Bool → Bool → ProxyStats → Event
  accepts : Option ErrorCode → ℕ → Event
  stats_accepts : Event
  stops : Event
  runs_posted : Event
  grace_ends : Event

-- An event of the ingress thread: nothing where the callback is not pending or the thread has stopped.
abbrev pub step : Event → Server → Server
step (starts tls open6 stats) s = start tls open6 stats s
step (accepts ec fd) s =
    if s.accepting && not s.stopped then on_accept ec fd (record s { accepting = false }) else s
step stats_accepts s =
    if s.stats_accepting && not s.stopped
    then on_stats_accept (record s { stats_accepting = false })
    else s
step stops s = stop s
step runs_posted s =
    if s.shutdown_posted && not s.stopped
    then begin_shutdown (record s { shutdown_posted = false })
    else s
step grace_ends s = if s.stopped then s else on_grace s.grace_timer s

abbrev pub run : List Event → Server → Server
run [] s = s
run (e ∷ es) s = run es (step e s)
