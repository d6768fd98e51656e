-- ===== src/Proxy/Config.antt =====
-- BackendEndpoint of src/config.h and ProxyStats of src/proxy/stats.h.
use Prim.Native.String.{String}
use reverse_proxy_server.Base.{ℕ, ◌+◌, ◌%◌, ◌^◌, [], ◌∷◌, ◌++◌, Bool, true, false}
use reverse_proxy_server.Text.{Bytes, codes, to_string}
use reverse_proxy_server.Http.Message.{ℤ, pos}

pub data TransportProtocol : Type 0 where
  tcp quic : TransportProtocol

pub record BackendEndpoint : Type 0 where
  pub backend_id : Bytes
  pub host : Bytes
  pub port : ℕ
  pub weight : ℤ
  pub protocol : TransportProtocol

abbrev pub is_quic : TransportProtocol → Bool
is_quic quic = true
is_quic tcp = false

-- `BackendEndpoint{"", host, port, 1}`, and the default-constructed endpoint.
abbrev pub direct_endpoint : Bytes → ℕ → BackendEndpoint
direct_endpoint host port = record {
  backend_id = [];
  host = host;
  port = port;
  weight = pos 1;
  protocol = tcp;
}

-- The counters, each a uint64_t.
pub record ProxyStats : Type 0 where
  pub tcp_conns : ℕ
  pub quic_conns : ℕ
  pub requests : ℕ
  pub resp_ok : ℕ
  pub resp_err : ℕ
  pub backend_connects : ℕ
  pub lat_us_total : ℕ
  pub lat_count : ℕ

abbrev pub incr : ℕ → ℕ
incr n = (n + 1) % 2 ^ 64

-- record_latency, for a duration in microseconds.
unfoldable pub record_latency : ℕ → ProxyStats → ProxyStats
record_latency us s = record s {
  lat_us_total = (s.lat_us_total + us) % 2 ^ 64;
  lat_count = incr s.lat_count;
}

abbrev newline : Bytes
newline = 10 ∷ []

counter : String → ℕ → Bytes
unfolding to_string
counter name n = codes name ++ (to_string n ++ newline)

-- render; `uptime` is the text of the floating-point uptime.
unfoldable pub render : Bytes → ProxyStats → Bytes
unfolding counter
render uptime s =
    codes "proxy_uptime_seconds "
    ++ (uptime
        ++ (newline
            ++ (counter "proxy_tcp_connections_total " s.tcp_conns
                ++ (counter "proxy_quic_connections_total " s.quic_conns
                    ++ (counter "proxy_requests_total " s.requests
                        ++ (counter "proxy_responses_ok_total " s.resp_ok
                            ++ (counter "proxy_responses_error_total " s.resp_err
                                ++ (counter "proxy_backend_connects_total " s.backend_connects
                                    ++ (counter "proxy_backend_latency_us_sum " s.lat_us_total
                                        ++ counter "proxy_backend_latency_us_count "
                                            s.lat_count)))))))))
