-- ===== src/Proxy/Relay/State.antt =====
-- The members of RelaySession (src/proxy/relay_session.h), the operations that it has started and
-- whose callbacks are pending, and what it has done to its client, its backend and the pool.
use reverse_proxy_server.Base.{ℕ, List, [], ◌∷◌, ◌++◌, Option, none, Bool, true, false}
use reverse_proxy_server.Text.{Bytes}
use reverse_proxy_server.Http.Message.{HttpRequestHead, HttpResponseHead}
use reverse_proxy_server.Proxy.Config.{BackendEndpoint, ProxyStats, direct_endpoint}
use reverse_proxy_server.Proxy.Router.{Rule}

pub data Phase : Type 0 where
  request forward response bridge closed : Phase

-- A body source that a codec made, by a number, or a BufferBodySource.
pub data Body : Type 0 where
  source : ℕ → Body
  buffer : Bytes → Body

pub data Side : Type 0 where
  from_client from_backend : Side

-- The callbacks that may be pending, with what they capture. A pump captures its two streams; the
-- client's is always there.
pub data Wait : Type 0 where
  request_read : Wait
  backend_connect : HttpRequestHead → Option Body → Wait
  tunnel_connect : Wait
  retry_connect : Wait
  request_write : Bool → Wait
  response_read : Wait
  upgrade_write : Wait
  response_write : Bool → Wait
  error_write : Wait
  tunnel_write : Wait
  pump_read : Side → ℕ → Wait
  pump_write : Side → ℕ → Wait
  drain_read : Wait

-- What the relay does, in order.
pub data Action : Type 0 where
  connect_group : Bytes → Action
  connect_fresh : BackendEndpoint → Action
  write_backend : ℕ → HttpRequestHead → Option Body → Action
  parse_backend : ℕ → Action
  write_client : HttpResponseHead → Option Body → Action
  send_backend : ℕ → Bytes → Action
  send_client : Bytes → Action
  shutdown_client : Action
  shutdown_backend : ℕ → Action
  pool_release : BackendEndpoint → ℕ → Action

pub record Relay : Type 0 where
  -- `client_codec_ == h1_codec_`.
  pub client_h1 : Bool
  -- `idle_timeout_.count() > 0`.
  pub idle_enabled : Bool
  pub rules : List Rule
  pub backend : Option ℕ
  pub backend_h3 : Bool
  pub backend_endpoint : BackendEndpoint
  pub backend_from_pool : Bool
  pub pending_head : Option HttpRequestHead
  pub pending_body : Option Body
  pub request_method : Bytes
  pub client_version : Bytes
  pub client_keep_alive : Bool
  pub request_is_upgrade : Bool
  pub done : Bool
  pub phase : Phase
  pub draining : Bool
  pub timer_armed : Bool
  pub stats : ProxyStats
  pub waits : List Wait
  pub actions : List Action
  -- A call through a null stream or head: the process is gone.
  pub crashed : Bool

unfoldable pub new_relay : Bool → Bool → List Rule → ProxyStats → Relay
new_relay client_h1 idle_enabled rules stats = record {
  client_h1 = client_h1;
  idle_enabled = idle_enabled;
  rules = rules;
  backend = none;
  backend_h3 = false;
  backend_endpoint = direct_endpoint [] 0;
  backend_from_pool = false;
  pending_head = none;
  pending_body = none;
  request_method = [];
  client_version = [];
  client_keep_alive = false;
  request_is_upgrade = false;
  done = false;
  phase = request;
  draining = false;
  timer_armed = false;
  stats = stats;
  waits = [];
  actions = [];
  crashed = false;
}

-- Starts an operation, and records an action.
abbrev pub wait_for : Wait → Relay → Relay
wait_for w r = record r { waits = w ∷ r.waits }

abbrev pub act : Action → Relay → Relay
act a r = record r { actions = r.actions ++ a ∷ [] }

abbrev pub crash : Relay → Relay
crash r = record r { crashed = true }
