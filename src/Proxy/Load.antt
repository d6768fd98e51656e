-- ===== src/Proxy/Load.antt =====
-- load_config of src/config.cpp with ProxyConfig of src/config.h. The TOML library is a parameter: a
-- table is its three lookups, each with none where the key is missing or has another type, and the
-- parsed file is a document. `none` is an exception.
pub mod Loading
use reverse_proxy_server.Base.{
  ℕ, ◌+◌, ◌-◌, ◌%◌, ◌^◌, List, [], ◌∷◌, Option, none, some, Bool, true, false, if◌then◌else◌,
  value_or,
}
use reverse_proxy_server.Text.{Bytes, codes, str_eq}
use reverse_proxy_server.Http.Message.{ℤ, pos, negsuc}
use reverse_proxy_server.Proxy.Config.{BackendEndpoint, TransportProtocol, tcp, quic}

pub record TomlTable : Type 0 where
  pub string_at : Bytes → Option Bytes
  pub int_at : Bytes → Option ℤ
  pub bool_at : Bytes → Option Bool

infixl 5 ◌>>=◌
abbrev pub ◌>>=◌ {ℓ κ} : {A : Type ℓ} {B : Type κ} → Option A → (A → Option B) → Option B
none >>= f = none
some a >>= f = f a

-- A list of tables, or another kind of value.
pub data TomlValue : Type 0 where
  array : List TomlTable → TomlValue
  no_array : TomlValue

pub record TomlDocument : Type 0 where
  pub listen_table : Option TomlTable
  pub backends_value : Option TomlValue
  pub routes_value : Option TomlValue

pub record RouteRule : Type 0 where
  pub host_match : Bytes
  pub backend_id : Bytes

pub record ProxyConfig : Type 0 where
  pub listen_addr : Bytes
  pub listen_port : ℕ
  pub num_threads : ℤ
  pub stats_port : ℕ
  pub max_streams_in : ℤ
  pub idle_timeout_secs : ℤ
  pub dual_stack : Bool
  pub quic_port : ℕ
  pub quic_cert_file : Bytes
  pub quic_key_file : Bytes
  pub backends : List BackendEndpoint
  pub routes : List RouteRule

abbrev pub default_config : ProxyConfig
default_config = record {
  listen_addr = codes "0.0.0.0";
  listen_port = 8080;
  num_threads = pos 1;
  stats_port = 0;
  max_streams_in = pos 0;
  idle_timeout_secs = pos 30;
  dual_stack = false;
  quic_port = 0;
  quic_cert_file = codes "certs/cert.pem";
  quic_key_file = codes "certs/key.pem";
  backends = [];
  routes = [];
}

-- An int that is stored in a uint16_t.
unfoldable pub to_port : ℤ → ℕ
to_port (pos n) = n % 2 ^ 16
to_port (negsuc n) = 2 ^ 16 - 1 - n % 2 ^ 16

unfoldable pub read_listen : Option TomlTable → ProxyConfig → ProxyConfig
unfolding to_port
read_listen none cfg = cfg
read_listen (some tbl) cfg = record cfg {
  listen_addr = value_or (tbl.string_at (codes "address")) (codes "0.0.0.0");
  listen_port = to_port (value_or (tbl.int_at (codes "port")) (pos 8080));
  num_threads = value_or (tbl.int_at (codes "num_threads")) (pos 1);
  stats_port = to_port (value_or (tbl.int_at (codes "stats_port")) (pos 0));
  max_streams_in = value_or (tbl.int_at (codes "max_streams_in")) (pos 0);
  idle_timeout_secs = value_or (tbl.int_at (codes "idle_timeout")) (pos 30);
  dual_stack = value_or (tbl.bool_at (codes "dual_stack")) false;
  quic_port = to_port (value_or (tbl.int_at (codes "quic_port")) (pos 0));
  quic_cert_file = value_or (tbl.string_at (codes "quic_cert_file")) (codes "certs/cert.pem");
  quic_key_file = value_or (tbl.string_at (codes "quic_key_file")) (codes "certs/key.pem");
}

unfoldable pub protocol_of : Bytes → TransportProtocol
protocol_of s = if str_eq s (codes "h3") then quic else tcp

unfoldable pub read_backend : TomlTable → Option BackendEndpoint
unfolding protocol_of to_port
read_backend v = do
  id ← v.string_at (codes "id")
  host ← v.string_at (codes "host")
  port ← v.int_at (codes "port")
  some (record {
    backend_id = id;
    host = host;
    port = to_port port;
    weight = value_or (v.int_at (codes "weight")) (pos 1);
    protocol = protocol_of (value_or (v.string_at (codes "protocol")) (codes "h1"));
  })

unfoldable pub read_route : TomlTable → Option RouteRule
read_route v = do
  host ← v.string_at (codes "host")
  backend ← v.string_at (codes "backend")
  some (record { host_match = host; backend_id = backend })

-- The loop over an array, which ends with the first entry that lacks a key.
unfoldable pub read_all {ℓ} :
    {A : Type ℓ} → (TomlTable → Option A) → List TomlTable → Option (List A)
read_all read [] = some []
read_all read (v ∷ vs) = do x ← read v; xs ← read_all read vs; some (x ∷ xs)

unfoldable pub read_array {ℓ} :
    {A : Type ℓ} → (TomlTable → Option A) → Option TomlValue → Option (List A)
read_array read none = some []
read_array read (some no_array) = none
read_array read (some (array vs)) = read_all read vs

-- `none` for a file that does not parse.
unfoldable pub load_config : Option TomlDocument → Option ProxyConfig
unfolding read_listen read_backend read_route
load_config none = none
load_config (some root) = do
  backends ← read_array read_backend root.backends_value
  routes ← read_array read_route root.routes_value
  some (record (read_listen root.listen_table default_config) {
    backends = backends;
    routes = routes;
  })
