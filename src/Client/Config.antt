-- ===== src/Client/Config.antt =====
-- internal/client/state.go: ProcessRawConfig, and CreateTransport of transport.go. A Go int and a
-- time.Duration are the 64-bit words that stand for them.
pub mod Complete
use cloak.Prelude.{
  ℕ, ◌-◌, ◌*◌, ◌%◌, ◌^◌, ◌&&◌, Bytes, Bool, true, false, not, codes, same_bytes, is_nil, has_byte,
  to_lower, join_host_port, not_positive, List, [], ◌∷◌, ◌++◌, Option, none, some, ◌==◌,
  if◌then◌else◌,
}
use cloak.Ecdh.{unmarshal}
use cloak.Multiplex.Obfs.{
  encryption_method_plain, encryption_method_aes256_gcm, encryption_method_aes128_gcm,
  encryption_method_chacha20_poly1305,
}
use cloak.Client.Auth.{AuthInfo}
use cloak.Client.Options.{ssv_to_json}

pub record RawConfig : Type 0 where
  pub server_name : Bytes
  pub proxy_method : Bytes
  pub encryption_method : Bytes
  pub uid : Bytes
  pub public_key : Bytes
  pub num_conn : ℕ
  pub local_host : Bytes
  pub local_port : Bytes
  pub remote_host : Bytes
  pub remote_port : Bytes
  pub alternative_names : List Bytes
  pub udp : Bool
  pub browser_sig : Bytes
  pub transport : Bytes
  pub cdn_origin_host : Bytes
  pub cdn_ws_url_path : Bytes
  pub stream_timeout : ℕ
  pub keep_alive : ℕ

pub data Browser : Type 0 where
  chrome firefox safari : Browser

pub data TransportConfig : Type 0 where
  cdn : Bytes → TransportConfig
  direct : Browser → TransportConfig

pub record RemoteConnConfig : Type 0 where
  pub singleplex : Bool
  pub num_conn : ℕ
  pub keep_alive : ℕ
  pub remote_addr : Bytes
  pub transport : TransportConfig

pub record LocalConnConfig : Type 0 where
  pub local_addr : Bytes
  pub timeout : ℕ
  pub mock_domain_list : List Bytes

-- `auth` has the other fields of the code's AuthInfo; the session id is set later.
pub record Processed : Type 0 where
  pub local : LocalConnConfig
  pub remote : RemoteConnConfig
  pub auth : AuthInfo
  pub mock_domain : Bytes

pub data ConfigError : Type 0 where
  cannot_be_empty : Bytes → ConfigError
  bad_public_key : ConfigError
  unknown_encryption_method : Bytes → ConfigError

pub data Result {ℓ} (A : Type ℓ) : Type ℓ where
  ok : A → Result A
  err : ConfigError → Result A

-- The names that are not empty.
unfoldable pub filtered : List Bytes → List Bytes
filtered [] = []
filtered (name ∷ names) = if is_nil name then filtered names else name ∷ filtered names

unfoldable pub encryption_method_of : Bytes → Option ℕ
encryption_method_of name =
    let s = to_lower name in
    if same_bytes s (codes "plain")
    then some encryption_method_plain
    else if same_bytes s (codes "aes-gcm")
    then some encryption_method_aes256_gcm
    else if same_bytes s (codes "aes-256-gcm")
    then some encryption_method_aes256_gcm
    else if same_bytes s (codes "aes-128-gcm")
    then some encryption_method_aes128_gcm
    else if same_bytes s (codes "chacha20-poly1305")
    then some encryption_method_chacha20_poly1305
    else none

unfoldable pub browser_of : Bytes → Browser
browser_of name =
    let s = to_lower name in
    if same_bytes s (codes "firefox")
    then firefox
    else if same_bytes s (codes "safari")
    then safari
    else chrome

abbrev pub or_else : Bytes → Bytes → Bytes
or_else s d = if is_nil s then d else s

unfoldable pub transport_of : RawConfig → TransportConfig
unfolding browser_of
transport_of raw =
    let domain_port =
      join_host_port (or_else raw.cdn_origin_host raw.remote_host) raw.remote_port in
    if same_bytes (to_lower raw.transport) (codes "cdn")
    then cdn (codes "ws://" ++ (domain_port ++ or_else raw.cdn_ws_url_path (codes "/")))
    else direct (browser_of raw.browser_sig)

-- In nanoseconds.
abbrev pub second : ℕ
second = 1_000_000_000

-- `-1` if the interval is not positive; else `remote.KeepAlive`, which is still 0, times a second.
abbrev pub keep_alive_of : RawConfig → ℕ
keep_alive_of raw = if not_positive raw.keep_alive then 2 ^ 64 - 1 else (0 * second) % 2 ^ 64

abbrev pub timeout_of : RawConfig → ℕ
timeout_of raw =
    if raw.stream_timeout == 0 then 300 * second else (raw.stream_timeout * second) % 2 ^ 64

abbrev pub processed : RawConfig → Bytes → ℕ → Processed
processed raw key method = record {
  local = record {
    local_addr = join_host_port raw.local_host raw.local_port;
    timeout = timeout_of raw;
    mock_domain_list = filtered raw.alternative_names ++ raw.server_name ∷ [];
  };
  remote = record {
    singleplex = not_positive raw.num_conn;
    num_conn = if not_positive raw.num_conn then 1 else raw.num_conn;
    keep_alive = keep_alive_of raw;
    remote_addr = join_host_port raw.remote_host raw.remote_port;
    transport = transport_of raw;
  };
  auth = record {
    uid = raw.uid;
    session_id = 0;
    proxy_method = raw.proxy_method;
    encryption_method = method;
    is_unordered = raw.udp;
    server_pub_key = key;
  };
  mock_domain = raw.server_name;
}

-- The checks that follow the encryption method, in the code's order.
unfoldable pub process_hosts : RawConfig → Bytes → ℕ → Result Processed
unfolding filtered transport_of
process_hosts raw key method =
    if is_nil raw.remote_host
    then err (cannot_be_empty (codes "RemoteHost"))
    else if is_nil raw.remote_port
    then err (cannot_be_empty (codes "RemotePort"))
    else if is_nil raw.local_host
    then err (cannot_be_empty (codes "LocalHost"))
    else if is_nil raw.local_port
    then err (cannot_be_empty (codes "LocalPort"))
    else ok (processed raw key method)

unfoldable pub process_keys : RawConfig → Result Processed
process_keys raw = elim (unmarshal raw.public_key) [
  | none ↦ err bad_public_key
  | some key ↦ elim (encryption_method_of raw.encryption_method) [
    | none ↦ err (unknown_encryption_method raw.encryption_method)
    | some method ↦ process_hosts raw key method
  ]
]

unfoldable pub process_raw_config : RawConfig → Result Processed
process_raw_config raw =
    if is_nil raw.server_name
    then err (cannot_be_empty (codes "ServerName"))
    else if is_nil raw.proxy_method
    then err (cannot_be_empty (codes "ServerName"))
    else if is_nil raw.uid
    then err (cannot_be_empty (codes "UID"))
    else if is_nil raw.public_key
    then err (cannot_be_empty (codes "PublicKey"))
    else process_keys raw

-- The transports that a client makes.
pub data Transport : Type 0 where
  ws_over_tls : Bytes → Transport
  direct_tls : Browser → Transport

unfoldable pub create_transport : TransportConfig → Transport
create_transport (cdn url) = ws_over_tls url
create_transport (direct browser) = direct_tls browser

-- `ParseConfig`: a text with a semicolon and an equals sign is taken for options, any other for a
-- path. `unmarshal` is `json.Unmarshal` into a new RawConfig.
unfoldable pub parse_config :
    (Bytes → Option Bytes) → (Bytes → Option RawConfig) → Bytes → Option RawConfig
parse_config read_file unmarshal conf =
    if has_byte b';' conf && has_byte b'=' conf
    then unmarshal (ssv_to_json conf)
    else elim (read_file conf) [ none ↦ none | some content ↦ unmarshal content ]
