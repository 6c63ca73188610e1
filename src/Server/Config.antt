-- ===== src/Server/Config.antt =====
-- internal/server/state.go: from the raw configuration to the state of the server. The resolution of
-- addresses is that of package net, and an address is the text that it prints as. The signed number
-- `KeepAlive` is the 64-bit word that stands for it.
pub mod Addresses
pub mod Bypass
pub mod Book
use cloak.Prelude.{
  ℕ, ◌*◌, ◌%◌, ◌^◌, Bytes, Bool, true, false, codes, same_bytes, has_byte, is_nil, not_positive,
  to_array, copy_into, replicate, split, last_of, trim_prefix, trim_suffix, to_lower, List, [], ◌∷◌,
  ◌++◌, Option, none, some, if◌then◌else◌, ◌||◌,
}
use cloak.Server.Auth.{second}
use cloak.Server.UserPanel.{UserPanel}
use cloak.Server.Dispatcher.{State}

pub record RawConfig : Type 0 where
  pub proxy_book : List (Bytes × List Bytes)
  pub bypass_uid : List Bytes
  pub redir_addr : Bytes
  pub private_key : Bytes
  pub admin_uid : Bytes
  pub database_path : Bytes
  pub keep_alive : ℕ
  pub cnc_mode : Bool

-- `net.ResolveIPAddr("ip", ·)`, `net.ResolveTCPAddr("tcp", ·)`, `net.ResolveUDPAddr("udp", ·)`, and
-- whether `bolt.Open` of a path succeeds.
pub record Platform : Type 0 where
  pub resolve_ip : Bytes → Option Bytes
  pub resolve_tcp : Bytes → Option Bytes
  pub resolve_udp : Bytes → Option Bytes
  pub opens_database : Bytes → Bool

pub data Addr : Type 0 where
  tcp_addr udp_addr : Bytes → Addr

pub data ConfigError : Type 0 where
  cnc_not_implemented no_database unresolved_redir_addr no_private_key : ConfigError
  invalid_pair unresolved_proxy : Bytes → ConfigError

pub data Result {ℓ} (A : Type ℓ) : Type ℓ where
  ok : A → Result A
  err : ConfigError → Result A

-- Host and port of `RedirAddr`, by the parts between its colons.
abbrev pub host_and_port : Bytes → List Bytes → Bytes × Bytes
host_and_port addr (host ∷ (port ∷ [])) = (host, port)
host_and_port addr (a ∷ (b ∷ (c ∷ parts))) =
    let port = last_of c parts in
    if has_byte b'[' addr
    then (trim_prefix (codes "[") (trim_suffix (codes "]:" ++ port) addr), port)
    else (addr, [])
host_and_port addr _ = (addr, [])

unfoldable pub split_redir_addr : Bytes → Bytes × Bytes
split_redir_addr addr = host_and_port addr (split b':' addr)

unfoldable pub parse_redir_addr : Platform → Bytes → Option (Bytes × Bytes)
unfolding split_redir_addr
parse_redir_addr net addr =
    let (host, port) = split_redir_addr addr in
    elim (net.resolve_ip host) [ none ↦ none | some ip ↦ some (ip, port) ]

-- An entry of `ProxyBook`: a pair of network and address. Other networks are passed over.
pub data Entry : Type 0 where
  malformed unresolved passed_over : Entry
  address : Addr → Entry

abbrev pub resolved_as : (Bytes → Addr) → Option Bytes → Entry
resolved_as f none = unresolved
resolved_as f (some a) = address (f a)

abbrev pub entry_of : Platform → List Bytes → Entry
entry_of net (network ∷ (addr ∷ [])) =
    if same_bytes (to_lower network) (codes "tcp")
    then resolved_as tcp_addr (net.resolve_tcp addr)
    else if same_bytes (to_lower network) (codes "udp")
    then resolved_as udp_addr (net.resolve_udp addr)
    else passed_over
entry_of net _ = malformed

-- A Go map whose keys are texts, as the list of its entries.
unfoldable pub lookup_text {ℓ} : {V : Type ℓ} → Bytes → List (Bytes × V) → Option V
lookup_text name [] = none
lookup_text name ((key, v) ∷ book) = if same_bytes key name then some v else lookup_text name book

unfoldable pub insert_text {ℓ} : {V : Type ℓ} → Bytes → V → List (Bytes × V) → List (Bytes × V)
insert_text name v [] = (name, v) ∷ []
insert_text name v ((key, w) ∷ book) =
    let kept = insert_text name v book in
    if same_bytes key name then (name, v) ∷ book else (key, w) ∷ kept

-- The loop of `parseProxyBook`, over the entries in the order in which the map is walked.
unfoldable pub parse_entries :
    Platform → List (Bytes × List Bytes) → List (Bytes × Addr) → Result (List (Bytes × Addr))
unfolding insert_text
parse_entries net [] book = ok book
parse_entries net ((name, pair) ∷ entries) book = elim (entry_of net pair) [
  | malformed ↦ err (invalid_pair (to_lower name))
  | unresolved ↦ err (unresolved_proxy (to_lower name))
  | passed_over ↦ parse_entries net entries book
  | address a ↦ parse_entries net entries (insert_text (to_lower name) a book)
]

unfoldable pub parse_proxy_book :
    Platform → List (Bytes × List Bytes) → Result (List (Bytes × Addr))
unfolding parse_entries
parse_proxy_book net entries = parse_entries net entries []

-- The loop over `BypassUID`: each UID is copied over what the array holds of the one before.
unfoldable pub bypass_uids : Bytes → List Bytes → List Bytes → Bytes × List Bytes
bypass_uids arr_uid [] known = (arr_uid, known)
bypass_uids arr_uid (uid ∷ uids) known =
    let next = copy_into arr_uid uid in bypass_uids next uids (next ∷ known)

unfoldable pub all_bypass_uids : List Bytes → Bytes → List Bytes
unfolding bypass_uids
all_bypass_uids uids admin =
    let (arr_uid, known) = bypass_uids (replicate 16 0) uids [] in
    if is_nil admin then known else copy_into arr_uid admin ∷ known

-- The managers that `InitState` may make.
pub data Manager : Type 0 where
  void local : Manager

abbrev pub manager_for : RawConfig → Manager
manager_for raw = if is_nil raw.admin_uid || is_nil raw.database_path then void else local

abbrev names_of : List (Bytes × Addr) → List Bytes
names_of [] = []
names_of ((name, a) ∷ book) = name ∷ names_of book

-- What `InitState` makes. `keep_alive` is in nanoseconds, `none` where it is switched off.
pub record Initialised : Type 0 where
  pub state : State
  pub proxy_addrs : List (Bytes × Addr)
  pub redir_host : Bytes
  pub redir_port : Bytes
  pub manager : Manager
  pub keep_alive : Option ℕ

abbrev fails_to_open : Platform → RawConfig → Manager → Bool
fails_to_open net raw void = false
fails_to_open net raw local = if net.opens_database raw.database_path then false else true

-- `MakeUserPanel`.
abbrev pub empty_panel : UserPanel
empty_panel = record { active_users = []; usage_update_queue = []; closed_sessions = [] }

abbrev with_addresses : RawConfig → (Bytes × Bytes) → List (Bytes × Addr) → Initialised
with_addresses raw (host, port) book = record {
  state = record {
    panel = empty_panel;
    used_random = [];
    proxy_book = names_of book;
    admin_uid = raw.admin_uid;
    bypass_uid = all_bypass_uids raw.bypass_uid raw.admin_uid;
    static_pv = to_array 32 raw.private_key;
  };
  proxy_addrs = book;
  redir_host = host;
  redir_port = port;
  manager = manager_for raw;
  keep_alive =
      if not_positive raw.keep_alive then none else some (raw.keep_alive * second % 2 ^ 64);
}

unfoldable pub init_state : Platform → RawConfig → Result Initialised
init_state net raw =
    if raw.cnc_mode
    then err cnc_not_implemented
    else if fails_to_open net raw (manager_for raw)
    then err no_database
    else elim (parse_redir_addr net raw.redir_addr) [
      | none ↦ err unresolved_redir_addr
      | some redir ↦ elim (parse_proxy_book net raw.proxy_book) [
        | err e ↦ err e
        | ok book ↦
            if is_nil raw.private_key
            then err no_private_key
            else ok (with_addresses raw redir book)
      ]
    ]

-- `ParseConfig`: `read_file` is `ioutil.ReadFile`, whose content is nil where it fails, and
-- `unmarshal` is `json.Unmarshal` into a new RawConfig, where a missing ProxyBook is an empty one.
unfoldable pub parse_config :
    (Bytes → Option Bytes) → (Bytes → Option RawConfig) → Bytes → Option RawConfig
parse_config read_file unmarshal conf = elim (read_file conf) [
  | none ↦ unmarshal []
  | some content ↦ unmarshal content
]
