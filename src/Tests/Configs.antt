-- ===== src/Tests/Configs.antt =====
-- internal/server/state.go and internal/client/state.go: configurations at work.
use cloak.Prelude.{
  ◌≡◌, refl, Bytes, true, false, not, ◌&&◌, ◌||◌, codes, join_host_port, to_array, copy_into,
  to_lower, is_nil, same_bytes, replicate, List, [], ◌∷◌, none, some, inr,
}
use cloak.Server.Dispatcher.{member, is_bypass}
use cloak.Server.Config.{
  Platform, RawConfig, Initialised, tcp_addr, udp_addr, manager_for, empty_panel, all_bypass_uids,
  split_redir_addr, parse_redir_addr, parse_proxy_book, entry_of, lookup_text, init_state,
}
use cloak.Server.Config.Addresses.{split_redir_addr-join_host_port}
use cloak.Server.Config.Bypass.{is_bypass-init_state, short_uid-is_bypass}
use cloak.Server.Config.Book.{addr_in, parse_proxy_book-lookup_text}

split_redir_addr-join_host_port_example :
    split_redir_addr (join_host_port (codes "::1") (codes "443")) ≡ (codes "::1", codes "443")
split_redir_addr-join_host_port_example =
    split_redir_addr-join_host_port (codes "::1") (codes "443") refl

-- Every address resolves to itself.
abbrev net : Platform
net = record {
  resolve_ip = λ a. some a;
  resolve_tcp = λ a. some a;
  resolve_udp = λ a. some a;
  opens_database = λ path. true;
}

abbrev ten : Bytes
ten = replicate 16 10

abbrev server_config : RawConfig
server_config = record {
  proxy_book = (codes "SS", codes "TCP" ∷ (codes "127.0.0.1:8388" ∷ [])) ∷ [];
  bypass_uid = ten ∷ [];
  redir_addr = codes "1.2.3.4";
  private_key = replicate 32 5;
  admin_uid = replicate 16 11;
  database_path = codes "users.db";
  keep_alive = 0;
  cnc_mode = false;
}

-- What the server makes of it, with these bypass users.
abbrev initialised : RawConfig → List Bytes → Initialised
initialised raw users = record {
  state = record {
    panel = empty_panel;
    used_random = [];
    proxy_book = codes "ss" ∷ [];
    admin_uid = raw.admin_uid;
    bypass_uid = users;
    static_pv = replicate 32 5;
  };
  proxy_addrs = (codes "ss", tcp_addr (codes "127.0.0.1:8388")) ∷ [];
  redir_host = codes "1.2.3.4";
  redir_port = [];
  manager = manager_for raw;
  keep_alive = none;
}

is_bypass-init_state_example :
    is_bypass (initialised server_config (replicate 16 11 ∷ (ten ∷ []))).state (replicate 16 7) ≡ (
      member (to_array 16 (replicate 16 7)) (ten ∷ [])
      || not (is_nil (replicate 16 11))
        && same_bytes (replicate 16 11) (to_array 16 (replicate 16 7)))
unfolding init_state parse_redir_addr parse_proxy_book all_bypass_uids copy_into
is_bypass-init_state_example =
    is_bypass-init_state net server_config
      (initialised server_config (replicate 16 11 ∷ (ten ∷ []))) (replicate 16 7) refl (refl, tt)
      (inr refl)

-- A short UID after a long one.
abbrev two_listed : RawConfig
two_listed = record server_config { bypass_uid = ten ∷ ((3 ∷ 3 ∷ []) ∷ []); admin_uid = [] }

abbrev mixed : Bytes
mixed = 3 ∷ 3 ∷ replicate 14 10

short_uid-is_bypass_example :
    (is_bypass (initialised two_listed (mixed ∷ (ten ∷ []))).state (copy_into ten (3 ∷ 3 ∷ []))
      ≡ true)
    × (is_bypass (initialised two_listed (mixed ∷ (ten ∷ []))).state (3 ∷ 3 ∷ []) ≡ (
        same_bytes (copy_into ten (3 ∷ 3 ∷ [])) (to_array 16 (3 ∷ 3 ∷ []))
        || same_bytes ten (to_array 16 (3 ∷ 3 ∷ []))))
unfolding init_state parse_redir_addr parse_proxy_book all_bypass_uids copy_into
short_uid-is_bypass_example =
    short_uid-is_bypass net two_listed (initialised two_listed (mixed ∷ (ten ∷ []))) ten
      (3 ∷ 3 ∷ []) refl refl refl refl

abbrev two_methods : List (Bytes × List Bytes)
two_methods = (codes "dns", codes "udp" ∷ (codes "127.0.0.1:53" ∷ [])) ∷ []

parse_proxy_book-lookup_text_example :
    lookup_text (to_lower (codes "SS")) (
      (codes "dns", udp_addr (codes "127.0.0.1:53"))
      ∷ ((codes "ss", tcp_addr (codes "127.0.0.1:8388")) ∷ []))
    ≡ addr_in (entry_of net (codes "TCP" ∷ (codes "127.0.0.1:8388" ∷ [])))
unfolding parse_proxy_book
parse_proxy_book-lookup_text_example =
    parse_proxy_book-lookup_text net two_methods [] (codes "SS")
      (codes "TCP" ∷ (codes "127.0.0.1:8388" ∷ []))
      ((codes "dns", udp_addr (codes "127.0.0.1:53"))
        ∷ ((codes "ss", tcp_addr (codes "127.0.0.1:8388")) ∷ []))
      refl refl refl
