-- ===== src/CkServer/Covered.antt =====
-- cmd/ck-server/ck-server.go: what the server listens on as a plugin of Shadowsocks.
use cloak.Prelude.{
  ◌≡◌, refl, ap, Bytes, Bool, true, false, same_bytes, same_bytes_refl, List, [], ◌∷◌, ◌++◌, Option,
  some, if◌then◌else◌, ◌||◌, map, arith, append_assoc,
}
use cloak.CkServer.{all_interfaces, one_version, ss_bind, harmonise, parse_ss_bind_addr}

-- One of the addresses is `ss`, or takes all interfaces with the port.
abbrev pub any_listens : Bytes → Bytes → List Bytes → Bool
any_listens ss port [] = false
any_listens ss port (addr ∷ addrs) =
    (same_bytes addr ss || same_bytes addr (all_interfaces port)) || any_listens ss port addrs

harmonise_one :
    (ss port : Bytes) (addrs : List Bytes) (b : Bool)
    → same_bytes ss (all_interfaces port) ≡ false
    → harmonise ss port addrs b ≡ ((if any_listens ss port addrs then false else b), addrs)
unfolding harmonise
harmonise_one ss port [] b h = refl
harmonise_one ss port (addr ∷ addrs) b h =
    ground (arith, h, harmonise_one ss port addrs b h, harmonise_one ss port addrs false h)

-- Where Shadowsocks wants an address that is not all interfaces, it is appended if no address of the
-- configuration is the same or all interfaces with its port, and else it is not; the addresses of the
-- configuration stay as they are.
pub parse_ss_bind_addr-any_listens :
    (resolve : Bytes → Option Bytes) (host port ss : Bytes) (addrs : List Bytes)
    → resolve (ss_bind host port) ≡ some ss
    → same_bytes ss (all_interfaces port) ≡ false
    → parse_ss_bind_addr resolve host port addrs
      ≡ some (if any_listens ss port addrs then addrs else addrs ++ ss ∷ [])
unfolding parse_ss_bind_addr
parse_ss_bind_addr-any_listens resolve host port ss addrs found one =
    ground (arith, found, harmonise_one ss port addrs true one)

-- All interfaces of one version of IP become those of both.
abbrev pub widen : Bytes → Bytes → Bytes
widen port addr = if one_version port addr then all_interfaces port else addr

harmonise_both :
    (port addr : Bytes) (addrs : List Bytes) (b : Bool)
    → one_version port addr ≡ true
    → harmonise (all_interfaces port) port (addrs ++ addr ∷ []) b
      ≡ (true, map (widen port) addrs ++ all_interfaces port ∷ [])
unfolding harmonise
harmonise_both port addr [] b h = ground (arith, h, same_bytes_refl (all_interfaces port))
harmonise_both port addr (a ∷ addrs) b h = ground (
  arith,
  same_bytes_refl (all_interfaces port),
  harmonise_both port addr addrs true h,
  harmonise_both port addr addrs false h,
  harmonise_both port addr addrs b h,
)

-- Where Shadowsocks wants all interfaces of both versions, and the last address of the configuration
-- is for all interfaces of one, each such address is widened, and the wanted address is appended
-- although the widened one is there: the server is to listen on it twice.
pub parse_ss_bind_addr-widen :
    (resolve : Bytes → Option Bytes) (host port addr : Bytes) (addrs : List Bytes)
    → resolve (ss_bind host port) ≡ some (all_interfaces port)
    → one_version port addr ≡ true
    → parse_ss_bind_addr resolve host port (addrs ++ addr ∷ [])
      ≡ some (map (widen port) addrs ++ all_interfaces port ∷ (all_interfaces port ∷ []))
unfolding parse_ss_bind_addr
parse_ss_bind_addr-widen resolve host port addr addrs found h =
    rw (parse_ss_bind_addr, found, harmonise_both port addr addrs true h)
      (ap some (
        append_assoc (map (widen port) addrs) (all_interfaces port ∷ [])
          (all_interfaces port ∷ [])))
