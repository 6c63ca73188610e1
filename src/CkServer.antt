-- ===== src/CkServer.antt =====
-- cmd/ck-server/ck-server.go: the addresses that the server listens on. An address is the text that it
-- prints as, and net.ResolveTCPAddr is a parameter.
pub mod Covered
use cloak.Prelude.{
  ℕ, Bytes, Bool, true, false, same_bytes, codes, split, join_host_port, length, List, [], ◌∷◌,
  ◌++◌, Option, none, some, ◌==◌, if◌then◌else◌, ◌||◌, ◌&&◌,
}

abbrev cons_addr : Bytes → Option (List Bytes) → Option (List Bytes)
cons_addr a none = none
cons_addr a (some addrs) = some (a ∷ addrs)

-- `none` is the error of the first address that cannot be resolved.
unfoldable pub resolve_bind_addr : (Bytes → Option Bytes) → List Bytes → Option (List Bytes)
resolve_bind_addr resolve [] = some []
resolve_bind_addr resolve (addr ∷ addrs) = elim (resolve addr) [
  | none ↦ none
  | some a ↦ cons_addr a (resolve_bind_addr resolve addrs)
]

-- Listening on all interfaces, of both versions of IP and of one.
abbrev pub all_interfaces : Bytes → Bytes
all_interfaces port = b':' ∷ port

abbrev pub one_version : Bytes → Bytes → Bool
one_version port addr =
    same_bytes addr (codes "0.0.0.0:" ++ port) || same_bytes addr (codes "[::]:" ++ port)

abbrev pub ss_bind : Bytes → Bytes → Bytes
ss_bind host port =
    if length (split b'|' host) == 2 then all_interfaces port else join_host_port host port

-- Whether an address is replaced by that of the Shadowsocks server.
abbrev pub widened : Bytes → Bytes → Bytes → Bool
widened ss port addr = one_version port addr && same_bytes ss (all_interfaces port)

-- The loop of `parseSSBindAddr`: `should_append`, and the addresses after it.
unfoldable pub harmonise : Bytes → Bytes → List Bytes → Bool → Bool × List Bytes
harmonise ss port [] should_append = (should_append, [])
harmonise ss port (addr ∷ addrs) should_append =
    let listens = same_bytes addr ss || same_bytes addr (all_interfaces port) in
    let rest =
      harmonise ss port addrs
        (if widened ss port addr then true else if listens then false else should_append) in
    (rest.0, (if widened ss port addr then ss else addr) ∷ rest.1)

abbrev appended : Bytes → Bool × List Bytes → List Bytes
appended ss (should_append, addrs) = if should_append then addrs ++ ss ∷ [] else addrs

unfoldable pub parse_ss_bind_addr :
    (Bytes → Option Bytes) → Bytes → Bytes → List Bytes → Option (List Bytes)
unfolding harmonise
parse_ss_bind_addr resolve host port addrs = elim (resolve (ss_bind host port)) [
  | none ↦ none
  | some ss ↦ some (appended ss (harmonise ss port addrs true))
]

-- The two addresses are those that `:443` and `:80` are resolved to.
abbrev or_default : List Bytes → List Bytes
or_default [] = all_interfaces (codes "443") ∷ (all_interfaces (codes "80") ∷ [])
or_default (addr ∷ addrs) = addr ∷ addrs

-- The addresses that `main` listens on; `plugin` has SS_REMOTE_HOST and SS_REMOTE_PORT where the
-- server is started as a plugin. `none` ends the program.
unfoldable pub bind_addresses :
    (Bytes → Option Bytes) → Option (Bytes × Bytes) → List Bytes → Option (List Bytes)
unfolding resolve_bind_addr parse_ss_bind_addr
bind_addresses resolve plugin bind_addr = elim (resolve_bind_addr resolve bind_addr) [
  | none ↦ none
  | some addrs ↦ elim plugin [
    | none ↦ some (or_default addrs)
    | some (host, port) ↦ parse_ss_bind_addr resolve host port addrs
  ]
]
