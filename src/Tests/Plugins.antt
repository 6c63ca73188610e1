-- ===== src/Tests/Plugins.antt =====
-- cmd/ck-server/ck-server.go: a server that Shadowsocks starts for both versions of IP.
use cloak.Prelude.{◌≡◌, refl, Bytes, List, [], ◌∷◌, ◌++◌, none, some, codes}
use cloak.CkServer.{bind_addresses, resolve_bind_addr, harmonise, parse_ss_bind_addr}
use cloak.CkServer.Covered.{parse_ss_bind_addr-any_listens, parse_ss_bind_addr-widen}

abbrev configured : List Bytes
configured = codes "127.0.0.1:443" ∷ (codes "1.2.3.4:80" ∷ [])

parse_ss_bind_addr-any_listens_example :
    parse_ss_bind_addr some (codes "1.2.3.4") (codes "80") configured ≡ some configured
parse_ss_bind_addr-any_listens_example =
    parse_ss_bind_addr-any_listens some (codes "1.2.3.4") (codes "80") (codes "1.2.3.4:80")
      configured refl refl

parse_ss_bind_addr-widen_example :
    parse_ss_bind_addr some (codes "::|0.0.0.0") (codes "443") (configured ++ codes "[::]:443" ∷ [])
    ≡ some (configured ++ codes ":443" ∷ (codes ":443" ∷ []))
parse_ss_bind_addr-widen_example =
    parse_ss_bind_addr-widen some (codes "::|0.0.0.0") (codes "443") (codes "[::]:443") configured
      refl refl

-- An address for one version is widened, and then there twice.
listed_twice :
    parse_ss_bind_addr some (codes "::|0.0.0.0") (codes "443") (codes "0.0.0.0:443" ∷ [])
    ≡ some (codes ":443" ∷ (codes ":443" ∷ []))
unfolding parse_ss_bind_addr harmonise
listed_twice = refl

unresolved_first : resolve_bind_addr (λ a. none) configured ≡ none
unfolding resolve_bind_addr
unresolved_first = refl

standalone : bind_addresses some none [] ≡ some (codes ":443" ∷ (codes ":80" ∷ []))
unfolding bind_addresses resolve_bind_addr
standalone = refl
