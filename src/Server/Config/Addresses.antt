-- ===== src/Server/Config/Addresses.antt =====
-- internal/server/state.go: the address of the redirection server.
use mathlib.Core.Path.{ap₂}
use cloak.Prelude.{
  ◌≡◌, refl, ap, sym, ◌∙◌, Bytes, true, false, codes, has_byte, join_host_port, split, split_absent,
  split-append, split_present, last_of-append, has_byte-append, trim_suffix-append, trim_prefix,
  trim_suffix, [], ◌∷◌, ◌++◌, Bool-cases, inl, inr, append_assoc, List,
}
use cloak.Server.Config.{host_and_port, split_redir_addr}

host_and_port-brackets :
    (addr a b port : Bytes) (rest : List Bytes)
    → has_byte b'[' addr ≡ true
    → host_and_port addr (a ∷ (b ∷ (rest ++ port ∷ [])))
      ≡ (trim_prefix (codes "[") (trim_suffix (codes "]:" ++ port) addr), port)
host_and_port-brackets addr a b port [] h = rw h refl
host_and_port-brackets addr a b port (r ∷ rest) h = rw (h, last_of-append r port rest) refl

-- An IPv6 address in brackets, with a port.
bracketed :
    (host port : Bytes)
    → has_byte b':' host ≡ true
    → has_byte b':' port ≡ false
    → split_redir_addr ((b'[' ∷ host) ++ (codes "]:" ++ port)) ≡ (host, port)
unfolding split_redir_addr
bracketed host port six h =
    let addr = (b'[' ∷ host) ++ (codes "]:" ++ port) in
    let colon : has_byte b':' (b'[' ∷ (host ++ b']' ∷ [])) ≡ true =
      has_byte-append b':' host (b']' ∷ []) six in
    let (a, b, rest, parts) = split_present b':' (b'[' ∷ (host ++ b']' ∷ [])) colon in
    let seam : addr ≡ (b'[' ∷ (host ++ b']' ∷ [])) ++ b':' ∷ port =
      ap (◌∷◌ b'[') (sym (append_assoc host (b']' ∷ []) (b':' ∷ port))) in
    let all : split b':' addr ≡ a ∷ (b ∷ (rest ++ port ∷ [])) =
      ap (split b':') seam
      ∙ (split-append b':' (b'[' ∷ (host ++ b']' ∷ [])) port
          ∙ ap₂ (λ xs ys. xs ++ ys) parts (split_absent b':' port h)) in
    ap (host_and_port addr) all
    ∙ (host_and_port-brackets addr a b port rest refl
        ∙ ap (λ s. (trim_prefix (codes "[") s, port))
            (trim_suffix-append (b'[' ∷ host) (codes "]:" ++ port)))

-- An address as `net.JoinHostPort` writes it is taken apart into its host and its port, an IPv6
-- address among them, which stands in brackets. The port has no colon.
pub split_redir_addr-join_host_port :
    (host port : Bytes)
    → has_byte b':' port ≡ false
    → split_redir_addr (join_host_port host port) ≡ (host, port)
unfolding split_redir_addr
split_redir_addr-join_host_port host port h = elim (Bool-cases (has_byte b':' host)) [
  | inl six ↦ rw six (
      ap split_redir_addr (ap (◌∷◌ b'[') (append_assoc host (codes "]:") port))
      ∙ bracketed host port six h)
  | inr four ↦
      let seam = append_assoc host (codes ":") port in
      let parts : split b':' (host ++ b':' ∷ port) ≡ host ∷ (port ∷ []) =
        split-append b':' host port
        ∙ ap₂ (λ xs ys. xs ++ ys) (split_absent b':' host four) (split_absent b':' port h) in
      rw four (ap split_redir_addr seam ∙ ap (host_and_port (host ++ b':' ∷ port)) parts)
]
