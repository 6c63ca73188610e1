-- ===== src/Client/Connector/Started.antt =====
-- internal/client/connector.go: the session that MakeSession makes of a configuration.
use mathlib.Core.List.{Mem}
use cloak.Prelude.{
  ℕ, zero, suc, ◌+◌, ◌≡◌, Bytes, false, List, [], ◌∷◌, some, length, map, ◌⊎◌, to_array,
  not_positive,
}
use cloak.Multiplex.Obfs.{Aead, Ciphers, make_obfuscator}
use cloak.Multiplex.Obfs as Obfs
use cloak.Multiplex.Session.State.{Session}
use cloak.Client.Config.{RawConfig, Processed, ok, Transport}
use cloak.Client.Connector.{Attempt, Connected}
use cloak.Client.Connector.Fallback.{Comes}

data Four (m : ℕ) : Type 0 where
  zeroth : m ≡ 0 → Four m
  first : m ≡ 1 → Four m
  second : m ≡ 2 → Four m
  third : m ≡ 3 → Four m

-- The entries of the pool: the connections, under the numbers from `n` on.
abbrev pub numbered : ℕ → List ℕ → List (ℕ × ℕ)
numbered n [] = []
numbered n (c ∷ cs) = (n, c) ∷ numbered (n + 1) cs

-- The session with these connections in its pool.
abbrev pub with_conns : Session → List ℕ → Session
with_conns sesh cs = record sesh {
  sb = record sesh.sb { conns = numbered 0 cs; conns_count = length cs };
}

abbrev pub conns_of : List Connected → List ℕ
conns_of cs = map (λ c. c.conn) cs

-- The outcome of all goroutines: a connection each.
pub data AllCome (network : ℕ → Transport → ℕ → Attempt) (n : ℕ) : ℕ → List Connected → Type 0 where
  none_started : AllCome network n zero []
  one_more :
      {i : ℕ} {c : Connected} {cs : List Connected}
      → Comes (network i) n c
      → AllCome network n i cs
      → AllCome network n (suc i) (c ∷ cs)

-- What crypto/cipher and golang.org/x/crypto say of keys of the right length.
pub record Documented (ciphers : Ciphers) : Type 0 where
  pub aes_gcm_takes :
      (key : Bytes)
      → length key ≡ 32 ⊎ length key ≡ 16
      → (a : Aead) × (ciphers.aes_gcm key ≡ some a) × (a.nonce_size ≡ 12)
  pub chacha20_takes :
      (key : Bytes)
      → length key ≡ 32
      → (a : Aead) × (ciphers.chacha20_poly1305 key ≡ some a) × (a.nonce_size ≡ 12)

-- The session is open, with these connections and no streams, as the configuration says.
pub record Started (ciphers : Ciphers) (raw : RawConfig) (p : Processed) (arrived : List Connected)
    (sesh : Session) : Type 0 where
  pub stays_open : sesh.closed ≡ false
  pub whole : sesh.sb.broken ≡ false
  pub holds : sesh.sb.conns ≡ numbered 0 (conns_of arrived)
  pub counts : sesh.sb.conns_count ≡ p.remote.num_conn
  pub singleplexes : sesh.singleplex ≡ not_positive raw.num_conn
  pub drops_order : sesh.is_unordered ≡ raw.udp
  pub no_streams : sesh.streams ≡ []
  pub keyed :
      (c : Connected) × Mem c arrived
      × (make_obfuscator ciphers p.auth.encryption_method (to_array 32 c.session_key)
          ≡ Obfs.ok sesh.obfuscator)
