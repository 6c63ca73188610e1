-- ===== src/Client/Connector.antt =====
-- internal/client/connector.go: MakeSession. The outcome of each attempt to connect is a parameter, as
-- is the order in which the goroutines put their connections into the channel; a wait is counted.
pub mod Fallback
pub mod Started
use cloak.Prelude.{
  ℕ, zero, suc, ◌+◌, Bytes, Bool, true, false, List, [], ◌∷◌, Option, none, some, last_of, to_array,
}
use cloak.Multiplex.Obfs.{Ciphers, Result, ok, err, make_obfuscator}
use cloak.Multiplex.Session.State.{Stream, Session, make_session}
use cloak.Multiplex.Session.Switchboard.{add_conn}
use cloak.Client.Auth.{AuthInfo}
use cloak.Client.Config.{
  Browser, chrome, firefox, TransportConfig, direct, Transport, ws_over_tls, direct_tls,
  create_transport, RemoteConnConfig,
}

-- A connection and the session key that its handshake gives, or where the attempt failed: `not_sent`
-- is a handshake that fails before it has made its TLSConn or WebSocketConn, and `not_prepared` one
-- that fails later.
pub data Attempt : Type 0 where
  not_dialed not_sent not_prepared : Attempt
  prepared : ℕ → Bytes → Attempt

-- After a failed handshake a transport with Chrome's signature takes that of Firefox.
unfoldable pub fall_back : TransportConfig → TransportConfig
fall_back (direct chrome) = direct firefox
fall_back other = other

-- `attempt` is the number of the attempt that was the last, and of the waits of three seconds.
pub record Connected : Type 0 where
  pub conn : ℕ
  pub session_key : Bytes
  pub transport : Transport
  pub attempt : ℕ

-- `Close` of a transport whose connection is still nil: that of DirectTLS panics, in a goroutine, and
-- that of WSOverTLS asks for it first.
abbrev pub close_panics : Transport → Bool
close_panics (direct_tls browser) = true
close_panics (ws_over_tls url) = false

-- What the attempts have led to; the panic ends the program.
pub data Dialing : Type 0 where
  connected : Connected → Dialing
  still_trying dial_panics : Dialing

module _ (network : Transport → ℕ → Attempt) where
  -- The loop `makeconn` from attempt `n` on.
  unfoldable pub make_conn : ℕ → TransportConfig → ℕ → Dialing
  unfolding fall_back create_transport
  make_conn zero config n = still_trying
  make_conn (suc fuel) config n = elim (network (create_transport config) n) [
    | not_dialed ↦ make_conn fuel config (n + 1)
    | not_sent ↦ elim (close_panics (create_transport config)) [
      | true ↦ dial_panics
      | false ↦ make_conn fuel (fall_back config) (n + 1)
    ]
    | not_prepared ↦ make_conn fuel (fall_back config) (n + 1)
    | prepared c key ↦
        connected
          (record { conn = c; session_key = key; transport = create_transport config; attempt = n })
  ]

-- The goroutines: `network i` is what the one with the number `i` meets. `none` where one of them is
-- still trying, or has ended the program.
unfoldable pub make_conns :
    (ℕ → Transport → ℕ → Attempt) → ℕ → TransportConfig → ℕ → Option (List Connected)
unfolding make_conn
make_conns network fuel config zero = some []
make_conns network fuel config (suc i) =
    let others = make_conns network fuel config i in
    elim (make_conn (network i) fuel config 0) [
      | still_trying ↦ none
      | dial_panics ↦ none
      | connected c ↦ elim others [ none ↦ none | some cs ↦ some (c ∷ cs) ]
    ]

abbrev pub app_data_max_length : ℕ
app_data_max_length = 16401

unfoldable pub add_connections : Session → List Connected → Session
unfolding add_conn
add_connections sesh [] = sesh
add_connections sesh (c ∷ cs) = add_connections (record sesh { sb = add_conn sesh.sb c.conn }) cs

-- The panic is that of the type assertion on a session key that was never stored; `fatal` ends the
-- program.
pub data Made : Type 0 where
  made : Session → Made
  panics fatal : Made

-- `MakeSession` once all connections are there: each has stored its key, an array of 32 bytes, over
-- the one before.
unfoldable pub make_session_on :
    Ciphers → RemoteConnConfig → AuthInfo → (ℕ → Stream) → List Connected → Made
unfolding make_session add_connections
make_session_on cs config auth objects [] = panics
make_session_on cs config auth objects (c ∷ arrived) =
    let key = to_array 32 (last_of c arrived).session_key in
    elim (make_obfuscator cs auth.encryption_method key) [
      | err e ↦ fatal
      | ok o ↦ made (
          add_connections
            (make_session o config.singleplex auth.is_unordered app_data_max_length objects)
            (c ∷ arrived))
    ]
