-- ===== src/Server/Dispatcher.antt =====
-- internal/server/dispatcher.go: dispatchConnection, and processFirstPacket of TLS.go and
-- websocket.go. Each call is one step: what other connections do meanwhile is not part of it.
pub mod Admission
pub mod Once
pub mod Redirection
pub mod ServedOnce
use cloak.Prelude.{
  ℕ, ◌&&◌, Bytes, Bool, true, false, not, length, to_array, List, [], ◌∷◌, ◌++◌, Option, none, some,
  ◌==◌, if◌then◌else◌, ◌||◌,
}
use cloak.Ecdh.{Curve, AesGcm}
use cloak.Multiplex.Obfs.{Ciphers, make_obfuscator}
use cloak.Multiplex.Obfs as Obfs
use cloak.Server.Auth.{
  ClientInfo, AuthFragments, AuthResult, ok, err, AuthError, bad_get, bad_client_hello,
  bad_key_share, invalid_pub_key, no_secret, ciphertext_length, UsedRandom, auth_fragments,
  same_bytes,
}
use cloak.Server.Tls.{
  HelloResult, hello, parse_client_hello, UnmarshalResult, fragments, bad_pub_key, bad_secret,
  bad_length, unmarshal_client_hello,
}
use cloak.Server.Tls as Tls
use cloak.Server.WebSocket.{unmarshal_hidden}
use cloak.Server.UserManager.{Outcome}
use cloak.Server.UserManager as Manager
use cloak.Server.UserPanel.{UserPanel}
use cloak.Server.UserPanel.Users.{
  UserManager, get_user, get_bypass_user, SessionResult, existing, made, unauthorised, panicked,
  no_user, get_session, close_session,
}
use cloak.Server.FirstPacket.{
  Transport, tls, websocket, FirstPacket, first_packet_size, read_first_packet,
}

-- The entries of `ProxyBook` are the names of the proxy methods.
pub record State : Type 0 where
  pub panel : UserPanel
  pub used_random : UsedRandom
  pub proxy_book : List Bytes
  pub admin_uid : Bytes
  pub bypass_uid : List Bytes
  pub static_pv : Bytes

-- `hidden_header` gives what net/http and encoding/base64 make of a request's header, `none` if the
-- request is malformed. The last three say whether the redirection server answers, whether it takes
-- the first packet, and whether the handshake's reply is written.
pub record Env : Type 0 where
  pub curve : Curve
  pub aes : AesGcm
  pub ciphers : Ciphers
  pub manager : UserManager
  pub hidden_header : Bytes → Option Bytes
  pub server_time : ℕ
  pub session_key : Bytes
  pub web_answers : Bool
  pub web_takes : Bool
  pub handshake_done : Bool

-- What becomes of a connection. A redirected one is copied in both directions, after the bytes that
-- the redirection server is given first; `panicked` is a panic of the user manager.
pub data Fate : Type 0 where
  closed web_unreachable web_refuses : Fate
  redirected : Bytes → Fate
  admin_session handshake_failed session_refused user_panicked : Fate
  joined serving : ClientInfo → Fate

-- The outcome: the connection's fate, the state, and the unread stream.
pub record Dispatched : Type 0 where
  pub fate : Fate
  pub state : State
  pub rest : Bytes

abbrev pub member : Bytes → List Bytes → Bool
member x [] = false
member x (y ∷ ys) = same_bytes y x || member x ys

unfoldable pub is_bypass : State → Bytes → Bool
is_bypass sta uid = member (to_array 16 uid) sta.bypass_uid

unfoldable pub process_tls : Curve → Bytes → Bytes → AuthResult AuthFragments
process_tls curve packet pv = elim (parse_client_hello packet) [
  | hello ch ↦ elim (unmarshal_client_hello curve ch pv) [
    | fragments f ↦ ok f
    | bad_pub_key ↦ err invalid_pub_key
    | bad_secret ↦ err no_secret
    | Tls.bad_key_share ↦ err bad_key_share
    | bad_length ↦ err ciphertext_length
  ]
  | _ ↦ err bad_client_hello
]

unfoldable pub process_websocket : Env → Bytes → Bytes → AuthResult AuthFragments
process_websocket env packet pv = elim (env.hidden_header packet) [
  | none ↦ err bad_get
  | some hidden ↦ unmarshal_hidden env.curve hidden pv
]

abbrev pub process_first_packet : Env → Option Transport → Bytes → Bytes → AuthResult AuthFragments
process_first_packet env none packet pv = err bad_get
process_first_packet env (some tls) packet pv = process_tls env.curve packet pv
process_first_packet env (some websocket) packet pv = process_websocket env packet pv

unfoldable pub go_web : Env → Bytes → Fate
go_web env packet =
    if env.web_answers
    then (if env.web_takes then redirected packet else web_refuses)
    else web_unreachable

-- Admission of a client whose proxy method is known: the user, then the session.
abbrev pub after_session : Env → State → ClientInfo → SessionResult × UserPanel → Fate × State
after_session env sta info (existing, panel) =
    (if env.handshake_done then joined info else handshake_failed, record sta { panel = panel })
after_session env sta info (made, panel) =
    (if env.handshake_done then serving info else handshake_failed, record sta { panel = panel })
after_session env sta info (unauthorised e, panel) = (
  session_refused,
  record sta { panel = close_session panel (to_array 16 info.uid) info.session_id },
)
after_session env sta info (panicked, panel) = (user_panicked, record sta { panel = panel })
after_session env sta info (no_user, panel) = (user_panicked, record sta { panel = panel })

abbrev pub find_active : Env → State → ClientInfo → Outcome (Unit {0}) × UserPanel
find_active env sta info =
    if is_bypass sta info.uid
    then (Manager.ok tt, get_bypass_user sta.panel info.uid)
    else get_user env.manager sta.panel info.uid

unfoldable pub admit_user : Env → State → ClientInfo → Bytes → Fate × State
unfolding go_web
admit_user env sta info packet =
    let (found, panel) = find_active env sta info in
    let sta' = record sta { panel = panel } in
    let session = get_session env.manager panel (to_array 16 info.uid) info.session_id in
    elim found [
      | Manager.ok _ ↦ after_session env sta' info session
      | Manager.refused e ↦ (go_web env packet, sta')
      | Manager.panics ↦ (user_panicked, sta')
    ]

abbrev pub is_admin : State → ClientInfo → Bool
is_admin sta info =
    not (length sta.admin_uid == 0) && (same_bytes info.uid sta.admin_uid && info.session_id == 0)

unfoldable pub admit : Env → State → ClientInfo → Bytes → Fate × State
unfolding admit_user
admit env sta info packet =
    elim (make_obfuscator env.ciphers info.encryption_method env.session_key) [
      | Obfs.err e ↦ (go_web env packet, sta)
      | Obfs.ok o ↦
          if is_admin sta info
          then (if env.handshake_done then admin_session else handshake_failed, sta)
          else if member info.proxy_method sta.proxy_book
          then admit_user env sta info packet
          else (go_web env packet, sta)
    ]

-- From the first packet on, read without error.
unfoldable pub authenticate : Env → State → Option Transport → Bytes → Fate × State
unfolding admit
authenticate env sta transport packet =
    let processed = process_first_packet env transport packet sta.static_pv in
    let (r, used) = auth_fragments env.aes sta.used_random processed env.server_time in
    let sta' = record sta { used_random = used } in
    elim r [ err e ↦ (go_web env packet, sta') | ok info ↦ admit env sta' info packet ]

unfoldable pub dispatch_connection : Env → State → Bytes → Dispatched
unfolding authenticate
dispatch_connection env sta stream =
    let p = read_first_packet first_packet_size stream in
    let (fate, sta') = authenticate env sta p.transport p.packet in
    elim p.error [
      | none ↦ record { fate = fate; state = sta'; rest = p.rest }
      | some e ↦ record {
        fate = if p.redir_on_err then go_web env p.packet else closed;
        state = sta;
        rest = p.rest;
      }
    ]
