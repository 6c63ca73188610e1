-- ===== src/Server/Dispatcher/Admission.antt =====
-- internal/server/dispatcher.go: who is served, and what becomes of everybody else.
use cloak.Prelude.{
  ℕ, ◌≡◌, ◌≢◌, ◌⊎◌, Bytes, Bool, true, false, to_array, List, [], ◌∷◌, Option, none, some, arith,
  Option-cases, Bool-cases, inl, inr,
}
use cloak.Server.Auth.{ClientInfo, AuthResult, ok, err, AuthError, auth_fragments}
use cloak.Server.UserPanel.{ActiveUser, UserPanel}
use cloak.Server.UserPanel.Users.{
  UserManager, SessionResult, existing, made, unauthorised, panicked, no_user, get_session,
  add_session,
}
use cloak.Server.FirstPacket.{Transport, first_packet_size, read_first_packet}
use cloak.Server.FirstPacket.Transparent.{read_first_packet-Faithful}
use cloak.Server.Dispatcher.{
  State, Env, Fate, closed, redirected, joined, serving, member, process_first_packet, go_web,
  after_session, find_active, admit_user, admit, authenticate, dispatch_connection,
}
use cloak.Server.UserPanel.{find_user}
use cloak.Server.UserPanel.Users.{has_session, map_user, with_sessions}
use cloak.Server.Dispatcher.Redirection.{AuthResult-cases}

-- Whom the first packet of a stream says, with proof, that it is from.
abbrev pub identity : Env → State → Bytes → AuthResult ClientInfo
identity env sta stream =
    let p = read_first_packet first_packet_size stream in
    let processed = process_first_packet env p.transport p.packet sta.static_pv in
    (auth_fragments env.aes sta.used_random processed env.server_time).0

go_web_up :
    (env : Env) (packet : Bytes)
    → env.web_answers ≡ true
    → env.web_takes ≡ true
    → go_web env packet ≡ redirected packet
unfolding go_web
go_web_up env packet a t = ground arith

authenticate_refused :
    (env : Env) (sta : State) (transport : Option Transport) (packet : Bytes) (e : AuthError)
    → (auth_fragments env.aes sta.used_random
        (process_first_packet env transport packet sta.static_pv)
        env.server_time).0
      ≡ err e
    → (authenticate env sta transport packet).0 ≡ go_web env packet
unfolding authenticate
authenticate_refused env sta transport packet e h = ground arith

-- While the redirection server is up, a connection whose first packet is not from a client that
-- holds a key, a replayed packet among them, is redirected with all that was read of it, or it has
-- ended before a whole packet came and is closed.
pub probe_redirected :
    (env : Env) (sta : State) (stream : Bytes) (e : AuthError)
    → env.web_answers ≡ true
    → env.web_takes ≡ true
    → identity env sta stream ≡ err e
    → ((dispatch_connection env sta stream).fate
        ≡ redirected (read_first_packet first_packet_size stream).packet)
      ⊎ (((dispatch_connection env sta stream).fate ≡ closed)
          × ((dispatch_connection env sta stream).rest ≡ []))
unfolding dispatch_connection
probe_redirected env sta stream e a t h =
    let p = read_first_packet first_packet_size stream in
    let faithful = read_first_packet-Faithful first_packet_size stream (omega arith) in
    ground (
      arith,
      go_web_up env p.packet a t,
      authenticate_refused env sta p.transport p.packet e h,
      faithful.closed_alone,
      faithful.closed_at_end,
    )

find_user-map_user :
    (sessions : List ℕ) (uid : Bytes) (users : List ActiveUser) (user : ActiveUser)
    → find_user uid users ≡ some user
    → find_user uid (map_user (with_sessions sessions) uid users)
      ≡ some (with_sessions sessions user)
unfolding find_user map_user
find_user-map_user sessions uid [] user h = cc
find_user-map_user sessions uid (u ∷ users) user h =
    ground (arith, find_user-map_user sessions uid users user)

-- The user of a UID is active and has a session with an id.
abbrev pub is_open : UserPanel → Bytes → ℕ → Bool
is_open panel uid id = elim (find_user uid panel.active_users) [
  | none ↦ false
  | some user ↦ has_session id user.sessions
]

add_session-is_open :
    (panel : UserPanel) (uid : Bytes) (user : ActiveUser) (id : ℕ)
    → find_user uid panel.active_users ≡ some user
    → is_open (add_session panel uid user id) uid id ≡ true
unfolding has_session
add_session-is_open panel uid user id h =
    ground (arith, find_user-map_user (id ∷ user.sessions) uid panel.active_users user)

pub get_session-is_open :
    (manager : UserManager) (panel : UserPanel) (uid : Bytes) (id : ℕ)
    → ((get_session manager panel uid id).0 ≡ existing)
      ⊎ ((get_session manager panel uid id).0 ≡ made)
    → is_open (get_session manager panel uid id).1 uid id ≡ true
unfolding get_session
get_session-is_open manager panel uid id h =
    elim (Option-cases (find_user uid panel.active_users)) [
      | inl absent ↦ ground (arith, h)
      | inr (user, eq) ↦ ground (arith, h, add_session-is_open panel uid user id eq)
    ]

-- What holds of a client that is let in: a session of its own is open, and its proxy method is one
-- that the server offers.
abbrev Admitted : State → ClientInfo → Fate × State → Type 0
Admitted sta info (fate, sta') =
    (i : ClientInfo)
    → (fate ≡ serving i) ⊎ (fate ≡ joined i)
    → (i ≡ info)
      × (member info.proxy_method sta.proxy_book ≡ true)
      × (is_open sta'.panel (to_array 16 info.uid) info.session_id ≡ true)

pub after_session-Admitted :
    (env : Env) (sta : State) (info i : ClientInfo) (r : SessionResult × UserPanel)
    → ((after_session env sta info r).0 ≡ serving i) ⊎ ((after_session env sta info r).0 ≡ joined i)
    → (i ≡ info)
      × ((r.0 ≡ existing) ⊎ (r.0 ≡ made))
      × ((after_session env sta info r).1.panel ≡ r.1)
after_session-Admitted env sta info i (existing, panel) h = ground arith
after_session-Admitted env sta info i (made, panel) h = ground arith
after_session-Admitted env sta info i (unauthorised e, panel) h = ground arith
after_session-Admitted env sta info i (panicked, panel) h = ground arith
after_session-Admitted env sta info i (no_user, panel) h = ground arith

pub go_web-served :
    (env : Env) (packet : Bytes) (i : ClientInfo)
    → (go_web env packet ≢ serving i) × (go_web env packet ≢ joined i)
unfolding go_web
go_web-served env packet i = (ground arith, ground arith)

admit_user-Admitted :
    (env : Env) (sta : State) (info : ClientInfo) (packet : Bytes)
    → member info.proxy_method sta.proxy_book ≡ true
    → Admitted sta info (admit_user env sta info packet)
unfolding admit_user
admit_user-Admitted env sta info packet m i h =
    let found = find_active env sta info in
    let sta' = record sta { panel = found.1 } in
    let session = get_session env.manager found.1 (to_array 16 info.uid) info.session_id in
    ground (
      arith,
      h,
      after_session-Admitted env sta' info i session,
      get_session-is_open env.manager found.1 (to_array 16 info.uid) info.session_id,
      go_web-served env packet i,
    )

admit-Admitted :
    (env : Env) (sta : State) (info : ClientInfo) (packet : Bytes)
    → Admitted sta info (admit env sta info packet)
unfolding admit
admit-Admitted env sta info packet i h =
    elim (Bool-cases (member info.proxy_method sta.proxy_book)) [
      | inl m ↦
          ground (arith, admit_user-Admitted env sta info packet m i, go_web-served env packet i)
      | inr m ↦ absurd (ground (arith, h, go_web-served env packet i))
    ]

authenticate-Admitted :
    (env : Env) (sta : State) (transport : Option Transport) (packet : Bytes) (i : ClientInfo)
    → ((authenticate env sta transport packet).0 ≡ serving i)
      ⊎ ((authenticate env sta transport packet).0 ≡ joined i)
    → ((auth_fragments env.aes sta.used_random
          (process_first_packet env transport packet sta.static_pv)
          env.server_time).0
        ≡ ok i)
      × (member i.proxy_method sta.proxy_book ≡ true)
      × (is_open (authenticate env sta transport packet).1.panel (to_array 16 i.uid) i.session_id
          ≡ true)
unfolding authenticate
authenticate-Admitted env sta transport packet i h =
    let processed = process_first_packet env transport packet sta.static_pv in
    let r = auth_fragments env.aes sta.used_random processed env.server_time in
    let sta' = record sta { used_random = r.1 } in
    elim (AuthResult-cases r.0) [
      | inl (e, eq) ↦ absurd (ground (arith, h, go_web-served env packet i))
      | inr (info, eq) ↦ ground (arith, h, admit-Admitted env sta' info packet i)
    ]

-- A connection that is served, or joins a session that is served already, is from a client that the
-- first packet proves, the proxy method that it asks for is one that the server offers, and the
-- session that it asks for is open under its user afterwards.
pub served_is_authentic :
    (env : Env) (sta : State) (stream : Bytes) (info : ClientInfo)
    → ((dispatch_connection env sta stream).fate ≡ serving info)
      ⊎ ((dispatch_connection env sta stream).fate ≡ joined info)
    → (identity env sta stream ≡ ok info)
      × (member info.proxy_method sta.proxy_book ≡ true)
      × (is_open
            (dispatch_connection env sta stream).state.panel
            (to_array 16 info.uid)
            info.session_id
          ≡ true)
unfolding dispatch_connection
served_is_authentic env sta stream info h =
    let p = read_first_packet first_packet_size stream in
    ground (
      arith,
      h,
      authenticate-Admitted env sta p.transport p.packet info,
      go_web-served env p.packet info,
    )
