-- ===== src/Server/Dispatcher/Redirection.antt =====
-- internal/server/dispatcher.go: what a redirected connection gives to the web server.
use cloak.Prelude.{◌≡◌, ◌≢◌, ◌⊎◌, refl, Bytes, to_array, ◌++◌, Option, arith, inl, inr}
use cloak.Server.Auth.{ClientInfo, AuthResult, ok, err, AuthError, auth_fragments}
use cloak.Server.UserManager.{Outcome}
use cloak.Server.UserManager as Manager
use cloak.Server.UserPanel.{UserPanel}
use cloak.Server.UserPanel.Users.{
  get_user, SessionResult, existing, made, unauthorised, panicked, no_user, get_session,
}
use cloak.Server.FirstPacket.{Transport, first_packet_size, read_first_packet}
use cloak.Server.FirstPacket.Transparent.{read_first_packet-Faithful}
use cloak.Server.Dispatcher.{
  State, Env, Fate, redirected, process_first_packet, go_web, after_session, find_active,
  admit_user, admit, authenticate, dispatch_connection,
}

pub AuthResult-cases {ℓ} :
    {A : Type ℓ} (r : AuthResult A) → ((e : AuthError) × (r ≡ err e)) ⊎ ((a : A) × (r ≡ ok a))
AuthResult-cases (ok a) = inr (a, refl)
AuthResult-cases (err e) = inl (e, refl)

-- What a redirected connection gives to the web, and what it leaves of the state.
abbrev Untouched : Bytes → State → Fate × State → Type 0
Untouched packet sta (fate, sta') =
    (b : Bytes) → fate ≡ redirected b → (b ≡ packet) × (sta'.panel ≡ sta.panel)

pub go_web-eq : (env : Env) (packet b : Bytes) → go_web env packet ≡ redirected b → b ≡ packet
unfolding go_web
go_web-eq env packet b h = ground arith

after_session-Untouched :
    (env : Env) (sta : State) (info : ClientInfo) (r : SessionResult × UserPanel) (b : Bytes)
    → (after_session env sta info r).0 ≢ redirected b
after_session-Untouched env sta info (existing, panel) b = ground arith
after_session-Untouched env sta info (made, panel) b = ground arith
after_session-Untouched env sta info (unauthorised e, panel) b = ground arith
after_session-Untouched env sta info (panicked, panel) b = ground arith
after_session-Untouched env sta info (no_user, panel) b = ground arith

-- A user who is not found leaves the panel as it is.
find_active-cases :
    (env : Env) (sta : State) (info : ClientInfo)
    → ((find_active env sta info).0 ≡ Manager.ok tt) ⊎ ((find_active env sta info).1 ≡ sta.panel)
unfolding get_user
find_active-cases env sta info = ground arith

admit_user-Untouched :
    (env : Env) (sta : State) (info : ClientInfo) (packet : Bytes)
    → Untouched packet sta (admit_user env sta info packet)
unfolding admit_user
admit_user-Untouched env sta info packet b h =
    let found = find_active env sta info in
    let sta' = record sta { panel = found.1 } in
    let session = get_session env.manager found.1 (to_array 16 info.uid) info.session_id in
    ground (
      arith,
      after_session-Untouched env sta' info session b,
      go_web-eq env packet b,
      find_active-cases env sta info,
    )

admit-Untouched :
    (env : Env) (sta : State) (info : ClientInfo) (packet : Bytes)
    → Untouched packet sta (admit env sta info packet)
unfolding admit
admit-Untouched env sta info packet b h =
    ground (arith, admit_user-Untouched env sta info packet b, go_web-eq env packet b)

authenticate-Untouched :
    (env : Env) (sta : State) (transport : Option Transport) (packet : Bytes)
    → Untouched packet sta (authenticate env sta transport packet)
unfolding authenticate
authenticate-Untouched env sta transport packet b h =
    let processed = process_first_packet env transport packet sta.static_pv in
    let r = auth_fragments env.aes sta.used_random processed env.server_time in
    let sta' = record sta { used_random = r.1 } in
    elim (AuthResult-cases r.0) [
      | inl (e, eq) ↦ ground (arith, go_web-eq env packet b)
      | inr (info, eq) ↦ ground (arith, admit-Untouched env sta' info packet b)
    ]

-- A connection that is redirected reaches the web server with every byte that the client sent: those
-- read as a first packet are given to it, the others are still on the connection. Nothing of the
-- sessions and users has changed then.
pub redirection_transparent :
    (env : Env) (sta : State) (stream b : Bytes)
    → (dispatch_connection env sta stream).fate ≡ redirected b
    → (b ++ (dispatch_connection env sta stream).rest ≡ stream)
      × ((dispatch_connection env sta stream).state.panel ≡ sta.panel)
unfolding dispatch_connection
redirection_transparent env sta stream b h =
    let p = read_first_packet first_packet_size stream in
    let faithful = read_first_packet-Faithful first_packet_size stream (omega arith) in
    ground (
      arith,
      faithful.conserved,
      go_web-eq env p.packet b,
      authenticate-Untouched env sta p.transport p.packet b,
    )
