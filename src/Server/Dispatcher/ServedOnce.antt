-- ===== src/Server/Dispatcher/ServedOnce.antt =====
-- internal/server/dispatcher.go: the streams of a session are accepted by one connection's goroutine.
use cloak.Prelude.{
  ℕ, ◌≡◌, ◌≢◌, ◌⊎◌, ap, ◌∙◌, Bytes, Bool, true, false, to_array, Option, none, arith,
}
use cloak.Server.Auth.{ClientInfo, ok, auth_fragments}
use cloak.Server.UserPanel.{UserPanel}
use cloak.Server.UserPanel.Users.{
  UserManager, get_user, get_bypass_user, SessionResult, existing, made, unauthorised, panicked,
  no_user, get_session,
}
use cloak.Server.FirstPacket.{Transport, first_packet_size, read_first_packet}
use cloak.Server.Dispatcher.{
  State, Env, Fate, handshake_failed, joined, serving, process_first_packet, go_web, after_session,
  find_active, admit_user, is_admin, admit, authenticate, dispatch_connection,
}
use cloak.Server.UserPanel.{find_user}
use cloak.Server.Dispatcher.Admission.{identity, is_open, go_web-served, get_session-is_open}

is_open-find_user :
    (panel : UserPanel) (uid : Bytes) (id : ℕ)
    → is_open panel uid id ≡ true
    → find_user uid panel.active_users ≢ none
is_open-find_user panel uid id h = λ e. ground arith

find_active_open :
    (env : Env) (sta : State) (info : ClientInfo)
    → is_open sta.panel (to_array 16 info.uid) info.session_id ≡ true
    → (find_active env sta info).1 ≡ sta.panel
unfolding get_user get_bypass_user
find_active_open env sta info h =
    ground (arith, is_open-find_user sta.panel (to_array 16 info.uid) info.session_id h)

get_session_open :
    (manager : UserManager) (panel : UserPanel) (uid : Bytes) (id : ℕ)
    → is_open panel uid id ≡ true
    → (get_session manager panel uid id).0 ≡ existing
unfolding get_session
get_session_open manager panel uid id h = ground arith

after_session-serving :
    (env : Env) (sta : State) (info i : ClientInfo) (r : SessionResult × UserPanel)
    → r.0 ≡ existing
    → (after_session env sta info r).0 ≢ serving i
after_session-serving env sta info i (existing, panel) h = ground arith
after_session-serving env sta info i (made, panel) h = cc
after_session-serving env sta info i (unauthorised e, panel) h = cc
after_session-serving env sta info i (panicked, panel) h = cc
after_session-serving env sta info i (no_user, panel) h = cc

admit_user-serving :
    (env : Env) (sta : State) (info i : ClientInfo) (packet : Bytes)
    → is_open sta.panel (to_array 16 info.uid) info.session_id ≡ true
    → (admit_user env sta info packet).0 ≢ serving i
unfolding admit_user
admit_user-serving env sta info i packet h =
    let found = find_active env sta info in
    let sta' = record sta { panel = found.1 } in
    let session = get_session env.manager found.1 (to_array 16 info.uid) info.session_id in
    ground (
      arith,
      find_active_open env sta info h,
      get_session_open env.manager found.1 (to_array 16 info.uid) info.session_id,
      after_session-serving env sta' info i session,
      go_web-served env packet i,
    )

admit-serving :
    (env : Env) (sta : State) (info i : ClientInfo) (packet : Bytes)
    → is_open sta.panel (to_array 16 info.uid) info.session_id ≡ true
    → (admit env sta info packet).0 ≢ serving i
unfolding admit
admit-serving env sta info i packet h =
    ground (arith, admit_user-serving env sta info i packet h, go_web-served env packet i)

authenticate-serving :
    (env : Env) (sta : State) (transport : Option Transport) (packet : Bytes) (info i : ClientInfo)
    → (auth_fragments env.aes sta.used_random
        (process_first_packet env transport packet sta.static_pv)
        env.server_time).0
      ≡ ok info
    → is_open sta.panel (to_array 16 info.uid) info.session_id ≡ true
    → (authenticate env sta transport packet).0 ≢ serving i
unfolding authenticate
authenticate-serving env sta transport packet info i eq h =
    let processed = process_first_packet env transport packet sta.static_pv in
    let r = auth_fragments env.aes sta.used_random processed env.server_time in
    let sta' = record sta { used_random = r.1 } in
    ground (arith, admit-serving env sta' info i packet h)

open_not_served :
    (env : Env) (sta : State) (stream : Bytes) (info i : ClientInfo)
    → identity env sta stream ≡ ok info
    → is_open sta.panel (to_array 16 info.uid) info.session_id ≡ true
    → (dispatch_connection env sta stream).fate ≢ serving i
unfolding dispatch_connection
open_not_served env sta stream info i eq h =
    let p = read_first_packet first_packet_size stream in
    ground (
      arith,
      authenticate-serving env sta p.transport p.packet info i eq h,
      go_web-served env p.packet i,
    )

-- A fate with which the session that a client asks for is open.
abbrev pub has_opened : Fate → Bool
has_opened (joined i) = true
has_opened (serving i) = true
has_opened handshake_failed = true
has_opened _ = false

after_session-has_opened :
    (env : Env) (sta : State) (info : ClientInfo) (r : SessionResult × UserPanel)
    → has_opened (after_session env sta info r).0 ≡ true
    → ((r.0 ≡ existing) ⊎ (r.0 ≡ made)) × ((after_session env sta info r).1.panel ≡ r.1)
after_session-has_opened env sta info (existing, panel) h = ground arith
after_session-has_opened env sta info (made, panel) h = ground arith
after_session-has_opened env sta info (unauthorised e, panel) h = ground arith
after_session-has_opened env sta info (panicked, panel) h = ground arith
after_session-has_opened env sta info (no_user, panel) h = ground arith

go_web-has_opened : (env : Env) (packet : Bytes) → has_opened (go_web env packet) ≡ false
unfolding go_web
go_web-has_opened env packet = ground arith

admit_user-has_opened :
    (env : Env) (sta : State) (info : ClientInfo) (packet : Bytes)
    → has_opened (admit_user env sta info packet).0 ≡ true
    → is_open (admit_user env sta info packet).1.panel (to_array 16 info.uid) info.session_id ≡ true
unfolding admit_user
admit_user-has_opened env sta info packet h =
    let found = find_active env sta info in
    let sta' = record sta { panel = found.1 } in
    let session = get_session env.manager found.1 (to_array 16 info.uid) info.session_id in
    ground (
      arith,
      after_session-has_opened env sta' info session,
      get_session-is_open env.manager found.1 (to_array 16 info.uid) info.session_id,
      go_web-has_opened env packet,
    )

admit-has_opened :
    (env : Env) (sta : State) (info : ClientInfo) (packet : Bytes)
    → is_admin sta info ≡ false
    → has_opened (admit env sta info packet).0 ≡ true
    → is_open (admit env sta info packet).1.panel (to_array 16 info.uid) info.session_id ≡ true
unfolding admit
admit-has_opened env sta info packet user h =
    ground (arith, admit_user-has_opened env sta info packet, go_web-has_opened env packet)

authenticate-has_opened :
    (env : Env) (sta : State) (transport : Option Transport) (packet : Bytes) (info : ClientInfo)
    → (auth_fragments env.aes sta.used_random
        (process_first_packet env transport packet sta.static_pv)
        env.server_time).0
      ≡ ok info
    → is_admin sta info ≡ false
    → has_opened (authenticate env sta transport packet).0 ≡ true
    → is_open (authenticate env sta transport packet).1.panel (to_array 16 info.uid) info.session_id
      ≡ true
unfolding authenticate
authenticate-has_opened env sta transport packet info eq user h =
    let processed = process_first_packet env transport packet sta.static_pv in
    let r = auth_fragments env.aes sta.used_random processed env.server_time in
    let sta' = record sta { used_random = r.1 } in
    ground (arith, admit-has_opened env sta' info packet user)

opened_is_open :
    (env : Env) (sta : State) (stream : Bytes) (info : ClientInfo)
    → identity env sta stream ≡ ok info
    → is_admin sta info ≡ false
    → has_opened (dispatch_connection env sta stream).fate ≡ true
    → is_open
        (dispatch_connection env sta stream).state.panel
        (to_array 16 info.uid)
        info.session_id
      ≡ true
unfolding dispatch_connection
opened_is_open env sta stream info eq user h =
    let p = read_first_packet first_packet_size stream in
    ground (
      arith,
      authenticate-has_opened env sta p.transport p.packet info eq user,
      go_web-has_opened env p.packet,
    )

-- Once a connection of a user, not the administrator's, has opened or joined a session, no later
-- connection of that session starts to accept its streams, if nothing happens in between. That is
-- so too when the handshake of the first one failed, and it left without accepting any.
pub session_served_once :
    (env later : Env) (sta : State) (stream again : Bytes) (info next i : ClientInfo)
    → identity env sta stream ≡ ok info
    → is_admin sta info ≡ false
    → has_opened (dispatch_connection env sta stream).fate ≡ true
    → identity later (dispatch_connection env sta stream).state again ≡ ok next
    → next.uid ≡ info.uid
    → next.session_id ≡ info.session_id
    → (dispatch_connection later (dispatch_connection env sta stream).state again).fate ≢ serving i
session_served_once env later sta stream again info next i eq user h eq' same same' =
    let sta' = (dispatch_connection env sta stream).state in
    open_not_served later sta' again next i eq' (
      ap (λ u. is_open sta'.panel (to_array 16 u) next.session_id) same
      ∙ ap (λ k. is_open sta'.panel (to_array 16 info.uid) k) same'
      ∙ opened_is_open env sta stream info eq user h)
