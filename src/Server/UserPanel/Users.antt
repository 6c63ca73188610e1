-- ===== src/Server/UserPanel/Users.antt =====
-- internal/server/userpanel.go and activeuser.go: who is active, and which sessions a user has. A
-- session is made by internal/multiplex, and is known here by its id.
use cloak.Prelude.{
  ℕ, ◌+◌, ◌%◌, ◌^◌, Bytes, Bool, true, false, length, to_array, List, [], ◌∷◌, ◌++◌, none, some,
  if◌then◌else◌, ◌==◌, ◌||◌,
}
use cloak.Server.Auth.{same_bytes}
use cloak.Server.UserManager.{UserError, Outcome, ok, refused, panics}
use cloak.Server.UserPanel.{ActiveUser, UserPanel, update_usage_queue_for_one, find_user}

-- The two questions that the panel asks a user manager; the rates are for the valve.
pub record UserManager : Type 0 where
  pub authenticate_user : Bytes → Outcome (ℕ × ℕ)
  pub authorise_new_session : Bytes → ℕ → Outcome (Unit {0})

abbrev pub new_user : Bytes → Bool → ActiveUser
new_user uid bypass = record { arr_uid = uid; bypass = bypass; rx = 0; tx = 0; sessions = [] }

abbrev pub with_user : UserPanel → ActiveUser → UserPanel
with_user panel user = record panel { active_users = user ∷ panel.active_users }

unfoldable pub get_bypass_user : UserPanel → Bytes → UserPanel
get_bypass_user panel uid =
    let arr_uid = to_array 16 uid in
    elim (find_user arr_uid panel.active_users) [
      | some user ↦ panel
      | none ↦ with_user panel (new_user arr_uid true)
    ]

-- `ok` hands out the user of that UID.
unfoldable pub get_user : UserManager → UserPanel → Bytes → Outcome (Unit {0}) × UserPanel
get_user manager panel uid =
    let arr_uid = to_array 16 uid in
    elim (find_user arr_uid panel.active_users) [
      | some user ↦ (ok tt, panel)
      | none ↦ elim (manager.authenticate_user uid) [
        | ok rates ↦ (ok tt, with_user panel (new_user arr_uid false))
        | refused e ↦ (refused e, panel)
        | panics ↦ (panics, panel)
      ]
    ]

-- Every user of the UID, changed; there is one at most.
unfoldable pub map_user : (ActiveUser → ActiveUser) → Bytes → List ActiveUser → List ActiveUser
map_user f uid [] = []
map_user f uid (user ∷ users) =
    (if same_bytes user.arr_uid uid then f user else user) ∷ map_user f uid users

unfoldable pub delete_user : Bytes → List ActiveUser → List ActiveUser
delete_user uid [] = []
delete_user uid (user ∷ users) =
    let rest = delete_user uid users in if same_bytes user.arr_uid uid then rest else user ∷ rest

unfoldable pub has_session : ℕ → List ℕ → Bool
has_session id [] = false
has_session id (s ∷ sessions) = s == id || has_session id sessions

unfoldable pub remove_session : ℕ → List ℕ → List ℕ
remove_session id [] = []
remove_session id (s ∷ sessions) =
    let rest = remove_session id sessions in if s == id then rest else s ∷ rest

abbrev pub with_sessions : List ℕ → ActiveUser → ActiveUser
with_sessions sessions user = record user { sessions = sessions }

abbrev tagged : Bytes → List ℕ → List (Bytes × ℕ)
tagged uid [] = []
tagged uid (s ∷ sessions) = (uid, s) ∷ tagged uid sessions

-- `TerminateActiveUser` of an object with the state that it has: its valve is emptied into the queue,
-- `closeAllSessions` closes its sessions, and whatever stands under its UID leaves the map. What its
-- valve counts from then on, as the notices that close the sessions, is part of the state that a late
-- CloseSession finds (`close_session_late`).
unfoldable pub terminate_active_user : UserPanel → ActiveUser → UserPanel
unfolding update_usage_queue_for_one delete_user
terminate_active_user panel user =
    let (user', queue) = update_usage_queue_for_one user panel.usage_update_queue in
    record {
      active_users = delete_user user.arr_uid panel.active_users;
      usage_update_queue = queue;
      closed_sessions = panel.closed_sessions ++ tagged user.arr_uid user.sessions;
    }

-- `TerminateActiveUser` of the user that is found under a UID.
unfoldable pub terminate : UserPanel → Bytes → UserPanel
terminate panel uid = elim (find_user uid panel.active_users) [
  | none ↦ panel
  | some user ↦ terminate_active_user panel user
]

pub data SessionResult : Type 0 where
  existing made : SessionResult
  unauthorised : UserError → SessionResult
  panicked no_user : SessionResult

abbrev pub add_session : UserPanel → Bytes → ActiveUser → ℕ → UserPanel
add_session panel uid user id = record panel {
  active_users = map_user (with_sessions (id ∷ user.sessions)) uid panel.active_users;
}

-- `GetSession` of the active user with a UID; `no_user` has no counterpart in the code.
unfoldable pub get_session : UserManager → UserPanel → Bytes → ℕ → SessionResult × UserPanel
unfolding has_session map_user
get_session manager panel uid id = elim (find_user uid panel.active_users) [
  | none ↦ (no_user, panel)
  | some user ↦
      if has_session id user.sessions
      then (existing, panel)
      else if user.bypass
      then (made, add_session panel uid user id)
      else elim (manager.authorise_new_session uid (length user.sessions)) [
        | ok _ ↦ (made, add_session panel uid user id)
        | refused e ↦ (unauthorised e, panel)
        | panics ↦ (panicked, panel)
      ]
]

-- `CloseSession` of an object that has left the map, with the state that it has by then.
unfoldable pub close_session_late : UserPanel → ActiveUser → ℕ → UserPanel
unfolding has_session remove_session terminate_active_user
close_session_late panel user id =
    let user' = with_sessions (remove_session id user.sessions) user in
    let closed = if has_session id user.sessions then (user.arr_uid, id) ∷ [] else [] in
    let panel' = record panel { closed_sessions = panel.closed_sessions ++ closed } in
    if length user'.sessions == 0 then terminate_active_user panel' user' else panel'

-- `CloseSession` of the object that stands in the map under a UID: without a session left the user is
-- terminated. What the closing notice adds to the valve before that is an `add_traffic` before it.
unfoldable pub close_session : UserPanel → Bytes → ℕ → UserPanel
unfolding has_session remove_session map_user
close_session panel uid id = elim (find_user uid panel.active_users) [
  | none ↦ panel
  | some user ↦
      let user' = with_sessions (remove_session id user.sessions) user in
      let closed = if has_session id user.sessions then (uid, id) ∷ [] else [] in
      let panel' = record panel {
        active_users = map_user (with_sessions user'.sessions) uid panel.active_users;
        closed_sessions = panel.closed_sessions ++ closed;
      } in
      if length user'.sessions == 0 then terminate_active_user panel' user' else panel'
]

-- `AddRx` and `AddTx` on the valve of a user, which do nothing on that of a bypass user.
abbrev pub add_to_valve : ℕ → ℕ → ActiveUser → ActiveUser
add_to_valve rx tx user =
    if user.bypass
    then user
    else record user { rx = (user.rx + rx) % 2 ^ 64; tx = (user.tx + tx) % 2 ^ 64 }

unfoldable pub add_traffic : UserPanel → Bytes → ℕ → ℕ → UserPanel
unfolding map_user
add_traffic panel uid rx tx = record panel {
  active_users = map_user (add_to_valve rx tx) uid panel.active_users;
}
