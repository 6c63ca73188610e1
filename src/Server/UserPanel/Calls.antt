-- ===== src/Server/UserPanel/Calls.antt =====
-- internal/server/userpanel.go and activeuser.go: sequences of calls, and that no UID is active twice.
use cloak.Prelude.{ℕ, ◌≡◌, refl, Bytes, List, [], ◌∷◌, none, some, arith, Option-cases, inl, inr}
use cloak.Server.Auth.Replay.{same_bytes_eq}
use cloak.Server.UserPanel.{
  ActiveUser, UsagePair, UserPanel, Queue, add_usage, nullify, update_usage_queue_for_one,
  update_all, update_usage_queue, find_user,
}
use cloak.Server.UserPanel.Users.{
  UserManager, get_bypass_user, get_user, map_user, delete_user, with_sessions, remove_session,
  terminate_active_user, terminate, get_session, close_session, close_session_late, add_traffic,
  add_to_valve,
}

-- A call of the panel, or of the object that stands in its map under a UID; `closes_late` is a
-- CloseSession of an object that has left the map.
pub data Call : Type 0 where
  gets gets_bypass terminates : Bytes → Call
  opens closes : Bytes → ℕ → Call
  transfers : Bytes → ℕ → ℕ → Call
  closes_late : ActiveUser → ℕ → Call
  updates : Call

unfoldable pub step : UserManager → UserPanel → Call → UserPanel
step manager panel (gets uid) = (get_user manager panel uid).1
step manager panel (gets_bypass uid) = get_bypass_user panel uid
step manager panel (terminates uid) = terminate panel uid
step manager panel (opens uid id) = (get_session manager panel uid id).1
step manager panel (closes uid id) = close_session panel uid id
step manager panel (transfers uid rx tx) = add_traffic panel uid rx tx
step manager panel (closes_late user id) = close_session_late panel user id
step manager panel updates = update_usage_queue panel

-- Each call meets the user manager as it is then.
unfoldable pub run : UserPanel → List (UserManager × Call) → UserPanel
run panel [] = panel
run panel ((manager, c) ∷ calls) = run (step manager panel c) calls

abbrev pub Distinct : List ActiveUser → Type 0
Distinct [] = Unit {0}
Distinct (user ∷ users) = (find_user user.arr_uid users ≡ none) × Distinct users

-- A change of users that leaves their UIDs.
abbrev pub KeepsUid : (ActiveUser → ActiveUser) → Type 0
KeepsUid f = (user : ActiveUser) → (f user).arr_uid ≡ user.arr_uid

pub find_user-map_user-none :
    (f : ActiveUser → ActiveUser) (uid w : Bytes) (users : List ActiveUser)
    → KeepsUid f
    → find_user w users ≡ none
    → find_user w (map_user f uid users) ≡ none
unfolding find_user map_user
find_user-map_user-none f uid w [] keeps h = refl
find_user-map_user-none f uid w (user ∷ users) keeps h =
    ground (arith, keeps user, find_user-map_user-none f uid w users keeps)

pub map_user_absent :
    (f : ActiveUser → ActiveUser) (uid : Bytes) (users : List ActiveUser)
    → find_user uid users ≡ none
    → map_user f uid users ≡ users
unfolding find_user map_user
map_user_absent f uid [] h = refl
map_user_absent f uid (user ∷ users) h = ground (arith, map_user_absent f uid users)

pub map_user-Distinct :
    (f : ActiveUser → ActiveUser) (uid : Bytes) (users : List ActiveUser)
    → KeepsUid f
    → Distinct users
    → Distinct (map_user f uid users)
unfolding map_user
map_user-Distinct f uid [] keeps d = tt
map_user-Distinct f uid (user ∷ users) keeps (fresh, d) = (
  ground (arith, keeps user, find_user-map_user-none f uid user.arr_uid users keeps fresh),
  map_user-Distinct f uid users keeps d,
)

pub find_user-delete_user-none :
    (uid w : Bytes) (users : List ActiveUser)
    → find_user w users ≡ none
    → find_user w (delete_user uid users) ≡ none
unfolding find_user delete_user
find_user-delete_user-none uid w [] h = refl
find_user-delete_user-none uid w (user ∷ users) h =
    ground (arith, find_user-delete_user-none uid w users)

pub delete_user-Distinct :
    (uid : Bytes) (users : List ActiveUser) → Distinct users → Distinct (delete_user uid users)
unfolding delete_user
delete_user-Distinct uid [] d = tt
delete_user-Distinct uid (user ∷ users) (fresh, d) =
    ground
      (arith, find_user-delete_user-none uid user.arr_uid users, delete_user-Distinct uid users d)

-- A user who is not found keeps not being found while the valves are emptied.
pub find_user-update_all-none :
    (w : Bytes) (users : List ActiveUser) (queue : Queue)
    → find_user w users ≡ none
    → find_user w (update_all users queue).0 ≡ none
unfolding find_user update_all update_usage_queue_for_one nullify
find_user-update_all-none w [] queue h = refl
find_user-update_all-none w (user ∷ users) queue h =
    let p : UsagePair = record { up = user.rx; down = user.tx } in
    ground (
      arith,
      find_user-update_all-none w users queue,
      find_user-update_all-none w users (add_usage user.arr_uid p queue),
    )

update_all-Distinct :
    (users : List ActiveUser) (queue : Queue) → Distinct users → Distinct (update_all users queue).0
unfolding update_all update_usage_queue_for_one nullify
update_all-Distinct [] queue d = tt
update_all-Distinct (user ∷ users) queue (fresh, d) =
    let p : UsagePair = record { up = user.rx; down = user.tx } in
    ground (
      arith,
      find_user-update_all-none user.arr_uid users queue,
      find_user-update_all-none user.arr_uid users (add_usage user.arr_uid p queue),
      update_all-Distinct users queue d,
      update_all-Distinct users (add_usage user.arr_uid p queue) d,
    )

pub find_user-arr_uid :
    (uid : Bytes) (users : List ActiveUser) (user : ActiveUser)
    → find_user uid users ≡ some user
    → user.arr_uid ≡ uid
unfolding find_user
find_user-arr_uid uid [] user h = cc
find_user-arr_uid uid (u ∷ users) user h =
    ground (arith, same_bytes_eq u.arr_uid uid, find_user-arr_uid uid users user)

get_user-Distinct :
    (manager : UserManager) (panel : UserPanel) (uid : Bytes)
    → Distinct panel.active_users
    → Distinct (get_user manager panel uid).1.active_users
unfolding get_user
get_user-Distinct manager panel uid d = ground arith

get_bypass_user-Distinct :
    (panel : UserPanel) (uid : Bytes)
    → Distinct panel.active_users
    → Distinct (get_bypass_user panel uid).active_users
unfolding get_bypass_user
get_bypass_user-Distinct panel uid d = ground arith

get_session-Distinct :
    (manager : UserManager) (panel : UserPanel) (uid : Bytes) (id : ℕ)
    → Distinct panel.active_users
    → Distinct (get_session manager panel uid id).1.active_users
unfolding get_session
get_session-Distinct manager panel uid id d =
    elim (Option-cases (find_user uid panel.active_users)) [
      | inl absent ↦ ground (arith, absent)
      | inr (user, found) ↦ ground (
        arith,
        found,
        map_user-Distinct (with_sessions (id ∷ user.sessions)) uid panel.active_users (λ u. refl) d,
      )
    ]

close_session-Distinct :
    (panel : UserPanel) (uid : Bytes) (id : ℕ)
    → Distinct panel.active_users
    → Distinct (close_session panel uid id).active_users
unfolding close_session terminate_active_user
close_session-Distinct panel uid id d = elim (Option-cases (find_user uid panel.active_users)) [
  | inl absent ↦ ground (arith, absent)
  | inr (user, found) ↦
      let rest = remove_session id user.sessions in
      let mapped = map_user-Distinct (with_sessions rest) uid panel.active_users (λ u. refl) d in
      ground (
        arith,
        found,
        delete_user-Distinct user.arr_uid (map_user (with_sessions rest) uid panel.active_users)
            mapped,
      )
]

close_session_late-Distinct :
    (panel : UserPanel) (user : ActiveUser) (id : ℕ)
    → Distinct panel.active_users
    → Distinct (close_session_late panel user id).active_users
unfolding close_session_late terminate_active_user
close_session_late-Distinct panel user id d =
    ground (arith, delete_user-Distinct user.arr_uid panel.active_users d)

terminate-Distinct :
    (panel : UserPanel) (uid : Bytes)
    → Distinct panel.active_users
    → Distinct (terminate panel uid).active_users
unfolding terminate terminate_active_user
terminate-Distinct panel uid d = elim (Option-cases (find_user uid panel.active_users)) [
  | inl absent ↦ ground (arith, absent)
  | inr (user, found) ↦
      ground (arith, found, delete_user-Distinct user.arr_uid panel.active_users d)
]

pub add_to_valve_uid :
    (rx tx : ℕ) (user : ActiveUser) → (add_to_valve rx tx user).arr_uid ≡ user.arr_uid
add_to_valve_uid rx tx user = ground arith

-- No call makes a UID active twice.
pub step-Distinct :
    (manager : UserManager) (panel : UserPanel) (c : Call)
    → Distinct panel.active_users
    → Distinct (step manager panel c).active_users
unfolding step add_traffic update_usage_queue
step-Distinct manager panel (gets uid) d = get_user-Distinct manager panel uid d
step-Distinct manager panel (gets_bypass uid) d = get_bypass_user-Distinct panel uid d
step-Distinct manager panel (terminates uid) d = terminate-Distinct panel uid d
step-Distinct manager panel (opens uid id) d = get_session-Distinct manager panel uid id d
step-Distinct manager panel (closes uid id) d = close_session-Distinct panel uid id d
step-Distinct manager panel (transfers uid rx tx) d =
    map_user-Distinct (add_to_valve rx tx) uid panel.active_users (add_to_valve_uid rx tx) d
step-Distinct manager panel (closes_late user id) d = close_session_late-Distinct panel user id d
step-Distinct manager panel updates d =
    update_all-Distinct panel.active_users panel.usage_update_queue d
