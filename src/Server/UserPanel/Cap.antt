-- ===== src/Server/UserPanel/Cap.antt =====
-- internal/server/activeuser.go: the cap on the sessions of a user.
use cloak.Prelude.{
  ℕ, ◌≡◌, ◌<◌, ◌≤◌, Bytes, Bool, true, length, List, [], ◌∷◌, some, ◌||◌, leb, arith, Option-cases,
  inl, inr,
}
use cloak.Server.Auth.Replay.{same_bytes_eq}
use cloak.Server.UserManager.{ok}
use cloak.Server.UserPanel.{
  ActiveUser, UsagePair, UserPanel, Queue, add_usage, nullify, update_usage_queue_for_one,
  update_all, update_usage_queue, find_user,
}
use cloak.Server.UserPanel.Users.{
  UserManager, get_bypass_user, get_user, map_user, delete_user, with_sessions, remove_session,
  terminate_active_user, terminate, get_session, close_session, close_session_late, add_traffic,
  add_to_valve,
}
use cloak.Server.UserPanel.Calls.{
  Call, gets, gets_bypass, terminates, opens, closes, transfers, closes_late, updates, step, run,
  Distinct, map_user_absent, find_user-arr_uid, step-Distinct,
}

-- What `AuthoriseNewSession` promises: a session is granted to a user who has fewer than the cap.
pub record Capped (manager : UserManager) (cap : Bytes → ℕ) : Type 0 where
  pub granted_below :
      (uid : Bytes) (n : ℕ) → manager.authorise_new_session uid n ≡ ok tt → n < cap uid

abbrev pub within_cap : (Bytes → ℕ) → ActiveUser → Bool
within_cap cap user = user.bypass || leb (length user.sessions) (cap user.arr_uid)

abbrev pub AllWithin : (Bytes → ℕ) → List ActiveUser → Type 0
AllWithin cap [] = Unit {0}
AllWithin cap (user ∷ users) = (within_cap cap user ≡ true) × AllWithin cap users

-- The user found is within the cap.
find_user-AllWithin :
    (cap : Bytes → ℕ) (uid : Bytes) (users : List ActiveUser) (user : ActiveUser)
    → AllWithin cap users
    → find_user uid users ≡ some user
    → within_cap cap user ≡ true
unfolding find_user
find_user-AllWithin cap uid [] user w h = cc
find_user-AllWithin cap uid (u ∷ users) user (one, w) h =
    ground (arith, find_user-AllWithin cap uid users user w)

-- A change of the user found, who stays within the cap.
map_user-AllWithin :
    (cap : Bytes → ℕ) (f : ActiveUser → ActiveUser) (uid : Bytes) (users : List ActiveUser)
    (user : ActiveUser)
    → AllWithin cap users
    → Distinct users
    → find_user uid users ≡ some user
    → within_cap cap (f user) ≡ true
    → AllWithin cap (map_user f uid users)
unfolding find_user map_user
map_user-AllWithin cap f uid [] user w d h stays = tt
map_user-AllWithin cap f uid (u ∷ users) user (one, w) (fresh, d) h stays = ground (
  arith,
  same_bytes_eq u.arr_uid uid,
  map_user_absent f uid users,
  map_user-AllWithin cap f uid users user w d,
)

delete_user-AllWithin :
    (cap : Bytes → ℕ) (uid : Bytes) (users : List ActiveUser)
    → AllWithin cap users
    → AllWithin cap (delete_user uid users)
unfolding delete_user
delete_user-AllWithin cap uid [] w = tt
delete_user-AllWithin cap uid (u ∷ users) (one, w) =
    ground (arith, delete_user-AllWithin cap uid users w)

update_all-AllWithin :
    (cap : Bytes → ℕ) (users : List ActiveUser) (queue : Queue)
    → AllWithin cap users
    → AllWithin cap (update_all users queue).0
unfolding update_all update_usage_queue_for_one nullify
update_all-AllWithin cap [] queue w = tt
update_all-AllWithin cap (user ∷ users) queue (one, w) =
    let p : UsagePair = record { up = user.rx; down = user.tx } in
    ground (
      arith,
      update_all-AllWithin cap users queue w,
      update_all-AllWithin cap users (add_usage user.arr_uid p queue) w,
    )

length-remove_session : (id : ℕ) (s : List ℕ) → length (remove_session id s) ≤ length s
unfolding remove_session
length-remove_session id [] = omega arith
length-remove_session id (x ∷ s) = ground (arith, length-remove_session id s)

get_session-AllWithin :
    (manager : UserManager) (cap : Bytes → ℕ) (panel : UserPanel) (uid : Bytes) (id : ℕ)
    → Capped manager cap
    → Distinct panel.active_users
    → AllWithin cap panel.active_users
    → AllWithin cap (get_session manager panel uid id).1.active_users
unfolding get_session
get_session-AllWithin manager cap panel uid id capped d w =
    elim (Option-cases (find_user uid panel.active_users)) [
      | inl absent ↦ ground (arith, absent)
      | inr (user, found) ↦ ground (
        arith,
        found,
        find_user-arr_uid uid panel.active_users user found,
        capped.granted_below uid (length user.sessions),
        map_user-AllWithin cap (with_sessions (id ∷ user.sessions)) uid panel.active_users user w d
            found,
      )
    ]

close_session-AllWithin :
    (cap : Bytes → ℕ) (panel : UserPanel) (uid : Bytes) (id : ℕ)
    → Distinct panel.active_users
    → AllWithin cap panel.active_users
    → AllWithin cap (close_session panel uid id).active_users
unfolding close_session terminate_active_user
close_session-AllWithin cap panel uid id d w =
    elim (Option-cases (find_user uid panel.active_users)) [
      | inl absent ↦ ground (arith, absent)
      | inr (user, found) ↦
          let left = remove_session id user.sessions in
          let mapped =
            map_user-AllWithin cap (with_sessions left) uid panel.active_users user w d found (
              ground (
                arith,
                length-remove_session id user.sessions,
                find_user-AllWithin cap uid panel.active_users user w found,
              )) in
          ground (
            arith,
            found,
            delete_user-AllWithin cap user.arr_uid
                (map_user (with_sessions left) uid panel.active_users) mapped,
          )
    ]

close_session_late-AllWithin :
    (cap : Bytes → ℕ) (panel : UserPanel) (user : ActiveUser) (id : ℕ)
    → AllWithin cap panel.active_users
    → AllWithin cap (close_session_late panel user id).active_users
unfolding close_session_late terminate_active_user
close_session_late-AllWithin cap panel user id w =
    ground (arith, delete_user-AllWithin cap user.arr_uid panel.active_users w)

transfers-AllWithin :
    (cap : Bytes → ℕ) (users : List ActiveUser) (uid : Bytes) (rx tx : ℕ)
    → AllWithin cap users
    → AllWithin cap (map_user (add_to_valve rx tx) uid users)
unfolding map_user
transfers-AllWithin cap [] uid rx tx w = tt
transfers-AllWithin cap (u ∷ users) uid rx tx (one, w) =
    (ground arith, transfers-AllWithin cap users uid rx tx w)

step-AllWithin :
    (manager : UserManager) (cap : Bytes → ℕ) (panel : UserPanel) (c : Call)
    → Capped manager cap
    → Distinct panel.active_users
    → AllWithin cap panel.active_users
    → AllWithin cap (step manager panel c).active_users
unfolding step add_traffic update_usage_queue get_user get_bypass_user terminate
    terminate_active_user
step-AllWithin manager cap panel (gets uid) capped d w = ground arith
step-AllWithin manager cap panel (gets_bypass uid) capped d w = ground arith
step-AllWithin manager cap panel (terminates uid) capped d w =
    elim (Option-cases (find_user uid panel.active_users)) [
      | inl absent ↦ ground (arith, absent)
      | inr (user, found) ↦
          ground (arith, found, delete_user-AllWithin cap user.arr_uid panel.active_users w)
    ]
step-AllWithin manager cap panel (opens uid id) capped d w =
    get_session-AllWithin manager cap panel uid id capped d w
step-AllWithin manager cap panel (closes uid id) capped d w =
    close_session-AllWithin cap panel uid id d w
step-AllWithin manager cap panel (transfers uid rx tx) capped d w =
    transfers-AllWithin cap panel.active_users uid rx tx w
step-AllWithin manager cap panel (closes_late user id) capped d w =
    close_session_late-AllWithin cap panel user id w
step-AllWithin manager cap panel updates capped d w =
    update_all-AllWithin cap panel.active_users panel.usage_update_queue w

abbrev pub AllCapped : (Bytes → ℕ) → List (UserManager × Call) → Type 0
AllCapped cap [] = Unit {0}
AllCapped cap ((manager, c) ∷ calls) = Capped manager cap × AllCapped cap calls

-- While the user manager grants a session only below the cap, no sequence of calls leaves a user in
-- the map of active users with more sessions than the cap, except a bypass user, or makes a UID active
-- twice. Sessions of objects that have left the map are not counted. At the start no UID is active
-- twice, and all are within the cap.
pub run-AllWithin :
    (cap : Bytes → ℕ) (panel : UserPanel) (calls : List (UserManager × Call))
    → AllCapped cap calls
    → Distinct panel.active_users
    → AllWithin cap panel.active_users
    → AllWithin cap (run panel calls).active_users × Distinct (run panel calls).active_users
unfolding run
run-AllWithin cap panel [] all d w = (w, d)
run-AllWithin cap panel ((manager, c) ∷ calls) (capped, all) d w =
    run-AllWithin cap (step manager panel c) calls all (step-Distinct manager panel c d)
      (step-AllWithin manager cap panel c capped d w)
