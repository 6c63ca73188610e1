-- ===== src/Tests/Panels.antt =====
-- internal/server/userpanel.go at work.
use cloak.Prelude.{
  ◌+◌, ◌%◌, ◌^◌, ◌≡◌, refl, true, false, List, [], ◌∷◌, none, some, copy_into, uint64, Bytes,
  replicate,
}
use cloak.Server.UserPanel.Users.{
  UserManager, get_user, get_session, made, close_session_late, new_user, with_sessions,
}
use cloak.Server.UserPanel.Late.{close_session_late-get_session}
use cloak.Server.UserManager.{authenticate_user, authorise_new_session}
use cloak.Server.UserPanel.Calls.{
  Call, gets, opens, closes, transfers, closes_late, updates, run, Distinct,
}
use cloak.Server.UserPanel.Cap.{AllWithin, run-AllWithin}
use cloak.Server.UserPanel.Managers.{local_manager, cap_in, local_manager-Capped}
use cloak.Tests.Users.{Table, table}
use cloak.Server.UserManager.Usage.{up_usage_of, down_usage_of}
use cloak.Server.UserPanel.{ActiveUser, UserPanel, update_usage_queue, find_user, commit_update}
use cloak.Server.UserPanel.Accounting.{
  up_in_valves, down_in_valves, up_queued, down_queued, commit_update-update_usage_queue,
}

-- A user with some traffic, of which some is queued, and a bypass user.
abbrev panel : UserPanel
panel = record {
  active_users =
      record { arr_uid = 1 ∷ []; bypass = false; rx = 30; tx = 50; sessions = 4 ∷ [] }
      ∷ record { arr_uid = 2 ∷ []; bypass = true; rx = 0; tx = 0; sessions = [] }
      ∷ [];
  usage_update_queue = (1 ∷ [], record { up = 5; down = 6 }) ∷ [];
  closed_sessions = [];
}

commit_update-update_usage_queue_example :
    let (statuses, after) = commit_update (update_usage_queue panel) 1000 in
    (up_usage_of (1 ∷ []) statuses % 2 ^ 64
      ≡ (up_in_valves (1 ∷ []) panel.active_users + up_queued (1 ∷ []) panel.usage_update_queue)
        % 2 ^ 64)
    × (down_usage_of (1 ∷ []) statuses % 2 ^ 64
        ≡ (down_in_valves (1 ∷ []) panel.active_users
            + down_queued (1 ∷ []) panel.usage_update_queue)
          % 2 ^ 64)
    × (up_in_valves (1 ∷ []) after.active_users ≡ 0)
    × (down_in_valves (1 ∷ []) after.active_users ≡ 0)
    × (after.usage_update_queue ≡ [])
unfolding find_user
commit_update-update_usage_queue_example = commit_update-update_usage_queue (1 ∷ []) panel 1000 refl

-- Every user may have two sessions at a time.
abbrev two_each : Table
two_each = ((λ w. true), λ w j. 0 ∷ 0 ∷ 0 ∷ 2 ∷ 0 ∷ 0 ∷ 0 ∷ 1 ∷ [])

abbrev manager : UserManager
manager = local_manager table two_each 1000

abbrev caller : Bytes
caller = replicate 16 1

-- A user comes, opens three sessions, of which the third is refused, and leaves.
abbrev calls : List (UserManager × Call)
calls =
    (manager, gets caller)
    ∷ (manager, opens caller 4)
    ∷ (manager, opens caller 5)
    ∷ (manager, opens caller 6)
    ∷ (manager, transfers caller 30 50)
    ∷ (manager, updates)
    ∷ (manager, transfers caller 1 2)
    ∷ (manager, closes caller 4)
    ∷ (manager, closes caller 5)
    ∷ []

abbrev nobody_yet : UserPanel
nobody_yet = record { active_users = []; usage_update_queue = []; closed_sessions = [] }

run-AllWithin_example :
    AllWithin (cap_in table two_each) (run nobody_yet calls).active_users
    × Distinct (run nobody_yet calls).active_users
run-AllWithin_example =
    let capped = local_manager-Capped table two_each 1000 in
    run-AllWithin (cap_in table two_each) nobody_yet calls
      (capped, (capped, (capped, (capped, (capped, (capped, (capped, (capped, (capped, tt)))))))))
      tt tt

-- The same, and then CloseSession on an object of the user that was terminated before, whose valve has
-- counted a notice.
abbrev late_user : ActiveUser
late_user = record { arr_uid = caller; bypass = false; rx = 0; tx = 40; sessions = [] }

abbrev late_calls : List (UserManager × Call)
late_calls =
    (manager, gets caller)
    ∷ (manager, transfers caller 30 50)
    ∷ (manager, closes_late late_user 4)
    ∷ []

-- A user who has come back with a session.
abbrev back_again : UserPanel
back_again = record {
  active_users =
      record { arr_uid = caller; bypass = false; rx = 1; tx = 2; sessions = 5 ∷ 6 ∷ [] } ∷ [];
  usage_update_queue = [];
  closed_sessions = [];
}

close_session_late-get_session_example :
    let after = close_session_late back_again late_user 4 in
    let back = (get_user manager after caller).1 in
    (find_user caller after.active_users ≡ none)
    × (after.closed_sessions ≡ [])
    × ((get_session manager back caller 7).0 ≡ made)
    × (find_user caller (get_session manager back caller 7).1.active_users
        ≡ some (with_sessions (7 ∷ []) (new_user caller false)))
unfolding find_user authenticate_user authorise_new_session copy_into uint64
close_session_late-get_session_example =
    close_session_late-get_session manager back_again
      (record { arr_uid = caller; bypass = false; rx = 1; tx = 2; sessions = 5 ∷ 6 ∷ [] }) late_user
      caller
      (uint64 (0 ∷ 0 ∷ 0 ∷ 2 ∷ 0 ∷ 0 ∷ 0 ∷ 1 ∷ []) 0, uint64 (0 ∷ 0 ∷ 0 ∷ 2 ∷ 0 ∷ 0 ∷ 0 ∷ 1 ∷ []) 0)
      4 7 refl refl refl refl refl refl
