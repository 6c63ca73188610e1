-- ===== src/Tests/Rounds.antt =====
-- internal/server/userpanel.go: rounds of the upload at work.
use cloak.Prelude.{◌≡◌, refl, Bytes, false, [], ◌∷◌, replicate}
use cloak.Server.UserManager.{manager_is_void, upload_status}
use cloak.Server.UserManager.Usage.{Complete}
use cloak.Server.UserPanel.{UserPanel, update_usage_queue, commit_update, find_user}
use cloak.Server.UserPanel.Valves.{up_held, down_held}
use cloak.Server.UserPanel.Round.{committed, failed, queue_upload_round, void_upload}
use cloak.Server.UserPanel.Round.Enforced.{Enforced, queue_upload_round-Enforced}
use cloak.Server.UserPanel.Round.Failure.{queue_upload_round-loses}
use cloak.Tests.Users.{Table, table, everybody, everybody-Complete}

abbrev spender : Bytes
spender = replicate 16 1

abbrev saver : Bytes
saver = replicate 16 2

-- Everybody has a hundred of everything: one user has used more, one has not.
abbrev two_users : UserPanel
two_users = record {
  active_users =
      record { arr_uid = spender; bypass = false; rx = 130; tx = 50; sessions = 4 ∷ [] }
      ∷ record { arr_uid = saver; bypass = false; rx = 1; tx = 2; sessions = 5 ∷ [] }
      ∷ [];
  usage_update_queue = (spender, record { up = 5; down = 6 }) ∷ [];
  closed_sessions = [];
}

queue_upload_round-Enforced_example :
    (after : UserPanel) × (d : Table) × (queue_upload_round
        (upload_status table)
        everybody
        two_users
        90
      ≡ committed after d)
    × Complete table d
    × Enforced table everybody two_users 90 after d
queue_upload_round-Enforced_example =
    queue_upload_round-Enforced table everybody two_users 90 everybody-Complete (refl, (refl, tt))
      (refl, refl, tt)

queue_upload_round-loses_example :
    (after : UserPanel) × (queue_upload_round void_upload tt two_users 90
      ≡ failed manager_is_void after)
    × (up_held spender after ≡ 0)
    × (down_held spender after ≡ 0)
unfolding commit_update update_usage_queue find_user
queue_upload_round-loses_example =
    queue_upload_round-loses void_upload tt two_users 90 manager_is_void spender (λ e. cc) refl refl
