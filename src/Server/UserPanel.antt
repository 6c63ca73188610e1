-- ===== src/Server/UserPanel.antt =====
-- internal/server/userpanel.go and activeuser.go, with the counters of internal/multiplex/qos.go: the
-- usage that users incur, from their valves over the queue to the user manager. A user stands under
-- its own UID in the map of active users. A session is known by its id.
pub mod Accounting
pub mod Users
pub mod Calls
pub mod Late
pub mod Cap
pub mod Ledger
pub mod Managers
pub mod Round
pub mod Valves
use cloak.Prelude.{
  ℕ, ◌+◌, ◌%◌, ◌^◌, Bytes, Bool, true, false, length, List, [], ◌∷◌, ◌++◌, Option, none, some,
  if◌then◌else◌, ◌==◌,
}
use cloak.Server.Auth.{same_bytes}
use cloak.Server.UserManager.{StatusUpdate}

-- `rx` and `tx` are the counters of the valve.
pub record ActiveUser : Type 0 where
  pub arr_uid : Bytes
  pub bypass : Bool
  pub rx : ℕ
  pub tx : ℕ
  pub sessions : List ℕ

pub record UsagePair : Type 0 where
  pub up : ℕ
  pub down : ℕ

abbrev pub Queue : Type 0
Queue = List (Bytes × UsagePair)

-- `closed_sessions` lists the sessions that were closed, by UID and id.
pub record UserPanel : Type 0 where
  pub active_users : List ActiveUser
  pub usage_update_queue : Queue
  pub closed_sessions : List (Bytes × ℕ)

-- `Nullify` leaves a valve whose counters are 0.
unfoldable pub nullify : ActiveUser → ActiveUser
nullify user = record user { rx = 0; tx = 0 }

-- The usage of a user, added to the entry of the queue or put there.
unfoldable pub add_usage : Bytes → UsagePair → Queue → Queue
add_usage uid incurred [] = (uid, incurred) ∷ []
add_usage uid incurred ((key, usage) ∷ queue) =
    let rest = add_usage uid incurred queue in
    if same_bytes key uid
    then (
      key,
      record {
        up = (usage.up + incurred.up) % 2 ^ 64;
        down = (usage.down + incurred.down) % 2 ^ 64;
      },
    )
      ∷ queue
    else (key, usage) ∷ rest

-- `updateUsageQueueForOne`: the queue after it; the valve is nullified unless the user is a bypass.
unfoldable pub update_usage_queue_for_one : ActiveUser → Queue → ActiveUser × Queue
unfolding nullify add_usage
update_usage_queue_for_one user queue =
    if user.bypass
    then (user, queue)
    else (nullify user, add_usage user.arr_uid (record { up = user.rx; down = user.tx }) queue)

unfoldable pub update_all : List ActiveUser → Queue → List ActiveUser × Queue
unfolding update_usage_queue_for_one
update_all [] queue = ([], queue)
update_all (user ∷ users) queue =
    let (user', queue') = update_usage_queue_for_one user queue in
    let (users', queue'') = update_all users queue' in (user' ∷ users', queue'')

unfoldable pub update_usage_queue : UserPanel → UserPanel
unfolding update_all
update_usage_queue panel =
    let (users, queue) = update_all panel.active_users panel.usage_update_queue in
    record panel { active_users = users; usage_update_queue = queue }

unfoldable pub find_user : Bytes → List ActiveUser → Option ActiveUser
find_user uid [] = none
find_user uid (user ∷ users) =
    if same_bytes user.arr_uid uid then some user else find_user uid users

-- The statuses that `commitUpdate` makes of the queue, at time `now`.
abbrev status_of : Bytes → UsagePair → ℕ → Bool → ℕ → StatusUpdate
status_of uid usage now active sessions = record {
  uid = uid;
  active = active;
  num_session = sessions;
  up_usage = usage.up;
  down_usage = usage.down;
  timestamp = now;
}

unfoldable pub statuses_of : List ActiveUser → Queue → ℕ → List StatusUpdate
unfolding find_user
statuses_of users [] now = []
statuses_of users ((key, usage) ∷ queue) now =
    let rest = statuses_of users queue now in
    elim (find_user key users) [
      | none ↦ status_of key usage now false 0 ∷ rest
      | some user ↦
          if user.bypass then rest else status_of key usage now true (length user.sessions) ∷ rest
    ]

-- `commitUpdate` up to the call of the manager: the statuses for it, and the panel.
unfoldable pub commit_update : UserPanel → ℕ → List StatusUpdate × UserPanel
unfolding statuses_of
commit_update panel now = (
  statuses_of panel.active_users panel.usage_update_queue now,
  record panel { usage_update_queue = [] },
)
