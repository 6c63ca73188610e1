-- ===== src/Server/UserPanel/Valves.antt =====
-- internal/server/userpanel.go and internal/multiplex/qos.go: what the valves and the queue hold.
use cloak.Prelude.{
  ℕ, ◌+◌, ◌%◌, ◌^◌, ◌≡◌, refl, Bytes, List, [], ◌∷◌, none, some, if◌then◌else◌, arith,
}
use cloak.Server.Auth.{same_bytes}
use cloak.Server.Auth.Replay.{same_bytes_eq}
use cloak.Server.UserPanel.{ActiveUser, UserPanel, find_user}
use cloak.Server.UserPanel.Accounting.{up_in_valves, down_in_valves, up_queued, down_queued}
use cloak.Server.UserPanel.Users.{map_user, delete_user, with_sessions, add_to_valve}
use cloak.Server.UserPanel.Calls.{Distinct, map_user_absent}

-- A user's uploads and downloads that the panel holds: in the valve, and in the queue.
abbrev pub up_held : Bytes → UserPanel → ℕ
up_held u panel = up_in_valves u panel.active_users + up_queued u panel.usage_update_queue

abbrev pub down_held : Bytes → UserPanel → ℕ
down_held u panel = down_in_valves u panel.active_users + down_queued u panel.usage_update_queue

-- What one valve holds for a UID.
abbrev pub up_of : Bytes → ActiveUser → ℕ
up_of u user = if same_bytes user.arr_uid u then (if user.bypass then 0 else user.rx) else 0

abbrev pub down_of : Bytes → ActiveUser → ℕ
down_of u user = if same_bytes user.arr_uid u then (if user.bypass then 0 else user.tx) else 0

pub in_valves-with_sessions :
    (u uid : Bytes) (s : List ℕ) (users : List ActiveUser)
    → (up_in_valves u (map_user (with_sessions s) uid users) ≡ up_in_valves u users)
      × (down_in_valves u (map_user (with_sessions s) uid users) ≡ down_in_valves u users)
unfolding map_user
in_valves-with_sessions u uid s [] = (refl, refl)
in_valves-with_sessions u uid s (user ∷ users) =
    let (same_up, same_down) = in_valves-with_sessions u uid s users in (ground arith, ground arith)

in_valves_absent :
    (u : Bytes) (users : List ActiveUser)
    → find_user u users ≡ none
    → (up_in_valves u users ≡ 0) × (down_in_valves u users ≡ 0)
unfolding find_user
in_valves_absent u [] h = (refl, refl)
in_valves_absent u (user ∷ users) h =
    (ground (arith, in_valves_absent u users), ground (arith, in_valves_absent u users))

pub delete_user_absent :
    (uid : Bytes) (users : List ActiveUser)
    → find_user uid users ≡ none
    → delete_user uid users ≡ users
unfolding find_user delete_user
delete_user_absent uid [] h = refl
delete_user_absent uid (user ∷ users) h = ground (arith, delete_user_absent uid users)

-- Deleting a user takes away what its valve holds.
pub in_valves-delete_user :
    (u uid : Bytes) (users : List ActiveUser) (user : ActiveUser)
    → Distinct users
    → find_user uid users ≡ some user
    → (up_in_valves u users ≡ up_of u user + up_in_valves u (delete_user uid users))
      × (down_in_valves u users ≡ down_of u user + down_in_valves u (delete_user uid users))
unfolding find_user delete_user
in_valves-delete_user u uid [] user d h = cc
in_valves-delete_user u uid (x ∷ users) user (fresh, d) h = (
  ground (
    arith,
    same_bytes_eq x.arr_uid uid,
    delete_user_absent uid users,
    in_valves-delete_user u uid users user d,
  ),
  ground (
    arith,
    same_bytes_eq x.arr_uid uid,
    delete_user_absent uid users,
    in_valves-delete_user u uid users user d,
  ),
)

-- What a transfer of a UID adds to the account of `u`: nothing if the user is not active, or is a
-- bypass user.
abbrev pub credited : Bytes → Bytes → ℕ → List ActiveUser → ℕ
credited u uid n users = elim (find_user uid users) [
  | none ↦ 0
  | some user ↦ if same_bytes uid u then (if user.bypass then 0 else n) else 0
]

pub in_valves-add_to_valve :
    (u uid : Bytes) (rx tx : ℕ) (users : List ActiveUser)
    → Distinct users
    → (up_in_valves u (map_user (add_to_valve rx tx) uid users) % 2 ^ 64
        ≡ (up_in_valves u users + credited u uid rx users) % 2 ^ 64)
      × (down_in_valves u (map_user (add_to_valve rx tx) uid users) % 2 ^ 64
          ≡ (down_in_valves u users + credited u uid tx users) % 2 ^ 64)
unfolding find_user map_user
in_valves-add_to_valve u uid rx tx [] d = (refl, refl)
in_valves-add_to_valve u uid rx tx (x ∷ users) (fresh, d) = (
  ground (
    arith,
    same_bytes_eq x.arr_uid uid,
    map_user_absent (add_to_valve rx tx) uid users,
    in_valves-add_to_valve u uid rx tx users d,
  ),
  ground (
    arith,
    same_bytes_eq x.arr_uid uid,
    map_user_absent (add_to_valve rx tx) uid users,
    in_valves-add_to_valve u uid rx tx users d,
  ),
)

-- After a change of sessions the same user is found, with other sessions.
pub find_user-with_sessions :
    (w uid : Bytes) (s : List ℕ) (users : List ActiveUser) (user : ActiveUser)
    → find_user uid users ≡ some user
    → find_user uid (map_user (with_sessions s) uid users) ≡ some (with_sessions s user)
unfolding find_user map_user
find_user-with_sessions w uid s [] user h = cc
find_user-with_sessions w uid s (x ∷ users) user h =
    ground (arith, find_user-with_sessions w uid s users user)
