-- ===== src/Server/UserPanel/Ledger.antt =====
-- internal/server/userpanel.go and activeuser.go: the usage of a user over any sequence of calls.
use cloak.Prelude.{
  ℕ, ◌+◌, ◌%◌, ◌^◌, ◌≡◌, Bytes, List, [], ◌∷◌, none, some, length, Bool, ◌==◌, if◌then◌else◌,
}
use cloak.Server.UserPanel.{ActiveUser, UserPanel, find_user}
use cloak.Server.UserPanel.Users.{UserManager, remove_session}
use cloak.Server.UserPanel.Calls.{Call, transfers, closes_late, step}
use cloak.Server.UserPanel.Valves.{up_held, down_held, up_of, down_of, credited}

-- The accounts of two panels agree.
abbrev Same : Bytes → UserPanel → UserPanel → Type 0
Same u panel after =
    (up_held u after % 2 ^ 64 ≡ up_held u panel % 2 ^ 64)
    × (down_held u after % 2 ^ 64 ≡ down_held u panel % 2 ^ 64)

-- Whether a late CloseSession goes on to terminate its user.
abbrev pub ends_late : ActiveUser → ℕ → Bool
ends_late user id = length (remove_session id user.sessions) == 0

-- What a call adds to the account of `u`, and what a sequence of calls does. A late CloseSession
-- reports the valve of its object.
abbrev pub up_added : Bytes → UserPanel → Call → ℕ
up_added u panel (transfers uid rx tx) = credited u uid rx panel.active_users
up_added u panel (closes_late user id) = if ends_late user id then up_of u user else 0
up_added u panel _ = 0

abbrev pub down_added : Bytes → UserPanel → Call → ℕ
down_added u panel (transfers uid rx tx) = credited u uid tx panel.active_users
down_added u panel (closes_late user id) = if ends_late user id then down_of u user else 0
down_added u panel _ = 0

-- What a call takes away from it: a late CloseSession drops whoever stands in the map by then, with
-- what is in that valve.
abbrev pub up_lost : Bytes → UserPanel → Call → ℕ
up_lost u panel (closes_late user id) =
    if ends_late user id
    then elim (find_user user.arr_uid panel.active_users) [ none ↦ 0 | some other ↦ up_of u other ]
    else 0
up_lost u panel _ = 0

abbrev pub down_lost : Bytes → UserPanel → Call → ℕ
down_lost u panel (closes_late user id) =
    if ends_late user id
    then elim (find_user user.arr_uid panel.active_users) [
      | none ↦ 0
      | some other ↦ down_of u other
    ]
    else 0
down_lost u panel _ = 0

-- The sum of such an amount over a sequence of calls.
unfoldable pub total : (UserPanel → Call → ℕ) → UserPanel → List (UserManager × Call) → ℕ
total amount panel [] = 0
total amount panel ((manager, c) ∷ calls) =
    amount panel c + total amount (step manager panel c) calls

-- What one call makes of the accounts.
abbrev Adds : Bytes → UserPanel → UserPanel → ℕ → ℕ → ℕ → ℕ → Type 0
Adds u panel after up down up_gone down_gone =
    ((up_held u after + up_gone) % 2 ^ 64 ≡ (up_held u panel + up) % 2 ^ 64)
    × ((down_held u after + down_gone) % 2 ^ 64 ≡ (down_held u panel + down) % 2 ^ 64)
