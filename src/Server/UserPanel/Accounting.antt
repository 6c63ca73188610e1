-- ===== src/Server/UserPanel/Accounting.antt =====
-- internal/server/userpanel.go: no usage is lost or reported twice.
use cloak.Prelude.{
  ℕ, ◌+◌, ◌%◌, ◌^◌, ◌≡◌, refl, ap, ◌∙◌, Bytes, Bool, false, List, [], ◌∷◌, Option, none, some,
  if◌then◌else◌, arith,
}
use cloak.Server.Auth.{same_bytes}
use cloak.Server.Auth.Replay.{same_bytes_eq}
use cloak.Server.UserManager.Usage.{up_usage_of, down_usage_of}
use cloak.Server.UserPanel.{
  ActiveUser, UsagePair, Queue, UserPanel, nullify, add_usage, update_usage_queue_for_one,
  update_all, update_usage_queue, find_user, statuses_of, commit_update,
}

-- What the valves of the users with a UID hold, and what is queued for it: uploads and downloads.
abbrev pub up_in_valves : Bytes → List ActiveUser → ℕ
up_in_valves u [] = 0
up_in_valves u (user ∷ users) =
    (if same_bytes user.arr_uid u then (if user.bypass then 0 else user.rx) else 0)
    + up_in_valves u users

abbrev pub down_in_valves : Bytes → List ActiveUser → ℕ
down_in_valves u [] = 0
down_in_valves u (user ∷ users) =
    (if same_bytes user.arr_uid u then (if user.bypass then 0 else user.tx) else 0)
    + down_in_valves u users

abbrev pub up_queued : Bytes → Queue → ℕ
up_queued u [] = 0
up_queued u ((key, usage) ∷ queue) = (if same_bytes key u then usage.up else 0) + up_queued u queue

abbrev pub down_queued : Bytes → Queue → ℕ
down_queued u [] = 0
down_queued u ((key, usage) ∷ queue) =
    (if same_bytes key u then usage.down else 0) + down_queued u queue

pub up_queued-add_usage :
    (u k : Bytes) (p : UsagePair) (queue : Queue)
    → up_queued u (add_usage k p queue) % 2 ^ 64
      ≡ ((if same_bytes k u then p.up else 0) + up_queued u queue) % 2 ^ 64
unfolding add_usage
up_queued-add_usage u k p [] = ground arith
up_queued-add_usage u k p ((key, usage) ∷ queue) =
    ground (arith, same_bytes_eq key k, up_queued-add_usage u k p queue)

pub down_queued-add_usage :
    (u k : Bytes) (p : UsagePair) (queue : Queue)
    → down_queued u (add_usage k p queue) % 2 ^ 64
      ≡ ((if same_bytes k u then p.down else 0) + down_queued u queue) % 2 ^ 64
unfolding add_usage
down_queued-add_usage u k p [] = ground arith
down_queued-add_usage u k p ((key, usage) ∷ queue) =
    ground (arith, same_bytes_eq key k, down_queued-add_usage u k p queue)

pub up_queued-update_all :
    (u : Bytes) (users : List ActiveUser) (queue : Queue)
    → up_queued u (update_all users queue).1 % 2 ^ 64
      ≡ (up_in_valves u users + up_queued u queue) % 2 ^ 64
unfolding update_all update_usage_queue_for_one
up_queued-update_all u [] queue = ground arith
up_queued-update_all u (user ∷ users) queue =
    let p : UsagePair = record { up = user.rx; down = user.tx } in
    ground (
      arith,
      up_queued-update_all u users queue,
      up_queued-update_all u users (add_usage user.arr_uid p queue),
      up_queued-add_usage u user.arr_uid p queue,
    )

pub down_queued-update_all :
    (u : Bytes) (users : List ActiveUser) (queue : Queue)
    → down_queued u (update_all users queue).1 % 2 ^ 64
      ≡ (down_in_valves u users + down_queued u queue) % 2 ^ 64
unfolding update_all update_usage_queue_for_one
down_queued-update_all u [] queue = ground arith
down_queued-update_all u (user ∷ users) queue =
    let p : UsagePair = record { up = user.rx; down = user.tx } in
    ground (
      arith,
      down_queued-update_all u users queue,
      down_queued-update_all u users (add_usage user.arr_uid p queue),
      down_queued-add_usage u user.arr_uid p queue,
    )

pub in_valves-update_all :
    (u : Bytes) (users : List ActiveUser) (queue : Queue)
    → (up_in_valves u (update_all users queue).0 ≡ 0)
      × (down_in_valves u (update_all users queue).0 ≡ 0)
unfolding update_all update_usage_queue_for_one nullify
in_valves-update_all u [] queue = (refl, refl)
in_valves-update_all u (user ∷ users) queue =
    let p : UsagePair = record { up = user.rx; down = user.tx } in
    let (up_same, down_same) = in_valves-update_all u users queue in
    let (up_added, down_added) = in_valves-update_all u users (add_usage user.arr_uid p queue) in
    (ground arith, ground arith)

abbrev bypasses : Option ActiveUser → Bool
bypasses none = false
bypasses (some user) = user.bypass

-- The UID is not that of an active user who is not metered.
abbrev pub Metered : Bytes → List ActiveUser → Type 0
Metered u users = bypasses (find_user u users) ≡ false

update_all-Metered :
    (u : Bytes) (users : List ActiveUser) (queue : Queue)
    → bypasses (find_user u (update_all users queue).0) ≡ bypasses (find_user u users)
unfolding find_user update_all update_usage_queue_for_one nullify
update_all-Metered u [] queue = refl
update_all-Metered u (user ∷ users) queue =
    let p : UsagePair = record { up = user.rx; down = user.tx } in
    let same = update_all-Metered u users queue in
    let added = update_all-Metered u users (add_usage user.arr_uid p queue) in ground arith

usage_of-statuses_of :
    (u : Bytes) (users : List ActiveUser) (queue : Queue) (now : ℕ)
    → Metered u users
    → (up_usage_of u (statuses_of users queue now) ≡ up_queued u queue)
      × (down_usage_of u (statuses_of users queue now) ≡ down_queued u queue)
unfolding statuses_of
usage_of-statuses_of u users [] now h = (refl, refl)
usage_of-statuses_of u users ((key, usage) ∷ queue) now h =
    let (up_same, down_same) = usage_of-statuses_of u users queue now h in
    (ground (arith, same_bytes_eq key u), ground (arith, same_bytes_eq key u))

-- A round of `regularQueueUpload` up to the manager reports, of every UID that is not a bypass
-- user's, exactly what the valves held and what was queued before the round, modulo 2^64; after it
-- the valves hold nothing of that UID, and nothing is queued.
pub commit_update-update_usage_queue :
    (u : Bytes) (panel : UserPanel) (now : ℕ)
    → Metered u panel.active_users
    → let (statuses, after) = commit_update (update_usage_queue panel) now in
      (up_usage_of u statuses % 2 ^ 64
        ≡ (up_in_valves u panel.active_users + up_queued u panel.usage_update_queue) % 2 ^ 64)
      × (down_usage_of u statuses % 2 ^ 64
          ≡ (down_in_valves u panel.active_users + down_queued u panel.usage_update_queue) % 2 ^ 64)
      × (up_in_valves u after.active_users ≡ 0)
      × (down_in_valves u after.active_users ≡ 0)
      × (after.usage_update_queue ≡ [])
unfolding commit_update update_usage_queue
commit_update-update_usage_queue u panel now metered =
    let users = panel.active_users in
    let queue = panel.usage_update_queue in
    let (users', queue') = update_all users queue in
    let (up_said, down_said) =
      usage_of-statuses_of u users' queue' now (update_all-Metered u users queue ∙ metered) in
    let (up_gone, down_gone) = in_valves-update_all u users queue in
    (
      ap (λ n. n % 2 ^ 64) up_said ∙ up_queued-update_all u users queue,
      ap (λ n. n % 2 ^ 64) down_said ∙ down_queued-update_all u users queue,
      up_gone,
      down_gone,
      refl,
    )
