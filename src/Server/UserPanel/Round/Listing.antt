-- ===== src/Server/UserPanel/Round/Listing.antt =====
-- internal/server/userpanel.go: which users a round of the upload reports.
-- after a round of the upload.
use cloak.Prelude.{
  ℕ, ◌≡◌, refl, Bytes, Bool, true, false, not, ◌||◌, ◌&&◌, length, List, [], ◌∷◌, Option, none,
  some, arith, Bool-cases, inl, inr,
}
use cloak.Server.Auth.{same_bytes}
use cloak.Server.Auth.Replay.{same_bytes_refl, same_bytes_eq}
use cloak.Server.UserManager.Decisions.{has_status, OneEach}
use cloak.Server.UserPanel.{
  ActiveUser, UsagePair, Queue, nullify, add_usage, update_usage_queue_for_one, update_all,
  find_user, statuses_of,
}

abbrev pub is_active : Option ActiveUser → Bool
is_active none = false
is_active (some user) = true

abbrev pub is_metered : Option ActiveUser → Bool
is_metered none = false
is_metered (some user) = not user.bypass

-- `usageUpdateQueue` is a map with keys of 16 bytes, and so is `activeUsers`.
abbrev pub queued : Bytes → Queue → Bool
queued w [] = false
queued w ((key, usage) ∷ queue) = same_bytes key w || queued w queue

abbrev pub Keyed : Queue → Type 0
Keyed [] = Unit {0}
Keyed ((key, usage) ∷ queue) = (length key ≡ 16) × (queued key queue ≡ false) × Keyed queue

abbrev pub Sixteen : List ActiveUser → Type 0
Sixteen [] = Unit {0}
Sixteen (user ∷ users) = (length user.arr_uid ≡ 16) × Sixteen users

queued-add_usage :
    (w uid : Bytes) (p : UsagePair) (queue : Queue)
    → queued w (add_usage uid p queue) ≡ (same_bytes uid w || queued w queue)
unfolding add_usage
queued-add_usage w uid p [] = refl
queued-add_usage w uid p ((key, usage) ∷ queue) =
    ground (arith, queued-add_usage w uid p queue, same_bytes_eq key uid)

add_usage-Keyed :
    (uid : Bytes) (p : UsagePair) (queue : Queue)
    → length uid ≡ 16
    → Keyed queue
    → Keyed (add_usage uid p queue)
unfolding add_usage
add_usage-Keyed uid p [] size k = (size, refl, tt)
add_usage-Keyed uid p ((key, usage) ∷ queue) size (long, fresh, k) =
    elim (Bool-cases (same_bytes key uid)) [
      | inl e ↦ rw e (long, fresh, k)
      | inr e ↦ rw e (
        long,
        ground
            (arith, queued-add_usage key uid p queue, same_bytes_eq uid key, same_bytes_refl key),
        add_usage-Keyed uid p queue size k,
      )
    ]

pub update_all-Keyed :
    (users : List ActiveUser) (queue : Queue)
    → Sixteen users
    → Keyed queue
    → Keyed (update_all users queue).1
unfolding update_all update_usage_queue_for_one
update_all-Keyed [] queue s k = k
update_all-Keyed (user ∷ users) queue (size, s) k =
    let p : UsagePair = record { up = user.rx; down = user.tx } in
    elim (Bool-cases user.bypass) [
      | inl e ↦ rw e (update_all-Keyed users queue s k)
      | inr e ↦ rw e (
          update_all-Keyed users (add_usage user.arr_uid p queue) s
            (add_usage-Keyed user.arr_uid p queue size k))
    ]

-- What is queued stays queued, and every metered user is queued.
pub queued-update_all :
    (w : Bytes) (users : List ActiveUser) (queue : Queue)
    → (queued w queue ≡ true → queued w (update_all users queue).1 ≡ true)
      × (is_metered (find_user w users) ≡ true → queued w (update_all users queue).1 ≡ true)
unfolding update_all update_usage_queue_for_one find_user
queued-update_all w [] queue = ((λ h. h), λ h. cc)
queued-update_all w (user ∷ users) queue =
    let p : UsagePair = record { up = user.rx; down = user.tx } in
    let (kept, found) = queued-update_all w users queue in
    let (kept', found') = queued-update_all w users (add_usage user.arr_uid p queue) in
    let added = queued-add_usage w user.arr_uid p queue in ((λ h. ground arith), λ h. ground arith)

-- The round leaves who is active, and who is metered.
pub find_user-update_all :
    (w : Bytes) (users : List ActiveUser) (queue : Queue)
    → (is_active (find_user w (update_all users queue).0) ≡ is_active (find_user w users))
      × (is_metered (find_user w (update_all users queue).0) ≡ is_metered (find_user w users))
unfolding update_all update_usage_queue_for_one nullify find_user
find_user-update_all w [] queue = (refl, refl)
find_user-update_all w (user ∷ users) queue =
    let p : UsagePair = record { up = user.rx; down = user.tx } in
    let same = find_user-update_all w users queue in
    let same' = find_user-update_all w users (add_usage user.arr_uid p queue) in
    (ground arith, ground arith)

-- A UID has a status if it is queued, and no active bypass user has it.
pub has_status-statuses_of :
    (w : Bytes) (users : List ActiveUser) (queue : Queue) (now : ℕ)
    → has_status w (statuses_of users queue now)
      ≡ (queued w queue && (is_metered (find_user w users) || not (is_active (find_user w users))))
unfolding statuses_of
has_status-statuses_of w users [] now = refl
has_status-statuses_of w users ((key, usage) ∷ queue) now =
    ground (arith, has_status-statuses_of w users queue now, same_bytes_eq key w)

pub statuses_of-OneEach :
    (users : List ActiveUser) (queue : Queue) (now : ℕ)
    → Keyed queue
    → OneEach (statuses_of users queue now)
unfolding statuses_of
statuses_of-OneEach users [] now k = tt
statuses_of-OneEach users ((key, usage) ∷ queue) now (size, fresh, k) =
    ground
      (arith, has_status-statuses_of key users queue now, statuses_of-OneEach users queue now k)
