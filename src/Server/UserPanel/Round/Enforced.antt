-- ===== src/Server/UserPanel/Round/Enforced.antt =====
-- internal/server/userpanel.go over internal/server/usermanager/localmanager.go: who is still active
-- after a round of the upload.
use cloak.Prelude.{
  ℕ, ◌≡◌, refl, sym, ap, ◌∙◌, Bytes, true, not, ◌&&◌, to_array, List, [], ◌∷◌, none, if◌then◌else◌,
  arith, Bool-cases, Option-cases, inl, inr,
}
use cloak.Server.Auth.{same_bytes}
use cloak.Server.Auth.Replay.{same_bytes_refl, same_bytes_eq}
use cloak.Server.UserManager.{
  Bolt, ok, StatusUpdate, StatusResponse, upload_status, authenticate_user,
}
use cloak.Server.UserManager.Usage.{Complete, granted}
use cloak.Server.UserManager.Decisions.{mentions, has_status, upload_status-decides}
use cloak.Server.UserPanel.{
  ActiveUser, Queue, UserPanel, update_all, update_usage_queue, find_user, statuses_of,
  commit_update,
}
use cloak.Server.UserPanel.Users.{delete_user, terminate, terminate_active_user}
use cloak.Server.UserPanel.Calls.{find_user-arr_uid}
use cloak.Server.UserPanel.Round.{act_on, committed, commit_responses, queue_upload_round}
use cloak.Server.UserPanel.Round.Listing.{
  is_active, is_metered, queued, Keyed, Sixteen, update_all-Keyed, queued-update_all,
  find_user-update_all, has_status-statuses_of, statuses_of-OneEach,
}

find_user-delete_user :
    (uid w : Bytes) (users : List ActiveUser)
    → find_user w (delete_user uid users) ≡ (if same_bytes uid w then none else find_user w users)
unfolding find_user delete_user
find_user-delete_user uid w [] = ground arith
find_user-delete_user uid w (user ∷ users) = ground (
  arith,
  find_user-delete_user uid w users,
  same_bytes_eq user.arr_uid uid,
  same_bytes_eq uid w,
  same_bytes_eq user.arr_uid w,
  same_bytes_refl w,
)

find_user-terminate :
    (panel : UserPanel) (uid w : Bytes)
    → find_user w (terminate panel uid).active_users
      ≡ (if same_bytes uid w then none else find_user w panel.active_users)
unfolding terminate terminate_active_user
find_user-terminate panel uid w = elim (Option-cases (find_user uid panel.active_users)) [
  | inl absent ↦ ground (arith, absent, same_bytes_eq uid w)
  | inr (user, found) ↦
      let e = find_user-arr_uid uid panel.active_users user found in
      ground (arith, found, e, find_user-delete_user user.arr_uid w panel.active_users)
]

find_user-act_on :
    (w : Bytes) (rs : List StatusResponse) (panel : UserPanel)
    → find_user w (act_on rs panel).active_users
      ≡ (if mentions w rs then none else find_user w panel.active_users)
unfolding act_on
find_user-act_on w [] panel = refl
find_user-act_on w (r ∷ rs) panel =
    let uid = to_array 16 r.uid in
    ground (arith, find_user-act_on w rs (terminate panel uid), find_user-terminate panel uid w)

module _ (bolt : Bolt) where
  commit_responses-ok :
      (db d : bolt.Db) (ss : List StatusUpdate) (rs : List StatusResponse) (panel : UserPanel)
      (now : ℕ)
      → upload_status bolt db ss now ≡ ok (rs, d)
      → commit_responses (upload_status bolt) db ss panel now ≡ committed (act_on rs panel) d
  unfolding commit_responses upload_status
  commit_responses-ok db d [] rs panel now e = cc
  commit_responses-ok db d (s ∷ ss) rs panel now e = rw (e, commit_responses)

  -- What a round has decided of every UID.
  abbrev pub Enforced : bolt.Db → UserPanel → ℕ → UserPanel → bolt.Db → Type 0
  Enforced db panel now after d =
      (w : Bytes)
      → let user = find_user w panel.active_users in
        is_active (find_user w after.active_users)
        ≡ (if is_metered user then granted (authenticate_user bolt d w now) else is_active user)

  act_on-Enforced :
      (db d : bolt.Db) (panel : UserPanel) (now : ℕ) (rs : List StatusResponse)
      (users : List ActiveUser) (queue : Queue) (after : UserPanel)
      → update_all panel.active_users panel.usage_update_queue ≡ (users, queue)
      → after.active_users ≡ users
      → ((w : Bytes)
          → mentions w rs ≡ (
              has_status w (statuses_of users queue now)
              && not (granted (authenticate_user bolt d w now))))
      → Enforced db panel now (act_on rs after) d
  act_on-Enforced db d panel now rs users queue after e same decides w =
      let (act, meter) = find_user-update_all w panel.active_users panel.usage_update_queue in
      let (_, listed) = queued-update_all w panel.active_users panel.usage_update_queue in
      let act' : is_active (find_user w users) ≡ is_active (find_user w panel.active_users) =
        ap (λ q. is_active (find_user w q.0)) (sym e) ∙ act in
      let meter' : is_metered (find_user w users) ≡ is_metered (find_user w panel.active_users) =
        ap (λ q. is_metered (find_user w q.0)) (sym e) ∙ meter in
      let listed' : is_metered (find_user w panel.active_users) ≡ true → queued w queue ≡ true =
        λ h. ap (λ q. queued w q.1) (sym e) ∙ listed h in
      let kept = find_user-act_on w rs after in
      let status = has_status-statuses_of w users queue now in
      let said = decides w in
      elim (Bool-cases (is_metered (find_user w panel.active_users))) [
        | inl m ↦ ground (arith, listed' m)
        | inr m ↦ ground arith
      ]

  -- A round of `regularQueueUpload` with the local manager on a complete database succeeds, and of
  -- the users who were active before it exactly these are active after it: the bypass users, and
  -- those who may still connect, with what the round has charged. Nobody else is active then. The
  -- UIDs are arrays of 16 bytes, and the queue, a map, has each of them once.
  pub queue_upload_round-Enforced :
      (db : bolt.Db) (panel : UserPanel) (now : ℕ)
      → Complete bolt db
      → Sixteen panel.active_users
      → Keyed panel.usage_update_queue
      → (after : UserPanel) × (d : bolt.Db) × (queue_upload_round (upload_status bolt) db panel now
          ≡ committed after d)
        × Complete bolt d
        × Enforced db panel now after d
  unfolding queue_upload_round commit_update update_usage_queue
  queue_upload_round-Enforced db panel now c s k =
      let (users, queue) = update_all panel.active_users panel.usage_update_queue in
      let keyed = update_all-Keyed panel.active_users panel.usage_update_queue s k in
      let ss = statuses_of users queue now in
      let (rs, d, run, c', decides) =
        upload_status-decides bolt db ss now c (statuses_of-OneEach users queue now keyed) in
      let after = record panel { active_users = users; usage_update_queue = [] } in
      (
        act_on rs after,
        d,
        commit_responses-ok db d ss rs after now run,
        c',
        act_on-Enforced db d panel now rs users queue after refl refl (λ w. (decides w).0),
      )
