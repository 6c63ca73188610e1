-- ===== src/Server/UserPanel/Round.antt =====
-- internal/server/userpanel.go: a round of `regularQueueUpload`, with the answers to the upload.
pub mod Listing
pub mod Enforced
pub mod Failure
use cloak.Prelude.{ℕ, Bytes, to_array, List, [], ◌∷◌}
use cloak.Server.UserManager.{
  UserError, Outcome, ok, refused, panics, manager_is_void, StatusUpdate, StatusResponse,
}
use cloak.Server.UserPanel.{UserPanel, update_usage_queue, commit_update}
use cloak.Server.UserPanel.Users.{terminate}

-- The loop over the responses, all of which say TERMINATE.
unfoldable pub act_on : List StatusResponse → UserPanel → UserPanel
unfolding terminate
act_on [] panel = panel
act_on (r ∷ rs) panel = act_on rs (terminate panel (to_array 16 r.uid))

-- What `commitUpdate` makes of the panel and of the manager's state `D`.
pub data Committed (D : Type 0) : Type 0 where
  committed : UserPanel → D → Committed D
  failed : UserError → UserPanel → Committed D
  upload_panics : UserPanel → Committed D

module _ {D : Type 0} (upload : D → List StatusUpdate → ℕ → Outcome (List StatusResponse × D)) where
  -- The queue is emptied before the manager is asked, so that an error loses what it held.
  unfoldable pub commit_responses : D → List StatusUpdate → UserPanel → ℕ → Committed D
  unfolding act_on
  commit_responses d [] panel now = committed panel d
  commit_responses d (s ∷ ss) panel now = elim (upload d (s ∷ ss) now) [
    | ok (rs, d') ↦ committed (act_on rs panel) d'
    | refused e ↦ failed e panel
    | panics ↦ upload_panics panel
  ]

  unfoldable pub queue_upload_round : D → UserPanel → ℕ → Committed D
  unfolding commit_responses update_usage_queue commit_update
  queue_upload_round d panel now =
      let (statuses, panel') = commit_update (update_usage_queue panel) now in
      commit_responses d statuses panel' now

-- `UploadStatus` of the void manager.
abbrev pub void_upload : Unit {0} → List StatusUpdate → ℕ → Outcome (List StatusResponse × Unit {0})
void_upload d ss now = refused manager_is_void
