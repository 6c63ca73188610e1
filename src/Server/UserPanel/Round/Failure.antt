-- ===== src/Server/UserPanel/Round/Failure.antt =====
-- internal/server/userpanel.go: a round of the upload that the user manager refuses.
use cloak.Prelude.{ℕ, ◌≡◌, ◌≢◌, refl, Bytes, List, [], ◌∷◌, arith}
use cloak.Server.UserManager.{UserError, Outcome, refused, StatusUpdate, StatusResponse}
use cloak.Server.UserPanel.{UserPanel, update_usage_queue, commit_update}
use cloak.Server.UserPanel.Accounting.{Metered, commit_update-update_usage_queue}
use cloak.Server.UserPanel.Valves.{up_held, down_held}
use cloak.Server.UserPanel.Round.{failed, commit_responses, queue_upload_round}

module _ {D : Type 0} (upload : D → List StatusUpdate → ℕ → Outcome (List StatusResponse × D)) where
  commit_responses-failed :
      (d : D) (ss : List StatusUpdate) (panel : UserPanel) (now : ℕ) (e : UserError)
      → ss ≢ []
      → upload d ss now ≡ refused e
      → commit_responses upload d ss panel now ≡ failed e panel
  unfolding commit_responses
  commit_responses-failed d [] panel now e some_status h = absurd (some_status refl)
  commit_responses-failed d (s ∷ ss) panel now e some_status h = rw (h, commit_responses)

  -- When the manager refuses an upload, the round fails with its error, and the usage that the valves
  -- and the queue held is lost: afterwards they hold nothing of a UID, unless it is an active bypass
  -- user's. There was something to report.
  pub queue_upload_round-loses :
      (d : D) (panel : UserPanel) (now : ℕ) (e : UserError) (u : Bytes)
      → (commit_update (update_usage_queue panel) now).0 ≢ []
      → upload d (commit_update (update_usage_queue panel) now).0 now ≡ refused e
      → Metered u panel.active_users
      → (after : UserPanel) × (queue_upload_round upload d panel now ≡ failed e after)
        × (up_held u after ≡ 0)
        × (down_held u after ≡ 0)
  unfolding queue_upload_round
  queue_upload_round-loses d panel now e u some_status h metered =
      let (ss, after) = commit_update (update_usage_queue panel) now in
      let (_, _, up, down, _) = commit_update-update_usage_queue u panel now metered in
      (
        after,
        commit_responses-failed d ss after now e some_status h,
        omega (arith, up),
        omega (arith, down),
      )
