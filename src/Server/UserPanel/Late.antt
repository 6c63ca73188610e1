-- ===== src/Server/UserPanel/Late.antt =====
-- internal/server/activeuser.go and userpanel.go: CloseSession of a user object that was terminated
-- before, while the user has come back as another object.
use cloak.Prelude.{
  ℕ, ◌≡◌, refl, Bytes, false, List, [], ◌∷◌, none, some, arith, to_array, ap, ◌∙◌, append-nil,
}
use cloak.Server.Auth.Replay.{same_bytes_refl}
use cloak.Server.UserManager.{ok}
use cloak.Server.UserPanel.{ActiveUser, UserPanel, find_user}
use cloak.Server.UserPanel.Users.{
  UserManager, get_user, get_session, made, delete_user, map_user, has_session, remove_session,
  terminate_active_user, close_session_late, new_user, with_sessions,
}

find_user_deleted :
    (uid : Bytes) (users : List ActiveUser) → find_user uid (delete_user uid users) ≡ none
unfolding find_user delete_user
find_user_deleted uid [] = refl
find_user_deleted uid (user ∷ users) = ground (arith, find_user_deleted uid users)

module _ (panel : UserPanel) (late : ActiveUser) (id : ℕ) (empty : late.sessions ≡ []) where
  late_deletes :
      ((close_session_late panel late id).active_users
        ≡ delete_user late.arr_uid panel.active_users)
      × ((close_session_late panel late id).closed_sessions ≡ panel.closed_sessions)
  unfolding close_session_late terminate_active_user has_session remove_session
  late_deletes =
      let removed : remove_session id late.sessions ≡ [] = ap (remove_session id) empty in
      let none_there : has_session id late.sessions ≡ false = ap (has_session id) empty in
      let nothing = append-nil panel.closed_sessions in
      (ground (arith, removed, none_there), ground (arith, removed, none_there, nothing))

-- A user who is not active, and whom the manager lets in with no session so far.
returns :
    (manager : UserManager) (panel : UserPanel) (uid : Bytes) (rates : ℕ × ℕ) (id : ℕ)
    → find_user uid panel.active_users ≡ none
    → to_array 16 uid ≡ uid
    → manager.authenticate_user uid ≡ ok rates
    → manager.authorise_new_session uid 0 ≡ ok tt
    → let back = (get_user manager panel uid).1 in
      ((get_session manager back uid id).0 ≡ made)
      × (find_user uid (get_session manager back uid id).1.active_users
          ≡ some (with_sessions (id ∷ []) (new_user uid false)))
unfolding get_user get_session find_user map_user has_session
returns manager panel uid rates id gone whole known granted =
    let same = same_bytes_refl uid in
    (
      ground (arith, gone, whole, known, granted, same),
      ground (arith, gone, whole, known, granted, same),
    )

-- Let a user be active with any sessions, and let CloseSession be called on an earlier object of the
-- same user, which was terminated and has no session. Then the user leaves the map, and none of the
-- sessions is closed. If the manager lets the user in and grants a first session, the user gets a
-- session by a new object that has it alone: the sessions before are open, and are not counted.
pub close_session_late-get_session :
    (manager : UserManager) (panel : UserPanel) (user late : ActiveUser) (uid : Bytes)
    (rates : ℕ × ℕ) (id new_id : ℕ)
    → find_user uid panel.active_users ≡ some user
    → late.arr_uid ≡ uid
    → late.sessions ≡ []
    → to_array 16 uid ≡ uid
    → manager.authenticate_user uid ≡ ok rates
    → manager.authorise_new_session uid 0 ≡ ok tt
    → let after = close_session_late panel late id in
      let back = (get_user manager after uid).1 in
      (find_user uid after.active_users ≡ none)
      × (after.closed_sessions ≡ panel.closed_sessions)
      × ((get_session manager back uid new_id).0 ≡ made)
      × (find_user uid (get_session manager back uid new_id).1.active_users
          ≡ some (with_sessions (new_id ∷ []) (new_user uid false)))
close_session_late-get_session manager panel user late uid rates id new_id found same empty whole
      known granted =
    let (left, unclosed) = late_deletes panel late id empty in
    let gone : find_user uid (close_session_late panel late id).active_users ≡ none =
      ap (find_user uid) left
      ∙ ap (λ w. find_user uid (delete_user w panel.active_users)) same
      ∙ find_user_deleted uid panel.active_users in
    let (granted', alone) =
      returns manager (close_session_late panel late id) uid rates new_id gone whole known
        granted in
    (gone, unclosed, granted', alone)
