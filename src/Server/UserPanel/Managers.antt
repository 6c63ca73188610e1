-- ===== src/Server/UserPanel/Managers.antt =====
-- internal/server/usermanager/localmanager.go and voidmanager.go, as the user panel sees them.
use cloak.Prelude.{ℕ, Bytes, to_array, uint32, arith}
use cloak.Server.UserManager.{Outcome, ok, refused, manager_is_void, Bolt, sessions_cap}
use cloak.Server.UserManager as Local
use cloak.Server.UserPanel.Users.{UserManager}
use cloak.Server.UserPanel.Cap.{Capped}

-- The local manager on a database, at a time.
abbrev pub local_manager : (bolt : Bolt) → bolt.Db → ℕ → UserManager
local_manager bolt db now = record {
  authenticate_user = λ uid. Local.authenticate_user bolt db uid now;
  authorise_new_session = λ uid n. Local.authorise_new_session bolt db uid n now;
}

unfoldable pub void_manager : UserManager
void_manager = record {
  authenticate_user = λ uid. refused manager_is_void;
  authorise_new_session = λ uid n. refused manager_is_void;
}

-- The cap that the database holds for a user.
abbrev pub cap_in : (bolt : Bolt) → bolt.Db → Bytes → ℕ
cap_in bolt db uid = uint32 (bolt.get db (to_array 16 uid) sessions_cap) 0

pub local_manager-Capped :
    (bolt : Bolt) (db : bolt.Db) (now : ℕ) → Capped (local_manager bolt db now) (cap_in bolt db)
unfolding Local.authorise_new_session
local_manager-Capped bolt db now = record { granted_below = λ uid n h. ground arith }

pub void_manager-Capped : (cap : Bytes → ℕ) → Capped void_manager cap
unfolding void_manager
void_manager-Capped cap = record { granted_below = λ uid n h. cc }
