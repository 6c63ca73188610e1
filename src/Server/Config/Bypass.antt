-- ===== src/Server/Config/Bypass.antt =====
-- internal/server/state.go: who is a bypass user under a configuration.
use cloak.Prelude.{
  ◌≡◌, refl, sym, ap, ◌∙◌, Bytes, true, false, not, ◌&&◌, ◌||◌, length, to_array, to_array_exact,
  copy_into, length-copy_into, copy_into-append, append-nil, replicate, is_nil, same_bytes,
  same_bytes_refl, List, [], ◌∷◌, ◌⊎◌, inl, inr, arith,
}
use cloak.Server.Dispatcher.{member, is_bypass}
use cloak.Server.Config.{
  Platform, RawConfig, Initialised, ok, bypass_uids, all_bypass_uids, init_state,
}

abbrev pub AllSixteen : List Bytes → Type 0
AllSixteen [] = Unit {0}
AllSixteen (uid ∷ uids) = (length uid ≡ 16) × AllSixteen uids

abbrev pub NilOrSixteen : Bytes → Type 0
NilOrSixteen uid = (is_nil uid ≡ true) ⊎ (length uid ≡ 16)

copy_into_whole : (dst src : Bytes) → length dst ≡ length src → copy_into dst src ≡ src
copy_into_whole dst src h =
    ap (λ d. copy_into d src) (sym (append-nil dst))
    ∙ copy_into-append src dst [] h
    ∙ append-nil src

member-bypass_uids :
    (x arr_uid : Bytes) (uids known : List Bytes)
    → length arr_uid ≡ 16
    → AllSixteen uids
    → (member x (bypass_uids arr_uid uids known).1 ≡ (member x uids || member x known))
      × (length (bypass_uids arr_uid uids known).0 ≡ 16)
unfolding bypass_uids
member-bypass_uids x arr_uid [] known size all = (refl, size)
member-bypass_uids x arr_uid (uid ∷ uids) known size (h, all) =
    let same = copy_into_whole arr_uid uid (size ∙ sym h) in
    let (later, size') =
      member-bypass_uids x (copy_into arr_uid uid) uids (copy_into arr_uid uid ∷ known)
        (ap length same ∙ h) all in
    (ground (arith, later, same), size')

init_state-bypass_uid :
    (net : Platform) (raw : RawConfig) (sta : Initialised)
    → init_state net raw ≡ ok sta
    → sta.state.bypass_uid ≡ all_bypass_uids raw.bypass_uid raw.admin_uid
unfolding init_state
init_state-bypass_uid net raw sta h = ground arith

-- Under a configuration that is accepted, and whose UIDs have 16 bytes, the bypass users are the
-- listed ones and the administrator, if there is one, and no other.
pub is_bypass-init_state :
    (net : Platform) (raw : RawConfig) (sta : Initialised) (uid : Bytes)
    → init_state net raw ≡ ok sta
    → AllSixteen raw.bypass_uid
    → NilOrSixteen raw.admin_uid
    → is_bypass sta.state uid ≡ (
        member (to_array 16 uid) raw.bypass_uid
        || not (is_nil raw.admin_uid) && same_bytes raw.admin_uid (to_array 16 uid))
unfolding is_bypass all_bypass_uids
is_bypass-init_state net raw sta uid h all admin =
    let x = to_array 16 uid in
    let known = init_state-bypass_uid net raw sta h in
    let (listed, size) = member-bypass_uids x (replicate 16 0) raw.bypass_uid [] refl all in
    ap (member x) known ∙ go admin listed size
  where
    go :
        NilOrSixteen raw.admin_uid
        → (member (to_array 16 uid) (bypass_uids (replicate 16 0) raw.bypass_uid []).1
            ≡ (member (to_array 16 uid) raw.bypass_uid || false))
        → length (bypass_uids (replicate 16 0) raw.bypass_uid []).0 ≡ 16
        → member (to_array 16 uid) (all_bypass_uids raw.bypass_uid raw.admin_uid) ≡ (
            member (to_array 16 uid) raw.bypass_uid
            || not (is_nil raw.admin_uid) && same_bytes raw.admin_uid (to_array 16 uid))
    go (inl none_set) listed size = ground arith
    go (inr whole) listed size =
        let same =
          copy_into_whole (bypass_uids (replicate 16 0) raw.bypass_uid []).0 raw.admin_uid
            (size ∙ sym whole) in
        ground (arith, same)

-- Where a UID of 16 bytes is listed before a shorter one, with no administrator, the user whose UID
-- is the shorter one followed by the end of the first is a bypass user. The shorter UID, padded with
-- zeros as the server reads it, is one only if it is equal to that UID or to the first.
pub short_uid-is_bypass :
    (net : Platform) (raw : RawConfig) (sta : Initialised) (u v : Bytes)
    → init_state net raw ≡ ok sta
    → raw.bypass_uid ≡ u ∷ (v ∷ [])
    → raw.admin_uid ≡ []
    → length u ≡ 16
    → (is_bypass sta.state (copy_into u v) ≡ true)
      × (is_bypass sta.state v
          ≡ (same_bytes (copy_into u v) (to_array 16 v) || same_bytes u (to_array 16 v)))
unfolding is_bypass all_bypass_uids bypass_uids
short_uid-is_bypass net raw sta u v h listed no_admin size =
    let first = to_array_exact 16 u size in
    let whole = to_array_exact 16 (copy_into u v) (length-copy_into u v ∙ size) in
    let known : sta.state.bypass_uid ≡ copy_into u v ∷ (u ∷ []) =
      init_state-bypass_uid net raw sta h
      ∙ rw (listed, no_admin) (ap (λ w. copy_into w v ∷ (w ∷ [])) first) in
    (ground (arith, known, whole, same_bytes_refl (copy_into u v)), rw known (ground arith))
