-- ===== src/Server/UserManager.antt =====
-- internal/server/usermanager: usermanager.go, localmanager.go and voidmanager.go. A signed 64-bit
-- number is the 64-bit word that stands for it.
pub mod Accounts
pub mod Usage
pub mod Decisions
pub mod Routes
use cloak.Prelude.{
  ℕ, ◌+◌, ◌-◌, ◌%◌, ◌^◌, ◌≡◌, ◌&&◌, ◌||◌, Bytes, Bool, true, false, length, put_uint32, put_uint64,
  to_array, uint32, uint64, List, [], ◌∷◌, ◌++◌, Option, none, some, ltb, leb, ◌==◌, if◌then◌else◌,
}
pub use cloak.Prelude.{not_positive}
use cloak.Server.Auth.{same_bytes}

pub data UserError : Type 0 where
  user_not_found sessions_cap_reached manager_is_void no_up_credit no_down_credit : UserError
  user_expired database_error : UserError

-- A panic is that of `u64` on a key that the bucket does not have.
pub data Outcome {ℓ} (A : Type ℓ) : Type ℓ where
  ok : A → Outcome A
  refused : UserError → Outcome A
  panics : Outcome A

-- The keys of a user's bucket.
pub data Field : Type 0 where
  sessions_cap up_rate down_rate up_credit down_credit expiry_time : Field

abbrev pub field_no : Field → ℕ
field_no sessions_cap = 0
field_no up_rate = 1
field_no down_rate = 2
field_no up_credit = 3
field_no down_credit = 4
field_no expiry_time = 5

abbrev pub same_key : Bytes → Field → Bytes → Field → Bool
same_key u k w j = same_bytes u w && field_no k == field_no j

-- go.etcd.io/bbolt within a transaction: `get` of a missing key is nil, and `put` into a bucket that
-- exists changes that key alone. `none` is an error.
pub record Bolt : Type 1 where
  pub Db : Type 0
  pub has_bucket : Db → Bytes → Bool
  pub get : Db → Bytes → Field → Bytes
  pub put : Db → Bytes → Field → Bytes → Option Db
  pub create_bucket_if_not_exists : Db → Bytes → Option Db
  pub delete_bucket : Db → Bytes → Option Db
  pub uids : Db → List Bytes
  pub put_lem :
      (db : Db) (u : Bytes) (k : Field) (v : Bytes)
      → has_bucket db u ≡ true
      → (d : Db) × (put db u k v ≡ some d)
        × ((w : Bytes) (j : Field) → get d w j ≡ (if same_key u k w j then v else get db w j))
        × ((w : Bytes) → has_bucket d w ≡ has_bucket db w)
  pub create_lem :
      (db d : Db) (u : Bytes)
      → create_bucket_if_not_exists db u ≡ some d
      → (has_bucket d u ≡ true) × ((w : Bytes) (j : Field) → get d w j ≡ get db w j)
  pub get_absent : (db : Db) (u : Bytes) (k : Field) → has_bucket db u ≡ false → get db u k ≡ []

pub record UserInfo : Type 0 where
  pub uid : Bytes
  pub sessions_cap : Option ℕ
  pub up_rate : Option ℕ
  pub down_rate : Option ℕ
  pub up_credit : Option ℕ
  pub down_credit : Option ℕ
  pub expiry_time : Option ℕ

pub record StatusUpdate : Type 0 where
  pub uid : Bytes
  pub active : Bool
  pub num_session : ℕ
  pub up_usage : ℕ
  pub down_usage : ℕ
  pub timestamp : ℕ

pub data Message : Type 0 where
  no_longer_exists no_upload_credit_left no_download_credit_left has_expired : Message

-- Every response has the action TERMINATE.
pub record StatusResponse : Type 0 where
  pub uid : Bytes
  pub message : Message

-- `v <= 0` and `a < b` on signed words, and the difference of two.
abbrev pub signed_lt : ℕ → ℕ → Bool
signed_lt a b = ltb ((a + 2 ^ 63) % 2 ^ 64) ((b + 2 ^ 63) % 2 ^ 64)

abbrev pub minus64 : ℕ → ℕ → ℕ
minus64 a b = (a + (2 ^ 64 - b % 2 ^ 64)) % 2 ^ 64

-- `u64(b)` and `u32(b)`, handed on.
abbrev pub with_u64 {ℓ} : {A : Type ℓ} → Bytes → (ℕ → Outcome A) → Outcome A
with_u64 b k = if ltb (length b) 8 then panics else k (uint64 b 0)

abbrev pub with_u32 {ℓ} : {A : Type ℓ} → Bytes → (ℕ → Outcome A) → Outcome A
with_u32 b k = if ltb (length b) 4 then panics else k (uint32 b 0)

-- The tests that both kinds of request go through.
abbrev pub standing {ℓ} : {A : Type ℓ} → ℕ → ℕ → ℕ → ℕ → Outcome A → Outcome A
standing up down expiry now granted =
    if not_positive up
    then refused no_up_credit
    else if not_positive down
    then refused no_down_credit
    else if signed_lt expiry now
    then refused user_expired
    else granted

abbrev pub respond_if : Bool → Bytes → Message → List StatusResponse
respond_if b u m = if b then record { uid = u; message = m } ∷ [] else []

abbrev pub bytes64 : Option ℕ → Option Bytes
bytes64 none = none
bytes64 (some v) = some (put_uint64 v)

abbrev pub bytes32 : Option ℕ → Option Bytes
bytes32 none = none
bytes32 (some v) = some (put_uint32 v)

abbrev cons_info : Outcome UserInfo → Outcome (List UserInfo) → Outcome (List UserInfo)
cons_info (ok i) (ok is) = ok (i ∷ is)
cons_info (ok i) (refused e) = refused e
cons_info (ok i) panics = panics
cons_info (refused e) r = refused e
cons_info panics r = panics

module _ (bolt : Bolt) where
  unfoldable pub authenticate_user : bolt.Db → Bytes → ℕ → Outcome (ℕ × ℕ)
  authenticate_user db u now =
      if bolt.has_bucket db u
      then (with_u64 (bolt.get db u up_rate) (λ rate_up.
          with_u64 (bolt.get db u down_rate) (λ rate_down. with_u64 (bolt.get db u up_credit) (λ up.
            with_u64 (bolt.get db u down_credit) (λ down.
              with_u64 (bolt.get db u expiry_time)
                (λ expiry. standing up down expiry now (ok (rate_up, rate_down))))))))
      else refused user_not_found

  unfoldable pub authorise_new_session : bolt.Db → Bytes → ℕ → ℕ → Outcome (Unit {0})
  authorise_new_session db requested existing now =
      let u = to_array 16 requested in
      if bolt.has_bucket db u
      then (with_u32 (bolt.get db u sessions_cap) (λ cap. with_u64 (bolt.get db u up_credit) (λ up.
          with_u64 (bolt.get db u down_credit) (λ down.
            with_u64 (bolt.get db u expiry_time) (λ expiry.
              standing up down expiry now
                (if leb cap existing then refused sessions_cap_reached else ok tt))))))
      else refused user_not_found

  -- `bucket.Put` whose error is only logged.
  abbrev pub put_logged : bolt.Db → Bytes → Field → ℕ → bolt.Db
  put_logged db u k v = elim (bolt.put db u k (put_uint64 v)) [ none ↦ db | some d ↦ d ]

  -- One round of `UploadStatus`.
  unfoldable pub upload_one : bolt.Db → StatusUpdate → ℕ → Outcome (List StatusResponse × bolt.Db)
  upload_one db status now =
      let u = status.uid in
      if bolt.has_bucket db u
      then (with_u64 (bolt.get db u up_credit) (λ old_up.
          let new_up = minus64 old_up status.up_usage in
          let db' = put_logged db u up_credit new_up in
          with_u64 (bolt.get db' u down_credit) (λ old_down.
            let new_down = minus64 old_down status.down_usage in
            let db'' = put_logged db' u down_credit new_down in
            with_u64 (bolt.get db'' u expiry_time) (λ expiry. ok (
              respond_if (not_positive new_up) u no_upload_credit_left
                  ++ (respond_if (not_positive new_down) u no_download_credit_left
                      ++ respond_if (signed_lt expiry now) u has_expired),
              db'',
            )))))
      else ok (respond_if true u no_longer_exists, db)

  abbrev pub more_responses :
      List StatusResponse
      → Outcome (List StatusResponse × bolt.Db)
      → Outcome (List StatusResponse × bolt.Db)
  more_responses rs (ok (later, db)) = ok (rs ++ later, db)
  more_responses rs (refused e) = refused e
  more_responses rs panics = panics

  unfoldable pub upload_status :
      bolt.Db → List StatusUpdate → ℕ → Outcome (List StatusResponse × bolt.Db)
  unfolding upload_one
  upload_status db [] now = ok ([], db)
  upload_status db (s ∷ rest) now = elim (upload_one db s now) [
    | ok (rs, db') ↦ more_responses rs (upload_status db' rest now)
    | refused e ↦ refused e
    | panics ↦ panics
  ]

  -- What `GetUserInfo` and `ListAllUsers` read of a bucket.
  abbrev pub info_in_bucket : bolt.Db → Bytes → Outcome UserInfo
  info_in_bucket db u = with_u32 (bolt.get db u sessions_cap) (λ cap.
      with_u64 (bolt.get db u up_rate) (λ rate_up. with_u64 (bolt.get db u down_rate) (λ rate_down.
        with_u64 (bolt.get db u up_credit) (λ up. with_u64 (bolt.get db u down_credit) (λ down.
          with_u64 (bolt.get db u expiry_time) (λ expiry. ok (record {
            uid = u;
            sessions_cap = some cap;
            up_rate = some rate_up;
            down_rate = some rate_down;
            up_credit = some up;
            down_credit = some down;
            expiry_time = some expiry;
          })))))))

  unfoldable pub get_user_info : bolt.Db → Bytes → Outcome UserInfo
  get_user_info db u = if bolt.has_bucket db u then info_in_bucket db u else refused user_not_found

  unfoldable pub list_users : bolt.Db → List Bytes → Outcome (List UserInfo)
  list_users db [] = ok []
  list_users db (u ∷ us) = cons_info (info_in_bucket db u) (list_users db us)

  unfoldable pub list_all_users : bolt.Db → Outcome (List UserInfo)
  unfolding list_users
  list_all_users db = list_users db (bolt.uids db)

  -- A put of a field that is given, after calls that went well.
  abbrev pub then_put : Option bolt.Db → Bytes → Field → Option Bytes → Option bolt.Db
  then_put none u k v = none
  then_put (some db) u k none = some db
  then_put (some db) u k (some v) = bolt.put db u k v

  -- `none` is an error, and the transaction is rolled back.
  unfoldable pub write_user_info : bolt.Db → UserInfo → Option bolt.Db
  write_user_info db i =
      let created = bolt.create_bucket_if_not_exists db i.uid in
      let capped = then_put created i.uid sessions_cap (bytes32 i.sessions_cap) in
      let up_rated = then_put capped i.uid up_rate (bytes64 i.up_rate) in
      let rated = then_put up_rated i.uid down_rate (bytes64 i.down_rate) in
      let up_credited = then_put rated i.uid up_credit (bytes64 i.up_credit) in
      let credited = then_put up_credited i.uid down_credit (bytes64 i.down_credit) in
      then_put credited i.uid expiry_time (bytes64 i.expiry_time)

  unfoldable pub delete_user : bolt.Db → Bytes → Option bolt.Db
  delete_user db u = bolt.delete_bucket db u
