-- ===== src/Server/UserManager/Accounts.antt =====
-- internal/server/usermanager/localmanager.go: what is written of a user is what is read, and what
-- decides on requests.
use cloak.Prelude.{
  ℕ, ◌^◌, ◌≡◌, ◌<◌, refl, sym, ap, ◌∙◌, Bytes, true, false, length, put_uint32, put_uint64, uint32,
  uint64, uint32-put_uint32, [], none, some, leb, ◌==◌, if◌then◌else◌, arith, uint64-put_uint64,
  append-nil, to_array, to_array_exact,
}
use cloak.Server.Auth.Replay.{same_bytes_refl}
use cloak.Server.UserManager.{
  sessions_cap_reached, ok, refused, panics, Field, sessions_cap, up_rate, down_rate, up_credit,
  down_credit, expiry_time, field_no, Bolt, UserInfo, standing, authenticate_user,
  authorise_new_session, get_user_info, write_user_info,
}

-- All that there is to say of a user.
pub record Account : Type 0 where
  pub uid : Bytes
  pub cap : ℕ
  pub rate_up : ℕ
  pub rate_down : ℕ
  pub left_up : ℕ
  pub left_down : ℕ
  pub expiry : ℕ

abbrev pub full_info : Account → UserInfo
full_info a = record {
  uid = a.uid;
  sessions_cap = some a.cap;
  up_rate = some a.rate_up;
  down_rate = some a.rate_down;
  up_credit = some a.left_up;
  down_credit = some a.left_down;
  expiry_time = some a.expiry;
}

-- The numbers are machine words, and a UID has 16 bytes.
pub record InRange (a : Account) : Type 0 where
  pub uid_length : length a.uid ≡ 16
  pub cap_lt : a.cap < 2 ^ 32
  pub rate_up_lt : a.rate_up < 2 ^ 64
  pub rate_down_lt : a.rate_down < 2 ^ 64
  pub left_up_lt : a.left_up < 2 ^ 64
  pub left_down_lt : a.left_down < 2 ^ 64
  pub expiry_lt : a.expiry < 2 ^ 64

-- What is read of a word that was put.
reads_u64 : (b : Bytes) (v : ℕ) → b ≡ put_uint64 v → v < 2 ^ 64 → (length b ≡ 8) × (uint64 b 0 ≡ v)
unfolding put_uint64
reads_u64 b v e h = (
  ap length e,
  ap (λ c. uint64 c 0) (e ∙ sym (append-nil (put_uint64 v))) ∙ uint64-put_uint64 v [] h,
)

reads_u32 : (b : Bytes) (v : ℕ) → b ≡ put_uint32 v → v < 2 ^ 32 → (length b ≡ 4) × (uint32 b 0 ≡ v)
unfolding put_uint32
reads_u32 b v e h = (
  ap length e,
  ap (λ c. uint32 c 0) (e ∙ sym (append-nil (put_uint32 v))) ∙ uint32-put_uint32 v [] h,
)

module _ (bolt : Bolt) where
  -- What one put into the bucket of `u` leaves there.
  record PutInto (u : Bytes) (db : bolt.Db) (k : Field) (v : Bytes) (d : bolt.Db) : Type 0 where
    has : bolt.has_bucket d u ≡ true
    gets : (j : Field) → bolt.get d u j ≡ (if field_no k == field_no j then v else bolt.get db u j)

  put-PutInto :
      (u : Bytes) (db : bolt.Db) (k : Field) (v : Bytes)
      → bolt.has_bucket db u ≡ true
      → (d : bolt.Db) × (bolt.put db u k v ≡ some d) × PutInto u db k v d
  put-PutInto u db k v has =
      let (d, done, gets', users) = bolt.put_lem db u k v has in
      (
        d,
        done,
        record { has = users u ∙ has; gets = λ j. ground (arith, gets' u j, same_bytes_refl u) },
      )

  -- The bucket of an account.
  pub record Stored (a : Account) (d : bolt.Db) : Type 0 where
    pub has : bolt.has_bucket d a.uid ≡ true
    pub cap_bytes : bolt.get d a.uid sessions_cap ≡ put_uint32 a.cap
    pub rate_up_bytes : bolt.get d a.uid up_rate ≡ put_uint64 a.rate_up
    pub rate_down_bytes : bolt.get d a.uid down_rate ≡ put_uint64 a.rate_down
    pub left_up_bytes : bolt.get d a.uid up_credit ≡ put_uint64 a.left_up
    pub left_down_bytes : bolt.get d a.uid down_credit ≡ put_uint64 a.left_down
    pub expiry_bytes : bolt.get d a.uid expiry_time ≡ put_uint64 a.expiry

  write_user_info-Stored :
      (db db' : bolt.Db) (a : Account)
      → bolt.create_bucket_if_not_exists db a.uid ≡ some db'
      → (d : bolt.Db) × (write_user_info bolt db (full_info a) ≡ some d) × Stored a d
  unfolding write_user_info
  write_user_info-Stored db db' a created =
      let u = a.uid in
      let (has, kept) = bolt.create_lem db db' u created in
      let (d1, e1, p1) = put-PutInto u db' sessions_cap (put_uint32 a.cap) has in
      let (d2, e2, p2) = put-PutInto u d1 up_rate (put_uint64 a.rate_up) p1.has in
      let (d3, e3, p3) = put-PutInto u d2 down_rate (put_uint64 a.rate_down) p2.has in
      let (d4, e4, p4) = put-PutInto u d3 up_credit (put_uint64 a.left_up) p3.has in
      let (d5, e5, p5) = put-PutInto u d4 down_credit (put_uint64 a.left_down) p4.has in
      let (d6, e6, p6) = put-PutInto u d5 expiry_time (put_uint64 a.expiry) p5.has in
      (
        d6,
        simp created (simp e1 (simp e2 (simp e3 (simp e4 (simp e5 e6))))),
        record {
          has = p6.has;
          cap_bytes =
              p6.gets sessions_cap
              ∙ p5.gets sessions_cap
              ∙ p4.gets sessions_cap
              ∙ p3.gets sessions_cap
              ∙ p2.gets sessions_cap
              ∙ p1.gets sessions_cap;
          rate_up_bytes =
              p6.gets up_rate
              ∙ p5.gets up_rate
              ∙ p4.gets up_rate
              ∙ p3.gets up_rate
              ∙ p2.gets up_rate;
          rate_down_bytes =
              p6.gets down_rate ∙ p5.gets down_rate ∙ p4.gets down_rate ∙ p3.gets down_rate;
          left_up_bytes = p6.gets up_credit ∙ p5.gets up_credit ∙ p4.gets up_credit;
          left_down_bytes = p6.gets down_credit ∙ p5.gets down_credit;
          expiry_bytes = p6.gets expiry_time;
        },
      )

  -- Writing every field of a user whose numbers fit their words succeeds once the bucket is there;
  -- then the same fields are read back, and they alone decide whether the user may connect, and open
  -- one more session: credit in both directions, the expiry time and the cap on sessions.
  pub write_user_info-decides :
      (db db' : bolt.Db) (a : Account) (existing now : ℕ)
      → InRange a
      → bolt.create_bucket_if_not_exists db a.uid ≡ some db'
      → (d : bolt.Db) × (write_user_info bolt db (full_info a) ≡ some d)
        × (get_user_info bolt d a.uid ≡ ok (full_info a))
        × (authenticate_user bolt d a.uid now
            ≡ standing a.left_up a.left_down a.expiry now (ok (a.rate_up, a.rate_down)))
        × (authorise_new_session bolt d a.uid existing now
            ≡ standing a.left_up a.left_down a.expiry now
                (if leb a.cap existing then refused sessions_cap_reached else ok tt))
  unfolding get_user_info authenticate_user authorise_new_session
  write_user_info-decides db db' a existing now r created =
      let (d, written, s) = write_user_info-Stored db db' a created in
      let u = a.uid in
      let array : to_array 16 u ≡ u = to_array_exact 16 u r.uid_length in
      let (n0, v0) = reads_u32 (bolt.get d u sessions_cap) a.cap s.cap_bytes r.cap_lt in
      let (n1, v1) = reads_u64 (bolt.get d u up_rate) a.rate_up s.rate_up_bytes r.rate_up_lt in
      let (n2, v2) =
        reads_u64 (bolt.get d u down_rate) a.rate_down s.rate_down_bytes r.rate_down_lt in
      let (n3, v3) = reads_u64 (bolt.get d u up_credit) a.left_up s.left_up_bytes r.left_up_lt in
      let (n4, v4) =
        reads_u64 (bolt.get d u down_credit) a.left_down s.left_down_bytes r.left_down_lt in
      let (n5, v5) = reads_u64 (bolt.get d u expiry_time) a.expiry s.expiry_bytes r.expiry_lt in
      let stored = s.has in
      (
        d,
        written,
        simp (stored, n0, n1, n2, n3, n4, n5, v0, v1, v2, v3, v4, v5) refl,
        simp (stored, n1, n2, n3, n4, n5, v1, v2, v3, v4, v5) refl,
        simp (array, stored, n0, n3, n4, n5, v0, v3, v4, v5) refl,
      )

  -- A user whose UID was not in the database, and who is written without an expiry time, is there,
  -- and asking whether this user may connect panics, as does asking for the user's fields. The
  -- write itself succeeds.
  pub write_user_info-panics :
      (db db' : bolt.Db) (a : Account) (now : ℕ)
      → bolt.has_bucket db a.uid ≡ false
      → bolt.create_bucket_if_not_exists db a.uid ≡ some db'
      → (d : bolt.Db) × (write_user_info bolt db (record (full_info a) { expiry_time = none })
          ≡ some d)
        × (authenticate_user bolt d a.uid now ≡ panics)
        × (get_user_info bolt d a.uid ≡ panics)
  unfolding write_user_info get_user_info authenticate_user put_uint32 put_uint64
  write_user_info-panics db db' a now absent created =
      let u = a.uid in
      let (has, kept) = bolt.create_lem db db' u created in
      let (d1, e1, p1) = put-PutInto u db' sessions_cap (put_uint32 a.cap) has in
      let (d2, e2, p2) = put-PutInto u d1 up_rate (put_uint64 a.rate_up) p1.has in
      let (d3, e3, p3) = put-PutInto u d2 down_rate (put_uint64 a.rate_down) p2.has in
      let (d4, e4, p4) = put-PutInto u d3 up_credit (put_uint64 a.left_up) p3.has in
      let (d5, e5, p5) = put-PutInto u d4 down_credit (put_uint64 a.left_down) p4.has in
      let stored = p5.has in
      let n0 : length (bolt.get d5 u sessions_cap) ≡ 4 = ap length (
        p5.gets sessions_cap
        ∙ p4.gets sessions_cap
        ∙ p3.gets sessions_cap
        ∙ p2.gets sessions_cap
        ∙ p1.gets sessions_cap) in
      let n1 : length (bolt.get d5 u up_rate) ≡ 8 =
        ap length (p5.gets up_rate ∙ p4.gets up_rate ∙ p3.gets up_rate ∙ p2.gets up_rate) in
      let n2 : length (bolt.get d5 u down_rate) ≡ 8 =
        ap length (p5.gets down_rate ∙ p4.gets down_rate ∙ p3.gets down_rate) in
      let n3 : length (bolt.get d5 u up_credit) ≡ 8 =
        ap length (p5.gets up_credit ∙ p4.gets up_credit) in
      let n4 : length (bolt.get d5 u down_credit) ≡ 8 = ap length (p5.gets down_credit) in
      let n5 : length (bolt.get d5 u expiry_time) ≡ 0 = ap length (
        p5.gets expiry_time
        ∙ p4.gets expiry_time
        ∙ p3.gets expiry_time
        ∙ p2.gets expiry_time
        ∙ p1.gets expiry_time
        ∙ kept u expiry_time
        ∙ bolt.get_absent db u expiry_time absent) in
      (
        d5,
        simp created (simp e1 (simp e2 (simp e3 (simp e4 (simp e5 refl))))),
        simp (stored, n1, n2, n3, n4, n5) refl,
        simp (stored, n0, n1, n2, n3, n4, n5) refl,
      )
