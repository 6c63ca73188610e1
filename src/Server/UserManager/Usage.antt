-- ===== src/Server/UserManager/Usage.antt =====
-- internal/server/usermanager/localmanager.go: what an upload of usage does to the credit that the
-- users have left.
use mathlib.Core.Path.{subst, ap₂}
use cloak.Prelude.{
  ℕ, ◌+◌, ◌%◌, ◌^◌, ◌≡◌, ◌<◌, refl, sym, ap, ◌∙◌, Bytes, Bool, true, false, length, put_uint64,
  uint64, List, [], ◌∷◌, ◌++◌, leb, if◌then◌else◌, arith, Bool-cases, inl, inr, uint64-put_uint64,
  append-nil,
}
use cloak.Server.Auth.{same_bytes}
use cloak.Server.Auth.Replay.{same_bytes_refl, same_bytes_eq}
use cloak.Server.UserManager.{
  Outcome, ok, refused, panics, Field, up_rate, down_rate, up_credit, down_credit, expiry_time,
  field_no, same_key, Bolt, StatusUpdate, StatusResponse, no_upload_credit_left,
  no_download_credit_left, has_expired, no_longer_exists, not_positive, signed_lt, minus64,
  with_u64, authenticate_user, put_logged, respond_if, upload_one, upload_status,
}

-- The fields of a user that are 64-bit words.
abbrev pub is_word : Field → Bool
is_word k = leb 1 (field_no k)

-- Whether a request is granted, and whether nothing is to be done.
abbrev pub granted {ℓ} : {A : Type ℓ} → Outcome A → Bool
granted (ok x) = true
granted (refused e) = false
granted panics = false

abbrev pub is_empty {ℓ} : {A : Type ℓ} → List A → Bool
is_empty [] = true
is_empty (x ∷ xs) = false

-- The bytes that a list of statuses reports for a user.
abbrev pub up_usage_of : Bytes → List StatusUpdate → ℕ
up_usage_of u [] = 0
up_usage_of u (s ∷ rest) = (if same_bytes s.uid u then s.up_usage else 0) + up_usage_of u rest

abbrev pub down_usage_of : Bytes → List StatusUpdate → ℕ
down_usage_of u [] = 0
down_usage_of u (s ∷ rest) = (if same_bytes s.uid u then s.down_usage else 0) + down_usage_of u rest

module _ (bolt : Bolt) where
  -- Every user in the database has all of its words.
  pub record Complete (db : bolt.Db) : Type 0 where
    pub words :
        (u : Bytes) (k : Field)
        → bolt.has_bucket db u ≡ true
        → is_word k ≡ true
        → length (bolt.get db u k) ≡ 8

  abbrev pub word_of : bolt.Db → Bytes → Field → ℕ
  word_of db u k = uint64 (bolt.get db u k) 0

  -- What one put of a word changes.
  record Put (db : bolt.Db) (u : Bytes) (k : Field) (v : ℕ) (d : bolt.Db) : Type 0 where
    same_users : (w : Bytes) → bolt.has_bucket d w ≡ bolt.has_bucket db w
    gets :
        (w : Bytes) (j : Field)
        → bolt.get d w j ≡ (if same_key u k w j then put_uint64 v else bolt.get db w j)
    complete : Complete db → Complete d

  length-put_uint64 : (v : ℕ) → length (put_uint64 v) ≡ 8
  unfolding put_uint64
  length-put_uint64 v = refl

  put_logged-Put :
      (db : bolt.Db) (u : Bytes) (k : Field) (v : ℕ)
      → bolt.has_bucket db u ≡ true
      → Put db u k v (put_logged bolt db u k v)
  put_logged-Put db u k v has =
      let (d, done, gets', users) = bolt.put_lem db u k (put_uint64 v) has in
      let e : put_logged bolt db u k v ≡ d = ground arith in
      subst (Put db u k v) (sym e) (record {
        same_users = users;
        gets = gets';
        complete = λ c. record {
          words =
              λ w j h word. ground (arith, gets' w j, users w, c.words w j, length-put_uint64 v);
        };
      })

  -- What one status makes of the database: the two credits of its user.
  pub record Charged (db : bolt.Db) (s : StatusUpdate) (d : bolt.Db) : Type 0 where
    pub same_users : (w : Bytes) → bolt.has_bucket d w ≡ bolt.has_bucket db w
    pub complete : Complete d
    pub up :
        (w : Bytes)
        → word_of d w up_credit ≡ (
            if same_bytes s.uid w
            then minus64 (word_of db s.uid up_credit) s.up_usage
            else word_of db w up_credit)
    pub down :
        (w : Bytes)
        → word_of d w down_credit ≡ (
            if same_bytes s.uid w
            then minus64 (word_of db s.uid down_credit) s.down_usage
            else word_of db w down_credit)
    pub expiry : (w : Bytes) → word_of d w expiry_time ≡ word_of db w expiry_time

  minus64_lt : (a b : ℕ) → minus64 a b < 2 ^ 64
  minus64_lt a b = omega arith

  word_of-put : (v : ℕ) → v < 2 ^ 64 → uint64 (put_uint64 v) 0 ≡ v
  word_of-put v h =
      ap (λ b. uint64 b 0) (sym (append-nil (put_uint64 v))) ∙ uint64-put_uint64 v [] h

  word_of-Put :
      (db d : bolt.Db) (u : Bytes) (k : Field) (v : ℕ)
      → Put db u k v d
      → v < 2 ^ 64
      → (w : Bytes) (j : Field) → word_of d w j ≡ (if same_key u k w j then v else word_of db w j)
  word_of-Put db d u k v p h w j = ground (arith, p.gets w j, word_of-put v h)

  with_u64-word :
      {A : Type 0} (b : Bytes) (k : ℕ → Outcome A) → length b ≡ 8 → with_u64 b k ≡ k (uint64 b 0)
  with_u64-word b k h = ground arith

  -- The responses to a status, for a user with these words after it.
  abbrev pub responses_to : Bytes → ℕ → ℕ → ℕ → ℕ → List StatusResponse
  responses_to u up down expiry now =
      respond_if (not_positive up) u no_upload_credit_left
      ++ (respond_if (not_positive down) u no_download_credit_left
          ++ respond_if (signed_lt expiry now) u has_expired)

  pub upload_one-Charged :
      (db : bolt.Db) (s : StatusUpdate) (now : ℕ)
      → Complete db
      → bolt.has_bucket db s.uid ≡ true
      → (d : bolt.Db) × Charged db s d
        × (upload_one bolt db s now
            ≡ ok (
              responses_to s.uid
                  (word_of d s.uid up_credit)
                  (word_of d s.uid down_credit)
                  (word_of d s.uid expiry_time)
                  now,
              d,
            ))
  unfolding upload_one
  upload_one-Charged db s now c has =
      let u = s.uid in
      let up' = minus64 (word_of db u up_credit) s.up_usage in
      let d1 = put_logged bolt db u up_credit up' in
      let p1 = put_logged-Put db u up_credit up' has in
      let has1 = p1.same_users u ∙ has in
      let c1 = p1.complete c in
      let down' = minus64 (word_of d1 u down_credit) s.down_usage in
      let d2 = put_logged bolt d1 u down_credit down' in
      let p2 = put_logged-Put d1 u down_credit down' has1 in
      let has2 = p2.same_users u ∙ has1 in
      let c2 = p2.complete c1 in
      let w1 =
        word_of-Put db d1 u up_credit up' p1 (minus64_lt (word_of db u up_credit) s.up_usage) in
      let w2 =
        word_of-Put d1 d2 u down_credit down' p2
          (minus64_lt (word_of d1 u down_credit) s.down_usage) in
      let up_at : (w : Bytes)
          → word_of d2 w up_credit ≡ (if same_bytes u w then up' else word_of db w up_credit) =
        λ w. ground (arith, w2 w up_credit, w1 w up_credit) in
      let down_at : (w : Bytes)
          → word_of d2 w down_credit ≡ (
              if same_bytes u w
              then minus64 (word_of db u down_credit) s.down_usage
              else word_of db w down_credit) =
        λ w. ground (arith, w2 w down_credit, w1 w down_credit, w1 u down_credit) in
      let expiry_at : (w : Bytes) → word_of d2 w expiry_time ≡ word_of db w expiry_time =
        λ w. ground (arith, w2 w expiry_time, w1 w expiry_time) in
      let new_up : up' ≡ word_of d2 u up_credit = ground (arith, up_at u, same_bytes_refl u) in
      let new_down : down' ≡ word_of d2 u down_credit =
        ground (arith, w2 u down_credit, same_bytes_refl u) in
      let answer : ℕ → ℕ → Outcome (List StatusResponse × bolt.Db) =
        λ up down. ok (responses_to u up down (word_of d2 u expiry_time) now, d2) in
      (
        d2,
        record {
          same_users = λ w. p2.same_users w ∙ p1.same_users w;
          complete = c2;
          up = up_at;
          down = down_at;
          expiry = expiry_at;
        },
        simp has (
            simp (c.words u up_credit has refl) (
              simp (c1.words u down_credit has1 refl)
                (simp (c2.words u expiry_time has2 refl) (ap₂ answer new_up new_down)))),
      )

  -- Between two databases every user has paid what the statuses report of them, modulo 2^64.
  pub record Paid (db : bolt.Db) (ss : List StatusUpdate) (d : bolt.Db) : Type 0 where
    pub same_users : (w : Bytes) → bolt.has_bucket d w ≡ bolt.has_bucket db w
    pub complete : Complete d
    pub up :
        (u : Bytes)
        → bolt.has_bucket db u ≡ true
        → (word_of d u up_credit + up_usage_of u ss) % 2 ^ 64 ≡ word_of db u up_credit % 2 ^ 64
    pub down :
        (u : Bytes)
        → bolt.has_bucket db u ≡ true
        → (word_of d u down_credit + down_usage_of u ss) % 2 ^ 64
          ≡ word_of db u down_credit % 2 ^ 64

  minus64-add : (a b : ℕ) → (minus64 a b + b) % 2 ^ 64 ≡ a % 2 ^ 64
  minus64-add a b = omega arith

  charge_then :
      (a b c rest : ℕ)
      → (c + rest) % 2 ^ 64 ≡ minus64 a b % 2 ^ 64
      → (c + (b + rest)) % 2 ^ 64 ≡ a % 2 ^ 64
  charge_then a b c rest h = omega arith

  -- One status, of a user who exists or not.
  upload_one-Paid :
      (db : bolt.Db) (s : StatusUpdate) (now : ℕ)
      → Complete db
      → (rs : List StatusResponse) × (d : bolt.Db) × (upload_one bolt db s now ≡ ok (rs, d))
        × Paid db (s ∷ []) d
  unfolding upload_one
  upload_one-Paid db s now c = elim (Bool-cases (bolt.has_bucket db s.uid)) [
    | inl has ↦
        let (d, charged, run) = upload_one-Charged db s now c has in
        (
          responses_to s.uid (word_of d s.uid up_credit) (word_of d s.uid down_credit)
              (word_of d s.uid expiry_time) now,
          d,
          run,
          record {
            same_users = charged.same_users;
            complete = charged.complete;
            up = λ u h. ground (
              arith,
              charged.up u,
              same_bytes_eq s.uid u,
              minus64-add (word_of db s.uid up_credit) s.up_usage,
            );
            down = λ u h. ground (
              arith,
              charged.down u,
              same_bytes_eq s.uid u,
              minus64-add (word_of db s.uid down_credit) s.down_usage,
            );
          },
        )
    | inr absent ↦ (
      respond_if true s.uid no_longer_exists,
      db,
      ground arith,
      record {
        same_users = λ w. refl;
        complete = c;
        up = λ u h. ground (arith, same_bytes_eq s.uid u);
        down = λ u h. ground (arith, same_bytes_eq s.uid u);
      },
    )
  ]

  -- An upload of any statuses to a database whose users are complete succeeds, and leaves it
  -- complete, with the same users; each user's two credits have gone down by all that the statuses
  -- report of that user, modulo 2^64.
  pub upload_status-Paid :
      (db : bolt.Db) (ss : List StatusUpdate) (now : ℕ)
      → Complete db
      → (rs : List StatusResponse) × (d : bolt.Db) × (upload_status bolt db ss now ≡ ok (rs, d))
        × Paid db ss d
  unfolding upload_status
  upload_status-Paid db [] now c = (
    [],
    db,
    refl,
    record {
      same_users = λ w. refl;
      complete = c;
      up = λ u h. omega arith;
      down = λ u h. omega arith;
    },
  )
  upload_status-Paid db (s ∷ ss) now c =
      let (rs, d, run, p) = upload_one-Paid db s now c in
      let (later, d', run', p') = upload_status-Paid d ss now p.complete in
      (
        rs ++ later,
        d',
        ground (arith, run, run'),
        record {
          same_users = λ w. p'.same_users w ∙ p.same_users w;
          complete = p'.complete;
          up = λ u h. omega (arith, p.up u h, p'.up u (p.same_users u ∙ h));
          down = λ u h. omega (arith, p.down u h, p'.down u (p.same_users u ∙ h));
        },
      )

  -- A status whose user is not told to be terminated is one whose user may go on connecting: the
  -- upload answers with no response exactly if the same user is authenticated after it, at the same
  -- time. The users in the database are complete.
  pub upload_one-authenticate_user :
      (db : bolt.Db) (s : StatusUpdate) (now : ℕ)
      → Complete db
      → (rs : List StatusResponse) × (d : bolt.Db) × (upload_one bolt db s now ≡ ok (rs, d))
        × (granted (authenticate_user bolt d s.uid now) ≡ is_empty rs)
  unfolding upload_one authenticate_user
  upload_one-authenticate_user db s now c = elim (Bool-cases (bolt.has_bucket db s.uid)) [
    | inl has ↦
        let (d, charged, run) = upload_one-Charged db s now c has in
        let u = s.uid in
        let has' = charged.same_users u ∙ has in
        let w = charged.complete.words u in
        (
          responses_to u (word_of d u up_credit) (word_of d u down_credit) (word_of d u expiry_time)
              now,
          d,
          run,
          ground (
            arith,
            has',
            w up_rate has' refl,
            w down_rate has' refl,
            w up_credit has' refl,
            w down_credit has' refl,
            w expiry_time has' refl,
          ),
        )
    | inr absent ↦ (respond_if true s.uid no_longer_exists, db, ground arith, ground arith)
  ]
