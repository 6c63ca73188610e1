-- ===== src/Server/UserManager/Decisions.antt =====
-- internal/server/usermanager/localmanager.go: which users an upload tells to terminate.
use cloak.Prelude.{
  ℕ, ◌≡◌, refl, Bytes, Bool, true, false, not, ◌||◌, ◌&&◌, length, to_array, to_array_exact, List,
  [], ◌∷◌, ◌++◌, arith, Bool-cases, inl, inr,
}
use cloak.Server.Auth.{same_bytes}
use cloak.Server.Auth.Replay.{same_bytes_refl, same_bytes_eq}
use cloak.Server.UserManager.{
  ok, up_rate, down_rate, up_credit, down_credit, expiry_time, Bolt, StatusUpdate, StatusResponse,
  not_positive, signed_lt, authenticate_user, respond_if, no_longer_exists, upload_one,
  upload_status,
}
use cloak.Server.UserManager.Usage.{Complete, granted, word_of, responses_to, upload_one-Charged}

-- A response that the user panel takes for the user `w`.
abbrev pub mentions : Bytes → List StatusResponse → Bool
mentions w [] = false
mentions w (r ∷ rs) = same_bytes (to_array 16 r.uid) w || mentions w rs

abbrev pub has_status : Bytes → List StatusUpdate → Bool
has_status w [] = false
has_status w (s ∷ ss) = same_bytes s.uid w || has_status w ss

-- Statuses of different users, whose UIDs have 16 bytes.
abbrev pub OneEach : List StatusUpdate → Type 0
OneEach [] = Unit {0}
OneEach (s ∷ ss) = (length s.uid ≡ 16) × (has_status s.uid ss ≡ false) × OneEach ss

mentions-append :
    (w : Bytes) (rs ts : List StatusResponse)
    → mentions w (rs ++ ts) ≡ (mentions w rs || mentions w ts)
mentions-append w [] ts = refl
mentions-append w (r ∷ rs) ts = ground (arith, mentions-append w rs ts)

module _ (bolt : Bolt) where
  -- Whether a user may connect, by the words in the database.
  abbrev may_connect : bolt.Db → Bytes → ℕ → Bool
  may_connect db w now =
      bolt.has_bucket db w
      && (not (not_positive (word_of bolt db w up_credit))
          && (not (not_positive (word_of bolt db w down_credit))
              && not (signed_lt (word_of bolt db w expiry_time) now)))

  granted-may_connect :
      (db : bolt.Db) (w : Bytes) (now : ℕ)
      → Complete bolt db
      → granted (authenticate_user bolt db w now) ≡ may_connect db w now
  unfolding authenticate_user
  granted-may_connect db w now c = elim (Bool-cases (bolt.has_bucket db w)) [
    | inl has ↦ ground (
      arith,
      has,
      c.words w up_rate has refl,
      c.words w down_rate has refl,
      c.words w up_credit has refl,
      c.words w down_credit has refl,
      c.words w expiry_time has refl,
    )
    | inr absent ↦ ground (arith, absent)
  ]

  -- What one status does for its user, and for the others.
  record Answered (db : bolt.Db) (s : StatusUpdate) (now : ℕ) (rs : List StatusResponse)
      (d : bolt.Db) : Type 0 where
    complete : Complete bolt d
    own : mentions s.uid rs ≡ not (may_connect d s.uid now)
    others :
        (w : Bytes)
        → same_bytes s.uid w ≡ false
        → (mentions w rs ≡ false) × (may_connect d w now ≡ may_connect db w now)

  upload_one-Answered :
      (db : bolt.Db) (s : StatusUpdate) (now : ℕ)
      → Complete bolt db
      → length s.uid ≡ 16
      → (rs : List StatusResponse) × (d : bolt.Db) × (upload_one bolt db s now ≡ ok (rs, d))
        × Answered db s now rs d
  unfolding upload_one
  upload_one-Answered db s now c size =
      let u = s.uid in
      let exact = to_array_exact 16 u size in
      elim (Bool-cases (bolt.has_bucket db u)) [
        | inl has ↦
            let (d, charged, run) = upload_one-Charged bolt db s now c has in
            (
              responses_to bolt u (word_of bolt d u up_credit) (word_of bolt d u down_credit)
                  (word_of bolt d u expiry_time) now,
              d,
              run,
              record {
                complete = charged.complete;
                own = ground (arith, exact, same_bytes_refl u, charged.same_users u);
                others = λ w other. (
                  ground (arith, exact),
                  ground
                      (arith, charged.same_users w, charged.up w, charged.down w, charged.expiry w),
                );
              },
            )
        | inr absent ↦ (
          respond_if true u no_longer_exists,
          db,
          ground arith,
          record {
            complete = c;
            own = ground (arith, exact, same_bytes_refl u);
            others = λ w other. (ground (arith, exact), refl);
          },
        )
      ]

  -- An upload of statuses of different users mentions a user with a status exactly if that user may
  -- not connect after it; it says nothing of the others, and changes nothing for them.
  pub upload_status-decides :
      (db : bolt.Db) (ss : List StatusUpdate) (now : ℕ)
      → Complete bolt db
      → OneEach ss
      → (rs : List StatusResponse) × (d : bolt.Db) × (upload_status bolt db ss now ≡ ok (rs, d))
        × Complete bolt d
        × ((w : Bytes)
            → (mentions w rs ≡ (has_status w ss && not (granted (authenticate_user bolt d w now))))
              × (has_status w ss ≡ false
                  → granted (authenticate_user bolt d w now)
                    ≡ granted (authenticate_user bolt db w now)))
  unfolding upload_status
  upload_status-decides db [] now c one = ([], db, refl, c, λ w. (refl, λ h. refl))
  upload_status-decides db (s ∷ ss) now c (size, absent, one) =
      let (rs, d, run, a) = upload_one-Answered db s now c size in
      let (ts, d', run', c', decides) = upload_status-decides d ss now a.complete one in
      (
        rs ++ ts,
        d',
        ground (arith, run, run'),
        c',
        λ w.
            let (later, same) = decides w in
            let joined = mentions-append w rs ts in
            let before = granted-may_connect db w now c in
            let between = granted-may_connect d w now a.complete in
            elim (Bool-cases (same_bytes s.uid w)) [
              | inl own ↦
                  let e = same_bytes_eq s.uid w own in
                  let none_later : has_status w ss ≡ false = rw e at absent in
                  let answered : mentions w rs ≡ not (may_connect d w now) = rw e at a.own in
                  (
                    ground
                        (arith, joined, later, same none_later, answered, between, own, none_later),
                    λ h. absurd (ground (arith, own, h)),
                  )
              | inr other ↦
                  let (silent, kept) = a.others w other in
                  (
                    ground (arith, joined, later, silent, other),
                    λ h. ground (arith, same, kept, before, between, other, h),
                  )
            ],
      )
