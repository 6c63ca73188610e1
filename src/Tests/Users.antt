-- ===== src/Tests/Users.antt =====
-- internal/server/usermanager at work, on a database that is a function.
use mathlib.Core.Path.{subst}
use cloak.Prelude.{
  ◌≡◌, refl, ap, Bytes, replicate, Bool, true, false, List, [], ◌∷◌, Option, none, some, arith,
  if◌then◌else◌, leb, put_uint64,
}
use cloak.Server.Auth.{same_bytes}
use cloak.Server.Auth.Replay.{same_bytes_refl, same_bytes_eq}
use cloak.Server.UserManager.{
  ok, refused, panics, sessions_cap_reached, Field, same_key, Bolt, StatusUpdate, StatusResponse,
  standing, authenticate_user, authorise_new_session, get_user_info, upload_one, upload_status,
  write_user_info,
}
use cloak.Server.UserManager.Usage.{
  Complete, Paid, granted, is_empty, upload_status-Paid, upload_one-authenticate_user,
}
use cloak.Server.UserManager.Accounts.{
  Account, full_info, InRange, write_user_info-decides, write_user_info-panics,
}

-- The users, and the value of each key, nil in a bucket that is not there.
abbrev pub Table : Type 0
Table = (Bytes → Bool) × (Bytes → Field → Bytes)

abbrev pub get_in : Table → Bytes → Field → Bytes
get_in (users, value) u k = if users u then value u k else []

abbrev pub put_in : Table → Bytes → Field → Bytes → Option Table
put_in (users, value) u k v =
    if users u then some (users, λ w j. if same_key u k w j then v else value w j) else none

-- A new bucket is empty.
abbrev pub created : Table → Bytes → Table
created (users, value) u =
    ((λ w. if same_bytes u w then true else users w), λ w j. if users w then value w j else [])

abbrev pub Creates : Table → Bytes → Table → Type 0
Creates t u d = (d.0 u ≡ true) × ((w : Bytes) (j : Field) → get_in d w j ≡ get_in t w j)

abbrev pub or_else : Table → Option Table → Table
or_else t none = t
or_else t (some d) = d

pub create_in-Creates : (t d : Table) (u : Bytes) → some (created t u) ≡ some d → Creates t u d
create_in-Creates t d u h =
    subst (Creates t u) (ap (or_else (created t u)) h)
      (ground (arith, same_bytes_refl u), λ w j. ground arith)

abbrev pub table : Bolt
table = record {
  Db = Table;
  has_bucket = λ t u. t.0 u;
  get = get_in;
  put = put_in;
  create_bucket_if_not_exists = λ t u. some (created t u);
  delete_bucket = λ t u. some ((λ w. if same_bytes u w then false else t.0 w), t.1);
  uids = λ t. [];
  put_lem = λ t u k v h. (
    (t.0, λ w j. if same_key u k w j then v else t.1 w j),
    ground arith,
    (λ w j. ground (arith, same_bytes_eq u w)),
    λ w. refl,
  );
  create_lem = create_in-Creates;
  get_absent = λ t u k h. ground arith;
}

abbrev pub alice : Account
alice = record {
  uid = replicate 16 1;
  cap = 2;
  rate_up = 10;
  rate_down = 20;
  left_up = 100;
  left_down = 200;
  expiry = 5000;
}

pub alice-InRange : InRange alice
alice-InRange = record {
  uid_length = refl;
  cap_lt = omega arith;
  rate_up_lt = omega arith;
  rate_down_lt = omega arith;
  left_up_lt = omega arith;
  left_down_lt = omega arith;
  expiry_lt = omega arith;
}

-- A table without users, and one in which everybody has a hundred of everything.
abbrev pub nobody : Table
nobody = ((λ w. false), λ w j. [])

abbrev pub everybody : Table
everybody = ((λ w. true), λ w j. put_uint64 100)

pub everybody-Complete : Complete table everybody
unfolding put_uint64
everybody-Complete = record { words = λ u k h word. refl }

abbrev paid_up : List StatusUpdate
paid_up =
    record {
      uid = alice.uid;
      active = true;
      num_session = 1;
      up_usage = 30;
      down_usage = 100;
      timestamp = 4000;
    }
    ∷ []

write_user_info-decides_example :
    (d : Table) × (write_user_info table nobody (full_info alice) ≡ some d)
    × (get_user_info table d alice.uid ≡ ok (full_info alice))
    × (authenticate_user table d alice.uid 4000 ≡ standing 100 200 5000 4000 (ok (10, 20)))
    × (authorise_new_session table d alice.uid 2 4000
        ≡ standing 100 200 5000 4000 (if leb 2 2 then refused sessions_cap_reached else ok tt))
write_user_info-decides_example =
    write_user_info-decides table nobody (created nobody alice.uid) alice 2 4000 alice-InRange refl

write_user_info-panics_example :
    (d : Table) × (write_user_info table nobody (record (full_info alice) { expiry_time = none })
      ≡ some d)
    × (authenticate_user table d alice.uid 4000 ≡ panics)
    × (get_user_info table d alice.uid ≡ panics)
write_user_info-panics_example =
    write_user_info-panics table nobody (created nobody alice.uid) alice 4000 refl refl

upload_status-Paid_example :
    (rs : List StatusResponse) × (d : Table) × (upload_status table everybody paid_up 4000
      ≡ ok (rs, d))
    × Paid table everybody paid_up d
upload_status-Paid_example = upload_status-Paid table everybody paid_up 4000 everybody-Complete

upload_one-authenticate_user_example :
    let s : StatusUpdate = record {
      uid = alice.uid;
      active = true;
      num_session = 1;
      up_usage = 30;
      down_usage = 100;
      timestamp = 4000;
    } in
    (rs : List StatusResponse) × (d : Table) × (upload_one table everybody s 90 ≡ ok (rs, d))
    × (granted (authenticate_user table d s.uid 90) ≡ is_empty rs)
upload_one-authenticate_user_example =
    upload_one-authenticate_user table everybody
      (record {
        uid = alice.uid;
        active = true;
        num_session = 1;
        up_usage = 30;
        down_usage = 100;
        timestamp = 4000;
      })
      90 everybody-Complete
