-- ===== src/Tests/Routes.antt =====
-- internal/server/usermanager/api_router.go: requests of an administrator.
use cloak.Prelude.{false, ◌≡◌, refl, Bytes, replicate, [], ◌∷◌, some}
use cloak.Server.UserManager.{ok, standing, authenticate_user, manager_is_void}
use cloak.Server.UserManager.Accounts.{full_info}
use cloak.Server.UserManager.Routes.{
  Codec, local_manager, void_manager, answered, json, user_error, no_info, write_user_info_hlr,
  get_user_info_hlr, list_all_users_hlr, http_error, write_header, write_body,
}
use cloak.Server.UserManager.Routes.Written.{answer_to, write_user_info_hlr-get_user_info_hlr}
use cloak.Tests.Users.{Table, created, table, nobody, alice, alice-InRange}

-- Paths and bodies are taken as they are.
abbrev codec : Codec
codec = record {
  decode_string = λ b. some b;
  marshal = λ i. i.uid;
  marshal_all = λ is. [];
  unmarshal = λ b. some (full_info alice);
}

abbrev other_path : Bytes
other_path = replicate 16 9

write_user_info_hlr-get_user_info_hlr_example :
    (d : Table) × (write_user_info_hlr codec (local_manager table) nobody other_path []
      ≡ answered (answer_to false) d)
    × (get_user_info_hlr codec (local_manager table) d alice.uid
        ≡ answered (record { status = some 200; body = json alice.uid ∷ [] }) d)
    × (authenticate_user table d alice.uid 4000 ≡ standing 100 200 5000 4000 (ok (10, 20)))
write_user_info_hlr-get_user_info_hlr_example =
    write_user_info_hlr-get_user_info_hlr table codec alice alice-InRange nobody
      (created nobody alice.uid) other_path [] other_path alice.uid 4000 refl refl refl refl refl
      refl

-- Without a database the list of users is refused, and a single user is the empty one.
list_of_void :
    list_all_users_hlr codec void_manager tt
    ≡ answered (record { status = some 500; body = user_error manager_is_void ∷ [] }) tt
unfolding list_all_users_hlr http_error write_header write_body
list_of_void = refl

user_of_void :
    get_user_info_hlr codec void_manager tt alice.uid
    ≡ answered (record { status = some 200; body = json no_info.uid ∷ [] }) tt
unfolding get_user_info_hlr http_error write_header write_body
user_of_void = refl
