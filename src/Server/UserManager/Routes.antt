-- ===== src/Server/UserManager/Routes.antt =====
-- internal/server/usermanager/api_router.go: the handlers of the admin session, over the interface
-- UserManager. The names of the paths are taken apart by gorilla/mux.
pub mod Written
use cloak.Prelude.{
  ℕ, Bytes, is_nil, same_bytes, List, [], ◌∷◌, ◌++◌, Option, none, some, if◌then◌else◌,
}
use cloak.Server.UserManager.{
  UserError, Outcome, ok, refused, panics, user_not_found, manager_is_void, database_error, Bolt,
  UserInfo, get_user_info, list_all_users, write_user_info, delete_user,
}

-- The part of the interface UserManager that the handlers call.
pub record Manager (D : Type 0) : Type 0 where
  pub list_all_users : D → Outcome (List UserInfo)
  pub get_user_info : D → Bytes → Outcome UserInfo
  pub write_user_info : D → UserInfo → Outcome D
  pub delete_user : D → Bytes → Outcome D

abbrev or_database_error {ℓ} : {D : Type ℓ} → Option D → Outcome D
or_database_error none = refused database_error
or_database_error (some d) = ok d

abbrev pub local_manager : (bolt : Bolt) → Manager bolt.Db
local_manager bolt = record {
  list_all_users = λ db. list_all_users bolt db;
  get_user_info = λ db u. get_user_info bolt db u;
  write_user_info = λ db i. or_database_error (write_user_info bolt db i);
  delete_user = λ db u. or_database_error (delete_user bolt db u);
}

abbrev pub void_manager : Manager (Unit {0})
void_manager = record {
  list_all_users = λ d. refused manager_is_void;
  get_user_info = λ d u. refused manager_is_void;
  write_user_info = λ d i. refused manager_is_void;
  delete_user = λ d u. refused manager_is_void;
}

-- `base64.URLEncoding.DecodeString`, and encoding/json for users.
pub record Codec : Type 0 where
  pub decode_string : Bytes → Option Bytes
  pub marshal : UserInfo → Bytes
  pub marshal_all : List UserInfo → Bytes
  pub unmarshal : Bytes → Option UserInfo

-- What is written into the body of a response.
pub data Said : Type 0 where
  uid_empty bad_base64 bad_json uid_mismatch : Said
  user_error : UserError → Said
  json : Bytes → Said

-- net/http: the first status counts, and a body without one makes it 200.
pub record Response : Type 0 where
  pub status : Option ℕ
  pub body : List Said

abbrev pub silent : Response
silent = record { status = none; body = [] }

abbrev first_status : Option ℕ → ℕ → Option ℕ
first_status none code = some code
first_status (some old) code = some old

unfoldable pub write_header : Response → ℕ → Response
write_header r code = record r { status = first_status r.status code }

unfoldable pub write_body : Response → Said → Response
unfolding write_header
write_body r said = record (write_header r 200) { body = r.body ++ said ∷ [] }

unfoldable pub http_error : Response → Said → ℕ → Response
unfolding write_body
http_error r said code = write_body (write_header r code) said

pub data Handled (D : Type 0) : Type 0 where
  answered : Response → D → Handled D
  handler_panics : Handled D

-- The zero UserInfo.
abbrev pub no_info : UserInfo
no_info = record {
  uid = [];
  sessions_cap = none;
  up_rate = none;
  down_rate = none;
  up_credit = none;
  down_credit = none;
  expiry_time = none;
}

module _ (codec : Codec) {D : Type 0} (manager : Manager D) where
  unfoldable pub list_all_users_hlr : D → Handled D
  unfolding http_error
  list_all_users_hlr d = elim (manager.list_all_users d) [
    | ok infos ↦ answered (write_body silent (json (codec.marshal_all infos))) d
    | refused e ↦ answered (http_error silent (user_error e) 500) d
    | panics ↦ handler_panics
  ]

  -- An empty UID is answered, and then looked up. Only `user_not_found` is taken for an error.
  unfoldable pub get_user_info_hlr : D → Bytes → Handled D
  unfolding http_error
  get_user_info_hlr d b64_uid =
      let r = if is_nil b64_uid then http_error silent uid_empty 400 else silent in
      elim (codec.decode_string b64_uid) [
        | none ↦ answered (http_error r bad_base64 400) d
        | some uid ↦ elim (manager.get_user_info d uid) [
          | ok info ↦ answered (write_body r (json (codec.marshal info))) d
          | refused e ↦ elim e [
            | user_not_found ↦ answered (http_error r (user_error user_not_found) 404) d
            | _ ↦ answered (write_body r (json (codec.marshal no_info))) d
          ]
          | panics ↦ handler_panics
        ]
      ]

  -- What follows the comparison of the UIDs, which does not return.
  unfoldable pub write_and_answer : D → Response → UserInfo → Handled D
  unfolding http_error
  write_and_answer d r info = elim (manager.write_user_info d info) [
    | ok d' ↦ answered (write_header r 201) d'
    | refused e ↦ answered (write_header (http_error r (user_error e) 500) 201) d
    | panics ↦ handler_panics
  ]

  unfoldable pub write_user_info_hlr : D → Bytes → Bytes → Handled D
  unfolding write_and_answer
  write_user_info_hlr d b64_uid body =
      if is_nil b64_uid
      then answered (http_error silent uid_empty 400) d
      else elim (codec.decode_string b64_uid) [
        | none ↦ answered (http_error silent bad_base64 400) d
        | some uid ↦ elim (codec.unmarshal body) [
          | none ↦ answered (http_error silent bad_json 400) d
          | some info ↦
              write_and_answer d
                (if same_bytes uid info.uid then silent else http_error silent uid_mismatch 400)
                info
        ]
      ]

  unfoldable pub delete_user_hlr : D → Bytes → Handled D
  unfolding http_error
  delete_user_hlr d b64_uid =
      if is_nil b64_uid
      then answered (http_error silent uid_empty 400) d
      else elim (codec.decode_string b64_uid) [
        | none ↦ answered (http_error silent bad_base64 400) d
        | some uid ↦ elim (manager.delete_user d uid) [
          | ok d' ↦ answered (write_header silent 200) d'
          | refused e ↦ answered (write_header (http_error silent (user_error e) 500) 200) d
          | panics ↦ handler_panics
        ]
      ]
