-- ===== src/Server/UserManager/Routes/Written.antt =====
-- internal/server/usermanager/api_router.go: a user that is posted, and then asked for.
use cloak.Prelude.{◌≡◌, Bytes, Bool, true, false, is_nil, same_bytes, some, [], ◌∷◌, arith, ℕ}
use cloak.Server.UserManager.{Bolt, ok, standing, authenticate_user, get_user_info, write_user_info}
use cloak.Server.UserManager.Accounts.{Account, full_info, InRange, write_user_info-decides}
use cloak.Server.UserManager.Routes.{
  Codec, local_manager, Response, answered, json, uid_mismatch, http_error, write_header,
  write_body, write_and_answer, write_user_info_hlr, get_user_info_hlr,
}

abbrev pub answer_to : Bool → Response
answer_to true = record { status = some 201; body = [] }
answer_to false = record { status = some 400; body = uid_mismatch ∷ [] }

module _ (bolt : Bolt) (codec : Codec) (a : Account) (r : InRange a) where
  post_lem :
      (db d : bolt.Db) (b64_uid body uid : Bytes)
      → is_nil b64_uid ≡ false
      → codec.decode_string b64_uid ≡ some uid
      → codec.unmarshal body ≡ some (full_info a)
      → write_user_info bolt db (full_info a) ≡ some d
      → write_user_info_hlr codec (local_manager bolt) db b64_uid body
        ≡ answered (answer_to (same_bytes uid a.uid)) d
  unfolding write_user_info_hlr write_and_answer http_error write_header write_body
  post_lem db d b64_uid body uid given decoded parsed written =
      ground (arith, given, decoded, parsed, written)

  get_lem :
      (d : bolt.Db) (b64_uid : Bytes)
      → is_nil b64_uid ≡ false
      → codec.decode_string b64_uid ≡ some a.uid
      → get_user_info bolt d a.uid ≡ ok (full_info a)
      → get_user_info_hlr codec (local_manager bolt) d b64_uid
        ≡ answered (record { status = some 200; body = json (codec.marshal (full_info a)) ∷ [] }) d
  unfolding get_user_info_hlr http_error write_header write_body
  get_lem d b64_uid given decoded found = ground (arith, given, decoded, found)

  -- Let a request post all fields of a user, with numbers that fit their words, to the path of any
  -- UID. The user is stored, so that a request for this user gets the same fields, and may connect as
  -- they say. The answer is 201 if the path has the same UID; if it has another, it is 400 with a
  -- mismatch, and the user is stored all the same.
  pub write_user_info_hlr-get_user_info_hlr :
      (db db' : bolt.Db) (b64_uid body uid own_path : Bytes) (now : ℕ)
      → is_nil b64_uid ≡ false
      → codec.decode_string b64_uid ≡ some uid
      → codec.unmarshal body ≡ some (full_info a)
      → is_nil own_path ≡ false
      → codec.decode_string own_path ≡ some a.uid
      → bolt.create_bucket_if_not_exists db a.uid ≡ some db'
      → (d : bolt.Db) × (write_user_info_hlr codec (local_manager bolt) db b64_uid body
          ≡ answered (answer_to (same_bytes uid a.uid)) d)
        × (get_user_info_hlr codec (local_manager bolt) d own_path
            ≡ answered
                (record { status = some 200; body = json (codec.marshal (full_info a)) ∷ [] })
                d)
        × (authenticate_user bolt d a.uid now
            ≡ standing a.left_up a.left_down a.expiry now (ok (a.rate_up, a.rate_down)))
  write_user_info_hlr-get_user_info_hlr db db' b64_uid body uid own_path now given decoded parsed
        own_given own_decoded created =
      let (d, written, found, connects, opens) =
        write_user_info-decides bolt db db' a 0 now r created in
      (
        d,
        post_lem db d b64_uid body uid given decoded parsed written,
        get_lem d own_path own_given own_decoded found,
        connects,
      )
