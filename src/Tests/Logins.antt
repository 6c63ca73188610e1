-- ===== src/Tests/Logins.antt =====
-- internal/client/auth.go, and internal/server/auth.go, websocket.go and state.go at work.
use cloak.Prelude.{
  ℕ, ◌≡◌, refl, Bytes, replicate, [], ◌∷◌, ◌++◌, some, arith, byte_at, ap, ◌∙◌, ◌+◌, length,
  length-replicate, true,
}
use cloak.Client.Auth.{AuthInfo, AuthenticationPayload, make_authentication_payload}
use cloak.Server.WebSocket.{unmarshal_hidden}
use cloak.Server.Auth.Plaintext.{Fits, client_info}
use cloak.Server.Auth.Handshake.{auth_fragments-make_authentication_payload}
use cloak.Ecdh.{Curve, clamp, AesGcm, aes_gcm_decrypt}
use cloak.Server.Auth.{
  is_used, AuthFragments, ok, err, replay, info_of, decrypt_client_info, auth_fragments,
  clean_used_random, register_random,
}
use cloak.Server.Auth.Replay.{auth_all, replay_refused, replay_after_sweep}
use cloak.Tests.Ciphers.{tagging}

-- One cipher for keys of every size.
abbrev pub tagging_gcm : AesGcm
tagging_gcm = record { gcm = λ key. some tagging; gcm_32 = λ key h. (tagging, refl, refl) }

-- A client called 1, 1, ... that asks for the method 2, at 1000 seconds, in session 7.
abbrev pub plaintext : Bytes
plaintext =
    replicate 16 1
    ++ 2 ∷ replicate 11 0
    ++ 3 ∷ 0 ∷ 0 ∷ 0 ∷ 0 ∷ 0 ∷ 0 ∷ 3 ∷ 232 ∷ 0 ∷ 0 ∷ 0 ∷ 7 ∷ replicate 7 0

abbrev packet : AuthFragments
packet = record {
  shared_secret = replicate 32 4;
  rand_pub_key = replicate 32 5;
  ciphertext_with_tag = plaintext ++ replicate 16 9;
}

abbrev pub now : ℕ
now = 1_000_000_000_000

replay_refused_example :
    (auth_fragments tagging_gcm
      (auth_all tagging_gcm
        (auth_fragments tagging_gcm [] (ok packet) now).1
        ((ok (record packet { rand_pub_key = replicate 32 6 }), now) ∷ []))
      (ok packet)
      now).0
    ≡ err replay
replay_refused_example =
    replay_refused tagging_gcm [] packet packet now now
      ((ok (record packet { rand_pub_key = replicate 32 6 }), now) ∷ []) refl

replay_after_sweep_example :
    (auth_fragments tagging_gcm
      (clean_used_random now (auth_fragments tagging_gcm [] (ok packet) now).1)
      (ok packet)
      now).0
    ≡ ok (info_of plaintext)
unfolding auth_fragments decrypt_client_info aes_gcm_decrypt register_random
replay_after_sweep_example =
    replay_after_sweep tagging_gcm [] packet (info_of plaintext) now now now tt (omega arith) refl
      refl

pub length_secret :
    (a p s : Bytes) → some (replicate 32 (byte_at a 0 + byte_at p 0)) ≡ some s → length s ≡ 32
length_secret a p s e =
    let same : s ≡ replicate 32 (byte_at a 0 + byte_at p 0) = ground arith in
    ap length same ∙ length-replicate 32 (byte_at a 0 + byte_at p 0)

-- Keys of one byte that count, and are added to be exchanged.
abbrev pub adding : Curve
adding = record {
  scalar_base_mult = λ a. replicate 32 (byte_at a 0);
  x25519 = λ a p. some (replicate 32 (byte_at a 0 + byte_at p 0));
  length-scalar_base_mult = λ a. length-replicate 32 (byte_at a 0);
  length-x25519 = length_secret;
  agree = λ a b. ap (λ n. some (replicate 32 n)) (omega arith);
}

abbrev client : AuthInfo
client = record {
  uid = replicate 16 1;
  session_id = 7;
  proxy_method = 115 ∷ 115 ∷ [];
  encryption_method = 3;
  is_unordered = true;
  server_pub_key = replicate 32 8;
}

client-Fits : Fits client
client-Fits = record {
  uid_length = refl;
  proxy_method_length = omega arith;
  proxy_method_text = (omega arith, (omega arith, tt));
  session_id_lt = omega arith;
}

auth_fragments-make_authentication_payload_example :
    (p : AuthenticationPayload) × (make_authentication_payload adding tagging_gcm client
        (some (replicate 32 9))
        1000
      ≡ some (p, replicate 32 16))
    × (f : AuthFragments) × (unmarshal_hidden adding
          (p.rand_pub_key ++ p.ciphertext_with_tag)
          (replicate 32 8)
        ≡ ok f)
    × (f.shared_secret ≡ replicate 32 16)
    × ((auth_fragments tagging_gcm [] (ok f) now).0 ≡ ok (client_info client))
unfolding clamp is_used
auth_fragments-make_authentication_payload_example =
    auth_fragments-make_authentication_payload adding tagging_gcm client [] (replicate 32 9)
      (replicate 32 8) (replicate 32 16) 1000 now client-Fits refl refl refl refl
