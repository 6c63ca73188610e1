-- ===== src/Server/Auth/Handshake.antt =====
-- internal/client/auth.go against internal/server/auth.go and websocket.go: the server recovers
-- what the client says of itself.

use cloak.Prelude.{
  ℕ, ◌^◌, ◌<◌, ◌≡◌, refl, ap, sym, ◌∙◌, Bytes, true, false, ◌++◌, Option, some, length, take, drop,
  arith, to_array, to_array_exact, take-append, drop-append, length-append, length-take,
  length-drop,
}
use cloak.Ecdh.{
  Curve, AesGcm, clamp, generate_key, unmarshal, generate_shared_secret, aes_gcm_encrypt,
  aes_gcm_decrypt, aes_gcm_decrypt-encrypt,
}
use cloak.Client.Auth.{AuthInfo, plaintext_of, make_authentication_payload, AuthenticationPayload}
use cloak.Server.Auth.{
  ClientInfo, AuthFragments, ok, in_window, decrypt_client_info, UsedRandom, is_used,
  register_random, auth_fragments,
}
use cloak.Server.WebSocket.{unmarshal_hidden}
use cloak.Server.Auth.Plaintext.{
  Fits, client_info, plaintext_of-Reads, decrypt_client_info-plaintext_of,
}

-- Both sides make the same secret, and the payload's ciphertext is the plaintext's.
record Sealed (aes : AesGcm) (a : AuthInfo) (now : ℕ) (p : AuthenticationPayload) (key : Bytes)
    : Type 0 where
  key_length : length p.rand_pub_key ≡ 32
  sealed_length : length p.ciphertext_with_tag ≡ 64
  opens :
      aes_gcm_decrypt aes (take 12 p.rand_pub_key) key p.ciphertext_with_tag
      ≡ some (plaintext_of a now)

make_authentication_payload-some :
    (curve : Curve) (aes : AesGcm) (a : AuthInfo) (random secret sealed : Bytes) (now : ℕ)
    → curve.x25519 (clamp random) a.server_pub_key ≡ some secret
    → aes_gcm_encrypt aes
        (take 12 (to_array 32 (curve.scalar_base_mult (clamp random))))
        (to_array 32 secret)
        (plaintext_of a now)
      ≡ some sealed
    → make_authentication_payload curve aes a (some random) now
      ≡ some (
        record {
          rand_pub_key = to_array 32 (curve.scalar_base_mult (clamp random));
          ciphertext_with_tag = to_array 64 sealed;
        },
        to_array 32 secret,
      )
unfolding make_authentication_payload generate_key generate_shared_secret
make_authentication_payload-some curve aes a random secret sealed now agreed enc =
    ground (arith, agreed, enc)

abbrev paired : Bytes → Bytes → Bytes → Option (AuthenticationPayload × Bytes)
paired key sealed secret =
    some (record { rand_pub_key = key; ciphertext_with_tag = sealed }, secret)

make_authentication_payload-Sealed :
    (curve : Curve) (aes : AesGcm) (a : AuthInfo) (random secret : Bytes) (now : ℕ)
    → length (plaintext_of a now) ≡ 48
    → curve.x25519 (clamp random) a.server_pub_key ≡ some secret
    → (p : AuthenticationPayload) × (make_authentication_payload curve aes a (some random) now
        ≡ some (p, secret))
      × (p.rand_pub_key ≡ curve.scalar_base_mult (clamp random))
      × Sealed aes a now p secret
make_authentication_payload-Sealed curve aes a random secret now size agreed =
    let pub_key = curve.scalar_base_mult (clamp random) in
    let pub_length = curve.length-scalar_base_mult (clamp random) in
    let secret_length = curve.length-x25519 (clamp random) a.server_pub_key secret agreed in
    let nonce_length : length (take 12 pub_key) ≡ 12 = omega (arith, length-take 12 pub_key) in
    let (sealed, enc_ok, dec_ok, longer) =
      aes_gcm_decrypt-encrypt aes (take 12 pub_key) secret (plaintext_of a now) nonce_length
        secret_length in
    let sealed_length : length sealed ≡ 64 = omega arith in
    let same_key = to_array_exact 32 pub_key pub_length in
    let same_secret = to_array_exact 32 secret secret_length in
    let same_sealed = to_array_exact 64 sealed sealed_length in
    (
      record { rand_pub_key = pub_key; ciphertext_with_tag = sealed },
      make_authentication_payload-some curve aes a random secret sealed now agreed (
            ap (λ k. aes_gcm_encrypt aes (take 12 k) (to_array 32 secret) (plaintext_of a now))
              same_key
            ∙ ap (λ s. aes_gcm_encrypt aes (take 12 pub_key) s (plaintext_of a now)) same_secret
            ∙ enc_ok)
          ∙ ap (λ k. paired k (to_array 64 sealed) (to_array 32 secret)) same_key
          ∙ ap (λ c. paired pub_key c (to_array 32 secret)) same_sealed
          ∙ ap (paired pub_key sealed) same_secret,
      refl,
      record { key_length = pub_length; sealed_length = sealed_length; opens = dec_ok },
    )

-- The server's view of a key and a ciphertext of the right lengths.
abbrev fragments_of : Bytes → Bytes → Bytes → AuthFragments
fragments_of secret key sealed = record {
  shared_secret = secret;
  rand_pub_key = key;
  ciphertext_with_tag = sealed;
}

unmarshal-some : (b : Bytes) → length b ≡ 32 → unmarshal b ≡ some (to_array 32 b)
unfolding unmarshal
unmarshal-some b h = ground arith

unmarshal_hidden-ok :
    (curve : Curve) (hidden static_pv eph_pub secret : Bytes)
    → length hidden ≡ 96
    → unmarshal (to_array 32 (take 32 hidden)) ≡ some eph_pub
    → generate_shared_secret curve static_pv eph_pub ≡ some secret
    → unmarshal_hidden curve hidden static_pv
      ≡ ok (
          fragments_of
            (to_array 32 secret)
            (to_array 32 (take 32 hidden))
            (to_array 64 (drop 32 hidden)))
unfolding unmarshal_hidden
unmarshal_hidden-ok curve hidden static_pv eph_pub secret h valid agreed =
    let e : length (drop 32 hidden) ≡ 64 = omega (arith, length-drop 32 hidden) in
    ground (arith, valid, agreed)

unmarshal_hidden-append :
    (curve : Curve) (key sealed static_pv secret : Bytes)
    → length key ≡ 32
    → length sealed ≡ 64
    → length secret ≡ 32
    → curve.x25519 static_pv key ≡ some secret
    → unmarshal_hidden curve (key ++ sealed) static_pv ≡ ok (fragments_of secret key sealed)
unfolding generate_shared_secret
unmarshal_hidden-append curve key sealed static_pv secret hk hs hsec agreed =
    let hidden = key ++ sealed in
    let same_key = to_array_exact 32 key hk in
    let cut = ap (to_array 32) (take-append 32 key sealed hk) ∙ same_key in
    let valid : unmarshal (to_array 32 (take 32 hidden)) ≡ some key =
      ap unmarshal cut ∙ unmarshal-some key hk ∙ ap some same_key in
    unmarshal_hidden-ok curve hidden static_pv key secret (omega (arith, length-append key sealed))
      valid agreed
    ∙ ap (λ s. ok (fragments_of s (to_array 32 (take 32 hidden)) (to_array 64 (drop 32 hidden))))
        (to_array_exact 32 secret hsec)
    ∙ ap (λ k. ok (fragments_of secret k (to_array 64 (drop 32 hidden)))) cut
    ∙ ap (λ c. ok (fragments_of secret key c))
        (ap (to_array 64) (drop-append 32 key sealed hk) ∙ to_array_exact 64 sealed hs)

auth_fragments-ok :
    (aes : AesGcm) (used : UsedRandom) (f : AuthFragments) (info : ClientInfo) (server_time : ℕ)
    → is_used f.rand_pub_key used ≡ false
    → decrypt_client_info aes f server_time ≡ ok info
    → (auth_fragments aes used (ok f) server_time).0 ≡ ok info
unfolding auth_fragments register_random
auth_fragments-ok aes used f info server_time fresh opened = ground arith

-- A client that has the server's public key, whose values fit their places, and whose key exchange
-- succeeds, makes a payload from any random bytes; a server with the private key, whose clock agrees
-- with the timestamp and whose cache does not have the payload's public key, accepts the payload as
-- a hidden header, with the same shared secret and with everything that the client says of itself.
pub auth_fragments-make_authentication_payload :
    (curve : Curve) (aes : AesGcm) (a : AuthInfo) (used : UsedRandom)
    (random static_pv secret : Bytes) (now server_time : ℕ)
    → Fits a
    → a.server_pub_key ≡ curve.scalar_base_mult static_pv
    → curve.x25519 (clamp random) a.server_pub_key ≡ some secret
    → is_used (curve.scalar_base_mult (clamp random)) used ≡ false
    → in_window now server_time ≡ true
    → (p : AuthenticationPayload) × (make_authentication_payload curve aes a (some random) now
        ≡ some (p, secret))
      × (f : AuthFragments) × (unmarshal_hidden curve
            (p.rand_pub_key ++ p.ciphertext_with_tag)
            static_pv
          ≡ ok f)
      × (f.shared_secret ≡ secret)
      × ((auth_fragments aes used (ok f) server_time).0 ≡ ok (client_info a))
auth_fragments-make_authentication_payload curve aes a used random static_pv secret now server_time
      fits known agreed fresh window =
    let small : now < 2 ^ 64 = ground arith in
    let size = (plaintext_of-Reads a now fits small).size in
    let (p, made, key_eq, s) =
      make_authentication_payload-Sealed curve aes a random secret now size agreed in
    let secret_length = curve.length-x25519 (clamp random) a.server_pub_key secret agreed in
    let server_agrees : curve.x25519 static_pv p.rand_pub_key ≡ some secret =
      ap (curve.x25519 static_pv) key_eq
      ∙ curve.agree static_pv (clamp random)
      ∙ ap (curve.x25519 (clamp random)) (sym known)
      ∙ agreed in
    let f = fragments_of secret p.rand_pub_key p.ciphertext_with_tag in
    (
      p,
      made,
      f,
      unmarshal_hidden-append curve p.rand_pub_key p.ciphertext_with_tag static_pv secret
          s.key_length s.sealed_length secret_length server_agrees,
      refl,
      auth_fragments-ok aes used f (client_info a) server_time
          (ap (λ k. is_used k used) key_eq ∙ fresh)
          (decrypt_client_info-plaintext_of aes a f now server_time fits window s.opens),
    )
