-- ===== src/Server/WebSocket.antt =====
-- internal/server/websocket.go: the fragments of a request whose `hidden` header is decoded, and the
-- reply. The HTTP upgrade is that of net/http and gorilla/websocket.
pub mod Reply
use cloak.Prelude.{
  Bytes, length, take, drop, to_array, Option, none, some, ltb, ◌==◌, if◌then◌else◌, ◌++◌,
}
use cloak.Ecdh.{Curve, unmarshal, generate_shared_secret, AesGcm, aes_gcm_encrypt}
use cloak.Server.Auth.{
  AuthFragments, AuthResult, ok, err, bad_get, invalid_pub_key, no_secret, ciphertext_length,
}

unfoldable pub unmarshal_hidden : Curve → Bytes → Bytes → AuthResult AuthFragments
unmarshal_hidden curve hidden static_pv =
    let rand_pub_key = to_array 32 (take 32 hidden) in
    if ltb (length hidden) 96 then err bad_get else elim (unmarshal rand_pub_key) [
      | none ↦ err invalid_pub_key
      | some eph_pub ↦ elim (generate_shared_secret curve static_pv eph_pub) [
        | none ↦ err no_secret
        | some secret ↦
            if length (drop 32 hidden) == 64
            then ok (record {
              shared_secret = to_array 32 secret;
              rand_pub_key = rand_pub_key;
              ciphertext_with_tag = to_array 64 (drop 32 hidden);
            })
            else err ciphertext_length
      ]
    ]

-- The message that the responder of `makeResponder` writes; `none` is an error of the cipher.
unfoldable pub ws_reply : AesGcm → Bytes → Bytes → Bytes → Option Bytes
ws_reply aes shared_secret session_key nonce =
    elim (aes_gcm_encrypt aes nonce shared_secret session_key) [
      | none ↦ none
      | some encrypted_key ↦ some (nonce ++ encrypted_key)
    ]
