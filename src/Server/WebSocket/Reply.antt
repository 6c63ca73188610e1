-- ===== src/Server/WebSocket/Reply.antt =====
-- internal/server/websocket.go against internal/client/websocket.go: the reply to a client.
use cloak.Prelude.{
  ℕ, ◌<◌, ◌≡◌, refl, ap, ◌∙◌, Bytes, true, ◌++◌, some, length, take, drop, leb, ◌==◌, to_array,
  to_array_exact, take-append, drop-append, length-append, arith,
}
use cloak.Ecdh.{AesGcm, aes_gcm_encrypt, aes_gcm_decrypt, aes_gcm_decrypt-encrypt}
use cloak.WebSocket.{binary, read_ok, read}
use cloak.WebSocket.Whole.{read-whole}
use cloak.Client.WebSocket.{read_reply}
use cloak.Server.WebSocket.{ws_reply}

ws_reply-some :
    (aes : AesGcm) (shared_secret session_key nonce sealed : Bytes)
    → aes_gcm_encrypt aes nonce shared_secret session_key ≡ some sealed
    → ws_reply aes shared_secret session_key nonce ≡ some (nonce ++ sealed)
unfolding ws_reply
ws_reply-some aes shared_secret session_key nonce sealed e = rw (ws_reply, e) refl

read_reply-some :
    (aes : AesGcm) (chunk : ℕ → ℕ) (shared_secret reply key : Bytes)
    → read chunk (binary reply) 128 ≡ read_ok reply
    → (length reply == 60) ≡ true
    → aes_gcm_decrypt aes (take 12 reply) shared_secret (drop 12 reply) ≡ some key
    → read_reply aes chunk shared_secret (binary reply) ≡ some (to_array 32 key)
unfolding read_reply
read_reply-some aes chunk shared_secret reply key whole size opened =
    rw (read_reply, whole, size, opened) refl

-- The session key of 32 bytes that the server seals under the shared secret, with a nonce of 12
-- bytes, is what the client makes of the reply, however the reader of its connection cuts it.
pub read_reply-ws_reply :
    (aes : AesGcm) (chunk : ℕ → ℕ) (shared_secret session_key nonce : Bytes)
    → ((k : ℕ) → 0 < chunk k)
    → length shared_secret ≡ 32
    → length session_key ≡ 32
    → length nonce ≡ 12
    → (reply : Bytes) × (ws_reply aes shared_secret session_key nonce ≡ some reply)
      × (read_reply aes chunk shared_secret (binary reply) ≡ some session_key)
read_reply-ws_reply aes chunk shared_secret session_key nonce some_byte hs hk hn =
    let (sealed, enc_ok, dec_ok, sealed_length) =
      aes_gcm_decrypt-encrypt aes nonce shared_secret session_key hn hs in
    let size : length (nonce ++ sealed) ≡ 60 = omega (arith, length-append nonce sealed) in
    let fits : leb (length (nonce ++ sealed)) 128 ≡ true = ground (arith, size) in
    let whole : read chunk (binary (nonce ++ sealed)) 128 ≡ read_ok (nonce ++ sealed) =
      read-whole chunk (nonce ++ sealed) 128 some_byte ∙ rw fits refl in
    let opened : aes_gcm_decrypt aes (take 12 (nonce ++ sealed)) shared_secret
          (drop 12 (nonce ++ sealed))
        ≡ some session_key =
      rw (take-append 12 nonce sealed hn, drop-append 12 nonce sealed hn) dec_ok in
    (
      nonce ++ sealed,
      ws_reply-some aes shared_secret session_key nonce sealed enc_ok,
      read_reply-some aes chunk shared_secret (nonce ++ sealed) session_key whole
            (ground (arith, size)) opened
          ∙ ap some (to_array_exact 32 session_key hk),
    )
