-- ===== src/Client/WebSocket.antt =====
-- internal/client/websocket.go: the end of `Handshake`, from the reading of the reply on.
use cloak.Prelude.{ℕ, Bytes, length, take, drop, to_array, Option, none, some, ◌==◌, if◌then◌else◌}
use cloak.Ecdh.{AesGcm, aes_gcm_decrypt}
use cloak.WebSocket.{Incoming, read_ok, read_failed, too_large, no_message, read}

abbrev as_key : Option Bytes → Option Bytes
as_key none = none
as_key (some key) = some (to_array 32 key)

-- The session key; `none` is an error. `incoming` is the first message of the connection.
unfoldable pub read_reply : AesGcm → (ℕ → ℕ) → Bytes → Incoming → Option Bytes
read_reply aes chunk shared_secret incoming = elim (read chunk incoming 128) [
  | read_ok reply ↦
      if length reply == 60
      then as_key (aes_gcm_decrypt aes (take 12 reply) shared_secret (drop 12 reply))
      else none
  | read_failed part ↦ none
  | too_large part ↦ none
  | no_message ↦ none
]
