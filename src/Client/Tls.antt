-- ===== src/Client/Tls.antt =====
-- internal/client/TLS.go: the end of `Handshake`, from the first read on.
use cloak.Prelude.{Bytes, take, drop, replicate, copy_into, to_array, ◌++◌, Option, none, some}
use cloak.Ecdh.{AesGcm, aes_gcm_decrypt}
use cloak.Tls.{record_layer_length, record_ok, short_slice, ended, read_record}

-- `buf` after a read: the header of the record is in it first, and then the message.
unfoldable pub buf_after : Bytes → Bytes → Bytes
buf_after stream m = copy_into (copy_into (replicate 1024 0) (take record_layer_length stream)) m

-- The nonce and the sealed session key, of the 60 bytes that `append` puts together.
abbrev pub encrypted_in : Bytes → Bytes
encrypted_in buf = take 32 (drop 6 buf) ++ take 32 (drop 84 buf)

abbrev pub skip_record : Bytes → Option Bytes
skip_record stream =
    let (r, rest) = read_record stream 1024 in
    elim r [ record_ok m ↦ some rest | short_slice ↦ none | ended ↦ none ]

abbrev skip_two : Bytes → Option Bytes
skip_two stream = elim (skip_record stream) [ none ↦ none | some rest ↦ skip_record rest ]

abbrev pub open_key : AesGcm → Bytes → Bytes → Option Bytes
open_key aes shared_secret buf =
    let encrypted = encrypted_in buf in
    aes_gcm_decrypt aes (take 12 encrypted) shared_secret (take 48 (drop 12 encrypted))

abbrev with_rest : Bytes → Option Bytes → Option (Bytes × Bytes)
with_rest key none = none
with_rest key (some rest) = some (to_array 32 key, rest)

-- The session key and the stream after the handshake; `none` is an error.
unfoldable pub finish_handshake : AesGcm → Bytes → Bytes → Option (Bytes × Bytes)
finish_handshake aes shared_secret stream =
    let (r, rest) = read_record stream 1024 in
    elim r [
      | record_ok m ↦ elim (open_key aes shared_secret (buf_after stream m)) [
        | none ↦ none
        | some key ↦ with_rest key (skip_two rest)
      ]
      | short_slice ↦ none
      | ended ↦ none
    ]
