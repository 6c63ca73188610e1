-- ===== src/Multiplex/Obfs.antt =====
-- internal/multiplex/obfs.go: the obfuscator. The ciphers are parameters, since they come from
-- crypto/aes, crypto/cipher and golang.org/x/crypto.
pub mod RoundTrip
use cloak.Prelude.{
  ℕ, ◌+◌, ◌-◌, ◌%◌, ◌<◌, ◌≡◌, Bytes, length, take, drop, byte_at, put_uint32, put_uint64, uint32,
  uint64, List, [], ◌∷◌, ◌++◌, Option, none, some, ltb, ◌==◌, if◌then◌else◌,
}
use cloak.Multiplex.Frame.{Frame}

abbrev pub frame_header_length : ℕ
frame_header_length = 14

abbrev pub salsa20_nonce_size : ℕ
salsa20_nonce_size = 8

-- The most that padding and tag may take, since one byte of the header holds their length.
abbrev pub max_extra_len : ℕ
max_extra_len = 255

-- The first frames of a stream are padded.
abbrev pub pad_first_n_frames : ℕ
pad_first_n_frames = 5

-- `cipher.AEAD` under a key: `Seal` and `Open` with no additional data, and what their
-- documentation promises.
pub record Aead : Type 0 where
  pub nonce_size : ℕ
  pub overhead : ℕ
  pub seal : Bytes → Bytes → Bytes
  pub open_sealed : Bytes → Bytes → Option Bytes
  pub overhead_eq : overhead ≡ 16
  pub open-seal : (nonce plain : Bytes) → open_sealed nonce (seal nonce plain) ≡ some plain
  pub length-seal : (nonce plain : Bytes) → length (seal nonce plain) ≡ length plain + overhead

-- `salsa20.XORKeyStream`: the key stream of a key and a nonce, as a function of the text.
pub record Salsa20 : Type 0 where
  pub xor_key_stream : Bytes → Bytes → Bytes → Bytes
  pub xor_twice :
      (nonce key text : Bytes) → xor_key_stream nonce key (xor_key_stream nonce key text) ≡ text
  pub length-xor : (nonce key text : Bytes) → length (xor_key_stream nonce key text) ≡ length text

pub record Obfuscator : Type 0 where
  pub payload_cipher : Option Aead
  pub session_key : Bytes

pub data ObfsError : Type 0 where
  empty_payload buffer_too_small no_random : ObfsError
  input_too_short bad_extra_length open_failed : ObfsError
  unknown_method bad_key nonce_too_large : ObfsError

pub data Result {ℓ} (A : Type ℓ) : Type ℓ where
  ok : A → Result A
  err : ObfsError → Result A

abbrev pub tag_len_of : Option Aead → ℕ
tag_len_of none = salsa20_nonce_size
tag_len_of (some c) = c.overhead

-- What the random sources answer during one call: `common.RandInt` and `rand.Read`.
pub record Entropy : Type 0 where
  pub rand_int : ℕ → ℕ
  pub rand_read : ℕ → Option Bytes
  pub rand_int_lt : (n : ℕ) → 0 < n → rand_int n < n
  pub length-rand_read : (n : ℕ) (b : Bytes) → rand_read n ≡ some b → length b ≡ n

unfoldable pub pad_len_of : Entropy → ℕ → ℕ → ℕ
pad_len_of rnd seq tag_len =
    if ltb seq pad_first_n_frames then rnd.rand_int (max_extra_len - tag_len + 1) else 0

-- The two `PutUint`s and the two byte writes into `buf[:14]`.
unfoldable pub header_of : Frame → ℕ → Bytes
unfolding put_uint32 put_uint64
header_of f extra =
    put_uint32 f.stream_id ++ (put_uint64 f.seq ++ (f.closing % 256) ∷ (extra % 256) ∷ [])

-- `buf[14:]` up to the useful length: payload, padding, and a random nonce or the AEAD's tag.
unfoldable pub body_of : Option Aead → Bytes → Bytes → Bytes → ℕ → Bytes
body_of none header payload random plain_len = payload ++ random
body_of (some c) header payload random plain_len =
    c.seal (take c.nonce_size header) (take plain_len (payload ++ random))

-- The buffer after a call: the header, encrypted under the last bytes, the body, and the rest.
unfoldable pub assemble : Salsa20 → Bytes → ℕ → Bytes → Bytes → Bytes → Bytes
assemble salsa key useful_len header body buf =
    let nonce = drop (useful_len - salsa20_nonce_size) (header ++ body) in
    salsa.xor_key_stream nonce key header ++ (body ++ drop useful_len buf)

-- A payload that lies at its place in `buf` already is not copied.
unfoldable pub payload_in : Frame → Bytes → ℕ → Bytes
payload_in f buf offset =
    if offset == frame_header_length
    then take (length f.payload) (drop frame_header_length buf)
    else f.payload

-- The useful length and the new contents of `buf`.
unfoldable pub obfuscate : Salsa20 → Entropy → Obfuscator → Frame → Bytes → ℕ → Result (ℕ × Bytes)
obfuscate salsa rnd o f buf offset =
    let payload_len = length f.payload in
    let tag_len = tag_len_of o.payload_cipher in
    let pad_len = pad_len_of rnd f.seq tag_len in
    let useful_len = frame_header_length + payload_len + pad_len + tag_len in
    let header = header_of f (pad_len + tag_len) in
    let plain_len = payload_len + pad_len in
    if payload_len == 0
    then err empty_payload
    else if ltb (length buf) useful_len
    then err buffer_too_small
    else elim (rnd.rand_read (pad_len + tag_len)) [
      | none ↦ err no_random
      | some random ↦
          let body = body_of o.payload_cipher header (payload_in f buf offset) random plain_len in
          ok (useful_len, assemble salsa o.session_key useful_len header body buf)
    ]

-- `Open` decrypts in place: the plaintext, then what the tag's bytes hold.
unfoldable pub open_in_place : Option Aead → Bytes → Bytes → Result Bytes
open_in_place none header body = ok body
open_in_place (some c) header body = elim (c.open_sealed (take c.nonce_size header) body) [
  | none ↦ err open_failed
  | some plain ↦ ok (plain ++ drop (length plain) body)
]

unfoldable pub frame_of : Bytes → Bytes → Frame
frame_of header payload = record {
  stream_id = uint32 header 0;
  seq = uint64 header 4;
  closing = byte_at header 12;
  payload = payload;
}

-- The header is in the clear; `body` is `pldWithOverHead`.
unfoldable pub read_frame : Obfuscator → Bytes → Bytes → Result Frame
unfolding open_in_place
read_frame o header body =
    let extra_len = byte_at header 13 in
    let useful_payload_len = length body - extra_len in
    if ltb (length body) extra_len
    then err bad_extra_length
    else elim (open_in_place o.payload_cipher header body) [
      | err e ↦ err e
      | ok plain ↦ ok (frame_of header (take useful_payload_len plain))
    ]

unfoldable pub deobfuscate : Salsa20 → Obfuscator → Bytes → Result Frame
deobfuscate salsa o input =
    let nonce = drop (length input - salsa20_nonce_size) input in
    let header = salsa.xor_key_stream nonce o.session_key (take frame_header_length input) in
    if ltb (length input) (frame_header_length + salsa20_nonce_size)
    then err input_too_short
    else read_frame o header (drop frame_header_length input)

-- The constructors of the ciphers: `aes.NewCipher` with `cipher.NewGCM`, and
-- `chacha20poly1305.New`. `none` is an error.
pub record Ciphers : Type 0 where
  pub aes_gcm : Bytes → Option Aead
  pub chacha20_poly1305 : Bytes → Option Aead

abbrev pub encryption_method_plain : ℕ
encryption_method_plain = 0

abbrev pub encryption_method_aes256_gcm : ℕ
encryption_method_aes256_gcm = 1

abbrev pub encryption_method_chacha20_poly1305 : ℕ
encryption_method_chacha20_poly1305 = 2

abbrev pub encryption_method_aes128_gcm : ℕ
encryption_method_aes128_gcm = 3

-- The last check: the nonce is cut from the header.
abbrev with_cipher : Bytes → Option Aead → Result Obfuscator
with_cipher key none = err bad_key
with_cipher key (some c) =
    if ltb frame_header_length c.nonce_size
    then err nonce_too_large
    else ok (record { payload_cipher = some c; session_key = key })

unfoldable pub make_obfuscator : Ciphers → ℕ → Bytes → Result Obfuscator
make_obfuscator cs method key =
    if method == encryption_method_plain
    then ok (record { payload_cipher = none; session_key = key })
    else if method == encryption_method_aes256_gcm
    then with_cipher key (cs.aes_gcm key)
    else if method == encryption_method_aes128_gcm
    then with_cipher key (cs.aes_gcm (take 16 key))
    else if method == encryption_method_chacha20_poly1305
    then with_cipher key (cs.chacha20_poly1305 key)
    else err unknown_method
