-- ===== src/Server/Auth.antt =====
-- internal/server/auth.go, and the cache of used random fields of internal/server/state.go. Times
-- of the server are in nanoseconds since the epoch, timestamps in seconds.
pub mod Handshake
pub mod Plaintext
pub mod Replay
use Prim.Native.Nat.{bit_and}
use cloak.Prelude.{
  ℕ, ◌+◌, ◌*◌, ◌/◌, ◌^◌, ◌&&◌, Bytes, take, drop, byte_at, uint32, uint64, Bool, true, false, not,
  List, [], ◌∷◌, ◌++◌, Option, none, some, ltb, ◌==◌, if◌then◌else◌,
}
pub use cloak.Prelude.{same_bytes}
use cloak.Ecdh.{Curve, AesGcm, aes_gcm_decrypt, unmarshal, generate_shared_secret}

pub record ClientInfo : Type 0 where
  pub uid : Bytes
  pub session_id : ℕ
  pub proxy_method : Bytes
  pub encryption_method : ℕ
  pub is_unordered : Bool

pub record AuthFragments : Type 0 where
  pub shared_secret : Bytes
  pub rand_pub_key : Bytes
  pub ciphertext_with_tag : Bytes

pub data AuthError : Type 0 where
  bad_get bad_client_hello bad_key_share invalid_pub_key no_secret : AuthError
  ciphertext_length : AuthError
  replay bad_decryption timestamp_out_of_window : AuthError

pub data AuthResult {ℓ} (A : Type ℓ) : Type ℓ where
  ok : A → AuthResult A
  err : AuthError → AuthResult A

-- `bytes.Trim(b, "\x00")`.
unfoldable pub trim_left : Bytes → Bytes
trim_left [] = []
trim_left (x ∷ b) = if x == 0 then trim_left b else x ∷ b

abbrev cons_nonzero : ℕ → Bytes → Bytes
cons_nonzero x [] = if x == 0 then [] else x ∷ []
cons_nonzero x (y ∷ b) = x ∷ (y ∷ b)

unfoldable pub trim_right : Bytes → Bytes
trim_right [] = []
trim_right (x ∷ b) = cons_nonzero x (trim_right b)

unfoldable pub trim : Bytes → Bytes
unfolding trim_left trim_right
trim b = trim_right (trim_left b)

abbrev pub second : ℕ
second = 1_000_000_000

abbrev pub timestamp_tolerance : ℕ
timestamp_tolerance = 180 * second

-- `clientTime` lies after `serverTime - tolerance` and before `serverTime + tolerance`; a timestamp
-- of 2^63 or more is a negative int64, long before any server time.
abbrev pub in_window : ℕ → ℕ → Bool
in_window timestamp server_time =
    ltb timestamp (2 ^ 63)
    && (ltb server_time (timestamp * second + timestamp_tolerance)
        && ltb (timestamp * second) (server_time + timestamp_tolerance))

-- The fields of a decrypted plaintext.
unfoldable pub info_of : Bytes → ClientInfo
unfolding trim uint32
info_of plaintext = record {
  uid = take 16 plaintext;
  session_id = uint32 plaintext 37;
  proxy_method = trim (take 12 (drop 16 plaintext));
  encryption_method = byte_at plaintext 28;
  is_unordered = not (bit_and (byte_at plaintext 41) 1 == 0);
}

unfoldable pub decrypt_client_info : AesGcm → AuthFragments → ℕ → AuthResult ClientInfo
unfolding info_of uint64
decrypt_client_info aes f server_time =
    elim (aes_gcm_decrypt aes (take 12 f.rand_pub_key) f.shared_secret f.ciphertext_with_tag) [
      | none ↦ err bad_decryption
      | some plaintext ↦
          if in_window (uint64 plaintext 29) server_time
          then ok (info_of plaintext)
          else err timestamp_out_of_window
    ]

-- `State.UsedRandom`: the random fields seen, with the second at which they were last seen.
abbrev pub UsedRandom : Type 0
UsedRandom = List (Bytes × ℕ)

unfoldable pub is_used : Bytes → UsedRandom → Bool
is_used r [] = false
is_used r ((k, t) ∷ m) = if same_bytes k r then true else is_used r m

unfoldable pub set_used : Bytes → ℕ → UsedRandom → UsedRandom
set_used r now [] = (r, now) ∷ []
set_used r now ((k, t) ∷ m) = if same_bytes k r then (r, now) ∷ m else (k, t) ∷ set_used r now m

-- Whether the random field was used before, and the cache after it.
unfoldable pub register_random : UsedRandom → Bytes → ℕ → Bool × UsedRandom
unfolding is_used set_used
register_random m r server_time = (is_used r m, set_used r (server_time / second) m)

-- One sweep of `UsedRandomCleaner`.
unfoldable pub clean_used_random : ℕ → UsedRandom → UsedRandom
clean_used_random server_time [] = []
clean_used_random server_time ((k, t) ∷ m) =
    if ltb (t * second) (server_time + timestamp_tolerance)
    then clean_used_random server_time m
    else (k, t) ∷ clean_used_random server_time m

-- `AuthFirstPacket` from the fragments on that the transport made of the packet.
unfoldable pub auth_fragments :
    AesGcm → UsedRandom → AuthResult AuthFragments → ℕ → AuthResult ClientInfo × UsedRandom
auth_fragments aes used (err e) server_time = (err e, used)
auth_fragments aes used (ok f) server_time =
    let (seen, used') = register_random used f.rand_pub_key server_time in
    if seen then (err replay, used') else elim (decrypt_client_info aes f server_time) [
      | err e ↦ (err bad_decryption, used')
      | ok info ↦ (ok info, used')
    ]
