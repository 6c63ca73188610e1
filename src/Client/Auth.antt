-- ===== src/Client/Auth.antt =====
-- internal/client/auth.go.
use Prim.Native.Nat.{bit_or}
use cloak.Prelude.{
  ℕ, Bytes, take, drop, byte_at, replicate, put_uint32, put_uint64, copy_into, to_array, Bool, [],
  ◌∷◌, ◌++◌, Option, none, some, if◌then◌else◌,
}
use cloak.Ecdh.{Curve, AesGcm, generate_key, generate_shared_secret, aes_gcm_encrypt}

pub record AuthInfo : Type 0 where
  pub uid : Bytes
  pub session_id : ℕ
  pub proxy_method : Bytes
  pub encryption_method : ℕ
  pub is_unordered : Bool
  pub server_pub_key : Bytes

pub record AuthenticationPayload : Type 0 where
  pub rand_pub_key : Bytes
  pub ciphertext_with_tag : Bytes

-- The 48 bytes that are encrypted; `now` is the clock in seconds, as the uint64 that is sent.
-- `uid_copied` is the buffer after `copy(plaintext, authInfo.UID)`.
unfoldable pub plaintext_of : AuthInfo → ℕ → Bytes
unfolding put_uint32 put_uint64
plaintext_of a now =
    let uid_copied = copy_into (replicate 48 0) a.uid in
    let flags = byte_at uid_copied 41 in
    take 16 uid_copied
    ++ (copy_into (take 12 (drop 16 uid_copied)) a.proxy_method
        ++ (a.encryption_method
            ∷ (put_uint64 now
                ++ (put_uint32 a.session_id
                    ++ ((if a.is_unordered then bit_or flags 1 else flags) ∷ drop 42 uid_copied)))))

-- A nil slice where the error is dropped.
abbrev pub or_nil : Option Bytes → Bytes
or_nil none = []
or_nil (some b) = b

-- `random` is what the reader gives to `GenerateKey`; `none` is a panic. The results are the payload
-- and the shared secret.
unfoldable pub make_authentication_payload :
    Curve → AesGcm → AuthInfo → Option Bytes → ℕ → Option (AuthenticationPayload × Bytes)
make_authentication_payload curve aes a random now = elim (generate_key curve random) [
  | none ↦ none
  | some (eph_pv, eph_pub) ↦ elim (generate_shared_secret curve eph_pv a.server_pub_key) [
    | none ↦ none
    | some secret ↦
        let shared_secret = to_array 32 secret in
        let nonce = take 12 (to_array 32 eph_pub) in
        let sealed = or_nil (aes_gcm_encrypt aes nonce shared_secret (plaintext_of a now)) in
        some (
          record { rand_pub_key = to_array 32 eph_pub; ciphertext_with_tag = to_array 64 sealed },
          shared_secret,
        )
  ]
]
