-- ===== src/Ecdh.antt =====
-- internal/ecdh/curve25519.go, and the AEAD calls of internal/common/crypto.go. The curve's
-- operations are those of golang.org/x/crypto/curve25519, and AES-GCM that of crypto/aes.
use Prim.Native.Nat.{bit_and, bit_or}
use cloak.Prelude.{
  ◌+◌, ◌≡◌, Bytes, length, take, drop, byte_at, to_array, [], ◌∷◌, ◌++◌, Option, none, some, ◌==◌,
  if◌then◌else◌, true, arith,
}
use cloak.Multiplex.Obfs.{Aead}

-- `x25519 a p` is `none` where the library returns an error (a point of low order).
pub record Curve : Type 0 where
  pub scalar_base_mult : Bytes → Bytes
  pub x25519 : Bytes → Bytes → Option Bytes
  pub length-scalar_base_mult : (a : Bytes) → length (scalar_base_mult a) ≡ 32
  pub length-x25519 : (a p s : Bytes) → x25519 a p ≡ some s → length s ≡ 32
  pub agree : (a b : Bytes) → x25519 a (scalar_base_mult b) ≡ x25519 b (scalar_base_mult a)

-- The private key that `GenerateKey` makes of 32 random bytes.
unfoldable pub clamp : Bytes → Bytes
clamp b =
    bit_and (byte_at b 0) 248 ∷ (take 30 (drop 1 b) ++ bit_or (bit_and (byte_at b 31) 127) 64 ∷ [])

-- `GenerateKey`: the private and the public key. `none` is a failing reader.
unfoldable pub generate_key : Curve → Option Bytes → Option (Bytes × Bytes)
generate_key curve none = none
generate_key curve (some random) = some (clamp random, curve.scalar_base_mult (clamp random))

unfoldable pub unmarshal : Bytes → Option Bytes
unmarshal b = if length b == 32 then some (to_array 32 b) else none

unfoldable pub generate_shared_secret : Curve → Bytes → Bytes → Option Bytes
generate_shared_secret curve private public = curve.x25519 private public

-- `aes.NewCipher` and `cipher.NewGCM`: `none` for a key of a wrong size.
pub record AesGcm : Type 0 where
  pub gcm : Bytes → Option Aead
  pub gcm_32 :
      (key : Bytes) → length key ≡ 32 → (c : Aead) × (gcm key ≡ some c) × (c.nonce_size ≡ 12)

unfoldable pub aes_gcm_encrypt : AesGcm → Bytes → Bytes → Bytes → Option Bytes
aes_gcm_encrypt aes nonce key plain = elim (aes.gcm key) [
  | none ↦ none
  | some c ↦ if length nonce == c.nonce_size then some (c.seal nonce plain) else none
]

unfoldable pub aes_gcm_decrypt : AesGcm → Bytes → Bytes → Bytes → Option Bytes
aes_gcm_decrypt aes nonce key sealed = elim (aes.gcm key) [
  | none ↦ none
  | some c ↦ if length nonce == c.nonce_size then c.open_sealed nonce sealed else none
]

-- Under a key of 32 bytes and a nonce of 12, encryption succeeds, adds 16 bytes, and is undone.
pub aes_gcm_decrypt-encrypt :
    (aes : AesGcm) (nonce key plain : Bytes)
    → length nonce ≡ 12
    → length key ≡ 32
    → (sealed : Bytes) × (aes_gcm_encrypt aes nonce key plain ≡ some sealed)
      × (aes_gcm_decrypt aes nonce key sealed ≡ some plain)
      × (length sealed ≡ length plain + 16)
unfolding aes_gcm_encrypt aes_gcm_decrypt
aes_gcm_decrypt-encrypt aes nonce key plain nl kl =
    let (c, made, size) = aes.gcm_32 key kl in
    let fits : (length nonce == c.nonce_size) ≡ true = ground arith in
    (
      c.seal nonce plain,
      ground arith,
      ground (arith, c.open-seal nonce plain),
      omega (arith, c.length-seal nonce plain, c.overhead_eq),
    )
