-- ===== src/Server/Tls.antt =====
-- internal/server/TLSAux.go and TLS.go: the ClientHello, and the reply to it. A slice expression out
-- of range panics, which the functions here turn into an error.
pub mod Reply
use cloak.Prelude.{
  ℕ, zero, suc, ◌+◌, ◌-◌, ◌*◌, ◌%◌, ◌^◌, ◌&&◌, Bytes, take, drop, length, byte_at, uint16, to_array,
  copy_into, replicate, List, [], ◌∷◌, ◌++◌, ltb, leb, ◌==◌, if◌then◌else◌, Option, none, some,
}
use cloak.Multiplex.Session.State.{lookup, insert}
use cloak.Ecdh.{Curve, AesGcm, unmarshal, generate_shared_secret, aes_gcm_encrypt}
use cloak.Server.Auth.{
  AuthFragments, AuthResult, ok, err, AuthError, bad_get, invalid_pub_key, no_secret,
  ciphertext_length, same_bytes,
}
use cloak.Tls.{add_record_layer}

-- A slice, and the bytes of its array behind it, which slicing may reach.
pub record Slice : Type 0 where
  pub bytes : Bytes
  pub behind : Bytes

-- The extensions by their types, each two bytes taken for a number.
abbrev pub Extensions : Type 0
Extensions = List (ℕ × Slice)

-- The loop of `parseExtensions`; every round takes four bytes at least, and `fuel` bounds the rounds.
unfoldable pub parse_from : (fuel : ℕ) → Bytes → Extensions → Option Extensions
unfolding insert uint16
parse_from zero input acc = if length input == 0 then some acc else none
parse_from (suc fuel) input acc =
    let len = uint16 (drop 2 input) in
    let rest = drop 4 input in
    let ext : Slice = record { bytes = take len rest; behind = drop len rest } in
    let more = parse_from fuel (drop len rest) (insert (uint16 input) ext acc) in
    if length input == 0
    then some acc
    else if ltb (length input) 4
    then none
    else if ltb (length rest) len
    then none
    else more

unfoldable pub parse_extensions : Bytes → Option Extensions
unfolding parse_from
parse_extensions input = parse_from (length input) input []

-- The loop of `parseKeyShare` from `pointer` on, where `left` is `totalLen - pointer`.
unfoldable pub key_share_from : (fuel : ℕ) → ℕ → Bytes → Option Bytes
unfolding uint16
key_share_from zero left input = none
key_share_from (suc fuel) left input =
    let len = uint16 (drop 2 input) in
    let rest = drop 4 input in
    let more = key_share_from fuel (left - (4 + len)) (drop len rest) in
    if left == 0
    then none
    else if ltb (length input) 4
    then none
    else if uint16 input == 29
    then (if len == 32 && leb 32 (length rest) then some (take 32 rest) else none)
    else if ltb (length rest) len
    then none
    else more

unfoldable pub parse_key_share : Slice → Option Bytes
unfolding key_share_from
parse_key_share ext =
    let input = ext.bytes ++ ext.behind in
    if ltb (length input) 2
    then none
    else key_share_from (length input) (uint16 input - 2) (drop 2 input)

pub record ClientHello : Type 0 where
  pub handshake_type : ℕ
  pub hello_length : ℕ
  pub client_version : Bytes
  pub random : Bytes
  pub session_id_len : ℕ
  pub session_id : Bytes
  pub cipher_suites_len : ℕ
  pub cipher_suites : Bytes
  pub compression_methods_len : ℕ
  pub compression_methods : Bytes
  pub extensions_len : ℕ
  pub extensions : Extensions

pub data HelloResult : Type 0 where
  hello : ClientHello → HelloResult
  wrong_magic not_client_hello length_mismatch malformed malformed_extensions : HelloResult

-- `peeled[pointer:pointer+n]` and what comes after it.
abbrev slice : ℕ → Bytes → (Bytes → Bytes → HelloResult) → HelloResult
slice n b k = if ltb (length b) n then malformed else k (take n b) (drop n b)

-- The fields of the ClientHello after its length.
unfoldable pub parse_body : ℕ → ℕ → Bytes → HelloResult
unfolding parse_extensions uint16
parse_body typ len body = slice 2 body (λ version b1. slice 32 b1 (λ random b2.
    slice 1 b2 (λ sid_len b3. slice (byte_at sid_len 0) b3 (λ sid b4. slice 2 b4 (λ suites_len b5.
      slice (uint16 suites_len) b5 (λ suites b6. slice 1 b6 (λ methods_len b7.
        slice (byte_at methods_len 0) b7 (λ methods b8. slice 2 b8 (λ exts_len b9.
          elim (parse_extensions b9) [
            | none ↦ malformed_extensions
            | some exts ↦ hello (record {
              handshake_type = typ;
              hello_length = len;
              client_version = version;
              random = random;
              session_id_len = byte_at sid_len 0;
              session_id = sid;
              cipher_suites_len = uint16 suites_len;
              cipher_suites = suites;
              compression_methods_len = byte_at methods_len 0;
              compression_methods = methods;
              extensions_len = uint16 exts_len;
              extensions = exts;
            })
          ])))))))))

-- The packet is a slice of exactly its length.
unfoldable pub parse_client_hello : Bytes → HelloResult
unfolding parse_body
parse_client_hello packet =
    let peeled = drop 5 packet in
    let typ = byte_at peeled 0 in
    let len = byte_at peeled 1 * 65536 + byte_at peeled 2 * 256 + byte_at peeled 3 in
    if ltb (length packet) 3
    then malformed
    else if same_bytes (take 3 packet) (22 ∷ 3 ∷ 1 ∷ [])
    then (if ltb (length packet) 6
        then malformed
        else if typ == 1
        then (if ltb (length peeled) 4
            then malformed
            else if len == length (drop 4 peeled)
            then parse_body typ len (drop 4 peeled)
            else length_mismatch)
        else not_client_hello)
    else wrong_magic

-- A missing extension is the nil slice.
abbrev or_nil : Option Slice → Slice
or_nil none = record { bytes = []; behind = [] }
or_nil (some b) = b

pub data UnmarshalResult : Type 0 where
  fragments : AuthFragments → UnmarshalResult
  bad_pub_key bad_secret bad_key_share bad_length : UnmarshalResult

unfoldable pub unmarshal_client_hello : Curve → ClientHello → Bytes → UnmarshalResult
unfolding unmarshal generate_shared_secret parse_key_share lookup
unmarshal_client_hello curve ch static_pv =
    let rand_pub_key = to_array 32 ch.random in
    elim (unmarshal rand_pub_key) [
      | none ↦ bad_pub_key
      | some eph_pub ↦ elim (generate_shared_secret curve static_pv eph_pub) [
        | none ↦ bad_secret
        | some secret ↦ elim (parse_key_share (or_nil (lookup 51 ch.extensions))) [
          | none ↦ bad_key_share
          | some key_share ↦
              let ctx_tag = ch.session_id ++ key_share in
              if length ctx_tag == 64
              then fragments (record {
                shared_secret = to_array 32 secret;
                rand_pub_key = rand_pub_key;
                ciphertext_with_tag = to_array 64 ctx_tag;
              })
              else bad_length
        ]
      ]
    ]

-- The last four bytes of the key exchange are the random ones of `filler`.
unfoldable pub compose_server_hello : Bytes → Bytes → Bytes → Bytes → Bytes
compose_server_hello session_id nonce enc filler =
    let random = nonce ++ take 20 enc in
    let key_exchange = take 28 (copy_into (replicate 32 0) (drop 20 enc)) ++ filler in
    (2 ∷ 0 ∷ 0 ∷ 118 ∷ 3 ∷ 3 ∷ [])
    ++ (random
        ++ (32
            ∷ (session_id
                ++ ((19 ∷ 2 ∷ 0 ∷ 0 ∷ 46 ∷ 0 ∷ 51 ∷ 0 ∷ 36 ∷ 0 ∷ 29 ∷ 0 ∷ 32 ∷ [])
                    ++ (key_exchange ++ (0 ∷ 43 ∷ 0 ∷ 2 ∷ 3 ∷ 4 ∷ []))))))

unfoldable pub compose_reply : Bytes → Bytes → Bytes → Bytes → Bytes → Bytes
unfolding add_record_layer compose_server_hello
compose_reply session_id nonce enc filler cert =
    let sh = compose_server_hello session_id nonce enc filler in
    add_record_layer sh 22 771 ++ (add_record_layer (1 ∷ []) 20 771 ++ add_record_layer cert 23 771)

-- What the responder of `makeResponder` writes; `none` is an error of the cipher.
unfoldable pub respond : AesGcm → Bytes → Bytes → Bytes → Bytes → Bytes → Bytes → Option Bytes
respond aes session_id shared_secret session_key nonce filler cert =
    elim (aes_gcm_encrypt aes nonce shared_secret session_key) [
      | none ↦ none
      | some sealed ↦ some (compose_reply session_id nonce (to_array 48 sealed) filler cert)
    ]
