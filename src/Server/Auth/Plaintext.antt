-- ===== src/Server/Auth/Plaintext.antt =====
-- internal/client/auth.go against internal/server/auth.go: the 48 bytes that the client writes, at the
-- offsets at which the server reads.
use Prim.Native.Nat.{bit_and, bit_or}
use mathlib.Core.Path.{subst}
use cloak.Prelude.{
  ℕ, zero, suc, ◌+◌, ◌-◌, ◌^◌, ◌≤◌, ◌<◌, ◌≡◌, refl, ap, sym, ◌∙◌, Bytes, Bool, true, false, not, [],
  ◌∷◌, ◌++◌, some, ◌==◌, if◌then◌else◌, length, take, drop, replicate, byte_at, arith, append_assoc,
  put_uint32, put_uint64, uint32, uint64, copy_into, copy_into-append, take-append, drop-append,
  drop-append_add, length-append, byte_at-append, uint32-append, uint64-append, uint32-put_uint32,
  uint64-put_uint64, length-copy_into, length-replicate,
}
use cloak.Ecdh.{AesGcm, aes_gcm_decrypt}
use cloak.Client.Auth.{AuthInfo, plaintext_of}
use cloak.Server.Auth.{
  ClientInfo, AuthFragments, ok, trim_left, trim_right, trim, in_window, info_of,
  decrypt_client_info,
}

-- No byte of a proxy method's name is zero.
abbrev pub NoZero : Bytes → Type 0
NoZero [] = Unit {0}
NoZero (x ∷ b) = (0 < x) × NoZero b

-- The values that fit their places in the payload.
pub record Fits (a : AuthInfo) : Type 0 where
  pub uid_length : length a.uid ≡ 16
  pub proxy_method_length : length a.proxy_method ≤ 12
  pub proxy_method_text : NoZero a.proxy_method
  pub session_id_lt : a.session_id < 2 ^ 32

trim_right-zeros : (n : ℕ) → trim_right (replicate n 0) ≡ []
unfolding trim_right
trim_right-zeros zero = refl
trim_right-zeros (suc n) = rw (trim_right-zeros n)

trim_right-append : (b : Bytes) (n : ℕ) → NoZero b → trim_right (b ++ replicate n 0) ≡ b
unfolding trim_right
trim_right-append [] n h = trim_right-zeros n
trim_right-append (x ∷ []) n h = rw (trim_right-zeros n) (ground arith)
trim_right-append (x ∷ (y ∷ b)) n h = rw (trim_right-append (y ∷ b) n h.1)

trim_left-zeros : (n : ℕ) → trim_left (replicate n 0) ≡ []
unfolding trim_left
trim_left-zeros zero = refl
trim_left-zeros (suc n) = trim_left-zeros n

trim_left-append :
    (x : ℕ) (b : Bytes) (n : ℕ)
    → 0 < x
    → trim_left (x ∷ (b ++ replicate n 0)) ≡ x ∷ (b ++ replicate n 0)
unfolding trim_left
trim_left-append x b n h = ground arith

-- A name of at most `n` bytes, filled up with zeros, is trimmed to itself.
trim-pad : (b : Bytes) (n : ℕ) → NoZero b → trim (b ++ replicate n 0) ≡ b
unfolding trim
trim-pad [] n h = rw (trim_left-zeros n) refl
trim-pad (x ∷ b) n h = ap trim_right (trim_left-append x b n h.0) ∙ trim_right-append (x ∷ b) n h

abbrev zeros : ℕ → Bytes
zeros n = replicate n 0

zeros-add : (k n : ℕ) → zeros k ++ zeros n ≡ zeros (k + n)
zeros-add zero n = let e : n ≡ 0 + n = omega arith in ap zeros e
zeros-add (suc k) n =
    let e : suc (k + n) ≡ suc k + n = omega arith in ap (◌∷◌ 0) (zeros-add k n) ∙ ap zeros e

copy-pad : (k n : ℕ) (b : Bytes) → length b ≡ k → copy_into (zeros (k + n)) b ≡ b ++ zeros n
copy-pad k n b h =
    ap (λ d. copy_into d b) (sym (zeros-add k n))
    ∙ copy_into-append b (zeros k) (zeros n) (length-replicate k 0 ∙ sym h)

-- The two variable fields, and the rest, byte for byte.
abbrev tail_of : AuthInfo → ℕ → Bytes
tail_of a now =
    a.encryption_method
    ∷ (put_uint64 now
        ++ (put_uint32 a.session_id
            ++ ((if a.is_unordered then bit_or 0 1 else 0) ∷ replicate 6 0)))

abbrev name_field : AuthInfo → Bytes
name_field a = copy_into (replicate 12 0) a.proxy_method

-- The plaintext over the pieces of the buffer that it is written into.
abbrev layout : AuthInfo → ℕ → Bytes → Bytes → ℕ → Bytes → Bytes
layout a now uid field flags end =
    uid
    ++ (copy_into (take 12 field) a.proxy_method
        ++ (a.encryption_method
            ∷ (put_uint64 now
                ++ (put_uint32 a.session_id
                    ++ ((if a.is_unordered then bit_or flags 1 else flags) ∷ end)))))

plaintext_of-split :
    (a : AuthInfo) (now : ℕ)
    → length a.uid ≡ 16
    → plaintext_of a now ≡ a.uid ++ (name_field a ++ tail_of a now)
unfolding plaintext_of
plaintext_of-split a now h =
    let c = copy_into (zeros 48) a.uid in
    let start : c ≡ a.uid ++ zeros 32 = copy-pad 16 32 a.uid h in
    let t16 = ap (take 16) start ∙ take-append 16 a.uid (zeros 32) h in
    let d16 = ap (drop 16) start ∙ drop-append 16 a.uid (zeros 32) h in
    let d42 = ap (drop 42) start ∙ drop-append_add 16 26 a.uid (zeros 32) h in
    let flag = ap (λ b. byte_at b 41) start ∙ byte_at-append 16 25 a.uid (zeros 32) h in
    ap (λ u. layout a now u (drop 16 c) (byte_at c 41) (drop 42 c)) t16
    ∙ ap (λ d. layout a now a.uid d (byte_at c 41) (drop 42 c)) d16
    ∙ ap (λ f. layout a now a.uid (zeros 32) f (drop 42 c)) flag
    ∙ ap (layout a now a.uid (zeros 32) 0) d42

name_field-pad :
    (a : AuthInfo)
    → length a.proxy_method ≤ 12
    → name_field a ≡ a.proxy_method ++ zeros (12 - length a.proxy_method)
name_field-pad a h =
    let n = length a.proxy_method in
    let e : 12 ≡ n + (12 - n) = omega arith in
    ap (λ k. copy_into (zeros k) a.proxy_method) e ∙ copy-pad n (12 - n) a.proxy_method refl

length-name_field : (a : AuthInfo) → length (name_field a) ≡ 12
length-name_field a = length-copy_into (zeros 12) a.proxy_method

-- What the server reads at its offsets.
pub record Reads (a : AuthInfo) (now : ℕ) (b : Bytes) : Type 0 where
  pub uid : take 16 b ≡ a.uid
  pub name : trim (take 12 (drop 16 b)) ≡ a.proxy_method
  pub method : byte_at b 28 ≡ a.encryption_method
  pub time : uint64 b 29 ≡ now
  pub session : uint32 b 37 ≡ a.session_id
  pub flag : byte_at b 41 ≡ (if a.is_unordered then 1 else 0)
  pub size : length b ≡ 48

-- The timestamp and the session id behind the first 28 bytes.
time_at : (a : AuthInfo) (now : ℕ) → now < 2 ^ 64 → uint64 (tail_of a now) 1 ≡ now
unfolding uint64 uint32 put_uint64 put_uint32
time_at a now h =
    uint64-put_uint64 now
      (put_uint32 a.session_id ++ ((if a.is_unordered then bit_or 0 1 else 0) ∷ zeros 6)) h

session_at :
    (a : AuthInfo) (now : ℕ) → a.session_id < 2 ^ 32 → uint32 (tail_of a now) 9 ≡ a.session_id
unfolding uint32 put_uint64 put_uint32
session_at a now h =
    uint32-put_uint32 a.session_id ((if a.is_unordered then bit_or 0 1 else 0) ∷ zeros 6) h

split-Reads :
    (a : AuthInfo) (now : ℕ)
    → Fits a
    → now < 2 ^ 64
    → Reads a now (a.uid ++ (name_field a ++ tail_of a now))
unfolding put_uint32 put_uint64
split-Reads a now fits small =
    let t = tail_of a now in
    let n_length = length-name_field a in
    let whole = append_assoc a.uid (name_field a) t in
    let head_length : length (a.uid ++ name_field a) ≡ 28 =
      omega (arith, length-append a.uid (name_field a), fits.uid_length) in
    record {
      uid = take-append 16 a.uid (name_field a ++ t) fits.uid_length;
      name =
          ap (λ b. trim (take 12 b)) (drop-append 16 a.uid (name_field a ++ t) fits.uid_length)
          ∙ ap trim
              (take-append 12 (name_field a) t n_length ∙ name_field-pad a fits.proxy_method_length)
          ∙ trim-pad a.proxy_method (12 - length a.proxy_method) fits.proxy_method_text;
      method =
          ap (λ b. byte_at b 28) (sym whole)
          ∙ byte_at-append 28 0 (a.uid ++ name_field a) t head_length;
      time =
          ap (λ b. uint64 b 29) (sym whole)
          ∙ uint64-append 28 1 (a.uid ++ name_field a) t head_length
          ∙ time_at a now small;
      session =
          ap (λ b. uint32 b 37) (sym whole)
          ∙ uint32-append 28 9 (a.uid ++ name_field a) t head_length
          ∙ session_at a now fits.session_id_lt;
      flag =
          ap (λ b. byte_at b 41) (sym whole)
          ∙ byte_at-append 28 13 (a.uid ++ name_field a) t head_length;
      size = omega (
        arith,
        length-append a.uid (name_field a ++ t),
        length-append (name_field a) t,
        fits.uid_length,
      );
    }

-- What the client says of itself.
abbrev pub client_info : AuthInfo → ClientInfo
client_info a = record {
  uid = a.uid;
  session_id = a.session_id;
  proxy_method = a.proxy_method;
  encryption_method = a.encryption_method;
  is_unordered = a.is_unordered;
}

flag_bit : (u : Bool) → not (bit_and (if u then 1 else 0) 1 == 0) ≡ u
flag_bit true = refl
flag_bit false = refl

abbrev info_with : Bytes → ℕ → Bytes → ℕ → Bool → ClientInfo
info_with uid session name method flag = record {
  uid = uid;
  session_id = session;
  proxy_method = name;
  encryption_method = method;
  is_unordered = flag;
}

info_of-Reads : (a : AuthInfo) (now : ℕ) (b : Bytes) → Reads a now b → info_of b ≡ client_info a
unfolding info_of
info_of-Reads a now b r =
    ap
      (λ x.
        info_with x (uint32 b 37) (trim (take 12 (drop 16 b))) (byte_at b 28)
          (not (bit_and (byte_at b 41) 1 == 0)))
      r.uid
    ∙ ap
        (λ x.
          info_with a.uid x (trim (take 12 (drop 16 b))) (byte_at b 28)
            (not (bit_and (byte_at b 41) 1 == 0)))
        r.session
    ∙ ap (λ x. info_with a.uid a.session_id x (byte_at b 28) (not (bit_and (byte_at b 41) 1 == 0)))
        r.name
    ∙ ap (λ x. info_with a.uid a.session_id a.proxy_method x (not (bit_and (byte_at b 41) 1 == 0)))
        r.method
    ∙ ap
        (λ x.
          info_with a.uid a.session_id a.proxy_method a.encryption_method (not (bit_and x 1 == 0)))
        r.flag
    ∙ ap (info_with a.uid a.session_id a.proxy_method a.encryption_method) (flag_bit a.is_unordered)

pub plaintext_of-Reads :
    (a : AuthInfo) (now : ℕ) → Fits a → now < 2 ^ 64 → Reads a now (plaintext_of a now)
plaintext_of-Reads a now fits small =
    subst (Reads a now) (sym (plaintext_of-split a now fits.uid_length))
      (split-Reads a now fits small)

-- What decryption with the right key gives, within the window.
pub decrypt_client_info-plaintext_of :
    (aes : AesGcm) (a : AuthInfo) (f : AuthFragments) (now server_time : ℕ)
    → Fits a
    → in_window now server_time ≡ true
    → aes_gcm_decrypt aes (take 12 f.rand_pub_key) f.shared_secret f.ciphertext_with_tag
      ≡ some (plaintext_of a now)
    → decrypt_client_info aes f server_time ≡ ok (client_info a)
unfolding decrypt_client_info
decrypt_client_info-plaintext_of aes a f now server_time fits window opened =
    let small : now < 2 ^ 64 = ground arith in
    let r = plaintext_of-Reads a now fits small in
    let timely : in_window (uint64 (plaintext_of a now) 29) server_time ≡ true =
      ap (λ t. in_window t server_time) r.time ∙ window in
    ground (arith, info_of-Reads a now (plaintext_of a now) r)
