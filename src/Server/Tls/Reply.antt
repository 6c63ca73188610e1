-- ===== src/Server/Tls/Reply.antt =====
-- internal/server/TLS.go and TLSAux.go against internal/client/TLS.go: the client finds the session
-- key in the server's reply.
use mathlib.Core.Path.{ap₂}
use cloak.Prelude.{
  ℕ, ◌≤◌, ◌≡◌, refl, ap, sym, ◌∙◌, Bytes, take, drop, length, copy_into, to_array, to_array_exact,
  replicate, [], ◌∷◌, ◌++◌, some, arith, append_assoc, length-append, take-append, drop-append,
  length-take, length-drop, length-copy_into, take-append-drop,
}
use cloak.Ecdh.{AesGcm, aes_gcm_encrypt, aes_gcm_decrypt, aes_gcm_decrypt-encrypt}
use cloak.Tls.{add_record_layer, record_ok, read_record}
use cloak.Tls.Records.{read_record-add_record_layer}
use cloak.Client.Tls.{buf_after, encrypted_in, open_key, finish_handshake}
use cloak.Server.Tls.{compose_server_hello, compose_reply, respond}

copy_into-short :
    (dst src : Bytes) → length src ≤ length dst → copy_into dst src ≡ src ++ drop (length src) dst
unfolding copy_into
copy_into-short [] [] h = refl
copy_into-short [] (s ∷ src) h = absurd (omega arith)
copy_into-short (d ∷ dst) [] h = refl
copy_into-short (d ∷ dst) (s ∷ src) h = ap (◌∷◌ s) (copy_into-short dst src (omega arith))

-- What stands between a prefix and a suffix.
segment :
    (i n : ℕ) (a m b : Bytes) → length a ≡ i → length m ≡ n → take n (drop i (a ++ (m ++ b))) ≡ m
segment i n a m b hi hn = ap (take n) (drop-append i a (m ++ b) hi) ∙ take-append n m b hn

abbrev head6 : Bytes
head6 = 2 ∷ 0 ∷ 0 ∷ 118 ∷ 3 ∷ 3 ∷ []

abbrev middle13 : Bytes
middle13 = 19 ∷ 2 ∷ 0 ∷ 0 ∷ 46 ∷ 0 ∷ 51 ∷ 0 ∷ 36 ∷ 0 ∷ 29 ∷ 0 ∷ 32 ∷ []

abbrev end6 : Bytes
end6 = 0 ∷ 43 ∷ 0 ∷ 2 ∷ 3 ∷ 4 ∷ []

-- The two parts that carry the nonce and the sealed key.
abbrev random_part : Bytes → Bytes → Bytes
random_part nonce enc = nonce ++ take 20 enc

abbrev exchange_part : Bytes → Bytes → Bytes
exchange_part enc filler = drop 20 enc ++ filler

exchange-eq :
    (enc : Bytes)
    → length enc ≡ 48
    → take 28 (copy_into (replicate 32 0) (drop 20 enc)) ≡ drop 20 enc
exchange-eq enc h =
    let e : length (drop 20 enc) ≡ 28 = omega (arith, length-drop 20 enc) in
    ap (take 28) (copy_into-short (replicate 32 0) (drop 20 enc) (omega arith))
    ∙ take-append 28 (drop 20 enc) (drop (length (drop 20 enc)) (replicate 32 0)) e

regroup :
    (a r s m k e t : Bytes) (c : ℕ)
    → (a ++ (r ++ (c ∷ (s ++ (m ++ (k ++ e)))))) ++ t
      ≡ (a ++ (r ++ (c ∷ (s ++ m)))) ++ (k ++ (e ++ t))
regroup a r s m k e t c = simp append_assoc refl

encrypted_in-hello :
    (session_id nonce enc filler tail : Bytes)
    → length session_id ≡ 32
    → length nonce ≡ 12
    → length enc ≡ 48
    → length filler ≡ 4
    → encrypted_in (compose_server_hello session_id nonce enc filler ++ tail)
      ≡ random_part nonce enc ++ exchange_part enc filler
unfolding compose_server_hello
encrypted_in-hello session_id nonce enc filler tail hs hn he hf =
    let r = random_part nonce enc in
    let k = exchange_part enc filler in
    let x = take 28 (copy_into (replicate 32 0) (drop 20 enc)) ++ filler in
    let same : x ≡ k = ap (λ b. b ++ filler) (exchange-eq enc he) in
    let r_length : length r ≡ 32 =
      omega (arith, length-append nonce (take 20 enc), length-take 20 enc) in
    let k_length : length k ≡ 32 =
      omega (arith, length-append (drop 20 enc) filler, length-drop 20 enc) in
    let pre = r ++ (32 ∷ (session_id ++ middle13)) in
    let pre_length : length (head6 ++ pre) ≡ 84 =
      omega (
        arith,
        length-append r (32 ∷ (session_id ++ middle13)),
        length-append session_id middle13,
      ) in
    let first =
      ap (λ b. take 32 (drop 6 b))
        (append_assoc head6 (r ++ (32 ∷ (session_id ++ (middle13 ++ (x ++ end6))))) tail)
      ∙ ap (take 32) (append_assoc r (32 ∷ (session_id ++ (middle13 ++ (x ++ end6)))) tail)
      ∙ take-append 32 r ((32 ∷ (session_id ++ (middle13 ++ (x ++ end6)))) ++ tail) r_length in
    let second =
      ap (λ b. take 32 (drop 84 b)) (regroup head6 r session_id middle13 x end6 tail 32)
      ∙ segment 84 32 (head6 ++ pre) x (end6 ++ tail) pre_length (ap length same ∙ k_length)
      ∙ same in
    ap₂ (λ b c. b ++ c) first second

length-hello :
    (session_id nonce enc filler : Bytes)
    → length session_id ≡ 32
    → length nonce ≡ 12
    → length enc ≡ 48
    → length filler ≡ 4
    → length (compose_server_hello session_id nonce enc filler) ≡ 122
unfolding compose_server_hello
length-hello session_id nonce enc filler hs hn he hf =
    let x = take 28 (copy_into (replicate 32 0) (drop 20 enc)) in
    let x_length : length x ≡ 28 =
      omega (arith, ap length (exchange-eq enc he), length-drop 20 enc) in
    omega (
      arith,
      length-append (nonce ++ take 20 enc)
          (32 ∷ (session_id ++ (middle13 ++ ((x ++ filler) ++ end6)))),
      length-append nonce (take 20 enc),
      length-take 20 enc,
      length-append session_id (middle13 ++ ((x ++ filler) ++ end6)),
      length-append (x ++ filler) end6,
      length-append x filler,
    )

-- The nonce and the sealed key, as the client cuts them out.
cut_parts :
    (nonce enc filler : Bytes)
    → length nonce ≡ 12
    → length enc ≡ 48
    → let b = random_part nonce enc ++ exchange_part enc filler in
      (take 12 b ≡ nonce) × (take 48 (drop 12 b) ≡ enc)
cut_parts nonce enc filler hn he =
    let whole : random_part nonce enc ++ exchange_part enc filler ≡ nonce ++ (enc ++ filler) =
      append_assoc nonce (take 20 enc) (drop 20 enc ++ filler)
      ∙ ap (◌++◌ nonce) (
          sym (append_assoc (take 20 enc) (drop 20 enc) filler)
          ∙ ap (λ c. c ++ filler) (take-append-drop 20 enc)) in
    (
      ap (take 12) whole ∙ take-append 12 nonce (enc ++ filler) hn,
      ap (λ b. take 48 (drop 12 b)) whole ∙ segment 12 48 nonce enc filler hn he,
    )

-- The client's buffer after the first record.
buf_after-hello :
    (stream m : Bytes) → length m ≡ 122 → (tail : Bytes) × (buf_after stream m ≡ m ++ tail)
unfolding buf_after
buf_after-hello stream m h =
    let b = copy_into (replicate 1024 0) (take 5 stream) in
    (
      drop (length m) b,
      copy_into-short b m (omega (arith, length-copy_into (replicate 1024 0) (take 5 stream))),
    )

respond-some :
    (aes : AesGcm) (session_id shared_secret session_key nonce filler cert sealed : Bytes)
    → aes_gcm_encrypt aes nonce shared_secret session_key ≡ some sealed
    → respond aes session_id shared_secret session_key nonce filler cert
      ≡ some (compose_reply session_id nonce (to_array 48 sealed) filler cert)
unfolding respond
respond-some aes session_id shared_secret session_key nonce filler cert sealed h = ground (arith, h)

-- A handshake whose three reads and whose decryption go well.
finish_handshake-some :
    (aes : AesGcm) (shared_secret stream m key s1 s2 s3 m2 m3 : Bytes)
    → read_record stream 1024 ≡ (record_ok m, s1)
    → open_key aes shared_secret (buf_after stream m) ≡ some key
    → read_record s1 1024 ≡ (record_ok m2, s2)
    → read_record s2 1024 ≡ (record_ok m3, s3)
    → finish_handshake aes shared_secret stream ≡ some (to_array 32 key, s3)
unfolding finish_handshake
finish_handshake-some aes shared_secret stream m key s1 s2 s3 m2 m3 first opened second third =
    ground (arith, first, opened, second, third)

-- A session key of 32 bytes that the server seals for a client with the same shared secret, and puts
-- into its reply with a nonce of 12 bytes, four random bytes and a certificate of at most 1024, is
-- what the client's handshake makes of the reply: the server does reply, and the client reads
-- exactly the reply's three records and returns the key.
pub finish_handshake-respond :
    (aes : AesGcm) (session_id shared_secret session_key nonce filler cert rest : Bytes)
    → length session_id ≡ 32
    → length shared_secret ≡ 32
    → length session_key ≡ 32
    → length nonce ≡ 12
    → length filler ≡ 4
    → length cert ≤ 1024
    → (reply : Bytes) × (respond aes session_id shared_secret session_key nonce filler cert
        ≡ some reply)
      × (finish_handshake aes shared_secret (reply ++ rest) ≡ some (session_key, rest))
unfolding compose_reply
finish_handshake-respond aes session_id shared_secret session_key nonce filler cert rest hs hk hkey
      hn hf hc =
    let (sealed, enc_ok, dec_ok, sealed_length) =
      aes_gcm_decrypt-encrypt aes nonce shared_secret session_key hn hk in
    let enc_length : length sealed ≡ 48 = omega arith in
    let array : to_array 48 sealed ≡ sealed = to_array_exact 48 sealed enc_length in
    let sh = compose_server_hello session_id nonce sealed filler in
    let sh_length = length-hello session_id nonce sealed filler hs hn enc_length hf in
    let r2 = add_record_layer (1 ∷ []) 20 771 in
    let r3 = add_record_layer cert 23 771 in
    let reply = add_record_layer sh 22 771 ++ (r2 ++ r3) in
    let stream = reply ++ rest in
    let nested : stream ≡ add_record_layer sh 22 771 ++ (r2 ++ (r3 ++ rest)) =
      append_assoc (add_record_layer sh 22 771) (r2 ++ r3) rest
      ∙ ap (◌++◌ (add_record_layer sh 22 771)) (append_assoc r2 r3 rest) in
    let first : read_record stream 1024 ≡ (record_ok sh, r2 ++ (r3 ++ rest)) =
      ap (λ s. read_record s 1024) nested
      ∙ read_record-add_record_layer sh (r2 ++ (r3 ++ rest)) 22 771 1024 (omega arith) (omega arith)
          (omega arith) in
    let second : read_record (r2 ++ (r3 ++ rest)) 1024 ≡ (record_ok (1 ∷ []), r3 ++ rest) =
      read_record-add_record_layer (1 ∷ []) (r3 ++ rest) 20 771 1024 (omega arith) (omega arith)
        (omega arith) in
    let third : read_record (r3 ++ rest) 1024 ≡ (record_ok cert, rest) =
      read_record-add_record_layer cert rest 23 771 1024 (omega arith) hc (omega arith) in
    let (tail, buf_eq) = buf_after-hello stream sh sh_length in
    let found : encrypted_in (buf_after stream sh)
        ≡ random_part nonce sealed ++ exchange_part sealed filler =
      ap encrypted_in buf_eq
      ∙ encrypted_in-hello session_id nonce sealed filler tail hs hn enc_length hf in
    let (cut_nonce, cut_sealed) = cut_parts nonce sealed filler hn enc_length in
    let opened : open_key aes shared_secret (buf_after stream sh) ≡ some session_key =
      ap₂ (λ n c. aes_gcm_decrypt aes n shared_secret c) (ap (take 12) found ∙ cut_nonce)
        (ap (λ b. take 48 (drop 12 b)) found ∙ cut_sealed)
      ∙ dec_ok in
    let key_array = to_array_exact 32 session_key hkey in
    (
      reply,
      respond-some aes session_id shared_secret session_key nonce filler cert sealed enc_ok
          ∙ ap (λ b. some (compose_reply session_id nonce b filler cert)) array,
      finish_handshake-some aes shared_secret stream sh session_key (r2 ++ (r3 ++ rest))
            (r3 ++ rest) rest (1 ∷ []) cert first opened second third
          ∙ ap (λ k. some (k, rest)) key_array,
    )
