-- ===== src/Multiplex/Obfs/RoundTrip.antt =====
-- internal/multiplex/obfs.go: what one side obfuscates, the other side reads back.
use cloak.Prelude.{
  ℕ, ◌+◌, ◌-◌, ◌/◌, ◌%◌, ◌≤◌, ◌<◌, ◌≡◌, refl, sym, ap, ◌∙◌, Bytes, length, take, drop, byte_at,
  uint32, uint64, ◌++◌, Option, none, some, arith, digits32, length-append, take-append,
  drop-append, drop-append_add, length-take, le→ltb, lt→==_zero, take-append_le, take-take,
  append_assoc,
}
use cloak.Multiplex.Frame.{Frame, InRange}
use cloak.Multiplex.Obfs.{
  Aead, Salsa20, Obfuscator, Entropy, ok, tag_len_of, pad_len_of, header_of, body_of, assemble,
  payload_in, obfuscate, open_in_place, frame_of, read_frame, deobfuscate, max_extra_len,
}

length-header_of : (f : Frame) (extra : ℕ) → length (header_of f extra) ≡ 14
unfolding header_of
length-header_of f extra = refl

stream_id_lem : (f : Frame) (e : ℕ) → InRange f → uint32 (header_of f e) 0 ≡ f.stream_id
unfolding header_of uint32
stream_id_lem f e r = omega arith

seq_lem : (f : Frame) (e : ℕ) → InRange f → uint64 (header_of f e) 4 ≡ f.seq
unfolding header_of uint64
seq_lem f e r = omega (
  arith,
  digits32 (f.seq / 4294967296) (omega arith),
  digits32 (f.seq % 4294967296) (omega arith),
)

closing_lem : (f : Frame) (e : ℕ) → InRange f → byte_at (header_of f e) 12 ≡ f.closing
unfolding header_of
closing_lem f e r = omega arith

extra_lem : (f : Frame) (e : ℕ) → e < 256 → byte_at (header_of f e) 13 ≡ e
unfolding header_of
extra_lem f e h = omega arith

frame_of-header_of : (f : Frame) (e : ℕ) → InRange f → frame_of (header_of f e) f.payload ≡ f
unfolding frame_of
frame_of-header_of f e r = cc (stream_id_lem f e r, seq_lem f e r, closing_lem f e r)

length-body_of :
    (c : Option Aead) (header payload random : Bytes) (n : ℕ)
    → length (payload ++ random) ≡ n + tag_len_of c
    → length (body_of c header payload random n) ≡ n + tag_len_of c
unfolding body_of
length-body_of none header payload random n h = h
length-body_of (some c) header payload random n h = omega (
  arith,
  c.length-seal (take c.nonce_size header) (take n (payload ++ random)),
  length-take n (payload ++ random),
)

open-body_of :
    (c : Option Aead) (header payload random : Bytes) (n : ℕ)
    → length payload ≤ n
    → length (payload ++ random) ≡ n + tag_len_of c
    → (plain : Bytes) × (open_in_place c header (body_of c header payload random n) ≡ ok plain)
      × (take (length payload) plain ≡ payload)
unfolding body_of open_in_place
open-body_of none header payload random n le h =
    (payload ++ random, refl, take-append (length payload) payload random refl)
open-body_of (some c) header payload random n le h =
    let plain = take n (payload ++ random) in
    let body = c.seal (take c.nonce_size header) plain in
    (
      plain ++ drop (length plain) body,
      rw (c.open-seal (take c.nonce_size header) plain),
      take-append_le (length payload) plain (drop (length plain) body)
            (omega (arith, length-take n (payload ++ random)))
          ∙ take-take (length payload) n (payload ++ random) le
          ∙ take-append (length payload) payload random refl,
    )

-- The last bytes of a wire message do not depend on its header.
drop_tail :
    (h body : Bytes) (n : ℕ)
    → length h ≡ 14
    → 14 + length body ≡ n
    → 8 ≤ length body
    → drop (n - 8) (h ++ body) ≡ drop (length body - 8) body
drop_tail h body n hl bl enough =
    let e : n - 8 ≡ 14 + (length body - 8) = omega arith in
    rw e (drop-append_add 14 (length body - 8) h body hl)

take-assemble :
    (salsa : Salsa20) (key header body buf : Bytes) (n : ℕ)
    → length header ≡ 14
    → 14 + length body ≡ n
    → take n (assemble salsa key n header body buf)
      ≡ salsa.xor_key_stream (drop (n - 8) (header ++ body)) key header ++ body
unfolding assemble
take-assemble salsa key header body buf n hl bl =
    let sealed = salsa.xor_key_stream (drop (n - 8) (header ++ body)) key header in
    ap (take n) (sym (append_assoc sealed body (drop n buf)))
    ∙ take-append n (sealed ++ body) (drop n buf) (
        omega (
          arith,
          length-append sealed body,
          salsa.length-xor (drop (n - 8) (header ++ body)) key header,
        ))

-- The receiver cuts the message at the same places, and draws the same key stream.
deobfuscate_wire :
    (salsa : Salsa20) (o : Obfuscator) (header sealed body : Bytes) (n : ℕ)
    → length header ≡ 14
    → length sealed ≡ 14
    → 14 + length body ≡ n
    → 8 ≤ length body
    → salsa.xor_key_stream (drop (n - 8) (header ++ body)) o.session_key header ≡ sealed
    → deobfuscate salsa o (sealed ++ body) ≡ read_frame o header body
unfolding deobfuscate
deobfuscate_wire salsa o header sealed body n hl sl bl enough e =
    let total : length (sealed ++ body) ≡ n = omega (arith, length-append sealed body) in
    let same_nonce : drop (n - 8) (sealed ++ body) ≡ drop (n - 8) (header ++ body) =
      drop_tail sealed body n sl bl enough ∙ sym (drop_tail header body n hl bl enough) in
    rw (
      total,
      same_nonce,
      take-append 14 sealed body sl,
      drop-append 14 sealed body sl,
      le→ltb n 22 (omega arith),
      ← e,
      salsa.xor_twice (drop (n - 8) (header ++ body)) o.session_key header,
    )

deobfuscate-assemble :
    (salsa : Salsa20) (o : Obfuscator) (header body buf : Bytes) (n : ℕ)
    → length header ≡ 14
    → 14 + length body ≡ n
    → 8 ≤ length body
    → deobfuscate salsa o (take n (assemble salsa o.session_key n header body buf))
      ≡ read_frame o header body
deobfuscate-assemble salsa o header body buf n hl bl enough =
    rw (take-assemble salsa o.session_key header body buf n hl bl) (
      deobfuscate_wire salsa o header
        (salsa.xor_key_stream (drop (n - 8) (header ++ body)) o.session_key header) body n hl
        (salsa.length-xor (drop (n - 8) (header ++ body)) o.session_key header ∙ hl) bl enough refl)

read_opened :
    (o : Obfuscator) (header body plain : Bytes) (extra k : ℕ)
    → byte_at header 13 ≡ extra
    → length body ≡ k + extra
    → open_in_place o.payload_cipher header body ≡ ok plain
    → read_frame o header body ≡ ok (frame_of header (take k plain))
unfolding read_frame
read_opened o header body plain extra k he size opened =
    let useful : k + extra - extra ≡ k = omega arith in
    rw (he, size, le→ltb (k + extra) extra (omega arith), opened, he, size, useful)

-- Reading back a header and a body that belong to a frame.
read_frame_lem :
    (o : Obfuscator) (f : Frame) (random : Bytes) (pad : ℕ)
    → InRange f
    → pad + tag_len_of o.payload_cipher < 256
    → length random ≡ pad + tag_len_of o.payload_cipher
    → let header = header_of f (pad + tag_len_of o.payload_cipher) in
      read_frame o header
        (body_of o.payload_cipher header f.payload random (length f.payload + pad))
      ≡ ok f
read_frame_lem o f random pad r small rl =
    let tag = tag_len_of o.payload_cipher in
    let header = header_of f (pad + tag) in
    let n = length f.payload + pad in
    let body = body_of o.payload_cipher header f.payload random n in
    let split : length (f.payload ++ random) ≡ n + tag =
      omega (arith, length-append f.payload random) in
    let size = length-body_of o.payload_cipher header f.payload random n split in
    let (plain, opened, kept) =
      open-body_of o.payload_cipher header f.payload random n (omega arith) split in
    read_opened o header body plain (pad + tag) (length f.payload) (extra_lem f (pad + tag) small)
      (omega (arith, size)) opened
    ∙ ap (λ p. ok (frame_of header p)) kept
    ∙ ap ok (frame_of-header_of f (pad + tag) r)

-- The outcomes that the random sources leave open are within the header's one byte.
tag_bounds : (c : Option Aead) → (8 ≤ tag_len_of c) × (tag_len_of c ≤ 16)
tag_bounds none = omega arith
tag_bounds (some c) = omega (arith, c.overhead_eq)

pad_bound :
    (rnd : Entropy) (seq : ℕ) (c : Option Aead)
    → pad_len_of rnd seq (tag_len_of c) + tag_len_of c < 256
unfolding pad_len_of
pad_bound rnd seq c =
    ground (arith, tag_bounds c, rnd.rand_int_lt (max_extra_len - tag_len_of c + 1))

-- A frame with a payload is obfuscated into a large enough buffer, whatever the random sources
-- give, and the other side reads the same frame from the bytes that go on the wire: at least 8
-- bytes and at most 255 more than header and payload. The frame's fields lie within their Go
-- types, its payload lies in the buffer already if its offset is 14, and `rand.Read` succeeds.
pub deobfuscate-obfuscate :
    (salsa : Salsa20) (rnd : Entropy) (o : Obfuscator) (f : Frame) (buf random : Bytes) (offset : ℕ)
    → InRange f
    → 0 < length f.payload
    → length f.payload + 269 ≤ length buf
    → payload_in f buf offset ≡ f.payload
    → let tag = tag_len_of o.payload_cipher in
      rnd.rand_read (pad_len_of rnd f.seq tag + tag) ≡ some random
      → (n : ℕ) × (out : Bytes) × (obfuscate salsa rnd o f buf offset ≡ ok (n, out))
        × (deobfuscate salsa o (take n out) ≡ ok f)
        × (length f.payload + 22 ≤ n)
        × (n ≤ length f.payload + 269)
unfolding obfuscate
deobfuscate-obfuscate salsa rnd o f buf random offset r some_payload room placed drawn =
    let tag = tag_len_of o.payload_cipher in
    let pad = pad_len_of rnd f.seq tag in
    let n = 14 + length f.payload + pad + tag in
    let header = header_of f (pad + tag) in
    let body = body_of o.payload_cipher header f.payload random (length f.payload + pad) in
    let small = pad_bound rnd f.seq o.payload_cipher in
    let tags = tag_bounds o.payload_cipher in
    let rl = rnd.length-rand_read (pad + tag) random drawn in
    let size =
      length-body_of o.payload_cipher header f.payload random (length f.payload + pad)
        (omega (arith, length-append f.payload random)) in
    (
      n,
      assemble salsa o.session_key n header body buf,
      rw (
        lt→==_zero (length f.payload) some_payload,
        le→ltb (length buf) n (omega arith),
        drawn,
        placed,
      ),
      deobfuscate-assemble salsa o header body buf n (length-header_of f (pad + tag))
            (omega (arith, size)) (omega (arith, size))
          ∙ read_frame_lem o f random pad r small rl,
      omega arith,
      omega arith,
    )
