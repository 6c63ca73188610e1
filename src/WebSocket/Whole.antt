-- ===== src/WebSocket/Whole.antt =====
-- internal/common/websocket.go: a message is read whole or refused.
use cloak.Prelude.{
  ℕ, zero, suc, ◌+◌, ◌-◌, ◌≤◌, ◌<◌, ◌≡◌, refl, ap, ◌∙◌, min, Bytes, true, false, length, take, drop,
  [], ◌∷◌, ◌++◌, ◌==◌, if◌then◌else◌, arith, append-nil, append_assoc, length-take, sym, leb,
  Bool-cases, inl, inr,
}
use cloak.WebSocket.{binary, read_ok, too_large, read_message, read}

cut_whole : (n : ℕ) (m : Bytes) → take n m ++ drop (length (take n m)) m ≡ m
cut_whole zero m = refl
cut_whole (suc n) [] = refl
cut_whole (suc n) (x ∷ m) = ap (◌∷◌ x) (cut_whole n m)

cut_sizes : (n : ℕ) (m : Bytes) → length (drop (length (take n m)) m) + length (take n m) ≡ length m
cut_sizes zero m = omega arith
cut_sizes (suc n) [] = refl
cut_sizes (suc n) (x ∷ m) = omega (arith, cut_sizes n m)

-- A round that gets something, and one that finds the buffer full.
module _ (chunk : ℕ → ℕ) (fuel k x : ℕ) (rest : Bytes) (free : ℕ) (acc : Bytes) where
  abbrev got : Bytes
  got = take (min (chunk k) free) (x ∷ rest)

  read_message_goes_on :
      (length got == 0) ≡ false
      → read_message chunk true (suc fuel) k (x ∷ rest) free acc
        ≡ read_message chunk true fuel
            (k + 1)
            (drop (length got) (x ∷ rest))
            (free - length got)
            (acc ++ got)
  unfolding read_message
  read_message_goes_on e = rw (read_message, e) refl

  read_message_stops :
      (length got == 0) ≡ true
      → read_message chunk true (suc fuel) k (x ∷ rest) free acc ≡ too_large acc
  unfolding read_message
  read_message_stops e = rw (read_message, e) refl

read_message-whole :
    (chunk : ℕ → ℕ) (fuel k : ℕ) (rest : Bytes) (free : ℕ) (acc : Bytes)
    → ((k : ℕ) → 0 < chunk k)
    → length rest ≤ free
    → length rest < fuel
    → read_message chunk true fuel k rest free acc ≡ read_ok (acc ++ rest)
unfolding read_message
read_message-whole chunk zero k rest free acc some_byte fits enough =
    let absurd : ⊥ = omega (arith, enough) in elim absurd [ ]
read_message-whole chunk (suc fuel) k [] free acc some_byte fits enough =
    ap read_ok (sym (append-nil acc))
read_message-whole chunk (suc fuel) k (x ∷ rest) free acc some_byte fits enough =
    let n = min (chunk k) free in
    let off = cut_sizes n (x ∷ rest) in
    let size = length-take n (x ∷ rest) in
    let later =
      read_message-whole chunk fuel (k + 1) (drop (length (take n (x ∷ rest))) (x ∷ rest))
        (free - length (take n (x ∷ rest))) (acc ++ take n (x ∷ rest)) some_byte
        (omega (arith, off, fits)) (omega (arith, off, enough, size, some_byte k, fits)) in
    let all = append_assoc acc (take n (x ∷ rest)) (drop (length (take n (x ∷ rest))) (x ∷ rest)) in
    let moved : (length (take n (x ∷ rest)) == 0) ≡ false =
      ground (arith, size, some_byte k, fits) in
    read_message_goes_on chunk fuel k x rest free acc moved
    ∙ later
    ∙ ap read_ok (all ∙ ap (◌++◌ acc) (cut_whole n (x ∷ rest)))

take_nil : (n : ℕ) → take {A = ℕ} n [] ≡ []
take_nil zero = refl
take_nil (suc n) = refl

take_more :
    (free n : ℕ) (m : Bytes)
    → n ≤ free
    → take n m ++ take (free - length (take n m)) (drop (length (take n m)) m) ≡ take free m
take_more free zero m h = ap (λ k. take k m) (omega arith)
take_more zero (suc n) m h = let absurd : ⊥ = omega (arith, h) in elim absurd [ ]
take_more (suc free) (suc n) [] h = take_nil (suc free - 0)
take_more (suc free) (suc n) (x ∷ m) h =
    ap (λ k. x ∷ (take n m ++ take k (drop (length (take n m)) m))) (omega arith)
    ∙ ap (◌∷◌ x) (take_more free n m (omega (arith, h)))

read_message-too_large :
    (chunk : ℕ → ℕ) (fuel k : ℕ) (rest : Bytes) (free : ℕ) (acc : Bytes)
    → ((k : ℕ) → 0 < chunk k)
    → free < length rest
    → length rest < fuel
    → read_message chunk true fuel k rest free acc ≡ too_large (acc ++ take free rest)
unfolding read_message
read_message-too_large chunk zero k rest free acc some_byte long enough =
    let absurd : ⊥ = omega (arith, enough) in elim absurd [ ]
read_message-too_large chunk (suc fuel) k [] free acc some_byte long enough =
    let absurd : ⊥ = omega (arith, long) in elim absurd [ ]
read_message-too_large chunk (suc fuel) k (x ∷ rest) free acc some_byte long enough =
    let n = min (chunk k) free in
    let off = cut_sizes n (x ∷ rest) in
    let size = length-take n (x ∷ rest) in
    let some = some_byte k in
    let more = take_more free n (x ∷ rest) (omega arith) in
    elim (Bool-cases (length (take n (x ∷ rest)) == 0)) [
      | inl full ↦
          let no_room : 0 ≡ free = ground (arith, size, some, full) in
          read_message_stops chunk fuel k x rest free acc full
          ∙ ap too_large (sym (append-nil acc) ∙ ap (λ r. acc ++ take r (x ∷ rest)) no_room)
      | inr moved ↦
          let later =
            read_message-too_large chunk fuel (k + 1) (drop (length (take n (x ∷ rest))) (x ∷ rest))
              (free - length (take n (x ∷ rest))) (acc ++ take n (x ∷ rest)) some_byte
              (omega (arith, off, long, size)) (ground (arith, off, enough, moved)) in
          let all = append_assoc acc (take n (x ∷ rest)) (
            take (free - length (take n (x ∷ rest)))
              (drop (length (take n (x ∷ rest))) (x ∷ rest))) in
          read_message_goes_on chunk fuel k x rest free acc moved
          ∙ later
          ∙ ap too_large (all ∙ ap (◌++◌ acc) more)
    ]

-- However the reader cuts a binary message, `Read` gives the whole of it if it fits the slice, and
-- an error if it does not.
pub read-whole :
    (chunk : ℕ → ℕ) (m : Bytes) (size : ℕ)
    → ((k : ℕ) → 0 < chunk k)
    → read chunk (binary m) size
      ≡ (if leb (length m) size then read_ok m else too_large (take size m))
unfolding read
read-whole chunk m size some_byte = elim (Bool-cases (leb (length m) size)) [
  | inl fits ↦
      let h : length m ≤ size = ground (arith, fits) in
      rw fits (read_message-whole chunk (length m + 1) 0 m size [] some_byte h (omega arith))
  | inr long ↦
      let h : size < length m = ground (arith, long) in
      rw long (read_message-too_large chunk (length m + 1) 0 m size [] some_byte h (omega arith))
]
