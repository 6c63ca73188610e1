-- ===== src/Prelude/Endian.antt =====
-- Byte slices, and the big-endian integers of Go's `encoding/binary`.
use Prim.Native.Nat.{zero, suc, ℕ, ◌+◌, ◌*◌, ◌/◌, ◌%◌, ◌^◌, ◌<◌}
use mathlib.Core.Path.{◌≡◌, refl, ap, sym, ◌∙◌}
use mathlib.Core.List.{List, [], ◌∷◌, ◌++◌, append-nil}
use native.Mathlib.Omega.{arith}
use cloak.Prelude.Lists.{get_or, length, replicate, length-replicate}

-- A byte is a number below 256; the functions that make bytes reduce them.
abbrev pub Bytes : Type 0
Bytes = List ℕ

-- `b[i]` of a slice that is known to be long enough.
abbrev pub byte_at : Bytes → ℕ → ℕ
byte_at b i = get_or b i 0

unfoldable pub put_uint16 : ℕ → Bytes
put_uint16 v = (v / 256 % 256) ∷ (v % 256) ∷ []

unfoldable pub put_uint32 : ℕ → Bytes
put_uint32 v = (v / 16777216 % 256) ∷ (v / 65536 % 256) ∷ (v / 256 % 256) ∷ (v % 256) ∷ []

unfoldable pub put_uint64 : ℕ → Bytes
unfolding put_uint32
put_uint64 v = put_uint32 (v / 4294967296) ++ put_uint32 (v % 4294967296)

unfoldable pub uint16 : Bytes → ℕ
uint16 b = byte_at b 0 * 256 + byte_at b 1

-- The big-endian number at offset `i`.
unfoldable pub uint32 : Bytes → ℕ → ℕ
uint32 b i =
    byte_at b i * 16777216 + byte_at b (i + 1) * 65536 + byte_at b (i + 2) * 256 + byte_at b (i + 3)

unfoldable pub uint64 : Bytes → ℕ → ℕ
unfolding uint32
uint64 b i = uint32 b i * 4294967296 + uint32 b (i + 4)

pub uint16-put_uint16 : (v : ℕ) → v < 2 ^ 16 → uint16 (put_uint16 v) ≡ v
unfolding uint16 put_uint16
uint16-put_uint16 v h = omega arith

pub digits32 :
    (v : ℕ)
    → v < 4294967296
    → v / 16777216 % 256 * 16777216 + v / 65536 % 256 * 65536 + v / 256 % 256 * 256 + v % 256 ≡ v
digits32 v h = omega arith

pub halves64 : (v : ℕ) → v / 4294967296 * 4294967296 + v % 4294967296 ≡ v
halves64 v = omega arith

-- Go's `copy(dst, src)`: as many elements as both have.
unfoldable pub copy_into : Bytes → Bytes → Bytes
copy_into [] src = []
copy_into (d ∷ dst) [] = d ∷ dst
copy_into (d ∷ dst) (s ∷ src) = s ∷ copy_into dst src

pub copy_into-append :
    (src dst rest : Bytes) → length dst ≡ length src → copy_into (dst ++ rest) src ≡ src ++ rest
unfolding copy_into
copy_into-append [] [] [] h = refl
copy_into-append [] [] (r ∷ rest) h = refl
copy_into-append [] (d ∷ dst) rest h = absurd (omega arith)
copy_into-append (s ∷ src) [] rest h = absurd (omega arith)
copy_into-append (s ∷ src) (d ∷ dst) rest h =
    ap (◌∷◌ s) (copy_into-append src dst rest (omega arith))

pub length-copy_into : (dst src : Bytes) → length (copy_into dst src) ≡ length dst
unfolding copy_into
length-copy_into [] src = refl
length-copy_into (d ∷ dst) [] = refl
length-copy_into (d ∷ dst) (s ∷ src) = ap suc (length-copy_into dst src)

-- `[n]byte` filled by `copy`: a prefix of the slice, and zeros where it is too short.
abbrev pub to_array : ℕ → Bytes → Bytes
to_array n b = copy_into (replicate n 0) b

pub to_array_exact : (n : ℕ) (b : Bytes) → length b ≡ n → to_array n b ≡ b
to_array_exact n b h =
    ap (λ d. copy_into d b) (sym (append-nil (replicate n 0)))
    ∙ copy_into-append b (replicate n 0) [] (length-replicate n 0 ∙ sym h)
    ∙ append-nil b

-- Reading behind a prefix of known length.
pub byte_at-append :
    (n i : ℕ) (xs ys : Bytes) → length xs ≡ n → byte_at (xs ++ ys) (n + i) ≡ byte_at ys i
byte_at-append zero i [] ys h = let e : 0 + i ≡ i = omega arith in ap (byte_at ys) e
byte_at-append zero i (x ∷ xs) ys h = absurd (omega arith)
byte_at-append (suc n) i [] ys h = absurd (omega arith)
byte_at-append (suc n) i (x ∷ xs) ys h =
    let e : suc n + i ≡ suc (n + i) = omega arith in
    ap (byte_at (x ∷ (xs ++ ys))) e ∙ byte_at-append n i xs ys (omega arith)

pub uint32-append :
    (n i : ℕ) (xs ys : Bytes) → length xs ≡ n → uint32 (xs ++ ys) (n + i) ≡ uint32 ys i
unfolding uint32
uint32-append n i xs ys h =
    let at : (k : ℕ) → byte_at (xs ++ ys) (n + i + k) ≡ byte_at ys (i + k) = λ k.
      let e : n + i + k ≡ n + (i + k) = omega arith in
      ap (byte_at (xs ++ ys)) e ∙ byte_at-append n (i + k) xs ys h in
    omega (arith, byte_at-append n i xs ys h, at 1, at 2, at 3)

pub uint64-append :
    (n i : ℕ) (xs ys : Bytes) → length xs ≡ n → uint64 (xs ++ ys) (n + i) ≡ uint64 ys i
unfolding uint64
uint64-append n i xs ys h =
    let e : n + i + 4 ≡ n + (i + 4) = omega arith in
    omega
      (arith, uint32-append n i xs ys h, ap (uint32 (xs ++ ys)) e ∙ uint32-append n (i + 4) xs ys h)

-- The numbers that were put at the start of a slice.
pub uint32-put_uint32 : (v : ℕ) (rest : Bytes) → v < 2 ^ 32 → uint32 (put_uint32 v ++ rest) 0 ≡ v
unfolding uint32 put_uint32
uint32-put_uint32 v rest h = omega (arith, digits32 v h)

pub uint64-put_uint64 : (v : ℕ) (rest : Bytes) → v < 2 ^ 64 → uint64 (put_uint64 v ++ rest) 0 ≡ v
unfolding uint64 put_uint64
uint64-put_uint64 v rest h =
    omega (arith, digits32 (v / 4294967296) (omega arith), digits32 (v % 4294967296) (omega arith))
