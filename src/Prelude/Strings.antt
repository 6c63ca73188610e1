-- ===== src/Prelude/Strings.antt =====
-- Go's package strings on texts as bytes. `to_lower` is that of ASCII text.
use Prim.Native.Nat.{ℕ, ◌+◌, ◌-◌}
use mathlib.Core.Path.{◌≡◌, refl, ap, ◌∙◌}
use mathlib.Core.Logic.{inl, inr}
use mathlib.Core.Bool.{Bool, true, false, ◌&&◌}
use mathlib.Core.List.{List, [], ◌∷◌, ◌++◌, map}
use mathlib.Core.Option.{Option, none, some}
use native.Mathlib.Omega.{arith}
use cloak.Prelude.Tests.{leb, ◌==◌, if◌then◌else◌, Bool-cases, ==_refl}
use cloak.Prelude.Lists.{length, take, drop, length-append, take-append, drop-append}
use cloak.Prelude.Endian.{Bytes}
use cloak.Prelude.Text.{same_bytes, has_byte}

abbrev cons_head : ℕ → List Bytes → List Bytes
cons_head x [] = (x ∷ []) ∷ []
cons_head x (p ∷ ps) = (x ∷ p) ∷ ps

-- `strings.Split(s, sep)` with a separator of one byte.
abbrev pub split : ℕ → Bytes → List Bytes
split c [] = [] ∷ []
split c (x ∷ s) = if x == c then [] ∷ split c s else cons_head x (split c s)

abbrev cut_later : ℕ → Option (Bytes × Bytes) → Option (Bytes × Bytes)
cut_later x none = none
cut_later x (some (a, b)) = some (x ∷ a, b)

-- `strings.SplitN(s, sep, 2)`: `none` if there is no separator, so that there is one part only.
abbrev pub split_two : ℕ → Bytes → Option (Bytes × Bytes)
split_two c [] = none
split_two c (x ∷ s) = if x == c then some ([], s) else cut_later x (split_two c s)

-- `strings.Join(parts, sep)` with a separator of one byte.
abbrev pub join : ℕ → List Bytes → Bytes
join c [] = []
join c (p ∷ []) = p
join c (p ∷ (q ∷ ps)) = p ++ c ∷ join c (q ∷ ps)

abbrev pub has_prefix : Bytes → Bytes → Bool
has_prefix [] s = true
has_prefix (x ∷ p) [] = false
has_prefix (x ∷ p) (y ∷ s) = x == y && has_prefix p s

abbrev pub trim_prefix : Bytes → Bytes → Bytes
trim_prefix p s = if has_prefix p s then drop (length p) s else s

abbrev pub has_suffix : Bytes → Bytes → Bool
has_suffix p s = leb (length p) (length s) && same_bytes (drop (length s - length p) s) p

abbrev pub trim_suffix : Bytes → Bytes → Bytes
trim_suffix p s = if has_suffix p s then take (length s - length p) s else s

abbrev pub lower_byte : ℕ → ℕ
lower_byte x = if leb b'A' x && leb x b'Z' then x + 32 else x

abbrev pub to_lower : Bytes → Bytes
to_lower s = map lower_byte s

-- The last of the parts `p ∷ ps`.
abbrev pub last_of {ℓ} : {A : Type ℓ} → A → List A → A
last_of p [] = p
last_of p (q ∷ ps) = last_of q ps

pub same_bytes_refl : (a : Bytes) → same_bytes a a ≡ true
same_bytes_refl [] = refl
same_bytes_refl (x ∷ a) = ground (arith, same_bytes_refl a)

pub same_bytes_eq : (a b : Bytes) → same_bytes a b ≡ true → a ≡ b
same_bytes_eq [] [] e = refl
same_bytes_eq [] (y ∷ b) e = cc
same_bytes_eq (x ∷ a) [] e = cc
same_bytes_eq (x ∷ a) (y ∷ b) e = ground (arith, same_bytes_eq a b)

-- A text without the separator is one part.
pub split_absent : (c : ℕ) (s : Bytes) → has_byte c s ≡ false → split c s ≡ s ∷ []
split_absent c [] h = refl
split_absent c (x ∷ s) h = ground (arith, split_absent c s)

-- There is always a part.
split_some : (c : ℕ) (s : Bytes) → (a : Bytes) × (rest : List Bytes) × (split c s ≡ a ∷ rest)
split_some c [] = ([], [], refl)
split_some c (x ∷ s) =
    let (a, rest, parts) = split_some c s in
    elim (Bool-cases (x == c)) [
      | inl e ↦ ([], split c s, rw e refl)
      | inr e ↦ (x ∷ a, rest, rw e (ap (cons_head x) parts))
    ]

cons_head-append :
    (x : ℕ) (c : ℕ) (s : Bytes) (ps : List Bytes)
    → cons_head x (split c s ++ ps) ≡ cons_head x (split c s) ++ ps
cons_head-append x c [] ps = refl
cons_head-append x c (y ∷ s) ps = elim (Bool-cases (y == c)) [
  | inl e ↦ rw e refl
  | inr e ↦ rw e (go (split c s))
]
  where
    go : (qs : List Bytes) → cons_head x (cons_head y qs ++ ps) ≡ cons_head x (cons_head y qs) ++ ps
    go [] = refl
    go (q ∷ qs) = refl

-- A separator splits a text into the parts before it and those behind it.
pub split-append : (c : ℕ) (s t : Bytes) → split c (s ++ c ∷ t) ≡ split c s ++ split c t
split-append c [] t = rw (==_refl c) refl
split-append c (x ∷ s) t = elim (Bool-cases (x == c)) [
  | inl e ↦ rw e (ap (λ ps. [] ∷ ps) (split-append c s t))
  | inr e ↦ rw e (ap (cons_head x) (split-append c s t) ∙ cons_head-append x c s (split c t))
]

-- A text with a separator has two parts at least.
pub split_present :
    (c : ℕ) (s : Bytes)
    → has_byte c s ≡ true
    → (a : Bytes) × (b : Bytes) × (rest : List Bytes) × (split c s ≡ a ∷ (b ∷ rest))
split_present c [] h = absurd (cc)
split_present c (x ∷ s) h = elim (Bool-cases (x == c)) [
  | inl e ↦ let (a, rest, parts) = split_some c s in ([], a, rest, rw e (ap (λ ps. [] ∷ ps) parts))
  | inr e ↦
      let (a, b, rest, parts) = split_present c s (ground arith) in
      (x ∷ a, b, rest, rw e (ap (cons_head x) parts))
]

pub last_of-append : (p q : Bytes) (ps : List Bytes) → last_of p (ps ++ q ∷ []) ≡ q
last_of-append p q [] = refl
last_of-append p q (r ∷ ps) = last_of-append r q ps

pub trim_suffix-append : (s p : Bytes) → trim_suffix p (s ++ p) ≡ s
trim_suffix-append s p =
    let size : length (s ++ p) - length p ≡ length s = omega (arith, length-append s p) in
    let cut : drop (length (s ++ p) - length p) (s ++ p) ≡ p =
      ap (λ n. drop n (s ++ p)) size ∙ drop-append (length s) s p refl in
    let kept : take (length (s ++ p) - length p) (s ++ p) ≡ s =
      ap (λ n. take n (s ++ p)) size ∙ take-append (length s) s p refl in
    ground (arith, cut, kept, same_bytes_refl p, length-append s p)

pub has_byte-append : (c : ℕ) (s t : Bytes) → has_byte c s ≡ true → has_byte c (s ++ t) ≡ true
has_byte-append c [] t h = absurd (cc)
has_byte-append c (x ∷ s) t h = ground (arith, has_byte-append c s t)
