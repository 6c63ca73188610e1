-- ===== src/Multiplex/StreamBuffer/Heap.antt =====
-- The contract of container/heap on the sorterHeap of internal/multiplex/streamBuffer.go, whose
-- `Less` compares sequence numbers, and an instance of it.
use mathlib.Core.List.Perm
use mathlib.Core.List.{Perm}
use cloak.Prelude.{
  ℕ, ◌≤◌, ◌≡◌, refl, List, [], ◌∷◌, Option, none, some, leb, if◌then◌else◌, Bool-cases, inl, inr,
  arith,
}
use cloak.Multiplex.Frame.{Frame}

-- The frames of a list come no earlier than `n`.
abbrev pub AtLeast : ℕ → List Frame → Type 0
AtLeast n [] = Unit {0}
AtLeast n (f ∷ fs) = (n ≤ f.seq) × AtLeast n fs

-- `Push` and `Pop` of container/heap: both keep the heap order, `Push` adds the element, and `Pop`,
-- which is `Remove(h, 0)`, takes the root, an element of least sequence number.
pub record MinHeap : Type 1 where
  pub push : List Frame → Frame → List Frame
  pub pop : List Frame → Option (Frame × List Frame)
  pub IsHeap : List Frame → Type 0
  pub nil-IsHeap : IsHeap []
  pub push-IsHeap : (h : List Frame) (f : Frame) → IsHeap h → IsHeap (push h f)
  pub push-perm : (h : List Frame) (f : Frame) → Perm (push h f) (f ∷ h)
  pub pop_lem :
      (f : Frame) (h : List Frame)
      → IsHeap (f ∷ h)
      → (rest : List Frame) × (pop (f ∷ h) ≡ some (f, rest)) × IsHeap rest × Perm rest h
  pub root_least : (f : Frame) (h : List Frame) → IsHeap (f ∷ h) → AtLeast f.seq h

-- A sorted list is such a heap.
abbrev insert_sorted : List Frame → Frame → List Frame
insert_sorted [] f = f ∷ []
insert_sorted (g ∷ h) f = if leb f.seq g.seq then f ∷ (g ∷ h) else g ∷ insert_sorted h f

abbrev uncons : List Frame → Option (Frame × List Frame)
uncons [] = none
uncons (f ∷ h) = some (f, h)

abbrev IsSorted : List Frame → Type 0
IsSorted [] = Unit {0}
IsSorted (f ∷ h) = AtLeast f.seq h × IsSorted h

AtLeast-mono : {m n : ℕ} (h : List Frame) → m ≤ n → AtLeast n h → AtLeast m h
AtLeast-mono [] p a = tt
AtLeast-mono (f ∷ h) p a = (omega arith, AtLeast-mono h p a.1)

insert_sorted-AtLeast :
    (n : ℕ) (h : List Frame) (f : Frame) → n ≤ f.seq → AtLeast n h → AtLeast n (insert_sorted h f)
insert_sorted-AtLeast n [] f p a = (p, tt)
insert_sorted-AtLeast n (g ∷ h) f p a = ground (arith, insert_sorted-AtLeast n h f p a.1)

pub insert_sorted-IsSorted :
    (h : List Frame) (f : Frame) → IsSorted h → IsSorted (insert_sorted h f)
insert_sorted-IsSorted [] f s = (tt, tt)
insert_sorted-IsSorted (g ∷ h) f s = elim (Bool-cases (leb f.seq g.seq)) [
  | inl e ↦ rw e ((ground arith, AtLeast-mono {m = f.seq} {n = g.seq} h (ground arith) s.0), s)
  | inr e ↦
      rw e (insert_sorted-AtLeast g.seq h f (ground arith) s.0, insert_sorted-IsSorted h f s.1)
]

pub insert_sorted-perm : (h : List Frame) (f : Frame) → Perm (insert_sorted h f) (f ∷ h)
insert_sorted-perm [] f = Perm.refl (f ∷ [])
insert_sorted-perm (g ∷ h) f = elim (Bool-cases (leb f.seq g.seq)) [
  | inl e ↦ rw e (Perm.refl (f ∷ g ∷ h))
  | inr e ↦ rw e (Perm.trans (Perm.cons g (insert_sorted-perm h f)) (Perm.swap f g h))
]

abbrev pub sorted_heap : MinHeap
sorted_heap = record {
  push = insert_sorted;
  pop = uncons;
  IsHeap = IsSorted;
  nil-IsHeap = tt;
  push-IsHeap = insert_sorted-IsSorted;
  push-perm = insert_sorted-perm;
  pop_lem = λ f h s. (h, refl, s.1, Perm.refl h);
  root_least = λ f h s. s.0;
}
