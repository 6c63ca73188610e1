-- ===== src/Multiplex/StreamBuffer/InOrder.antt =====
-- internal/multiplex/streamBuffer.go: what the frames of a stream look like to the receiver that
-- still waits for them, and how the heap relates to them.
use mathlib.Core.List.{Perm, Mem, mem-cons_self, mem-cons, not-mem-nil}
use mathlib.Core.List.Perm
use mathlib.Core.Logic.Or
use native.Mathlib.Bridge.{le_prop}
use native.Mathlib.Decide.{ℕ_discrete}
use mathlib.Core.HLevel.{hedberg}
use cloak.Prelude.{
  ℕ, ◌+◌, ◌≤◌, ◌≡◌, ◌≢◌, refl, sym, ap, ◌⊎◌, Bytes, Bool, true, false, List, [], ◌∷◌, ◌++◌, ◌==◌,
  if◌then◌else◌, arith,
}
use cloak.Multiplex.Frame.{Frame, closing_nothing}
use cloak.Multiplex.StreamBuffer.Heap.{MinHeap, AtLeast}

-- The frames from sequence number `n` on, in order; only the last may be a closing one.
abbrev pub Expected : ℕ → List Frame → Type 0
Expected n [] = Unit {0}
Expected n (f ∷ fs) =
    (f.seq ≡ n) × ((f.closing ≡ closing_nothing) ⊎ (fs ≡ [])) × Expected (n + 1) fs

-- The payload bytes of the frames that carry data, and whether one of them closes the stream.
abbrev pub data_of : List Frame → Bytes
data_of [] = []
data_of (f ∷ fs) = if f.closing == closing_nothing then f.payload ++ data_of fs else data_of fs

abbrev pub closes : List Frame → Bool
closes [] = false
closes (f ∷ fs) = if f.closing == closing_nothing then closes fs else true

Frame-discrete : Discrete Frame
Frame-discrete = hlevel ℕ_discrete

Frame-set : IsSet Frame
Frame-set = hedberg Frame-discrete

AtLeast-pred : (n : ℕ) (fs : List Frame) → AtLeast (n + 1) fs → AtLeast n fs
AtLeast-pred n [] a = tt
AtLeast-pred n (f ∷ fs) a = (omega arith, AtLeast-pred n fs a.1)

pub Expected-AtLeast : (n : ℕ) (fs : List Frame) → Expected n fs → AtLeast n fs
Expected-AtLeast n [] e = tt
Expected-AtLeast n (f ∷ fs) e = (omega arith, AtLeast-pred n fs (Expected-AtLeast (n + 1) fs e.2))

pub le_of_mem : (n : ℕ) (fs : List Frame) (f : Frame) → AtLeast n fs → Mem f fs → n ≤ f.seq
le_of_mem n [] f a m = absurd (not-mem-nil m)
le_of_mem n (g ∷ fs) f a m = Or.elim le_prop (mem-cons.0 m) (λ e. rw e a.0) (le_of_mem n fs f a.1)

-- A frame that carries the next number is the next frame, and the others are those after it.
pub perm-next :
    (n : ℕ) (f : Frame) (l fs : List Frame)
    → Perm (f ∷ l) fs
    → f.seq ≡ n
    → Expected n fs
    → (rest : List Frame) × (fs ≡ f ∷ rest) × Perm l rest
perm-next n f l [] p s e = absurd (not-mem-nil ((Perm.mem_iff p).0 mem-cons_self))
perm-next n f l (g ∷ fs) p s e =
    (fs, ap (λ h. h ∷ fs) (sym same), Perm.cons_inv (rw (sym same) at p))
  where
    same : f ≡ g
    same =
        Or.elim (Frame-set f g) (mem-cons.0 ((Perm.mem_iff p).0 mem-cons_self)) (λ q. q)
          λ m. absurd (omega (arith, le_of_mem (n + 1) fs f (Expected-AtLeast (n + 1) fs e.2) m))

-- When nothing more is to come, a heap whose root is not wanted is empty, and nothing is missing.
pub settled_empty :
    (heap : MinHeap) (n : ℕ) (sh fs : List Frame)
    → heap.IsHeap sh
    → ((f : Frame) (h : List Frame) → sh ≡ f ∷ h → f.seq ≢ n)
    → Perm sh fs
    → Expected n fs
    → (sh ≡ []) × (fs ≡ [])
settled_empty heap n [] [] hp st p e = (refl, refl)
settled_empty heap n [] (g ∷ fs) hp st p e = absurd (not-mem-nil ((Perm.mem_iff p).1 mem-cons_self))
settled_empty heap n (t ∷ sh) [] hp st p e = absurd (not-mem-nil ((Perm.mem_iff p).0 mem-cons_self))
settled_empty heap n (t ∷ sh) (g ∷ fs) hp st p e = absurd (st t sh refl (omega (arith, low, high)))
  where
    low : n ≤ t.seq
    low = le_of_mem n (g ∷ fs) t (Expected-AtLeast n (g ∷ fs) e) ((Perm.mem_iff p).0 mem-cons_self)

    high : t.seq ≤ g.seq
    high =
        le_of_mem t.seq (t ∷ sh) g (omega arith, heap.root_least t sh hp)
          ((Perm.mem_iff p).1 mem-cons_self)
