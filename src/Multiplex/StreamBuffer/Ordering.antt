-- ===== src/Multiplex/StreamBuffer/Ordering.antt =====
-- internal/multiplex/streamBuffer.go: the frames of a stream may arrive in any order.
use mathlib.Core.List.{Perm}
use mathlib.Core.List.Perm
use cloak.Prelude.{
  ℕ, suc, ◌+◌, ◌^◌, ◌≤◌, ◌∙◌, sym, none, length-append, ◌<◌, ◌≡◌, ◌≢◌, refl, ap, true, false, List,
  [], ◌∷◌, ◌++◌, ◌==◌, length, arith, append_assoc, some, ==_iff,
}
use cloak.Multiplex.Frame.{Frame, closing_nothing}
use cloak.Multiplex.StreamPipe.{put, recv_buffer_size_limit}
use cloak.Multiplex.StreamPipe as Pipe
use cloak.Multiplex.StreamBuffer.{StreamBuffer, Outcome, deliver, done, drain, waits_for_room}
use cloak.Multiplex.StreamBuffer.Heap.{MinHeap}
use cloak.Multiplex.StreamBuffer.InOrder.{Expected, data_of, closes, perm-next}

-- The buffer waits for the frames `fs`; those of them that are not in its heap are in `rest`.
pub record Waiting (heap : MinHeap) (rest fs : List Frame) (sb : StreamBuffer) : Type 0 where
  pub ordered : heap.IsHeap sb.sh
  pub missing : Perm (sb.sh ++ rest) fs
  pub numbered : Expected sb.next_recv_seq fs
  pub unclosed : sb.buf.closed ≡ false
  pub no_wrap : sb.next_recv_seq + length fs < 2 ^ 64
  pub room : length sb.buf.buf + length (data_of fs) ≤ recv_buffer_size_limit

-- The root of the heap is not the frame that is wanted next.
abbrev pub Settled : StreamBuffer → Type 0
Settled sb = (f : Frame) (h : List Frame) → sb.sh ≡ f ∷ h → f.seq ≢ sb.next_recv_seq

-- A round of `Write` either took the closing frame, and with it all that there was, or it left the
-- buffer waiting for fewer frames.
pub data Drained (heap : MinHeap) (rest fs : List Frame) (sb : StreamBuffer)
    : Outcome → Type 0 where
  finished :
      (r : Outcome)
      → r.to_be_closed ≡ true
      → r.seq_error ≡ false
      → r.blocked ≡ none
      → rest ≡ []
      → r.after.sh ≡ []
      → r.after.buf.buf ≡ sb.buf.buf ++ data_of fs
      → closes fs ≡ true
      → Drained heap rest fs sb r
  settled :
      (r : Outcome) (fs' : List Frame)
      → r.to_be_closed ≡ false
      → r.seq_error ≡ false
      → r.blocked ≡ none
      → Waiting heap rest fs' r.after
      → Settled r.after
      → r.after.buf.buf ++ data_of fs' ≡ sb.buf.buf ++ data_of fs
      → closes fs' ≡ closes fs
      → Drained heap rest fs sb r

-- On an open pipe a frame's payload is appended, and the next number follows.
pub deliver_bytes :
    (sb : StreamBuffer) (f : Frame)
    → sb.buf.closed ≡ false
    → length sb.buf.buf ≤ recv_buffer_size_limit
    → ((deliver sb f).buf.buf ≡ sb.buf.buf ++ f.payload)
      × ((deliver sb f).buf.closed ≡ false)
      × ((deliver sb f).sh ≡ sb.sh)
      × (waits_for_room sb f ≡ false)
unfolding deliver put Pipe.write
deliver_bytes sb f e h = (ground arith, ground arith, refl, ground arith)

deliver_number :
    (sb : StreamBuffer) (f : Frame)
    → sb.next_recv_seq + 1 < 2 ^ 64
    → (deliver sb f).next_recv_seq ≡ sb.next_recv_seq + 1
unfolding deliver
deliver_number sb f h = omega arith

pub data_of-data :
    (f : Frame) (fs : List Frame)
    → f.closing ≡ closing_nothing
    → (data_of (f ∷ fs) ≡ f.payload ++ data_of fs) × (closes (f ∷ fs) ≡ closes fs)
data_of-data f fs e = rw ((==_iff f.closing 0).1 e) (refl, refl)

data_of-closing :
    (f : Frame)
    → (f.closing == closing_nothing) ≡ false
    → (data_of (f ∷ []) ≡ []) × (closes (f ∷ []) ≡ true)
data_of-closing f e = rw e (refl, refl)

append-eq-nil : (xs ys : List Frame) → xs ++ ys ≡ [] → (xs ≡ []) × (ys ≡ [])
append-eq-nil [] ys e = (refl, e)
append-eq-nil (x ∷ xs) ys e = absurd (ground arith)

-- The rest of the sequence of calls and of the frames, once the wanted frame `f` is taken.
module _ (heap : MinHeap) (sb : StreamBuffer) (f : Frame) (r rest fs : List Frame)
    (ordered : heap.IsHeap r) (present : Perm (f ∷ (r ++ rest)) fs)
    (wanted : f.seq ≡ sb.next_recv_seq) (numbered : Expected sb.next_recv_seq fs)
    (unclosed : sb.buf.closed ≡ false) (no_wrap : sb.next_recv_seq + length fs < 2 ^ 64)
    (room : length sb.buf.buf + length (data_of fs) ≤ recv_buffer_size_limit) where
  pub after_data :
      f.closing ≡ closing_nothing
      → (fs' : List Frame) × Waiting heap rest fs' (deliver (record sb { sh = r }) f)
        × ((deliver (record sb { sh = r }) f).buf.buf ++ data_of fs' ≡ sb.buf.buf ++ data_of fs)
        × (closes fs' ≡ closes fs)
        × (length fs ≡ suc (length fs'))
  after_data e =
      let (fs', split, left) =
        perm-next sb.next_recv_seq f (r ++ rest) fs present wanted numbered in
      let sb' = record sb { sh = r } in
      let (bytes, still_open, heap_kept, goes_on) =
        deliver_bytes sb' f unclosed (omega (arith, room)) in
      let here = rw split at numbered in
      let size : length fs ≡ suc (length fs') = ap length split in
      let number = deliver_number sb' f (omega arith) in
      let (datas, closings) = data_of-data f fs' e in
      let all : (deliver sb' f).buf.buf ++ data_of fs' ≡ sb.buf.buf ++ data_of fs =
        rw (bytes, split, datas) (append_assoc sb.buf.buf f.payload (data_of fs')) in
      let sizes : length ((deliver sb' f).buf.buf) + length (data_of fs')
          ≡ length sb.buf.buf + length (data_of fs) =
        sym (length-append (deliver sb' f).buf.buf (data_of fs'))
        ∙ ap length all
        ∙ length-append sb.buf.buf (data_of fs) in
      (
        fs',
        record {
          ordered = rw heap_kept ordered;
          missing = rw heap_kept left;
          numbered = rw number here.2;
          unclosed = still_open;
          no_wrap = omega arith;
          room = omega (arith, sizes, room);
        },
        all,
        rw (split, closings),
        size,
      )

  pub after_closing :
      (f.closing == closing_nothing) ≡ false
      → (r ≡ []) × (rest ≡ []) × (data_of fs ≡ []) × (closes fs ≡ true)
  after_closing e =
      let (fs', split, left) =
        perm-next sb.next_recv_seq f (r ++ rest) fs present wanted numbered in
      let here = rw split at numbered in
      let last : fs' ≡ [] = ground (arith, here.1) in
      let gone = append-eq-nil r rest (Perm.eq-nil (rw last at left)) in
      let alone : fs ≡ f ∷ [] = cc in
      let (datas, closings) = data_of-closing f e in
      (gone.0, gone.1, rw (alone, datas), rw (alone, closings))

-- The rounds of the loop, one by one.
module _ (heap : MinHeap) (k : ℕ) (sb : StreamBuffer) where
  pub drain-nil : sb.sh ≡ [] → drain heap (suc k) sb ≡ done false sb
  unfolding drain
  drain-nil e = ground arith

  module _ (t : Frame) (h r : List Frame) (e : sb.sh ≡ t ∷ h) where
    pub drain-other : (t.seq == sb.next_recv_seq) ≡ false → drain heap (suc k) sb ≡ done false sb
    unfolding drain
    drain-other q = ground arith

    module _ (q : (t.seq == sb.next_recv_seq) ≡ true)
        (popped : heap.pop (t ∷ h) ≡ some (t, r)) where
      pub drain-data :
          (t.closing == closing_nothing) ≡ true
          → waits_for_room (record sb { sh = r }) t ≡ false
          → drain heap (suc k) sb ≡ drain heap k (deliver (record sb { sh = r }) t)
      unfolding drain
      drain-data c room = ground (arith, room)

      pub drain-closing :
          (t.closing == closing_nothing) ≡ false
          → drain heap (suc k) sb ≡ done true (record sb { sh = r })
      unfolding drain
      drain-closing c = ground arith
