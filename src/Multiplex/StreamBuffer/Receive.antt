-- ===== src/Multiplex/StreamBuffer/Receive.antt =====
-- internal/multiplex/streamBuffer.go: what calls of `Write` make of the frames of a stream.
use mathlib.Core.List.{Perm, perm_middle, mem-cons_self, mem-append_right}
use mathlib.Core.List.Perm
use mathlib.Core.Path.{subst}
use cloak.Prelude.{
  length-perm, Option, none, some, ℕ, zero, suc, ◌^◌, ◌≤◌, ◌<◌, ◌≡◌, ◌≢◌, refl, sym, ◌∙◌, inl, inr,
  Bytes, true, false, ◌&&◌, ◌||◌, List, [], ◌∷◌, ◌++◌, ◌==◌, if◌then◌else◌, length, arith,
  append-nil, Bool-cases, if_true, if_false, le→ltb, ==_iff,
}
use cloak.Multiplex.Frame.{Frame, closing_nothing}
use cloak.Multiplex.StreamPipe.{new_stream_pipe, recv_buffer_size_limit}
use cloak.Multiplex.StreamBuffer.{
  StreamBuffer, Outcome, deliver, done, blocked_on, waits_for_room, drain, write_later, write,
  new_stream_buffer,
}
use cloak.Multiplex.StreamBuffer.Heap.{MinHeap}
use cloak.Multiplex.StreamBuffer.InOrder.{
  Expected, Expected-AtLeast, data_of, closes, settled_empty, le_of_mem,
}
use cloak.Multiplex.StreamBuffer.Ordering.{
  Waiting, Settled, Drained, finished, settled, after_data, after_closing, deliver_bytes, drain-nil,
  drain-other, drain-data, drain-closing,
}

-- Moving the start of a `Drained` back over frames that were delivered before.
Drained-before :
    {heap : MinHeap} {rest fs' fs : List Frame} {sb' sb : StreamBuffer} {r : Outcome}
    → sb'.buf.buf ++ data_of fs' ≡ sb.buf.buf ++ data_of fs
    → closes fs' ≡ closes fs
    → Drained heap rest fs' sb' r
    → Drained heap rest fs sb r
Drained-before p q (finished r a b n c d e f) = finished r a b n c d (e ∙ p) (sym q ∙ f)
Drained-before p q (settled r gs a b n w s e f) = settled r gs a b n w s (e ∙ p) (f ∙ q)

not_settled : {n : ℕ} (t f : Frame) → (t.seq == n) ≡ false → t ≡ f → f.seq ≢ n
not_settled {n} t f q e p = ground arith

module _ (heap : MinHeap) (rest : List Frame) where
  drain_lem :
      (fuel : ℕ) (xs fs : List Frame) (sb : StreamBuffer)
      → sb.sh ≡ xs
      → length xs ≤ fuel
      → Waiting heap rest fs sb
      → Drained heap rest fs sb (drain heap fuel sb)
  unfolding drain
  drain_lem zero [] fs sb e le w =
      settled (done false sb) fs refl refl refl w (λ f h e'. cc) refl refl
  drain_lem zero (t ∷ h) fs sb e le w = absurd (omega arith)
  drain_lem (suc k) [] fs sb e le w =
      rw (drain-nil heap k sb e)
        (settled (done false sb) fs refl refl refl w (λ f h e'. cc) refl refl)
  drain_lem (suc k) (t ∷ h) fs sb e le w = elim (Bool-cases (t.seq == sb.next_recv_seq)) [
    | inr other ↦ rw (drain-other heap k sb t h h e other) (
        settled (done false sb) fs refl refl refl w (λ f h' e'. not_settled t f other (cc)) refl
          refl)
    | inl wanted ↦
        let (r, popped, ordered, kept) = heap.pop_lem t h (rw e at w.ordered) in
        let present = Perm.trans (Perm.cons t (Perm.append_right rest kept)) (rw e at w.missing) in
        let number = (==_iff t.seq sb.next_recv_seq).0 wanted in
        elim (Bool-cases (t.closing == closing_nothing)) [
          | inl datum ↦
              let (fs', w', bytes, closings, _) =
                after_data heap sb t r rest fs ordered present number w.numbered w.unclosed
                  w.no_wrap w.room ((==_iff t.closing 0).0 datum) in
              let sb' = deliver (record sb { sh = r }) t in
              let (_, _, empty, goes_on) =
                deliver_bytes (record sb { sh = r }) t w.unclosed (omega (arith, w.room)) in
              rw (drain-data heap k sb t h r e wanted popped datum goes_on) (
                Drained-before bytes closings
                  (drain_lem k r fs' sb' empty (omega (arith, length-perm kept)) w'))
          | inr closing ↦
              let (gone, none_left, no_data, ends) =
                after_closing heap sb t r rest fs ordered present number w.numbered w.unclosed
                  w.no_wrap w.room closing in
              rw (drain-closing heap k sb t h r e wanted popped closing) (
                finished (done true (record sb { sh = r })) refl refl refl none_left gone
                  (rw no_data (sym (append-nil sb.buf.buf))) ends)
        ]
  ]

with_sh : (sb : StreamBuffer) → sb.sh ≡ [] → record sb { sh = [] } ≡ sb
with_sh sb e = λ i. record sb { sh = sym e i }

length-eq-zero : (xs : List Frame) → (length xs == 0) ≡ true → xs ≡ []
length-eq-zero [] h = refl
length-eq-zero (x ∷ xs) h = absurd (ground arith)

-- The two branches of `Write`.
module _ (heap : MinHeap) (sb : StreamBuffer) (f : Frame) where
  write_now :
      (length sb.sh == 0 && f.seq == sb.next_recv_seq) ≡ true
      → (sb.sh ≡ [])
        × (f.seq ≡ sb.next_recv_seq)
        × (write heap sb f ≡ (
            if f.closing == closing_nothing
            then if waits_for_room sb f then blocked_on f sb else done false (deliver sb f)
            else done true sb))
  unfolding write
  write_now e = (length-eq-zero sb.sh (ground arith), ground arith, rw e)

  write_buffered :
      (length sb.sh == 0 && f.seq == sb.next_recv_seq) ≡ false
      → sb.next_recv_seq ≤ f.seq
      → write heap sb f
        ≡ drain heap (length (heap.push sb.sh f)) (record sb { sh = heap.push sb.sh f })
  unfolding write write_later
  write_buffered e h = rw (e, le→ltb f.seq sb.next_recv_seq h)

module _ (heap : MinHeap) (rest fs : List Frame) (f : Frame) (sb : StreamBuffer) where
  write_in_order :
      Waiting heap (f ∷ rest) fs sb
      → (length sb.sh == 0 && f.seq == sb.next_recv_seq) ≡ true
      → Drained heap rest fs sb (write heap sb f)
  write_in_order w e =
      let (no_heap, number, now) = write_now heap sb f e in
      let present = rw no_heap at w.missing in
      let same = with_sh sb no_heap in
      elim (Bool-cases (f.closing == closing_nothing)) [
        | inl datum ↦
            let (fs', w', bytes, closings, _) =
              after_data heap sb f [] rest fs heap.nil-IsHeap present number w.numbered w.unclosed
                w.no_wrap w.room ((==_iff f.closing 0).0 datum) in
            let goes_on = (deliver_bytes sb f w.unclosed (omega (arith, w.room))).3 in
            let empty =
              (deliver_bytes (record sb { sh = [] }) f w.unclosed (omega (arith, w.room))).2 in
            let r = done false (deliver (record sb { sh = [] }) f) in
            let out : Drained heap rest fs sb r =
              settled r fs' refl refl refl w' (λ g h e'. cc) bytes closings in
            rw (now, datum, goes_on)
              (subst (λ s. Drained heap rest fs sb (done false (deliver s f))) same out)
        | inr closing ↦
            let (gone, none_left, no_data, ends) =
              after_closing heap sb f [] rest fs heap.nil-IsHeap present number w.numbered
                w.unclosed w.no_wrap w.room closing in
            rw (now, closing)
              (finished (done true sb) refl refl refl none_left no_heap
                (rw no_data (sym (append-nil sb.buf.buf))) ends)
      ]

  write_out_of_order :
      Waiting heap (f ∷ rest) fs sb
      → (length sb.sh == 0 && f.seq == sb.next_recv_seq) ≡ false
      → Drained heap rest fs sb (write heap sb f)
  write_out_of_order w e =
      let member = (Perm.mem_iff w.missing).0 (mem-append_right sb.sh mem-cons_self) in
      let late =
        le_of_mem sb.next_recv_seq fs f (Expected-AtLeast sb.next_recv_seq fs w.numbered) member in
      let sh = heap.push sb.sh f in
      let pushed = Perm.append_right rest (heap.push-perm sb.sh f) in
      let w' : Waiting heap rest fs (record sb { sh = sh }) = record {
        ordered = heap.push-IsHeap sb.sh f w.ordered;
        missing = Perm.trans pushed (Perm.trans (Perm.symm (perm_middle sb.sh rest)) w.missing);
        numbered = w.numbered;
        unclosed = w.unclosed;
        no_wrap = w.no_wrap;
        room = w.room;
      } in
      rw (write_buffered heap sb f e late) (
        Drained-before refl refl
          (drain_lem heap rest (length sh) sh fs (record sb { sh = sh }) refl (omega arith) w'))

  -- A frame that was still to come is taken in on either branch, and is never refused.
  pub write_lem : Waiting heap (f ∷ rest) fs sb → Drained heap rest fs sb (write heap sb f)
  write_lem w = elim (Bool-cases (length sb.sh == 0 && f.seq == sb.next_recv_seq)) [
    | inl e ↦ write_in_order w e
    | inr e ↦ write_out_of_order w e
  ]

abbrev first_blocked : Option Frame → Option Frame → Option Frame
first_blocked none f = f
first_blocked (some g) f = some g

-- Frames that arrive one after another, until a call says that the stream is to be closed; `blocked`
-- is the frame of the first call that waits.
unfoldable pub receive_all : MinHeap → StreamBuffer → List Frame → Outcome
receive_all heap sb [] = done false sb
receive_all heap sb (f ∷ fs) =
    let r = write heap sb f in
    let s = receive_all heap r.after fs in
    if r.to_be_closed then r else record s {
      seq_error = r.seq_error || s.seq_error;
      blocked = first_blocked r.blocked s.blocked;
    }

-- If no call asks for the stream to be closed, the first does not.
pub receive_all-open :
    (heap : MinHeap) (sb : StreamBuffer) (f : Frame) (fs : List Frame)
    → (receive_all heap sb (f ∷ fs)).to_be_closed ≡ false
    → let r = write heap sb f in
      (r.to_be_closed ≡ false)
      × ((receive_all heap r.after fs).to_be_closed ≡ false)
      × ((receive_all heap r.after fs).after ≡ (receive_all heap sb (f ∷ fs)).after)
unfolding receive_all
receive_all-open heap sb f fs h = ground arith

-- All of the frames are in, and nothing is left over.
pub record Received (fs : List Frame) (before : Bytes) (r : Outcome) : Type 0 where
  pub bytes : r.after.buf.buf ≡ before ++ data_of fs
  pub closing : r.to_be_closed ≡ closes fs
  pub accepted : r.seq_error ≡ false
  pub none_waits : r.blocked ≡ none
  pub heap_empty : r.after.sh ≡ []

receive_all-Waiting :
    (heap : MinHeap) (arrivals fs : List Frame) (sb : StreamBuffer)
    → Waiting heap arrivals fs sb
    → Settled sb
    → Received fs sb.buf.buf (receive_all heap sb arrivals)
unfolding receive_all
receive_all-Waiting heap [] fs sb w s =
    let (gone, none_left) =
      settled_empty heap sb.next_recv_seq sb.sh fs w.ordered s (rw append-nil at w.missing)
        w.numbered in
    rw none_left (record {
      bytes = sym (append-nil sb.buf.buf);
      closing = refl;
      accepted = refl;
      none_waits = refl;
      heap_empty = gone;
    })
receive_all-Waiting heap (f ∷ arrivals) fs sb w s =
    go (write heap sb f) (write_lem heap arrivals fs f sb w) (receive_all-Waiting heap arrivals)
  where
    later : Outcome → Outcome
    later r = record (receive_all heap r.after arrivals) {
      seq_error = r.seq_error || (receive_all heap r.after arrivals).seq_error;
      blocked = first_blocked r.blocked (receive_all heap r.after arrivals).blocked;
    }

    go :
        (r : Outcome)
        → Drained heap arrivals fs sb r
        → ((gs : List Frame) (sb' : StreamBuffer)
            → Waiting heap arrivals gs sb'
            → Settled sb'
            → Received gs sb'.buf.buf (receive_all heap sb' arrivals))
        → Received fs sb.buf.buf (if r.to_be_closed then r else later r)
    go r (finished _ a b n c d e ends) ih =
        if_true (Received fs sb.buf.buf) r (later r) r.to_be_closed a (record {
          bytes = e;
          closing = a ∙ sym ends;
          accepted = b;
          none_waits = n;
          heap_empty = d;
        })
    go r (settled _ gs a b n w' s' e ends) ih =
        let v = ih gs r.after w' s' in
        if_false (Received fs sb.buf.buf) r (later r) r.to_be_closed a (record {
          bytes = v.bytes ∙ e;
          closing = v.closing ∙ ends;
          accepted = ground (arith, v.accepted);
          none_waits = ground (arith, n, v.none_waits);
          heap_empty = v.heap_empty;
        })

-- The frames of a stream, numbered from 0 and of which at most the last closes it, may reach a new
-- buffer in any order. When all have come, the pipe holds exactly their payloads, in the order of
-- the numbers; the calls ask for the stream to be closed if and only if the last frame closes it;
-- no frame was refused, and no call waits for room in the pipe; and none is left in the heap. There
-- are fewer than 2^64 frames, and their payloads are within the limit of the receive buffer.
pub receive_all-perm :
    (heap : MinHeap) (arrivals fs : List Frame)
    → Perm arrivals fs
    → Expected 0 fs
    → length fs < 2 ^ 64
    → length (data_of fs) ≤ recv_buffer_size_limit
    → Received fs [] (receive_all heap new_stream_buffer arrivals)
unfolding new_stream_buffer new_stream_pipe
receive_all-perm heap arrivals fs p numbered short fits =
    receive_all-Waiting heap arrivals fs new_stream_buffer
      (record {
        ordered = heap.nil-IsHeap;
        missing = p;
        numbered = numbered;
        unclosed = refl;
        no_wrap = omega arith;
        room = omega (arith, fits);
      })
      (λ f h e. cc)
