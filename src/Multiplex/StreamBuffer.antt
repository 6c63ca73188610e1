-- ===== src/Multiplex/StreamBuffer.antt =====
-- internal/multiplex/streamBuffer.go: frames put back in order. The heap of container/heap comes
-- through an interface; the pipe that takes the payloads is that of StreamPipe.
pub mod Heap
pub mod InOrder
pub mod Ordering
pub mod Receive
use cloak.Prelude.{
  ℕ, zero, suc, ◌+◌, ◌%◌, ◌^◌, Bool, true, false, ◌&&◌, List, [], ◌∷◌, Option, none, some, length,
  ltb, ◌==◌, if◌then◌else◌,
}
use cloak.Multiplex.Frame.{Frame, closing_nothing}
use cloak.Multiplex.StreamPipe.{
  StreamPipe, WriteResult, written, closed_pipe, write_waits, new_stream_pipe,
}
use cloak.Multiplex.StreamPipe as Pipe
use Heap.{MinHeap}

pub record StreamBuffer : Type 0 where
  pub next_recv_seq : ℕ
  pub sh : List Frame
  pub buf : StreamPipe

-- What `Write` returns, and the buffer after it. `blocked` is the frame in hand of a call that waits
-- for room in the pipe and has not returned.
pub record Outcome : Type 0 where
  pub to_be_closed : Bool
  pub seq_error : Bool
  pub blocked : Option Frame
  pub after : StreamBuffer

unfoldable pub new_stream_buffer : StreamBuffer
unfolding new_stream_pipe
new_stream_buffer = record { next_recv_seq = 0; sh = []; buf = new_stream_pipe }

abbrev pub is_waiting : WriteResult → Bool
is_waiting (written n) = false
is_waiting closed_pipe = false
is_waiting write_waits = true

abbrev pub waits_for_room : StreamBuffer → Frame → Bool
waits_for_room sb f = is_waiting (Pipe.write sb.buf f.payload).0

-- `sb.buf.Write(f.Payload)`, whose result is dropped, and `sb.nextRecvSeq += 1` on a uint64.
unfoldable pub deliver : StreamBuffer → Frame → StreamBuffer
deliver sb f = record sb {
  buf = (Pipe.write sb.buf f.payload).1;
  next_recv_seq = (sb.next_recv_seq + 1) % 2 ^ 64;
}

abbrev pub done : Bool → StreamBuffer → Outcome
done closing sb = record { to_be_closed = closing; seq_error = false; blocked = none; after = sb }

abbrev pub blocked_on : Frame → StreamBuffer → Outcome
blocked_on f sb = record { to_be_closed = false; seq_error = false; blocked = some f; after = sb }

module _ (heap : MinHeap) where
  -- The loop that pops frames while the wanted one is at the top; `fuel` bounds its rounds.
  unfoldable pub drain : ℕ → StreamBuffer → Outcome
  drain zero sb = done false sb
  drain (suc fuel) sb = elim sb.sh [
    | [] ↦ done false sb
    | top ∷ _ ↦ elim (top.seq == sb.next_recv_seq) [
      | false ↦ done false sb
      | true ↦ elim (heap.pop sb.sh) [
        | none ↦ done false sb
        | some (f, rest) ↦ elim (f.closing == closing_nothing) [
          | false ↦ done true (record sb { sh = rest })
          | true ↦ elim (waits_for_room (record sb { sh = rest }) f) [
            | true ↦ blocked_on f (record sb { sh = rest })
            | false ↦ drain fuel (deliver (record sb { sh = rest }) f)
          ]
        ]
      ]
    ]
  ]

  -- The branch for a frame that may have come early.
  unfoldable pub write_later : StreamBuffer → Frame → Outcome
  unfolding drain
  write_later sb f =
      if ltb f.seq sb.next_recv_seq
      then record { to_be_closed = false; seq_error = true; blocked = none; after = sb }
      else let sh = heap.push sb.sh f in drain (length sh) (record sb { sh = sh })

  unfoldable pub write : StreamBuffer → Frame → Outcome
  unfolding write_later
  write sb f =
      if length sb.sh == 0 && f.seq == sb.next_recv_seq
      then (if f.closing == closing_nothing
          then if waits_for_room sb f then blocked_on f sb else done false (deliver sb f)
          else done true sb)
      else write_later sb f
