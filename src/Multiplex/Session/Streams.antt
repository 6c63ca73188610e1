-- ===== src/Multiplex/Session/Streams.antt =====
-- internal/multiplex/session.go and stream.go: opening and accepting streams, frames that arrive,
-- and writing to a stream.
use cloak.Prelude.{
  ℕ, zero, suc, ◌+◌, ◌%◌, ◌^◌, ◌&&◌, Bytes, Bool, true, false, List, [], ◌∷◌, ◌++◌, Option, none,
  some, ◌==◌, ltb, leb, if◌then◌else◌, length, take, drop, replicate,
}
use cloak.Multiplex.Frame.{Frame, closing_nothing, closing_session}
use cloak.Multiplex.Obfs.{deobfuscate, ok, err}
use cloak.Multiplex.DatagramPipe
use cloak.Multiplex.DatagramPipe.{accepted, to_be_closed, closed_pipe, dgram_waits}
use cloak.Multiplex.StreamBuffer
use cloak.Multiplex.StreamBuffer.Heap.{MinHeap}
use cloak.Multiplex.Session.State.{
  SessionError, broken_session, repeat_stream_closing, no_multiplex, broken_stream, short_buffer,
  seq_too_small, recv_waits, backlog_full, not_deobfuscated, Err, TerminalMsg, closing_notification,
  conn_dropped, RecvBuffer, ordered, unordered, Stream, Session, Env, lookup, insert, with_stream,
  make_stream, stream_count_incr, set_terminal_msg, accept_backlog,
}
use cloak.Multiplex.Session.State as State
use cloak.Multiplex.Session.Switchboard.{close_conn}
use cloak.Multiplex.Session.Close.{passive_close, close_stream, obfuscate_and_send}

-- A reference to a stream, or an error.
pub data StreamResult : Type 0 where
  stream : ℕ → StreamResult
  refused : SessionError → StreamResult
  accept_waits : StreamResult

unfoldable pub open_stream : Session → StreamResult × Session
unfolding make_stream insert stream_count_incr
open_stream sesh =
    let id = sesh.next_stream_id in
    let counted = record sesh { next_stream_id = (id + 1) % 2 ^ 32 } in
    let made = make_stream counted id in
    let listed = record made { streams = insert id (some sesh.next_ref) made.streams } in
    if sesh.closed
    then (refused broken_session, sesh)
    else if sesh.singleplex && ltb 1 id
    then (refused no_multiplex, counted)
    else (stream sesh.next_ref, stream_count_incr listed)

unfoldable pub accept : Session → StreamResult × Session
accept sesh = if sesh.closed then (refused broken_session, sesh) else elim sesh.accept_ch [
  | [] ↦ (accept_waits, sesh)
  | r ∷ rest ↦ (stream r, record sesh { accept_ch = rest })
]

-- `recv_waits` stands for a call that has not returned: it waits for room in the receive buffer.
abbrev error_of : StreamBuffer.Outcome → Err
error_of r = elim r.blocked [
  | some f ↦ some recv_waits
  | none ↦ if r.seq_error then some seq_too_small else none
]

-- `recvBuf.Write(frame)`: whether the stream is to be closed, the error, and the buffer.
abbrev pub write_recv_buf : MinHeap → RecvBuffer → Frame → Bool × Err × RecvBuffer
write_recv_buf heap (ordered b) f =
    let r = StreamBuffer.write heap b f in (r.to_be_closed, error_of r, ordered r.after)
write_recv_buf heap (unordered d) f =
    let (r, d') = DatagramPipe.write d f in
    elim r [
      | accepted ↦ (false, none, unordered d')
      | to_be_closed ↦ (true, none, unordered d')
      | closed_pipe ↦ (true, some State.closed_pipe, unordered d')
      | dgram_waits ↦ (false, some recv_waits, unordered d')
    ]

abbrev pub forgive_repeat : Err × Session → Err × Session
forgive_repeat (some repeat_stream_closing, t) = (none, t)
forgive_repeat (e, t) = (e, t)

unfoldable pub recv_frame : MinHeap → Env → Session → ℕ → Frame → Err × Session
recv_frame heap env sesh r f =
    let s = sesh.objects r in
    let (closes, e, buf) = write_recv_buf heap s.recv_buf f in
    let sesh' = with_stream sesh r (record s { recv_buf = buf }) in
    if closes then forgive_repeat (close_stream env sesh' r false) else (e, sesh')

-- A frame for an id that the map does not have. A full accept channel blocks the call.
unfoldable pub recv_new : MinHeap → Env → Session → Frame → Err × Session
unfolding make_stream insert stream_count_incr
recv_new heap env sesh f =
    let made = make_stream sesh f.stream_id in
    let listed = record made {
      streams = insert f.stream_id (some sesh.next_ref) made.streams;
      accept_ch = made.accept_ch ++ (sesh.next_ref ∷ []);
    } in
    if leb accept_backlog (length sesh.accept_ch)
    then (some backlog_full, sesh)
    else recv_frame heap env (stream_count_incr listed) sesh.next_ref f

unfoldable pub recv_for_stream : MinHeap → Env → Session → Frame → Err × Session
unfolding lookup
recv_for_stream heap env sesh f =
    if sesh.closed then (some broken_session, sesh) else elim (lookup f.stream_id sesh.streams) [
      | none ↦ recv_new heap env sesh f
      | some none ↦ (none, sesh)
      | some (some r) ↦ recv_frame heap env sesh r f
    ]

unfoldable pub recv_data_from_remote : MinHeap → Env → Session → Bytes → Err × Session
unfolding set_terminal_msg
recv_data_from_remote heap env sesh b = elim (deobfuscate env.salsa sesh.obfuscator b) [
  | err e ↦ (some not_deobfuscated, sesh)
  | ok f ↦
      if f.closing == closing_session
      then passive_close (set_terminal_msg sesh closing_notification)
      else recv_for_stream heap env sesh f
]

-- A round of `deplex`: what one read from a connection brings, or `none` for an error, which ends the
-- loop and closes that connection.
unfoldable pub deplex_round : MinHeap → Env → Session → ℕ → Option Bytes → Session
unfolding set_terminal_msg
deplex_round heap env sesh conn none =
    let t = (passive_close (set_terminal_msg sesh conn_dropped)).1 in
    record t { sb = close_conn t.sb conn }
deplex_round heap env sesh conn (some b) = (recv_data_from_remote heap env sesh b).1

-- What the rounds of all connections bring, in the order in which the session sees it, while no read
-- fails and no call waits for room in a receive buffer.
unfoldable pub recv_run : MinHeap → Env → Session → List Bytes → Session
unfolding recv_data_from_remote
recv_run heap env sesh [] = sesh
recv_run heap env sesh (b ∷ bs) = recv_run heap env (recv_data_from_remote heap env sesh b).1 bs

-- The payload of the next frame of `Stream.Write`: all that is left if one frame can take it, else
-- as much as one can, which an unordered session does not allow.
abbrev pub next_payload : Session → Bytes → Option Bytes
next_payload sesh left =
    if leb (length left) sesh.max_stream_unit_write
    then some left
    else if sesh.is_unordered
    then none
    else some (take sesh.max_stream_unit_write left)

-- The loop of `Stream.Write`; `env k` answers the sending of frame `k`, and `fuel` bounds the rounds.
-- The results are the number of bytes written and the error.
unfoldable pub write_loop : (fuel : ℕ) → (ℕ → Env) → Session → ℕ → ℕ → ℕ → Bytes → ℕ × Err × Session
write_loop zero env sesh r k n left = (n, none, sesh)
write_loop (suc fuel) env sesh r k n [] = (n, none, sesh)
write_loop (suc fuel) env sesh r k n (b ∷ left) = elim (next_payload sesh (b ∷ left)) [
  | none ↦ (n, some short_buffer, sesh)
  | some payload ↦
      let (e, sesh') =
        obfuscate_and_send (env k) sesh r closing_nothing payload
          (replicate sesh.stream_send_buffer_size 0) 0 in
      elim e [
        | some e' ↦ (n, some e', sesh')
        | none ↦
            write_loop fuel env sesh' r (k + 1) (n + length payload)
              (drop (length payload) (b ∷ left))
      ]
]

unfoldable pub write_stream : (ℕ → Env) → Session → ℕ → Bytes → ℕ × Err × Session
unfolding write_loop
write_stream env sesh r input =
    if (sesh.objects r).closed
    then (0, some broken_stream, sesh)
    else write_loop (length input) env sesh r 0 0 input
