-- ===== src/Multiplex/Session/Close.antt =====
-- internal/multiplex/session.go and stream.go: closing a stream and closing a session.
use cloak.Prelude.{
  ℕ, ◌+◌, ◌-◌, ◌%◌, ◌^◌, ◌&&◌, Bytes, Bool, true, not, List, [], ◌∷◌, ◌++◌, Option, none, some,
  ◌==◌, if◌then◌else◌, length, take, replicate,
}
use cloak.Multiplex.Frame.{Frame, closing_stream, closing_session}
use cloak.Multiplex.Obfs.{obfuscate, Result, ok, err, frame_header_length}
use cloak.Multiplex.Session.State.{
  repeat_session_closing, repeat_stream_closing, not_obfuscated, broken_switchboard, write_failed,
  Err, timed_out, failed_to_send, switchboard_broken, Stream, Session, Env, insert, with_stream,
  stream_count_decr, set_terminal_msg, close_recv_buf,
}
use cloak.Multiplex.Session.Switchboard.{send, sent_ok, broken, conn_error, close_all}

-- A call whose error result ends the caller; the state that it leaves is kept.
abbrev pub and_then : Err × Session → (Session → Err × Session) → Err × Session
and_then (some e, s) k = (some e, s)
and_then (none, s) k = k s

abbrev pub shut : Stream → Stream
shut s = record s { closed = true; recv_buf = close_recv_buf s.recv_buf }

-- The loop of `closeSession` over the map: open streams are closed and taken out of it.
unfoldable pub close_streams : List (ℕ × Option ℕ) → Session → Session
unfolding stream_count_decr
close_streams [] sesh = record sesh { streams = [] }
close_streams ((k, none) ∷ m) sesh =
    let rest = close_streams m sesh in record rest { streams = (k, none) ∷ rest.streams }
close_streams ((k, some r) ∷ m) sesh =
    let kept = close_streams m sesh in
    let next = stream_count_decr (with_stream sesh r (shut (sesh.objects r))) in
    let gone = close_streams m next in
    if (sesh.objects r).closed then record kept { streams = (k, some r) ∷ kept.streams } else gone

unfoldable pub close_session : Session → Err × Session
close_session sesh =
    if sesh.closed
    then (some repeat_session_closing, sesh)
    else (none, close_streams sesh.streams (record sesh { closed = true }))

unfoldable pub passive_close : Session → Err × Session
passive_close sesh = and_then (close_session sesh) (λ s. (none, record s { sb = close_all s.sb }))

-- `sb.send` as the streams and the session call it: it closes the session itself where a connection
-- refuses the bytes.
unfoldable pub send_data : Env → Session → Bytes → Err × Session
unfolding set_terminal_msg
send_data env sesh b =
    let (r, sb') = send env sesh.sb b in
    let sesh' = record sesh { sb = sb' } in
    elim r [
      | sent_ok n ↦ (none, sesh')
      | broken ↦ (some broken_switchboard, sesh')
      | conn_error ↦ (some write_failed, (passive_close (set_terminal_msg sesh' failed_to_send)).1)
    ]

-- A buffer of the pool, with a closing frame's random payload at its place.
abbrev pub closing_payload : Env → Bytes
closing_payload env = env.padding (env.pad_byte + 1)

abbrev pub closing_buf : Env → ℕ → Bytes
closing_buf env size =
    let payload = closing_payload env in
    replicate frame_header_length 0
    ++ (payload ++ replicate (size - (frame_header_length + length payload)) 0)

-- The notice for the other side that the session is closed, obfuscated.
abbrev pub closing_frame : Env → Frame
closing_frame env = record {
  stream_id = 4294967295;
  seq = 0;
  closing = closing_session;
  payload = closing_payload env;
}

abbrev pub notice : Env → Session → Result (ℕ × Bytes)
notice env s =
    obfuscate env.salsa env.rnd s.obfuscator (closing_frame env)
      (closing_buf env s.stream_send_buffer_size) frame_header_length

unfoldable pub notify : Env → Session → Result (ℕ × Bytes) → Err × Session
notify env s (err e) = (some not_obfuscated, s)
notify env s (ok (n, out)) =
    and_then (send_data env s (take n out)) (λ s'. (none, record s' { sb = close_all s'.sb }))

-- `Session.Close`.
unfoldable pub close_actively : Env → Session → Err × Session
unfolding notify
close_actively env sesh = and_then (close_session sesh) (λ s. notify env s (notice env s))

unfoldable pub check_timeout : Env → Session → Session
unfolding set_terminal_msg
check_timeout env sesh =
    if sesh.active_stream_count == 0 && not sesh.closed
    then (close_actively env (set_terminal_msg sesh timed_out)).1
    else sesh

-- A stream that finds the switchboard broken closes its session.
abbrev pub on_send_error : Err × Session → Err × Session
on_send_error (some broken_switchboard, t) =
    (some broken_switchboard, (passive_close (set_terminal_msg t switchboard_broken)).1)
on_send_error (e, t) = (e, t)

-- `Stream.obfuscateAndSend`, for the frame that `writingFrame` holds.
unfoldable pub obfuscate_and_send : Env → Session → ℕ → ℕ → Bytes → Bytes → ℕ → Err × Session
obfuscate_and_send env sesh r closing payload buf offset =
    let s = sesh.objects r in
    let f : Frame = record {
      stream_id = s.id;
      seq = s.seq;
      closing = closing;
      payload = payload;
    } in
    let sesh' = with_stream sesh r (record s { seq = (s.seq + 1) % 2 ^ 64 }) in
    elim (obfuscate env.salsa env.rnd sesh.obfuscator f buf offset) [
      | err e ↦ (some not_obfuscated, sesh')
      | ok (n, out) ↦ on_send_error (send_data env sesh' (take n out))
    ]

-- The end of `closeStream`: the nil entry, the count, and what follows the last stream.
unfoldable pub forget_stream : Env → Session → ℕ → Err × Session
unfolding insert stream_count_decr
forget_stream env sesh id =
    let sesh' = stream_count_decr (record sesh { streams = insert id none sesh.streams }) in
    if sesh'.active_stream_count == 0
    then (if sesh'.singleplex
        then close_actively env sesh'
        else (none, record sesh' { timers = sesh'.timers + 1 }))
    else (none, sesh')

unfoldable pub close_stream : Env → Session → ℕ → Bool → Err × Session
unfolding close_recv_buf
close_stream env sesh r active =
    let s = sesh.objects r in
    let sesh' = with_stream sesh r (shut s) in
    if s.closed
    then (some repeat_stream_closing, sesh)
    else if active
    then (and_then
        (obfuscate_and_send env sesh' r closing_stream (closing_payload env)
          (closing_buf env sesh'.stream_send_buffer_size) frame_header_length)
        (λ t. forget_stream env t s.id))
    else forget_stream env sesh' s.id
