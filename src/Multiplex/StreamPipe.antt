-- ===== src/Multiplex/StreamPipe.antt =====
-- internal/multiplex/streamBufferedPipe.go, and the limit of recvBuffer.go. A call that must wait
-- on the condition variable returns `waits`; it runs again when another call broadcasts.
pub mod Fifo
use cloak.Prelude.{
  ◌&&◌, ℕ, ◌+◌, ◌-◌, ◌^◌, Bytes, length, take, drop, Bool, true, false, List, [], ◌∷◌, ◌++◌, Option,
  none, some, leb, min, if◌then◌else◌, ◌==◌, ltb, ◌≡◌,
}

abbrev pub recv_buffer_size_limit : ℕ
recv_buffer_size_limit = 2 ^ 31 - 1

-- `none` is the zero time: no deadline.
pub record StreamPipe : Type 0 where
  pub buf : Bytes
  pub closed : Bool
  pub r_deadline : Option ℕ

pub data ReadResult : Type 0 where
  read_ok : Bytes → ReadResult
  eof timed_out short_buffer read_waits : ReadResult

pub data WriteResult : Type 0 where
  written : ℕ → WriteResult
  closed_pipe write_waits : WriteResult

unfoldable pub new_stream_pipe : StreamPipe
new_stream_pipe = record { buf = []; closed = false; r_deadline = none }

-- `time.Until(deadline) <= 0`.
abbrev pub is_past : Option ℕ → ℕ → Bool
is_past none now = false
is_past (some deadline) now = leb deadline now

-- One round of the loop of `Read`, at time `now`, into a slice of `size` bytes.
unfoldable pub read : StreamPipe → ℕ → ℕ → ReadResult × StreamPipe
read p now size =
    let got = length p.buf in
    if p.closed && got == 0
    then (eof, p)
    else if is_past p.r_deadline now
    then (timed_out, p)
    else if ltb 0 got
    then (read_ok (take size p.buf), record p { buf = drop size p.buf })
    else (read_waits, p)

-- What `Write` does once it need not wait.
unfoldable pub put : StreamPipe → Bytes → WriteResult × StreamPipe
put p input =
    if p.closed
    then (closed_pipe, p)
    else (written (length input), record p { buf = p.buf ++ input })

unfoldable pub write : StreamPipe → Bytes → WriteResult × StreamPipe
unfolding put
write p input =
    if p.closed
    then (closed_pipe, p)
    else if leb (length p.buf) recv_buffer_size_limit
    then put p input
    else (write_waits, p)

unfoldable pub close : StreamPipe → StreamPipe
close p = record p { closed = true }

unfoldable pub set_read_deadline : StreamPipe → Option ℕ → StreamPipe
set_read_deadline p t = record p { r_deadline = t }
