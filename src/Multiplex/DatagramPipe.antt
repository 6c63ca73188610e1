-- ===== src/Multiplex/DatagramPipe.antt =====
-- internal/multiplex/datagramBufferedPipe.go. A call that must wait returns `read_waits` or
-- `dgram_waits`; it runs again when another call broadcasts.
pub mod Messages
use cloak.Prelude.{
  ℕ, ◌&&◌, Bytes, length, take, drop, Bool, true, false, List, [], ◌∷◌, ◌++◌, Option, none, some,
  leb, ltb, ◌==◌, if◌then◌else◌,
}
use cloak.Multiplex.Frame.{Frame, closing_nothing}
use cloak.Multiplex.StreamPipe.{
  ReadResult, read_ok, eof, timed_out, short_buffer, read_waits, is_past, recv_buffer_size_limit,
}

pub record DatagramPipe : Type 0 where
  pub p_lens : List ℕ
  pub buf : Bytes
  pub closed : Bool
  pub r_deadline : Option ℕ

pub data DatagramResult : Type 0 where
  accepted to_be_closed closed_pipe dgram_waits : DatagramResult

unfoldable pub new_datagram_pipe : DatagramPipe
new_datagram_pipe = record { p_lens = []; buf = []; closed = false; r_deadline = none }

-- The part of `Read` below its loop: the oldest datagram, if the slice can take all of it.
unfoldable pub take_datagram : DatagramPipe → List ℕ → ℕ → ReadResult × DatagramPipe
take_datagram d [] size = (read_waits, d)
take_datagram d (data_len ∷ rest) size =
    if ltb size data_len
    then (short_buffer, d)
    else (read_ok (take data_len d.buf), record d { p_lens = rest; buf = drop data_len d.buf })

-- One round of `Read`, at time `now`, into a slice of `size` bytes.
unfoldable pub read : DatagramPipe → ℕ → ℕ → ReadResult × DatagramPipe
unfolding take_datagram
read d now size =
    if d.closed && length d.p_lens == 0
    then (eof, d)
    else if is_past d.r_deadline now
    then (timed_out, d)
    else take_datagram d d.p_lens size

-- What `Write` does once it need not wait.
unfoldable pub put : DatagramPipe → Frame → DatagramResult × DatagramPipe
put d f =
    if d.closed
    then (closed_pipe, d)
    else if f.closing == closing_nothing
    then (
      accepted,
      record d { p_lens = d.p_lens ++ (length f.payload ∷ []); buf = d.buf ++ f.payload },
    )
    else (to_be_closed, record d { closed = true })

unfoldable pub write : DatagramPipe → Frame → DatagramResult × DatagramPipe
unfolding put
write d f =
    if d.closed
    then (closed_pipe, d)
    else if leb (length d.buf) recv_buffer_size_limit
    then put d f
    else (dgram_waits, d)

unfoldable pub close : DatagramPipe → DatagramPipe
close d = record d { closed = true }

unfoldable pub set_read_deadline : DatagramPipe → Option ℕ → DatagramPipe
set_read_deadline d t = record d { r_deadline = t }
