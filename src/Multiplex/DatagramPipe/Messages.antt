-- ===== src/Multiplex/DatagramPipe/Messages.antt =====
-- internal/multiplex/datagramBufferedPipe.go: the lengths and the one byte buffer stand for a
-- queue of datagrams.
use cloak.Prelude.{
  ℕ, ◌≡◌, refl, sym, ap, ◌∙◌, Bytes, length, Bool, true, false, List, [], ◌∷◌, ◌++◌, ltb, ◌==◌,
  if◌then◌else◌, arith, append-nil, append_assoc, take-append, drop-append,
}
use cloak.Multiplex.Frame.{Frame, closing_nothing}
use cloak.Multiplex.StreamPipe.{
  ReadResult, read_ok, eof, timed_out, short_buffer, read_waits, is_past, recv_buffer_size_limit,
}
use cloak.Multiplex.DatagramPipe.{
  DatagramPipe, DatagramResult, accepted, to_be_closed, closed_pipe, dgram_waits, read, put, write,
}

abbrev pub lengths : List Bytes → List ℕ
lengths [] = []
lengths (m ∷ ms) = length m ∷ lengths ms

abbrev pub joined : List Bytes → Bytes
joined [] = []
joined (m ∷ ms) = m ++ joined ms

-- The pipe holds the datagrams `ms`, oldest first.
pub record Holds (ms : List Bytes) (d : DatagramPipe) : Type 0 where
  pub lens : d.p_lens ≡ lengths ms
  pub bytes : d.buf ≡ joined ms

-- What a call returns, and the queue after it; `after_write` says also whether the pipe is closed.
abbrev pub after_write : Bool → Frame → List Bytes → DatagramResult × List Bytes × Bool
after_write closed f ms =
    if closed
    then (closed_pipe, ms, true)
    else if ltb recv_buffer_size_limit (length (joined ms))
    then (dgram_waits, ms, false)
    else if f.closing == closing_nothing
    then (accepted, ms ++ f.payload ∷ [], false)
    else (to_be_closed, ms, true)

abbrev pub after_read : Bool → Bool → ℕ → List Bytes → ReadResult × List Bytes
after_read closed past size [] =
    if closed then (eof, []) else if past then (timed_out, []) else (read_waits, [])
after_read closed past size (m ∷ ms) =
    if past
    then (timed_out, m ∷ ms)
    else if ltb size (length m)
    then (short_buffer, m ∷ ms)
    else (read_ok m, ms)

lengths-append :
    (ms : List Bytes) (m : Bytes) → lengths (ms ++ m ∷ []) ≡ lengths ms ++ length m ∷ []
lengths-append [] m = refl
lengths-append (n ∷ ms) m = ap (◌∷◌ (length n)) (lengths-append ms m)

joined-append : (ms : List Bytes) (m : Bytes) → joined (ms ++ m ∷ []) ≡ joined ms ++ m
joined-append [] m = append-nil m
joined-append (n ∷ ms) m = ap (◌++◌ n) (joined-append ms m) ∙ sym (append_assoc n (joined ms) m)

-- A write adds the payload of a data frame as one datagram to an open pipe and reports that it is
-- accepted; a closing frame adds none, closes the pipe and reports that the stream is to be closed.
-- While the datagrams have more bytes than the limit the call waits, and a closed pipe takes nothing
-- and is an error; both leave the queue.
pub write-Holds :
    (ms : List Bytes) (d : DatagramPipe) (f : Frame)
    → Holds ms d
    → let spec = after_write d.closed f ms in
      ((write d f).0 ≡ spec.0) × Holds spec.1 (write d f).1 × ((write d f).1.closed ≡ spec.2)
unfolding write put
write-Holds ms d f h =
    let size : length d.buf ≡ length (joined ms) = ap length h.bytes in
    ground (arith, size, lengths-append ms f.payload, joined-append ms f.payload)

-- A read returns the oldest datagram whole and removes it, or leaves the pipe as it is: at its end
-- if the pipe is closed and empty, after its deadline, if the slice is too small for the datagram,
-- or to wait for one.
pub read-Holds :
    (ms : List Bytes) (d : DatagramPipe) (now size : ℕ)
    → Holds ms d
    → let spec = after_read d.closed (is_past d.r_deadline now) size ms in
      ((read d now size).0 ≡ spec.0) × Holds spec.1 (read d now size).1
unfolding read
read-Holds [] d now size h = ground arith
read-Holds (m ∷ ms) d now size h =
    ground
      (arith, take-append (length m) m (joined ms) refl, drop-append (length m) m (joined ms) refl)
