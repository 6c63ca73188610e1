-- ===== src/Multiplex/StreamPipe/Fifo.antt =====
-- internal/multiplex/streamBufferedPipe.go: any sequence of calls keeps the bytes in order.
use cloak.Prelude.{
  ℕ, ◌≡◌, sym, ap, ◌∙◌, Bytes, List, [], ◌∷◌, ◌++◌, Option, append-nil, append_assoc, arith,
  take-append-drop,
}
use cloak.Multiplex.StreamPipe.{
  StreamPipe, ReadResult, read_ok, WriteResult, written, read, write, put, close, set_read_deadline,
}

pub data Call : Type 0 where
  reads : ℕ → ℕ → Call
  writes : Bytes → Call
  closes : Call
  sets_deadline : Option ℕ → Call

abbrev step : StreamPipe → Call → StreamPipe
step p (reads now size) = (read p now size).1
step p (writes b) = (write p b).1
step p closes = close p
step p (sets_deadline t) = set_read_deadline p t

abbrev taken : ReadResult → Bytes
taken (read_ok b) = b
taken _ = []

abbrev accepted : WriteResult → Bytes → Bytes
accepted (written n) b = b
accepted _ b = []

-- The bytes that a call hands out, and those that it takes in.
abbrev output : StreamPipe → Call → Bytes
output p (reads now size) = taken (read p now size).0
output p _ = []

abbrev input : StreamPipe → Call → Bytes
input p (writes b) = accepted (write p b).0 b
input p _ = []

pub run : StreamPipe → List Call → StreamPipe
run p [] = p
run p (c ∷ cs) = run (step p c) cs

pub outputs : StreamPipe → List Call → Bytes
outputs p [] = []
outputs p (c ∷ cs) = output p c ++ outputs (step p c) cs

pub inputs : StreamPipe → List Call → Bytes
inputs p [] = []
inputs p (c ∷ cs) = input p c ++ inputs (step p c) cs

read_conserves :
    (p : StreamPipe) (now size : ℕ) → output p (reads now size) ++ (read p now size).1.buf ≡ p.buf
unfolding read
read_conserves p now size = ground (arith, take-append-drop size p.buf)

write_conserves : (p : StreamPipe) (b : Bytes) → (write p b).1.buf ≡ p.buf ++ input p (writes b)
unfolding write put
write_conserves p b = ground (arith, append-nil p.buf)

step_conserves : (p : StreamPipe) (c : Call) → output p c ++ (step p c).buf ≡ p.buf ++ input p c
unfolding close set_read_deadline
step_conserves p (reads now size) = read_conserves p now size ∙ sym (append-nil p.buf)
step_conserves p (writes b) = write_conserves p b
step_conserves p closes = sym (append-nil p.buf)
step_conserves p (sets_deadline t) = sym (append-nil p.buf)

-- Over any sequence of calls, what was read, followed by what is still buffered, is what was
-- buffered at the start followed by what was accepted: no byte is lost, made up or reordered.
pub run_conserves :
    (p : StreamPipe) (cs : List Call) → outputs p cs ++ (run p cs).buf ≡ p.buf ++ inputs p cs
unfolding run outputs inputs
run_conserves p [] = sym (append-nil p.buf)
run_conserves p (c ∷ cs) =
    append_assoc (output p c) (outputs (step p c) cs) (run (step p c) cs).buf
    ∙ ap (◌++◌ (output p c)) (run_conserves (step p c) cs)
    ∙ sym (append_assoc (output p c) (step p c).buf (inputs (step p c) cs))
    ∙ ap (λ b. b ++ inputs (step p c) cs) (step_conserves p c)
    ∙ append_assoc p.buf (input p c) (inputs (step p c) cs)
