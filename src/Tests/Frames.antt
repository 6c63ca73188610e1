-- ===== src/Tests/Frames.antt =====
-- internal/multiplex: obfs.go, streamBufferedPipe.go and streamBuffer.go at work.
use mathlib.Core.List.{Perm}
use mathlib.Core.List.Perm
use cloak.Prelude.{ℕ, ◌≤◌, ◌≡◌, refl, inl, inr, Bytes, take, replicate, List, [], ◌∷◌, ◌++◌, arith}
use cloak.Multiplex.Frame.{Frame}
use cloak.Multiplex.Obfs.{ok, payload_in, pad_len_of, obfuscate, deobfuscate}
use cloak.Multiplex.Obfs.RoundTrip.{deobfuscate-obfuscate}
use cloak.Multiplex.StreamPipe.{new_stream_pipe}
use cloak.Multiplex.StreamPipe.Fifo.{
  Call, reads, writes, closes, run, outputs, inputs, run_conserves,
}
use cloak.Multiplex.StreamBuffer.{new_stream_buffer}
use cloak.Multiplex.StreamBuffer.Heap.{sorted_heap}
use cloak.Multiplex.StreamBuffer.Receive.{receive_all, receive_all-perm, Received}
use cloak.Tests.Ciphers.{reversing, sevens, tagged}

abbrev frame : ℕ → ℕ → Bytes → Frame
frame seq closing payload = record {
  stream_id = 1;
  seq = seq;
  closing = closing;
  payload = payload;
}

abbrev hello : Frame
hello = frame 0 0 (104 ∷ 105 ∷ [])

abbrev buffer : Bytes
buffer = replicate 300 0

deobfuscate-obfuscate_example :
    (n : ℕ) × (out : Bytes) × (obfuscate reversing sevens tagged hello buffer 0 ≡ ok (n, out))
    × (deobfuscate reversing tagged (take n out) ≡ ok hello)
    × (24 ≤ n)
    × (n ≤ 271)
unfolding payload_in pad_len_of
deobfuscate-obfuscate_example =
    deobfuscate-obfuscate reversing sevens tagged hello buffer (replicate 255 7) 0 (omega arith)
      (omega arith) (omega arith) refl refl

abbrev sent : List Frame
sent = hello ∷ frame 1 0 (33 ∷ []) ∷ frame 2 1 (0 ∷ []) ∷ []

abbrev received : List Frame
received = frame 2 1 (0 ∷ []) ∷ frame 1 0 (33 ∷ []) ∷ hello ∷ []

received-perm : Perm received sent
received-perm = Perm.trans (Perm.swap (frame 1 0 (33 ∷ [])) (frame 2 1 (0 ∷ [])) (hello ∷ [])) (
    Perm.trans (Perm.cons (frame 1 0 (33 ∷ [])) (Perm.swap hello (frame 2 1 (0 ∷ [])) []))
      (Perm.swap hello (frame 1 0 (33 ∷ [])) (frame 2 1 (0 ∷ []) ∷ [])))

receive_all-perm_example : Received sent [] (receive_all sorted_heap new_stream_buffer received)
receive_all-perm_example =
    receive_all-perm sorted_heap received sent received-perm
      ((refl, inl refl, (refl, inl refl, (refl, inr refl, tt)))) (omega arith) (omega arith)

abbrev calls : List Call
calls = writes (1 ∷ 2 ∷ 3 ∷ []) ∷ reads 0 2 ∷ writes (4 ∷ []) ∷ closes ∷ writes (5 ∷ []) ∷ []

run_conserves_example :
    outputs new_stream_pipe calls ++ (run new_stream_pipe calls).buf
    ≡ new_stream_pipe.buf ++ inputs new_stream_pipe calls
run_conserves_example = run_conserves new_stream_pipe calls
