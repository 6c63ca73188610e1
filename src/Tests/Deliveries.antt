-- ===== src/Tests/Deliveries.antt =====
-- internal/multiplex: a write on one side, and its messages on the other, at work.
use mathlib.Core.List.{reverse, reverse_perm}
use cloak.Prelude.{
  ◌≡◌, refl, Bytes, length, replicate, List, [], ◌∷◌, ◌++◌, none, some, arith, false,
}
use cloak.Multiplex.Obfs.{deobfuscate}
use cloak.Multiplex.StreamBuffer.Heap.{sorted_heap}
use cloak.Multiplex.Session.State.{Session, Env, make_session, lookup}
use cloak.Multiplex.Session.Switchboard.{add_conn}
use cloak.Multiplex.Session.Streams.{open_stream, write_stream, recv_run}
use cloak.Multiplex.Session.Sending.{Ready, Serves}
use cloak.Multiplex.Session.Receiving.{frames_in, frame_in}
use cloak.Multiplex.Session.Delivery.{bytes_of, Delivered, write_stream-Delivered}
use cloak.Tests.Ciphers.{reversing, sevens, tagged}
use cloak.Tests.Sessions.{no_objects}

-- A session with one connection, and the other side of it.
abbrev idle : Session
unfolding make_session
idle = make_session tagged false false 600 no_objects

abbrev sender : Session
unfolding open_stream add_conn
sender = let s = (open_stream idle).1 in record s { sb = add_conn s.sb 8 }

abbrev working : Env
working = record {
  salsa = reversing;
  rnd = sevens;
  pick = λ n. 0;
  pad_byte = 3;
  padding = λ n. replicate n 5;
  conn_write = λ conn b. some (length b);
}

-- Two frames of it, since a frame takes 331 bytes.
abbrev message : Bytes
message = replicate 400 6

abbrev noise : List Bytes
noise = (1 ∷ 2 ∷ []) ∷ []

after : Session
after = (write_stream (λ j. working) sender 0 message).2

sender-Ready : Ready sender 0
unfolding sender idle
sender-Ready = record {
  is_ordered = refl;
  some_unit = omega arith;
  room = omega arith;
  whole = refl;
  some_conn = omega arith;
  id_lt = omega arith;
  open_yet = refl;
}

working-Serves : Serves reversing sender.sb.conns sender.sb.conns_count working
unfolding sender idle lookup
working-Serves = record {
  conn = 8;
  same_salsa = refl;
  drawn_conn = refl;
  takes = λ b. (length b, refl);
  draws = λ n. (replicate n 7, refl);
}

write_stream-Delivered_example :
    ((write_stream (λ j. working) sender 0 message).0 ≡ length message)
    × ((write_stream (λ j. working) sender 0 message).1 ≡ none)
    × Delivered idle
        (recv_run sorted_heap working idle (reverse (bytes_of after.sb.sent ++ noise)))
        1
        message
unfolding after sender idle lookup frames_in frame_in deobfuscate
write_stream-Delivered_example =
    write_stream-Delivered reversing sorted_heap (λ j. working) working sender idle after 0
      (write_stream (λ j. working) sender 0 message).0
      (write_stream (λ j. working) sender 0 message).1 message after.sb.sent
      (reverse (bytes_of after.sb.sent ++ noise)) noise sender-Ready refl (λ j. working-Serves)
      (omega arith) (omega arith) refl refl refl refl refl refl refl (omega arith)
      (reverse_perm (bytes_of after.sb.sent ++ noise)) refl
