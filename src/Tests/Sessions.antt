-- ===== src/Tests/Sessions.antt =====
-- internal/multiplex: session.go, stream.go, switchboard.go and datagramBufferedPipe.go at work.
use cloak.Prelude.{
  ℕ, ◌≡◌, refl, Bytes, Bool, true, false, take, replicate, List, [], ◌∷◌, none, some, arith, uint32,
  uint64,
}
use cloak.Multiplex.Frame.{Frame}
use cloak.Multiplex.Obfs.{
  Result, ok, err, obfuscate, deobfuscate, payload_in, pad_len_of, body_of, assemble, header_of,
  open_in_place, frame_of, read_frame,
}
use cloak.Multiplex.DatagramPipe.{DatagramPipe, new_datagram_pipe}
use cloak.Multiplex.DatagramPipe as Datagram
use cloak.Multiplex.DatagramPipe.Messages.{Holds, after_write, after_read, write-Holds, read-Holds}
use cloak.Multiplex.StreamBuffer.Heap.{sorted_heap}
use cloak.Multiplex.Session.State.{
  Session, Env, Stream, unordered, make_session, repeat_session_closing, write_failed, no_multiplex,
  lookup, insert, make_stream, stream_count_incr, stream_count_decr, close_recv_buf,
}
use cloak.Multiplex.Session.Switchboard.{close_conn, add_conn, pick_rand_conn}
use cloak.Multiplex.Session.Close.{
  passive_close, close_actively, close_stream, forget_stream, notice,
}
use cloak.Multiplex.Session.Streams.{
  stream, refused, open_stream, deplex_round, recv_data_from_remote,
}
use cloak.Multiplex.Session.Opening.{Fresh, Opened, open_stream-Opened, open_stream-refused}
use cloak.Multiplex.Session.Closed.{close_leaves_connections}
use cloak.Multiplex.Session.Tombstone.{late_frame_dropped}
use cloak.Tests.Ciphers.{reversing, sevens, tagged}

abbrev two_datagrams : List Bytes
two_datagrams = (1 ∷ 2 ∷ []) ∷ (3 ∷ []) ∷ []

abbrev pipe : DatagramPipe
pipe = record { p_lens = 2 ∷ 1 ∷ []; buf = 1 ∷ 2 ∷ 3 ∷ []; closed = false; r_deadline = none }

pipe-Holds : Holds two_datagrams pipe
pipe-Holds = record { lens = refl; bytes = refl }

abbrev data_frame : Frame
data_frame = record { stream_id = 1; seq = 4; closing = 0; payload = 7 ∷ 8 ∷ [] }

write-Holds_example :
    ((Datagram.write pipe data_frame).0 ≡ (after_write false data_frame two_datagrams).0)
    × Holds (after_write false data_frame two_datagrams).1 (Datagram.write pipe data_frame).1
    × ((Datagram.write pipe data_frame).1.closed ≡ (after_write false data_frame two_datagrams).2)
write-Holds_example = write-Holds two_datagrams pipe data_frame pipe-Holds

read-Holds_example :
    ((Datagram.read pipe 5 2).0 ≡ (after_read false false 2 two_datagrams).0)
    × Holds (after_read false false 2 two_datagrams).1 (Datagram.read pipe 5 2).1
read-Holds_example = read-Holds two_datagrams pipe 5 2 pipe-Holds

abbrev pub no_objects : ℕ → Stream
unfolding new_datagram_pipe
no_objects r = record { id = 0; recv_buf = unordered new_datagram_pipe; seq = 0; closed = true }

-- A session with small messages, with no stream and no connection.
abbrev fresh : Bool → Session
unfolding make_session
fresh single = make_session tagged single false 600 no_objects

abbrev failing : Env
failing = record {
  salsa = reversing;
  rnd = sevens;
  pick = λ n. 0;
  pad_byte = 3;
  padding = λ n. replicate n 5;
  conn_write = λ conn b. none;
}

abbrev opened : Bool → Session
unfolding open_stream make_stream insert stream_count_incr
opened single = (open_stream (fresh single)).1

fresh-Fresh : Fresh (fresh true)
unfolding fresh lookup
fresh-Fresh = record { unused_ids = λ w h. refl; made_objects = λ w r h. ground (arith, h) }

open_stream-Opened_example :
    ((open_stream (fresh true)).0 ≡ stream 0)
    × Opened (fresh true) 0 (open_stream (fresh true)).1
    × Fresh (open_stream (fresh true)).1
unfolding fresh
open_stream-Opened_example =
    open_stream-Opened (fresh true) refl (omega arith) (omega arith) refl fresh-Fresh

open_stream-refused_example :
    open_stream (opened true) ≡ (refused no_multiplex, record (opened true) { next_stream_id = 3 })
unfolding opened fresh
open_stream-refused_example =
    open_stream-refused (opened true) refl refl (omega arith) (omega arith)

-- What a result holds, for one that is known to be a success.
abbrev sealed_of : Result (ℕ × Bytes) → ℕ × Bytes
sealed_of (ok r) = r
sealed_of (err e) = (0, [])

abbrev connected : Session
unfolding add_conn
connected = record (fresh false) { sb = add_conn (fresh false).sb 5 }

abbrev last_notice : ℕ × Bytes
unfolding obfuscate payload_in pad_len_of body_of assemble header_of
last_notice = sealed_of (notice failing connected)

last_notice-ok : notice failing connected ≡ ok (last_notice.0, last_notice.1)
unfolding obfuscate payload_in pad_len_of body_of assemble header_of connected fresh
last_notice-ok = refl

close_leaves_connections_example :
    let t = (close_actively failing connected).1 in
    ((close_actively failing connected).0 ≡ some write_failed)
    × (t.closed ≡ true)
    × (t.sb ≡ connected.sb)
    × (passive_close t ≡ (some repeat_session_closing, t))
    × (close_actively failing t ≡ (some repeat_session_closing, t))
    × ((deplex_round sorted_heap failing t 5 none).sb ≡ close_conn connected.sb 5)
unfolding pick_rand_conn connected fresh lookup
close_leaves_connections_example =
    close_leaves_connections sorted_heap failing failing connected last_notice.0 5 5 last_notice.1
      refl refl last_notice-ok refl refl

abbrev forgotten : Session
unfolding close_stream forget_stream stream_count_decr close_recv_buf
forgotten = (close_stream failing (opened false) 0 false).1

abbrev late_frame : Frame
late_frame = record { stream_id = 1; seq = 9; closing = 0; payload = 7 ∷ 8 ∷ 9 ∷ [] }

abbrev late_bytes : Bytes
unfolding obfuscate payload_in pad_len_of body_of assemble header_of
late_bytes =
    let (n, out) = sealed_of (obfuscate reversing sevens tagged late_frame (replicate 300 0) 0) in
    take n out

late_bytes-ok : deobfuscate reversing tagged late_bytes ≡ ok late_frame
unfolding deobfuscate open_in_place frame_of read_frame late_bytes uint32 uint64
late_bytes-ok = refl

late_frame_dropped_example :
    recv_data_from_remote sorted_heap failing forgotten late_bytes ≡ (none, forgotten)
unfolding close_stream forget_stream opened fresh
late_frame_dropped_example =
    late_frame_dropped sorted_heap failing failing (opened false) 0 false forgotten late_bytes
      late_frame refl refl late_bytes-ok refl refl
