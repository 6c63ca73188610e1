-- ===== src/Multiplex/Session/Tombstone.antt =====
-- internal/multiplex/session.go: what is left of a stream that has been closed.
use cloak.Prelude.{
  ℕ, ◌≡◌, ap, ◌∙◌, sym, Bytes, Bool, true, false, none, some, ◌==◌, arith, inl, inr, Bool-cases,
}
use cloak.Multiplex.Frame.{Frame, closing_stream, closing_session}
use cloak.Multiplex.Obfs.{deobfuscate, ok, frame_header_length}
use cloak.Multiplex.StreamBuffer.Heap.{MinHeap}
use cloak.Multiplex.Session.State.{
  Session, Env, Err, lookup, insert, lookup-insert, stream_count_decr, with_stream,
}
use cloak.Multiplex.Session.Close.{
  forget_stream, close_stream, and_then, obfuscate_and_send, closing_payload, closing_buf, shut,
}
use cloak.Multiplex.Session.Closed.{close_actively-closed}
use cloak.Multiplex.Session.Streams.{recv_for_stream, recv_data_from_remote}

and_then-eq-none :
    (r : Err × Session) (k : Session → Err × Session) {t : Session}
    → and_then r k ≡ (none, t)
    → (s : Session) × (k s ≡ (none, t))
and_then-eq-none (none, s) k e = (s, e)
and_then-eq-none (some x, s) k e = cc

-- Unless the session is closed with its last stream, the map keeps a nil entry.
forget_stream-lookup :
    (env : Env) (sesh : Session) (id : ℕ)
    → (forget_stream env sesh id).1.closed ≡ false
    → lookup id (forget_stream env sesh id).1.streams ≡ some none
unfolding forget_stream stream_count_decr
forget_stream-lookup env sesh id e = ground (
  arith,
  lookup-insert id id none sesh.streams,
  close_actively-closed env
      (stream_count_decr (record sesh { streams = insert id none sesh.streams })),
)

-- A close that succeeds ends with `forget_stream`.
close_stream-forget_stream :
    (env : Env) (sesh : Session) (r : ℕ) (active : Bool) {t : Session}
    → close_stream env sesh r active ≡ (none, t)
    → (s : Session) × (forget_stream env s (sesh.objects r).id ≡ (none, t))
unfolding close_stream
close_stream-forget_stream env sesh r false e = elim (Bool-cases (sesh.objects r).closed) [
  | inl shut_before ↦ absurd (ground arith)
  | inr open_yet ↦ (with_stream sesh r (shut (sesh.objects r)), ground arith)
]
close_stream-forget_stream env sesh r true {t} e = elim (Bool-cases (sesh.objects r).closed) [
  | inl shut_before ↦ absurd (ground arith)
  | inr open_yet ↦
      let sesh' = with_stream sesh r (shut (sesh.objects r)) in
      and_then-eq-none
        (obfuscate_and_send env sesh' r closing_stream (closing_payload env)
          (closing_buf env sesh'.stream_send_buffer_size) frame_header_length)
        (λ u. forget_stream env u (sesh.objects r).id) (ground arith)
]

-- After a stream has been closed without error, actively or passively, and its session is still
-- open, a frame for its id that comes late is dropped: no error, and nothing changes. The frame
-- does not close the session.
pub late_frame_dropped :
    (heap : MinHeap) (env later : Env) (sesh : Session) (r : ℕ) (active : Bool) (t : Session)
    (b : Bytes) (f : Frame)
    → close_stream env sesh r active ≡ (none, t)
    → t.closed ≡ false
    → deobfuscate later.salsa t.obfuscator b ≡ ok f
    → f.stream_id ≡ (sesh.objects r).id
    → (f.closing == closing_session) ≡ false
    → recv_data_from_remote heap later t b ≡ (none, t)
unfolding recv_data_from_remote recv_for_stream
late_frame_dropped heap env later sesh r active t b f done open_yet readable same_id other =
    let (s, forgot) = close_stream-forget_stream env sesh r active done in
    let id = (sesh.objects r).id in
    let entry : lookup id t.streams ≡ some none =
      ap (λ u. lookup id u.1.streams) (sym forgot)
      ∙ forget_stream-lookup env s id (ap (λ u. u.1.closed) forgot ∙ open_yet) in
    let entry' : lookup f.stream_id t.streams ≡ some none =
      ap (λ k. lookup k t.streams) same_id ∙ entry in
    ground arith
