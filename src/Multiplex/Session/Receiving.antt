-- ===== src/Multiplex/Session/Receiving.antt =====
-- internal/multiplex/session.go and stream.go: what `recvDataFromRemote` makes of the messages of one
-- stream, whatever their order and whatever unreadable messages come between them.
use mathlib.Core.List.{Mem, mem-cons_self, mem-cons_of_mem}
use mathlib.Core.Path.{subst}
use cloak.Prelude.{
  ℕ, ◌<◌, ◌≡◌, ◌≢◌, refl, sym, ap, ◌∙◌, inl, inr, Bytes, false, List, [], ◌∷◌, ◌++◌, Option, none,
  some, length, arith, ==_refl, Option-cases,
}
use cloak.Multiplex.Frame.{Frame, closing_nothing}
use cloak.Multiplex.Obfs.{Salsa20, Obfuscator, ok, err, deobfuscate}
use cloak.Multiplex.StreamBuffer.{StreamBuffer, Outcome, new_stream_buffer}
use cloak.Multiplex.StreamBuffer as Buffer
use cloak.Multiplex.StreamBuffer.Heap.{MinHeap}
use cloak.Multiplex.StreamBuffer.Receive.{receive_all, receive_all-open}
use cloak.Multiplex.Session.State.{
  Session, Env, ordered, lookup, insert, lookup-insert, make_stream, stream_count_incr,
  accept_backlog,
}
use cloak.Multiplex.Session.Streams.{
  recv_run, recv_data_from_remote, recv_for_stream, recv_new, recv_frame,
}

-- The frame that a message holds.
unfoldable pub frame_in : Salsa20 → Obfuscator → Bytes → Option Frame
frame_in salsa o b = elim (deobfuscate salsa o b) [ err e ↦ none | ok f ↦ some f ]

unfoldable pub frames_in : Salsa20 → Obfuscator → List Bytes → List Frame
frames_in salsa o [] = []
frames_in salsa o (b ∷ bs) = elim (frame_in salsa o b) [
  | none ↦ frames_in salsa o bs
  | some f ↦ f ∷ frames_in salsa o bs
]

module _ (salsa : Salsa20) (o : Obfuscator) (b : Bytes) (bs : List Bytes) where
  frames_in-none : frame_in salsa o b ≡ none → frames_in salsa o (b ∷ bs) ≡ frames_in salsa o bs
  unfolding frames_in
  frames_in-none e = rw (e, frames_in)

  frames_in-some :
      (f : Frame)
      → frame_in salsa o b ≡ some f
      → frames_in salsa o (b ∷ bs) ≡ f ∷ frames_in salsa o bs
  unfolding frames_in
  frames_in-some f e = rw (e, frames_in)

-- The session has the stream `id`, open, as the object `r` with the receive buffer
-- `buf`, and `ch` are the streams that wait to be accepted.
pub record Holding (o : Obfuscator) (id r : ℕ) (ch : List ℕ) (buf : StreamBuffer) (sesh : Session)
    : Type 0 where
  pub is_open : sesh.closed ≡ false
  pub listed : lookup id sesh.streams ≡ some (some r)
  pub has_id : (sesh.objects r).id ≡ id
  pub open_yet : (sesh.objects r).closed ≡ false
  pub buffer : (sesh.objects r).recv_buf ≡ ordered buf
  pub same_obfuscator : sesh.obfuscator ≡ o
  pub accepted : sesh.accept_ch ≡ ch

-- All frames are data of the stream `id`.
abbrev pub OfStream : ℕ → List Frame → Type 0
OfStream id fs = (f : Frame) → Mem f fs → (f.stream_id ≡ id) × (f.closing ≡ closing_nothing)

module _ (heap : MinHeap) (env : Env) where
  -- A frame for an open stream goes into its buffer.
  recv_frame_lem :
      {o : Obfuscator} {id r : ℕ} {ch : List ℕ} {buf : StreamBuffer} {sesh : Session} (f : Frame)
      → Holding o id r ch buf sesh
      → (Buffer.write heap buf f).to_be_closed ≡ false
      → Holding o id r ch (Buffer.write heap buf f).after (recv_frame heap env sesh r f).1
  unfolding recv_frame
  recv_frame_lem {o} {id} {r} {ch} {buf} {sesh} f h stays = record {
    is_open = ground (arith, h.buffer, stays, h.is_open);
    listed = ground (arith, h.buffer, stays, h.listed);
    has_id = ground (arith, h.buffer, stays, h.has_id, ==_refl r);
    open_yet = ground (arith, h.buffer, stays, h.open_yet, ==_refl r);
    buffer = ground (arith, h.buffer, stays, ==_refl r);
    same_obfuscator = ground (arith, h.buffer, stays, h.same_obfuscator);
    accepted = ground (arith, h.buffer, stays, h.accepted);
  }

  -- An unreadable message changes nothing.
  recv_unreadable :
      (sesh : Session) (b : Bytes)
      → frame_in env.salsa sesh.obfuscator b ≡ none
      → (recv_data_from_remote heap env sesh b).1 ≡ sesh
  unfolding recv_data_from_remote frame_in
  recv_unreadable sesh b e = ground arith

  recv_readable :
      {o : Obfuscator} {id r : ℕ} {ch : List ℕ} {buf : StreamBuffer} (sesh : Session) (b : Bytes)
      (f : Frame)
      → Holding o id r ch buf sesh
      → frame_in env.salsa o b ≡ some f
      → (f.stream_id ≡ id) × (f.closing ≡ closing_nothing)
      → recv_data_from_remote heap env sesh b ≡ recv_frame heap env sesh r f
  unfolding recv_data_from_remote recv_for_stream frame_in
  recv_readable {o} {id} {r} sesh b f h read (same, datum) =
      let found : lookup f.stream_id sesh.streams ≡ some (some r) =
        ap (λ k. lookup k sesh.streams) same ∙ h.listed in
      ground (arith, h.same_obfuscator, h.is_open, found)

  recv_run-cons :
      (sesh s : Session) (b : Bytes) (bs : List Bytes)
      → (recv_data_from_remote heap env sesh b).1 ≡ s
      → recv_run heap env sesh (b ∷ bs) ≡ recv_run heap env s bs
  unfolding recv_run
  recv_run-cons sesh s b bs e = ap (λ t. recv_run heap env t bs) e

  -- The messages of an open stream, among others that cannot be read.
  recv_run_lem :
      (o : Obfuscator) (id r : ℕ) (ch : List ℕ) (bs : List Bytes) (buf : StreamBuffer)
      (sesh : Session)
      → OfStream id (frames_in env.salsa o bs)
      → (receive_all heap buf (frames_in env.salsa o bs)).to_be_closed ≡ false
      → Holding o id r ch buf sesh
      → Holding o id r ch
          (receive_all heap buf (frames_in env.salsa o bs)).after
          (recv_run heap env sesh bs)
  unfolding recv_run frames_in receive_all
  recv_run_lem o id r ch [] buf sesh own stays h = h
  recv_run_lem o id r ch (b ∷ bs) buf sesh own stays h =
      elim (Option-cases (frame_in env.salsa o b)) [
        | inl unreadable ↦
            let same = recv_unreadable sesh b (rw h.same_obfuscator unreadable) in
            subst After (sym (frames_in-none env.salsa o b bs unreadable))
              (λ own' stays'.
                rw (recv_run-cons sesh sesh b bs same)
                  (recv_run_lem o id r ch bs buf sesh own' stays' h))
              own stays
        | inr (f, read) ↦
            let fs = frames_in env.salsa o bs in
            subst After (sym (frames_in-some env.salsa o b bs f read))
              (λ own' stays'.
                let (first, later, same) = receive_all-open heap buf f fs stays' in
                let step = recv_readable sesh b f h read (own' f mem-cons_self) in
                rw (recv_run-cons sesh (recv_frame heap env sesh r f).1 b bs (ap (λ p. p.1) step)) (
                  subst
                    (λ q.
                      Holding o id r ch q (recv_run heap env (recv_frame heap env sesh r f).1 bs))
                    same
                    (recv_run_lem o id r ch bs (Buffer.write heap buf f).after
                      (recv_frame heap env sesh r f).1 (λ g m. own' g (mem-cons_of_mem f m)) later
                      (recv_frame_lem f h first))))
              own stays
      ]
    where
      After : List Frame → Type 0
      After fs =
          OfStream id fs
          → (receive_all heap buf fs).to_be_closed ≡ false
          → Holding o id r ch (receive_all heap buf fs).after (recv_run heap env sesh (b ∷ bs))

  -- The first frame of a stream that the session has not met makes the stream.
  recv_first :
      (sesh : Session) (b : Bytes) (f : Frame) (id : ℕ)
      → sesh.closed ≡ false
      → lookup id sesh.streams ≡ none
      → sesh.is_unordered ≡ false
      → length sesh.accept_ch < accept_backlog
      → frame_in env.salsa sesh.obfuscator b ≡ some f
      → (f.stream_id ≡ id) × (f.closing ≡ closing_nothing)
      → (s : Session) × (recv_data_from_remote heap env sesh b
          ≡ recv_frame heap env s sesh.next_ref f)
        × Holding sesh.obfuscator id sesh.next_ref
            (sesh.accept_ch ++ (sesh.next_ref ∷ []))
            new_stream_buffer
            s
  unfolding recv_data_from_remote recv_for_stream recv_new frame_in
  recv_first sesh b f id is_open absent in_order few read (same, datum) =
      let absent' : lookup f.stream_id sesh.streams ≡ none =
        ap (λ k. lookup k sesh.streams) same ∙ absent in
      let made = make_stream sesh f.stream_id in
      let s = stream_count_incr (record made {
        streams = insert f.stream_id (some sesh.next_ref) made.streams;
        accept_ch = made.accept_ch ++ (sesh.next_ref ∷ []);
      }) in
      (
        s,
        ground (arith, absent'),
        record {
          is_open = is_open;
          listed = ground (arith, lookup-insert f.stream_id id (some sesh.next_ref) sesh.streams);
          has_id = ground (arith, ==_refl sesh.next_ref);
          open_yet = ground (arith, ==_refl sesh.next_ref);
          buffer = ground (arith, ==_refl sesh.next_ref);
          same_obfuscator = refl;
          accepted = refl;
        },
      )

  -- From the first of them on, the messages of a stream are in its buffer.
  pub recv_run_new :
      (id : ℕ) (bs : List Bytes) (sesh : Session)
      → sesh.closed ≡ false
      → lookup id sesh.streams ≡ none
      → sesh.is_unordered ≡ false
      → length sesh.accept_ch < accept_backlog
      → OfStream id (frames_in env.salsa sesh.obfuscator bs)
      → (receive_all heap new_stream_buffer (frames_in env.salsa sesh.obfuscator bs)).to_be_closed
        ≡ false
      → frames_in env.salsa sesh.obfuscator bs ≢ []
      → Holding sesh.obfuscator id sesh.next_ref
          (sesh.accept_ch ++ (sesh.next_ref ∷ []))
          (receive_all heap new_stream_buffer (frames_in env.salsa sesh.obfuscator bs)).after
          (recv_run heap env sesh bs)
  unfolding recv_run frames_in
  recv_run_new id [] sesh is_open absent in_order few own stays some_frame =
      absurd (some_frame refl)
  recv_run_new id (b ∷ bs) sesh is_open absent in_order few own stays some_frame =
      elim (Option-cases (frame_in env.salsa sesh.obfuscator b)) [
        | inl unreadable ↦
            let same = recv_unreadable sesh b unreadable in
            subst After (sym (frames_in-none env.salsa sesh.obfuscator b bs unreadable))
              (λ own' stays' some'.
                rw same (recv_run_new id bs sesh is_open absent in_order few own' stays' some'))
              own stays some_frame
        | inr (f, read) ↦
            let fs = frames_in env.salsa sesh.obfuscator bs in
            subst After (sym (frames_in-some env.salsa sesh.obfuscator b bs f read))
              (λ own' stays' some'.
                let (first, later, same) = receive_all-open heap new_stream_buffer f fs stays' in
                let (s, step, h) =
                  recv_first sesh b f id is_open absent in_order few read (own' f mem-cons_self) in
                rw
                  (recv_run-cons sesh (recv_frame heap env s sesh.next_ref f).1 b bs
                    (ap (λ p. p.1) step))
                  (subst
                    (λ q.
                      Holding sesh.obfuscator id sesh.next_ref
                        (sesh.accept_ch ++ (sesh.next_ref ∷ [])) q
                        (recv_run heap env (recv_frame heap env s sesh.next_ref f).1 bs))
                    same
                    (recv_run_lem sesh.obfuscator id sesh.next_ref
                      (sesh.accept_ch ++ (sesh.next_ref ∷ [])) bs
                      (Buffer.write heap new_stream_buffer f).after
                      (recv_frame heap env s sesh.next_ref f).1
                      (λ g m. own' g (mem-cons_of_mem f m)) later (recv_frame_lem f h first))))
              own stays some_frame
      ]
    where
      After : List Frame → Type 0
      After fs =
          OfStream id fs
          → (receive_all heap new_stream_buffer fs).to_be_closed ≡ false
          → fs ≢ []
          → Holding sesh.obfuscator id sesh.next_ref (sesh.accept_ch ++ (sesh.next_ref ∷ []))
              (receive_all heap new_stream_buffer fs).after (recv_run heap env sesh (b ∷ bs))
