-- ===== src/Multiplex/Session/Delivery.antt =====
-- internal/multiplex: a write to a stream on one side, and the messages of it as they reach the other.
use mathlib.Core.HLevel.{×_prop}
use mathlib.Core.Logic.Or
use mathlib.Core.List.{Perm, filter_map, mem-cons, not-mem-nil, append_cancel_left}
use mathlib.Core.List.Perm
use native.Mathlib.Nat.{ℕ_set}
use cloak.Prelude.{
  length-perm, ℕ, ◌+◌, ◌^◌, ◌≤◌, ◌<◌, ◌≡◌, ◌≢◌, refl, sym, ap, ◌∙◌, inl, inr, Bytes, false, List,
  [], ◌∷◌, ◌++◌, none, some, length, arith, Option-cases,
}
use cloak.Multiplex.Frame.{Frame}
use cloak.Multiplex.Obfs.{Salsa20, Obfuscator}
use cloak.Multiplex.StreamBuffer.{StreamBuffer, new_stream_buffer}
use cloak.Multiplex.StreamBuffer.Heap.{MinHeap}
use cloak.Multiplex.StreamPipe.{recv_buffer_size_limit}
use cloak.Multiplex.StreamBuffer.InOrder.{Expected, data_of, closes}
use cloak.Multiplex.StreamBuffer.Receive.{receive_all, receive_all-perm}
use cloak.Multiplex.Session.State.{Err, Session, Env, ordered, lookup, accept_backlog}
use cloak.Multiplex.Session.Streams.{write_stream, recv_run}
use cloak.Multiplex.Session.Sending.{Ready, Serves, Numbered, Reads, payloads}
use cloak.Multiplex.Session.Writing.{write_stream_lem}
use cloak.Multiplex.Session.Receiving.{frame_in, frames_in, OfStream, recv_run_new}

abbrev pub bytes_of : List (ℕ × Bytes) → List Bytes
bytes_of [] = []
bytes_of ((c, b) ∷ ws) = b ∷ bytes_of ws

frames_in-filter_map :
    (salsa : Salsa20) (o : Obfuscator) (bs : List Bytes)
    → frames_in salsa o bs ≡ filter_map (frame_in salsa o) bs
unfolding frames_in filter_map
frames_in-filter_map salsa o [] = refl
frames_in-filter_map salsa o (b ∷ bs) = elim (Option-cases (frame_in salsa o b)) [
  | inl e ↦ rw (e, frames_in, filter_map) (frames_in-filter_map salsa o bs)
  | inr (f, e) ↦ rw (e, frames_in, filter_map) (ap (◌∷◌ f) (frames_in-filter_map salsa o bs))
]

frames_in-perm :
    (salsa : Salsa20) (o : Obfuscator) {xs ys : List Bytes}
    → Perm xs ys
    → Perm (frames_in salsa o xs) (frames_in salsa o ys)
frames_in-perm salsa o {xs} {ys} p =
    rw (frames_in-filter_map salsa o xs, frames_in-filter_map salsa o ys)
      (Perm.filter_map (frame_in salsa o) p)

-- What a write put on the wire, before messages that cannot be read.
frames_in-Reads :
    (salsa : Salsa20) (o : Obfuscator) (ws : List (ℕ × Bytes)) (fs : List Frame)
    (noise : List Bytes)
    → Reads salsa o ws fs
    → frames_in salsa o noise ≡ []
    → frames_in salsa o (bytes_of ws ++ noise) ≡ fs
unfolding frames_in frame_in
frames_in-Reads salsa o [] [] noise h n = n
frames_in-Reads salsa o [] (f ∷ fs) noise h n = absurd h
frames_in-Reads salsa o (w ∷ ws) [] noise h n = absurd h
frames_in-Reads salsa o (w ∷ ws) (f ∷ fs) noise (read, h) n =
    rw (read, frames_in, frame_in) (ap (◌∷◌ f) (frames_in-Reads salsa o ws fs noise h n))

Numbered-Expected : (id n : ℕ) (fs : List Frame) → Numbered id n fs → Expected n fs
Numbered-Expected id n [] h = tt
Numbered-Expected id n (f ∷ fs) (i, s, c, h) = (s, inl c, Numbered-Expected id (n + 1) fs h)

Numbered-data_of : (id n : ℕ) (fs : List Frame) → Numbered id n fs → data_of fs ≡ payloads fs
Numbered-data_of id n [] h = refl
Numbered-data_of id n (f ∷ fs) (i, s, c, h) =
    rw c (ap (λ b. f.payload ++ b) (Numbered-data_of id (n + 1) fs h))

Numbered-closes : (id n : ℕ) (fs : List Frame) → Numbered id n fs → closes fs ≡ false
Numbered-closes id n [] h = refl
Numbered-closes id n (f ∷ fs) (i, s, c, h) = rw c (Numbered-closes id (n + 1) fs h)

Numbered-OfStream : (id n : ℕ) (fs : List Frame) → Numbered id n fs → OfStream id fs
Numbered-OfStream id n [] h f m = absurd (not-mem-nil m)
Numbered-OfStream id n (g ∷ fs) (i, s, c, h) f m =
    Or.elim (×_prop (ℕ_set _ _) (ℕ_set _ _)) (mem-cons.0 m) (λ e. rw e (i, c))
      (Numbered-OfStream id (n + 1) fs h f)

-- A receiver that has made the stream `id`, which waits to be accepted and holds these bytes.
pub record Delivered (receiver after : Session) (id : ℕ) (input : Bytes) : Type 0 where
  pub buf : StreamBuffer
  pub is_open : after.closed ≡ false
  pub waits : after.accept_ch ≡ receiver.accept_ch ++ (receiver.next_ref ∷ [])
  pub listed : lookup id after.streams ≡ some (some receiver.next_ref)
  pub has_id : (after.objects receiver.next_ref).id ≡ id
  pub open_yet : (after.objects receiver.next_ref).closed ≡ false
  pub buffer : (after.objects receiver.next_ref).recv_buf ≡ ordered buf
  pub bytes : buf.buf.buf ≡ input
  pub none_early : buf.sh ≡ []

some_frames : (fs : List Frame) → 0 < length (payloads fs) → fs ≢ []
some_frames [] h e = absurd (omega arith)
some_frames (f ∷ fs) h e = cc

-- What was sent and what has come in, as frames.
module _ (heap : MinHeap) (env : Env) (receiver : Session) (id : ℕ) (fs : List Frame)
    (arrivals : List Bytes) (input : Bytes) (numbered : Numbered id 0 fs)
    (all : payloads fs ≡ input) (some_input : 0 < length input) (few : length fs < 2 ^ 64)
    (fits : length input ≤ recv_buffer_size_limit)
    (came : Perm (frames_in env.salsa receiver.obfuscator arrivals) fs)
    (is_open : receiver.closed ≡ false) (absent : lookup id receiver.streams ≡ none)
    (in_order : receiver.is_unordered ≡ false)
    (room : length receiver.accept_ch < accept_backlog) where
  frames-Delivered : Delivered receiver (recv_run heap env receiver arrivals) id input
  frames-Delivered =
      let gs = frames_in env.salsa receiver.obfuscator arrivals in
      let got =
        receive_all-perm heap gs fs came (Numbered-Expected id 0 fs numbered) few
          (rw (Numbered-data_of id 0 fs numbered ∙ all) fits) in
      let own : OfStream id gs =
        λ f m. Numbered-OfStream id 0 fs numbered f ((Perm.mem_iff came).0 m) in
      let nonempty : gs ≢ [] = λ e.
        some_frames fs (rw all some_input)
          (no_frames fs (omega (arith, length-perm came, ap (length {A = Frame}) e))) in
      let h =
        recv_run_new heap env id arrivals receiver is_open absent in_order room own
          (got.closing ∙ Numbered-closes id 0 fs numbered) nonempty in
      record {
        buf = (receive_all heap new_stream_buffer gs).after;
        is_open = h.is_open;
        waits = h.accepted;
        listed = h.listed;
        has_id = h.has_id;
        open_yet = h.open_yet;
        buffer = h.buffer;
        bytes = got.bytes ∙ (Numbered-data_of id 0 fs numbered ∙ all);
        none_early = got.heap_empty;
      }
    where
      no_frames : (gs : List Frame) → length gs ≡ 0 → gs ≡ []
      no_frames [] e = refl
      no_frames (g ∷ gs) e = absurd (omega arith)

-- A write to a new stream of a session whose connections take what they are given succeeds with the
-- whole input. When the messages that it has put on the wire have reached the other side, in any
-- order and among others that cannot be read, the other side has a new stream of the same id, which
-- waits to be accepted and holds exactly the input. Both sides are open and ordered and have the same
-- obfuscator; the id is new to the receiver, whose accept channel has room; the input is not
-- empty, and within the limit of the receive buffer, so that nothing waits for a reader.
pub write_stream-Delivered :
    (salsa : Salsa20) (heap : MinHeap) (envs : ℕ → Env) (env : Env) (sender receiver t : Session)
    (r n : ℕ) (e : Err) (input : Bytes) (ws : List (ℕ × Bytes)) (arrivals noise : List Bytes)
    → Ready sender r
    → (sender.objects r).seq ≡ 0
    → ((j : ℕ) → Serves salsa sender.sb.conns sender.sb.conns_count (envs j))
    → 0 < length input
    → length input ≤ recv_buffer_size_limit
    → write_stream envs sender r input ≡ (n, e, t)
    → t.sb.sent ≡ sender.sb.sent ++ ws
    → env.salsa ≡ salsa
    → receiver.obfuscator ≡ sender.obfuscator
    → receiver.closed ≡ false
    → lookup (sender.objects r).id receiver.streams ≡ none
    → receiver.is_unordered ≡ false
    → length receiver.accept_ch < accept_backlog
    → Perm arrivals (bytes_of ws ++ noise)
    → frames_in salsa receiver.obfuscator noise ≡ []
    → (n ≡ length input)
      × (e ≡ none)
      × Delivered receiver (recv_run heap env receiver arrivals) (sender.objects r).id input
write_stream-Delivered salsa heap envs env sender receiver t r n e input ws arrivals noise ready new
      serves some_input fits wrote sent same_salsa same_key is_open absent in_order room came
      unreadable =
    let (t', wrote', w) = write_stream_lem salsa envs sender r input ready serves (omega arith) in
    let same = sym wrote ∙ wrote' in
    let same_t : t ≡ t' = ap (λ p. p.2) same in
    let same_ws : w.wire ≡ ws =
      append_cancel_left sender.sb.sent w.wire ws
        (sym w.sent ∙ (ap (λ u. u.sb.sent) (sym same_t) ∙ sent)) in
    let o = receiver.obfuscator in
    let reads : Reads salsa o ws w.frames = rw (same_key, ← same_ws) w.reads in
    let read = frames_in-Reads salsa o ws w.frames noise reads unreadable in
    let got : Perm (frames_in env.salsa o arrivals) w.frames =
      rw same_salsa (rw read at (frames_in-perm salsa o came)) in
    (
      ap (λ p. p.0) same,
      ap (λ p. p.1) same,
      frames-Delivered heap env receiver (sender.objects r).id w.frames arrivals input
          (rw new at w.numbered) w.bytes some_input (omega (arith, w.few, fits)) fits got is_open
          absent in_order room,
    )
