-- ===== src/Multiplex/Session/Writing.antt =====
-- internal/multiplex/stream.go: the loop of `Stream.Write`.
use cloak.Prelude.{
  ℕ, zero, suc, ◌+◌, ◌%◌, ◌^◌, ◌≤◌, ◌<◌, ◌≡◌, refl, sym, ap, ◌∙◌, inl, inr, Bytes, false, List, [],
  ◌∷◌, ◌++◌, none, some, length, take, drop, replicate, leb, arith, append-nil, append_assoc,
  length-take, take-append-drop, drop_all, length-append, Bool-cases, leb→le, ==_refl,
}
use cloak.Multiplex.Frame.{Frame, closing_nothing}
use cloak.Multiplex.Obfs.{Salsa20, ok, deobfuscate}
use cloak.Multiplex.Session.State.{Session, Env}
use cloak.Multiplex.Session.Close.{obfuscate_and_send}
use cloak.Multiplex.Session.Streams.{next_payload, write_loop, write_stream}
use cloak.Multiplex.Session.Sending.{
  Ready, Serves, Numbered, Reads, payloads, sent_state, data_frame, send_frame,
}

next_payload_lem :
    (sesh : Session) (b : ℕ) (left : Bytes)
    → sesh.is_unordered ≡ false
    → 0 < sesh.max_stream_unit_write
    → (p : Bytes) × (next_payload sesh (b ∷ left) ≡ some p)
      × (0 < length p)
      × (length p ≤ sesh.max_stream_unit_write)
      × (p ++ drop (length p) (b ∷ left) ≡ b ∷ left)
next_payload_lem sesh b left ordered some_unit =
    let unit = sesh.max_stream_unit_write in
    let all = b ∷ left in
    elim (Bool-cases (leb (length all) unit)) [
      | inl fits ↦ (
        all,
        rw fits,
        omega arith,
        leb→le (length all) unit fits,
        ap (λ d. all ++ d) (drop_all (length all) all (omega arith)) ∙ append-nil all,
      )
      | inr split ↦
          let long : unit ≤ length all = ground arith in
          let size : length (take unit all) ≡ unit = omega (arith, length-take {A = ℕ} unit all) in
          (
            take unit all,
            ground (arith, split, ordered),
            omega (arith, size),
            omega (arith, size),
            rw size (take-append-drop unit all),
          )
    ]

-- What a write of `input` to the stream `r` has done.
pub record Wrote (salsa : Salsa20) (sesh : Session) (r : ℕ) (input : Bytes) (t : Session)
    : Type 0 where
  pub wire : List (ℕ × Bytes)
  pub frames : List Frame
  pub sent : t.sb.sent ≡ sesh.sb.sent ++ wire
  pub reads : Reads salsa sesh.obfuscator wire frames
  pub numbered : Numbered (sesh.objects r).id (sesh.objects r).seq frames
  pub bytes : payloads frames ≡ input
  pub few : length frames ≤ length input
  pub next_seq : (t.objects r).seq ≡ (sesh.objects r).seq + length frames
  pub ready : Ready t r
  pub same_id : (t.objects r).id ≡ (sesh.objects r).id
  pub same_obfuscator : t.obfuscator ≡ sesh.obfuscator
  pub same_conns : t.sb.conns ≡ sesh.sb.conns
  pub same_count : t.sb.conns_count ≡ sesh.sb.conns_count

-- The session after a round, as the next one finds it.
object_after :
    (sesh : Session) (r c : ℕ) (bytes : Bytes)
    → (sent_state sesh r c bytes).objects r
      ≡ record (sesh.objects r) { seq = ((sesh.objects r).seq + 1) % 2 ^ 64 }
object_after sesh r c bytes = ground (arith, ==_refl r)

sent_state-Ready :
    (sesh : Session) (r c : ℕ) (bytes : Bytes) → Ready sesh r → Ready (sent_state sesh r c bytes) r
sent_state-Ready sesh r c bytes ready = record {
  is_ordered = ready.is_ordered;
  some_unit = ready.some_unit;
  room = ready.room;
  whole = ready.whole;
  some_conn = ready.some_conn;
  id_lt = rw (object_after sesh r c bytes) ready.id_lt;
  open_yet = rw (object_after sesh r c bytes) ready.open_yet;
}

write_loop_step :
    (fuel : ℕ) (env : ℕ → Env) (sesh : Session) (r k n b : ℕ) (left p : Bytes) (t : Session)
    → next_payload sesh (b ∷ left) ≡ some p
    → obfuscate_and_send
        (env k)
        sesh
        r
        closing_nothing
        p
        (replicate sesh.stream_send_buffer_size 0)
        0
      ≡ (none, t)
    → write_loop (suc fuel) env sesh r k n (b ∷ left)
      ≡ write_loop fuel env t r (k + 1) (n + length p) (drop (length p) (b ∷ left))
unfolding write_loop
write_loop_step fuel env sesh r k n b left p t chosen done =
    rw (chosen, write_loop)
      (rw (done, write_loop)
        (ap (λ q. write_loop fuel env q.1 r (k + 1) (n + length p) (drop (length p) (b ∷ left)))
          done))

module _ (salsa : Salsa20) (r : ℕ) where
  Wrote-nil : (sesh : Session) → Ready sesh r → Wrote salsa sesh r [] sesh
  Wrote-nil sesh ready = record {
    wire = [];
    frames = [];
    sent = sym (append-nil sesh.sb.sent);
    reads = tt;
    numbered = tt;
    bytes = refl;
    few = omega arith;
    next_seq = omega arith;
    ready = ready;
    same_id = refl;
    same_obfuscator = refl;
    same_conns = refl;
    same_count = refl;
  }

  -- A round, followed by the writing of the rest.
  Wrote-cons :
      (sesh : Session) (c : ℕ) (bytes payload rest input : Bytes) (t : Session)
      → deobfuscate salsa sesh.obfuscator bytes ≡ ok (data_frame sesh r payload)
      → (sesh.objects r).seq + length input < 2 ^ 64
      → 0 < length payload
      → payload ++ rest ≡ input
      → Wrote salsa (sent_state sesh r c bytes) r rest t
      → Wrote salsa sesh r input t
  Wrote-cons sesh c bytes payload rest input t read small some_payload whole w =
      let f = data_frame sesh r payload in
      let size = ap (length {A = ℕ}) whole in
      let sum : length payload + length rest ≡ length input =
        omega (arith, length-append payload rest, size) in
      let next : ((sent_state sesh r c bytes).objects r).seq ≡ (sesh.objects r).seq + 1 =
        ap (λ s. s.seq) (object_after sesh r c bytes) ∙ omega arith in
      let same = ap (λ s. s.id) (object_after sesh r c bytes) in
      record {
        wire = (c, bytes) ∷ w.wire;
        frames = f ∷ w.frames;
        sent = w.sent ∙ append_assoc sesh.sb.sent ((c, bytes) ∷ []) w.wire;
        reads = (read, w.reads);
        numbered = (refl, refl, refl, rw (same, next) at w.numbered);
        bytes = rw w.bytes whole;
        few = omega (arith, w.few);
        next_seq = omega (arith, w.next_seq, next);
        ready = w.ready;
        same_id = w.same_id ∙ same;
        same_obfuscator = w.same_obfuscator;
        same_conns = w.same_conns;
        same_count = w.same_count;
      }

  write_loop_lem :
      (fuel : ℕ) (env : ℕ → Env) (sesh : Session) (k n : ℕ) (left : Bytes)
      → Ready sesh r
      → ((j : ℕ) → Serves salsa sesh.sb.conns sesh.sb.conns_count (env j))
      → length left ≤ fuel
      → (sesh.objects r).seq + length left < 2 ^ 64
      → (t : Session) × (write_loop fuel env sesh r k n left ≡ (n + length left, none, t))
        × Wrote salsa sesh r left t
  unfolding write_loop
  write_loop_lem zero env sesh k n [] ready serves le small =
      (sesh, ground arith, Wrote-nil sesh ready)
  write_loop_lem zero env sesh k n (b ∷ left) ready serves le small = absurd (omega arith)
  write_loop_lem (suc fuel) env sesh k n [] ready serves le small =
      (sesh, ground arith, Wrote-nil sesh ready)
  write_loop_lem (suc fuel) env sesh k n (b ∷ left) ready serves le small =
      let (p, chosen, some_payload, fits, whole) =
        next_payload_lem sesh b left ready.is_ordered ready.some_unit in
      let s = serves k in
      let (bytes, done, read) = send_frame sesh r p ready s (omega arith) some_payload fits in
      let rest = drop (length p) (b ∷ left) in
      let size : length p + length rest ≡ length (b ∷ left) =
        omega (arith, length-append p rest, ap (length {A = ℕ}) whole) in
      let next : ((sent_state sesh r s.conn bytes).objects r).seq ≡ (sesh.objects r).seq + 1 =
        ap (λ o. o.seq) (object_after sesh r s.conn bytes) ∙ omega arith in
      let (t, looped, w) =
        write_loop_lem fuel env (sent_state sesh r s.conn bytes) (k + 1) (n + length p) rest
          (sent_state-Ready sesh r s.conn bytes ready) serves (omega arith) (omega (arith, next)) in
      (
        t,
        write_loop_step fuel env sesh r k n b left p (sent_state sesh r s.conn bytes) chosen done
            ∙ (looped ∙ ap (λ m. (m, none, t)) (omega arith)),
        Wrote-cons sesh s.conn bytes p rest (b ∷ left) t read small some_payload whole w,
      )

-- `Stream.Write` takes the whole input, and puts it on the wire as data frames.
pub write_stream_lem :
    (salsa : Salsa20) (env : ℕ → Env) (sesh : Session) (r : ℕ) (input : Bytes)
    → Ready sesh r
    → ((j : ℕ) → Serves salsa sesh.sb.conns sesh.sb.conns_count (env j))
    → (sesh.objects r).seq + length input < 2 ^ 64
    → (t : Session) × (write_stream env sesh r input ≡ (length input, none, t))
      × Wrote salsa sesh r input t
unfolding write_stream
write_stream_lem salsa env sesh r input ready serves small =
    let (t, looped, w) =
      write_loop_lem salsa r (length input) env sesh 0 0 input ready serves (omega arith) small in
    (t, rw ready.open_yet (looped ∙ ap (λ m. (m, none, t)) (omega arith)), w)
