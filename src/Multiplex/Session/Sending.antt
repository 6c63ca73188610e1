-- ===== src/Multiplex/Session/Sending.antt =====
-- internal/multiplex/stream.go and switchboard.go: what `Stream.Write` puts on the wire.
use mathlib.Core.Path.{subst}
use cloak.Prelude.{
  ℕ, ◌+◌, ◌%◌, ◌^◌, ◌≤◌, ◌<◌, ◌≡◌, refl, Bytes, false, List, [], ◌∷◌, ◌++◌, none, some, length,
  take, replicate, arith, length-replicate,
}
use cloak.Multiplex.Frame.{Frame, InRange, closing_nothing}
use cloak.Multiplex.Obfs.{Salsa20, Obfuscator, ok, deobfuscate, payload_in, pad_len_of, tag_len_of}
use cloak.Multiplex.Obfs.RoundTrip.{deobfuscate-obfuscate}
use cloak.Multiplex.Session.State.{Session, Switchboard, Env, lookup, with_stream}
use cloak.Multiplex.Session.Switchboard.{send, sent_ok, pick_rand_conn}
use cloak.Multiplex.Session.Close.{send_data, obfuscate_and_send}

-- The outside serves one call: the connection that is drawn takes the bytes, and so do the sources
-- of randomness answer.
pub record Serves (salsa : Salsa20) (conns : List (ℕ × ℕ)) (count : ℕ) (env : Env) : Type 0 where
  pub conn : ℕ
  pub same_salsa : env.salsa ≡ salsa
  pub drawn_conn : lookup (env.pick count) conns ≡ some conn
  pub takes : (b : Bytes) → (n : ℕ) × (env.conn_write conn b ≡ some n)
  pub draws : (n : ℕ) → (b : Bytes) × (env.rnd.rand_read n ≡ some b)

-- The frames of one stream that carry data, numbered from `n` on.
abbrev pub Numbered : ℕ → ℕ → List Frame → Type 0
Numbered id n [] = Unit {0}
Numbered id n (f ∷ fs) =
    (f.stream_id ≡ id) × (f.seq ≡ n) × (f.closing ≡ closing_nothing) × Numbered id (n + 1) fs

abbrev pub payloads : List Frame → Bytes
payloads [] = []
payloads (f ∷ fs) = f.payload ++ payloads fs

-- The messages on the wire, read under an obfuscator, are these frames.
abbrev pub Reads : Salsa20 → Obfuscator → List (ℕ × Bytes) → List Frame → Type 0
Reads salsa o [] [] = Unit {0}
Reads salsa o [] (f ∷ fs) = ⊥
Reads salsa o (w ∷ ws) [] = ⊥
Reads salsa o (w ∷ ws) (f ∷ fs) = (deobfuscate salsa o w.1 ≡ ok f) × Reads salsa o ws fs

send_lem :
    {salsa : Salsa20} {env : Env} (sb : Switchboard) (b : Bytes)
    → sb.broken ≡ false
    → 0 < sb.conns_count
    → (s : Serves salsa sb.conns sb.conns_count env)
    → (n : ℕ) × (send env sb b ≡ (sent_ok n, record sb { sent = sb.sent ++ ((s.conn, b) ∷ []) }))
unfolding send pick_rand_conn
send_lem {salsa} {env} sb b whole some_conn s =
    let (n, taken) = s.takes b in (n, ground (arith, s.drawn_conn, taken))

-- The session after the frame that its stream `r` has sent as `bytes` over the connection `c`.
abbrev pub sent_state : Session → ℕ → ℕ → Bytes → Session
sent_state sesh r c bytes =
    record (with_stream sesh r
      (record (sesh.objects r) { seq = ((sesh.objects r).seq + 1) % 2 ^ 64 })) {
        sb = record sesh.sb { sent = sesh.sb.sent ++ ((c, bytes) ∷ []) };
      }

-- A session whose stream `r` may write.
pub record Ready (sesh : Session) (r : ℕ) : Type 0 where
  pub is_ordered : sesh.is_unordered ≡ false
  pub some_unit : 0 < sesh.max_stream_unit_write
  pub room : sesh.max_stream_unit_write + 269 ≤ sesh.stream_send_buffer_size
  pub whole : sesh.sb.broken ≡ false
  pub some_conn : 0 < sesh.sb.conns_count
  pub id_lt : (sesh.objects r).id < 2 ^ 32
  pub open_yet : (sesh.objects r).closed ≡ false

abbrev pub data_frame : Session → ℕ → Bytes → Frame
data_frame sesh r payload = record {
  stream_id = (sesh.objects r).id;
  seq = (sesh.objects r).seq;
  closing = closing_nothing;
  payload = payload;
}

send_data_lem :
    {salsa : Salsa20} {env : Env} (sesh : Session) (b : Bytes)
    → sesh.sb.broken ≡ false
    → 0 < sesh.sb.conns_count
    → (s : Serves salsa sesh.sb.conns sesh.sb.conns_count env)
    → send_data env sesh b
      ≡ (none, record sesh { sb = record sesh.sb { sent = sesh.sb.sent ++ ((s.conn, b) ∷ []) } })
unfolding send_data
send_data_lem {env = env} sesh b whole some_conn s =
    let (n, e) = send_lem sesh.sb b whole some_conn s in ground (arith, e)

-- One round: the frame is on the wire, and is read there.
pub send_frame :
    {salsa : Salsa20} {env : Env} (sesh : Session) (r : ℕ) (payload : Bytes)
    → Ready sesh r
    → (s : Serves salsa sesh.sb.conns sesh.sb.conns_count env) → (sesh.objects r).seq < 2 ^ 64
    → 0 < length payload
    → length payload ≤ sesh.max_stream_unit_write
    → (bytes : Bytes) × (obfuscate_and_send env sesh r closing_nothing payload
          (replicate sesh.stream_send_buffer_size 0)
          0
        ≡ (none, sent_state sesh r s.conn bytes))
      × (deobfuscate salsa sesh.obfuscator bytes ≡ ok (data_frame sesh r payload))
unfolding obfuscate_and_send payload_in
send_frame {salsa} {env} sesh r payload ready s small some_payload fits =
    let o = sesh.obfuscator in
    let f = data_frame sesh r payload in
    let tag = tag_len_of o.payload_cipher in
    let (random, drawn) = s.draws (pad_len_of env.rnd f.seq tag + tag) in
    let in_range : InRange f = record {
      stream_id_lt = ready.id_lt;
      seq_lt = small;
      closing_lt = omega arith;
    } in
    let buf = replicate sesh.stream_send_buffer_size 0 in
    let (n, out, written, read, _, _) =
      deobfuscate-obfuscate env.salsa env.rnd o f buf random 0 in_range some_payload
        (omega (arith, length-replicate {A = ℕ} sesh.stream_send_buffer_size 0)) refl drawn in
    (
      take n out,
      rw (written, obfuscate_and_send)
          (rw
            (send_data_lem
              (with_stream sesh r
                (record (sesh.objects r) { seq = ((sesh.objects r).seq + 1) % 2 ^ 64 }))
              (take n out) ready.whole ready.some_conn s)
            refl),
      subst (λ x. deobfuscate x o (take n out) ≡ ok f) s.same_salsa read,
    )
