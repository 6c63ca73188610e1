-- ===== src/Multiplex/Session/Closed.antt =====
-- internal/multiplex/session.go: what closing a session means for every later call.
use mathlib.Core.Path.{ap₂}
use cloak.Prelude.{
  ℕ, ◌≡◌, refl, ap, ◌∙◌, Bytes, true, false, List, [], ◌∷◌, Option, none, some, arith, if_either,
  take,
}
use cloak.Multiplex.Obfs.{obfuscate, Result, ok, err}
use cloak.Multiplex.StreamBuffer.Heap.{MinHeap}
use cloak.Multiplex.Session.State.{
  repeat_session_closing, write_failed, Session, Env, Err, set_terminal_msg, stream_count_decr,
  failed_to_send, with_stream,
}
use cloak.Multiplex.Session.Switchboard.{close_conn, send, close_all, pick_rand_conn}
use cloak.Multiplex.Session.Close.{
  close_streams, close_session, passive_close, send_data, notice, notify, closing_frame,
  close_actively, and_then, closing_buf, shut,
}
use cloak.Multiplex.Session.Streams.{deplex_round}

-- What `close_streams` leaves alone.
pub record Keeps (sesh t : Session) : Type 0 where
  pub same_closed : t.closed ≡ sesh.closed
  pub same_sb : t.sb ≡ sesh.sb
  pub same_obfuscator : t.obfuscator ≡ sesh.obfuscator
  pub same_size : t.stream_send_buffer_size ≡ sesh.stream_send_buffer_size

close_streams-Keeps : (m : List (ℕ × Option ℕ)) (sesh : Session) → Keeps sesh (close_streams m sesh)
unfolding close_streams
close_streams-Keeps [] sesh = record {
  same_closed = refl;
  same_sb = refl;
  same_obfuscator = refl;
  same_size = refl;
}
close_streams-Keeps ((k, none) ∷ m) sesh =
    let h = close_streams-Keeps m sesh in
    record {
      same_closed = h.same_closed;
      same_sb = h.same_sb;
      same_obfuscator = h.same_obfuscator;
      same_size = h.same_size;
    }
close_streams-Keeps ((k, some r) ∷ m) sesh =
    let next = stream_count_decr (with_stream sesh r (shut (sesh.objects r))) in
    let kept = close_streams-Keeps m sesh in
    let gone = close_streams-Keeps m next in
    if_either (Keeps sesh) (sesh.objects r).closed
      (record {
        same_closed = kept.same_closed;
        same_sb = kept.same_sb;
        same_obfuscator = kept.same_obfuscator;
        same_size = kept.same_size;
      })
      (record {
        same_closed = gone.same_closed;
        same_sb = gone.same_sb;
        same_obfuscator = gone.same_obfuscator;
        same_size = gone.same_size;
      })

-- An open session is closed, with its connections as they were.
close_session-Keeps :
    (sesh : Session)
    → sesh.closed ≡ false
    → ((close_session sesh).0 ≡ none) × Keeps (record sesh { closed = true }) (close_session sesh).1
unfolding close_session
close_session-Keeps sesh e =
    simp e (refl, close_streams-Keeps sesh.streams (record sesh { closed = true }))

pub close_session-closed : (sesh : Session) → (close_session sesh).1.closed ≡ true
unfolding close_session
close_session-closed sesh =
    ground (arith, (close_streams-Keeps sesh.streams (record sesh { closed = true })).same_closed)

and_then-closed :
    (r : Err × Session) (k : Session → Err × Session)
    → r.1.closed ≡ true
    → ((s : Session) → s.closed ≡ true → (k s).1.closed ≡ true)
    → (and_then r k).1.closed ≡ true
and_then-closed (some e, s) k h keep = h
and_then-closed (none, s) k h keep = keep s h

pub passive_close-closed : (sesh : Session) → (passive_close sesh).1.closed ≡ true
unfolding passive_close
passive_close-closed sesh =
    and_then-closed (close_session sesh) (λ s. (none, record s { sb = close_all s.sb }))
      (close_session-closed sesh) (λ s h. h)

send_data-closed :
    (env : Env) (sesh : Session) (b : Bytes)
    → sesh.closed ≡ true
    → (send_data env sesh b).1.closed ≡ true
unfolding send_data
send_data-closed env sesh b h = ground (
  arith,
  passive_close-closed
      (set_terminal_msg (record sesh { sb = (send env sesh.sb b).1 }) failed_to_send),
)

notify-closed :
    (env : Env) (s : Session) (r : Result (ℕ × Bytes))
    → s.closed ≡ true
    → (notify env s r).1.closed ≡ true
unfolding notify
notify-closed env s (err e) h = h
notify-closed env s (ok (n, out)) h =
    and_then-closed (send_data env s (take n out))
      (λ s'. (none, record s' { sb = close_all s'.sb })) (send_data-closed env s (take n out) h)
      (λ s' h'. h')

-- Whatever becomes of the notice, the session is closed.
pub close_actively-closed : (env : Env) (sesh : Session) → (close_actively env sesh).1.closed ≡ true
unfolding close_actively
close_actively-closed env sesh =
    and_then-closed (close_session sesh) (λ s. notify env s (notice env s))
      (close_session-closed sesh) (λ s h. notify-closed env s (notice env s) h)

-- A session that is closed already, and whose connection refuses the notice.
notify_refused :
    (env : Env) (s : Session) (n conn : ℕ) (out : Bytes)
    → s.closed ≡ true
    → s.sb.broken ≡ false
    → pick_rand_conn env s.sb ≡ some conn
    → env.conn_write conn (take n out) ≡ none
    → ((notify env s (ok (n, out))).0 ≡ some write_failed)
      × ((notify env s (ok (n, out))).1.sb ≡ s.sb)
unfolding notify send_data send passive_close close_session set_terminal_msg
notify_refused env s n conn out closed whole picked refused_write = ground arith

and_then-none :
    (r : Err × Session) (k : Session → Err × Session) → r.0 ≡ none → and_then r k ≡ k r.1
and_then-none (none, s) k e = refl
and_then-none (some x, s) k e = cc

repeat_passive :
    (t : Session) → t.closed ≡ true → passive_close t ≡ (some repeat_session_closing, t)
unfolding passive_close close_session
repeat_passive t e = ground arith

repeat_active :
    (env : Env) (t : Session)
    → t.closed ≡ true
    → close_actively env t ≡ (some repeat_session_closing, t)
unfolding close_actively close_session
repeat_active env t e = ground arith

deplex_closed :
    (heap : MinHeap) (env : Env) (t : Session) (ended : ℕ)
    → t.closed ≡ true
    → (deplex_round heap env t ended none).sb ≡ close_conn t.sb ended
unfolding deplex_round passive_close close_session set_terminal_msg
deplex_closed heap env t ended e = ground (arith, e)

-- An open session with a whole switchboard, whose connection refuses the closing notice, is closed
-- with every connection left open: `Close` returns the error, and the switchboard is as it was, not
-- broken. Closing the session again, actively or passively, is an error and changes nothing, and when
-- the reads from a connection end, that connection alone is closed.
pub close_leaves_connections :
    (heap : MinHeap) (env later : Env) (sesh : Session) (n conn ended : ℕ) (out : Bytes)
    → sesh.closed ≡ false
    → sesh.sb.broken ≡ false
    → notice env sesh ≡ ok (n, out)
    → pick_rand_conn env sesh.sb ≡ some conn
    → env.conn_write conn (take n out) ≡ none
    → let t = (close_actively env sesh).1 in
      ((close_actively env sesh).0 ≡ some write_failed)
      × (t.closed ≡ true)
      × (t.sb ≡ sesh.sb)
      × (passive_close t ≡ (some repeat_session_closing, t))
      × (close_actively later t ≡ (some repeat_session_closing, t))
      × ((deplex_round heap later t ended none).sb ≡ close_conn sesh.sb ended)
unfolding close_actively
close_leaves_connections heap env later sesh n conn ended out open_yet whole sealed picked
      refused_write =
    let (no_err, kept) = close_session-Keeps sesh open_yet in
    let s = (close_session sesh).1 in
    let same_notice : notice env s ≡ ok (n, out) =
      ap₂ (λ o size. obfuscate env.salsa env.rnd o (closing_frame env) (closing_buf env size) 14)
        kept.same_obfuscator kept.same_size
      ∙ sealed in
    let run : close_actively env sesh ≡ notify env s (ok (n, out)) =
      and_then-none (close_session sesh) (λ t. notify env t (notice env t)) no_err
      ∙ ap (notify env s) same_notice in
    let (refusal, sb_kept) =
      notify_refused env s n conn out (close_session-closed sesh)
        (ap (λ b. b.broken) kept.same_sb ∙ whole) (ap (pick_rand_conn env) kept.same_sb ∙ picked)
        refused_write in
    let shut_now = close_actively-closed env sesh in
    (
      ap (λ r. r.0) run ∙ refusal,
      shut_now,
      ap (λ r. r.1.sb) run ∙ sb_kept ∙ kept.same_sb,
      repeat_passive (close_actively env sesh).1 shut_now,
      repeat_active later (close_actively env sesh).1 shut_now,
      deplex_closed heap later (close_actively env sesh).1 ended shut_now
          ∙ ap (λ b. close_conn b ended) (ap (λ r. r.1.sb) run ∙ sb_kept ∙ kept.same_sb),
    )
