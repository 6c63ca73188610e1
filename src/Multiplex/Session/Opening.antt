-- ===== src/Multiplex/Session/Opening.antt =====
-- internal/multiplex/session.go: the streams that a session opens.
use cloak.Prelude.{
  none, ◌≤◌, ◌≢◌, ℕ, ◌≡◌, Bool, true, false, some, if◌then◌else◌, arith, ◌<◌, ◌+◌, ◌^◌, leb,
}
use cloak.Multiplex.Session.State.{no_multiplex, Session, lookup, lookup-insert}
use cloak.Multiplex.Session.Streams.{stream, refused, open_stream}

-- No stream has an id that is still to be given out, and the streams of the map are objects that have
-- been made.
pub record Fresh (sesh : Session) : Type 0 where
  pub unused_ids : (w : ℕ) → sesh.next_stream_id ≤ w → lookup w sesh.streams ≡ none
  pub made_objects : (w r : ℕ) → lookup w sesh.streams ≡ some (some r) → r < sesh.next_ref

-- What `OpenStream` does to an open session that may have one more stream: the id and the object of
-- the new stream belonged to none, and all other entries and objects stay.
pub record Opened (sesh : Session) (r : ℕ) (t : Session) : Type 0 where
  pub new_id : lookup sesh.next_stream_id sesh.streams ≡ none
  pub new_object : (w q : ℕ) → lookup w sesh.streams ≡ some (some q) → q ≢ r
  pub has_id : (t.objects r).id ≡ sesh.next_stream_id
  pub is_open : (t.objects r).closed ≡ false
  pub listed : lookup sesh.next_stream_id t.streams ≡ some (some r)
  pub others_listed : (w : ℕ) → w ≢ sesh.next_stream_id → lookup w t.streams ≡ lookup w sesh.streams
  pub others_kept : (q : ℕ) → q ≢ r → t.objects q ≡ sesh.objects q
  pub counted : t.active_stream_count ≡ sesh.active_stream_count + 1
  pub still_open : t.closed ≡ false

abbrev pub may_open : Session → Bool
may_open sesh = if sesh.singleplex then leb sesh.next_stream_id 1 else true

module _ (sesh : Session) (o : sesh.closed ≡ false) (small : sesh.next_stream_id + 1 < 2 ^ 32)
    (may : may_open sesh ≡ true) (fresh : Fresh sesh) where
  open_stream-Fresh : Fresh (open_stream sesh).1
  unfolding open_stream
  open_stream-Fresh =
      let id = sesh.next_stream_id in
      record {
        unused_ids = λ w h.
            ground
              (arith, lookup-insert id w (some sesh.next_ref) sesh.streams, fresh.unused_ids w, h);
        made_objects = λ w r h. ground (
          arith,
          lookup-insert id w (some sesh.next_ref) sesh.streams,
          fresh.made_objects w r,
          h,
        );
      }

  open_stream-new :
      sesh.active_stream_count + 1 < 2 ^ 32
      → ((open_stream sesh).0 ≡ stream sesh.next_ref)
        × Opened sesh sesh.next_ref (open_stream sesh).1
  unfolding open_stream
  open_stream-new few =
      let id = sesh.next_stream_id in
      (
        ground arith,
        record {
          new_id = fresh.unused_ids id (omega arith);
          new_object = λ w q h e. omega (arith, fresh.made_objects w q h, e);
          has_id = ground arith;
          is_open = ground arith;
          listed = ground (arith, lookup-insert id id (some sesh.next_ref) sesh.streams);
          others_listed =
              λ w h. ground (arith, lookup-insert id w (some sesh.next_ref) sesh.streams, h);
          others_kept = λ q h. ground (arith, h);
          counted = ground arith;
          still_open = ground arith;
        },
      )

-- Let no id that is still to be given out be in the map of an open session, and all its streams be
-- objects that have been made; let it not be singleplexing, or have opened no stream yet. Then
-- OpenStream gives a stream whose id and object belonged to none, lists it, counts it, and leaves all
-- other streams as they are; and what was assumed of ids and objects holds again for the next call.
-- The next id and the count, increased by one, are below 2^32.
pub open_stream-Opened :
    (sesh : Session)
    → sesh.closed ≡ false
    → sesh.next_stream_id + 1 < 2 ^ 32
    → sesh.active_stream_count + 1 < 2 ^ 32
    → may_open sesh ≡ true
    → Fresh sesh
    → ((open_stream sesh).0 ≡ stream sesh.next_ref)
      × Opened sesh sesh.next_ref (open_stream sesh).1
      × Fresh (open_stream sesh).1
open_stream-Opened sesh o small few may fresh =
    let (made, opened) = open_stream-new sesh o small may fresh few in
    (made, opened, open_stream-Fresh sesh o small may fresh)

-- An open singleplexing session that has opened a stream before refuses another, and the refusal
-- uses up an id, as long as ids stay below 2^32; nothing else changes.
pub open_stream-refused :
    (sesh : Session)
    → sesh.closed ≡ false
    → sesh.singleplex ≡ true
    → 1 < sesh.next_stream_id
    → sesh.next_stream_id + 1 < 2 ^ 32
    → open_stream sesh
      ≡ (refused no_multiplex, record sesh { next_stream_id = sesh.next_stream_id + 1 })
unfolding open_stream
open_stream-refused sesh o single used small = ground arith
