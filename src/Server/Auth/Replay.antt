-- ===== src/Server/Auth/Replay.antt =====
-- internal/server/auth.go and state.go: a packet is good once, until the cache is swept.
pub use cloak.Prelude.{same_bytes_refl, same_bytes_eq}
use cloak.Prelude.{ℕ, ◌*◌, ◌/◌, ◌≤◌, ◌≡◌, refl, ap, ◌∙◌, Bytes, true, List, [], ◌∷◌, arith}
use cloak.Ecdh.{AesGcm}
use cloak.Server.Auth.{
  ClientInfo, AuthFragments, replay, AuthResult, ok, err, second, decrypt_client_info, UsedRandom,
  is_used, set_used, register_random, clean_used_random, auth_fragments,
}

is_used-set_used : (r : Bytes) (now : ℕ) (m : UsedRandom) → is_used r (set_used r now m) ≡ true
unfolding is_used set_used
is_used-set_used r now [] = ground (arith, same_bytes_refl r)
is_used-set_used r now ((k, t) ∷ m) = ground (arith, same_bytes_refl r, is_used-set_used r now m)

-- A field stays in the cache when another is registered.
is_used-set_used_of :
    (r s : Bytes) (now : ℕ) (m : UsedRandom)
    → is_used r m ≡ true
    → is_used r (set_used s now m) ≡ true
unfolding is_used set_used
is_used-set_used_of r s now [] e = cc
is_used-set_used_of r s now ((k, t) ∷ m) e =
    ground (arith, same_bytes_eq k s, is_used-set_used_of r s now m)

-- Packets that come one after another.
pub auth_all : AesGcm → UsedRandom → List (AuthResult AuthFragments × ℕ) → UsedRandom
auth_all aes used [] = used
auth_all aes used ((r, now) ∷ rest) = auth_all aes (auth_fragments aes used r now).1 rest

pub auth_fragments-is_used :
    (aes : AesGcm) (used : UsedRandom) (r : AuthResult AuthFragments) (now : ℕ) (k : Bytes)
    → is_used k used ≡ true
    → is_used k (auth_fragments aes used r now).1 ≡ true
unfolding auth_fragments register_random
auth_fragments-is_used aes used (err e) now k h = h
auth_fragments-is_used aes used (ok f) now k h =
    ground (arith, is_used-set_used_of k f.rand_pub_key (now / second) used h)

auth_all-is_used :
    (aes : AesGcm) (used : UsedRandom) (es : List (AuthResult AuthFragments × ℕ)) (k : Bytes)
    → is_used k used ≡ true
    → is_used k (auth_all aes used es) ≡ true
unfolding auth_all
auth_all-is_used aes used [] k h = h
auth_all-is_used aes used ((r, now) ∷ es) k h =
    auth_all-is_used aes (auth_fragments aes used r now).1 es k
      (auth_fragments-is_used aes used r now k h)

pub registered :
    (aes : AesGcm) (used : UsedRandom) (f : AuthFragments) (now : ℕ)
    → is_used f.rand_pub_key (auth_fragments aes used (ok f) now).1 ≡ true
unfolding auth_fragments register_random
registered aes used f now = ground (arith, is_used-set_used f.rand_pub_key (now / second) used)

-- Once a packet with some random field has been looked at, accepted or not, every later packet with
-- the same field is refused as a replay, whatever packets come between them, as long as the cache
-- is not swept.
pub replay_refused :
    (aes : AesGcm) (used : UsedRandom) (f g : AuthFragments) (now later : ℕ)
    (es : List (AuthResult AuthFragments × ℕ))
    → g.rand_pub_key ≡ f.rand_pub_key
    → (auth_fragments aes (auth_all aes (auth_fragments aes used (ok f) now).1 es) (ok g) later).0
      ≡ err replay
unfolding auth_fragments register_random
replay_refused aes used f g now later es same =
    let m = auth_all aes (auth_fragments aes used (ok f) now).1 es in
    let seen : is_used g.rand_pub_key m ≡ true =
      ap (λ k. is_used k m) same
      ∙ auth_all-is_used aes (auth_fragments aes used (ok f) now).1 es f.rand_pub_key
          (registered aes used f now) in
    ground arith

-- No entry of the cache comes from the future.
abbrev pub Past : ℕ → UsedRandom → Type 0
Past now [] = Unit {0}
Past now ((k, t) ∷ m) = (t * second ≤ now) × Past now m

set_used-Past :
    (r : Bytes) (now : ℕ) (m : UsedRandom) → Past now m → Past now (set_used r (now / second) m)
unfolding set_used
set_used-Past r now [] p = (omega arith, tt)
set_used-Past r now ((k, t) ∷ m) p = ground (arith, set_used-Past r now m p.1)

clean_used_random-nil :
    (now at : ℕ) (m : UsedRandom) → now ≤ at → Past now m → clean_used_random at m ≡ []
unfolding clean_used_random
clean_used_random-nil now at [] h p = refl
clean_used_random-nil now at ((k, t) ∷ m) h p = ground (arith, clean_used_random-nil now at m h p.1)

-- A sweep forgets every field, also one registered a moment ago: a packet that was accepted before
-- the sweep is accepted once more after it, while its timestamp is still in the window. No entry of
-- the cache is from the future, and the packet's random field was new.
pub replay_after_sweep :
    (aes : AesGcm) (used : UsedRandom) (f : AuthFragments) (info : ClientInfo) (now at later : ℕ)
    → Past now used
    → now ≤ at
    → (auth_fragments aes used (ok f) now).0 ≡ ok info
    → decrypt_client_info aes f later ≡ ok info
    → (auth_fragments aes
        (clean_used_random at (auth_fragments aes used (ok f) now).1)
        (ok f)
        later).0
      ≡ ok info
unfolding auth_fragments register_random is_used
replay_after_sweep aes used f info now at later past order accepted still =
    let swept =
      clean_used_random-nil now at (set_used f.rand_pub_key (now / second) used) order
        (set_used-Past f.rand_pub_key now used past) in
    ground arith
