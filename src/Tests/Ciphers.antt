-- ===== src/Tests/Ciphers.antt =====
-- Concrete ciphers and random sources, which keep the contracts that internal/multiplex/obfs.go
-- relies on.
use mathlib.Core.List.{reverse, reverse-reverse, reverse-cons}
use cloak.Prelude.{
  ℕ, ◌-◌, ◌≡◌, refl, ap, sym, ◌∙◌, Bytes, length, take, replicate, ◌++◌, [], ◌∷◌, some,
  length-append, length-replicate, take-append, arith,
}
use cloak.Multiplex.Obfs.{Aead, Salsa20, Entropy, Obfuscator}

abbrev tag16 : Bytes
tag16 = replicate 16 9

pub open_tagged-append :
    (nonce plain : Bytes) → some (take (length (plain ++ tag16) - 16) (plain ++ tag16)) ≡ some plain
open_tagged-append nonce plain =
    let e : length (plain ++ tag16) - 16 ≡ length plain =
      omega (arith, length-append plain tag16) in
    ap some (rw e (take-append (length plain) plain tag16 refl))

-- The plaintext, then a fixed tag.
abbrev pub tagging : Aead
tagging = record {
  nonce_size = 12;
  overhead = 16;
  seal = λ nonce plain. plain ++ tag16;
  open_sealed = λ nonce sealed. some (take (length sealed - 16) sealed);
  overhead_eq = refl;
  open-seal = open_tagged-append;
  length-seal = λ nonce plain. length-append plain tag16;
}

pub length-reverse : (xs : Bytes) → length (reverse xs) ≡ length xs
length-reverse [] = refl
length-reverse (x ∷ xs) =
    ap length (reverse-cons x xs)
    ∙ omega (arith, length-append (reverse xs) (x ∷ []), length-reverse xs)

-- A key stream that turns the text round.
abbrev pub reversing : Salsa20
reversing = record {
  xor_key_stream = λ nonce key text. reverse text;
  xor_twice = λ nonce key text. reverse-reverse text;
  length-xor = λ nonce key text. length-reverse text;
}

pub read_sevens : (n : ℕ) (b : Bytes) → some (replicate n 7) ≡ some b → length b ≡ n
read_sevens n b e = ap length (sym (ground arith)) ∙ length-replicate n 7

-- The largest number in range, and bytes of one kind.
abbrev pub sevens : Entropy
sevens = record {
  rand_int = λ n. n - 1;
  rand_read = λ n. some (replicate n 7);
  rand_int_lt = λ n h. omega arith;
  length-rand_read = read_sevens;
}

abbrev pub tagged : Obfuscator
tagged = record { payload_cipher = some tagging; session_key = 1 ∷ 2 ∷ [] }
