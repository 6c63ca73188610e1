-- ===== src/Client/Options/Members.antt =====
-- internal/client/state.go: the JSON that options become, and what becomes of an escaped semicolon.
use mathlib.Core.Path.{ap₂}
use cloak.Prelude.{
  ℕ, ◌-◌, ◌&&◌, ◌||◌, ◌≡◌, refl, sym, ap, ◌∙◌, Bytes, Bool, true, false, not, codes, has_byte,
  is_nil, length, take, take-append, split, split_two, split-append, split_absent, join, has_prefix,
  map, List, [], ◌∷◌, ◌++◌, append-nil, append_assoc, some, ◌==◌, if◌then◌else◌, arith,
  length-append, Bool-cases, inl, inr, ==_refl,
}
use cloak.Client.Options.{
  replace_pair, backslash, unescape, quoted, elem, unquoted, member, members, ssv_to_json,
}

-- An option, and the text of a list of them.
abbrev pub assignment : Bytes × Bytes → Bytes
assignment (key, value) = key ++ b'=' ∷ value

-- A key has no `=`, and neither part has a semicolon or a backslash.
abbrev pub plain : Bytes → Bool
plain s = not (has_byte b';' s) && not (has_byte backslash s)

abbrev pub Plain : List (Bytes × Bytes) → Type 0
Plain [] = Unit {0}
Plain ((key, value) ∷ options) =
    (has_byte b'=' key ≡ false) × (plain key ≡ true) × (plain value ≡ true) × Plain options

-- The JSON text of an option.
abbrev pub json_of : Bytes × Bytes → Bytes
json_of (key, value) =
    quoted key
    ++ b':'
      ∷ (if has_prefix (codes "AlternativeNames") key
          then b'[' ∷ (join b',' (map quoted (split b',' value)) ++ b']' ∷ [])
          else if elem key unquoted
          then value
          else quoted value)

replace_skip :
    (a b c x : ℕ) (s : Bytes)
    → (x == a) ≡ false
    → replace_pair a b c (x ∷ s) ≡ x ∷ replace_pair a b c s
unfolding replace_pair
replace_skip a b c x [] h = refl
replace_skip a b c x (y ∷ s) h = ground arith

-- Nothing is replaced before the first byte that could be.
replace_pair-append :
    (a b c : ℕ) (s t : Bytes)
    → has_byte a s ≡ false
    → replace_pair a b c (s ++ t) ≡ s ++ replace_pair a b c t
replace_pair-append a b c [] t h = refl
replace_pair-append a b c (x ∷ s) t h =
    replace_skip a b c x (s ++ t) (ground arith)
    ∙ ap (◌∷◌ x) (replace_pair-append a b c s t (ground arith))

replace_absent : (a b c : ℕ) (s : Bytes) → has_byte a s ≡ false → replace_pair a b c s ≡ s
unfolding replace_pair
replace_absent a b c s h =
    ap (replace_pair a b c) (sym (append-nil s)) ∙ replace_pair-append a b c s [] h ∙ append-nil s

unescape_plain : (s : Bytes) → has_byte backslash s ≡ false → unescape s ≡ s
unfolding unescape
unescape_plain s h =
    ap (λ t. replace_pair backslash b';' b';' (replace_pair backslash b'=' b'=' t))
      (replace_absent backslash backslash backslash s h)
    ∙ (ap (replace_pair backslash b';' b';') (replace_absent backslash b'=' b'=' s h)
        ∙ replace_absent backslash b';' b';' s h)

split_two-append :
    (c : ℕ) (s t : Bytes) → has_byte c s ≡ false → split_two c (s ++ c ∷ t) ≡ some (s, t)
split_two-append c [] t h = rw (==_refl c) refl
split_two-append c (x ∷ s) t h = ground (arith, split_two-append c s t)

has_byte_parts : (c : ℕ) (s t : Bytes) → has_byte c (s ++ t) ≡ (has_byte c s || has_byte c t)
has_byte_parts c [] t = refl
has_byte_parts c (x ∷ s) t = ground (arith, has_byte_parts c s t)

member-json_of : (key value : Bytes) → member key value ≡ json_of (key, value) ++ b',' ∷ []
member-json_of key value = elim (Bool-cases (has_prefix (codes "AlternativeNames") key)) [
  | inl names ↦ elim (Bool-cases (has_byte b',' value)) [
    | inl several ↦
        let parts = join b',' (map quoted (split b',' value)) in
        rw (names, several)
          (ap (λ t. quoted key ++ b':' ∷ (b'[' ∷ t))
              (sym (append_assoc parts (b']' ∷ []) (b',' ∷ [])))
            ∙ sym (append_assoc (quoted key) (b':' ∷ (b'[' ∷ (parts ++ b']' ∷ []))) (b',' ∷ [])))
    | inr one ↦
        rw (names, one, split_absent b',' value one)
          (ap (λ t. quoted key ++ b':' ∷ (b'[' ∷ t))
              (sym (append_assoc (quoted value) (b']' ∷ []) (b',' ∷ [])))
            ∙ sym (
                append_assoc (quoted key) (b':' ∷ (b'[' ∷ (quoted value ++ b']' ∷ [])))
                  (b',' ∷ [])))
  ]
  | inr other ↦ elim (Bool-cases (elem key unquoted)) [
    | inl bare ↦ rw (other, bare) (sym (append_assoc (quoted key) (b':' ∷ value) (b',' ∷ [])))
    | inr text ↦
        rw (other, text) (sym (append_assoc (quoted key) (b':' ∷ quoted value) (b',' ∷ [])))
  ]
]

not_nil : (key value : Bytes) → is_nil (key ++ b'=' ∷ value) ≡ false
not_nil [] value = refl
not_nil (x ∷ key) value = refl

-- One line of the loop.
members_step :
    (key value : Bytes) (lines : List Bytes)
    → has_byte b'=' key ≡ false
    → members (assignment (key, value) ∷ lines) ≡ member key value ++ members lines
unfolding members
members_step key value lines h = rw (not_nil key value, split_two-append b'=' key value h) refl

-- The members of some options, each with its comma.
members_of_options :
    (option : Bytes × Bytes) (options : List (Bytes × Bytes)) (lines : List Bytes)
    → Plain (option ∷ options)
    → members lines ≡ []
    → members (map assignment (option ∷ options) ++ lines)
      ≡ join b',' (map json_of (option ∷ options)) ++ b',' ∷ []
members_of_options (key, value) [] lines (h, _, _, _) none_left =
    members_step key value lines h
    ∙ (ap (λ t. member key value ++ t) none_left
        ∙ (append-nil (member key value) ∙ member-json_of key value))
members_of_options (key, value) (option ∷ options) lines (h, _, _, all) none_left =
    let later = members_of_options option options lines all none_left in
    let rest = join b',' (map json_of (option ∷ options)) in
    members_step key value (map assignment (option ∷ options) ++ lines) h
    ∙ (ap₂ (λ s t. s ++ t) (member-json_of key value) later
        ∙ (append_assoc (json_of (key, value)) (b',' ∷ []) (rest ++ b',' ∷ [])
            ∙ sym (append_assoc (json_of (key, value)) (b',' ∷ rest) (b',' ∷ []))))

-- The text of some options has no backslash, and its lines are the options.
abbrev pub ssv_of : Bytes × Bytes → List (Bytes × Bytes) → Bytes
ssv_of option options = join b';' (map assignment (option ∷ options))

assignment_lacks :
    (c : ℕ) (key value : Bytes)
    → has_byte c key ≡ false
    → has_byte c value ≡ false
    → (b'=' == c) ≡ false
    → has_byte c (assignment (key, value)) ≡ false
assignment_lacks c key value hk hv other = ground (arith, has_byte_parts c key (b'=' ∷ value))

ssv_of-Plain :
    (option : Bytes × Bytes) (options : List (Bytes × Bytes))
    → Plain (option ∷ options)
    → has_byte backslash (ssv_of option options) ≡ false
ssv_of-Plain (key, value) [] (_, pk, pv, _) =
    assignment_lacks backslash key value (ground arith) (ground arith) refl
ssv_of-Plain (key, value) (option ∷ options) (_, pk, pv, all) = ground (
  arith,
  has_byte_parts backslash (assignment (key, value)) (b';' ∷ ssv_of option options),
  assignment_lacks backslash key value (ground arith) (ground arith) refl,
  ssv_of-Plain option options all,
)

split-ssv_of :
    (option : Bytes × Bytes) (options : List (Bytes × Bytes)) (t : Bytes)
    → Plain (option ∷ options)
    → split b';' (ssv_of option options ++ b';' ∷ t)
      ≡ map assignment (option ∷ options) ++ split b';' t
split-ssv_of (key, value) [] t (_, pk, pv, _) =
    split-append b';' (assignment (key, value)) t
    ∙ ap (λ ps. ps ++ split b';' t)
        (split_absent b';' (assignment (key, value))
          (assignment_lacks b';' key value (ground arith) (ground arith) refl))
split-ssv_of (key, value) (option ∷ options) t (_, pk, pv, all) =
    ap (split b';')
      (append_assoc (assignment (key, value)) (b';' ∷ ssv_of option options) (b';' ∷ t))
    ∙ (split-append b';' (assignment (key, value)) (ssv_of option options ++ b';' ∷ t)
        ∙ ap₂ (λ ps qs. ps ++ qs)
            (split_absent b';' (assignment (key, value))
              (assignment_lacks b';' key value (ground arith) (ground arith) refl))
            (split-ssv_of option options t all))

cut_comma :
    (s : Bytes) → take (length (b'{' ∷ (s ++ b',' ∷ [])) - 1) (b'{' ∷ (s ++ b',' ∷ [])) ≡ b'{' ∷ s
cut_comma s =
    let size : length (b'{' ∷ (s ++ b',' ∷ [])) - 1 ≡ length (b'{' ∷ s) =
      omega (arith, length-append s (b',' ∷ [])) in
    ap (λ n. take n (b'{' ∷ (s ++ b',' ∷ []))) size
    ∙ take-append (length (b'{' ∷ s)) (b'{' ∷ s) (b',' ∷ []) refl

-- The text ends here, or an empty line follows.
abbrev pub ends : Bytes → Bool
ends [] = true
ends (x ∷ s) = x == b';'

members_end : (s : Bytes) → ends s ≡ true → members (split b';' s) ≡ []
unfolding members
members_end [] h = refl
members_end (x ∷ s) h = rw h refl

-- Options that are written `key=value`, each followed by a semicolon, become a text in braces with
-- a member for each, in the same order and separated by commas: a quoted key, a colon, and a
-- bracketed list of quoted names under AlternativeNames, the value as it is under NumConn,
-- StreamTimeout, KeepAlive and UDP, and the quoted value under any other. Nothing is escaped, so
-- that this is JSON only if keys and quoted values have no quotes and the bare values are JSON.
-- What follows an empty line is left out. No key has an `=`, and no key or value a semicolon or a
-- backslash; there is one option at least, and no backslash behind them.
pub ssv_to_json-ssv_of :
    (option : Bytes × Bytes) (options : List (Bytes × Bytes)) (ignored : Bytes)
    → Plain (option ∷ options)
    → ends ignored ≡ true
    → has_byte backslash ignored ≡ false
    → ssv_to_json (ssv_of option options ++ b';' ∷ ignored)
      ≡ b'{' ∷ (join b',' (map json_of (option ∷ options)) ++ b'}' ∷ [])
unfolding ssv_to_json
ssv_to_json-ssv_of option options ignored all last h =
    let s = ssv_of option options ++ b';' ∷ ignored in
    let text : unescape s ≡ s = unescape_plain s (
      ground (
        arith,
        has_byte_parts backslash (ssv_of option options) (b';' ∷ ignored),
        ssv_of-Plain option options all,
      )) in
    let json = join b',' (map json_of (option ∷ options)) in
    let body : members (split b';' (unescape s)) ≡ json ++ b',' ∷ [] =
      ap (λ t. members (split b';' t)) text
      ∙ (ap members (split-ssv_of option options ignored all)
          ∙ members_of_options option options (split b';' ignored) all
              (members_end ignored last)) in
    ap (λ m. take (length (b'{' ∷ m) - 1) (b'{' ∷ m) ++ b'}' ∷ []) body
    ∙ ap (λ r. r ++ b'}' ∷ []) (cut_comma json)

-- A semicolon behind a backslash.
unescape_semicolon :
    (s t : Bytes)
    → has_byte backslash s ≡ false
    → has_byte backslash t ≡ false
    → unescape (s ++ backslash ∷ (b';' ∷ t)) ≡ s ++ b';' ∷ t
unfolding unescape replace_pair
unescape_semicolon s t hs ht =
    let kept : (b : ℕ)
        → (b';' == b) ≡ false
        → replace_pair backslash b b (s ++ backslash ∷ (b';' ∷ t)) ≡ s ++ backslash ∷ (b';' ∷ t) =
      λ b other.
        replace_pair-append backslash b b s (backslash ∷ (b';' ∷ t)) hs
        ∙ ap (λ r. s ++ r) (ground (arith, replace_absent backslash b b (b';' ∷ t) ht)) in
    ap (λ r. replace_pair backslash b';' b';' (replace_pair backslash b'=' b'=' r))
      (kept backslash refl)
    ∙ (ap (replace_pair backslash b';' b';') (kept b'=' refl)
        ∙ (replace_pair-append backslash b';' b';' s (backslash ∷ (b';' ∷ t)) hs
            ∙ ap (λ r. s ++ b';' ∷ r) (replace_absent backslash b';' b';' t ht)))

-- A backslash in front of a semicolon has no effect: the semicolon separates two options all the
-- same. There is no other backslash in the text.
pub ssv_to_json-escaped :
    (s t : Bytes)
    → has_byte backslash s ≡ false
    → has_byte backslash t ≡ false
    → ssv_to_json (s ++ backslash ∷ (b';' ∷ t)) ≡ ssv_to_json (s ++ b';' ∷ t)
unfolding ssv_to_json
ssv_to_json-escaped s t hs ht =
    let plain_text : unescape (s ++ b';' ∷ t) ≡ s ++ b';' ∷ t =
      unescape_plain (s ++ b';' ∷ t) (ground (arith, has_byte_parts backslash s (b';' ∷ t))) in
    ap (λ r. let ret = b'{' ∷ members (split b';' r) in take (length ret - 1) ret ++ b'}' ∷ [])
      (unescape_semicolon s t hs ht ∙ sym plain_text)
