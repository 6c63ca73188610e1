-- ===== src/Client/Options.antt =====
-- internal/client/state.go: ssvToJson, the options of an Android plugin as JSON. Texts are bytes.
pub mod Members
use cloak.Prelude.{
  ℕ, ◌-◌, ◌&&◌, ◌||◌, Bytes, Bool, true, false, codes, same_bytes, has_byte, is_nil, length, take,
  split, split_two, join, has_prefix, map, List, [], ◌∷◌, ◌++◌, none, some, ◌==◌, if◌then◌else◌,
}

-- `strings.Replace(s, old, new, -1)`, where `old` has the two bytes `a` and `b`, and `new` has one.
unfoldable pub replace_pair : ℕ → ℕ → ℕ → Bytes → Bytes
replace_pair a b c [] = []
replace_pair a b c (x ∷ []) = x ∷ []
replace_pair a b c (x ∷ (y ∷ s)) = elim (x == a && y == b) [
  | true ↦ c ∷ replace_pair a b c s
  | false ↦ x ∷ replace_pair a b c (y ∷ s)
]

abbrev pub backslash : ℕ
backslash = 92

unfoldable pub unescape : Bytes → Bytes
unfolding replace_pair
unescape s =
    replace_pair backslash b';' b';'
      (replace_pair backslash b'=' b'=' (replace_pair backslash backslash backslash s))

abbrev pub quote : ℕ
quote = 34

abbrev pub quoted : Bytes → Bytes
quoted s = quote ∷ (s ++ quote ∷ [])

abbrev pub elem : Bytes → List Bytes → Bool
elem x [] = false
elem x (y ∷ ys) = same_bytes x y || elem x ys

abbrev pub unquoted : List Bytes
unquoted = codes "NumConn" ∷ (codes "StreamTimeout" ∷ (codes "KeepAlive" ∷ (codes "UDP" ∷ [])))

-- What the loop appends for a key and its value.
abbrev pub member : Bytes → Bytes → Bytes
member key value =
    if has_prefix (codes "AlternativeNames") key
    then (if has_byte b',' value
        then quoted key
          ++ (b':' ∷ (b'[' ∷ (join b',' (map quoted (split b',' value)) ++ (b']' ∷ (b',' ∷ [])))))
        else quoted key ++ (b':' ∷ (b'[' ∷ (quoted value ++ (b']' ∷ (b',' ∷ []))))))
    else if elem key unquoted
    then quoted key ++ (b':' ∷ (value ++ b',' ∷ []))
    else quoted key ++ (b':' ∷ (quoted value ++ b',' ∷ []))

-- The loop over the lines: an empty line ends it, and one with no `=` is passed over.
unfoldable pub members : List Bytes → Bytes
members [] = []
members (ln ∷ lines) =
    let rest = members lines in
    if is_nil ln
    then []
    else elim (split_two b'=' ln) [ none ↦ rest | some (key, value) ↦ member key value ++ rest ]

-- The last byte is taken away, which is the last comma unless there is no member.
unfoldable pub ssv_to_json : Bytes → Bytes
unfolding unescape members
ssv_to_json ssv =
    let ret = b'{' ∷ members (split b';' (unescape ssv)) in take (length ret - 1) ret ++ b'}' ∷ []
