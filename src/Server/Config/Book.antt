-- ===== src/Server/Config/Book.antt =====
-- internal/server/state.go: the proxy book, against the entries of the configuration.
use cloak.Prelude.{
  ◌≡◌, refl, ap, ◌∙◌, Bytes, Bool, true, not, ◌&&◌, ◌++◌, same_bytes, same_bytes_refl,
  same_bytes_eq, to_lower, List, [], ◌∷◌, Option, none, some, Bool-cases, if◌then◌else◌, arith, inl,
  inr,
}
use cloak.Server.Config.{
  Platform, Addr, Entry, malformed, unresolved, passed_over, address, entry_of, ok, lookup_text,
  insert_text, parse_entries, parse_proxy_book,
}

pub lookup_text-insert_text :
    {V : Type 0} (name key : Bytes) (v : V) (book : List (Bytes × V))
    → lookup_text key (insert_text name v book)
      ≡ (if same_bytes name key then some v else lookup_text key book)
unfolding lookup_text insert_text
lookup_text-insert_text name key v [] = refl
lookup_text-insert_text name key v ((k, w) ∷ book) = ground (
  arith,
  lookup_text-insert_text name key v book,
  same_bytes_eq k name,
  same_bytes_eq name key,
  same_bytes_eq k key,
  same_bytes_refl key,
)

abbrev pub addr_in : Entry → Option Addr
addr_in (address a) = some a
addr_in _ = none

-- The address that the configuration gives for a name: that of the last entry under it that has one.
abbrev pub addr_for : Platform → Bytes → List (Bytes × List Bytes) → Option Addr → Option Addr
addr_for net n [] found = found
addr_for net n ((name, pair) ∷ entries) found = addr_for net n entries (
    if same_bytes (to_lower name) n
    then elim (addr_in (entry_of net pair)) [ none ↦ found | some a ↦ some a ]
    else found)

parse_entries-lookup :
    (net : Platform) (n : Bytes) (entries : List (Bytes × List Bytes))
    (book found : List (Bytes × Addr))
    → parse_entries net entries book ≡ ok found
    → lookup_text n found ≡ addr_for net n entries (lookup_text n book)
unfolding parse_entries
parse_entries-lookup net n [] book found h = ground arith
parse_entries-lookup net n ((name, pair) ∷ entries) book found h =
    go (entry_of net pair) refl (λ b. parse_entries-lookup net n entries b found)
  where
    go :
        (e : Entry)
        → entry_of net pair ≡ e
        → ((b : List (Bytes × Addr))
            → parse_entries net entries b ≡ ok found
            → lookup_text n found ≡ addr_for net n entries (lookup_text n b))
        → lookup_text n found ≡ addr_for net n ((name, pair) ∷ entries) (lookup_text n book)
    go malformed e ih = absurd (ground arith)
    go unresolved e ih = absurd (ground arith)
    go passed_over e ih = ground (arith, ih book (rw (e, parse_entries) at h))
    go (address a) e ih =
        ih (insert_text (to_lower name) a book) (rw (e, parse_entries) at h)
        ∙ rw e (ap (addr_for net n entries) (lookup_text-insert_text (to_lower name) n a book))

-- No entry has the name, in lower case.
abbrev pub unnamed : Bytes → List (Bytes × List Bytes) → Bool
unnamed n [] = true
unnamed n ((name, pair) ∷ entries) = not (same_bytes (to_lower name) n) && unnamed n entries

addr_for-unnamed :
    (net : Platform) (n : Bytes) (entries : List (Bytes × List Bytes)) (found : Option Addr)
    → unnamed n entries ≡ true
    → addr_for net n entries found ≡ found
addr_for-unnamed net n [] found h = refl
addr_for-unnamed net n ((name, pair) ∷ entries) found h =
    elim (Bool-cases (same_bytes (to_lower name) n)) [
      | inl e ↦ absurd (ground arith)
      | inr e ↦ rw e (addr_for-unnamed net n entries found (ground arith))
    ]

addr_for-append :
    (net : Platform) (n : Bytes) (es fs : List (Bytes × List Bytes)) (found : Option Addr)
    → addr_for net n (es ++ fs) found ≡ addr_for net n fs (addr_for net n es found)
addr_for-append net n [] fs found = refl
addr_for-append net n ((name, pair) ∷ es) fs found = addr_for-append net n es fs _

-- In a proxy book that is accepted, a method has the address that its entry resolves to, wherever the
-- entry stands among the others, and none if its network is neither TCP nor UDP. No other entry has
-- the same name in lower case.
pub parse_proxy_book-lookup_text :
    (net : Platform) (before after : List (Bytes × List Bytes)) (name : Bytes) (pair : List Bytes)
    (book : List (Bytes × Addr))
    → parse_proxy_book net (before ++ (name, pair) ∷ after) ≡ ok book
    → unnamed (to_lower name) before ≡ true
    → unnamed (to_lower name) after ≡ true
    → lookup_text (to_lower name) book ≡ addr_in (entry_of net pair)
unfolding parse_proxy_book lookup_text
parse_proxy_book-lookup_text net before after name pair book h first last =
    let n = to_lower name in
    let own = addr_in (entry_of net pair) in
    parse_entries-lookup net n (before ++ (name, pair) ∷ after) [] book h
    ∙ (addr_for-append net n before ((name, pair) ∷ after) none
        ∙ (ap (addr_for net n ((name, pair) ∷ after)) (addr_for-unnamed net n before none first)
            ∙ (addr_for-unnamed net n after _ last
                ∙ own_entry own (same_bytes n n) (same_bytes_refl n))))
  where
    own_entry :
        (o : Option Addr) (b : Bool)
        → b ≡ true
        → (if b then elim o [ none ↦ none | some a ↦ some a ] else none) ≡ o
    own_entry none b e = rw e refl
    own_entry (some a) b e = rw e refl
