-- ===== src/Servers/Directory/Lookup.antt =====
-- `dir_lookup` of egos-2000/library/syscall/servers.c against the entries of a directory.
use operating_systems_compon.Base.{
  suc, ap, ◌∙◌, ◌≤◌, ◌≡◌, refl, inl, inr, Bool-cases, true, false, some, List, [], ◌∷◌, ◌++◌,
  length, ltb, Line, All, same_text, arith,
}
use operating_systems_compon.Servers.Directory.{digits_from, lookup_from, dir_lookup}
use operating_systems_compon.Servers.Directory.Entries.{
  NotSpace, spaces, Entry, IsEntry, entry_text, directory_text, find_entry,
}
use operating_systems_compon.Servers.Directory.Scanning.{
  lookup_from-word, lookup_from-found, lookup_from-spaces,
}
use operating_systems_compon.Servers.Directory.Numbers.{atoi-spaces, atoi-digits, NotSpace-digits}

module _ (name : Line) (some_byte : same_text name [] ≡ false) (name_ok : All NotSpace name) where
  -- An entry of the name.
  entry_found :
      (e : Entry) (rest : Line)
      → IsEntry name e
      → same_text name e.name ≡ true
      → lookup_from name true (entry_text e rest) ≡ some (digits_from 0 e.digits)
  unfolding entry_text spaces
  entry_found e rest is same =
      lookup_from-found name name_ok e.name _ is.name_spaces same
      ∙ ap some (
          atoi-spaces (suc e.padding) (e.digits ++ (32 ∷ rest))
          ∙ atoi-digits e.digits rest is.some_digit is.digit)

  -- An entry of another name is passed over, with its number.
  entry_other :
      (e : Entry) (rest : Line)
      → IsEntry name e
      → same_text name e.name ≡ false
      → lookup_from name true (entry_text e rest) ≡ lookup_from name true rest
  unfolding entry_text
  entry_other e rest is other =
      lookup_from-word name name_ok e.name _ is.name_spaces other
      ∙ lookup_from-spaces name name_ok e.padding (e.digits ++ (32 ∷ rest)) some_byte
      ∙ lookup_from-word name name_ok e.digits rest (NotSpace-digits e.digits is.digit) is.not_name

  lookup_from-entries :
      (es : List Entry)
      → All (IsEntry name) es
      → lookup_from name true (directory_text es) ≡ find_entry name es
  unfolding directory_text find_entry lookup_from
  lookup_from-entries [] all = refl
  lookup_from-entries (e ∷ es) (is, all) = elim (Bool-cases (same_text name e.name)) [
    | inl same ↦ rw same (entry_found e (directory_text es) is same)
    | inr other ↦ rw other (entry_other e (directory_text es) is other ∙ lookup_from-entries es all)
  ]

-- For a name that is not empty and has no space, and a directory whose text is at least as long as
-- the name, whose names have no spaces, and none of whose numbers in digits is the name, `dir_lookup`
-- gives the number of the first entry with the name, or -1 if there is none.
pub dir_lookup-find_entry :
    (name : Line) (es : List Entry)
    → same_text name [] ≡ false
    → All NotSpace name
    → All (IsEntry name) es
    → length name ≤ length (directory_text es)
    → dir_lookup (directory_text es) name ≡ some (find_entry name es)
unfolding dir_lookup
dir_lookup-find_entry name es some_byte name_ok all long =
    let not_short : ltb (length (directory_text es)) (length name) ≡ false = ground arith in
    rw (not_short, lookup_from-entries name some_byte name_ok es all) refl
