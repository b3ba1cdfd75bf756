-- ===== src/Servers/Directory/Tests.antt =====
-- Runs of `dir_lookup`, and an instance of the theorem on it.
use operating_systems_compon.Base.{◌≤◌, ◌≡◌, refl, some, List, [], ◌∷◌, length, codes, All, arith}
use operating_systems_compon.Servers.Directory.{
  dir_lookup, lookup_from, followed, behind, atoi, signed_digits, is_digit, is_white,
}
use operating_systems_compon.Servers.Directory.Entries.{
  NotSpace, spaces, Entry, IsEntry, entry_text, directory_text, find_entry,
}
use operating_systems_compon.Servers.Directory.Lookup.{dir_lookup-find_entry}

-- A directory of tools/mkfs.c.
abbrev home : List Entry
home =
    record { name = codes "./"; padding = 2; digits = codes "2" }
    ∷ record { name = codes "README"; padding = 2; digits = codes "5" }
    ∷ []

directory_text-home : directory_text home ≡ codes "./   2 README   5 "
unfolding directory_text entry_text spaces
directory_text-home = refl

-- A name that is the digits of a number is found, and has the number 0.
dir_lookup-digits : dir_lookup (codes "./   2 README   5 ") (codes "5") ≡ some (some 0)
unfolding dir_lookup lookup_from followed behind atoi signed_digits is_digit is_white
dir_lookup-digits = refl

readme-NotSpace : All NotSpace (codes "README")
readme-NotSpace = (refl, (refl, (refl, (refl, (refl, (refl, tt))))))

home-IsEntry : All (IsEntry (codes "README")) home
unfolding is_digit
home-IsEntry =
    let dot : IsEntry (codes "README")
        (record { name = codes "./"; padding = 2; digits = codes "2" }) =
      record {
        name_spaces = (refl, (refl, tt));
        digit = (refl, tt);
        some_digit = omega arith;
        not_name = refl;
      } in
    let readme : IsEntry (codes "README")
        (record { name = codes "README"; padding = 2; digits = codes "5" }) =
      record {
        name_spaces = readme-NotSpace;
        digit = (refl, tt);
        some_digit = omega arith;
        not_name = refl;
      } in
    (dot, (readme, tt))

home_long : length (codes "README") ≤ length (directory_text home)
unfolding directory_text entry_text spaces
home_long = omega arith

dir_lookup-find_entry_example :
    dir_lookup (directory_text home) (codes "README") ≡ some (find_entry (codes "README") home)
dir_lookup-find_entry_example =
    dir_lookup-find_entry (codes "README") home refl readme-NotSpace home-IsEntry home_long
