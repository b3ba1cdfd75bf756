-- ===== src/Servers/Directory/Entries.antt =====
-- `dir_lookup` of egos-2000/library/syscall/servers.c on the directories that egos-2000/tools/mkfs.c
-- writes.
use operating_systems_compon.Base.{
  ℕ, zero, suc, ◌<◌, ◌≡◌, true, false, Option, none, some, List, [], ◌∷◌, ◌++◌, length, ◌==◌,
  if◌then◌else◌, Line, All, same_text,
}
use operating_systems_compon.Servers.Directory.{is_digit, digits_from}

abbrev pub NotSpace : ℕ → Type 0
NotSpace c = (c == 32) ≡ false

-- An entry: the name, the spaces before the number but one, and the digits of the number.
pub record Entry : Type 0 where
  pub name : Line
  pub padding : ℕ
  pub digits : Line

unfoldable pub spaces : ℕ → Line → Line
spaces zero rest = rest
spaces (suc n) rest = 32 ∷ spaces n rest

-- `sprintf(tmp, "%s%4d ", ...)`, and what follows.
unfoldable pub entry_text : Entry → Line → Line
entry_text e rest = e.name ++ (32 ∷ spaces e.padding (e.digits ++ (32 ∷ rest)))

unfoldable pub directory_text : List Entry → Line
directory_text [] = []
directory_text (e ∷ es) = entry_text e (directory_text es)

-- The number of the first entry with the name.
unfoldable pub find_entry : Line → List Entry → Option ℕ
find_entry name [] = none
find_entry name (e ∷ es) =
    let rest = find_entry name es in
    if same_text name e.name then some (digits_from 0 e.digits) else rest

-- A name without spaces, and a number in digits that is not the name looked for.
pub record IsEntry (name : Line) (e : Entry) : Type 0 where
  pub name_spaces : All NotSpace e.name
  pub digit : All (λ c. is_digit c ≡ true) e.digits
  pub some_digit : 0 < length e.digits
  pub not_name : same_text name e.digits ≡ false
