-- ===== src/UserPrograms/Tests.antt =====
-- Runs of the user programs, and instances of the theorems on them.
use operating_systems_compon.Base.{
  ℕ, words, get_or, ◌+◌, ◌/◌, ◌%◌, ◌<◌, ◌≡◌, refl, true, ◌&&◌, some, none, ◌==◌, if◌then◌else◌,
  codes, same_text, arith, List, Line,
}
use operating_systems_compon.UserPrograms.Cd.{Lookup, cd, cd_back}
use operating_systems_compon.UserPrograms.Grep.{FileRead, grep, text_in, Selects, grep-first_block}
use operating_systems_compon.UserPrograms.Checksum.{checksum, sum_from, checksum-sum}

-- Directory 2 has the directory 7 of the name src.
abbrev directories : Lookup
directories ino name =
    if ino == 2 && same_text name (codes "src/")
    then some 7
    else (if ino == 7 && same_text name (codes "../") then some 2 else none)

cd_back_example :
    cd directories
      (codes "..")
      (cd directories (codes "src") (record { ino = 2; path = codes "/home" }))
    ≡ record { ino = 2; path = codes "/home" }
cd_back_example =
    cd_back directories 2 7 (codes "home") (codes "src") (refl, (refl, (refl, tt))) refl refl refl
      refl

abbrev bytes : ℕ → ℕ
bytes i = 200 + i

bytes_sum : sum_from (20 / 2) 0 bytes ≡ 537140
unfolding sum_from
bytes_sum = refl

checksum-sum_example :
    (c : ℕ) × (checksum 0 bytes 20 true ≡ some c)
    × (0 < c)
    × (c < 65536)
    × ((0 + sum_from (20 / 2) 0 bytes + c) % 65535 ≡ 0)
checksum-sum_example = checksum-sum 0 bytes 20 (omega (arith, bytes_sum))

-- A file of two lines in its first block, and a third line in the next.
abbrev notes : FileRead
notes ino offset =
    if offset == 0
    then ((λ j. get_or (codes "one\ntwo\n") j 0), true)
    else ((λ j. get_or (codes "or two\n") j 0), true)

abbrev only_notes : Lookup
only_notes ino name = some 3

grep-first_block_example :
    (out : List Line) × (grep only_notes notes 1 2 (codes "two") (codes "notes") ≡ some out)
    × Selects (codes "two") (words 10 (text_in 512 0 ((notes 3 0).0))) out
grep-first_block_example =
    grep-first_block only_notes notes 0 2 3 (codes "two") (codes "notes") refl (omega arith)
