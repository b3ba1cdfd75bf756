-- ===== src/UserPrograms/Grep.antt =====
-- egos-2000/apps/user/grep.c. What `dir_lookup` and `file_read` answer are arguments: the number of a
-- file, or none for -1, and the block with whether 0 is returned.
use operating_systems_compon.Base.{
  ℕ, zero, suc, ◌+◌, ◌-◌, ◌^◌, ◌<◌, ◌≡◌, refl, ap, Bool, true, false, ◌&&◌, ◌||◌, Option, none,
  some, Bool-cases, inl, inr, List, [], ◌∷◌, ltb, leb, ◌==◌, if◌then◌else◌, sle, add32, minus_one,
  Line, words, arith, ◌++◌, sym, ◌∙◌, eq→==,
}
use operating_systems_compon.UserPrograms.Cd.{Lookup}

abbrev pub Bytes : Type 0
Bytes = ℕ → ℕ

abbrev pub FileRead : Type 0
FileRead = (ino offset : ℕ) → Bytes × Bool

-- The bytes of a block are put into the buffer.
abbrev pub fill_block : (total : ℕ) → (block buf : Bytes) → Bytes
fill_block total block buf j =
    if leb total j && ltb j (total + 512) then block (j - total) else buf j

-- The loop that reads the file, with fuel.
pub read_blocks : (fuel : ℕ) → FileRead → (ino offset total : ℕ) → Bytes → Option Bytes
read_blocks zero read ino offset total buf = none
read_blocks (suc fuel) read ino offset total buf =
    let (bytes, returns_0) = read ino offset in
    let filled = fill_block total bytes buf in
    let block = if returns_0 then 0 else minus_one in
    let rest = read_blocks fuel read ino (add32 offset 512) (add32 total block) filled in
    if sle block 0
    then some filled
    else if leb (4096 - 512) (add32 total block)
    then some filled
    else rest

-- The string in a buffer with `left` bytes from index `i` on.
pub text_in : (left i : ℕ) → Bytes → Line
text_in zero i buf = []
text_in (suc left) i buf =
    let rest = text_in left (i + 1) buf in if buf i == 0 then [] else buf i ∷ rest

-- `strstr(line, pattern)`.
pub starts : (pattern line : Line) → Bool
starts [] line = true
starts (p ∷ pattern) [] = false
starts (p ∷ pattern) (c ∷ line) = p == c && starts pattern line

pub contains : (pattern line : Line) → Bool
contains pattern [] = starts pattern []
contains pattern (c ∷ line) = let rest = contains pattern line in starts pattern (c ∷ line) || rest

-- The lines that are printed.
pub matching : (pattern : Line) → List Line → List Line
matching pattern [] = []
matching pattern (line ∷ lines) =
    let rest = matching pattern lines in if contains pattern line then line ∷ rest else rest

-- `main` with a pattern and the name of a file; none is the return of -1. The lines are the parts
-- between newlines, as `strtok` gives them.
pub grep :
    Lookup → FileRead → (fuel workdir_ino : ℕ) → (pattern filename : Line) → Option (List Line)
grep lookup read fuel workdir_ino pattern filename = elim (lookup workdir_ino filename) [
  | none ↦ none
  | some ino ↦ if leb (2 ^ 31) ino then none else elim (read_blocks fuel read ino 0 0 (λ j. 0)) [
    | none ↦ none
    | some buf ↦ some (matching pattern (words 10 (text_in 4096 0 buf)))
  ]
]

-- `file_read` returns 0 or a negative number, so the loop ends in its first round.
read_blocks_once :
    (fuel : ℕ) (read : FileRead) (ino : ℕ)
    → read_blocks (suc fuel) read ino 0 0 (λ j. 0) ≡ some (fill_block 0 ((read ino 0).0) (λ j. 0))
unfolding read_blocks
read_blocks_once fuel read ino = elim (Bool-cases ((read ino 0).1)) [
  | inl h ↦ rw h refl
  | inr h ↦ rw h refl
]

text_in-cut :
    (n big i : ℕ) (block : Bytes)
    → i + n ≡ 512
    → n < big
    → text_in big i (fill_block 0 block (λ j. 0)) ≡ text_in n i block
unfolding text_in
text_in-cut n zero i block e lt = absurd (omega arith)
text_in-cut zero (suc big) i block e lt =
    let beyond : ltb i 512 ≡ false = ground arith in
    let first : leb 0 i ≡ true = ground arith in rw (first, beyond) refl
text_in-cut (suc n) (suc big) i block e lt =
    let inside : ltb i 512 ≡ true = ground arith in
    let first : leb 0 i ≡ true = ground arith in
    let same : i - 0 ≡ i = omega arith in
    let rest = text_in-cut n big (i + 1) block (omega arith) (omega arith) in
    rw (inside, first, same, rest) refl

starts-append : (pattern back : Line) → starts pattern (pattern ++ back) ≡ true
unfolding starts
starts-append [] back = refl
starts-append (p ∷ pattern) back = rw (eq→== p p refl, starts-append pattern back) refl

append-starts :
    (pattern line : Line) → starts pattern line ≡ true → (back : Line) × (line ≡ pattern ++ back)
unfolding starts
append-starts [] line h = (line, refl)
append-starts (p ∷ pattern) [] h = cc
append-starts (p ∷ pattern) (c ∷ line) h =
    let (back, e) = append-starts pattern line (ground (arith, h)) in
    let same : p ≡ c = ground (arith, h) in
    (back, ap (λ (x : ℕ). x ∷ line) (sym same) ∙ ap (λ (l : Line). p ∷ l) e)

-- The pattern stands somewhere in the line.
pub Has : (pattern line : Line) → Type 0
Has pattern line = (front : Line) × (back : Line) × (line ≡ front ++ (pattern ++ back))

contains-append : (pattern front back : Line) → contains pattern (front ++ (pattern ++ back)) ≡ true
unfolding contains
contains-append pattern [] back = starts_contains (pattern ++ back) (starts-append pattern back)
  where
    starts_contains : (line : Line) → starts pattern line ≡ true → contains pattern line ≡ true
    starts_contains [] h = h
    starts_contains (c ∷ line) h = rw h refl
contains-append pattern (c ∷ front) back = ground (arith, contains-append pattern front back)

contains-Has : (pattern line : Line) → contains pattern line ≡ true → Has pattern line
unfolding Has contains
contains-Has pattern [] h = let (back, e) = append-starts pattern [] h in ([], back, e)
contains-Has pattern (c ∷ line) h = elim (Bool-cases (starts pattern (c ∷ line))) [
  | inl first ↦ let (back, e) = append-starts pattern (c ∷ line) first in ([], back, e)
  | inr later ↦
      let (front, back, e) = contains-Has pattern line (ground (arith, h, later)) in
      (c ∷ front, back, ap (λ (l : Line). c ∷ l) e)
]

Has-contains : (pattern line : Line) → Has pattern line → contains pattern line ≡ true
unfolding Has
Has-contains pattern line (front, back, e) = rw e (contains-append pattern front back)

-- `out` has those of the lines, in their order, in which the pattern stands, and no other.
pub data Selects (pattern : Line) : (lines out : List Line) → Type 0 where
  select_none : Selects pattern [] []
  select_line :
      (line : Line) {lines out : List Line}
      → Has pattern line
      → Selects pattern lines out
      → Selects pattern (line ∷ lines) (line ∷ out)
  skip_line :
      (line : Line) {lines out : List Line}
      → ¬ Has pattern line
      → Selects pattern lines out
      → Selects pattern (line ∷ lines) out

matching-Selects :
    (pattern : Line) (lines : List Line) → Selects pattern lines (matching pattern lines)
unfolding matching
matching-Selects pattern [] = select_none
matching-Selects pattern (line ∷ lines) = elim (Bool-cases (contains pattern line)) [
  | inl hit ↦
      rw hit (select_line line (contains-Has pattern line hit) (matching-Selects pattern lines))
  | inr miss ↦ rw miss (
      skip_line line (λ has. clash (Has-contains pattern line has) miss)
        (matching-Selects pattern lines))
]
  where
    clash : {b : Bool} → b ≡ true → b ≡ false → ⊥
    clash p q = cc

-- For a file that is found, grep prints exactly the lines, in their order, of the text of the first
-- block in which the pattern stands, whatever the other blocks hold, and also when `file_read` fails;
-- one round of the loop is enough.
pub grep-first_block :
    (lookup : Lookup) (read : FileRead) (fuel workdir_ino ino : ℕ) (pattern filename : Line)
    → lookup workdir_ino filename ≡ some ino
    → ino < 2 ^ 31
    → (out : List Line) × (grep lookup read (suc fuel) workdir_ino pattern filename ≡ some out)
      × Selects pattern (words 10 (text_in 512 0 ((read ino 0).0))) out
unfolding grep
grep-first_block lookup read fuel workdir_ino ino pattern filename found small =
    let positive : leb (2 ^ 31) ino ≡ false = ground arith in
    let cut = text_in-cut 512 4096 0 ((read ino 0).0) (omega arith) (omega arith) in
    let lines = words 10 (text_in 512 0 ((read ino 0).0)) in
    (
      matching pattern lines,
      rw (grep, found, positive, read_blocks_once fuel read ino)
          (ap (λ (s : Line). some (matching pattern (words 10 s))) cut),
      matching-Selects pattern lines,
    )
