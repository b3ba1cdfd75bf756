-- ===== src/SimpleShell/Pipes.antt =====
-- The argument arrays that group-16-2/simple-shell.c.c builds for a pipeline.
use operating_systems_compon.Base.{
  ℕ, zero, suc, ◌+◌, ◌<◌, ◌≡◌, refl, ◌∙◌, true, false, Option, some, none, ◌>>=◌, List, [], ◌∷◌,
  ◌++◌, length, length-append, update_self, update_ne, Line, codes, same_text, All, arith,
}
use operating_systems_compon.SimpleShell.{
  Cell, unset, null, arg, upto_bar, cells, command, two_commands,
}

-- The arguments that `execvp` reads: the strings up to NULL; what was not set is not defined.
pub argv_of : (fuel i : ℕ) → (ℕ → Cell) → Option (List Line)
argv_of zero i c = none
argv_of (suc fuel) i c = elim (c i) [
  | unset ↦ none
  | null ↦ some []
  | arg p ↦ argv_of fuel (i + 1) c >>= λ ps. some (p ∷ ps)
]

cells-end : (ps : List Line) → cells ps (length ps) ≡ unset
unfolding cells
cells-end [] = refl
cells-end (p ∷ ps) = cells-end ps

argv_of-zero : (i : ℕ) (c : ℕ → Cell) → argv_of 0 i c ≡ none
unfolding argv_of
argv_of-zero i c = refl

argv_of-arg :
    (fuel i : ℕ) (c : ℕ → Cell) (p : Line)
    → c i ≡ arg p
    → argv_of (suc fuel) i c ≡ (argv_of fuel (i + 1) c >>= λ ps. some (p ∷ ps))
unfolding argv_of
argv_of-arg fuel i c p e = rw (e, argv_of) refl

argv_of-stop : (fuel i : ℕ) (c : ℕ → Cell) → c i ≡ null → argv_of (suc fuel) i c ≡ some []
unfolding argv_of
argv_of-stop fuel i c e = rw (e, argv_of) refl

argv_of-fault : (fuel i : ℕ) (c : ℕ → Cell) → c i ≡ unset → argv_of fuel i c ≡ none
unfolding argv_of
argv_of-fault zero i c e = refl
argv_of-fault (suc fuel) i c e = rw (e, argv_of) refl

-- From `i` on an array has the strings, and behind them the given entry.
abbrev Holds : (ps : List Line) (i : ℕ) → (ℕ → Cell) → Cell → Type 0
Holds [] i c end = c i ≡ end
Holds (p ∷ ps) i c end = (c i ≡ arg p) × Holds ps (i + 1) c end

argv_of-null :
    (ps : List Line) (i : ℕ) (c : ℕ → Cell)
    → Holds ps i c null
    → argv_of (suc (length ps)) i c ≡ some ps
argv_of-null [] i c h = argv_of-stop 0 i c h
argv_of-null (p ∷ ps) i c (e, h) =
    argv_of-arg (suc (length ps)) i c p e ∙ rw (argv_of-null ps (i + 1) c h) refl

argv_of-unset :
    (ps : List Line) (fuel i : ℕ) (c : ℕ → Cell) → Holds ps i c unset → argv_of fuel i c ≡ none
argv_of-unset [] fuel i c h = argv_of-fault fuel i c h
argv_of-unset (p ∷ ps) zero i c (e, h) = argv_of-zero i c
argv_of-unset (p ∷ ps) (suc fuel) i c (e, h) =
    argv_of-arg fuel i c p e ∙ rw (argv_of-unset ps fuel (i + 1) c h) refl

Holds-cells :
    (ps : List Line) (i : ℕ) (c : ℕ → Cell) (end : Cell)
    → ((j : ℕ) → j < length ps → c (i + j) ≡ cells ps j)
    → c (i + length ps) ≡ end
    → Holds ps i c end
unfolding cells
Holds-cells [] i c end strings last = let e : i + 0 ≡ i = omega arith in rw e at last
Holds-cells (p ∷ ps) i c end strings last =
    let e : i + 0 ≡ i = omega arith in
    let e' : i + suc (length ps) ≡ i + 1 + length ps = omega arith in
    (
      rw e at (strings 0 (omega arith)),
      Holds-cells ps (i + 1) c end
          (λ j lt.
            let e'' : i + suc j ≡ i + 1 + j = omega arith in
            rw e'' at (strings (suc j) (omega arith)))
          (rw e' at last),
    )

zero_plus : (j : ℕ) → 0 + j ≡ j
zero_plus j = omega arith

-- NULL behind the strings ends them; NULL further on leaves an entry between that was not set.
command-null : (ps : List Line) → Holds ps 0 (command ps (length ps)) null
unfolding command
command-null ps =
    Holds-cells ps 0 (command ps (length ps)) null
      (λ j lt. rw (zero_plus j) (update_ne (cells ps) (length ps) null j (omega arith)))
      (update_self (cells ps) (length ps) null (0 + length ps) (omega arith))

command-unset :
    (ps : List Line) (null_at : ℕ) → length ps < null_at → Holds ps 0 (command ps null_at) unset
unfolding command
command-unset ps null_at lt =
    Holds-cells ps 0 (command ps null_at) unset
      (λ j below. rw (zero_plus j) (update_ne (cells ps) null_at null j (omega arith)))
      (rw (zero_plus (length ps))
        (update_ne (cells ps) null_at null (length ps) (omega arith) ∙ cells-end ps))

abbrev pub IsBar : Line → Type 0
IsBar p = same_text p (codes "|") ≡ true

abbrev pub NotBar : Line → Type 0
NotBar p = same_text p (codes "|") ≡ false

upto_bar-append :
    (first : List Line) (bar : Line) (rest : List Line)
    → All NotBar first
    → IsBar bar
    → upto_bar (first ++ (bar ∷ rest)) ≡ some (first, rest)
unfolding upto_bar
upto_bar-append [] bar rest no_bar is_bar = rw (is_bar, upto_bar) refl
upto_bar-append (p ∷ first) bar rest (not_bar, no_bar) is_bar =
    rw (not_bar, upto_bar) (rw (upto_bar-append first bar rest no_bar is_bar) refl)

two_commands-arrays :
    (first : List Line) (bar : Line) (rest : List Line)
    → All NotBar first
    → IsBar bar
    → two_commands (first ++ (bar ∷ rest))
      ≡ some (command first (length first), command rest (length (first ++ (bar ∷ rest)) + 1))
unfolding two_commands
two_commands-arrays first bar rest no_bar is_bar =
    rw (upto_bar-append first bar rest no_bar is_bar) refl

-- For parameters with a "|" among them, the first array is read as the parameters before the first
-- "|", and the second array, however far it is read, not at all: behind its strings stands an entry
-- that was not set.
pub two_commands-argv_of :
    (first : List Line) (bar : Line) (rest : List Line)
    → All NotBar first
    → IsBar bar
    → (c1 : ℕ → Cell) × (c2 : ℕ → Cell) × (two_commands (first ++ (bar ∷ rest)) ≡ some (c1, c2))
      × (argv_of (suc (length first)) 0 c1 ≡ some first)
      × ((fuel : ℕ) → argv_of fuel 0 c2 ≡ none)
two_commands-argv_of first bar rest no_bar is_bar =
    let counter = length (first ++ (bar ∷ rest)) + 1 in
    let far : length rest < counter = omega (arith, length-append first (bar ∷ rest)) in
    (
      command first (length first),
      command rest counter,
      two_commands-arrays first bar rest no_bar is_bar,
      argv_of-null first 0 (command first (length first)) (command-null first),
      λ fuel. argv_of-unset rest fuel 0 (command rest counter) (command-unset rest counter far),
    )
