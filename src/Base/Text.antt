-- ===== src/Base/Text.antt =====
-- C strings as lists of bytes without the NUL at the end, and their words: the parts between
-- separators that are not empty.
use Prim.Native.Nat.{ℕ}
use Prim.Native.Char.{code}
use Prim.Native.String.{String}
use mathlib.Core.Path.{◌≡◌, refl, ap}
use mathlib.Core.Logic.{◌⊎◌, inl, inr}
use mathlib.Core.Bool.{Bool, true, false, ◌&&◌}
use mathlib.Core.List.{List, [], ◌∷◌, ◌++◌}
use operating_systems_compon.Base.Tests.{◌==◌, if◌then◌else◌}

abbrev pub Line : Type 0
Line = List ℕ

-- The bytes of a literal.
abbrev pub codes : String → Line
codes String.[] = []
codes (String.◌∷◌ c s) = code c ∷ codes s

-- `strcmp(s, t) == 0`.
abbrev pub same_text : Line → Line → Bool
same_text [] [] = true
same_text [] (d ∷ t) = false
same_text (c ∷ s) [] = false
same_text (c ∷ s) (d ∷ t) = c == d && same_text s t

-- The part before the first separator, and the other parts.
unfoldable pub split : (separator : ℕ) → Line → Line × List Line
split separator [] = ([], [])
split separator (c ∷ s) =
    let (part, parts) = split separator s in
    if c == separator then ([], part ∷ parts) else (c ∷ part, parts)

unfoldable pub not_empty : List Line → List Line
not_empty [] = []
not_empty ([] ∷ parts) = not_empty parts
not_empty ((c ∷ part) ∷ parts) = (c ∷ part) ∷ not_empty parts

unfoldable pub words : (separator : ℕ) → Line → List Line
words separator s = let (part, parts) = split separator s in not_empty (part ∷ parts)

-- Of all lines in the list.
abbrev pub All {ℓ κ} : {A : Type ℓ} → (A → Type κ) → List A → Type κ
All P [] = Unit
All P (x ∷ xs) = P x × All P xs

-- A separator at the start of a line makes no word.
pub words_separator :
    (separator c : ℕ) (s : Line)
    → (c == separator) ≡ true
    → words separator (c ∷ s) ≡ words separator s
unfolding words split not_empty
words_separator separator c s h = rw h refl

pub List-cases {ℓ} :
    {A : Type ℓ} (xs : List A) → (xs ≡ []) ⊎ ((x : A) × (ys : List A) × (xs ≡ x ∷ ys))
List-cases [] = inl refl
List-cases (x ∷ xs) = inr (x, xs, refl)

-- The words of a line behind the start of a part that was read before.
unfoldable pub words_behind : (separator : ℕ) → (part s : Line) → List Line
words_behind separator part s =
    let (first, parts) = split separator s in not_empty ((part ++ first) ∷ parts)

append_nil : (xs : Line) → xs ++ [] ≡ xs
append_nil [] = refl
append_nil (x ∷ xs) = ap (◌∷◌ x) (append_nil xs)

append_one : (xs : Line) (c : ℕ) (ys : Line) → xs ++ (c ∷ ys) ≡ (xs ++ (c ∷ [])) ++ ys
append_one [] c ys = refl
append_one (x ∷ xs) c ys = ap (◌∷◌ x) (append_one xs c ys)

module _ (separator : ℕ) where
  pub words_behind_end : (part : Line) → words_behind separator part [] ≡ not_empty (part ∷ [])
  unfolding words_behind split
  words_behind_end part = rw (append_nil part) refl

  pub words_behind_other :
      (part : Line) (c : ℕ) (s : Line)
      → (c == separator) ≡ false
      → words_behind separator part (c ∷ s) ≡ words_behind separator (part ++ (c ∷ [])) s
  unfolding words_behind split
  words_behind_other part c s h = rw h (rw (append_one part c (split separator s).0) refl)

  pub words_behind_separator :
      (b : ℕ) (part : Line) (c : ℕ) (s : Line)
      → (c == separator) ≡ true
      → words_behind separator (b ∷ part) (c ∷ s) ≡ (b ∷ part) ∷ words_behind separator [] s
  unfolding words_behind split not_empty
  words_behind_separator b part c s h = rw h (rw (append_nil part) refl)

  pub words_behind_skip :
      (c : ℕ) (s : Line)
      → (c == separator) ≡ true
      → words_behind separator [] (c ∷ s) ≡ words_behind separator [] s
  unfolding words_behind split not_empty
  words_behind_skip c s h = rw h refl

  -- A part that is not empty starts the first word.
  pub words_behind_first :
      (b : ℕ) (part s : Line)
      → words_behind separator (b ∷ part) s
        ≡ ((b ∷ part) ++ (split separator s).0) ∷ not_empty (split separator s).1
  unfolding words_behind not_empty
  words_behind_first b part s = refl

  pub words_behind_nil : (s : Line) → words_behind separator [] s ≡ words separator s
  unfolding words_behind words
  words_behind_nil s = refl
