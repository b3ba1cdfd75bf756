-- ===== src/Servers/Requests/Cells.antt =====
-- The array of arguments of egos-2000/apps/system/sys_shell.c while a line is read.
use operating_systems_compon.Base.{
  ℕ, ◌+◌, ◌≡◌, refl, sym, ◌∙◌, inl, inr, Bool-cases, true, false, List, [], ◌∷◌, ◌++◌, length,
  length-append, get_or, get_or-beyond, get_or-snoc, ◌==◌, if◌then◌else◌, eq→==, ne→==, ==→eq, Line,
  arith,
}
use operating_systems_compon.Servers.Requests.{Argv, put_byte}

-- Byte `j` of argument `k`, where some words were read and a part of the next one.
unfoldable pub cell_at : (done : List Line) (part : Line) (k j : ℕ) → ℕ
cell_at done part k j = if length done == k then get_or part j 0 else get_or (get_or done k []) j 0

pub put_byte-at :
    (row column byte : ℕ) (argv : Argv) (k j : ℕ)
    → put_byte row column byte argv k j
      ≡ (if row == k then (if column == j then byte else argv row j) else argv k j)
unfolding put_byte
put_byte-at row column byte argv k j = elim (Bool-cases (row == k)) [
  | inl h ↦ rw h refl
  | inr h ↦ rw h refl
]

-- In the argument that is read now, and in the others.
pub cell_at-part :
    (done : List Line) (part : Line) (k j : ℕ)
    → (length done == k) ≡ true
    → cell_at done part k j ≡ get_or part j 0
unfolding cell_at
cell_at-part done part k j h = rw h refl

pub cell_at-done :
    (done : List Line) (part : Line) (k j : ℕ)
    → (length done == k) ≡ false
    → cell_at done part k j ≡ get_or (get_or done k []) j 0
unfolding cell_at
cell_at-done done part k j h = rw h refl

-- The array after a byte more, and after a word more.
pub cell_at-byte :
    (done : List Line) (part : Line) (c k j : ℕ)
    → (if length done == k
        then (if length part == j then c else cell_at done part (length done) j)
        else cell_at done part k j)
      ≡ cell_at done (part ++ (c ∷ [])) k j
cell_at-byte done part c k j = elim (Bool-cases (length done == k)) [
  | inl h ↦
      rw
        (
          h,
          cell_at-part done part (length done) j (eq→== _ _ refl),
          cell_at-part done (part ++ (c ∷ [])) k j h,
        )
        (sym (get_or-snoc part c j 0))
  | inr h ↦ rw (h, cell_at-done done part k j h, cell_at-done done (part ++ (c ∷ [])) k j h) refl
]

-- A byte 0 behind the part changes nothing.
part_end :
    (part : Line) (j : ℕ) → (if length part == j then 0 else get_or part j 0) ≡ get_or part j 0
part_end part j = elim (Bool-cases (length part == j)) [
  | inl h ↦ rw h (sym (get_or-beyond part j 0 (omega (arith, ==→eq (length part) j h))))
  | inr h ↦ rw h refl
]

next_row :
    (done : List Line) (part : Line) (k j : ℕ)
    → cell_at (done ++ (part ∷ [])) [] k j
      ≡ (if length done == k then get_or part j 0 else get_or (get_or done k []) j 0)
next_row done part k j = elim (Bool-cases (length (done ++ (part ∷ [])) == k)) [
  | inl h ↦
      let far : length done + 1 ≡ k = omega (arith, length-append done (part ∷ []), ==→eq _ _ h) in
      let ne : (length done == k) ≡ false = ne→== _ _ (omega arith) in
      rw (cell_at-part (done ++ (part ∷ [])) [] k j h, ne, get_or-beyond done k [] (omega arith))
        refl
  | inr h ↦
      rw (cell_at-done (done ++ (part ∷ [])) [] k j h, get_or-snoc done part k [])
        (elim (Bool-cases (length done == k)) [ inl e ↦ rw e refl | inr e ↦ rw e refl ])
]

pub cell_at-space :
    (done : List Line) (part : Line) (k j : ℕ)
    → (if length done == k
        then (if length part == j then 0 else cell_at done part (length done) j)
        else cell_at done part k j)
      ≡ cell_at (done ++ (part ∷ [])) [] k j
cell_at-space done part k j = elim (Bool-cases (length done == k)) [
  | inl h ↦
      rw (next_row done part k j, h, cell_at-part done part (length done) j (eq→== _ _ refl))
        (part_end part j)
  | inr h ↦ rw (next_row done part k j, h, cell_at-done done part k j h) refl
]

-- A byte that is written behind the part of an array with these cells.
pub put_byte-cell :
    (done : List Line) (part : Line) (row column byte : ℕ) (argv : Argv)
    → row ≡ length done
    → column ≡ length part
    → ((k j : ℕ) → argv k j ≡ cell_at done part k j)
    → (k j : ℕ)
    → put_byte row column byte argv k j ≡ (
        if length done == k
        then (if length part == j then byte else cell_at done part (length done) j)
        else cell_at done part k j)
put_byte-cell done part row column byte argv at_row at_column cells k j =
    put_byte-at row column byte argv k j
    ∙ rw (at_row, at_column) (rw (cells k j, cells (length done) j) refl)
