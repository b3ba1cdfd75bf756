-- ===== src/Servers/Requests/Words.antt =====
-- The arguments that `parse_request` of egos-2000/apps/system/sys_shell.c leaves, against the words of
-- the line.
use operating_systems_compon.Base.{
  ℕ, ◌<◌, ◌≡◌, refl, ap, ◌∙◌, inl, inr, Bool-cases, true, false, some, List, [], ◌∷◌, ◌++◌, length,
  length-append, get_or, get_or-beyond, get_or-snoc, ◌==◌, eq→==, ne→==, ==→eq, Line, All,
  not_empty, words, words_behind_nil, arith,
}
use operating_systems_compon.Servers.{cmd_nargs}
use operating_systems_compon.Servers.Requests.{Argv, Scan, scan_start, scan, argc_of, parse_request}
use operating_systems_compon.Servers.Requests.Cells.{cell_at, cell_at-part, cell_at-done}
use operating_systems_compon.Servers.Requests.Scanning.{
  IsShort, Reads, scan_start-Reads, scan-Scanned,
}

list_nil : (xs : List Line) → xs ++ [] ≡ xs
list_nil [] = refl
list_nil (x ∷ xs) = ap (◌∷◌ x) (list_nil xs)

parse_request-scan :
    (buf : Line) (s : Scan)
    → scan buf scan_start ≡ some s
    → parse_request buf ≡ some (argc_of s, s.argv)
unfolding parse_request
parse_request-scan buf s e = rw (e, parse_request) refl

-- The bytes of the arguments do not depend on whether the last word was ended by a space.
last_cell :
    (done : List Line) (part : Line) (k j : ℕ)
    → cell_at done part k j ≡ get_or (get_or (done ++ not_empty (part ∷ [])) k []) j 0
unfolding not_empty
last_cell done [] k j = elim (Bool-cases (length done == k)) [
  | inl h ↦
      let beyond : get_or done k [] ≡ [] =
        get_or-beyond done k [] (omega (arith, ==→eq (length done) k h)) in
      cell_at-part done [] k j h ∙ rw (list_nil done, beyond) refl
  | inr h ↦ cell_at-done done [] k j h ∙ rw (list_nil done) refl
]
last_cell done (b ∷ part) k j = elim (Bool-cases (length done == k)) [
  | inl h ↦ cell_at-part done (b ∷ part) k j h ∙ rw (get_or-snoc done (b ∷ part) k []) (rw h refl)
  | inr h ↦ cell_at-done done (b ∷ part) k j h ∙ rw (get_or-snoc done (b ∷ part) k []) (rw h refl)
]

argc_of-length :
    (done : List Line) (part : Line) (s : Scan)
    → Reads done part s
    → argc_of s ≡ length (done ++ not_empty (part ∷ []))
unfolding argc_of not_empty
argc_of-length done [] s reads =
    let none_yet : (s.idx == 0) ≡ true = eq→== s.idx 0 reads.bytes in
    rw (none_yet, list_nil done) reads.count
argc_of-length done (b ∷ part) s reads =
    let some_byte : (s.idx == 0) ≡ false = ne→== s.idx 0 (omega (arith, reads.bytes)) in
    rw some_byte (omega (arith, reads.count, length-append done ((b ∷ part) ∷ [])))

-- For a line of fewer than 16 words, each shorter than 32 bytes, `parse_request` returns 0, `argc` is
-- the number of words, and the bytes of `argv` are those of the words, with 0 behind each word and in
-- every other argument.
pub parse_request-words :
    (buf : Line)
    → All IsShort (words b' ' buf)
    → length (words b' ' buf) < cmd_nargs
    → (argv : Argv) × (parse_request buf ≡ some (length (words b' ' buf), argv))
      × ((k j : ℕ) → argv k j ≡ get_or (get_or (words b' ' buf) k []) j 0)
parse_request-words buf short few =
    let e = words_behind_nil b' ' buf in
    let scanned =
      scan-Scanned buf [] [] scan_start scan_start-Reads (rw e short)
        (omega (arith, ap length e)) in
    let all : scanned.words_read ++ not_empty (scanned.rest ∷ []) ≡ words b' ' buf =
      scanned.all_words ∙ e in
    (
      scanned.last.argv,
      parse_request-scan buf scanned.last scanned.runs
          ∙ ap (λ n. some (n, scanned.last.argv))
              (argc_of-length scanned.words_read scanned.rest scanned.last scanned.reads
                ∙ ap length all),
      λ k j.
          scanned.reads.cells k j
          ∙ last_cell scanned.words_read scanned.rest k j
          ∙ ap (λ ws. get_or (get_or ws k []) j 0) all,
    )
