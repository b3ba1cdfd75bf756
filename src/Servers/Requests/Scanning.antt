-- ===== src/Servers/Requests/Scanning.antt =====
-- The loop of `parse_request` in egos-2000/apps/system/sys_shell.c, and the words that it has read.
use operating_systems_compon.Base.{
  ℕ, ◌+◌, ◌<◌, ◌≡◌, refl, sym, ap, ◌∙◌, inl, inr, Bool-cases, true, false, some, List, [], ◌∷◌,
  ◌++◌, length, length-append, leb, ◌==◌, eq→==, Line, All, split, not_empty, words_behind,
  words_behind_end, words_behind_other, words_behind_separator, words_behind_skip,
  words_behind_first, arith,
}
use operating_systems_compon.Servers.{cmd_nargs, cmd_arg_len}
use operating_systems_compon.Servers.Requests.{
  put_byte, Scan, scan_start, scan_byte, scan_space, scan_one, scan,
}
use operating_systems_compon.Servers.Requests.Cells.{
  cell_at, put_byte-cell, cell_at-byte, cell_at-space,
}

-- A word with its NUL fits an argument.
abbrev pub IsShort : Line → Type 0
IsShort w = length w < cmd_arg_len

pub record Reads (done : List Line) (part : Line) (s : Scan) : Type 0 where
  pub count : s.nargs ≡ length done
  pub bytes : s.idx ≡ length part
  pub cells : (k j : ℕ) → s.argv k j ≡ cell_at done part k j

pub scan_start-Reads : Reads [] [] scan_start
unfolding scan_start cell_at
scan_start-Reads = record {
  count = refl;
  bytes = refl;
  cells = λ k j. elim (Bool-cases (0 == k)) [ inl h ↦ rw h refl | inr h ↦ rw h refl ];
}

module _ (c : ℕ) (done : List Line) (s : Scan) where
  scan_one-byte :
      (part : Line)
      → Reads done part s
      → (c == b' ') ≡ false
      → length part + 1 < cmd_arg_len
      → (s' : Scan) × (scan_one c s ≡ some s') × Reads done (part ++ (c ∷ [])) s'
  unfolding scan_one scan_byte
  scan_one-byte part reads h short =
      let fits : leb cmd_arg_len (s.idx + 1) ≡ false = ground (arith, reads.bytes) in
      (
        record s { argv = put_byte s.nargs s.idx c s.argv; idx = s.idx + 1 },
        rw (h, fits) refl,
        record {
          count = reads.count;
          bytes = omega (arith, reads.bytes, length-append part (c ∷ []));
          cells = λ k j.
              put_byte-cell done part s.nargs s.idx c s.argv reads.count reads.bytes reads.cells k j
              ∙ cell_at-byte done part c k j;
        },
      )

  scan_one-space :
      (b : ℕ) (part : Line)
      → Reads done (b ∷ part) s
      → (c == b' ') ≡ true
      → length done + 1 < cmd_nargs
      → (s' : Scan) × (scan_one c s ≡ some s') × Reads (done ++ ((b ∷ part) ∷ [])) [] s'
  unfolding scan_one scan_space
  scan_one-space b part reads h short =
      let fits : leb cmd_nargs (s.nargs + 1) ≡ false = ground (arith, reads.count) in
      let some_byte : (s.idx == 0) ≡ false = ground (arith, reads.bytes) in
      (
        record { argv = put_byte s.nargs s.idx 0 s.argv; nargs = s.nargs + 1; idx = 0 },
        rw (h, some_byte, fits) refl,
        record {
          count = omega (arith, reads.count, length-append done ((b ∷ part) ∷ []));
          bytes = refl;
          cells = λ k j.
              put_byte-cell done (b ∷ part) s.nargs s.idx 0 s.argv reads.count reads.bytes
                reads.cells k j
              ∙ cell_at-space done (b ∷ part) k j;
        },
      )

  scan_one-skip : Reads done [] s → (c == b' ') ≡ true → scan_one c s ≡ some s
  unfolding scan_one
  scan_one-skip reads h =
      let none_yet : (s.idx == 0) ≡ true = eq→== s.idx 0 reads.bytes in rw (h, none_yet) refl

scan_nil : (s : Scan) → scan [] s ≡ some s
unfolding scan
scan_nil s = refl

scan-next :
    (c : ℕ) (buf : Line) (s s' : Scan) → scan_one c s ≡ some s' → scan (c ∷ buf) s ≡ scan buf s'
unfolding scan
scan-next c buf s s' e = rw (e, scan) refl

-- The scan of a line behind the words that were read.
pub record Scanned (buf : Line) (done : List Line) (part : Line) (s : Scan) : Type 0 where
  pub last : Scan
  pub words_read : List Line
  pub rest : Line
  pub runs : scan buf s ≡ some last
  pub reads : Reads words_read rest last
  pub all_words : words_read ++ not_empty (rest ∷ []) ≡ done ++ words_behind b' ' part buf

Scanned-next :
    (c : ℕ) (buf : Line) (done done' : List Line) (part part' : Line) (s s' : Scan)
    → scan_one c s ≡ some s'
    → done' ++ words_behind b' ' part' buf ≡ done ++ words_behind b' ' part (c ∷ buf)
    → Scanned buf done' part' s'
    → Scanned (c ∷ buf) done part s
Scanned-next c buf done done' part part' s s' step same scanned = record {
  last = scanned.last;
  words_read = scanned.words_read;
  rest = scanned.rest;
  runs = scan-next c buf s s' step ∙ scanned.runs;
  reads = scanned.reads;
  all_words = scanned.all_words ∙ same;
}

-- The part that was read is a start of a word.
short_first :
    (b : ℕ) (part s : Line)
    → All IsShort (words_behind b' ' (b ∷ part) s)
    → length (b ∷ part) < cmd_arg_len
short_first b part s short =
    let (first, others) = rw (words_behind_first b' ' b part s) at short in
    omega (arith, first, length-append (b ∷ part) (split b' ' s).0)

short_part :
    (part : Line) (c : ℕ) (s : Line)
    → All IsShort (words_behind b' ' (part ++ (c ∷ [])) s)
    → length part + 1 < cmd_arg_len
short_part [] c s short = omega arith
short_part (b ∷ part) c s short =
    omega (arith, short_first b (part ++ (c ∷ [])) s short, length-append part (c ∷ []))

append_group :
    (done : List Line) (w : Line) (ws : List Line) → (done ++ (w ∷ [])) ++ ws ≡ done ++ (w ∷ ws)
append_group [] w ws = refl
append_group (d ∷ done) w ws = ap (◌∷◌ d) (append_group done w ws)

-- A byte of a word.
scan-Scanned_byte :
    (c : ℕ) (buf : Line) (done : List Line) (part : Line) (s : Scan)
    → Reads done part s
    → All IsShort (words_behind b' ' part (c ∷ buf))
    → (c == b' ') ≡ false
    → ((s' : Scan) → Reads done (part ++ (c ∷ [])) s' → Scanned buf done (part ++ (c ∷ [])) s')
    → Scanned (c ∷ buf) done part s
scan-Scanned_byte c buf done part s reads short h later =
    let e = words_behind_other b' ' part c buf h in
    let (s', step, reads') =
      scan_one-byte c done s part reads h (short_part part c buf (rw e at short)) in
    Scanned-next c buf done done part (part ++ (c ∷ [])) s s' step (ap (◌++◌ done) (sym e))
      (later s' reads')

-- A space behind a word.
scan-Scanned_space :
    (c : ℕ) (buf : Line) (done : List Line) (b : ℕ) (part : Line) (s : Scan)
    → Reads done (b ∷ part) s
    → length done + length (words_behind b' ' (b ∷ part) (c ∷ buf)) < cmd_nargs
    → (c == b' ') ≡ true
    → ((s' : Scan)
        → Reads (done ++ ((b ∷ part) ∷ [])) [] s'
        → Scanned buf (done ++ ((b ∷ part) ∷ [])) [] s')
    → Scanned (c ∷ buf) done (b ∷ part) s
scan-Scanned_space c buf done b part s reads few h later =
    let e = words_behind_separator b' ' b part c buf h in
    let (s', step, reads') = scan_one-space c done s b part reads h (omega (arith, ap length e)) in
    Scanned-next c buf done (done ++ ((b ∷ part) ∷ [])) (b ∷ part) [] s s' step
      (append_group done (b ∷ part) (words_behind b' ' [] buf) ∙ ap (◌++◌ done) (sym e))
      (later s' reads')

pub scan-Scanned :
    (buf : Line) (done : List Line) (part : Line) (s : Scan)
    → Reads done part s
    → All IsShort (words_behind b' ' part buf)
    → length done + length (words_behind b' ' part buf) < cmd_nargs
    → Scanned buf done part s
scan-Scanned [] done part s reads short few = record {
  last = s;
  words_read = done;
  rest = part;
  runs = scan_nil s;
  reads = reads;
  all_words = ap (◌++◌ done) (sym (words_behind_end b' ' part));
}
scan-Scanned (c ∷ buf) done [] s reads short few = elim (Bool-cases (c == b' ')) [
  | inr h ↦
      let e = words_behind_other b' ' [] c buf h in
      scan-Scanned_byte c buf done [] s reads short h (λ s' reads'.
        scan-Scanned buf done (c ∷ []) s' reads' (rw e at short) (omega (arith, ap length e)))
  | inl h ↦
      let e = words_behind_skip b' ' c buf h in
      Scanned-next c buf done done [] [] s s (scan_one-skip c done s reads h)
        (ap (◌++◌ done) (sym e))
        (scan-Scanned buf done [] s reads (rw e at short) (omega (arith, ap length e)))
]
scan-Scanned (c ∷ buf) done (b ∷ part) s reads short few = elim (Bool-cases (c == b' ')) [
  | inr h ↦
      let e = words_behind_other b' ' (b ∷ part) c buf h in
      scan-Scanned_byte c buf done (b ∷ part) s reads short h (λ s' reads'.
        scan-Scanned buf done ((b ∷ part) ++ (c ∷ [])) s' reads' (rw e at short)
          (omega (arith, ap length e)))
  | inl h ↦
      let e = words_behind_separator b' ' b part c buf h in
      scan-Scanned_space c buf done b part s reads few h (λ s' reads'.
        scan-Scanned buf (done ++ ((b ∷ part) ∷ [])) [] s' reads' (rw e at short).1
          (omega (arith, ap length e, length-append done ((b ∷ part) ∷ []))))
]
