-- ===== src/SimpleShell/Records.antt =====
-- The records that group-16-2/simple-shell.c.c keeps of the commands that it starts.
use operating_systems_compon.Base.{
  ℕ, suc, ◌+◌, ◌-◌, ◌≤◌, ◌<◌, ◌≡◌, refl, ap, ◌∙◌, inl, inr, ℕ-cases, false, some, none, List, [],
  ◌∷◌, length, ◌==◌, update, lt→ltb, le→ltb, eq→==, Line, codes, same_text, All, arith,
}
use operating_systems_compon.SimpleShell.{
  Shell, max_history_size, add_to_history, append_at, note_pid, note_times, launch, Answers,
  Outcome, goes_on, exits, undefined, or_undefined, count_bars, run_command, handle_line,
}

-- The three counters stand at one number.
pub record InStep (n : ℕ) (sh : Shell) : Type 0 where
  pub pids : sh.pid_count ≡ n
  pub starts : sh.start_count ≡ n
  pub times : sh.exec_time ≡ n

-- The shell after a command was recorded.
recorded : (pid start end : ℕ) → Shell → Shell
recorded pid start end sh = record sh {
  process_pid = update sh.process_pid sh.pid_count pid;
  pid_count = sh.pid_count + 1;
  execution_time = update sh.execution_time sh.exec_time (end - start);
  exec_time = sh.exec_time + 1;
  start_time = update sh.start_time sh.start_count start;
  start_count = sh.start_count + 1;
}

append_at-room :
    (count v : ℕ) (a : ℕ → ℕ)
    → count < max_history_size
    → append_at count v a ≡ some (update a count v)
unfolding append_at
append_at-room count v a lt = rw (lt→ltb count max_history_size lt) refl

append_at-full : (count v : ℕ) (a : ℕ → ℕ) → max_history_size ≤ count → append_at count v a ≡ none
unfolding append_at
append_at-full count v a le = rw (le→ltb count max_history_size le) refl

module _ (pid start end n : ℕ) (sh : Shell) (step : InStep n sh) where
  launch-room :
      n < max_history_size → launch (some pid) start end sh ≡ some (recorded pid start end sh)
  unfolding launch note_pid note_times recorded
  launch-room lt = rw (append_at-room sh.pid_count pid sh.process_pid (omega (arith, step.pids))) (
      rw
        (
          append_at-room sh.exec_time (end - start) sh.execution_time (omega (arith, step.times)),
          append_at-room sh.start_count start sh.start_time (omega (arith, step.starts)),
        )
        refl)

  launch-full : max_history_size ≤ n → launch (some pid) start end sh ≡ none
  unfolding launch note_pid
  launch-full le =
      rw (append_at-full sh.pid_count pid sh.process_pid (omega (arith, step.pids))) refl

  recorded-InStep : InStep (suc n) (recorded pid start end sh)
  unfolding recorded
  recorded-InStep = record {
    pids = omega (arith, step.pids);
    starts = omega (arith, step.starts);
    times = omega (arith, step.times);
  }

add_to_history-InStep :
    (command : Line) (n : ℕ) (sh : Shell) → InStep n sh → InStep n (add_to_history command sh)
unfolding add_to_history
add_to_history-InStep command n sh step = ground (arith)

-- A line with one command, for which `fork` succeeds.
pub record IsCommand (line : Line × Answers) : Type 0 where
  pub some_byte : (length line.0 == 0) ≡ false
  pub not_exit : same_text line.0 (codes "exit") ≡ false
  pub not_history : same_text line.0 (codes "history") ≡ false
  pub no_bar : count_bars line.0 ≡ 0
  pub pid : ℕ
  pub forks : line.1.fork1 ≡ some pid

handle_line-command :
    (input : Line) (w : Answers) (sh : Shell) (is : IsCommand (input, w))
    → handle_line input w sh
      ≡ or_undefined (launch (some is.pid) w.start w.end (add_to_history input sh))
unfolding handle_line run_command
handle_line-command input w sh is =
    rw (is.some_byte, is.not_exit, is.not_history, eq→== _ _ is.no_bar, is.forks) refl

-- The rounds of `main` over lines, up to one that ends them.
pub run_lines : List (Line × Answers) → Shell → Outcome
run_lines [] sh = goes_on sh
run_lines ((input, w) ∷ lines) sh = elim (handle_line input w sh) [
  | goes_on sh' ↦ run_lines lines sh'
  | exits sh' ↦ exits sh'
  | undefined ↦ undefined
]

run_lines_nil : (sh : Shell) → run_lines [] sh ≡ goes_on sh
unfolding run_lines
run_lines_nil sh = refl

plus_zero : (n : ℕ) → n + 0 ≡ n
plus_zero n = omega arith

run_lines-next :
    (input : Line) (w : Answers) (lines : List (Line × Answers)) (sh sh' : Shell)
    → handle_line input w sh ≡ goes_on sh'
    → run_lines ((input, w) ∷ lines) sh ≡ run_lines lines sh'
unfolding run_lines
run_lines-next input w lines sh sh' e = rw (e, run_lines) refl

run_lines-undefined :
    (input : Line) (w : Answers) (lines : List (Line × Answers)) (sh : Shell)
    → handle_line input w sh ≡ undefined
    → run_lines ((input, w) ∷ lines) sh ≡ undefined
unfolding run_lines
run_lines-undefined input w lines sh e = rw (e, run_lines) refl

module _ (input : Line) (w : Answers) (n : ℕ) (sh : Shell) (is : IsCommand (input, w))
    (step : InStep n sh) where
  handle_line-room :
      n < max_history_size
      → (sh' : Shell) × (handle_line input w sh ≡ goes_on sh') × InStep (suc n) sh'
  unfolding or_undefined
  handle_line-room lt =
      let added = add_to_history-InStep input n sh step in
      (
        recorded is.pid w.start w.end (add_to_history input sh),
        handle_line-command input w sh is
            ∙ ap or_undefined
                (launch-room is.pid w.start w.end n (add_to_history input sh) added lt),
        recorded-InStep is.pid w.start w.end n (add_to_history input sh) added,
      )

  handle_line-full : max_history_size ≤ n → handle_line input w sh ≡ undefined
  unfolding or_undefined
  handle_line-full le =
      handle_line-command input w sh is
      ∙ ap or_undefined (
          launch-full is.pid w.start w.end n (add_to_history input sh)
            (add_to_history-InStep input n sh step) le)

-- From a shell that has recorded `n` commands, a list of commands with which there are at most 500 is
-- run to its end, and all of them are recorded.
run_lines-room :
    (lines : List (Line × Answers)) (n : ℕ) (sh : Shell)
    → All IsCommand lines
    → InStep n sh
    → n + length lines ≤ max_history_size
    → (sh' : Shell) × (run_lines lines sh ≡ goes_on sh') × InStep (n + length lines) sh'
run_lines-room [] n sh all step le = (sh, run_lines_nil sh, rw (plus_zero n) step)
run_lines-room ((input, w) ∷ lines) n sh (is, all) step le =
    let (sh', runs, step') = handle_line-room input w n sh is step (omega arith) in
    let (sh'', rest, last) = run_lines-room lines (suc n) sh' all step' (omega arith) in
    let e : n + suc (length lines) ≡ suc n + length lines = omega arith in
    (sh'', run_lines-next input w lines sh sh' runs ∙ rest, rw e last)

-- From a shell that has recorded `n` commands, at most 500, a list of commands with which there are
-- more than 500 ends with a write past the arrays of pids.
pub run_lines-full :
    (lines : List (Line × Answers)) (n : ℕ) (sh : Shell)
    → All IsCommand lines
    → InStep n sh
    → n ≤ max_history_size
    → max_history_size < n + length lines
    → run_lines lines sh ≡ undefined
run_lines-full [] n sh all step fits lt = absurd (omega arith)
run_lines-full ((input, w) ∷ lines) n sh (is, all) step fits lt =
    elim (ℕ-cases n max_history_size) [
      | inl e ↦
          run_lines-undefined input w lines sh (handle_line-full input w n sh is step (omega arith))
      | inr ne ↦
          (let (sh', runs, step') = handle_line-room input w n sh is step (omega arith) in
            run_lines-next input w lines sh sh' runs
            ∙ run_lines-full lines (suc n) sh' all step' (omega arith) (omega arith))
    ]
