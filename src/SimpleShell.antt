-- ===== src/SimpleShell.antt =====
-- The shell of group-16-2/simple-shell.c.c, with its history and pipelines of two and three commands.
-- What other programs and the system do are arguments: the results of `fork` (the pid, or none where
-- it fails), the seconds of a clock that does not go back, and the lines of input. `execvp`, `dup2` and `close` act on the children.
pub mod Tokens
pub mod History
pub mod Pipes
pub mod Records
mod Tests
use operating_systems_compon.Base.{
  ℕ, zero, suc, ◌+◌, ◌-◌, Bool, true, false, Option, none, some, ◌>>=◌, List, [], ◌∷◌, ◌++◌, length,
  ltb, ◌==◌, if◌then◌else◌, update, count_from, Line, codes, same_text,
}

abbrev pub max_history_size : ℕ
max_history_size = 500

-- The globals; an array is a function of the index.
pub record Shell : Type 0 where
  pub history : ℕ → Line
  pub history_count : ℕ
  pub process_pid : ℕ → ℕ
  pub pid_count : ℕ
  pub start_time : ℕ → ℕ
  pub start_count : ℕ
  pub execution_time : ℕ → ℕ
  pub exec_time : ℕ

-- `a[i] = a[i + 1]`.
pub shift_one {ℓ} : {A : Type ℓ} → ℕ → (ℕ → A) → ℕ → A
shift_one i a = update a i (a (i + 1))

pub shift_down {ℓ} : {A : Type ℓ} → (ℕ → A) → ℕ → A
shift_down a = count_from (max_history_size - 1) 0 shift_one a

pub add_to_history : Line → Shell → Shell
add_to_history command sh =
    if ltb sh.history_count max_history_size
    then record sh {
      history = update sh.history sh.history_count command;
      history_count = sh.history_count + 1;
    }
    else record sh {
      history = update (shift_down sh.history) (max_history_size - 1) command;
      process_pid = shift_down sh.process_pid;
      start_time = shift_down sh.start_time;
      execution_time = shift_down sh.execution_time;
    }

-- `strtok`: separators are skipped, then a token goes up to the next one, which is passed over.
pub skip : Line → Line
skip [] = []
skip (c ∷ s) = if c == b' ' then skip s else c ∷ s

pub token : Line → Line × Line
token [] = ([], [])
token (c ∷ s) = let (t, rest) = token s in if c == b' ' then ([], s) else (c ∷ t, rest)

pub next_token : Line → Option (Line × Line)
next_token [] = none
next_token (c ∷ s) = some (token (c ∷ s))

-- `parseInput`, with fuel.
pub parse_tokens : (fuel : ℕ) → Line → List Line
parse_tokens zero s = []
parse_tokens (suc fuel) s = elim (next_token (skip s)) [
  | none ↦ []
  | some (t, rest) ↦ t ∷ parse_tokens fuel rest
]

pub parse_input : Line → List Line
parse_input s = parse_tokens (length s) s

-- `a[count++] = v` in one of the arrays of 500 entries; past its end nothing is defined.
pub append_at : (count : ℕ) → ℕ → (ℕ → ℕ) → Option (ℕ → ℕ)
append_at count v a = if ltb count max_history_size then some (update a count v) else none

pub note_pid : ℕ → Shell → Option Shell
note_pid pid sh = append_at sh.pid_count pid sh.process_pid >>= λ pids.
    some (record sh { process_pid = pids; pid_count = sh.pid_count + 1 })

pub note_times : (start end : ℕ) → Shell → Option Shell
note_times start end sh = append_at sh.exec_time (end - start) sh.execution_time >>= λ times.
    append_at sh.start_count start sh.start_time >>= λ starts. some (record sh {
      execution_time = times;
      exec_time = sh.exec_time + 1;
      start_time = starts;
      start_count = sh.start_count + 1;
    })

-- `launch`: a failed `fork` is reported.
pub launch : (fork : Option ℕ) (start end : ℕ) → Shell → Option Shell
launch none start end sh = some sh
launch (some pid) start end sh = note_pid pid sh >>= note_times start end

-- An entry of an array of arguments: not set, NULL, or a string.
pub data Cell : Type 0 where
  unset : Cell
  null : Cell
  arg : Line → Cell

-- The loop that copies parameters to an array up to a "|": the count and what follows; past NULL,
-- `strcmp` is not defined.
pub upto_bar : List Line → Option (List Line × List Line)
upto_bar [] = none
upto_bar (p ∷ ps) = elim (same_text p (codes "|")) [
  | true ↦ some ([], ps)
  | false ↦ upto_bar ps >>= λ (before, after). some (p ∷ before, after)
]

-- An array whose first entries are the strings and where NULL is written at an index.
pub cells : List Line → ℕ → Cell
cells [] i = unset
cells (p ∷ ps) zero = arg p
cells (p ∷ ps) (suc i) = cells ps i

pub command : List Line → (null_at : ℕ) → ℕ → Cell
command ps null_at = update (cells ps) null_at null

-- The two commands of a pipeline; `counter` counts the parameters with the NULL behind them.
pub two_commands : List Line → Option ((ℕ → Cell) × (ℕ → Cell))
two_commands parameters =
    let counter = length parameters + 1 in
    upto_bar parameters >>= λ (first, rest).
    some (command first (length first), command rest counter)

pub three_commands : List Line → Option ((ℕ → Cell) × (ℕ → Cell) × (ℕ → Cell))
three_commands parameters =
    let counter = length parameters + 1 in
    upto_bar parameters >>= λ (first, rest). upto_bar rest >>= λ (second, rest').
    some (command first (length first), command second counter, command rest' counter)

-- What the shell does after a line.
pub data Outcome : Type 0 where
  goes_on : Shell → Outcome
  exits : Shell → Outcome
  undefined : Outcome

pub or_undefined : Option Shell → Outcome
or_undefined none = undefined
or_undefined (some sh) = goes_on sh

-- `launch_pipe` and `launch_pip2` after the pipes: a failed `fork` exits.
pub launch_pipe : (fork1 fork2 : Option ℕ) (start end : ℕ) → Shell → Outcome
launch_pipe none fork2 start end sh = exits sh
launch_pipe (some pid1) none start end sh = exits sh
launch_pipe (some pid1) (some pid2) start end sh =
    or_undefined (note_pid pid2 sh >>= note_times start end)

pub launch_pip2 : (fork1 fork2 fork3 : Option ℕ) (start end : ℕ) → Shell → Outcome
launch_pip2 none fork2 fork3 start end sh = exits sh
launch_pip2 (some pid1) none fork3 start end sh = exits sh
launch_pip2 (some pid1) (some pid2) none start end sh = exits sh
launch_pip2 (some pid1) (some pid2) (some pid3) start end sh =
    or_undefined (note_times start end sh)

-- The "|" in the line.
pub count_bars : Line → ℕ
count_bars [] = 0
count_bars (c ∷ s) = (if c == b'|' then 1 else 0) + count_bars s

-- What the system answers while a line is handled.
pub record Answers : Type 0 where
  pub pipes : Bool
  pub fork1 : Option ℕ
  pub fork2 : Option ℕ
  pub fork3 : Option ℕ
  pub start : ℕ
  pub end : ℕ

pub run_pipe : Option ((ℕ → Cell) × (ℕ → Cell)) → Answers → Shell → Outcome
run_pipe none w sh = undefined
run_pipe (some commands) w sh =
    if w.pipes then launch_pipe w.fork1 w.fork2 w.start w.end sh else exits sh

pub run_pip2 : Option ((ℕ → Cell) × (ℕ → Cell) × (ℕ → Cell)) → Answers → Shell → Outcome
run_pip2 none w sh = undefined
run_pip2 (some commands) w sh =
    if w.pipes then launch_pip2 w.fork1 w.fork2 w.fork3 w.start w.end sh else exits sh

-- A line that is a command, after it was added to the history; more than two "|" are refused.
pub run_command : Line → Answers → Shell → Outcome
run_command input w sh =
    let bars = count_bars input in
    if bars == 0
    then or_undefined (launch w.fork1 w.start w.end sh)
    else (if bars == 1
        then run_pipe (two_commands (parse_input input)) w sh
        else (if bars == 2 then run_pip2 (three_commands (parse_input input)) w sh else goes_on sh))

-- One round of the loop of `main`, on a line without its newline.
pub handle_line : Line → Answers → Shell → Outcome
handle_line input w sh =
    if length input == 0
    then goes_on sh
    else (if same_text input (codes "exit")
        then exits sh
        else (if same_text input (codes "history")
            then goes_on sh
            else run_command input w (add_to_history input sh)))

-- The lines that `history` prints.
pub listing : (rounds i : ℕ) → Shell → List Line
listing zero i sh = []
listing (suc rounds) i sh = sh.history i ∷ listing rounds (i + 1) sh

pub history_lines : Shell → List Line
history_lines sh = listing sh.history_count 0 sh
