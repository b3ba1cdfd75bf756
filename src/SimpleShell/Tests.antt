-- ===== src/SimpleShell/Tests.antt =====
-- Runs of the shell of group-16-2/simple-shell.c.c, and instances of its theorems.
use operating_systems_compon.Base.{
  ℕ, ◌≤◌, ◌≡◌, refl, some, none, [], ◌∷◌, ◌++◌, codes, words, arith, true,
}
use operating_systems_compon.SimpleShell.{
  Shell, max_history_size, Cell, Answers, undefined, add_to_history, history_lines, parse_input,
  parse_tokens, next_token, token, skip, two_commands, count_bars,
}
use operating_systems_compon.SimpleShell.History.{newest, history_lines-add_to_history}
use operating_systems_compon.SimpleShell.Tokens.{parse_input-words}
use operating_systems_compon.SimpleShell.Pipes.{argv_of, two_commands-argv_of}
use operating_systems_compon.SimpleShell.Records.{InStep, IsCommand, run_lines, run_lines-full}

parse_two : parse_input (codes "  ls  -l ") ≡ codes "ls" ∷ codes "-l" ∷ []
unfolding parse_input parse_tokens next_token token skip
parse_two = refl

abbrev shell_with : ℕ → Shell
shell_with n = record {
  history = λ i. codes "pwd";
  history_count = n;
  process_pid = λ i. 7;
  pid_count = n;
  start_time = λ i. 0;
  start_count = n;
  execution_time = λ i. 0;
  exec_time = n;
}

history_lines-add_to_history_example :
    (history_lines (add_to_history (codes "ls") (shell_with 500))
      ≡ newest (history_lines (shell_with 500) ++ (codes "ls" ∷ [])))
    × ((add_to_history (codes "ls") (shell_with 500)).history_count ≤ max_history_size)
history_lines-add_to_history_example =
    history_lines-add_to_history (codes "ls") (shell_with 500) (omega arith)

-- `cat file | wc`.
two_commands-argv_of_example :
    (c1 : ℕ → Cell) × (c2 : ℕ → Cell) × (two_commands
        (codes "cat" ∷ codes "file" ∷ codes "|" ∷ codes "wc" ∷ [])
      ≡ some (c1, c2))
    × (argv_of 3 0 c1 ≡ some (codes "cat" ∷ codes "file" ∷ []))
    × ((fuel : ℕ) → argv_of fuel 0 c2 ≡ none)
two_commands-argv_of_example =
    two_commands-argv_of (codes "cat" ∷ codes "file" ∷ []) (codes "|") (codes "wc" ∷ [])
      (refl, (refl, tt)) refl

abbrev answers : Answers
answers = record { pipes = true; fork1 = some 41; fork2 = none; fork3 = none; start = 10; end = 12 }

pwd-IsCommand : IsCommand (codes "pwd", answers)
unfolding count_bars
pwd-IsCommand = record {
  some_byte = refl;
  not_exit = refl;
  not_history = refl;
  no_bar = refl;
  pid = 41;
  forks = refl;
}

shell_with-InStep : (n : ℕ) → InStep n (shell_with n)
shell_with-InStep n = record { pids = refl; starts = refl; times = refl }

run_lines-full_example :
    run_lines ((codes "pwd", answers) ∷ (codes "pwd", answers) ∷ []) (shell_with 499) ≡ undefined
run_lines-full_example =
    run_lines-full ((codes "pwd", answers) ∷ (codes "pwd", answers) ∷ []) 499 (shell_with 499)
      (pwd-IsCommand, (pwd-IsCommand, tt)) (shell_with-InStep 499) (omega arith) (omega arith)

parse_input-words_example : parse_input (codes "  ls  -l ") ≡ words b' ' (codes "  ls  -l ")
parse_input-words_example = parse_input-words (codes "  ls  -l ")
