-- ===== src/Scheduler/Shell.antt =====
-- The commands of group-16-3/simple-shell.c. The pid that `fork` returns to the shell is an argument, -1
-- where it fails.
mod Tests
use operating_systems_compon.Base.{
  ℕ, zero, suc, ◌+◌, Bool, true, false, Option, none, some, List, [], ◌∷◌, take, leb, ◌==◌,
  if◌then◌else◌, update, Line, codes, same_text,
}
use operating_systems_compon.Scheduler.{Job, Jobs}

abbrev pub max_jobs : ℕ
max_jobs = 100

-- The shared memory of the shell and the scheduler.
pub record SharedData : Type 0 where
  pub jobs : Jobs
  pub job_count : ℕ
  pub ncpu : ℕ
  pub tslice : ℕ
  pub scheduler_running : Bool

-- The rest of a line behind a prefix.
pub after_prefix : (prefix line : Line) → Option Line
after_prefix [] line = some line
after_prefix (p ∷ prefix) [] = none
after_prefix (p ∷ prefix) (c ∷ line) =
    let rest = after_prefix prefix line in if p == c then rest else none

pub job_of : (pid : ℕ) (prog : Line) → Job
job_of pid prog = record {
  pid = pid;
  name = prog;
  state = 0;
  run_time_slices = 0;
  wait_time_slices = 0;
}

pub submit : (prog : Line) (pid : ℕ) → SharedData → SharedData
submit prog pid shm = if leb max_jobs shm.job_count then shm else record shm {
  jobs = update shm.jobs shm.job_count (job_of pid prog);
  job_count = shm.job_count + 1;
}

-- What the shell does after a line.
pub data ShellStep : Type 0 where
  prompts : SharedData → ShellStep
  ends : SharedData → ShellStep

pub stop_scheduler : SharedData → SharedData
stop_scheduler shm = record shm { scheduler_running = false }

-- A round of the loop of `main`, on a line without its newline.
pub handle_command : (input : Line) (pid : ℕ) → SharedData → ShellStep
handle_command input pid shm = elim (after_prefix (codes "submit ") input) [
  | some prog ↦ prompts (submit prog pid shm)
  | none ↦ if same_text input (codes "exit") then ends (stop_scheduler shm) else prompts shm
]

-- `main` before the loop.
pub start_shell : (ncpu tslice : ℕ) → Jobs → SharedData
start_shell ncpu tslice jobs = record {
  jobs = jobs;
  job_count = 0;
  ncpu = ncpu;
  tslice = tslice;
  scheduler_running = true;
}
