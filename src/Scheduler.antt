-- ===== src/Scheduler.antt =====
-- The loop of group-16-3/scheduler.c on the jobs in shared memory, and one round of it.
-- What the scheduler sees of other processes are arguments: which jobs `waitpid` reports as ended,
-- and whether the flag `scheduler_running` is set when the quantum is over. The number of
-- processors and of jobs is not negative.
pub mod Rotation
pub mod Shell
pub mod Ending
pub mod Shutdown
mod Tests
use operating_systems_compon.Base.{
  ℕ, zero, suc, ◌+◌, Bool, true, false, not, ◌||◌, Option, none, some, List, [], ◌∷◌, ◌++◌, drop,
  length, ltb, ◌==◌, if◌then◌else◌, update, add32, Line,
}

-- `Job`; the state is 0 for ready, 1 for running and 2 for ended.
pub record Job : Type 0 where
  pub pid : ℕ
  pub name : Line
  pub state : ℕ
  pub run_time_slices : ℕ
  pub wait_time_slices : ℕ

abbrev pub Jobs : Type 0
Jobs = ℕ → Job

-- The queue of the jobs of state 0, in the order of their indices.
pub ready_from : (left i : ℕ) → Jobs → List ℕ
ready_from zero i jobs = []
ready_from (suc left) i jobs =
    let rest = ready_from left (i + 1) jobs in if (jobs i).state == 0 then i ∷ rest else rest

-- How many jobs run in the round.
pub running_of : (queue_len ncpu : ℕ) → ℕ
running_of queue_len ncpu = if ltb queue_len ncpu then queue_len else ncpu

pub start_job : ℕ → Jobs → Jobs
start_job idx jobs = update jobs idx (record (jobs idx) { state = 1 })

pub start_all : List ℕ → Jobs → Jobs
start_all [] jobs = jobs
start_all (idx ∷ idxs) jobs = start_all idxs (start_job idx jobs)

-- The end of the quantum for one job.
pub stopped : (ended scheduler_running : Bool) → Job → Job
stopped ended scheduler_running job =
    if ended || not scheduler_running
    then record job { state = 2 }
    else record job { run_time_slices = add32 job.run_time_slices 1; state = 0 }

pub stop_all : (ended : ℕ → Bool) (scheduler_running : Bool) → List ℕ → Jobs → Jobs
stop_all ended scheduler_running [] jobs = jobs
stop_all ended scheduler_running (idx ∷ idxs) jobs =
    stop_all ended scheduler_running idxs
      (update jobs idx (stopped (ended (jobs idx).pid) scheduler_running (jobs idx)))

-- The first `n` entries of `ready_queue`; one behind the end of the queue, which the code reads before
-- it is written, is taken as 0.
pub entries : (n : ℕ) (queue : List ℕ) → List ℕ
entries zero queue = []
entries (suc n) [] = 0 ∷ entries n []
entries (suc n) (idx ∷ queue) = idx ∷ entries n queue

-- The jobs that run in a round.
pub chosen : (job_count ncpu : ℕ) → Jobs → List ℕ
chosen job_count ncpu jobs =
    let queue = ready_from job_count 0 jobs in entries (running_of (length queue) ncpu) queue

pub round_of : (ended : ℕ → Bool) (scheduler_running : Bool) (job_count ncpu : ℕ) → Jobs → Jobs
round_of ended scheduler_running job_count ncpu jobs =
    let idxs = chosen job_count ncpu jobs in
    stop_all ended scheduler_running idxs (start_all idxs jobs)

-- The jobs that stand in the new queue after a round: those that were stopped, and those that did
-- not run.
pub unfinished : (ended : ℕ → Bool) (scheduler_running : Bool) → List ℕ → Jobs → List ℕ
unfinished ended scheduler_running [] jobs = []
unfinished ended scheduler_running (idx ∷ idxs) jobs =
    let rest = unfinished ended scheduler_running idxs jobs in
    if ended (jobs idx).pid || not scheduler_running then rest else idx ∷ rest

-- What the scheduler sees of the other processes in one round of its loop: the flag when the loop is
-- entered and when the quantum is over, and which jobs have ended by then.
pub record Seen : Type 0 where
  pub before : Bool
  pub after : Bool
  pub ended : ℕ → Bool

-- The jobs, and `queue_len`.
pub record Schedule : Type 0 where
  pub jobs : Jobs
  pub queue_len : ℕ

-- The body of the loop.
pub loop_body : Seen → (job_count ncpu : ℕ) → Schedule → Schedule
loop_body seen job_count ncpu s =
    let queue = ready_from job_count 0 s.jobs in
    let running = running_of (length queue) ncpu in
    if length queue == 0 then record s { queue_len = 0 } else (record {
      jobs = round_of seen.ended seen.after job_count ncpu s.jobs;
      queue_len =
          length
            (unfinished seen.ended seen.after (entries running queue) s.jobs ++ drop running queue);
    })

-- The loop of `main`, with fuel; in round `n` the scheduler sees `seen n`.
pub scheduler_loop :
    (fuel : ℕ) (seen : ℕ → Seen) (n job_count ncpu : ℕ) → Schedule → Option Schedule
scheduler_loop zero seen n job_count ncpu s = none
scheduler_loop (suc fuel) seen n job_count ncpu s =
    let rest =
      scheduler_loop fuel seen (n + 1) job_count ncpu (loop_body (seen n) job_count ncpu s) in
    if (seen n).before || ltb 0 s.queue_len then rest else some s
