-- ===== src/Scheduler/Shell/Tests.antt =====
-- Runs of the shell of group-16-3/simple-shell.c.
use operating_systems_compon.Base.{◌≡◌, refl, [], codes, minus_one}
use operating_systems_compon.Scheduler.{Jobs}
use operating_systems_compon.Scheduler.Shell.{
  prompts, start_shell, submit, job_of, after_prefix, handle_command,
}

abbrev no_jobs : Jobs
no_jobs idx = record { pid = 0; name = []; state = 0; run_time_slices = 0; wait_time_slices = 0 }

submits :
    handle_command (codes "submit fib") 12 (start_shell 1 10 no_jobs)
    ≡ prompts (submit (codes "fib") 12 (start_shell 1 10 no_jobs))
unfolding handle_command after_prefix
submits = refl

-- A job is added although `fork` failed; its pid is -1.
submit_failed :
    (submit (codes "fib") minus_one (start_shell 1 10 no_jobs)).jobs 0
    ≡ job_of minus_one (codes "fib")
unfolding submit start_shell
submit_failed = refl
