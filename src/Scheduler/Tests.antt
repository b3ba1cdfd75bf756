-- ===== src/Scheduler/Tests.antt =====
-- Three ready jobs on one processor, in group-16-3/scheduler.c.
use operating_systems_compon.Base.{
  ℕ, ◌≡◌, ◌<◌, ◌⊎◌, refl, sym, some, length, arith, Bool, true, false, [], ◌∷◌,
}
use operating_systems_compon.Scheduler.Shutdown.{scheduler_loop-all_ended}
use operating_systems_compon.Scheduler.{
  Seen, Schedule, scheduler_loop, Jobs, entries, chosen, round_of, ready_from, running_of,
}
use operating_systems_compon.Scheduler.Rotation.{chosen-round_of}

abbrev ready_jobs : Jobs
ready_jobs idx = record {
  pid = idx;
  name = [];
  state = 0;
  run_time_slices = 0;
  wait_time_slices = 0;
}

abbrev goes_on : ℕ → Bool
goes_on pid = false

first_job : chosen 3 1 ready_jobs ≡ 0 ∷ []
unfolding chosen ready_from running_of entries
first_job = refl

chosen-round_of_example : chosen 3 1 (round_of goes_on true 3 1 ready_jobs) ≡ chosen 3 1 ready_jobs
chosen-round_of_example = chosen-round_of goes_on (λ pid. refl) 3 1 ready_jobs

abbrev switched_off : ℕ → Seen
switched_off n = record { before = false; after = false; ended = goes_on }

abbrev three_jobs : Schedule
three_jobs = record { jobs = ready_jobs; queue_len = 3 }

three_ready : length (ready_from 3 0 ready_jobs) ≡ 3
unfolding ready_from
three_ready = refl

scheduler_loop-all_ended_example :
    (s' : Schedule) × (scheduler_loop 4 switched_off 0 3 2 three_jobs ≡ some s')
    × ((j : ℕ) → j < 3 → (ready_jobs j).state ≡ 0 → (s'.jobs j).state ≡ 2)
    × ((j : ℕ) → ((s'.jobs j).state ≡ (ready_jobs j).state) ⊎ ((s'.jobs j).state ≡ 2))
scheduler_loop-all_ended_example =
    scheduler_loop-all_ended 3 2 switched_off 4 0 three_jobs (omega arith) (λ k. refl) (λ k. refl)
      (sym three_ready) (omega arith)
