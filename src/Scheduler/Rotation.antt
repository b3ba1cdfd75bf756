-- ===== src/Scheduler/Rotation.antt =====
-- Which jobs of group-16-3/scheduler.c run in the next round.
use operating_systems_compon.Base.{
  ℕ, zero, suc, ◌+◌, ◌≡◌, ◌≤◌, ap, arith, refl, sym, ◌∙◌, inl, inr, Bool, Bool-cases, true, false,
  ◌||◌, List, [], ◌∷◌, take, length, ◌==◌, if◌then◌else◌, update, ==→eq,
}
use operating_systems_compon.Scheduler.{
  Job, Jobs, ready_from, running_of, start_job, start_all, stopped, stop_all, entries, chosen,
  round_of,
}

unfoldable pub elem : ℕ → List ℕ → Bool
elem j [] = false
elem j (i ∷ is) = i == j || elem j is

pub either :
    (a b : Bool) (v x : ℕ) → (if a then v else (if b then v else x)) ≡ (if b || a then v else x)
either true true v x = refl
either true false v x = refl
either false true v x = refl
either false false v x = refl

start_job-state :
    (i : ℕ) (jobs : Jobs) (j : ℕ)
    → (start_job i jobs j).state ≡ (if i == j then 1 else (jobs j).state)
unfolding start_job
start_job-state i jobs j = elim (Bool-cases (i == j)) [ inl h ↦ rw h refl | inr h ↦ rw h refl ]

pub start_all-state :
    (is : List ℕ) (jobs : Jobs) (j : ℕ)
    → (start_all is jobs j).state ≡ (if elem j is then 1 else (jobs j).state)
unfolding start_all elem
start_all-state [] jobs j = refl
start_all-state (i ∷ is) jobs j =
    start_all-state is (start_job i jobs) j
    ∙ rw (start_job-state i jobs j) (either (elem j is) (i == j) 1 (jobs j).state)

-- While the scheduler runs and no job has ended, a job that is stopped is ready again.
stopped-state : (job : Job) → (stopped false true job).state ≡ 0
unfolding stopped
stopped-state job = refl

update-state :
    (i : ℕ) (jobs : Jobs) (j : ℕ) (job : Job)
    → (update jobs i (stopped false true job) j).state ≡ (if i == j then 0 else (jobs j).state)
unfolding stopped
update-state i jobs j job = elim (Bool-cases (i == j)) [ inl h ↦ rw h refl | inr h ↦ rw h refl ]

stop_all-state :
    (ended : ℕ → Bool)
    → ((pid : ℕ) → ended pid ≡ false)
    → (is : List ℕ) (jobs : Jobs) (j : ℕ)
    → (stop_all ended true is jobs j).state ≡ (if elem j is then 0 else (jobs j).state)
unfolding stop_all elem
stop_all-state ended none_ended [] jobs j = refl
stop_all-state ended none_ended (i ∷ is) jobs j =
    stop_all-state ended none_ended is _ j
    ∙ rw (none_ended (jobs i).pid, update-state i jobs j (jobs i))
        (either (elem j is) (i == j) 0 (jobs j).state)

-- Only ready jobs stand in the queue.
ready_from-elem :
    (left i : ℕ) (jobs : Jobs) (j : ℕ) (k : ℕ)
    → elem j (take k (ready_from left i jobs)) ≡ true
    → (jobs j).state ≡ 0
unfolding ready_from elem
ready_from-elem zero i jobs j zero h = cc
ready_from-elem zero i jobs j (suc k) h = cc
ready_from-elem (suc left) i jobs j zero h = cc
ready_from-elem (suc left) i jobs j (suc k) h = elim (Bool-cases ((jobs i).state == 0)) [
  | inl s ↦
      let h' = rw s at h in
      elim (Bool-cases (i == j)) [
        | inl e ↦ rw (← ==→eq i j e) (==→eq (jobs i).state 0 s)
        | inr e ↦ ready_from-elem left (i + 1) jobs j k (rw e at h')
      ]
  | inr s ↦ ready_from-elem left (i + 1) jobs j (suc k) (rw s at h)
]

-- The queue depends on the states alone.
pub ready_from-state :
    (left i : ℕ) (jobs jobs' : Jobs)
    → ((j : ℕ) → (jobs j).state ≡ (jobs' j).state)
    → ready_from left i jobs ≡ ready_from left i jobs'
unfolding ready_from
ready_from-state zero i jobs jobs' same = refl
ready_from-state (suc left) i jobs jobs' same =
    rw (same i, ready_from-state left (i + 1) jobs jobs' same) refl

entries-take : (n : ℕ) (queue : List ℕ) → n ≤ length queue → entries n queue ≡ take n queue
unfolding entries
entries-take zero queue le = refl
entries-take (suc n) [] le = absurd (omega arith)
entries-take (suc n) (idx ∷ queue) le =
    ap (λ (is : List ℕ). idx ∷ is) (entries-take n queue (omega arith))

running_of-bound : (queue_len ncpu : ℕ) → running_of queue_len ncpu ≤ queue_len
unfolding running_of
running_of-bound queue_len ncpu = ground arith

-- No entry behind the end of the queue is read.
pub entries-running_of :
    (ncpu : ℕ) (queue : List ℕ)
    → entries (running_of (length queue) ncpu) queue ≡ take (running_of (length queue) ncpu) queue
entries-running_of ncpu queue =
    entries-take (running_of (length queue) ncpu) queue (running_of-bound (length queue) ncpu)

pub chosen-take :
    (job_count ncpu : ℕ) (jobs : Jobs)
    → let queue = ready_from job_count 0 jobs in
      chosen job_count ncpu jobs ≡ take (running_of (length queue) ncpu) queue
unfolding chosen
chosen-take job_count ncpu jobs = entries-running_of ncpu (ready_from job_count 0 jobs)

round_of-state :
    (ended : ℕ → Bool)
    → ((pid : ℕ) → ended pid ≡ false)
    → (job_count ncpu : ℕ) (jobs : Jobs) (j : ℕ)
    → (round_of ended true job_count ncpu jobs j).state ≡ (jobs j).state
unfolding round_of
round_of-state ended none_ended job_count ncpu jobs j =
    let k = running_of (length (ready_from job_count 0 jobs)) ncpu in
    let is = chosen job_count ncpu jobs in
    stop_all-state ended none_ended is (start_all is jobs) j ∙ elim (Bool-cases (elem j is)) [
      | inl h ↦
          rw h
            (sym (ready_from-elem job_count 0 jobs j k (rw (chosen-take job_count ncpu jobs) at h)))
      | inr h ↦ rw h (start_all-state is jobs j ∙ rw h refl)
    ]

-- When no job ends in a round and the scheduler goes on, the next round runs the same jobs as this
-- one, whatever other jobs are ready.
pub chosen-round_of :
    (ended : ℕ → Bool)
    → ((pid : ℕ) → ended pid ≡ false)
    → (job_count ncpu : ℕ) (jobs : Jobs)
    → chosen job_count ncpu (round_of ended true job_count ncpu jobs) ≡ chosen job_count ncpu jobs
unfolding chosen
chosen-round_of ended none_ended job_count ncpu jobs =
    let same =
      ready_from-state job_count 0 (round_of ended true job_count ncpu jobs) jobs
        (round_of-state ended none_ended job_count ncpu jobs) in
    rw same refl
