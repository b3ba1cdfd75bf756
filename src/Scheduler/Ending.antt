-- ===== src/Scheduler/Ending.antt =====
-- A round of group-16-3/scheduler.c in which the flag `scheduler_running` is off at the end of the
-- quantum.
use operating_systems_compon.Base.{
  ℕ, zero, suc, ◌+◌, ◌≤◌, ◌≡◌, refl, ◌∙◌, inl, inr, Bool, Bool-cases, false, List, [], ◌∷◌, take,
  drop, ◌==◌, if◌then◌else◌, update, eq→==, ne→==, arith,
}
use operating_systems_compon.Scheduler.{
  Job, Jobs, ready_from, start_all, stopped, stop_all, chosen, round_of,
}
use operating_systems_compon.Scheduler.Rotation.{elem, either, start_all-state}

update-ended :
    (ended : ℕ → Bool) (i : ℕ) (jobs : Jobs) (j : ℕ) (job : Job)
    → (update jobs i (stopped (ended (jobs i).pid) false job) j).state
      ≡ (if i == j then 2 else (jobs j).state)
unfolding stopped
update-ended ended i jobs j job = elim (Bool-cases (ended (jobs i).pid)) [
  | inl e ↦ elim (Bool-cases (i == j)) [ inl h ↦ rw (e, h) refl | inr h ↦ rw (e, h) refl ]
  | inr e ↦ elim (Bool-cases (i == j)) [ inl h ↦ rw (e, h) refl | inr h ↦ rw (e, h) refl ]
]

stop_all-ended :
    (ended : ℕ → Bool) (is : List ℕ) (jobs : Jobs) (j : ℕ)
    → (stop_all ended false is jobs j).state ≡ (if elem j is then 2 else (jobs j).state)
unfolding stop_all elem
stop_all-ended ended [] jobs j = refl
stop_all-ended ended (i ∷ is) jobs j =
    stop_all-ended ended is _ j
    ∙ rw (update-ended ended i jobs j (jobs i)) (either (elem j is) (i == j) 2 (jobs j).state)

-- All jobs of the round end.
pub round_of-ended :
    (ended : ℕ → Bool) (job_count ncpu : ℕ) (jobs : Jobs) (j : ℕ)
    → (round_of ended false job_count ncpu jobs j).state
      ≡ (if elem j (chosen job_count ncpu jobs) then 2 else (jobs j).state)
unfolding round_of
round_of-ended ended job_count ncpu jobs j =
    let is = chosen job_count ncpu jobs in
    stop_all-ended ended is (start_all is jobs) j ∙ elim (Bool-cases (elem j is)) [
      | inl h ↦ rw h refl
      | inr h ↦ rw h (start_all-state is jobs j ∙ rw h refl)
    ]

ready_from_same :
    (left i : ℕ) (jobs jobs' : Jobs)
    → ((j : ℕ) → i ≤ j → (jobs' j).state ≡ (jobs j).state)
    → ready_from left i jobs' ≡ ready_from left i jobs
unfolding ready_from
ready_from_same zero i jobs jobs' same = refl
ready_from_same (suc left) i jobs jobs' same =
    rw
      (same i (omega arith), ready_from_same left (i + 1) jobs jobs' (λ j le. same j (omega arith)))
      refl

-- When the first `k` ready jobs end, the others stay in their order.
pub ready_from-drop :
    (left i k : ℕ) (jobs jobs' : Jobs)
    → ((j : ℕ)
        → i ≤ j
        → (jobs' j).state
          ≡ (if elem j (take k (ready_from left i jobs)) then 2 else (jobs j).state))
    → ready_from left i jobs' ≡ drop k (ready_from left i jobs)
unfolding ready_from elem
ready_from-drop zero i zero jobs jobs' h = refl
ready_from-drop zero i (suc k) jobs jobs' h = refl
ready_from-drop (suc left) i zero jobs jobs' h = ready_from_same (suc left) i jobs jobs' h
ready_from-drop (suc left) i (suc k) jobs jobs' h = elim (Bool-cases ((jobs i).state == 0)) [
  | inl s ↦
      let h' = rw s at h in
      let gone : (jobs' i).state ≡ 2 = h' i (omega arith) ∙ rw (eq→== i i refl) refl in
      let rest = ready_from-drop left (i + 1) k jobs jobs' (λ j le.
        let ne : (i == j) ≡ false = ne→== i j (omega arith) in h' j (omega arith) ∙ rw ne refl) in
      rw (gone, s) rest
  | inr s ↦
      let h' = rw s at h in
      let rest = ready_from-drop left (i + 1) (suc k) jobs jobs' (λ j le. h' j (omega arith)) in
      let skipped : ((jobs' i).state == 0) ≡ false =
        elim (Bool-cases (elem i (take (suc k) (ready_from left (i + 1) jobs)))) [
          | inl e ↦ let st : (jobs' i).state ≡ 2 = h' i (omega arith) ∙ rw e refl in rw st refl
          | inr e ↦
              let st : (jobs' i).state ≡ (jobs i).state = h' i (omega arith) ∙ rw e refl in rw st s
        ] in
      rw (skipped, s) rest
]
