-- ===== src/Kernel/Schedule/Yield.antt =====
-- The choice of `proc_yield` of egos-2000/grass/kernel.c over all slots, and the process that runs
-- after it.
use operating_systems_compon.Base.{
  ℕ, ◌+◌, ◌-◌, ◌%◌, ◌≤◌, ◌<◌, ◌≡◌, refl, ap, ◌∙◌, ◌⊎◌, inl, inr, Bool, true, false, none, some,
  arith, ltb, Bool-cases, lt→ltb, ltb→lt, update, update_self, add64,
}
use operating_systems_compon.Mmu.Switch.{soft_tlb_switch-pid}
use operating_systems_compon.Process.{
  Process, running, ProcSet, max_nprocess, proc_set_running, proc_set_status,
}
use operating_systems_compon.Process.Status.{proc_set_status_self}
use operating_systems_compon.Kernel.{
  Kernel, Devices, Choice, can_run, slot_after, choose, set_proc, curr_proc_idx, before_choice,
  after_choice, proc_yield, switch_to, stamp, start_new, quantum,
}
use operating_systems_compon.Kernel.Schedule.{IsSettled, Best, nobody, somebody, choose-Best}

-- How many steps of the loop lead from `start` to slot `j`: 1 to 16.
abbrev pub distance : ℕ → ℕ → ℕ
distance start j = (j + 15 - start % 16) % 16 + 1

slot_after-distance : (start j : ℕ) → j < max_nprocess → slot_after start (distance start j) ≡ j
slot_after-distance start j h = omega arith

-- No process of slots 0 to 15 can run.
abbrev pub AllIdle : ProcSet → Type 0
AllIdle t = (j : ℕ) → j < max_nprocess → can_run (t j).status ≡ false

-- Slot `next` holds a process that can run, none of those in slots 0 to 15 has a lower level, and
-- those of its level come later round robin behind `start`.
pub record IsNext (t : ProcSet) (start next : ℕ) : Type 0 where
  pub in_range : next < max_nprocess
  pub runs : can_run (t next).status ≡ true
  pub lowest :
      (j : ℕ)
      → j < max_nprocess
      → can_run (t j).status ≡ true
      → (t next).mlfq_level ≤ (t j).mlfq_level
  pub first :
      (j : ℕ)
      → j < max_nprocess
      → can_run (t j).status ≡ true
      → (t j).mlfq_level ≡ (t next).mlfq_level
      → distance start next ≤ distance start j

summary :
    (t : ProcSet) (start : ℕ) {lowest next : ℕ}
    → Best t start (1 + 16) lowest next
    → ((next ≡ max_nprocess) × AllIdle t) ⊎ IsNext t start next
summary t start (nobody a b c) = inl (
  b,
  λ j hj. rw (slot_after-distance start j hj) at (c (distance start j) (omega arith) (omega arith)),
)
summary t start {next = next} (somebody m₀ a b c d e f g) = inr (record {
  in_range = omega arith;
  runs = e;
  lowest = λ j hj r.
      let at_j = slot_after-distance start j hj in
      rw at_j at (f (distance start j) (omega arith) (omega arith) (rw at_j r));
  first = λ j hj r same.
      let at_j = slot_after-distance start j hj in
      elim (Bool-cases (ltb (distance start j) m₀)) [
        | inl before ↦
            let less : (t next).mlfq_level < (t j).mlfq_level =
              rw at_j at (g (distance start j) (omega arith) (ltb→lt _ _ before) (rw at_j r)) in
            absurd (omega arith)
        | inr after ↦ ground arith
      ];
})

-- With no system call pending and all levels in the queue, the loop of `proc_yield` ends with the
-- state that it started from and with the next process to run, or finds that none can run.
pub choose-IsNext :
    (k : Kernel) (start : ℕ)
    → IsSettled k.procs
    → (c : Choice) × (choose start max_nprocess 1
          (record { kernel = k; lowest_level = 5; next_idx = max_nprocess })
        ≡ some c)
      × (c.kernel ≡ k)
      × (((c.next_idx ≡ max_nprocess) × AllIdle k.procs) ⊎ IsNext k.procs start c.next_idx)
choose-IsNext k start v =
    let (c, e, kc, b) =
      choose-Best k v start max_nprocess 1 5 max_nprocess (omega arith) (omega arith)
        (nobody refl refl (λ m lo hi. absurd (omega arith))) in
    (c, e, kc, summary k.procs start b)

-- The state that `proc_yield` leaves when process `next` runs.
pub record Runs (dev : Devices) (k : Kernel) (next : ℕ) (q : Kernel) : Type 0 where
  pub idx : curr_proc_idx q ≡ next
  pub process :
      q.procs next ≡ record (start_new (stamp dev.now (k.procs next))) { status = running }
  pub status : (q.procs next).status ≡ running
  pub address_space : q.mmu.curr_vm_pid ≡ (k.procs next).pid
  pub timer : q.mtimecmp k.core_in_kernel ≡ add64 dev.now_timer (quantum dev.platform)
  pub last_scheduled : (q.procs next).time_last_scheduled ≡ dev.now

pid-start_new : (now : ℕ) (p : Process) → (start_new (stamp now p)).pid ≡ p.pid
unfolding start_new stamp
pid-start_new now p = ground arith

last-start_new : (now : ℕ) (p : Process) → (start_new (stamp now p)).time_last_scheduled ≡ now
unfolding start_new stamp
last-start_new now p = ground arith

switch_to-Runs :
    (dev : Devices) (k : Kernel) (next : ℕ)
    → next < max_nprocess
    → Runs dev k next (switch_to dev next (set_proc next (stamp dev.now (k.procs next)) k))
unfolding switch_to proc_set_running
switch_to-Runs dev k next hi =
    let p = start_new (stamp dev.now (k.procs next)) in
    let stamped = update k.procs next (stamp dev.now (k.procs next)) in
    let e : stamped next ≡ stamp dev.now (k.procs next) = update_self k.procs next _ next refl in
    let here = update_self stamped next p next refl in
    let run : proc_set_status p.pid running (update stamped next p) next
        ≡ record p { status = running } =
      (rw here at (proc_set_status_self next running (update stamped next p) hi)) in
    rw e (record {
      idx = update_self k.core_to_proc_idx k.core_in_kernel next k.core_in_kernel refl;
      process = run;
      status = ap (λ (x : Process). x.status) run;
      address_space = soft_tlb_switch-pid p.pid k.mmu ∙ pid-start_new dev.now (k.procs next);
      timer = update_self k.mtimecmp k.core_in_kernel _ k.core_in_kernel refl;
      last_scheduled =
          ap (λ (x : Process). x.time_last_scheduled) run ∙ last-start_new dev.now (k.procs next);
    })

-- `proc_yield` with no system call pending behind `before_choice` and some process that can run: it
-- returns, and the next process in the order of levels runs, with its address space mapped in, the
-- time of its start noted, and the timer of the core set to one quantum from then.
pub proc_yield-Runs :
    (dev : Devices) (k : Kernel)
    → let k' = before_choice dev k in
      IsSettled k'.procs
      → ¬ AllIdle k'.procs
      → (next : ℕ) × (q : Kernel) × (proc_yield dev k ≡ some q)
        × IsNext k'.procs (curr_proc_idx k') next
        × Runs dev k' next q
unfolding proc_yield after_choice
proc_yield-Runs dev k v busy =
    let k' = before_choice dev k in
    let (c, e, kc, r) = choose-IsNext k' (curr_proc_idx k') v in
    elim r [
      | inl (none_found, idle) ↦ absurd (busy idle)
      | inr found ↦ (
        c.next_idx,
        switch_to dev c.next_idx (set_proc c.next_idx (stamp dev.now (k'.procs c.next_idx)) k'),
        rw (e, kc, lt→ltb c.next_idx max_nprocess found.in_range),
        found,
        switch_to-Runs dev k' c.next_idx found.in_range,
      )
    ]

-- With no system call pending and no process that can run, `proc_yield` stops the kernel.
pub proc_yield-idle :
    (dev : Devices) (k : Kernel)
    → IsSettled (before_choice dev k).procs
    → AllIdle (before_choice dev k).procs
    → proc_yield dev k ≡ none
unfolding proc_yield after_choice
proc_yield-idle dev k v idle =
    let k' = before_choice dev k in
    let (c, e, kc, r) = choose-IsNext k' (curr_proc_idx k') v in
    elim r [
      | inl (none_found, _) ↦ rw (e, none_found)
      | inr found ↦ absurd (clash (idle c.next_idx found.in_range) found.runs)
    ]
  where
    clash : {b : Bool} → b ≡ false → b ≡ true → ⊥
    clash p q = cc
