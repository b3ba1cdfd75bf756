-- ===== src/Process/Status.antt =====
-- `proc_set_status` of egos-2000/grass/process.c: which slots change, and the pids of the table.
use operating_systems_compon.Base.{
  ℕ, ◌≤◌, ◌<◌, ◌≡◌, ◌≢◌, sym, ◌∙◌, inl, inr, arith, ltb, ◌==◌, if◌then◌else◌, ℕ-cases,
  count_from-pointwise,
}
use operating_systems_compon.Process.{
  Process, ProcStatus, ProcSet, max_nprocess, set_status_at, proc_set_status,
}

-- What a status change makes of one process.
abbrev pub with_status : ℕ → ProcStatus → Process → Process
with_status pid status p = if p.pid == pid then record p { status = status } else p

set_status_at-local :
    (pid : ℕ) (status : ProcStatus) (k : ℕ) (t : ProcSet) (j : ℕ)
    → set_status_at pid status k t j ≡ (if k == j then with_status pid status (t j) else t j)
unfolding set_status_at
set_status_at-local pid status k t j = elim (ℕ-cases k j) [
  | inl e ↦ rw (← e) (ground arith)
  | inr ne ↦ ground arith
]

-- The status of every process with the pid in slots 0 to 15 is changed, and nothing else; slot 16
-- is never reached.
pub proc_set_status_lem :
    (pid : ℕ) (status : ProcStatus) (t : ProcSet) (j : ℕ)
    → proc_set_status pid status t j
      ≡ (if ltb j max_nprocess then with_status pid status (t j) else t j)
unfolding proc_set_status
proc_set_status_lem pid status t j =
    count_from-pointwise (λ _. with_status pid status) (set_status_at pid status)
      (set_status_at-local pid status) max_nprocess 0 t j
    ∙ ground arith

pub pid-proc_set_status :
    (pid : ℕ) (status : ProcStatus) (t : ProcSet) (j : ℕ)
    → (proc_set_status pid status t j).pid ≡ (t j).pid
pid-proc_set_status pid status t j = rw (proc_set_status_lem pid status t j) (ground arith)

-- The pids of a table: none is above the counter of `proc_alloc`, and no two slots share one, apart
-- from the slots that were never taken.
pub record IsTable (curr_pid : ℕ) (t : ProcSet) : Type 0 where
  pub below : (i : ℕ) → (t i).pid ≤ curr_pid
  pub apart : (i j : ℕ) → (t i).pid ≢ 0 → (t i).pid ≡ (t j).pid → i ≡ j

-- A status change keeps the pids unique.
pub proc_set_status-IsTable :
    (curr_pid pid : ℕ) (status : ProcStatus) (t : ProcSet)
    → IsTable curr_pid t
    → IsTable curr_pid (proc_set_status pid status t)
proc_set_status-IsTable curr_pid pid status t v = record {
  below = λ i. rw (pid-proc_set_status pid status t i) (v.below i);
  apart = λ i j.
      rw (pid-proc_set_status pid status t i, pid-proc_set_status pid status t j) (v.apart i j);
}

-- With unique pids, changing the status of the process in slot `i` leaves every other slot.
pub proc_set_status-ne :
    (curr_pid i j : ℕ) (status : ProcStatus) (t : ProcSet)
    → IsTable curr_pid t
    → (t i).pid ≢ 0
    → i ≢ j
    → proc_set_status (t i).pid status t j ≡ t j
proc_set_status-ne curr_pid i j status t v used ne =
    let other : (t j).pid ≢ (t i).pid = λ e. ne (v.apart i j used (sym e)) in
    rw (proc_set_status_lem (t i).pid status t j) (ground arith)

-- The process itself, in a slot below 16, gets the status.
pub proc_set_status_self :
    (i : ℕ) (status : ProcStatus) (t : ProcSet)
    → i < max_nprocess
    → proc_set_status (t i).pid status t i ≡ record (t i) { status = status }
proc_set_status_self i status t hi = rw (proc_set_status_lem (t i).pid status t i) (ground arith)
