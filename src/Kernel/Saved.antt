-- ===== src/Kernel/Saved.antt =====
-- What the bookkeeping of egos-2000/grass/kernel.c before a choice leaves of the saved contexts.
use operating_systems_compon.Base.{
  ℕ, ◌≡◌, refl, ap, ◌∙◌, inl, inr, Bool, true, false, ◌&&◌, not, arith, ltb, leb, if◌then◌else◌,
  Bool-cases, ℕ-cases, update_self, update_ne, add32, sub64,
}
use operating_systems_compon.Process.{
  Process, ProcStatus, unused, running, runnable, ◌=s=◌, ProcSet, max_nprocess, proc_set_runnable,
  proc_set_status, mlfq_update_level, mlfq_reset_level,
}
use operating_systems_compon.Process.Status.{with_status, proc_set_status_lem}
use operating_systems_compon.Process.Mlfq.{mlfq_reset_level-Same, context-mlfq_update_level}
use operating_systems_compon.Kernel.{
  Kernel, Devices, curr_proc_idx, curr, set_proc, account, charge_current, stop_current,
  count_interrupt, before_choice,
}

-- Two states of a process with one context.
pub record SameContext (p q : Process) : Type 0 where
  pub saved_registers : q.saved_registers ≡ p.saved_registers
  pub mepc : q.mepc ≡ p.mepc
  pub pid : q.pid ≡ p.pid

pub same : (p : Process) → SameContext p p
same p = record { saved_registers = refl; mepc = refl; pid = refl }

pub trans : {p q r : Process} → SameContext p q → SameContext q r → SameContext p r
trans a b = record {
  saved_registers = b.saved_registers ∙ a.saved_registers;
  mepc = b.mepc ∙ a.mepc;
  pid = b.pid ∙ a.pid;
}

with_status-SameContext :
    (pid : ℕ) (status : ProcStatus) (p : Process) → SameContext p (with_status pid status p)
with_status-SameContext pid status p = ground arith

pub proc_set_status-SameContext :
    (pid : ℕ) (status : ProcStatus) (t : ProcSet) (j : ℕ)
    → SameContext (t j) (proc_set_status pid status t j)
proc_set_status-SameContext pid status t j =
    rw (proc_set_status_lem pid status t j) (elim (Bool-cases (ltb j max_nprocess)) [
      | inl lt ↦ rw lt (with_status-SameContext pid status (t j))
      | inr ge ↦ rw ge (same (t j))
    ])

-- Either branch of a test.
if-SameContext :
    (b : Bool) (p : Process) (x y : Kernel) (j : ℕ)
    → SameContext p (x.procs j)
    → SameContext p (y.procs j)
    → SameContext p ((if b then x else y).procs j)
if-SameContext true p x y j hx hy = hx
if-SameContext false p x y j hx hy = hy

-- Slot `i` gets a process with the context that is there.
set_proc-SameContext :
    (i : ℕ) (p : Process) (k : Kernel)
    → SameContext (k.procs i) p
    → (j : ℕ) → SameContext (k.procs j) ((set_proc i p k).procs j)
set_proc-SameContext i p k h j = elim (ℕ-cases i j) [
  | inl e ↦ rw (update_self k.procs i p j e) (rw e at h)
  | inr ne ↦ rw (update_ne k.procs i p j ne) (same (k.procs j))
]

mlfq_update_level-SameContext :
    (runtime : ℕ) (p : Process) → SameContext p (mlfq_update_level runtime p)
mlfq_update_level-SameContext runtime p =
    let (r, m, i) = context-mlfq_update_level runtime p in
    record { saved_registers = r; mepc = m; pid = i }

account-SameContext :
    (now : ℕ) (k : Kernel) (j : ℕ) → SameContext (k.procs j) ((account now k).procs j)
unfolding account charge_current
account-SameContext now k j =
    let here = same (k.procs j) in
    let p = mlfq_update_level (sub64 now (curr k).time_last_scheduled) (curr k) in
    let charged =
      set_proc-SameContext (curr_proc_idx k) p k
        (mlfq_update_level-SameContext (sub64 now (curr k).time_last_scheduled) (curr k)) j in
    if-SameContext
      ((ltb 0 (curr_proc_idx k) && leb (curr_proc_idx k) max_nprocess)
        && not ((curr k).status =s= unused))
      (k.procs j) (charge_current now k) k j
      (if-SameContext (ltb 0 (curr k).time_last_scheduled) (k.procs j)
        (set_proc (curr_proc_idx k) p k) k j charged here)
      here

mlfq_reset_level-SameContext :
    (tty : Bool) (now : ℕ) (t : ProcSet) (last j : ℕ)
    → SameContext (t j) ((mlfq_reset_level tty now t last).0 j)
mlfq_reset_level-SameContext tty now t last j =
    let s = mlfq_reset_level-Same tty now t last j in
    record {
      saved_registers = ap (λ (p : Process). p.saved_registers) s.kept;
      mepc = ap (λ (p : Process). p.mepc) s.kept;
      pid = s.pid;
    }

pub before_choice-SameContext :
    (dev : Devices) (k : Kernel) (j : ℕ) → SameContext (k.procs j) ((before_choice dev k).procs j)
unfolding before_choice stop_current proc_set_runnable
before_choice-SameContext dev k j =
    trans
      (if-SameContext ((curr k).status =s= running) (k.procs j)
        (record k { procs = proc_set_runnable (curr k).pid k.procs }) k j
        (proc_set_status-SameContext (curr k).pid runnable k.procs j) (same (k.procs j)))
      (trans (account-SameContext dev.now (stop_current k) j)
        (mlfq_reset_level-SameContext dev.tty_input dev.now_reset _ _ j))

pub count_interrupt-SameContext :
    (k : Kernel) (j : ℕ) → SameContext (k.procs j) ((count_interrupt k).procs j)
unfolding count_interrupt
count_interrupt-SameContext k j =
    let p = record (curr k) { no_interrupts = add32 (curr k).no_interrupts 1 } in
    if-SameContext (ltb 0 (curr_proc_idx k) && leb (curr_proc_idx k) max_nprocess) (k.procs j)
      (set_proc (curr_proc_idx k) p k) k j
      (set_proc-SameContext (curr_proc_idx k) p k
        (record { saved_registers = refl; mepc = refl; pid = refl }) j)
      (same (k.procs j))
