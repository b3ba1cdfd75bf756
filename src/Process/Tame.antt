-- ===== src/Process/Tame.antt =====
-- What every operation of egos-2000/grass/process.c keeps of a process: its pid, and the bounds of
-- the feedback queue.
use operating_systems_compon.Base.{
  ℕ, zero, suc, ◌+◌, ◌≡◌, refl, ap, ◌∙◌, inl, inr, Bool, some, arith, ltb, ◌==◌, Bool-cases,
  ℕ-cases, update, update_self, update_ne, count_from-invariant,
}
use operating_systems_compon.Process.{
  Process, ProcStatus, unused, ProcSet, Release, Allocated, is_user, report_slot, free_one,
  free_each, proc_free, fresh_process, proc_alloc, max_nprocess, gpid_all, proc_set_status,
  mlfq_update_level, mlfq_reset_level,
}
use operating_systems_compon.Process.Status.{with_status, proc_set_status_lem}
use operating_systems_compon.Process.Alloc.{proc_alloc-some}
use operating_systems_compon.Process.Mlfq.{
  IsQueued, mlfq_update_level-IsQueued, context-mlfq_update_level, mlfq_reset_level-Same,
  level-mlfq_reset_level,
}

-- One process before and after.
pub record Tame (p q : Process) : Type 0 where
  pub pid : q.pid ≡ p.pid
  pub queued : IsQueued p → IsQueued q

pub Tame-refl : (p : Process) → Tame p p
Tame-refl p = record { pid = refl; queued = λ v. v }

pub Tame-trans : {p q r : Process} → Tame p q → Tame q r → Tame p r
Tame-trans a b = record { pid = b.pid ∙ a.pid; queued = λ v. b.queued (a.queued v) }

-- A process with another system call.
pub with_call-Tame :
    (p q : Process)
    → q.pid ≡ p.pid
    → q.mlfq_level ≡ p.mlfq_level
    → q.remainingt_onlevel ≡ p.remainingt_onlevel
    → q.current_level_runtime ≡ p.current_level_runtime
    → q.total_runtime ≡ p.total_runtime
    → q.cpu_runtime ≡ p.cpu_runtime
    → Tame p q
with_call-Tame p q pid level remaining on_level total cpu = record {
  pid = pid;
  queued = λ v. record {
    level = rw level v.level;
    remaining = rw remaining v.remaining;
    on_level = rw on_level v.on_level;
    total = rw total v.total;
    cpu = rw cpu v.cpu;
  };
}

with_status-Tame : (pid : ℕ) (status : ProcStatus) (p : Process) → Tame p (with_status pid status p)
with_status-Tame pid status p = elim (Bool-cases (p.pid == pid)) [
  | inl h ↦ rw h (record {
    pid = refl;
    queued = λ v. record {
      level = v.level;
      remaining = v.remaining;
      on_level = v.on_level;
      total = v.total;
      cpu = v.cpu;
    };
  })
  | inr h ↦ rw h (Tame-refl p)
]

pub proc_set_status-Tame :
    (pid : ℕ) (status : ProcStatus) (t : ProcSet) (j : ℕ)
    → Tame (t j) (proc_set_status pid status t j)
proc_set_status-Tame pid status t j =
    rw (proc_set_status_lem pid status t j) (elim (Bool-cases (ltb j max_nprocess)) [
      | inl lt ↦ rw lt (with_status-Tame pid status (t j))
      | inr ge ↦ rw ge (Tame-refl (t j))
    ])

-- One slot gets a process that is tame.
pub update-Tame :
    (i : ℕ) (p : Process) (t : ProcSet) → Tame (t i) p → (j : ℕ) → Tame (t j) (update t i p j)
update-Tame i p t h j = elim (ℕ-cases i j) [
  | inl e ↦ rw (update_self t i p j e) (rw e at h)
  | inr ne ↦ rw (update_ne t i p j ne) (Tame-refl (t j))
]

pub mlfq_update_level-Tame : (runtime : ℕ) (p : Process) → Tame p (mlfq_update_level runtime p)
mlfq_update_level-Tame runtime p = record {
  pid = (context-mlfq_update_level runtime p).2;
  queued = mlfq_update_level-IsQueued runtime p;
}

pub mlfq_reset_level-Tame :
    (tty : Bool) (now : ℕ) (t : ProcSet) (last j : ℕ)
    → Tame (t j) ((mlfq_reset_level tty now t last).0 j)
mlfq_reset_level-Tame tty now t last j =
    let s = mlfq_reset_level-Same tty now t last j in
    let lower = level-mlfq_reset_level tty now t last j in
    record {
      pid = s.pid;
      queued = λ v. record {
        level = omega (arith, lower, v.level);
        remaining = rw (ap (λ (p : Process). p.remainingt_onlevel) s.kept) v.remaining;
        on_level = rw (ap (λ (p : Process). p.current_level_runtime) s.kept) v.on_level;
        total = rw (ap (λ (p : Process). p.total_runtime) s.kept) v.total;
        cpu = rw (ap (λ (p : Process). p.cpu_runtime) s.kept) v.cpu;
      };
    }

report_slot-Tame :
    (now i : ℕ) (r : Release) (j : ℕ) → Tame (r.procs j) ((report_slot now i r).procs j)
unfolding report_slot
report_slot-Tame now i r j =
    update-Tame i _ r.procs (with_call-Tame (r.procs i) _ refl refl refl refl refl refl) j

free_one-Tame :
    (clock : ℕ → ℕ) (pid n i : ℕ) (r : Release) (j : ℕ)
    → Tame (r.procs j) ((free_one clock pid n i r).procs j)
unfolding free_one
free_one-Tame clock pid zero i r j = Tame-refl (r.procs j)
free_one-Tame clock pid (suc n) i r j = elim (Bool-cases (is_user (r.procs i))) [
  | inl h ↦ rw h (
      Tame-trans (report_slot-Tame (clock i) i r j)
        (proc_set_status-Tame pid unused (report_slot (clock i) i r).procs j))
  | inr h ↦ rw h (free_one-Tame clock pid n (i + 1) r j)
]

free_each-Tame :
    (clock : ℕ → ℕ) (i : ℕ) (r : Release) (j : ℕ) → Tame (r.procs j) ((free_each clock i r).procs j)
unfolding free_each
free_each-Tame clock i r j = elim (Bool-cases (is_user (r.procs i))) [
  | inl h ↦
      let q = report_slot (clock i) i r in
      rw h (
        Tame-trans (report_slot-Tame (clock i) i r j)
          (update-Tame i _ q.procs (with_call-Tame (q.procs i) _ refl refl refl refl refl refl) j))
  | inr h ↦ rw h (Tame-refl (r.procs j))
]

pub proc_free-Tame :
    (clock : ℕ → ℕ) (pid : ℕ) (r : Release) (j : ℕ)
    → Tame (r.procs j) ((proc_free clock pid r).procs j)
unfolding proc_free
proc_free-Tame clock pid r j = elim (Bool-cases (pid == gpid_all)) [
  | inl h ↦ rw h (
      count_from-invariant (λ (k : ℕ) (q : Release). Tame (r.procs j) (q.procs j)) (free_each clock)
        max_nprocess 0 max_nprocess (λ k q lo hi old. Tame-trans old (free_each-Tame clock k q j)) r
        refl (Tame-refl (r.procs j)))
  | inr h ↦ rw h (free_one-Tame clock pid max_nprocess 0 r j)
]

fresh_process-IsQueued : (now pid : ℕ) (p : Process) → IsQueued (fresh_process now pid p)
unfolding fresh_process
fresh_process-IsQueued now pid p = record {
  level = omega arith;
  remaining = omega arith;
  on_level = omega arith;
  total = omega arith;
  cpu = omega arith;
}

pub proc_alloc-IsQueued :
    (now curr_pid : ℕ) (t : ProcSet) (a : Allocated)
    → proc_alloc now curr_pid t ≡ some a
    → ((j : ℕ) → IsQueued (t j))
    → (j : ℕ) → IsQueued (a.procs j)
proc_alloc-IsQueued now curr_pid t a h v j =
    let (k, lo, hi, unused_slot, first, new, pid, counter, same) =
      proc_alloc-some now curr_pid t a h in
    elim (ℕ-cases k j) [
      | inl e ↦ rw (← e, new) (fresh_process-IsQueued now a.pid (t k))
      | inr ne ↦ rw (same j ne) (v j)
    ]
