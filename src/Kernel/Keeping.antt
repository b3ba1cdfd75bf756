-- ===== src/Kernel/Keeping.antt =====
-- What every operation of egos-2000/grass/kernel.c keeps of the process table: the pids, and the
-- bounds of the feedback queue.
pub mod Calls
pub mod Yield
pub mod Trap
use operating_systems_compon.Base.{
  ℕ, zero, suc, ◌+◌, ◌-◌, ◌%◌, ◌^◌, ◌≤◌, ◌<◌, ◌≡◌, ◌≢◌, refl, sym, ap, ◌∙◌, inl, inr, Bool, true,
  false, ◌&&◌, ◌||◌, not, Option, Option-cases, none, some, some_inj, arith, ltb, leb, ◌==◌,
  if◌then◌else◌, ◌>>=◌, Bool-cases, ℕ-cases, update, update_self, update_ne, add32, sub64,
  first_index,
}
use operating_systems_compon.Process.{
  Process, ProcStatus, unused, ready, running, runnable, pending_syscall, ◌=s=◌, ProcSet,
  max_nprocess, gpid_shell, proc_set_status, proc_set_runnable, proc_set_running, proc_set_pending,
  mlfq_update_level, mlfq_reset_level,
}
use operating_systems_compon.Process.Status.{with_status, proc_set_status_lem}
use operating_systems_compon.Process.Tame.{
  Tame, Tame-refl, Tame-trans, proc_set_status-Tame, update-Tame, with_call-Tame,
  mlfq_update_level-Tame, mlfq_reset_level-Tame, proc_free-Tame, proc_alloc-IsQueued,
}
use operating_systems_compon.Kernel.{
  Kernel, Devices, Choice, Cpu, curr_proc_idx, curr, set_proc, give, deliver, proc_try_send,
  finish_recv, proc_try_recv, proc_try_syscall, consider, retry, slot_after, choose, charge_current,
  account, stamp, start_new, switch_to, stop_current, before_choice, after_choice, proc_yield,
  accept_call, excp_entry, count_interrupt, intr_entry, dispatch, save_context, kernel_entry,
}

-- All processes before and after, and the slots of the cores.
pub record Keeps (k k' : Kernel) : Type 0 where
  pub tame : (j : ℕ) → Tame (k.procs j) (k'.procs j)
  pub cores :
      ((c : ℕ) → k.core_to_proc_idx c < max_nprocess)
      → (c : ℕ) → k'.core_to_proc_idx c < max_nprocess

pub Keeps-refl : (k : Kernel) → Keeps k k
Keeps-refl k = record { tame = λ j. Tame-refl (k.procs j); cores = λ h. h }

pub Keeps-trans : (a b c : Kernel) → Keeps a b → Keeps b c → Keeps a c
Keeps-trans a b c x y = record {
  tame = λ j. Tame-trans (x.tame j) (y.tame j);
  cores = λ h. y.cores (x.cores h);
}

-- An operation on the table alone.
pub Keeps-procs :
    (k : Kernel) (k' : Kernel)
    → k'.core_to_proc_idx ≡ k.core_to_proc_idx
    → ((j : ℕ) → Tame (k.procs j) (k'.procs j))
    → Keeps k k'
Keeps-procs k k' same tame = record { tame = tame; cores = λ h c. rw same (h c) }
