-- ===== src/Kernel/System/Invariant.antt =====
-- What holds in every reachable state of the grass layer.
use operating_systems_compon.Base.{
  ℕ, ◌<◌, ◌≡◌, refl, inl, inr, Option-cases, none, some, some_inj, arith, ℕ-cases, update_self,
  update_ne,
}
use operating_systems_compon.Mmu.{Mmu}
use operating_systems_compon.Process.{
  ready, running, max_nprocess, proc_alloc, proc_set_ready, proc_set_running,
}
use operating_systems_compon.Process.Status.{IsTable, proc_set_status-IsTable}
use operating_systems_compon.Process.Alloc.{proc_alloc-IsTable}
use operating_systems_compon.Process.Mlfq.{IsQueued}
use operating_systems_compon.Elf.{Reader, elf_load}
use operating_systems_compon.Process.Tame.{
  Tame-refl, proc_set_status-Tame, proc_free-Tame, proc_alloc-IsQueued,
}
use operating_systems_compon.Kernel.{Kernel}
use operating_systems_compon.Kernel.Keeping.{Keeps, Keeps-procs}
use operating_systems_compon.Kernel.Keeping.Trap.{kernel_entry-Keeps}
use operating_systems_compon.Kernel.System.{
  System, zero_process, gpid_process, first_system, grass_entry, release_of, Step, trap, alloc,
  set_ready, free, load, user, Reach, start, later,
}

-- Pids other than 0 are unique and not above the counter, every process fits the feedback queue, and the process
-- of every core stands in slots 0 to 15.
pub record IsSafe (s : System) : Type 0 where
  pub table : IsTable s.curr_pid s.kernel.procs
  pub queued : (j : ℕ) → IsQueued (s.kernel.procs j)
  pub cores : (c : ℕ) → s.kernel.core_to_proc_idx c < max_nprocess

-- A step that keeps the table as the kernel does.
Keeps-IsSafe :
    (k : Kernel) (s : System)
    → Keeps s.kernel k
    → IsSafe s
    → IsSafe (record { kernel = k; curr_pid = s.curr_pid })
Keeps-IsSafe k s h v =
    let same = λ (j : ℕ). let t = h.tame j in t.pid in
    record {
      table = record {
        below = λ i. rw (same i) (v.table.below i);
        apart = λ i j. rw (same i, same j) (v.table.apart i j);
      };
      queued = λ j. let t = h.tame j in t.queued (v.queued j);
      cores = h.cores v.cores;
    }

pub Step-IsSafe : {s t : System} → Step s t → IsSafe s → IsSafe t
unfolding proc_set_ready
Step-IsSafe {s} (trap dev cpu {cpu'} {k} h) v =
    Keeps-IsSafe k s (kernel_entry-Keeps dev cpu cpu' s.kernel k h) v
Step-IsSafe {s} (alloc now {a} small h) v = record {
  table = proc_alloc-IsTable now s.curr_pid s.kernel.procs a small v.table h;
  queued = proc_alloc-IsQueued now s.curr_pid s.kernel.procs a h v.queued;
  cores = v.cores;
}
Step-IsSafe {s} (set_ready pid) v =
    Keeps-IsSafe _ s (Keeps-procs s.kernel _ refl (proc_set_status-Tame pid ready s.kernel.procs)) v
Step-IsSafe {s} (free clock pid log) v =
    Keeps-IsSafe _ s
      (Keeps-procs s.kernel _ refl (proc_free-Tame clock pid (release_of log s.kernel))) v
Step-IsSafe {s} (load pid reader argc argv {m} h) v =
    Keeps-IsSafe _ s (Keeps-procs s.kernel _ refl (λ j. Tame-refl (s.kernel.procs j))) v
Step-IsSafe {s} (user mem) v =
    Keeps-IsSafe _ s (Keeps-procs s.kernel _ refl (λ j. Tame-refl (s.kernel.procs j))) v

zero-IsQueued : IsQueued zero_process
zero-IsQueued = record {
  level = omega arith;
  remaining = omega arith;
  on_level = omega arith;
  total = omega arith;
  cpu = omega arith;
}

zero-IsTable : IsTable 0 (λ _. zero_process)
zero-IsTable = record { below = λ i. omega arith; apart = λ i j used e. absurd (used refl) }

grass_entry-IsSafe :
    (core_id now : ℕ) (reader : Reader) (mmu : Mmu) (mtimecmp : ℕ → ℕ) (s : System)
    → grass_entry core_id now reader mmu mtimecmp ≡ some s
    → IsSafe s
unfolding grass_entry first_system proc_set_running
grass_entry-IsSafe core_id now reader mmu mtimecmp s h =
    elim (Option-cases (elf_load gpid_process reader 0 none mmu)) [
      | inl e ↦ cc
      | inr (m, e) ↦ elim (Option-cases (proc_alloc now 0 (λ _. zero_process))) [
        | inl f ↦ let bad : none ≡ some s = rw (e, f) at h in cc
        | inr (a, f) ↦
            let same = some_inj (rw (e, f) at h) in
            let t = proc_alloc-IsTable now 0 (λ _. zero_process) a (omega arith) zero-IsTable f in
            let q = proc_alloc-IsQueued now 0 (λ _. zero_process) a f (λ j. zero-IsQueued) in
            rw (← same) (record {
              table = proc_set_status-IsTable a.curr_pid a.pid running a.procs t;
              queued = λ j. (proc_set_status-Tame a.pid running a.procs j).queued (q j);
              cores = λ c. elim (ℕ-cases core_id c) [
                | inl i ↦ rw (update_self {A = ℕ} (λ _. 0) core_id 1 c i) (omega arith)
                | inr i ↦ rw (update_ne {A = ℕ} (λ _. 0) core_id 1 c i) (omega arith)
              ];
            })
      ]
    ]

-- In every state that the system reaches from `grass_entry` by traps, by `proc_alloc` while the
-- counter of pids does not wrap, by `proc_set_ready`, `proc_free` and `elf_load`, and by writes of
-- programs to memory: no pid is above the counter, no two slots share a pid other than 0, the pid of
-- the slots that were never taken, every process fits the feedback queue, and the process of every
-- core stands in slots 0 to 15.
pub Reach-IsSafe : {s : System} → Reach s → IsSafe s
Reach-IsSafe (start core_id now reader mmu mtimecmp {s} h) =
    grass_entry-IsSafe core_id now reader mmu mtimecmp s h
Reach-IsSafe (later r h) = Step-IsSafe h (Reach-IsSafe r)
