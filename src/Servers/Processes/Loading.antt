-- ===== src/Servers/Processes/Loading.antt =====
-- `proc_alloc`, `elf_load` and `proc_set_ready` together, as egos-2000/apps/system/sys_proc.c calls
-- them for a new process.
use operating_systems_compon.Base.{
  ℕ, suc, ◌+◌, ◌^◌, ◌≤◌, ◌<◌, ◌≡◌, ◌≢◌, refl, sym, ap, ◌∙◌, inl, inr, Option, Option-cases, some,
  All, Bool-cases, ltb, arith,
}
use operating_systems_compon.Mmu.{Mmu, Page}
use operating_systems_compon.Process.{
  Process, ProcSet, Allocated, unused, ready, max_nprocess, proc_alloc, proc_set_ready,
  proc_set_status, fresh_process,
}
use operating_systems_compon.Process.Status.{
  IsTable, proc_set_status_self, proc_set_status-ne, proc_set_status-IsTable,
}
use operating_systems_compon.Process.Alloc.{proc_alloc-some, proc_alloc-none, proc_alloc-IsTable}
use operating_systems_compon.Elf.{Reader, pheaders, elf_load}
use operating_systems_compon.Elf.Pages.{free}
use operating_systems_compon.Elf.Loading.{IsLoaded}
use operating_systems_compon.Elf.Program.{in_ram, all_pages, Takes, elf_load-IsLoaded}
use operating_systems_compon.Kernel.System.{System}
use operating_systems_compon.Servers.Processes.{load_process}

-- A process was added: it stands in `slot`, ready to run, with a pid that is new, and its program is
-- in pages that were not used; other processes and their pages are as before.
pub record IsStarted (now : ℕ) (reader : Reader) (sys sys' : System) (pid : ℕ) : Type 0 where
  pub slot : ℕ
  pub low : 0 < slot
  pub high : slot < max_nprocess
  pub was_unused : (sys.kernel.procs slot).status ≡ unused
  pub process :
      sys'.kernel.procs slot
      ≡ record (fresh_process now pid (sys.kernel.procs slot)) { status = ready }
  pub others : (j : ℕ) → slot ≢ j → sys'.kernel.procs j ≡ sys.kernel.procs j
  pub new_pid : pid ≡ sys.curr_pid + 1
  pub counter : sys'.curr_pid ≡ pid
  pub table : IsTable sys'.curr_pid sys'.kernel.procs
  pub program : All (λ seg. IsLoaded pid reader seg sys'.kernel.mmu) (in_ram (pheaders (reader 0)))
  pub pages : Takes (all_pages (in_ram (pheaders (reader 0))) + 4) sys.kernel.mmu sys'.kernel.mmu
  pub cores : sys'.kernel.core_to_proc_idx ≡ sys.kernel.core_to_proc_idx

-- `proc_alloc` with an unused slot.
allocated :
    (now curr_pid : ℕ) (t : ProcSet) (j : ℕ)
    → 0 < j
    → j < max_nprocess
    → (t j).status ≡ unused
    → (a : Allocated) × (proc_alloc now curr_pid t ≡ some a)
allocated now curr_pid t j lo hi h = elim (Option-cases (proc_alloc now curr_pid t)) [
  | inl e ↦ absurd (proc_alloc-none now curr_pid t e j lo (omega arith) h)
  | inr (a, e) ↦ (a, e)
]

load_process-some :
    (now : ℕ) (reader : Reader) (argc : ℕ) (argv : Option Page) (sys : System) (a : Allocated)
    (m : Mmu)
    → proc_alloc now sys.curr_pid sys.kernel.procs ≡ some a
    → elf_load a.pid reader argc argv sys.kernel.mmu ≡ some m
    → load_process now reader argc argv sys
      ≡ some (
        a.pid,
        record {
          kernel = record sys.kernel { procs = proc_set_ready a.pid a.procs; mmu = m };
          curr_pid = a.curr_pid;
        },
      )
unfolding load_process
load_process-some now reader argc argv sys a m h k = rw (h, k) refl

-- The status of the new process is set, and that of no other.
readied :
    (curr_pid pid k : ℕ) (t : ProcSet)
    → IsTable curr_pid t
    → (t k).pid ≡ pid
    → pid ≢ 0
    → k < max_nprocess
    → (proc_set_ready pid t k ≡ record (t k) { status = ready })
      × ((j : ℕ) → k ≢ j → proc_set_ready pid t j ≡ t j)
unfolding proc_set_ready
readied curr_pid pid k t v e ne hi = (
  ap (λ (x : ℕ). proc_set_status x ready t k) (sym e) ∙ proc_set_status_self k ready t hi,
  λ j nj.
      ap (λ (x : ℕ). proc_set_status x ready t j) (sym e)
      ∙ proc_set_status-ne curr_pid k j ready t v (rw e ne) nj,
)

proc_set_ready-IsTable :
    (curr_pid pid : ℕ) (t : ProcSet) → IsTable curr_pid t → IsTable curr_pid (proc_set_ready pid t)
unfolding proc_set_ready
proc_set_ready-IsTable curr_pid pid t v = proc_set_status-IsTable curr_pid pid ready t v

-- With an unused slot among 1 to 15, pids that are unique and below the end of their range, and
-- enough unused pages for the file, a process is added and nothing stops.
pub load_process-IsStarted :
    (now : ℕ) (reader : Reader) (argc : ℕ) (argv : Option Page) (sys : System) (j : ℕ)
    → 0 < j
    → j < max_nprocess
    → (sys.kernel.procs j).status ≡ unused
    → IsTable sys.curr_pid sys.kernel.procs
    → suc sys.curr_pid < 2 ^ 32
    → all_pages (in_ram (pheaders (reader 0))) + 4 ≤ free sys.kernel.mmu
    → (pid : ℕ) × (sys' : System) × (load_process now reader argc argv sys ≡ some (pid, sys'))
      × IsStarted now reader sys sys' pid
unfolding fresh_process
load_process-IsStarted now reader argc argv sys j lo hi h v small enough =
    let (a, alloc) = allocated now sys.curr_pid sys.kernel.procs j lo hi h in
    let (k, klo, khi, old, first, new, pid, counter, same) =
      proc_alloc-some now sys.curr_pid sys.kernel.procs a alloc in
    let (m, loads, segments, takes) =
      elf_load-IsLoaded a.pid reader argc argv sys.kernel.mmu enough in
    let table = proc_alloc-IsTable now sys.curr_pid sys.kernel.procs a small v alloc in
    let next : a.pid ≡ sys.curr_pid + 1 = pid ∙ ground arith in
    let in_range : k < max_nprocess = elim (Bool-cases (ltb k max_nprocess)) [
      | inl b ↦ ground arith
      | inr b ↦ absurd (first j lo (ground arith) h)
    ] in
    let (self, others) =
      readied a.curr_pid a.pid k a.procs table (ap (λ (p : Process). p.pid) new) (omega arith)
        in_range in
    (
      a.pid,
      _,
      load_process-some now reader argc argv sys a m alloc loads,
      record {
        slot = k;
        low = klo;
        high = in_range;
        was_unused = old;
        process = self ∙ ap (λ (p : Process). record p { status = ready }) new;
        others = λ i ne. others i ne ∙ same i ne;
        new_pid = next;
        counter = counter;
        table = proc_set_ready-IsTable a.curr_pid a.pid a.procs table;
        program = segments;
        pages = takes;
        cores = refl;
      },
    )
