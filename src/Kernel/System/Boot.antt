-- ===== src/Kernel/System/Boot.antt =====
-- The state that `grass_entry` of egos-2000/grass/init.c leaves.
use operating_systems_compon.Base.{
  ℕ, ◌+◌, ◌≤◌, ◌≡◌, refl, none, some, arith, update, update_self, All,
}
use operating_systems_compon.Mmu.{Mmu, soft_tlb_switch}
use operating_systems_compon.Process.{running, Allocated, proc_set_running, fresh_process}
use operating_systems_compon.Process.Status.{proc_set_status_self}
use operating_systems_compon.Process.Alloc.{proc_alloc-slot_1}
use operating_systems_compon.Elf.{Reader, pheaders}
use operating_systems_compon.Elf.Pages.{free}
use operating_systems_compon.Elf.Aligned.{IsAligned, IsPlaced, elf_load-IsPlaced}
use operating_systems_compon.Elf.Program.{in_ram, all_pages}
use operating_systems_compon.Kernel.System.{
  System, first_system, zero_process, gpid_process, grass_entry,
}

-- The system after the boot on core `core_id`, with the pages of the first process in `m`.
pub record IsBooted (core_id now : ℕ) (reader : Reader) (m : Mmu) (s : System) : Type 0 where
  pub core : s.kernel.core_to_proc_idx core_id ≡ 1
  pub process : s.kernel.procs 1 ≡ record zero_process {
    pid = gpid_process;
    status = running;
    mlfq_level = 0;
    remainingt_onlevel = 100000;
    current_level_runtime = 0;
    total_runtime = 0;
    sleep_until_time = 0;
    time_created = now;
    time_first_scheduled = 0;
    time_last_scheduled = 0;
    time_terminated = 0;
    cpu_runtime = 0;
    no_interrupts = 0;
  }
  pub counter : s.curr_pid ≡ gpid_process
  pub program : All (λ seg. IsPlaced gpid_process reader seg m) (in_ram (pheaders (reader 0)))
  pub mmu : s.kernel.mmu ≡ soft_tlb_switch gpid_process m

-- What the first `proc_alloc` returns.
abbrev first_process : ℕ → Allocated
first_process now = record {
  pid = gpid_process;
  procs = update (λ _. zero_process) 1 (fresh_process now gpid_process zero_process);
  curr_pid = gpid_process;
}

-- With enough unused pages for the file of the first process, whose segments from RAM_START on start at
-- the start of a block of the file and of a page, `grass_entry` does not stop: process 1 runs on the
-- booting core, in slot 1, at level 0 with 100000 left there, created now, never scheduled, and with all
-- its counters 0; the counter of pids is 1; the bytes of the segments of its file stand at their
-- addresses in its pages, and the MMU is switched to them.
pub grass_entry-IsBooted :
    (core_id now : ℕ) (reader : Reader) (mmu : Mmu) (mtimecmp : ℕ → ℕ)
    → all_pages (in_ram (pheaders (reader 0))) + 4 ≤ free mmu
    → All IsAligned (in_ram (pheaders (reader 0)))
    → (s : System) × (m : Mmu) × (grass_entry core_id now reader mmu mtimecmp ≡ some s)
      × IsBooted core_id now reader m s
unfolding grass_entry first_system proc_set_running fresh_process
grass_entry-IsBooted core_id now reader mmu mtimecmp enough aligned =
    let (m, loads, segments, takes) =
      elf_load-IsPlaced gpid_process reader 0 none mmu enough aligned in
    let a = first_process now in
    let t = update (λ _. zero_process) 1 (fresh_process now gpid_process zero_process) in
    (
      first_system core_id m mtimecmp a,
      m,
      rw (loads, proc_alloc-slot_1 now 0 (λ _. zero_process) refl) refl,
      record {
        core = update_self {A = ℕ} (λ _. 0) core_id 1 core_id refl;
        process = proc_set_status_self 1 running t (omega arith);
        counter = refl;
        program = segments;
        mmu = refl;
      },
    )
