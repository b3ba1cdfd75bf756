-- ===== src/Kernel/System/Tests.antt =====
-- A boot of egos-2000/grass/init.c and some steps behind it, and instances of the theorems on them.
use operating_systems_compon.Base.{◌≡◌, some, arith}
use operating_systems_compon.Mmu.{Mmu}
use operating_systems_compon.Process.{proc_set_ready}
use operating_systems_compon.Elf.Tests.{file-IsAligned, file, fresh, all_pages-file, fresh-free}
use operating_systems_compon.Kernel.System.{
  System, grass_entry, start, later, set_ready, user, with_procs, with_mmu,
}
use operating_systems_compon.Kernel.System.Invariant.{IsSafe, Reach-IsSafe}
use operating_systems_compon.Kernel.System.Boot.{IsBooted, grass_entry-IsBooted}

grass_entry-IsBooted_example :
    (s : System) × (m : Mmu) × (grass_entry 0 7 file fresh (λ _. 0) ≡ some s)
    × IsBooted 0 7 file m s
grass_entry-IsBooted_example =
    grass_entry-IsBooted 0 7 file fresh (λ _. 0) (omega (arith, all_pages-file, fresh-free))
      file-IsAligned

boots :
    (s : System) × (m : Mmu) × (grass_entry 0 7 file fresh (λ _. 0) ≡ some s)
    × IsBooted 0 7 file m s
boots =
    grass_entry-IsBooted 0 7 file fresh (λ _. 0) (omega (arith, all_pages-file, fresh-free))
      file-IsAligned

abbrev booted : System
booted = boots.0

-- The first process writes memory, and its status is set.
Reach-IsSafe_example : IsSafe (record {
  kernel =
      with_procs
        (proc_set_ready 1 booted.kernel.procs)
        (with_mmu (record (booted.kernel.mmu) { mem = λ _ _. 1 }) booted.kernel);
  curr_pid = booted.curr_pid;
})
Reach-IsSafe_example =
    Reach-IsSafe
      (later (later (start 0 7 file fresh (λ _. 0) boots.2) (user (λ _ _. 1))) (set_ready 1))
