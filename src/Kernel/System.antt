-- ===== src/Kernel/System.antt =====
-- The grass layer as a whole: `grass_entry` of egos-2000/grass/init.c, and the steps that the system
-- takes from there. A step is a trap of some core, a call that a server makes through the `grass`
-- interface, the load of a program, or a change of memory by a program.
pub mod Invariant
pub mod Boot
mod Tests
use operating_systems_compon.Base.{
  ℕ, suc, ◌^◌, ◌<◌, ◌≡◌, Option, none, some, List, [], ◌>>=◌, ◌>>◌, update, replicate,
}
use operating_systems_compon.Mmu.{Memory, Page, Mmu, soft_tlb_switch}
use operating_systems_compon.Process.{
  Process, done, pending, ProcStatus, unused, ProcSet, Stats, Release, Allocated, proc_alloc,
  proc_set_ready, proc_set_running, proc_free,
}
use operating_systems_compon.Elf.{Reader, elf_load}
use operating_systems_compon.Kernel.{Kernel, Devices, Cpu, kernel_entry}
use operating_systems_compon.Kernel.Layout.{syscall_msg_len}

-- The globals of the grass layer, with the static `curr_pid` of `proc_alloc`.
pub record System : Type 0 where
  pub kernel : Kernel
  pub curr_pid : ℕ

-- An entry of `proc_set` before the boot: all bytes are 0.
abbrev pub zero_process : Process
zero_process = record {
  pid = 0;
  syscall = record {
    kind = 0;
    sender = 0;
    receiver = 0;
    content = replicate syscall_msg_len 0;
    status = pending;
  };
  status = unused;
  mepc = 0;
  saved_registers = λ _. 0;
  mlfq_level = 0;
  remainingt_onlevel = 0;
  current_level_runtime = 0;
  total_runtime = 0;
  sleep_until_time = 0;
  time_created = 0;
  time_terminated = 0;
  cpu_runtime = 0;
  no_interrupts = 0;
  time_first_scheduled = 0;
  time_last_scheduled = 0;
}

abbrev pub gpid_process : ℕ
gpid_process = 1

-- The globals behind the call of `proc_alloc` in `grass_entry`, with all others still 0.
pub first_system : (core_id : ℕ) → Mmu → (mtimecmp : ℕ → ℕ) → Allocated → System
first_system core_id mmu mtimecmp a = record {
  kernel = record {
    procs = proc_set_running a.pid a.procs;
    last_reset = 0;
    core_in_kernel = 0;
    core_to_proc_idx = update (λ _. 0) core_id 1;
    mmu = soft_tlb_switch gpid_process mmu;
    mtimecmp = mtimecmp;
  };
  curr_pid = a.curr_pid;
}

-- `grass_entry` on core `core_id`, up to the jump into the first process. `reader` is
-- `sys_proc_read`, `now` is what `mtime_get` returns; the MMU and the timers are as the earth layer
-- leaves them.
pub grass_entry : (core_id now : ℕ) → Reader → Mmu → (mtimecmp : ℕ → ℕ) → Option System
grass_entry core_id now reader mmu mtimecmp = do
  mmu' ← elf_load gpid_process reader 0 none mmu
  a ← proc_alloc now 0 (λ _. zero_process)
  some (first_system core_id mmu' mtimecmp a)

abbrev pub with_procs : ProcSet → Kernel → Kernel
with_procs t k = record k { procs = t }

abbrev pub with_mmu : Mmu → Kernel → Kernel
with_mmu m k = record k { mmu = m }

-- What `proc_free` gets of the system, and what it leaves.
abbrev pub release_of : List Stats → Kernel → Release
release_of log k = record { procs = k.procs; pages = k.mmu.pages; log = log }

abbrev pub after_release : Release → Kernel → Kernel
after_release r k = with_mmu (record (k.mmu) { pages = r.pages }) (with_procs r.procs k)

pub data Step (s : System) : System → Type 0 where
  trap :
      (dev : Devices) (cpu : Cpu) {cpu' : Cpu} {k : Kernel}
      → kernel_entry dev cpu s.kernel ≡ some (cpu', k)
      → Step s (record { kernel = k; curr_pid = s.curr_pid })
  alloc :
      (now : ℕ) {a : Allocated}
      → suc s.curr_pid < 2 ^ 32
      → proc_alloc now s.curr_pid s.kernel.procs ≡ some a
      → Step s (record { kernel = with_procs a.procs s.kernel; curr_pid = a.curr_pid })
  set_ready :
      (pid : ℕ)
      → Step s (record {
        kernel = with_procs (proc_set_ready pid s.kernel.procs) s.kernel;
        curr_pid = s.curr_pid;
      })
  free :
      (clock : ℕ → ℕ) (pid : ℕ) (log : List Stats)
      → Step s (record {
        kernel = after_release (proc_free clock pid (release_of log s.kernel)) s.kernel;
        curr_pid = s.curr_pid;
      })
  load :
      (pid : ℕ) (reader : Reader) (argc : ℕ) (argv : Option Page) {m : Mmu}
      → elf_load pid reader argc argv s.kernel.mmu ≡ some m
      → Step s (record { kernel = with_mmu m s.kernel; curr_pid = s.curr_pid })
  user :
      (mem : Memory)
      → Step s (record {
        kernel = with_mmu (record (s.kernel.mmu) { mem = mem }) s.kernel;
        curr_pid = s.curr_pid;
      })

pub data Reach : System → Type 0 where
  start :
      (core_id now : ℕ) (reader : Reader) (mmu : Mmu) (mtimecmp : ℕ → ℕ) {s : System}
      → grass_entry core_id now reader mmu mtimecmp ≡ some s
      → Reach s
  later : {s t : System} → Reach s → Step s t → Reach t
