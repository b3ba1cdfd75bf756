-- ===== src/Process.antt =====
-- The process table of egos-2000/grass/process.c and process.h: allocation, status changes, the
-- release of processes, and the multi-level feedback queue.
-- `proc_set` is a function of the slot; the code reaches slots 0 to 16 and no other. A pid and the
-- other fields of type `int` are kept as 32-bit patterns.
pub mod Status
pub mod Alloc
pub mod Released
pub mod Free
pub mod Mlfq
pub mod Tame
mod Tests
use operating_systems_compon.Base.{
  ℕ, zero, suc, ◌+◌, ◌-◌, ◌*◌, ◌%◌, ◌^◌, Bool, true, false, ◌&&◌, not, Option, none, some, List, [],
  ◌∷◌, ◌++◌, ltb, leb, ◌==◌, if◌then◌else◌, update, count_from, first_index, add32, u32, add64,
  sub64, slt, sle, minus_one,
}
use operating_systems_compon.Mmu.{PageTable, mmu_free}

-- `enum proc_status`.
pub data ProcStatus : Type 0 where
  unused loading ready running runnable pending_syscall : ProcStatus

abbrev pub rank : ProcStatus → ℕ
rank unused = 0
rank loading = 1
rank ready = 2
rank running = 3
rank runnable = 4
rank pending_syscall = 5

infix 50 ◌=s=◌
abbrev pub ◌=s=◌ : ProcStatus → ProcStatus → Bool
a =s= b = rank a == rank b

-- The status of a `struct syscall`.
pub data CallStatus : Type 0 where
  pending done : CallStatus

abbrev pub is_pending : CallStatus → Bool
is_pending pending = true
is_pending done = false

-- `enum syscall_type`; user space may have written any other number there.
abbrev pub sys_recv : ℕ
sys_recv = 1

abbrev pub sys_send : ℕ
sys_send = 2

-- `struct syscall`; the content is kept as the list of its bytes.
pub record Syscall : Type 0 where
  pub kind : ℕ
  pub sender : ℕ
  pub receiver : ℕ
  pub content : List ℕ
  pub status : CallStatus

-- `struct process`.
pub record Process : Type 0 where
  pub pid : ℕ
  pub syscall : Syscall
  pub status : ProcStatus
  pub mepc : ℕ
  pub saved_registers : ℕ → ℕ
  pub mlfq_level : ℕ
  pub remainingt_onlevel : ℕ
  pub current_level_runtime : ℕ
  pub total_runtime : ℕ
  pub sleep_until_time : ℕ
  pub time_created : ℕ
  pub time_terminated : ℕ
  pub cpu_runtime : ℕ
  pub no_interrupts : ℕ
  pub time_first_scheduled : ℕ
  pub time_last_scheduled : ℕ

abbrev pub ProcSet : Type 0
ProcSet = ℕ → Process

abbrev pub max_nprocess : ℕ
max_nprocess = 16

-- `GPID_ALL`, `GPID_SHELL` and `GPID_USER_START`.
abbrev pub gpid_all : ℕ
gpid_all = minus_one

abbrev pub gpid_shell : ℕ
gpid_shell = 4

abbrev pub gpid_user_start : ℕ
gpid_user_start = 5

-- The body of the loop of `proc_set_status`, at slot `i`.
pub set_status_at : ℕ → ProcStatus → ℕ → ProcSet → ProcSet
set_status_at pid status i t =
    if (t i).pid == pid then update t i (record (t i) { status = status }) else t

pub proc_set_status : ℕ → ProcStatus → ProcSet → ProcSet
proc_set_status pid status t = count_from max_nprocess 0 (set_status_at pid status) t

unfoldable pub proc_set_ready : ℕ → ProcSet → ProcSet
proc_set_ready pid = proc_set_status pid ready

unfoldable pub proc_set_running : ℕ → ProcSet → ProcSet
proc_set_running pid = proc_set_status pid running

unfoldable pub proc_set_runnable : ℕ → ProcSet → ProcSet
proc_set_runnable pid = proc_set_status pid runnable

unfoldable pub proc_set_pending : ℕ → ProcSet → ProcSet
proc_set_pending pid = proc_set_status pid pending_syscall

-- `MLFQ_LEVEL_RUNTIME(x)`, an `int` product.
abbrev pub mlfq_level_runtime : ℕ → ℕ
mlfq_level_runtime x = u32 ((x + 1) * 100000)

abbrev pub mlfq_nlevels : ℕ
mlfq_nlevels = 5

abbrev pub mlfq_reset_period : ℕ
mlfq_reset_period = 10000000

-- The fields that `proc_alloc` sets in the slot that it takes; `now` is what `mtime_get` returns.
unfoldable pub fresh_process : ℕ → ℕ → Process → Process
fresh_process now pid p = record p {
  pid = pid;
  status = loading;
  mlfq_level = 0;
  remainingt_onlevel = mlfq_level_runtime 0;
  current_level_runtime = 0;
  total_runtime = 0;
  sleep_until_time = 0;
  time_created = now;
  time_terminated = 0;
  cpu_runtime = 0;
  no_interrupts = 0;
  time_first_scheduled = 0;
  time_last_scheduled = 0;
}

-- What `proc_alloc` returns, the table and the counter `curr_pid` after it.
pub record Allocated : Type 0 where
  pub pid : ℕ
  pub procs : ProcSet
  pub curr_pid : ℕ

pub take_slot : ℕ → ℕ → ProcSet → Option ℕ → Option Allocated
take_slot now curr_pid t none = none
take_slot now curr_pid t (some i) =
    let pid = add32 curr_pid 1 in
    some (record { pid = pid; procs = update t i (fresh_process now pid (t i)); curr_pid = pid })

-- `proc_alloc`; `none` is the FATAL stop when the table is full.
pub proc_alloc : ℕ → ℕ → ProcSet → Option Allocated
proc_alloc now curr_pid t =
    take_slot now curr_pid t (first_index (λ i. (t i).status =s= unused) max_nprocess 1)

-- The lifecycle statistics that `proc_free` prints, in the order of printing.
pub record Stats : Type 0 where
  pub pid : ℕ
  pub turnaround_time : ℕ
  pub response_time : ℕ
  pub cpu_time : ℕ
  pub no_interrupts : ℕ

-- The statistics of a process whose `time_terminated` is set; the times are cast to `int`.
pub lifecycle : Process → Stats
lifecycle p = record {
  pid = p.pid;
  turnaround_time =
      u32 (
        if ltb p.time_created p.time_terminated then sub64 p.time_terminated p.time_created else 0);
  response_time =
      u32 (if ltb 0 p.time_first_scheduled then sub64 p.time_first_scheduled p.time_created else 0);
  cpu_time = u32 p.cpu_runtime;
  no_interrupts = p.no_interrupts;
}

-- `proc_set[i].pid >= GPID_USER_START && proc_set[i].status != PROC_UNUSED`.
pub is_user : Process → Bool
is_user p = sle gpid_user_start p.pid && not (p.status =s= unused)

-- What `proc_free` works on: the process table, the page table, and what has been printed.
pub record Release : Type 0 where
  pub procs : ProcSet
  pub pages : PageTable
  pub log : List Stats

-- `time_terminated` of slot `i` is set and the statistics of that slot are printed.
pub report_slot : ℕ → ℕ → Release → Release
report_slot now i r =
    let p = record (r.procs i) { time_terminated = now } in
    record r { procs = update r.procs i p; log = r.log ++ (lifecycle p ∷ []) }

-- The scan of `proc_free` for one pid: the first user process ends the loop.
pub free_one : (clock : ℕ → ℕ) → ℕ → ℕ → ℕ → Release → Release
free_one clock pid zero i r = r
free_one clock pid (suc n) i r =
    let rest = free_one clock pid n (i + 1) r in
    let reported = report_slot (clock i) i r in
    if is_user (r.procs i)
    then record reported {
      pages = mmu_free pid reported.pages;
      procs = proc_set_status pid unused reported.procs;
    }
    else rest

-- A round of the loop of `proc_free(GPID_ALL)`.
pub free_each : (clock : ℕ → ℕ) → ℕ → Release → Release
free_each clock i r =
    let reported = report_slot (clock i) i r in
    if is_user (r.procs i)
    then record reported {
      pages = mmu_free (r.procs i).pid reported.pages;
      procs = update reported.procs i (record (reported.procs i) { status = unused });
    }
    else r

-- `proc_free`; `clock i` is what `mtime_get` returns when slot `i` is visited.
pub proc_free : (clock : ℕ → ℕ) → ℕ → Release → Release
proc_free clock pid r =
    if not (pid == gpid_all)
    then free_one clock pid max_nprocess 0 r
    else count_from max_nprocess 0 (free_each clock) r

-- The times of a process after another `runtime` microseconds on the CPU.
pub charge : ℕ → Process → Process
charge runtime p = record p {
  total_runtime = add64 p.total_runtime runtime;
  current_level_runtime = add64 p.current_level_runtime runtime;
  cpu_runtime = add64 p.cpu_runtime runtime;
  remainingt_onlevel = sub64 p.remainingt_onlevel runtime;
}

-- The branch where the time on the level is over: `remainingt_onlevel` gets the new level's time.
pub next_level : Process → Process
next_level p =
    let level =
      if slt p.mlfq_level (mlfq_nlevels - 1) then add32 p.mlfq_level 1 else p.mlfq_level in
    record p {
      mlfq_level = level;
      remainingt_onlevel = mlfq_level_runtime level;
      current_level_runtime = 0;
    }

-- `mlfq_update_level`. `remainingt_onlevel` is unsigned, so `<= 0` is a test for 0.
pub mlfq_update_level : ℕ → Process → Process
mlfq_update_level runtime p =
    let q = charge runtime p in if leb q.remainingt_onlevel 0 then next_level q else q

-- The scan for the shell: the first slot with its pid gets level 0.
pub reset_shell : ℕ → ℕ → ProcSet → ProcSet
reset_shell zero i t = t
reset_shell (suc n) i t =
    let rest = reset_shell n (i + 1) t in
    if (t i).pid == gpid_shell then update t i (record (t i) { mlfq_level = 0 }) else rest

pub reset_at : ℕ → ProcSet → ProcSet
reset_at i t =
    if not ((t i).status =s= unused) then update t i (record (t i) { mlfq_level = 0 }) else t

-- The loop over all slots.
pub reset_all : ProcSet → ProcSet
reset_all t = count_from max_nprocess 0 reset_at t

-- The branch of `mlfq_reset_level` for waiting input.
pub wake_shell : Bool → ProcSet → ProcSet
wake_shell tty_input t = if tty_input then reset_shell max_nprocess 0 t else t

-- `mlfq_reset_level`: the table and `MLFQ_last_reset_time` after it. `tty_input` says that input is
-- waiting, `now` is what `mtime_get` returns.
pub mlfq_reset_level : Bool → ℕ → ProcSet → ℕ → ProcSet × ℕ
mlfq_reset_level tty_input now t last_reset =
    let t' = wake_shell tty_input t in
    let last = if last_reset == 0 then now else last_reset in
    if leb mlfq_reset_period (sub64 now last) then (reset_all t', now) else (t', last)
