-- ===== src/Kernel.antt =====
-- The kernel of egos-2000/grass/kernel.c: the trap entry, the two handlers, system calls between
-- processes, and the choice of the next process; with `timer_reset` of egos-2000/earth/cpu_intr.c.
-- `none` is a FATAL stop. One call of `kernel_entry` holds the kernel lock, so it is one step.
pub mod Layout
pub mod Message
pub mod Schedule
pub mod Saved
pub mod Context
pub mod Keeping
pub mod System
mod Tests
use operating_systems_compon.Base.{
  ℕ, zero, suc, ◌+◌, ◌*◌, ◌/◌, ◌%◌, ◌^◌, Bool, true, false, ◌&&◌, ◌||◌, not, Option, none, some,
  List, ltb, leb, ◌==◌, if◌then◌else◌, ◌>>=◌, ◌>>◌, update, first_index, add32, add64, sub64, slt,
  sle,
}
use operating_systems_compon.Mmu.{Memory, Mmu, page_size, soft_tlb_switch, soft_tlb_translate}
use operating_systems_compon.Process.{
  Process, Syscall, pending, done, is_pending, sys_recv, sys_send, ProcStatus, unused, ready,
  running, runnable, pending_syscall, ◌=s=◌, ProcSet, max_nprocess, gpid_all, proc_set_runnable,
  proc_set_running, proc_set_pending, mlfq_update_level, mlfq_reset_level,
}
use Layout.{load_syscall, store_syscall}

abbrev pub apps_arg : ℕ
apps_arg = 0x80300000

abbrev pub apps_entry : ℕ
apps_entry = 0x80200000

abbrev pub syscall_arg : ℕ
syscall_arg = 0x80301000

pub data Platform : Type 0 where
  hardware qemu : Platform

-- `QUANTUM`.
abbrev pub quantum : Platform → ℕ
quantum qemu = 100000
quantum hardware = 50000000

-- The globals of the kernel, the state of the MMU, and the timer of each core.
pub record Kernel : Type 0 where
  pub procs : ProcSet
  pub last_reset : ℕ
  pub core_in_kernel : ℕ
  pub core_to_proc_idx : ℕ → ℕ
  pub mmu : Mmu
  pub mtimecmp : ℕ → ℕ

-- What the devices answer during one call: `mtime_get` in `proc_yield`, in `mlfq_reset_level` and in
-- `timer_reset`, and whether terminal input is waiting.
pub record Devices : Type 0 where
  pub platform : Platform
  pub now : ℕ
  pub now_reset : ℕ
  pub now_timer : ℕ
  pub tty_input : Bool

abbrev pub curr_proc_idx : Kernel → ℕ
curr_proc_idx k = k.core_to_proc_idx k.core_in_kernel

abbrev pub curr : Kernel → Process
curr k = k.procs (curr_proc_idx k)

abbrev pub set_proc : ℕ → Process → Kernel → Kernel
set_proc i p k = record k { procs = update k.procs i p }

-- The page of physical memory that holds a physical address.
abbrev pub page_of : ℕ → ℕ
page_of paddr = paddr / page_size

-- `dst->syscall.type == SYS_RECV && dst->syscall.status == PENDING`.
pub waits : Process → Bool
waits dst = (dst.syscall.kind == sys_recv) && is_pending dst.syscall.status

-- `dst->syscall.sender == GPID_ALL || dst->syscall.sender == sender->pid`.
pub takes_from : Process → Process → Bool
takes_from dst sender = (dst.syscall.sender == gpid_all) || (dst.syscall.sender == sender.pid)

-- The system call of `dst` with the message of `sender`.
pub give : Process → Process → Process
give sender dst = record dst {
  syscall = record dst.syscall {
    status = done;
    sender = sender.pid;
    content = sender.syscall.content;
  };
}

-- What `proc_try_send` does at the slot of the receiver.
pub deliver : Process → ℕ → ProcSet → ProcSet
deliver sender d t =
    if not (waits (t d))
    then t
    else if not (takes_from (t d) sender)
    then t
    else update t d (give sender (t d))

-- `dst->pid == sender->syscall.receiver && dst->status != PROC_UNUSED`.
pub receives : Process → ProcSet → ℕ → Bool
receives sender t i = ((t i).pid == sender.syscall.receiver) && not ((t i).status =s= unused)

-- `proc_try_send` for the process in slot `i`.
pub proc_try_send : ℕ → ProcSet → Option ProcSet
proc_try_send i t = do d ← first_index (receives (t i) t) max_nprocess 0; some (deliver (t i) d t)

-- `memcpy` of a `struct syscall` to physical memory.
pub write_syscall : ℕ → Syscall → Mmu → Mmu
write_syscall paddr sc m = record m {
  mem = update m.mem (page_of paddr) (store_syscall sc (m.mem (page_of paddr)));
}

-- The part of `proc_try_recv` behind the test.
pub finish_recv : ℕ → Kernel → Kernel
finish_recv i k =
    let receiver = k.procs i in
    let (paddr, mmu') = soft_tlb_translate receiver.pid syscall_arg k.mmu in
    let t = proc_set_runnable receiver.pid k.procs in
    record k {
      mmu = write_syscall paddr receiver.syscall mmu';
      procs = proc_set_runnable (t i).syscall.sender t;
    }

-- `proc_try_recv` for the process in slot `i`.
pub proc_try_recv : ℕ → Kernel → Kernel
proc_try_recv i k = if is_pending (k.procs i).syscall.status then k else finish_recv i k

-- `proc_try_syscall` for the process in slot `i`.
pub proc_try_syscall : ℕ → Kernel → Option Kernel
proc_try_syscall i k =
    let kind = (k.procs i).syscall.kind in
    if kind == sys_recv
    then some (proc_try_recv i k)
    else if kind == sys_send
    then (do t ← proc_try_send i k.procs; some (record k { procs = t }))
    else none

-- The state of the loop of `proc_yield` that looks for the next process.
pub record Choice : Type 0 where
  pub kernel : Kernel
  pub lowest_level : ℕ
  pub next_idx : ℕ

abbrev pub can_run : ProcStatus → Bool
can_run s = (s =s= ready) || (s =s= runnable)

-- The second half of a round: is the process in slot `j` the best so far?
pub consider : ℕ → Choice → Choice
consider j c =
    let p = c.kernel.procs j in
    if can_run p.status
    then (if slt p.mlfq_level c.lowest_level
        then record c { lowest_level = p.mlfq_level; next_idx = j }
        else c)
    else c

-- The first half: a pending system call is tried again.
pub retry : ℕ → Kernel → Option Kernel
retry j k = if (k.procs j).status =s= pending_syscall then proc_try_syscall j k else some k

-- `(curr_proc_idx + i) % MAX_NPROCESS`.
abbrev pub slot_after : ℕ → ℕ → ℕ
slot_after start i = (start + i) % max_nprocess

-- The loop from `i` on with `n` rounds left; `start` is `curr_proc_idx`, which it does not change.
pub choose : ℕ → ℕ → ℕ → Choice → Option Choice
choose start zero i c = some c
choose start (suc n) i c = do
  k ← retry (slot_after start i) c.kernel
  choose start n (i + 1) (consider (slot_after start i) (record c { kernel = k }))

-- The run of the current process up to `now`, if it was ever scheduled.
pub charge_current : ℕ → Kernel → Kernel
charge_current now k =
    if ltb 0 (curr k).time_last_scheduled
    then set_proc (curr_proc_idx k)
        (mlfq_update_level (sub64 now (curr k).time_last_scheduled) (curr k)) k
    else k

-- The lifecycle of the current process; slot 0 stands for idle cores.
pub account : ℕ → Kernel → Kernel
account now k =
    if (ltb 0 (curr_proc_idx k) && leb (curr_proc_idx k) max_nprocess)
      && not ((curr k).status =s= unused)
    then charge_current now k
    else k

-- The times of the process that is scheduled next.
pub stamp : ℕ → Process → Process
stamp now p = record p {
  time_last_scheduled = now;
  time_first_scheduled = if p.time_first_scheduled == 0 then now else p.time_first_scheduled;
}

-- Arguments and program counter of a process that runs for the first time.
pub start_new : Process → Process
start_new p =
    if p.status =s= ready
    then record p {
      saved_registers = update (update p.saved_registers 0 apps_arg) 1 (apps_arg + 4);
      mepc = apps_entry;
    }
    else p

-- The end of `proc_yield`, from the assignment of `curr_proc_idx` on.
pub switch_to : Devices → ℕ → Kernel → Kernel
switch_to dev next k =
    let p = start_new (k.procs next) in
    record k {
      core_to_proc_idx = update k.core_to_proc_idx k.core_in_kernel next;
      mmu = soft_tlb_switch p.pid k.mmu;
      procs = proc_set_running p.pid (update k.procs next p);
      mtimecmp = update k.mtimecmp k.core_in_kernel (add64 dev.now_timer (quantum dev.platform));
    }

-- A process that was running may run again.
pub stop_current : Kernel → Kernel
stop_current k =
    if (curr k).status =s= running
    then record k { procs = proc_set_runnable (curr k).pid k.procs }
    else k

-- `proc_yield` up to the loop.
pub before_choice : Devices → Kernel → Kernel
before_choice dev k =
    let timed = account dev.now (stop_current k) in
    let (t, last) = mlfq_reset_level dev.tty_input dev.now_reset timed.procs timed.last_reset in
    record timed { procs = t; last_reset = last }

-- `proc_yield` behind the loop.
pub after_choice : Devices → Choice → Option Kernel
after_choice dev c =
    if ltb c.next_idx max_nprocess
    then some (
        switch_to dev c.next_idx
          (set_proc c.next_idx (stamp dev.now (c.kernel.procs c.next_idx)) c.kernel))
    else none

pub proc_yield : Devices → Kernel → Option Kernel
proc_yield dev k = do
  let k' = before_choice dev k
  c ←
      choose (curr_proc_idx k') max_nprocess 1
        (record { kernel = k'; lowest_level = 5; next_idx = max_nprocess })
  after_choice dev c

-- The part of `excp_entry` before `proc_try_syscall`, for a system call.
pub accept_call : Kernel → Kernel
accept_call k =
    let i = curr_proc_idx k in
    let (paddr, mmu') = soft_tlb_translate (curr k).pid syscall_arg k.mmu in
    let sc = load_syscall (mmu'.mem (page_of paddr)) in
    let t = update k.procs i (record (curr k) { syscall = record sc { status = pending } }) in
    let t' = proc_set_pending (t i).pid t in
    record k { mmu = mmu'; procs = update t' i (record (t' i) { mepc = add32 (t' i).mepc 4 }) }

-- `excp_entry`: exceptions 8 to 11 are system calls.
pub excp_entry : Devices → ℕ → Kernel → Option Kernel
excp_entry dev id k =
    if leb 8 id && leb id 11
    then (do k' ← proc_try_syscall (curr_proc_idx k) (accept_call k); proc_yield dev k')
    else none

-- The interrupt is counted for the current process.
pub count_interrupt : Kernel → Kernel
count_interrupt k =
    if ltb 0 (curr_proc_idx k) && leb (curr_proc_idx k) max_nprocess
    then set_proc (curr_proc_idx k)
        (record (curr k) { no_interrupts = add32 (curr k).no_interrupts 1 }) k
    else k

-- `intr_entry`: interrupt 7 is the timer.
pub intr_entry : Devices → ℕ → Kernel → Option Kernel
intr_entry dev id k = if not (id == 7) then none else proc_yield dev (count_interrupt k)

-- The registers that the trap entry reads and restores; `saved` is the area at
-- `SAVED_REGISTER_ADDR`, which kernel.s fills and loads.
pub record Cpu : Type 0 where
  pub mhartid : ℕ
  pub mepc : ℕ
  pub mcause : ℕ
  pub saved : ℕ → ℕ

-- The process context is saved.
pub save_context : Cpu → Kernel → Kernel
save_context cpu k =
    let k' = record k { core_in_kernel = cpu.mhartid } in
    set_proc (curr_proc_idx k') (record (curr k') { mepc = cpu.mepc; saved_registers = cpu.saved })
      k'

-- Bit 31 of `mcause` tells an interrupt from an exception.
pub dispatch : Devices → ℕ → Kernel → Option Kernel
dispatch dev mcause k =
    if leb (2 ^ 31) mcause then intr_entry dev (mcause % 1024) k else excp_entry dev mcause k

pub kernel_entry : Devices → Cpu → Kernel → Option (Cpu × Kernel)
kernel_entry dev cpu k = do
  k' ← dispatch dev cpu.mcause (save_context cpu k)
  some (record cpu { mepc = (curr k').mepc; saved = (curr k').saved_registers }, k')
