-- ===== src/Kernel/Tests.antt =====
-- Instances of the theorems on messages and on the choice of the next process.
use operating_systems_compon.Base.{
  ℕ, ◌+◌, ◌^◌, ◌≡◌, ◌≢◌, refl, ap, inl, false, none, some, List, [], arith, ◌>>=◌, ◌==◌,
  if◌then◌else◌, update, replicate,
}
use operating_systems_compon.Mmu.{zero_info}
use operating_systems_compon.Process.{
  Process, Syscall, pending, done, sys_recv, sys_send, ProcStatus, unused, loading, ready, runnable,
  pending_syscall, ProcSet, gpid_all,
}
use operating_systems_compon.Process.Status.{IsTable}
use operating_systems_compon.Process.Mlfq.{mlfq_reset_level-early}
use operating_systems_compon.Kernel.{
  Kernel, Devices, qemu, before_choice, account, charge_current, stop_current, curr_proc_idx,
  proc_try_send, Cpu, save_context, count_interrupt, kernel_entry, apps_arg, apps_entry,
  proc_try_syscall, proc_yield, page_of, syscall_arg,
}
use operating_systems_compon.Kernel.Context.{at_timer, kernel_entry-timer}
use operating_systems_compon.Kernel.Layout.{load_syscall}
use operating_systems_compon.Kernel.Layout.Roundtrip.{Fits}
use operating_systems_compon.Kernel.Message.{IsWaiting, proc_try_send-live}
use operating_systems_compon.Kernel.Message.Rendezvous.{send-recv}
use operating_systems_compon.Kernel.Schedule.{IsSettled}
use operating_systems_compon.Kernel.Schedule.Yield.{IsNext, Runs, proc_yield-Runs, proc_yield-idle}

-- The system call `kind` between `sender` and `receiver`.
abbrev call : ℕ → ℕ → ℕ → List ℕ → Syscall
call kind sender receiver content = record {
  kind = kind;
  sender = sender;
  receiver = receiver;
  content = content;
  status = pending;
}

abbrev proc : ℕ → ProcStatus → ℕ → Syscall → Process
proc pid status level sc = record {
  pid = pid;
  syscall = sc;
  status = status;
  mepc = 0;
  saved_registers = λ _. 0;
  mlfq_level = level;
  remainingt_onlevel = 100000;
  current_level_runtime = 0;
  total_runtime = 0;
  sleep_until_time = 0;
  time_created = 0;
  time_terminated = 0;
  cpu_runtime = 0;
  no_interrupts = 0;
  time_first_scheduled = 0;
  time_last_scheduled = 0;
}

abbrev no_call : Syscall
no_call = call 0 0 0 []

-- Process 5 in slot 2 sends to the file server, process 3 in slot 1, which waits for anybody.
abbrev talking : ProcSet
talking =
    update
      (update (λ _. proc 0 unused 0 no_call) 1
        (proc 3 pending_syscall 0 (call sys_recv gpid_all 0 [])))
      2 (proc 5 pending_syscall 0 (call sys_send 0 3 (replicate 1024 b'h')))

abbrev kernel : ProcSet → Kernel
kernel t = record {
  procs = t;
  last_reset = 100;
  core_in_kernel = 0;
  core_to_proc_idx = λ _. 2;
  mmu = record { pages = λ _. zero_info; mem = λ _ _. 0; curr_vm_pid = 5 };
  mtimecmp = λ _. 0;
}

talking-IsTable : IsTable 5 talking
talking-IsTable = record { below = λ i. ground arith; apart = λ i j h e. ground arith }

receiver-IsWaiting : IsWaiting (talking 1) 5
receiver-IsWaiting = record { kind = refl; status = refl; sender = inl refl }

-- The call of the receiver when it has the message.
abbrev answered : Syscall
answered = record (call sys_recv 5 0 []) { status = done; content = replicate 1024 b'h' }

message-Fits : Fits answered
message-Fits = record {
  kind = omega arith;
  sender = omega arith;
  receiver = omega arith;
  content = refl;
}

proc_try_send-live_example :
    (IsWaiting (talking 1) 5
      → proc_try_send 2 talking
        ≡ some (update talking 1 (record (talking 1) { syscall = answered })))
    × (¬ IsWaiting (talking 1) 5 → proc_try_send 2 talking ≡ some talking)
proc_try_send-live_example =
    proc_try_send-live 5 2 1 talking talking-IsTable (omega arith) (omega arith) (λ e. cc) refl

send-recv_example :
    (q : Kernel) × ((proc_try_syscall 2 (kernel talking) >>= proc_try_syscall 1) ≡ some q)
    × (q.procs 2 ≡ record (talking 2) { status = runnable })
    × (q.procs 1 ≡ record (talking 1) { status = runnable; syscall = answered })
    × ((j : ℕ) → j ≢ 1 → j ≢ 2 → q.procs j ≡ talking j)
    × (load_syscall (q.mmu.mem (page_of syscall_arg)) ≡ answered)
send-recv_example =
    send-recv 5 2 1 (kernel talking) talking-IsTable (omega arith) (omega arith) (omega arith)
      (omega arith) (omega arith) (λ e. cc) refl refl receiver-IsWaiting message-Fits

-- Slot 2 is loading; slots 3, 4 and 5 can run, at levels 2, 1 and 1.
abbrev three : ProcSet
three =
    update
      (update
        (update (update (λ _. proc 0 unused 0 no_call) 2 (proc 5 loading 0 no_call)) 3
          (proc 6 runnable 2 no_call))
        4 (proc 7 ready 1 no_call))
      5 (proc 8 runnable 1 no_call)

abbrev idle : ProcSet
idle = update (λ _. proc 0 unused 0 no_call) 2 (proc 5 loading 0 no_call)

abbrev devices : Devices
devices = record { platform = qemu; now = 500; now_reset = 510; now_timer = 520; tty_input = false }

same_three : (before_choice devices (kernel three)).procs ≡ three
unfolding before_choice account charge_current stop_current
same_three =
    ap (λ (r : ProcSet × ℕ). r.0)
      (mlfq_reset_level-early 510 three 100 (omega arith) (omega arith) (omega arith) (omega arith))

same_idle : (before_choice devices (kernel idle)).procs ≡ idle
unfolding before_choice account charge_current stop_current
same_idle =
    ap (λ (r : ProcSet × ℕ). r.0)
      (mlfq_reset_level-early 510 idle 100 (omega arith) (omega arith) (omega arith) (omega arith))

three-IsSettled : IsSettled three
three-IsSettled = record { no_call = λ j h. ground arith; level = λ j h. ground arith }

idle-IsSettled : IsSettled idle
idle-IsSettled = record { no_call = λ j h. ground arith; level = λ j h. ground arith }

proc_yield-Runs_example :
    let k' = before_choice devices (kernel three) in
    (next : ℕ) × (q : Kernel) × (proc_yield devices (kernel three) ≡ some q)
    × IsNext k'.procs (curr_proc_idx k') next
    × Runs devices k' next q
proc_yield-Runs_example =
    proc_yield-Runs devices (kernel three) (rw same_three three-IsSettled)
      (rw same_three (λ all. cc (all 3 (omega arith))))

proc_yield-idle_example : proc_yield devices (kernel idle) ≡ none
proc_yield-idle_example =
    proc_yield-idle devices (kernel idle) (rw same_idle idle-IsSettled)
      (rw same_idle (λ j h. ground arith))

abbrev timer_trap : Cpu
timer_trap = record { mhartid = 0; mepc = 77; mcause = 2 ^ 31 + 7; saved = λ i. i }

-- The state behind the interrupt, with slot 2 saved and counted.
abbrev trapped : ProcSet
trapped =
    update (update three 2 (record (three 2) { mepc = 77; saved_registers = λ i. i })) 2
      (record (three 2) { mepc = 77; saved_registers = λ i. i; no_interrupts = 1 })

same_trapped : (at_timer devices timer_trap (kernel three)).procs ≡ trapped
unfolding before_choice account charge_current stop_current save_context count_interrupt
same_trapped =
    ap (λ (r : ProcSet × ℕ). r.0)
      (mlfq_reset_level-early 510 trapped 100 (omega arith) (omega arith) (omega arith)
        (omega arith))

trapped-IsSettled : IsSettled trapped
trapped-IsSettled = record { no_call = λ j h. ground arith; level = λ j h. ground arith }

kernel_entry-timer_example :
    (next : ℕ) × (q : Kernel) × (mepc : ℕ) × (saved : ℕ → ℕ) × (kernel_entry devices timer_trap
        (kernel three)
      ≡ some (record timer_trap { mepc = mepc; saved = saved }, q))
    × IsNext
        (at_timer devices timer_trap (kernel three)).procs
        (curr_proc_idx (at_timer devices timer_trap (kernel three)))
        next
    × (curr_proc_idx q ≡ next)
    × (((at_timer devices timer_trap (kernel three)).procs next).status ≢ ready
        → (mepc ≡ (if 2 == next then 77 else (three next).mepc))
          × (saved ≡ (if 2 == next then timer_trap.saved else (three next).saved_registers)))
    × (((at_timer devices timer_trap (kernel three)).procs next).status ≡ ready
        → (mepc ≡ apps_entry) × (saved 0 ≡ apps_arg) × (saved 1 ≡ apps_arg + 4))
    × (next ≢ 2 → ((q.procs 2).mepc ≡ 77) × ((q.procs 2).saved_registers ≡ timer_trap.saved))
kernel_entry-timer_example =
    kernel_entry-timer devices timer_trap (kernel three) refl (rw same_trapped trapped-IsSettled)
      (rw same_trapped (λ all. cc (all 3 (omega arith))))
