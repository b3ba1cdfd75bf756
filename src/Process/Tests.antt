-- ===== src/Process/Tests.antt =====
-- Runs of the process table, and instances of its theorems.
use operating_systems_compon.Base.{
  ℕ, ◌+◌, ◌-◌, ◌*◌, ◌^◌, ◌≤◌, ◌<◌, ◌≡◌, ◌≢◌, refl, true, false, ◌&&◌, ◌%◌, ◌==◌, zero, suc, some,
  [], ◌∷◌, ◌++◌, arith, ltb, if◌then◌else◌, update, first_index, add32,
}
use operating_systems_compon.Mmu.{zero_info, apps_pages_cnt, owned}
use operating_systems_compon.Process.{
  Process, Syscall, pending, ProcStatus, unused, loading, ready, running, runnable, ProcSet,
  max_nprocess, gpid_all, Allocated, proc_alloc, take_slot, fresh_process, proc_set_ready,
  proc_set_status, mlfq_update_level, mlfq_reset_level, Release, proc_free, Stats, is_user,
}
use operating_systems_compon.Process.Status.{
  IsTable, with_status, proc_set_status_lem, proc_set_status-IsTable, proc_set_status-ne,
}
use operating_systems_compon.Process.Alloc.{proc_alloc-some, proc_set_ready-last_slot}
use operating_systems_compon.Process.Free.{proc_free-user, proc_free-all, killed}
use operating_systems_compon.Process.Mlfq.{
  IsQueued, mlfq_update_level-exact, mlfq_update_level-ne, mlfq_reset_level-period,
  mlfq_reset_level-early,
}

abbrev no_call : Syscall
no_call = record { kind = 0; sender = 0; receiver = 0; content = []; status = pending }

abbrev empty_slot : Process
empty_slot = record {
  pid = 0;
  syscall = no_call;
  status = unused;
  mepc = 0;
  saved_registers = λ _. 0;
  mlfq_level = 0;
  remainingt_onlevel = 0;
  current_level_runtime = 0;
  total_runtime = 0;
  sleep_until_time = 0;
  time_created = 0;
  time_terminated = 0;
  cpu_runtime = 0;
  no_interrupts = 0;
  time_first_scheduled = 0;
  time_last_scheduled = 0;
}

abbrev proc : ℕ → ProcStatus → Process
proc pid status = record empty_slot { pid = pid; status = status; remainingt_onlevel = 100000 }

-- A shell and two applications.
abbrev table : ProcSet
table =
    update (update (update (λ _. empty_slot) 1 (proc 4 running)) 2 (proc 5 runnable)) 3
      (proc 6 runnable)

-- Slots 1 to 15 are taken.
abbrev crowded : ProcSet
crowded = λ i. if ltb 0 i && ltb i 16 then proc i runnable else empty_slot

abbrev release : Release
release = record { procs = table; pages = λ _. zero_info; log = [] }

table-IsTable : IsTable 6 table
table-IsTable = record { below = λ i. ground arith; apart = λ i j h e. ground arith }

proc_set_status-IsTable_example : IsTable 6 (proc_set_status 5 ready table)
proc_set_status-IsTable_example = proc_set_status-IsTable 6 5 ready table table-IsTable

proc_set_status-ne_example : proc_set_status 5 ready table 3 ≡ table 3
proc_set_status-ne_example =
    proc_set_status-ne 6 2 3 ready table table-IsTable (omega arith) (omega arith)

proc_set_status_lem_example :
    proc_set_status 5 ready table 2
    ≡ (if ltb 2 max_nprocess then with_status 5 ready (table 2) else table 2)
proc_set_status_lem_example = proc_set_status_lem 5 ready table 2

abbrev spawned : Allocated
spawned = record { pid = 7; procs = update table 4 (fresh_process 900 7 (table 4)); curr_pid = 7 }

spawns : proc_alloc 900 6 table ≡ some spawned
unfolding proc_alloc take_slot first_index
spawns = refl

proc_alloc-some_example :
    (k : ℕ) × (0 < k)
    × (k ≤ max_nprocess)
    × ((table k).status ≡ unused)
    × ((j : ℕ) → 0 < j → j < k → (table j).status ≢ unused)
    × (spawned.procs k ≡ fresh_process 900 spawned.pid (table k))
    × (spawned.pid ≡ add32 6 1)
    × (spawned.curr_pid ≡ spawned.pid)
    × ((j : ℕ) → k ≢ j → spawned.procs j ≡ table j)
proc_alloc-some_example = proc_alloc-some 900 6 table spawned spawns

abbrev last_spawned : Allocated
last_spawned = record {
  pid = 17;
  procs = update crowded 16 (fresh_process 900 17 (crowded 16));
  curr_pid = 17;
}

spawns_last : proc_alloc 900 16 crowded ≡ some last_spawned
unfolding proc_alloc take_slot first_index
spawns_last = refl

proc_set_ready-last_slot_example :
    ((last_spawned.procs 16).pid ≡ 17)
    × ((proc_set_ready 17 last_spawned.procs 16).status ≡ loading)
proc_set_ready-last_slot_example =
    proc_set_ready-last_slot 900 16 crowded last_spawned (λ j lo hi. ground arith) spawns_last

-- The shell is no user process, so releasing it while it is alone changes nothing.
abbrev shell_alone : Release
shell_alone = record release { procs = update (λ _. empty_slot) 1 (proc 4 running) }

-- Process 6, which has every other page, is released, and the statistics of process 5 are printed.
abbrev striped : Release
striped = record release {
  pages = λ i. record { used = 1; pid = if i % 2 == 0 then 6 else 5; vpage_no = i };
}

proc_free-user_example :
    let q = proc_free (λ _. 50) 6 striped in
    let printed : Stats = record {
      pid = 5;
      turnaround_time = 50;
      response_time = 0;
      cpu_time = 0;
      no_interrupts = 0;
    } in
    (q.log ≡ [] ++ (printed ∷ []))
    × ((i : ℕ) → i < apps_pages_cnt → owned striped.pages 6 i ≡ true → q.pages i ≡ zero_info)
    × ((i : ℕ) → owned striped.pages 6 i ≡ false → q.pages i ≡ striped.pages i)
    × ((j : ℕ) → j < max_nprocess → (table j).pid ≡ 6 → (q.procs j).status ≡ unused)
    × ((table 2).pid ≢ 6 → q.procs 2 ≡ record (table 2) { time_terminated = 50 })
    × ((j : ℕ) → j ≢ 2 → (table j).pid ≢ 6 → q.procs j ≡ table j)
unfolding is_user
proc_free-user_example =
    proc_free-user (λ _. 50) 6 striped 2 (omega arith) (omega arith) user_2 no_user_before
  where
    user_2 : is_user (table 2) ≡ true
    user_2 = refl

    no_user_before : (j : ℕ) → j < 2 → is_user (table j) ≡ false
    no_user_before zero lt = refl
    no_user_before (suc zero) lt = refl
    no_user_before (suc (suc j)) lt = absurd (omega arith)

proc_free-all_example :
    let q = proc_free (λ _. 50) gpid_all release in
    ((j : ℕ) → j < max_nprocess → q.procs j ≡ killed 50 (table j))
    × ((j : ℕ) → max_nprocess ≤ j → q.procs j ≡ table j)
    × ((j : ℕ)
        → j < max_nprocess
        → is_user (table j) ≡ true
        → (i : ℕ) → i < apps_pages_cnt
        → owned q.pages (table j).pid i ≡ false)
proc_free-all_example = proc_free-all (λ _. 50) release

proc-IsQueued : IsQueued (proc 5 running)
proc-IsQueued = omega arith

mlfq_update_level-exact_example :
    let q = mlfq_update_level 100000 (proc 5 running) in
    (q.mlfq_level ≡ 1)
    × (q.remainingt_onlevel ≡ (q.mlfq_level + 1) * 100000)
    × (q.current_level_runtime ≡ 0)
    × (q.total_runtime ≡ 100000)
    × (q.cpu_runtime ≡ 100000)
mlfq_update_level-exact_example = mlfq_update_level-exact 100000 (proc 5 running) proc-IsQueued refl

-- One microsecond too long on level 0.
mlfq_update_level-ne_example :
    let q = mlfq_update_level 100001 (proc 5 running) in
    (q.mlfq_level ≡ 0) × (q.remainingt_onlevel ≡ 2 ^ 64 - 1) × (q.current_level_runtime ≡ 100001)
mlfq_update_level-ne_example =
    mlfq_update_level-ne 100001 (proc 5 running) proc-IsQueued (omega arith) (omega arith)

mlfq_reset_level-period_example :
    let r = mlfq_reset_level true 10000007 table 7 in
    (r.1 ≡ 10000007)
    × ((j : ℕ) → j < max_nprocess → (table j).status ≢ unused → (r.0 j).mlfq_level ≡ 0)
    × ((j : ℕ) → ((r.0 j).status ≡ (table j).status) × ((r.0 j).pid ≡ (table j).pid))
mlfq_reset_level-period_example =
    mlfq_reset_level-period true 10000007 table 7 (omega arith) (omega arith) (omega arith)

mlfq_reset_level-early_example : mlfq_reset_level false 10000006 table 7 ≡ (table, 7)
mlfq_reset_level-early_example =
    mlfq_reset_level-early 10000006 table 7 (omega arith) (omega arith) (omega arith) (omega arith)
