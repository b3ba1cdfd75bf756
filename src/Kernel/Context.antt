-- ===== src/Kernel/Context.antt =====
-- The process context across a trap, in egos-2000/grass/kernel.c: what `kernel_entry` saves and what
-- it restores.
use operating_systems_compon.Base.{
  ℕ, ◌+◌, ◌^◌, ◌≡◌, ◌≢◌, refl, sym, ap, ◌∙◌, ◌==◌, eq→==, ne→==, inl, inr, false, none, some,
  some_inj, update, arith, ltb, if◌then◌else◌, Bool-cases, ℕ-cases, update_self, update_ne,
}
use operating_systems_compon.Process.{
  Process, ProcStatus, ready, running, ◌=s=◌, max_nprocess, proc_set_running,
}
use operating_systems_compon.Kernel.{
  Kernel, Devices, Cpu, curr_proc_idx, curr, set_proc, count_interrupt, before_choice, intr_entry,
  dispatch, save_context, kernel_entry, proc_yield, switch_to, after_choice, stamp, start_new,
  apps_arg, apps_entry,
}
use operating_systems_compon.Kernel.Saved.{
  SameContext, same, trans, proc_set_status-SameContext, before_choice-SameContext,
  count_interrupt-SameContext,
}
use operating_systems_compon.Kernel.Schedule.{IsSettled}
use operating_systems_compon.Kernel.Schedule.Yield.{AllIdle, IsNext, choose-IsNext, proc_yield-Runs}

-- What `start_new` and `stamp` do to a context.
context-start_new :
    (now : ℕ) (p : Process)
    → let q = start_new (stamp now p) in
      (p.status ≢ ready → (q.mepc ≡ p.mepc) × (q.saved_registers ≡ p.saved_registers))
      × (p.status ≡ ready
          → (q.mepc ≡ apps_entry)
            × (q.saved_registers 0 ≡ apps_arg)
            × (q.saved_registers 1 ≡ apps_arg + 4))
unfolding start_new stamp
context-start_new now p = (λ ne. ground (arith, ne_ready p.status), λ e. ground arith)
  where
    ne_ready : (s : ProcStatus) → s ≢ ready → (s =s= ready) ≡ false
    ne_ready ready ne = absurd (ne refl)
    ne_ready _ ne = refl

-- The trap entry saves the context of the current process and of no other.
pub save_context_lem :
    (cpu : Cpu) (k : Kernel)
    → let i = k.core_to_proc_idx cpu.mhartid in
      let t = (save_context cpu k).procs in
      ((t i).saved_registers ≡ cpu.saved)
      × ((t i).mepc ≡ cpu.mepc)
      × ((j : ℕ) → i ≢ j → t j ≡ k.procs j)
unfolding save_context
save_context_lem cpu k =
    let i = k.core_to_proc_idx cpu.mhartid in
    let p = record (k.procs i) { mepc = cpu.mepc; saved_registers = cpu.saved } in
    (
      ap (λ (x : Process). x.saved_registers) (update_self k.procs i p i refl),
      ap (λ (x : Process). x.mepc) (update_self k.procs i p i refl),
      λ j ne. update_ne k.procs i p j ne,
    )

-- What a slot has of the two contexts, the one of the trap and its own.
saved_at :
    (cpu : Cpu) (k : Kernel) (j : ℕ)
    → let i = k.core_to_proc_idx cpu.mhartid in
      let t = (save_context cpu k).procs in
      ((t j).mepc ≡ (if i == j then cpu.mepc else (k.procs j).mepc))
      × ((t j).saved_registers ≡ (if i == j then cpu.saved else (k.procs j).saved_registers))
saved_at cpu k j =
    let i = k.core_to_proc_idx cpu.mhartid in
    let t = (save_context cpu k).procs in
    let (registers, pc, others) = save_context_lem cpu k in
    elim (ℕ-cases i j) [
      | inl e ↦ rw (eq→== i j e) (
        ap (λ (n : ℕ). (t n).mepc) (sym e) ∙ pc,
        ap (λ (n : ℕ). (t n).saved_registers) (sym e) ∙ registers,
      )
      | inr ne ↦ rw (ne→== i j ne) (
        ap (λ (p : Process). p.mepc) (others j ne),
        ap (λ (p : Process). p.saved_registers) (others j ne),
      )
    ]

-- What the end of `proc_yield` does to the contexts of the other slots.
switch_to-SameContext :
    (dev : Devices) (next : ℕ) (k : Kernel) (j : ℕ)
    → next ≢ j
    → SameContext
        (k.procs j)
        ((switch_to dev next (set_proc next (stamp dev.now (k.procs next)) k)).procs j)
unfolding switch_to proc_set_running
switch_to-SameContext dev next k j ne =
    let stamped = update k.procs next (stamp dev.now (k.procs next)) in
    let p = start_new (stamped next) in
    let old : update stamped next p j ≡ k.procs j =
      update_ne stamped next p j ne ∙ update_ne k.procs next _ j ne in
    trans (rw old (same (k.procs j)))
      (proc_set_status-SameContext p.pid running (update stamped next p) j)

switch_to-idx :
    (dev : Devices) (next : ℕ) (k : Kernel) → curr_proc_idx (switch_to dev next k) ≡ next
unfolding switch_to
switch_to-idx dev next k =
    update_self k.core_to_proc_idx k.core_in_kernel next k.core_in_kernel refl

-- `proc_yield` leaves the contexts of the processes that it does not choose.
proc_yield-SameContext :
    (dev : Devices) (k q : Kernel)
    → IsSettled (before_choice dev k).procs
    → proc_yield dev k ≡ some q
    → (j : ℕ) → curr_proc_idx q ≢ j
    → SameContext ((before_choice dev k).procs j) (q.procs j)
unfolding proc_yield after_choice
proc_yield-SameContext dev k q v h j ne =
    let k' = before_choice dev k in
    let (c, e, kc, r) = choose-IsNext k' (curr_proc_idx k') v in
    elim (Bool-cases (ltb c.next_idx max_nprocess)) [
      | inr out ↦ absurd (none_some (rw (e, out) at h))
      | inl inside ↦
          let end = set_proc c.next_idx (stamp dev.now (k'.procs c.next_idx)) k' in
          let is : switch_to dev c.next_idx end ≡ q = some_inj (rw (e, kc, inside) at h) in
          let other : c.next_idx ≢ j =
            λ z. ne (ap curr_proc_idx (sym is) ∙ switch_to-idx dev c.next_idx end ∙ z) in
          rw (← is) (switch_to-SameContext dev c.next_idx k' j other)
    ]
  where
    none_some : {x : Kernel} → none ≡ some x → ⊥
    none_some z = cc

-- The state in which the loop of `proc_yield` starts after a timer interrupt.
abbrev pub at_timer : Devices → Cpu → Kernel → Kernel
at_timer dev cpu k = before_choice dev (count_interrupt (save_context cpu k))

dispatch-timer :
    (dev : Devices) (mcause : ℕ) (k : Kernel)
    → mcause ≡ 2 ^ 31 + 7
    → dispatch dev mcause k ≡ proc_yield dev (count_interrupt k)
unfolding dispatch intr_entry
dispatch-timer dev mcause k e = rw e

-- A timer interrupt, with no system call pending and some process that can run: `kernel_entry`
-- returns to the next process in the order of levels. One that ran before continues with the program
-- counter and registers that were saved for it: those of the trap when it is the process that was
-- interrupted, and else those of its slot; a new one starts at APPS_ENTRY with its two arguments. The process that was interrupted,
-- when it is not the next one, has the program counter and registers of the trap in its slot.
pub kernel_entry-timer :
    (dev : Devices) (cpu : Cpu) (k : Kernel)
    → cpu.mcause ≡ 2 ^ 31 + 7
    → IsSettled (at_timer dev cpu k).procs
    → ¬ AllIdle (at_timer dev cpu k).procs
    → (next : ℕ) × (q : Kernel) × (mepc : ℕ) × (saved : ℕ → ℕ) × (kernel_entry dev cpu k
        ≡ some (record cpu { mepc = mepc; saved = saved }, q))
      × IsNext (at_timer dev cpu k).procs (curr_proc_idx (at_timer dev cpu k)) next
      × (curr_proc_idx q ≡ next)
      × (((at_timer dev cpu k).procs next).status ≢ ready
          → (mepc
              ≡ (if k.core_to_proc_idx cpu.mhartid == next then cpu.mepc else (k.procs next).mepc))
            × (saved ≡ (
                if k.core_to_proc_idx cpu.mhartid == next
                then cpu.saved
                else (k.procs next).saved_registers)))
      × (((at_timer dev cpu k).procs next).status ≡ ready
          → (mepc ≡ apps_entry) × (saved 0 ≡ apps_arg) × (saved 1 ≡ apps_arg + 4))
      × (next ≢ k.core_to_proc_idx cpu.mhartid
          → ((q.procs (k.core_to_proc_idx cpu.mhartid)).mepc ≡ cpu.mepc)
            × ((q.procs (k.core_to_proc_idx cpu.mhartid)).saved_registers ≡ cpu.saved))
unfolding kernel_entry
kernel_entry-timer dev cpu k cause settled busy =
    let k1 = count_interrupt (save_context cpu k) in
    let (next, q, returns, best, runs) = proc_yield-Runs dev k1 settled busy in
    let before =
      trans (count_interrupt-SameContext (save_context cpu k) next)
        (before_choice-SameContext dev k1 next) in
    let here : q.procs (curr_proc_idx q) ≡ _ = ap q.procs runs.idx ∙ runs.process in
    let (old, new) = context-start_new dev.now ((at_timer dev cpu k).procs next) in
    let m = ap (λ (p : Process). p.mepc) here in
    let r = ap (λ (p : Process). p.saved_registers) here in
    (
      next,
      q,
      (curr q).mepc,
      (curr q).saved_registers,
      rw (dispatch-timer dev cpu.mcause (save_context cpu k) cause, returns),
      best,
      runs.idx,
      λ ne.
          let (saved_mepc, saved_registers) = saved_at cpu k next in
          (
            m ∙ (old ne).0 ∙ before.mepc ∙ saved_mepc,
            r ∙ (old ne).1 ∙ before.saved_registers ∙ saved_registers,
          ),
      λ e.
          let (a, b, c) = new e in
          (m ∙ a, ap (λ (f : ℕ → ℕ). f 0) r ∙ b, ap (λ (f : ℕ → ℕ). f 1) r ∙ c),
      λ ne.
          let i = k.core_to_proc_idx cpu.mhartid in
          let (registers, pc, _) = save_context_lem cpu k in
          let kept = trans (count_interrupt-SameContext (save_context cpu k) i) (
            trans (before_choice-SameContext dev k1 i)
              (proc_yield-SameContext dev k1 q settled returns i (λ e. ne (sym runs.idx ∙ e)))) in
          (kept.mepc ∙ pc, kept.saved_registers ∙ registers),
    )
