-- ===== src/Kernel/Keeping/Trap.antt =====
-- The handlers of egos-2000/grass/kernel.c and the trap entry.
use operating_systems_compon.Base.{
  ℕ, ◌^◌, ◌%◌, ◌≡◌, refl, ap, inl, inr, ◌&&◌, Option-cases, none, some, some_inj, ltb, leb, ◌==◌,
  Bool-cases,
}
use operating_systems_compon.Process.{Process, max_nprocess}
use operating_systems_compon.Process.Tame.{with_call-Tame}
use operating_systems_compon.Kernel.{
  Kernel, Devices, Cpu, curr_proc_idx, curr, accept_call, proc_try_syscall, excp_entry,
  count_interrupt, intr_entry, dispatch, save_context, kernel_entry,
}
use operating_systems_compon.Kernel.Keeping.{Keeps, Keeps-refl, Keeps-trans}
use operating_systems_compon.Kernel.Keeping.Calls.{accept_call-Keeps, proc_try_syscall-Keeps}
use operating_systems_compon.Kernel.Keeping.Yield.{if-Keeps, set_proc-Keeps, proc_yield-Keeps}

pub count_interrupt-Keeps : (k : Kernel) → Keeps k (count_interrupt k)
unfolding count_interrupt
count_interrupt-Keeps k =
    if-Keeps (ltb 0 (curr_proc_idx k) && leb (curr_proc_idx k) max_nprocess) k _ k
      (set_proc-Keeps (curr_proc_idx k) _ k
        (with_call-Tame (curr k) _ refl refl refl refl refl refl))
      (Keeps-refl k)

pub save_context-Keeps : (cpu : Cpu) (k : Kernel) → Keeps k (save_context cpu k)
unfolding save_context
save_context-Keeps cpu k =
    let k1 : Kernel = record k { core_in_kernel = cpu.mhartid } in
    let p : Process = record (curr k1) { mepc = cpu.mepc; saved_registers = cpu.saved } in
    let s =
      set_proc-Keeps (curr_proc_idx k1) p k1
        (with_call-Tame (curr k1) p refl refl refl refl refl refl) in
    record { tame = s.tame; cores = λ h. h }

excp_entry-Keeps :
    (dev : Devices) (id : ℕ) (k k' : Kernel) → excp_entry dev id k ≡ some k' → Keeps k k'
unfolding excp_entry
excp_entry-Keeps dev id k k' h = elim (Bool-cases (leb 8 id && leb id 11)) [
  | inl c ↦
      let k1 = accept_call k in
      elim (Option-cases (proc_try_syscall (curr_proc_idx k) k1)) [
        | inl e ↦ let bad : none ≡ some k' = rw (c, e) at h in cc
        | inr (k2, e) ↦ Keeps-trans k k1 k' (accept_call-Keeps k) (
            Keeps-trans k1 k2 k' (proc_try_syscall-Keeps (curr_proc_idx k) k1 k2 e)
              (proc_yield-Keeps dev k2 k' (rw (c, e) at h)))
      ]
  | inr c ↦ let bad : none ≡ some k' = rw c at h in cc
]

intr_entry-Keeps :
    (dev : Devices) (id : ℕ) (k k' : Kernel) → intr_entry dev id k ≡ some k' → Keeps k k'
unfolding intr_entry
intr_entry-Keeps dev id k k' h = elim (Bool-cases (id == 7)) [
  | inl e ↦
      Keeps-trans k (count_interrupt k) k' (count_interrupt-Keeps k)
        (proc_yield-Keeps dev (count_interrupt k) k' (rw e at h))
  | inr e ↦ let bad : none ≡ some k' = rw e at h in cc
]

dispatch-Keeps :
    (dev : Devices) (mcause : ℕ) (k k' : Kernel) → dispatch dev mcause k ≡ some k' → Keeps k k'
unfolding dispatch
dispatch-Keeps dev mcause k k' h = elim (Bool-cases (leb (2 ^ 31) mcause)) [
  | inl e ↦ intr_entry-Keeps dev (mcause % 1024) k k' (rw e at h)
  | inr e ↦ excp_entry-Keeps dev mcause k k' (rw e at h)
]

-- A whole trap.
pub kernel_entry-Keeps :
    (dev : Devices) (cpu cpu' : Cpu) (k k' : Kernel)
    → kernel_entry dev cpu k ≡ some (cpu', k')
    → Keeps k k'
unfolding kernel_entry
kernel_entry-Keeps dev cpu cpu' k k' h =
    let k1 = save_context cpu k in
    elim (Option-cases (dispatch dev cpu.mcause k1)) [
      | inl e ↦ cc
      | inr (k2, e) ↦
          let s : k2 ≡ k' = ap (λ (r : Cpu × Kernel). r.1) (some_inj (rw e at h)) in
          Keeps-trans k k1 k' (save_context-Keeps cpu k)
            (rw s at (dispatch-Keeps dev cpu.mcause k1 k2 e))
    ]
