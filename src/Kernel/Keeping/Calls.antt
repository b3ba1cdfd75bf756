-- ===== src/Kernel/Keeping/Calls.antt =====
-- System calls of egos-2000/grass/kernel.c: `proc_try_send`, `proc_try_recv` and `proc_try_syscall`,
-- and the entry of a call.
use operating_systems_compon.Base.{
  ℕ, ◌≡◌, refl, inl, inr, Option-cases, none, some, some_inj, ◌==◌, ◌>>=◌, Bool-cases, update,
  add32, first_index,
}
use operating_systems_compon.Mmu.{soft_tlb_translate}
use operating_systems_compon.Process.{
  Process, pending, pending_syscall, sys_recv, sys_send, is_pending, runnable, ◌=s=◌, ProcSet,
  max_nprocess, proc_set_status, proc_set_runnable, proc_set_pending,
}
use operating_systems_compon.Process.Tame.{
  Tame, Tame-refl, Tame-trans, proc_set_status-Tame, update-Tame, with_call-Tame,
}
use operating_systems_compon.Kernel.{
  Kernel, curr_proc_idx, curr, give, waits, takes_from, receives, deliver, proc_try_send,
  finish_recv, proc_try_recv, proc_try_syscall, accept_call, retry, syscall_arg, page_of,
}
use operating_systems_compon.Kernel.Layout.{load_syscall}
use operating_systems_compon.Kernel.Keeping.{Keeps, Keeps-refl, Keeps-procs}

deliver-Tame : (sender : Process) (d : ℕ) (t : ProcSet) (j : ℕ) → Tame (t j) (deliver sender d t j)
unfolding deliver give
deliver-Tame sender d t j = elim (Bool-cases (waits (t d))) [
  | inl w ↦ elim (Bool-cases (takes_from (t d) sender)) [
    | inl f ↦ rw (w, f) (update-Tame d _ t (with_call-Tame (t d) _ refl refl refl refl refl refl) j)
    | inr nf ↦ rw (w, nf) (Tame-refl (t j))
  ]
  | inr nw ↦ rw nw (Tame-refl (t j))
]

proc_try_send-Tame :
    (i : ℕ) (t t' : ProcSet) → proc_try_send i t ≡ some t' → (j : ℕ) → Tame (t j) (t' j)
unfolding proc_try_send
proc_try_send-Tame i t t' h j =
    elim (Option-cases (first_index (receives (t i) t) max_nprocess 0)) [
      | inl e ↦ cc
      | inr (d, e) ↦
          let s : deliver (t i) d t ≡ t' = some_inj (rw e at h) in
          rw (← s) (deliver-Tame (t i) d t j)
    ]

pub finish_recv-Keeps : (i : ℕ) (k : Kernel) → Keeps k (finish_recv i k)
unfolding finish_recv proc_set_runnable
finish_recv-Keeps i k =
    let t = proc_set_status (k.procs i).pid runnable k.procs in
    Keeps-procs k _ refl (λ j.
      Tame-trans (proc_set_status-Tame (k.procs i).pid runnable k.procs j)
        (proc_set_status-Tame (t i).syscall.sender runnable t j))

proc_try_recv-Keeps : (i : ℕ) (k : Kernel) → Keeps k (proc_try_recv i k)
unfolding proc_try_recv
proc_try_recv-Keeps i k = elim (Bool-cases (is_pending (k.procs i).syscall.status)) [
  | inl h ↦ rw h (Keeps-refl k)
  | inr h ↦ rw h (finish_recv-Keeps i k)
]

send-Keeps :
    (i : ℕ) (k k' : Kernel)
    → (do t ← proc_try_send i k.procs; some (record k { procs = t })) ≡ some k'
    → Keeps k k'
send-Keeps i k k' h = elim (Option-cases (proc_try_send i k.procs)) [
  | inl e ↦ cc
  | inr (t, e) ↦
      let s : record k { procs = t } ≡ k' = some_inj (rw e at h) in
      rw (← s) (Keeps-procs k _ refl (proc_try_send-Tame i k.procs t e))
]

pub proc_try_syscall-Keeps : (i : ℕ) (k k' : Kernel) → proc_try_syscall i k ≡ some k' → Keeps k k'
unfolding proc_try_syscall
proc_try_syscall-Keeps i k k' h = elim (Bool-cases ((k.procs i).syscall.kind == sys_recv)) [
  | inl r ↦ rw (← some_inj (rw r at h)) (proc_try_recv-Keeps i k)
  | inr nr ↦ elim (Bool-cases ((k.procs i).syscall.kind == sys_send)) [
    | inl s ↦ send-Keeps i k k' (rw (nr, s) at h)
    | inr ns ↦ let bad : none ≡ some k' = rw (nr, ns) at h in cc
  ]
]

pub accept_call-Keeps : (k : Kernel) → Keeps k (accept_call k)
unfolding accept_call proc_set_pending
accept_call-Keeps k =
    let i = curr_proc_idx k in
    let m = (soft_tlb_translate (curr k).pid syscall_arg k.mmu).1 in
    let sc = load_syscall (m.mem (page_of (soft_tlb_translate (curr k).pid syscall_arg k.mmu).0)) in
    let p = record (curr k) { syscall = record sc { status = pending } } in
    let t = update k.procs i p in
    let t' = proc_set_status (t i).pid pending_syscall t in
    Keeps-procs k _ refl (λ j.
      Tame-trans
        (update-Tame i p k.procs (with_call-Tame (curr k) p refl refl refl refl refl refl) j)
        (Tame-trans (proc_set_status-Tame (t i).pid pending_syscall t j) (
          update-Tame i (record (t' i) { mepc = add32 (t' i).mepc 4 }) t'
            (with_call-Tame (t' i) _ refl refl refl refl refl refl) j)))

pub retry-Keeps : (j : ℕ) (k k' : Kernel) → retry j k ≡ some k' → Keeps k k'
unfolding retry
retry-Keeps j k k' h = elim (Bool-cases ((k.procs j).status =s= pending_syscall)) [
  | inl p ↦ proc_try_syscall-Keeps j k k' (rw p at h)
  | inr np ↦ rw (← some_inj (rw np at h)) (Keeps-refl k)
]
