-- ===== src/Kernel/Message.antt =====
-- System calls between processes, `proc_try_send` and `proc_try_recv` of egos-2000/grass/kernel.c:
-- what a send does to the table.
pub mod Rendezvous
use operating_systems_compon.Base.{
  ℕ, zero, suc, ◌+◌, ◌-◌, ◌^◌, ◌≤◌, ◌<◌, ◌≡◌, ◌≢◌, refl, sym, ap, ◌∙◌, ◌⊎◌, inl, inr, Bool, true,
  false, ◌&&◌, ◌||◌, not, Option, none, some, arith, ltb, leb, ◌==◌, if◌then◌else◌, ◌>>=◌,
  Bool-cases, ℕ-cases, Option-cases, eq→==, ne→==, ==→eq, update, update_self, update_ne,
  first_index, first_index-some, first_index-first, first_index-none, length, some_inj,
}
use operating_systems_compon.Mmu.{Mmu, soft_tlb_switch, soft_tlb_translate}
use operating_systems_compon.Process.{
  Process, Syscall, CallStatus, pending, done, is_pending, sys_recv, sys_send, ProcStatus, unused,
  runnable, pending_syscall, rank, ◌=s=◌, ProcSet, max_nprocess, gpid_all, proc_set_status,
  proc_set_runnable,
}
use operating_systems_compon.Process.Status.{
  IsTable, with_status, proc_set_status_lem, proc_set_status-ne, proc_set_status_self,
  proc_set_status-IsTable, pid-proc_set_status,
}
use operating_systems_compon.Kernel.{
  Kernel, waits, takes_from, give, deliver, receives, proc_try_send, finish_recv, proc_try_recv,
  proc_try_syscall, write_syscall, page_of, syscall_arg,
}
use operating_systems_compon.Kernel.Layout.{load_syscall, store_syscall, syscall_msg_len}
use operating_systems_compon.Kernel.Layout.Roundtrip.{Fits, load_syscall-store_syscall}

-- Process `p` waits for a message from pid `from`, or from anybody.
pub record IsWaiting (p : Process) (from : ℕ) : Type 0 where
  pub kind : p.syscall.kind ≡ sys_recv
  pub status : p.syscall.status ≡ pending
  pub sender : (p.syscall.sender ≡ gpid_all) ⊎ (p.syscall.sender ≡ from)

ne_unused : (s : ProcStatus) → s ≢ unused → (s =s= unused) ≡ false
ne_unused unused ne = absurd (ne refl)
ne_unused _ ne = refl

IsWaiting-true :
    (p sender : Process) → IsWaiting p sender.pid → (waits p ≡ true) × (takes_from p sender ≡ true)
unfolding waits takes_from
IsWaiting-true p sender w = ground arith

true-IsWaiting :
    (p sender : Process) → waits p ≡ true → takes_from p sender ≡ true → IsWaiting p sender.pid
unfolding waits takes_from
true-IsWaiting p sender w f = record {
  kind = ground arith;
  status = ground arith;
  sender = ground arith;
}

deliver-waiting :
    (sender : Process) (d : ℕ) (t : ProcSet)
    → IsWaiting (t d) sender.pid
    → deliver sender d t ≡ update t d (give sender (t d))
unfolding deliver
deliver-waiting sender d t w = ground (arith, IsWaiting-true (t d) sender w)

deliver-not_waiting :
    (sender : Process) (d : ℕ) (t : ProcSet) → ¬ IsWaiting (t d) sender.pid → deliver sender d t ≡ t
unfolding deliver
deliver-not_waiting sender d t no_wait = elim (Bool-cases (waits (t d))) [
  | inl w ↦ elim (Bool-cases (takes_from (t d) sender)) [
    | inl f ↦ absurd (no_wait (true-IsWaiting (t d) sender w f))
    | inr nf ↦ rw (w, nf)
  ]
  | inr nw ↦ rw nw
]

receives-true :
    (sender : Process) (t : ProcSet) (d : ℕ)
    → (t d).pid ≡ sender.syscall.receiver
    → (t d).status ≢ unused
    → receives sender t d ≡ true
unfolding receives
receives-true sender t d e live = ground (arith, ne_unused (t d).status)

receives-pid :
    (sender : Process) (t : ProcSet) (d : ℕ)
    → receives sender t d ≡ true
    → (t d).pid ≡ sender.syscall.receiver
unfolding receives
receives-pid sender t d h = ground arith

receives-live :
    (sender : Process) (t : ProcSet) (d : ℕ) → receives sender t d ≡ true → (t d).status ≢ unused
unfolding receives
receives-live sender t d h = ground arith

-- With unique pids, the slot that a send finds is the one of its receiver.
receiver_found :
    (curr_pid i d : ℕ) (t : ProcSet)
    → IsTable curr_pid t
    → d < max_nprocess
    → (t d).pid ≢ 0
    → (t d).status ≢ unused
    → (t i).syscall.receiver ≡ (t d).pid
    → first_index (receives (t i) t) max_nprocess 0 ≡ some d
receiver_found curr_pid i d t v hd pid live to =
    elim (Option-cases (first_index (receives (t i) t) max_nprocess 0)) [
      | inl missing ↦
          absurd (
            no_false
              (first_index-none (receives (t i) t) max_nprocess 0 missing d (omega arith) hd))
      | inr (k, found) ↦
          found ∙ ap some (same (first_index-some (receives (t i) t) max_nprocess 0 k found).2)
    ]
  where
    hit : receives (t i) t d ≡ true
    hit = receives-true (t i) t d (sym to) live

    no_false : receives (t i) t d ≡ false → ⊥
    no_false e = cc (hit)

    same : {k : ℕ} → receives (t i) t k ≡ true → k ≡ d
    same {k} e =
        let pk : (t k).pid ≡ (t i).syscall.receiver = receives-pid (t i) t k e in
        sym (v.apart d k pid (sym (pk ∙ to)))

-- A send to a live process of slots 0 to 15: a receiver that waits for the sender, or for anybody,
-- gets the content and the sender's pid, its call is done, and nothing else changes; a receiver that
-- does not wait leaves the table as it is.
pub proc_try_send-live :
    (curr_pid i d : ℕ) (t : ProcSet)
    → IsTable curr_pid t
    → d < max_nprocess
    → (t d).pid ≢ 0
    → (t d).status ≢ unused
    → (t i).syscall.receiver ≡ (t d).pid
    → (IsWaiting (t d) (t i).pid
        → proc_try_send i t
          ≡ some (
              update t d (record (t d) {
                syscall = record ((t d).syscall) {
                  status = done;
                  sender = (t i).pid;
                  content = (t i).syscall.content;
                };
              })))
      × (¬ IsWaiting (t d) (t i).pid → proc_try_send i t ≡ some t)
unfolding proc_try_send give
proc_try_send-live curr_pid i d t v hd pid live to =
    let found = receiver_found curr_pid i d t v hd pid live to in
    (
      λ w. rw (found, deliver-waiting (t i) d t w),
      λ nw. rw (found, deliver-not_waiting (t i) d t nw),
    )

-- A send to a pid that no live process of slots 0 to 15 has stops the kernel.
proc_try_send-unknown :
    (i : ℕ) (t : ProcSet)
    → ((d : ℕ) → d < max_nprocess → (t d).pid ≡ (t i).syscall.receiver → (t d).status ≡ unused)
    → proc_try_send i t ≡ none
unfolding proc_try_send
proc_try_send-unknown i t dead =
    elim (Option-cases (first_index (receives (t i) t) max_nprocess 0)) [
      | inl missing ↦ rw missing
      | inr (k, found) ↦
          let (lo, hi, hit) = first_index-some (receives (t i) t) max_nprocess 0 k found in
          absurd (receives-live (t i) t k hit (dead k hi (receives-pid (t i) t k hit)))
    ]
