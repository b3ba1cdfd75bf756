-- ===== src/Kernel/Message/Rendezvous.antt =====
-- The rendezvous of a sender and a waiting receiver: `proc_try_send`, then `proc_try_recv`, of
-- egos-2000/grass/kernel.c.
use operating_systems_compon.Base.{
  ℕ, ◌<◌, ◌≡◌, ◌≢◌, refl, sym, ap, ◌∙◌, inl, inr, some, ◌>>=◌, ℕ-cases, update, update_self,
  update_ne,
}
use operating_systems_compon.Mmu.{soft_tlb_switch, soft_tlb_translate}
use operating_systems_compon.Process.{
  Process, done, sys_recv, sys_send, unused, runnable, ProcSet, max_nprocess, proc_set_status,
  proc_set_runnable,
}
use operating_systems_compon.Process.Status.{
  IsTable, proc_set_status-ne, proc_set_status_self, proc_set_status-IsTable,
}
use operating_systems_compon.Kernel.{
  Kernel, give, finish_recv, proc_try_recv, proc_try_syscall, write_syscall, page_of, syscall_arg,
}
use operating_systems_compon.Kernel.Layout.{load_syscall}
use operating_systems_compon.Kernel.Layout.Roundtrip.{Fits, load_syscall-store_syscall}
use operating_systems_compon.Kernel.Message.{IsWaiting, proc_try_send-live}

module _ (curr_pid d : ℕ) (k : Kernel) (v : IsTable curr_pid k.procs) where
  -- What a finished receive call leaves behind, where the sender is the process in slot `i`.
  record Finished (i : ℕ) (q : Kernel) : Type 0 where
    receiver : q.procs d ≡ record (k.procs d) { status = runnable }
    sender : q.procs i ≡ record (k.procs i) { status = runnable }
    other : (j : ℕ) → j ≢ d → j ≢ i → q.procs j ≡ k.procs j
    message : load_syscall (q.mmu.mem (page_of syscall_arg)) ≡ (k.procs d).syscall

  finish_recv-Finished :
      (i : ℕ)
      → i ≢ d
      → i < max_nprocess
      → d < max_nprocess
      → (k.procs i).pid ≢ 0
      → (k.procs d).pid ≢ 0
      → (k.procs d).syscall.sender ≡ (k.procs i).pid
      → Fits (k.procs d).syscall
      → Finished i (finish_recv d k)
  unfolding finish_recv proc_set_runnable write_syscall soft_tlb_translate
  finish_recv-Finished i ne hi hd pi pd from fits =
      let t = proc_set_status (k.procs d).pid runnable k.procs in
      let here : t d ≡ record (k.procs d) { status = runnable } =
        proc_set_status_self d runnable k.procs hd in
      let there : t i ≡ k.procs i =
        proc_set_status-ne curr_pid d i runnable k.procs v pd (λ e. ne (sym e)) in
      let v' = proc_set_status-IsTable curr_pid (k.procs d).pid runnable k.procs v in
      let from' : (t d).syscall.sender ≡ (t i).pid =
        ap (λ (p : Process). p.syscall.sender) here
        ∙ from
        ∙ sym (ap (λ (p : Process). p.pid) there) in
      let pi' : (t i).pid ≢ 0 = λ e. pi (sym (ap (λ (p : Process). p.pid) there) ∙ e) in
      rw from' (record {
        receiver = proc_set_status-ne curr_pid i d runnable t v' pi' ne ∙ here;
        sender =
            proc_set_status_self i runnable t hi
            ∙ ap (λ (p : Process). record p { status = runnable }) there;
        other = λ j nd ni.
            proc_set_status-ne curr_pid i j runnable t v' pi' (λ e. ni (sym e))
            ∙ proc_set_status-ne curr_pid d j runnable k.procs v pd (λ e. nd (sym e));
        message =
            ap load_syscall (
              update_self (soft_tlb_switch (k.procs d).pid k.mmu).mem (page_of syscall_arg) _
                (page_of syscall_arg) refl)
            ∙ load_syscall-store_syscall (k.procs d).syscall _ fits;
      })

pid-give : (p q : Process) → (give p q).pid ≡ q.pid
unfolding give
pid-give p q = refl

-- A message changes no pid.
give-IsTable :
    (curr_pid i d : ℕ) (t : ProcSet)
    → IsTable curr_pid t
    → IsTable curr_pid (update t d (give (t i) (t d)))
give-IsTable curr_pid i d t v = record {
  below = λ j. rw (same j) (v.below j);
  apart = λ j j'. rw (same j, same j') (v.apart j j');
}
  where
    same : (j : ℕ) → (update t d (give (t i) (t d)) j).pid ≡ (t j).pid
    same j = elim (ℕ-cases d j) [
      | inl e ↦
          ap (λ (p : Process). p.pid) (update_self t d _ j e)
          ∙ pid-give (t i) (t d)
          ∙ ap (λ (x : ℕ). (t x).pid) e
      | inr ne ↦ ap (λ (p : Process). p.pid) (update_ne t d _ j ne)
    ]

send_step :
    (curr_pid i d : ℕ) (k : Kernel)
    → IsTable curr_pid k.procs
    → d < max_nprocess
    → (k.procs d).pid ≢ 0
    → (k.procs d).status ≢ unused
    → (k.procs i).syscall.kind ≡ sys_send
    → (k.procs i).syscall.receiver ≡ (k.procs d).pid
    → IsWaiting (k.procs d) (k.procs i).pid
    → proc_try_syscall i k
      ≡ some (record k { procs = update k.procs d (give (k.procs i) (k.procs d)) })
unfolding proc_try_syscall give
send_step curr_pid i d k v hd pd live send to w =
    rw (send, (proc_try_send-live curr_pid i d k.procs v hd pd live to).0 w)

recv_step :
    (d : ℕ) (k : Kernel)
    → (k.procs d).syscall.kind ≡ sys_recv
    → (k.procs d).syscall.status ≡ done
    → proc_try_syscall d k ≡ some (finish_recv d k)
unfolding proc_try_syscall proc_try_recv
recv_step d k kind status = rw (kind, status)

sender-give : (p q : Process) → (give p q).syscall.sender ≡ p.pid
unfolding give
sender-give p q = refl

kind-give : (p q : Process) → (give p q).syscall.kind ≡ q.syscall.kind
unfolding give
kind-give p q = refl

status-give : (p q : Process) → (give p q).syscall.status ≡ done
unfolding give
status-give p q = refl

-- The two calls in terms of `give`.
rendezvous_step :
    (curr_pid i d : ℕ) (k : Kernel)
    → IsTable curr_pid k.procs
    → i ≢ d
    → i < max_nprocess
    → d < max_nprocess
    → (k.procs i).pid ≢ 0
    → (k.procs d).pid ≢ 0
    → (k.procs d).status ≢ unused
    → (k.procs i).syscall.kind ≡ sys_send
    → (k.procs i).syscall.receiver ≡ (k.procs d).pid
    → IsWaiting (k.procs d) (k.procs i).pid
    → Fits (give (k.procs i) (k.procs d)).syscall
    → (q : Kernel) × ((proc_try_syscall i k >>= proc_try_syscall d) ≡ some q)
      × ((q.procs i) ≡ record (k.procs i) { status = runnable })
      × ((q.procs d) ≡ record (give (k.procs i) (k.procs d)) { status = runnable })
      × ((j : ℕ) → j ≢ d → j ≢ i → q.procs j ≡ k.procs j)
      × (load_syscall (q.mmu.mem (page_of syscall_arg)) ≡ (give (k.procs i) (k.procs d)).syscall)
rendezvous_step curr_pid i d k v ne hi hd pi pd live send to w fits =
    let p = give (k.procs i) (k.procs d) in
    let k1 = record k { procs = update k.procs d p } in
    let at_d = update_self k.procs d p d refl in
    let at_i = update_ne k.procs d p i (λ e. ne (sym e)) in
    let f =
      finish_recv-Finished curr_pid d k1 (give-IsTable curr_pid i d k.procs v) i ne hi hd
        (rw at_i pi) (rw (at_d, pid-give) pd)
        (rw (at_d, at_i) (sender-give (k.procs i) (k.procs d))) (rw at_d fits) in
    (
      finish_recv d k1,
      rw (send_step curr_pid i d k v hd pd live send to w) (
          recv_step d k1 (rw at_d (kind-give (k.procs i) (k.procs d) ∙ w.kind))
            (rw at_d (status-give (k.procs i) (k.procs d)))),
      f.sender ∙ ap (λ (x : Process). record x { status = runnable }) at_i,
      f.receiver ∙ ap (λ (x : Process). record x { status = runnable }) at_d,
      λ j nd ni. f.other j nd ni ∙ update_ne k.procs d p j (λ e. nd (sym e)),
      f.message ∙ ap (λ (x : Process). x.syscall) at_d,
    )

-- Process `i` has sent to process `d`, which waits for it: trying the two pending calls one after
-- the other succeeds, makes both processes runnable and leaves every other process as it was. The
-- page at SYSCALL_ARG, with the receiver mapped in, then reads as the call of the receiver, done, with
-- the sender's pid and content.
pub send-recv :
    (curr_pid i d : ℕ) (k : Kernel)
    → IsTable curr_pid k.procs
    → i ≢ d
    → i < max_nprocess
    → d < max_nprocess
    → (k.procs i).pid ≢ 0
    → (k.procs d).pid ≢ 0
    → (k.procs d).status ≢ unused
    → (k.procs i).syscall.kind ≡ sys_send
    → (k.procs i).syscall.receiver ≡ (k.procs d).pid
    → IsWaiting (k.procs d) (k.procs i).pid
    → Fits (record ((k.procs d).syscall) {
      status = done;
      sender = (k.procs i).pid;
      content = (k.procs i).syscall.content;
    })
    → let message = record ((k.procs d).syscall) {
      status = done;
      sender = (k.procs i).pid;
      content = (k.procs i).syscall.content;
    } in
      (q : Kernel) × ((proc_try_syscall i k >>= proc_try_syscall d) ≡ some q)
      × ((q.procs i) ≡ record (k.procs i) { status = runnable })
      × ((q.procs d) ≡ record (k.procs d) { status = runnable; syscall = message })
      × ((j : ℕ) → j ≢ d → j ≢ i → q.procs j ≡ k.procs j)
      × (load_syscall (q.mmu.mem (page_of syscall_arg)) ≡ message)
unfolding give
send-recv curr_pid i d k v ne hi hd pi pd live send to w fits =
    rendezvous_step curr_pid i d k v ne hi hd pi pd live send to w fits
