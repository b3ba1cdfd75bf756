-- ===== src/Process/Alloc.antt =====
-- `proc_alloc` of egos-2000/grass/process.c: the slot that it takes, the pid that it gives, and what
-- becomes of a process in the last slot.
use operating_systems_compon.Base.{
  ℕ, suc, ◌+◌, ◌^◌, ◌≤◌, ◌<◌, ◌≡◌, ◌≢◌, refl, sym, ap, ◌∙◌, inl, inr, Bool, true, false, Option,
  none, some, arith, ℕ-cases, some_inj, first_index, first_index-some, first_index-first,
  first_index-none, add32, update, update_self, update_ne,
}
use operating_systems_compon.Process.{
  Process, ProcStatus, unused, loading, ready, ProcSet, max_nprocess, ◌=s=◌, Allocated, take_slot,
  proc_alloc, fresh_process, proc_set_ready,
}
use operating_systems_compon.Process.Status.{IsTable, proc_set_status_lem}

abbrev is_unused : ProcSet → ℕ → Bool
is_unused t i = (t i).status =s= unused

eq_unused : (s : ProcStatus) → (s =s= unused) ≡ true → s ≡ unused
eq_unused s h = ground arith

ne_unused : (s : ProcStatus) → (s =s= unused) ≡ false → s ≢ unused
ne_unused s h = ground arith

-- The slot that `proc_alloc` takes for the result `a`.
pub record Takes (now curr_pid : ℕ) (t : ProcSet) (a : Allocated) (k : ℕ) : Type 0 where
  pub found : first_index (is_unused t) max_nprocess 1 ≡ some k
  pub pid : a.pid ≡ add32 curr_pid 1
  pub counter : a.curr_pid ≡ add32 curr_pid 1
  pub procs : a.procs ≡ update t k (fresh_process now (add32 curr_pid 1) (t k))

take_slot-some :
    (now curr_pid : ℕ) (t : ProcSet) (o : Option ℕ) (a : Allocated)
    → first_index (is_unused t) max_nprocess 1 ≡ o
    → take_slot now curr_pid t o ≡ some a
    → (k : ℕ) × Takes now curr_pid t a k
unfolding take_slot
take_slot-some now curr_pid t none a f h = cc
take_slot-some now curr_pid t (some k) a f h =
    let e = some_inj h in
    (
      k,
      record {
        found = f;
        pid = sym (ap (λ (x : Allocated). x.pid) e);
        counter = sym (ap (λ (x : Allocated). x.curr_pid) e);
        procs = sym (ap (λ (x : Allocated). x.procs) e);
      },
    )

pub proc_alloc-Takes :
    (now curr_pid : ℕ) (t : ProcSet) (a : Allocated)
    → proc_alloc now curr_pid t ≡ some a
    → (k : ℕ) × Takes now curr_pid t a k
unfolding proc_alloc
proc_alloc-Takes now curr_pid t a h = take_slot-some now curr_pid t _ a refl h

-- What `proc_alloc` returns when it does return: the lowest unused slot from 1 to 16 holds a
-- loading process with the next pid, at level 0 of the queue with that level's time, created now
-- and never scheduled; every other slot is as it was.
pub proc_alloc-some :
    (now curr_pid : ℕ) (t : ProcSet) (a : Allocated)
    → proc_alloc now curr_pid t ≡ some a
    → (k : ℕ) × (0 < k)
      × (k ≤ max_nprocess)
      × ((t k).status ≡ unused)
      × ((j : ℕ) → 0 < j → j < k → (t j).status ≢ unused)
      × (a.procs k ≡ fresh_process now a.pid (t k))
      × (a.pid ≡ add32 curr_pid 1)
      × (a.curr_pid ≡ a.pid)
      × ((j : ℕ) → k ≢ j → a.procs j ≡ t j)
proc_alloc-some now curr_pid t a h =
    let (k, s) = proc_alloc-Takes now curr_pid t a h in
    let (lo, hi, free) = first_index-some (is_unused t) max_nprocess 1 k s.found in
    (
      k,
      omega arith,
      omega arith,
      eq_unused _ free,
      λ j lo' hi'. ne_unused _ (first_index-first (is_unused t) max_nprocess 1 k s.found j lo' hi'),
      ap (λ (u : ProcSet). u k) s.procs
          ∙ update_self t k _ k refl
          ∙ ap (λ (x : ℕ). fresh_process now x (t k)) (sym s.pid),
      s.pid,
      s.counter ∙ sym s.pid,
      λ j ne. ap (λ (u : ProcSet). u j) s.procs ∙ update_ne t k _ j ne,
    )

take_slot-none :
    (now curr_pid : ℕ) (t : ProcSet) (o : Option ℕ) → take_slot now curr_pid t o ≡ none → o ≡ none
unfolding take_slot
take_slot-none now curr_pid t none h = refl
take_slot-none now curr_pid t (some k) h = cc

-- `proc_alloc` stops only when slots 1 to 16 are all taken.
pub proc_alloc-none :
    (now curr_pid : ℕ) (t : ProcSet)
    → proc_alloc now curr_pid t ≡ none
    → (j : ℕ) → 0 < j
    → j ≤ max_nprocess
    → (t j).status ≢ unused
unfolding proc_alloc
proc_alloc-none now curr_pid t h j lo hi = ne_unused _ (
    first_index-none (is_unused t) max_nprocess 1 (take_slot-none now curr_pid t _ h) j lo
      (omega arith))

-- A new process keeps the pids unique, until the counter wraps.
pub proc_alloc-IsTable :
    (now curr_pid : ℕ) (t : ProcSet) (a : Allocated)
    → suc curr_pid < 2 ^ 32
    → IsTable curr_pid t
    → proc_alloc now curr_pid t ≡ some a
    → IsTable a.curr_pid a.procs
unfolding fresh_process
proc_alloc-IsTable now curr_pid t a small v h =
    let (k, lo, hi, free, first, new, pid, counter, same) = proc_alloc-some now curr_pid t a h in
    let pid_new : (a.procs k).pid ≡ curr_pid + 1 =
      ap (λ (p : Process). p.pid) new ∙ pid ∙ omega arith in
    let old = λ (j : ℕ) (ne : k ≢ j). ap (λ (p : Process). p.pid) (same j ne) in
    record {
      below = λ i. elim (ℕ-cases k i) [
        | inl e ↦ rw (← e, pid_new) (omega arith)
        | inr ne ↦ rw (old i ne) (omega (arith, v.below i))
      ];
      apart = λ i j used e. elim (ℕ-cases k i) [
        | inl ki ↦ elim (ℕ-cases k j) [
          | inl kj ↦ sym ki ∙ kj
          | inr nj ↦
              absurd
                (omega (arith, v.below j, old j nj, pid_new, ap (λ (x : ℕ). (a.procs x).pid) ki))
        ]
        | inr ni ↦ elim (ℕ-cases k j) [
          | inl kj ↦
              absurd
                (omega (arith, v.below i, old i ni, pid_new, ap (λ (x : ℕ). (a.procs x).pid) kj))
          | inr nj ↦ v.apart i j (rw (old i ni) at used) (sym (old i ni) ∙ e ∙ old j nj)
        ]
      ];
    }

-- When slots 1 to 15 are taken, a new process stands in slot 16, and `proc_set_ready` with its pid
-- does not make it ready: it stays in state PROC_LOADING.
pub proc_set_ready-last_slot :
    (now curr_pid : ℕ) (t : ProcSet) (a : Allocated)
    → ((j : ℕ) → 0 < j → j < max_nprocess → (t j).status ≢ unused)
    → proc_alloc now curr_pid t ≡ some a
    → ((a.procs max_nprocess).pid ≡ a.pid)
      × ((proc_set_ready a.pid a.procs max_nprocess).status ≡ loading)
unfolding fresh_process proc_set_ready
proc_set_ready-last_slot now curr_pid t a busy h =
    let (k, lo, hi, free, first, new, pid, counter, same) = proc_alloc-some now curr_pid t a h in
    let last : k ≡ max_nprocess = elim (ℕ-cases k max_nprocess) [
      | inl e ↦ e
      | inr ne ↦ absurd (busy k lo (omega arith) free)
    ] in
    let there = ap (λ (x : ℕ). a.procs x) (sym last) ∙ new in
    (
      ap (λ (p : Process). p.pid) there,
      ap (λ (p : Process). p.status) (proc_set_status_lem a.pid ready a.procs max_nprocess ∙ there),
    )

first_index_hit : (p : ℕ → Bool) (n i : ℕ) → p i ≡ true → first_index p (suc n) i ≡ some i
unfolding first_index
first_index_hit p n i h = rw h refl

-- With slot 1 unused, that is the slot.
pub proc_alloc-slot_1 :
    (now curr_pid : ℕ) (t : ProcSet)
    → (t 1).status ≡ unused
    → proc_alloc now curr_pid t
      ≡ some (record {
        pid = add32 curr_pid 1;
        procs = update t 1 (fresh_process now (add32 curr_pid 1) (t 1));
        curr_pid = add32 curr_pid 1;
      })
unfolding proc_alloc take_slot
proc_alloc-slot_1 now curr_pid t h =
    ap (take_slot now curr_pid t) (first_index_hit (is_unused t) 15 1 (ap (λ s. s =s= unused) h))
