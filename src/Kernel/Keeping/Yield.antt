-- ===== src/Kernel/Keeping/Yield.antt =====
-- The parts of `proc_yield` of egos-2000/grass/kernel.c.
use operating_systems_compon.Base.{
  ℕ, zero, suc, ◌+◌, ◌<◌, ◌≡◌, refl, ap, inl, inr, Bool, true, false, ◌&&◌, not, Option-cases, none,
  some, some_inj, arith, ltb, leb, if◌then◌else◌, Bool-cases, ℕ-cases, update, update_self,
  update_ne, sub64,
}
use operating_systems_compon.Process.{
  Process, unused, ready, running, runnable, ◌=s=◌, max_nprocess, proc_set_runnable,
  proc_set_running,
}
use operating_systems_compon.Process.Tame.{
  Tame, Tame-refl, Tame-trans, proc_set_status-Tame, update-Tame, with_call-Tame,
  mlfq_update_level-Tame, mlfq_reset_level-Tame,
}
use operating_systems_compon.Kernel.{
  Kernel, Devices, Choice, curr_proc_idx, curr, set_proc, consider, retry, slot_after, choose,
  charge_current, account, stamp, start_new, switch_to, stop_current, before_choice, after_choice,
  proc_yield,
}
use operating_systems_compon.Kernel.Keeping.{Keeps, Keeps-refl, Keeps-trans, Keeps-procs}
use operating_systems_compon.Kernel.Keeping.Calls.{retry-Keeps}

-- Either branch of a test.
pub if-Keeps : (b : Bool) (k x y : Kernel) → Keeps k x → Keeps k y → Keeps k (if b then x else y)
if-Keeps true k x y hx hy = hx
if-Keeps false k x y hx hy = hy

pub set_proc-Keeps :
    (i : ℕ) (p : Process) (k : Kernel) → Tame (k.procs i) p → Keeps k (set_proc i p k)
set_proc-Keeps i p k h = Keeps-procs k _ refl (update-Tame i p k.procs h)

stop_current-Keeps : (k : Kernel) → Keeps k (stop_current k)
unfolding stop_current proc_set_runnable
stop_current-Keeps k =
    if-Keeps ((curr k).status =s= running) k _ k
      (Keeps-procs k _ refl (proc_set_status-Tame (curr k).pid runnable k.procs)) (Keeps-refl k)

charge_current-Keeps : (now : ℕ) (k : Kernel) → Keeps k (charge_current now k)
unfolding charge_current
charge_current-Keeps now k =
    if-Keeps (ltb 0 (curr k).time_last_scheduled) k _ k
      (set_proc-Keeps (curr_proc_idx k) _ k
        (mlfq_update_level-Tame (sub64 now (curr k).time_last_scheduled) (curr k)))
      (Keeps-refl k)

account-Keeps : (now : ℕ) (k : Kernel) → Keeps k (account now k)
unfolding account
account-Keeps now k =
    if-Keeps
      ((ltb 0 (curr_proc_idx k) && leb (curr_proc_idx k) max_nprocess)
        && not ((curr k).status =s= unused))
      k (charge_current now k) k (charge_current-Keeps now k) (Keeps-refl k)

pub before_choice-Keeps : (dev : Devices) (k : Kernel) → Keeps k (before_choice dev k)
unfolding before_choice
before_choice-Keeps dev k =
    let k1 = stop_current k in
    let k2 = account dev.now k1 in
    Keeps-trans k k1 _ (stop_current-Keeps k) (
      Keeps-trans k1 k2 _ (account-Keeps dev.now k1) (
        Keeps-procs k2 _ refl
          (mlfq_reset_level-Tame dev.tty_input dev.now_reset k2.procs k2.last_reset)))

-- A round chooses, and changes no process.
consider_kernel : (j : ℕ) (c : Choice) → (consider j c).kernel ≡ c.kernel
unfolding consider
consider_kernel j c = ground arith

choose-Keeps :
    (start n i : ℕ) (c c' : Choice) → choose start n i c ≡ some c' → Keeps c.kernel c'.kernel
unfolding choose
choose-Keeps start zero i c c' h = let e : c ≡ c' = some_inj h in rw (← e) (Keeps-refl c.kernel)
choose-Keeps start (suc n) i c c' h =
    let j = slot_after start i in
    elim (Option-cases (retry j c.kernel)) [
      | inl e ↦ cc
      | inr (k, e) ↦
          let d : Choice = record c { kernel = k } in
          Keeps-trans c.kernel k c'.kernel (retry-Keeps j c.kernel k e) (
            rw (consider_kernel j d) at
              (choose-Keeps start n (i + 1) (consider j d) c' (rw e at h)))
    ]

start_new-Tame : (now : ℕ) (p : Process) → Tame p (start_new (stamp now p))
unfolding start_new stamp
start_new-Tame now p = elim (Bool-cases (p.status =s= ready)) [
  | inl h ↦ rw h (with_call-Tame p _ refl refl refl refl refl refl)
  | inr h ↦ rw h (with_call-Tame p _ refl refl refl refl refl refl)
]

switch_to-Keeps :
    (dev : Devices) (next : ℕ) (k : Kernel)
    → next < max_nprocess
    → Keeps k (switch_to dev next (set_proc next (stamp dev.now (k.procs next)) k))
unfolding switch_to proc_set_running
switch_to-Keeps dev next k small =
    let k1 = set_proc next (stamp dev.now (k.procs next)) k in
    let p = start_new (k1.procs next) in
    let p0 = start_new (stamp dev.now (k.procs next)) in
    let same : p ≡ p0 = ap start_new (update_self k.procs next _ next refl) in
    let stamped : Tame (k.procs next) (stamp dev.now (k.procs next)) =
      unfold stamp in with_call-Tame (k.procs next) _ refl refl refl refl refl refl in
    record {
      tame = λ j. elim (ℕ-cases next j) [
        | inl e ↦
            Tame-trans
              (rw (update_self k1.procs next p j e, same, ← e)
                (start_new-Tame dev.now (k.procs next)))
              (proc_set_status-Tame p.pid running (update k1.procs next p) j)
        | inr ne ↦
            Tame-trans
              (rw (update_ne k1.procs next p j ne, update_ne k.procs next _ j ne)
                (Tame-refl (k.procs j)))
              (proc_set_status-Tame p.pid running (update k1.procs next p) j)
      ];
      cores = λ h c. elim (ℕ-cases k.core_in_kernel c) [
        | inl e ↦ rw (update_self k.core_to_proc_idx k.core_in_kernel next c e) small
        | inr ne ↦ rw (update_ne k.core_to_proc_idx k.core_in_kernel next c ne) (h c)
      ];
    }

after_choice-Keeps :
    (dev : Devices) (c : Choice) (k' : Kernel) → after_choice dev c ≡ some k' → Keeps c.kernel k'
unfolding after_choice
after_choice-Keeps dev c k' h = elim (Bool-cases (ltb c.next_idx max_nprocess)) [
  | inl lt ↦ rw (← some_inj (rw lt at h)) (switch_to-Keeps dev c.next_idx c.kernel (ground arith))
  | inr ge ↦ let bad : none ≡ some k' = rw ge at h in cc
]

pub proc_yield-Keeps : (dev : Devices) (k k' : Kernel) → proc_yield dev k ≡ some k' → Keeps k k'
unfolding proc_yield
proc_yield-Keeps dev k k' h =
    let k1 = before_choice dev k in
    elim (Option-cases (
      choose (curr_proc_idx k1) max_nprocess 1
        (record { kernel = k1; lowest_level = 5; next_idx = max_nprocess }))) [
          | inl e ↦ cc
          | inr (c, e) ↦ Keeps-trans k k1 k' (before_choice-Keeps dev k) (
              Keeps-trans k1 c.kernel k' (choose-Keeps (curr_proc_idx k1) max_nprocess 1 _ c e)
                (after_choice-Keeps dev c k' (rw e at h)))
        ]
