-- ===== src/Process/Mlfq.antt =====
-- The multi-level feedback queue of egos-2000/grass/process.c: the level of a process after it ran,
-- and the resets.
use operating_systems_compon.Base.{
  ℕ, zero, suc, ◌+◌, ◌-◌, ◌*◌, ◌^◌, ◌≤◌, ◌<◌, ◌≡◌, ◌≢◌, refl, ap, ◌∙◌, inl, inr, Bool, true, false,
  ◌&&◌, not, arith, ltb, leb, ◌==◌, if◌then◌else◌, Bool-cases, ℕ-cases, eq→==, ne→==, add64, sub64,
  count_from-pointwise,
}
use operating_systems_compon.Process.{
  Process, unused, ProcSet, max_nprocess, ◌=s=◌, mlfq_nlevels, mlfq_reset_period, gpid_shell,
  charge, next_level, mlfq_update_level, reset_shell, reset_at, reset_all, wake_shell,
  mlfq_reset_level,
}

-- The level fits the queue, and the times fit their words.
pub record IsQueued (p : Process) : Type 0 where
  pub level : p.mlfq_level < mlfq_nlevels
  pub remaining : p.remainingt_onlevel < 2 ^ 64
  pub on_level : p.current_level_runtime < 2 ^ 64
  pub total : p.total_runtime < 2 ^ 64
  pub cpu : p.cpu_runtime < 2 ^ 64

pub mlfq_update_level-IsQueued :
    (runtime : ℕ) (p : Process) → IsQueued p → IsQueued (mlfq_update_level runtime p)
unfolding mlfq_update_level charge next_level
mlfq_update_level-IsQueued runtime p v = ground arith

-- A process whose time on the level is used up exactly moves down one level, if there is one, with
-- the full time of its new level and a level time of 0; the total and CPU times grow by the run.
pub mlfq_update_level-exact :
    (runtime : ℕ) (p : Process)
    → IsQueued p
    → p.remainingt_onlevel ≡ runtime
    → let q = mlfq_update_level runtime p in
      (q.mlfq_level ≡ (if ltb p.mlfq_level 4 then p.mlfq_level + 1 else p.mlfq_level))
      × (q.remainingt_onlevel ≡ (q.mlfq_level + 1) * 100000)
      × (q.current_level_runtime ≡ 0)
      × (q.total_runtime ≡ add64 p.total_runtime runtime)
      × (q.cpu_runtime ≡ add64 p.cpu_runtime runtime)
unfolding mlfq_update_level charge next_level
mlfq_update_level-exact runtime p v e = ground arith

-- A process that ran for any other time, be it less or more than what was left, keeps its level;
-- what is left is the difference modulo 2^64, which for a longer run is huge.
pub mlfq_update_level-ne :
    (runtime : ℕ) (p : Process)
    → IsQueued p
    → runtime < 2 ^ 64
    → p.remainingt_onlevel ≢ runtime
    → let q = mlfq_update_level runtime p in
      (q.mlfq_level ≡ p.mlfq_level)
      × (q.remainingt_onlevel ≡ (
          if ltb p.remainingt_onlevel runtime
          then 2 ^ 64 - (runtime - p.remainingt_onlevel)
          else p.remainingt_onlevel - runtime))
      × (q.current_level_runtime ≡ add64 p.current_level_runtime runtime)
unfolding mlfq_update_level charge next_level
mlfq_update_level-ne runtime p v small ne = ground arith

reset_at-local :
    (k : ℕ) (t : ProcSet) (j : ℕ)
    → reset_at k t j ≡ (
        if k == j
        then (if not ((t j).status =s= unused) then record (t j) { mlfq_level = 0 } else t j)
        else t j)
unfolding reset_at
reset_at-local k t j = elim (ℕ-cases k j) [
  | inl e ↦ rw (← e) (ground arith)
  | inr ne ↦ ground arith
]

reset_all_lem :
    (t : ProcSet) (j : ℕ)
    → reset_all t j ≡ (
        if ltb j max_nprocess && not ((t j).status =s= unused)
        then record (t j) { mlfq_level = 0 }
        else t j)
unfolding reset_all
reset_all_lem t j =
    count_from-pointwise
      (λ _ p. if not (p.status =s= unused) then record p { mlfq_level = 0 } else p) reset_at
      reset_at-local max_nprocess 0 t j
    ∙ ground arith

-- The scan for the shell changes no field but a level.
reset_shell-level :
    (n i : ℕ) (t : ProcSet) (j : ℕ)
    → reset_shell n i t j ≡ record (t j) { mlfq_level = (reset_shell n i t j).mlfq_level }
unfolding reset_shell
reset_shell-level zero i t j = refl
reset_shell-level (suc n) i t j = elim (Bool-cases ((t i).pid == gpid_shell)) [
  | inl hit ↦
      rw hit (elim (ℕ-cases i j) [ inl e ↦ rw (← e, eq→== i i refl) | inr ne ↦ rw (ne→== i j ne) ])
  | inr miss ↦ rw miss (reset_shell-level n (i + 1) t j)
]

-- Changing levels alone keeps what the rest of the kernel goes by.
pub record SameButLevel (p q : Process) : Type 0 where
  pub status : q.status ≡ p.status
  pub pid : q.pid ≡ p.pid
  pub kept : q ≡ record p { mlfq_level = q.mlfq_level }

wake_shell-Same : (tty : Bool) (t : ProcSet) (j : ℕ) → SameButLevel (t j) (wake_shell tty t j)
unfolding wake_shell
wake_shell-Same true t j =
    let e = reset_shell-level max_nprocess 0 t j in
    record {
      status = ap (λ (p : Process). p.status) e;
      pid = ap (λ (p : Process). p.pid) e;
      kept = e;
    }
wake_shell-Same false t j = record { status = refl; pid = refl; kept = refl }

period_over :
    (tty : Bool) (now : ℕ) (t : ProcSet) (last : ℕ)
    → last ≢ 0
    → now < 2 ^ 64
    → last + mlfq_reset_period ≤ now
    → mlfq_reset_level tty now t last ≡ (reset_all (wake_shell tty t), now)
unfolding mlfq_reset_level
period_over tty now t last ne small over =
    let due : leb mlfq_reset_period (sub64 now last) ≡ true = ground arith in
    rw (ne→== last 0 ne, due)

not_due :
    (tty : Bool) (now : ℕ) (t : ProcSet) (last : ℕ)
    → last ≢ 0
    → last ≤ now
    → now < last + mlfq_reset_period
    → now < 2 ^ 64
    → mlfq_reset_level tty now t last ≡ (wake_shell tty t, last)
unfolding mlfq_reset_level
not_due tty now t last ne order before small =
    let due : leb mlfq_reset_period (sub64 now last) ≡ false = ground arith in
    rw (ne→== last 0 ne, due)

-- Once the period is over, every process in slots 0 to 15 that is in use is at level 0 and the time
-- of the reset is noted; no status and no pid changes.
pub mlfq_reset_level-period :
    (tty : Bool) (now : ℕ) (t : ProcSet) (last : ℕ)
    → last ≢ 0
    → now < 2 ^ 64
    → last + mlfq_reset_period ≤ now
    → let r = mlfq_reset_level tty now t last in
      (r.1 ≡ now)
      × ((j : ℕ) → j < max_nprocess → (t j).status ≢ unused → (r.0 j).mlfq_level ≡ 0)
      × ((j : ℕ) → ((r.0 j).status ≡ (t j).status) × ((r.0 j).pid ≡ (t j).pid))
mlfq_reset_level-period tty now t last ne small over =
    rw (period_over tty now t last ne small over) (
      refl,
      λ j hj used. ground (arith, reset_all_lem (wake_shell tty t) j, wake_shell-Same tty t j),
      λ j. ground (arith, reset_all_lem (wake_shell tty t) j, wake_shell-Same tty t j),
    )

-- Before that, without waiting input, nothing changes.
pub mlfq_reset_level-early :
    (now : ℕ) (t : ProcSet) (last : ℕ)
    → last ≢ 0
    → last ≤ now
    → now < last + mlfq_reset_period
    → now < 2 ^ 64
    → mlfq_reset_level false now t last ≡ (t, last)
unfolding wake_shell
mlfq_reset_level-early now t last ne order before small =
    not_due false now t last ne order before small

reset_all-Same : (t : ProcSet) (j : ℕ) → SameButLevel (t j) (reset_all t j)
reset_all-Same t j = record {
  status = ground (arith, reset_all_lem t j);
  pid = ground (arith, reset_all_lem t j);
  kept = rw (reset_all_lem t j) (ground arith);
}

-- A reset changes levels alone.
pub mlfq_reset_level-Same :
    (tty : Bool) (now : ℕ) (t : ProcSet) (last : ℕ) (j : ℕ)
    → SameButLevel (t j) ((mlfq_reset_level tty now t last).0 j)
unfolding mlfq_reset_level
mlfq_reset_level-Same tty now t last j =
    let since = sub64 now (if last == 0 then now else last) in
    elim (Bool-cases (leb mlfq_reset_period since)) [
      | inl due ↦ rw due (record {
        status = all.status ∙ woken.status;
        pid = all.pid ∙ woken.pid;
        kept =
            all.kept
            ∙ ap
                (λ (p : Process). record p {
                  mlfq_level = (reset_all (wake_shell tty t) j).mlfq_level;
                })
                woken.kept;
      })
      | inr early ↦ rw early woken
    ]
  where
    woken : SameButLevel (t j) (wake_shell tty t j)
    woken = wake_shell-Same tty t j

    all : SameButLevel (wake_shell tty t j) (reset_all (wake_shell tty t) j)
    all = reset_all-Same (wake_shell tty t) j

-- The accounting of a run leaves the context and the identity of a process.
pub context-mlfq_update_level :
    (runtime : ℕ) (p : Process)
    → ((mlfq_update_level runtime p).saved_registers ≡ p.saved_registers)
      × ((mlfq_update_level runtime p).mepc ≡ p.mepc)
      × ((mlfq_update_level runtime p).pid ≡ p.pid)
unfolding mlfq_update_level charge next_level
context-mlfq_update_level runtime p = ground arith

reset_shell-lower :
    (n i : ℕ) (t : ProcSet) (j : ℕ) → (reset_shell n i t j).mlfq_level ≤ (t j).mlfq_level
unfolding reset_shell
reset_shell-lower zero i t j = omega arith
reset_shell-lower (suc n) i t j = elim (Bool-cases ((t i).pid == gpid_shell)) [
  | inl hit ↦ rw hit (elim (ℕ-cases i j) [
    | inl e ↦ rw (eq→== i j e) (omega arith)
    | inr ne ↦ rw (ne→== i j ne) (omega arith)
  ])
  | inr miss ↦ rw miss (reset_shell-lower n (i + 1) t j)
]

wake_shell-lower :
    (tty : Bool) (t : ProcSet) (j : ℕ) → (wake_shell tty t j).mlfq_level ≤ (t j).mlfq_level
unfolding wake_shell
wake_shell-lower true t j = reset_shell-lower max_nprocess 0 t j
wake_shell-lower false t j = omega arith

-- A reset never raises a level.
pub level-mlfq_reset_level :
    (tty : Bool) (now : ℕ) (t : ProcSet) (last j : ℕ)
    → ((mlfq_reset_level tty now t last).0 j).mlfq_level ≤ (t j).mlfq_level
unfolding mlfq_reset_level
level-mlfq_reset_level tty now t last j =
    let woken = wake_shell-lower tty t j in
    let since = sub64 now (if last == 0 then now else last) in
    elim (Bool-cases (leb mlfq_reset_period since)) [
      | inl due ↦ rw due (ground (arith, reset_all_lem (wake_shell tty t) j, woken))
      | inr early ↦ rw early woken
    ]
