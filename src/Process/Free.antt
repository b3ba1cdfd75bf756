-- ===== src/Process/Free.antt =====
-- `proc_free` of egos-2000/grass/process.c: which processes and pages are released, and whose
-- statistics are printed.
use operating_systems_compon.Base.{
  ℕ, zero, suc, ◌+◌, ◌≤◌, ◌<◌, ◌≡◌, ◌≢◌, refl, sym, ap, ◌∙◌, inl, inr, Bool, true, false, Option,
  none, some, [], ◌∷◌, ◌++◌, arith, ltb, ◌==◌, if◌then◌else◌, Bool-cases, ℕ-cases, eq→==, ne→==,
  update, update_self, update_ne, count_from-invariant, first_index, first_index-hit, sub64, lt→ltb,
  ◌%◌, ◌^◌,
}
use operating_systems_compon.Mmu.{PageTable, apps_pages_cnt, owned, mmu_free, zero_info}
use operating_systems_compon.Process.{
  Process, unused, ProcSet, max_nprocess, gpid_all, proc_set_status, lifecycle, Stats, is_user,
  Release, report_slot, free_one, free_each, proc_free,
}
use operating_systems_compon.Process.Released.{
  free_mine, free_other, owned-mmu_free, owned-mmu_free_self, lifecycle_lem,
}
use operating_systems_compon.Process.Status.{with_status, proc_set_status_lem}

abbrev user_at : ProcSet → ℕ → Bool
user_at t i = is_user (t i)

-- What a release of `pid` does when slot `k` holds the first user process.
pub release_at : (clock : ℕ → ℕ) → ℕ → Release → ℕ → Release
release_at clock pid r k = record (report_slot (clock k) k r) {
  pages = mmu_free pid r.pages;
  procs = proc_set_status pid unused (report_slot (clock k) k r).procs;
}

abbrev release_found : (clock : ℕ → ℕ) → ℕ → Release → Option ℕ → Release
release_found clock pid r none = r
release_found clock pid r (some k) = release_at clock pid r k

free_one-first :
    (clock : ℕ → ℕ) (pid n i : ℕ) (r : Release)
    → free_one clock pid n i r ≡ release_found clock pid r (first_index (user_at r.procs) n i)
unfolding free_one release_at first_index report_slot
free_one-first clock pid zero i r = refl
free_one-first clock pid (suc n) i r = elim (Bool-cases (is_user (r.procs i))) [
  | inl hit ↦ rw hit
  | inr miss ↦ rw miss (free_one-first clock pid n (i + 1) r)
]

-- The release of one pid in terms of its parts.
proc_free_found :
    (clock : ℕ → ℕ) (pid : ℕ) (r : Release) (k : ℕ)
    → pid ≢ gpid_all
    → first_index (user_at r.procs) max_nprocess 0 ≡ some k
    → let q = proc_free clock pid r in
      let stopped = record (r.procs k) { time_terminated = clock k } in
      (q.log ≡ r.log ++ (lifecycle stopped ∷ []))
      × (q.pages ≡ mmu_free pid r.pages)
      × ((j : ℕ)
          → q.procs j ≡ (
              if ltb j max_nprocess
              then with_status pid unused (update r.procs k stopped j)
              else update r.procs k stopped j))
unfolding proc_free release_at report_slot
proc_free_found clock pid r k ne found =
    rw (ne→== pid gpid_all ne, free_one-first clock pid max_nprocess 0 r, found)
      (refl, refl, proc_set_status_lem pid unused _)

other_status : (pid : ℕ) (p : Process) → p.pid ≢ pid → with_status pid unused p ≡ p
other_status pid p ne = rw (ne→== p.pid pid ne) refl

-- Releasing one pid while the processes of the slots before `k` are no user processes, and that of
-- slot `k` is one: one entry is printed, with the pid and the times of slot `k`, whichever pid it has.
-- Exactly the pages of the given pid are cleared; every process of slots 0 to 15 with that pid becomes
-- unused; slot `k`, when it has another pid, only gets the time as the time of its end; and every other
-- process with another pid is as before.
pub proc_free-user :
    (clock : ℕ → ℕ) (pid : ℕ) (r : Release) (k : ℕ)
    → pid ≢ gpid_all
    → k < max_nprocess
    → is_user (r.procs k) ≡ true
    → ((j : ℕ) → j < k → is_user (r.procs j) ≡ false)
    → let q = proc_free clock pid r in
      let printed : Stats = record {
        pid = (r.procs k).pid;
        turnaround_time =
            (if ltb (r.procs k).time_created (clock k)
              then sub64 (clock k) (r.procs k).time_created % 2 ^ 32
              else 0);
        response_time =
            (if ltb 0 (r.procs k).time_first_scheduled
              then sub64 (r.procs k).time_first_scheduled (r.procs k).time_created % 2 ^ 32
              else 0);
        cpu_time = (r.procs k).cpu_runtime % 2 ^ 32;
        no_interrupts = (r.procs k).no_interrupts;
      } in
      (q.log ≡ r.log ++ (printed ∷ []))
      × ((i : ℕ) → i < apps_pages_cnt → owned r.pages pid i ≡ true → q.pages i ≡ zero_info)
      × ((i : ℕ) → owned r.pages pid i ≡ false → q.pages i ≡ r.pages i)
      × ((j : ℕ) → j < max_nprocess → (r.procs j).pid ≡ pid → (q.procs j).status ≡ unused)
      × ((r.procs k).pid ≢ pid → q.procs k ≡ record (r.procs k) { time_terminated = clock k })
      × ((j : ℕ) → j ≢ k → (r.procs j).pid ≢ pid → q.procs j ≡ r.procs j)
proc_free-user clock pid r k ne lt hit miss =
    let stopped = record (r.procs k) { time_terminated = clock k } in
    let t = update r.procs k stopped in
    let (log, pages, procs) =
      proc_free_found clock pid r k ne
        (first_index-hit (user_at r.procs) max_nprocess k lt hit miss) in
    let kept : (j : ℕ) → (t j).pid ≢ pid → (proc_free clock pid r).procs j ≡ t j = λ j other.
      procs j
      ∙ either (ltb j max_nprocess) (with_status pid unused (t j)) (t j)
          (other_status pid (t j) other) in
    (
      log ∙ ap (λ (x : Stats). r.log ++ (x ∷ [])) (lifecycle_lem (clock k) (r.procs k)),
      λ i hi mine. ap (λ (x : PageTable). x i) pages ∙ free_mine pid r.pages i hi mine,
      λ i other. ap (λ (x : PageTable). x i) pages ∙ free_other pid r.pages i other,
      λ j hj mine.
          let same : (t j).pid ≡ pid = pid_kept j ∙ mine in
          ap (λ (p : Process). p.status) (procs j) ∙ status_unused j (t j) hj same,
      λ other.
          let at = update_self r.procs k stopped k refl in
          kept k (λ e. other (sym (pid_kept k) ∙ e)) ∙ at,
      λ j nk other.
          kept j (λ e. other (sym (pid_kept j) ∙ e))
          ∙ update_ne r.procs k stopped j (λ e. nk (sym e)),
    )
  where
    pid_kept :
        (j : ℕ)
        → (update r.procs k (record (r.procs k) { time_terminated = clock k }) j).pid
          ≡ (r.procs j).pid
    pid_kept j = elim (ℕ-cases k j) [
      | inl e ↦
          ap (λ (p : Process). p.pid) (update_self r.procs k _ j e)
          ∙ ap (λ (n : ℕ). (r.procs n).pid) e
      | inr other ↦ ap (λ (p : Process). p.pid) (update_ne r.procs k _ j other)
    ]

    either : (b : Bool) (x y : Process) → x ≡ y → (if b then x else y) ≡ y
    either true x y e = e
    either false x y e = refl

    status_unused :
        (j : ℕ) (p : Process)
        → j < max_nprocess
        → p.pid ≡ pid
        → (if ltb j max_nprocess then with_status pid unused p else p).status ≡ unused
    status_unused j p hj e = rw (lt→ltb j max_nprocess hj, eq→== p.pid pid e) refl

-- A user process after `proc_free(GPID_ALL)`.
abbrev pub killed : ℕ → Process → Process
killed now p = if is_user p then record p { time_terminated = now; status = unused } else p

procs-free_each :
    (clock : ℕ → ℕ) (k : ℕ) (r : Release) (j : ℕ)
    → (free_each clock k r).procs j ≡ (if k == j then killed (clock j) (r.procs j) else r.procs j)
unfolding free_each report_slot
procs-free_each clock k r j = elim (Bool-cases (is_user (r.procs k))) [
  | inl user ↦
      rw user
        (elim (ℕ-cases k j) [ inl e ↦ rw (← e, eq→== k k refl, user) | inr ne ↦ rw (ne→== k j ne) ])
  | inr other ↦
      rw other (elim (ℕ-cases k j) [
        | inl e ↦ rw (← e, eq→== k k refl, other)
        | inr ne ↦ rw (ne→== k j ne)
      ])
]

pages-free_each :
    (clock : ℕ → ℕ) (k : ℕ) (r : Release)
    → (free_each clock k r).pages
      ≡ (if is_user (r.procs k) then mmu_free (r.procs k).pid r.pages else r.pages)
unfolding free_each report_slot
pages-free_each clock k r = elim (Bool-cases (is_user (r.procs k))) [
  | inl user ↦ rw user
  | inr other ↦ rw other
]

-- After the first `k` rounds of the loop that frees all user processes of `t`.
record Freed (clock : ℕ → ℕ) (t : ProcSet) (k : ℕ) (r : Release) : Type 0 where
  before : (j : ℕ) → j < k → r.procs j ≡ killed (clock j) (t j)
  after : (j : ℕ) → k ≤ j → r.procs j ≡ t j
  pages :
      (j : ℕ)
      → j < k
      → is_user (t j) ≡ true
      → (i : ℕ) → i < apps_pages_cnt
      → owned r.pages (t j).pid i ≡ false

module _ (clock : ℕ → ℕ) (t : ProcSet) where
  pages_kept :
      (k : ℕ) (r : Release)
      → Freed clock t k r
      → (j : ℕ) → j < k + 1
      → is_user (t j) ≡ true
      → (i : ℕ) → i < apps_pages_cnt
      → owned (free_each clock k r).pages (t j).pid i ≡ false
  pages_kept k r s j hj u i hi = elim (ℕ-cases k j) [
    | inl e ↦
        let same : r.procs k ≡ t j = s.after k (omega arith) ∙ ap t e in
        rw (pages-free_each clock k r, same, u) (owned-mmu_free_self (t j).pid r.pages i hi)
    | inr ne ↦
        let old = s.pages j (omega arith) u i hi in
        elim (Bool-cases (is_user (r.procs k))) [
          | inl user ↦
              rw (pages-free_each clock k r, user)
                (owned-mmu_free (t j).pid (r.procs k).pid r.pages i old)
          | inr other ↦ rw (pages-free_each clock k r, other) old
        ]
  ]

  free_each-Freed :
      (k : ℕ) (r : Release) → Freed clock t k r → Freed clock t (k + 1) (free_each clock k r)
  free_each-Freed k r s = record {
    before = λ j hj. elim (ℕ-cases k j) [
      | inl e ↦ rw (procs-free_each clock k r j, eq→== k j e, s.after j (omega arith))
      | inr ne ↦ rw (procs-free_each clock k r j, ne→== k j ne) (s.before j (omega arith))
    ];
    after =
        λ j hj. rw (procs-free_each clock k r j, ne→== k j (omega arith)) (s.after j (omega arith));
    pages = pages_kept k r s;
  }

-- `proc_free(GPID_ALL)` makes every user process in slots 0 to 15 unused, notes when it ended and
-- leaves every other slot; no page stays in the hands of a pid that a released process had.
pub proc_free-all :
    (clock : ℕ → ℕ) (r : Release)
    → let q = proc_free clock gpid_all r in
      ((j : ℕ) → j < max_nprocess → q.procs j ≡ killed (clock j) (r.procs j))
      × ((j : ℕ) → max_nprocess ≤ j → q.procs j ≡ r.procs j)
      × ((j : ℕ)
          → j < max_nprocess
          → is_user (r.procs j) ≡ true
          → (i : ℕ) → i < apps_pages_cnt
          → owned q.pages (r.procs j).pid i ≡ false)
unfolding proc_free
proc_free-all clock r =
    let s =
      count_from-invariant (Freed clock r.procs) (free_each clock) max_nprocess 0 max_nprocess
        (λ k q lo hi. free_each-Freed clock r.procs k q) r (omega arith)
        (record {
          before = λ j h. absurd (omega arith);
          after = λ j h. refl;
          pages = λ j h. absurd (omega arith);
        }) in
    (s.before, s.after, s.pages)
