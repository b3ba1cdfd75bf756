-- ===== src/Process/Released.antt =====
-- What `proc_free` of egos-2000/grass/process.c does to a page, and the statistics that it prints.
use operating_systems_compon.Base.{
  ℕ, ◌<◌, ◌≡◌, refl, ◌∙◌, inl, inr, true, false, arith, ltb, if◌then◌else◌, Bool-cases, sub64,
  lt→ltb, ◌%◌, ◌^◌,
}
use operating_systems_compon.Mmu.{PageTable, apps_pages_cnt, owned, mmu_free, zero_info}
use operating_systems_compon.Mmu.Alloc.{mmu_free_lem}
use operating_systems_compon.Process.{Process, lifecycle}

-- What `mmu_free` does to one page.
pub free_mine :
    (pid : ℕ) (t : PageTable) (i : ℕ)
    → i < apps_pages_cnt
    → owned t pid i ≡ true
    → mmu_free pid t i ≡ zero_info
free_mine pid t i hi mine = mmu_free_lem pid t i ∙ rw (lt→ltb i apps_pages_cnt hi, mine) refl

pub free_other : (pid : ℕ) (t : PageTable) (i : ℕ) → owned t pid i ≡ false → mmu_free pid t i ≡ t i
free_other pid t i other = mmu_free_lem pid t i ∙ (ground (arith, other))

-- A page that a pid does not own is not its own after any release.
pub owned-mmu_free :
    (p q : ℕ) (t : PageTable) (i : ℕ) → owned t p i ≡ false → owned (mmu_free q t) p i ≡ false
owned-mmu_free p q t i h = ground (arith, mmu_free_lem q t i)

pub owned-mmu_free_self :
    (p : ℕ) (t : PageTable) (i : ℕ) → i < apps_pages_cnt → owned (mmu_free p t) p i ≡ false
owned-mmu_free_self p t i hi = ground (arith, mmu_free_lem p t i)

-- The statistics of slot `k` that are printed at the time `now`.
pub lifecycle_lem :
    (now : ℕ) (p : Process)
    → lifecycle (record p { time_terminated = now }) ≡ record {
      pid = p.pid;
      turnaround_time = (if ltb p.time_created now then sub64 now p.time_created % 2 ^ 32 else 0);
      response_time =
          (if ltb 0 p.time_first_scheduled
            then sub64 p.time_first_scheduled p.time_created % 2 ^ 32
            else 0);
      cpu_time = p.cpu_runtime % 2 ^ 32;
      no_interrupts = p.no_interrupts;
    }
unfolding lifecycle
lifecycle_lem now p = elim (Bool-cases (ltb p.time_created now)) [
  | inl a ↦ elim (Bool-cases (ltb 0 p.time_first_scheduled)) [
    | inl b ↦ rw (a, b) refl
    | inr b ↦ rw (a, b) refl
  ]
  | inr a ↦ elim (Bool-cases (ltb 0 p.time_first_scheduled)) [
    | inl b ↦ rw (a, b) refl
    | inr b ↦ rw (a, b) refl
  ]
]
