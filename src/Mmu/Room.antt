-- ===== src/Mmu/Room.antt =====
-- The unused pages of egos-2000/earth/cpu_mmu.c, and `mmu_alloc`.
use operating_systems_compon.Base.{
  ℕ, zero, suc, ap, sym, ◌∙◌, ◌+◌, ◌<◌, ◌≡◌, ◌≢◌, refl, inl, inr, ℕ-cases, Bool-cases, true, Option,
  none, some, arith, ◌==◌, if◌then◌else◌, ==→eq, eq→==, ne→==, update_ne, ◌⊎◌,
}
use operating_systems_compon.Mmu.{PageTable, PageInfo, apps_pages_cnt, mmu_alloc, soft_tlb_map}
use operating_systems_compon.Mmu.Alloc.{mmu_alloc-some, mmu_alloc-none}

-- The unused pages below `n`.
unfoldable pub count_free : (n : ℕ) → PageTable → ℕ
count_free zero t = 0
count_free (suc n) t = (if (t n).used == 0 then 1 else 0) + count_free n t

pub count_free-same :
    (n : ℕ) (t t' : PageTable)
    → ((j : ℕ) → j < n → (t' j).used ≡ (t j).used)
    → count_free n t' ≡ count_free n t
unfolding count_free
count_free-same zero t t' same = refl
count_free-same (suc n) t t' same =
    rw (same n (omega arith), count_free-same n t t' (λ j lt. same j (omega arith))) refl

pub count_free-take :
    (n k : ℕ) (t t' : PageTable)
    → k < n
    → (t k).used ≡ 0
    → (t' k).used ≡ 1
    → ((j : ℕ) → j ≢ k → (t' j).used ≡ (t j).used)
    → count_free n t ≡ suc (count_free n t')
unfolding count_free
count_free-take zero k t t' lt free taken same = absurd (omega arith)
count_free-take (suc n) k t t' lt free taken same = elim (ℕ-cases n k) [
  | inl e ↦
      let rest = count_free-same n t t' (λ j below. same j (omega (arith, e))) in
      let was : (t n).used ≡ 0 = ap (λ j. (t j).used) e ∙ free in
      let is : (t' n).used ≡ 1 = ap (λ j. (t' j).used) e ∙ taken in
      rw (was, is) (omega (arith, rest))
  | inr ne ↦ rw (same n ne, count_free-take n k t t' (omega arith) free taken same) (omega arith)
]

-- Where some page is unused, there is one to be found.
pub count_free-some :
    (n : ℕ) (t : PageTable) → 0 < count_free n t → (j : ℕ) × (j < n) × ((t j).used ≡ 0)
unfolding count_free
count_free-some zero t lt = absurd (omega arith)
count_free-some (suc n) t lt = elim (Bool-cases ((t n).used == 0)) [
  | inl h ↦ (n, omega arith, ==→eq _ _ h)
  | inr h ↦
      (let lt' = rw h at lt in
        let (j, below, free) = count_free-some n t (omega (arith, lt')) in (j, omega arith, free))
]

-- The entry that `mmu_alloc` and `mmu_map` leave, the others, and the unused pages.
pub record IsMapped (pid vpage_no i : ℕ) (t t' : PageTable) : Type 0 where
  pub in_range : i < apps_pages_cnt
  pub unused : (t i).used ≡ 0
  pub entry : t' i ≡ record { used = 1; pid = pid; vpage_no = vpage_no }
  pub others : (j : ℕ) → j ≢ i → t' j ≡ t j
  pub room : count_free apps_pages_cnt t ≡ suc (count_free apps_pages_cnt t')

Option-cases {ℓ} : {A : Type ℓ} (o : Option A) → (o ≡ none) ⊎ ((x : A) × (o ≡ some x))
Option-cases none = inl refl
Option-cases (some x) = inr (x, refl)

pub mmu_alloc-found :
    (t : PageTable)
    → 0 < count_free apps_pages_cnt t
    → (i : ℕ) × (t' : PageTable) × (mmu_alloc t ≡ some (i, t'))
mmu_alloc-found t room = elim (Option-cases (mmu_alloc t)) [
  | inl h ↦
      let (j, below, free) = count_free-some apps_pages_cnt t room in
      absurd (mmu_alloc-none t h j below free)
  | inr ((i, t'), h) ↦ (i, t', h)
]

soft_tlb_map-entry :
    (pid vpage_no i : ℕ) (t t' : PageTable)
    → t' i ≡ record (t i) { used = 1 }
    → soft_tlb_map pid vpage_no i t' i ≡ record { used = 1; pid = pid; vpage_no = vpage_no }
unfolding soft_tlb_map
soft_tlb_map-entry pid vpage_no i t t' e =
    let hit : (i == i) ≡ true = eq→== i i refl in rw (hit, e) refl

soft_tlb_map-other :
    (pid vpage_no i : ℕ) (t' : PageTable) (j : ℕ) → j ≢ i → soft_tlb_map pid vpage_no i t' j ≡ t' j
unfolding soft_tlb_map
soft_tlb_map-other pid vpage_no i t' j ne = update_ne t' i _ j (λ e. ne (sym e))

-- Where a page is unused, `mmu_alloc` returns one, and `mmu_map` completes its entry.
pub mmu_alloc-IsMapped :
    (pid vpage_no : ℕ) (t : PageTable)
    → 0 < count_free apps_pages_cnt t
    → (i : ℕ) × (t' : PageTable) × (mmu_alloc t ≡ some (i, t'))
      × IsMapped pid vpage_no i t (soft_tlb_map pid vpage_no i t')
mmu_alloc-IsMapped pid vpage_no t room =
    let (i, t', h) = mmu_alloc-found t room in
    let (lt, free, first, changed) = mmu_alloc-some t i t' h in
    let own : t' i ≡ record (t i) { used = 1 } = changed i ∙ (rw (eq→== i i refl) refl) in
    let entry = soft_tlb_map-entry pid vpage_no i t t' own in
    let others : (j : ℕ) → j ≢ i → soft_tlb_map pid vpage_no i t' j ≡ t j = λ j ne.
      soft_tlb_map-other pid vpage_no i t' j ne
      ∙ (changed j ∙ (rw (ne→== i j (λ e. ne (sym e))) refl)) in
    (
      i,
      t',
      h,
      record {
        in_range = lt;
        unused = free;
        entry = entry;
        others = others;
        room =
            count_free-take apps_pages_cnt i t (soft_tlb_map pid vpage_no i t') lt free
              (ap (λ (p : PageInfo). p.used) entry)
              (λ j ne. ap (λ (p : PageInfo). p.used) (others j ne));
      },
    )
