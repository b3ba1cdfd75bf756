-- ===== src/Mmu/Alloc.antt =====
-- What `mmu_alloc` and `mmu_free` of egos-2000/earth/cpu_mmu.c do to the page table.
use operating_systems_compon.Base.{
  ℕ, ap, ◌∙◌, ◌<◌, ◌≡◌, ◌≢◌, refl, Bool, false, ◌&&◌, Option, none, some, arith, ltb, ◌==◌,
  if◌then◌else◌, ==→eq, update, first_index-some, first_index-first, first_index-none,
  count_from-pointwise,
}
use operating_systems_compon.Mmu.{
  PageTable, zero_info, apps_pages_cnt, take_page, mmu_alloc, owned, free_page, mmu_free,
}

take_page-some :
    (t : PageTable) (o : Option ℕ) (k : ℕ) (t' : PageTable)
    → take_page t o ≡ some (k, t')
    → (o ≡ some k) × (t' ≡ update t k (record (t k) { used = 1 }))
unfolding take_page
take_page-some t none k t' e = cc
take_page-some t (some i) k t' e =
    let p : i ≡ k = cc in
    let q : t' ≡ update t i (record (t i) { used = 1 }) = cc in
    (ap some p, q ∙ ap (λ (x : ℕ). update t x (record (t x) { used = 1 })) p)

take_page-none : (t : PageTable) (o : Option ℕ) → take_page t o ≡ none → o ≡ none
unfolding take_page
take_page-none t none e = refl
take_page-none t (some i) e = cc

abbrev is_free : PageTable → ℕ → Bool
is_free t i = (t i).used == 0

-- A page id that `mmu_alloc` returns is in range and was the lowest unused one; it is marked used,
-- with its other fields as they were, and no other entry changes.
pub mmu_alloc-some :
    (t : PageTable) (k : ℕ) (t' : PageTable)
    → mmu_alloc t ≡ some (k, t')
    → (k < apps_pages_cnt)
      × ((t k).used ≡ 0)
      × ((j : ℕ) → j < k → (t j).used ≢ 0)
      × ((j : ℕ) → t' j ≡ (if k == j then record (t j) { used = 1 } else t j))
unfolding mmu_alloc
mmu_alloc-some t k t' h =
    let (found, same) = take_page-some t _ k t' h in
    let (lo, hi, free) = first_index-some (is_free t) apps_pages_cnt 0 k found in
    (
      hi,
      ==→eq _ _ free,
      λ j hj. ==_ne (first_index-first (is_free t) apps_pages_cnt 0 k found j (omega arith) hj),
      λ j. ap (λ u. u j) same ∙ marked j,
    )
  where
    ==_ne : {a b : ℕ} → (a == b) ≡ false → a ≢ b
    ==_ne e = ground arith

    marked :
        (j : ℕ)
        → update t k (record (t k) { used = 1 }) j
          ≡ (if k == j then record (t j) { used = 1 } else t j)
    marked j = ground (arith, ap t {x = k} {y = j})

-- `mmu_alloc` stops exactly when every page is in use.
pub mmu_alloc-none :
    (t : PageTable) → mmu_alloc t ≡ none → (j : ℕ) → j < apps_pages_cnt → (t j).used ≢ 0
unfolding mmu_alloc
mmu_alloc-none t h j hj =
    ground (
      arith,
      first_index-none (is_free t) apps_pages_cnt 0 (take_page-none t _ h) j (omega arith) hj,
    )

free_page-local :
    (pid k : ℕ) (t : PageTable) (j : ℕ)
    → free_page pid k t j ≡ (if k == j then (if owned t pid j then zero_info else t j) else t j)
unfolding free_page
free_page-local pid k t j = ground (arith, ap t {x = k} {y = j})

-- `mmu_free` clears exactly the entries in use that carry the pid.
pub mmu_free_lem :
    (pid : ℕ) (t : PageTable) (j : ℕ)
    → mmu_free pid t j ≡ (if ltb j apps_pages_cnt && owned t pid j then zero_info else t j)
unfolding mmu_free
mmu_free_lem pid t j =
    count_from-pointwise (λ i p. if owned (λ _. p) pid i then zero_info else p) (free_page pid)
      (free_page-local pid) apps_pages_cnt 0 t j
    ∙ ground arith
