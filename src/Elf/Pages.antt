-- ===== src/Elf/Pages.antt =====
-- The pages that `elf_load` of egos-2000/library/elf/elf.c takes, and the others.
use operating_systems_compon.Base.{
  ℕ, ap, sym, ◌∙◌, ◌<◌, ◌≡◌, ◌≢◌, refl, inl, inr, ℕ-cases, some, arith, update, update_ne,
  update_self,
}
use operating_systems_compon.Mmu.{
  Mmu, Memory, PageTable, PageInfo, frame, apps_pages_cnt, soft_tlb_map,
}
use operating_systems_compon.Mmu.Room.{IsMapped, count_free, mmu_alloc-IsMapped}
use operating_systems_compon.Elf.{map_page, map_zero_page}

abbrev pub free : Mmu → ℕ
free s = count_free apps_pages_cnt s.pages

pub map_page-IsMapped :
    (pid vpage_no : ℕ) (s : Mmu)
    → 0 < free s
    → (i : ℕ) × (t : PageTable) × (map_page pid vpage_no s ≡ some (i, record s { pages = t }))
      × IsMapped pid vpage_no i s.pages t
unfolding map_page
map_page-IsMapped pid vpage_no s room =
    let (i, t', h, mapped) = mmu_alloc-IsMapped pid vpage_no s.pages room in
    (i, soft_tlb_map pid vpage_no i t', rw h refl, mapped)

pub zero_at : ℕ → Memory → Memory
zero_at i m = update m (frame i) (λ j. 0)

pub map_zero_page-IsMapped :
    (pid vpage_no : ℕ) (s : Mmu)
    → 0 < free s
    → (i : ℕ) × (t : PageTable) × (map_zero_page pid vpage_no s
        ≡ some (i, record s { pages = t; mem = zero_at i s.mem }))
      × IsMapped pid vpage_no i s.pages t
unfolding map_zero_page zero_at
map_zero_page-IsMapped pid vpage_no s room =
    let (i, t, h, mapped) = map_page-IsMapped pid vpage_no s room in (i, t, rw h refl, mapped)

-- The pages in use keep their entries and their bytes.
pub record Kept (s s' : Mmu) : Type 0 where
  pub entries : (j : ℕ) → (s.pages j).used ≢ 0 → s'.pages j ≡ s.pages j
  pub bytes : (j : ℕ) → (s.pages j).used ≢ 0 → s'.mem (frame j) ≡ s.mem (frame j)

pub Kept-refl : (s : Mmu) → Kept s s
Kept-refl s = record { entries = λ j u. refl; bytes = λ j u. refl }

pub Kept-used : (s s' : Mmu) → Kept s s' → (j : ℕ) → (s.pages j).used ≢ 0 → (s'.pages j).used ≢ 0
Kept-used s s' kept j used e = used (sym (ap (λ (p : PageInfo). p.used) (kept.entries j used)) ∙ e)

pub Kept-trans : (s1 s2 s3 : Mmu) → Kept s1 s2 → Kept s2 s3 → Kept s1 s3
Kept-trans s1 s2 s3 k1 k2 = record {
  entries = λ j used. k2.entries j (Kept-used s1 s2 k1 j used) ∙ k1.entries j used;
  bytes = λ j used. k2.bytes j (Kept-used s1 s2 k1 j used) ∙ k1.bytes j used;
}

-- A page that is taken was unused, also before.
pub unused_before :
    (s s' : Mmu) → Kept s s' → (i : ℕ) → (s'.pages i).used ≡ 0 → (s.pages i).used ≡ 0
unused_before s s' kept i e = elim (ℕ-cases (s.pages i).used 0) [
  | inl u ↦ u
  | inr ne ↦ absurd (Kept-used s s' kept i ne e)
]

-- A page that is in use is another one than an unused one.
pub used_ne : (s : Mmu) (i j : ℕ) → (s.pages i).used ≡ 0 → (s.pages j).used ≢ 0 → i ≢ j
used_ne s i j free used e = used (ap (λ k. (s.pages k).used) (sym e) ∙ free)

-- Writing the bytes of a page that is not in use keeps the others.
pub Kept-mapped :
    (s : Mmu) (pid vpage_no i : ℕ) (t : PageTable) (m : Memory)
    → IsMapped pid vpage_no i s.pages t
    → ((j : ℕ) → i ≢ j → m (frame j) ≡ s.mem (frame j))
    → Kept s (record s { pages = t; mem = m })
Kept-mapped s pid vpage_no i t m mapped same = record {
  entries = λ j used. mapped.others j (λ e. used_ne s i j mapped.unused used (sym e));
  bytes = λ j used. same j (used_ne s i j mapped.unused used);
}

pub zero_at-other : (i : ℕ) (m : Memory) (j : ℕ) → i ≢ j → zero_at i m (frame j) ≡ m (frame j)
unfolding zero_at
zero_at-other i m j ne = update_ne m (frame i) (λ o. 0) (frame j) (λ e. ne (omega (arith, e)))

pub zero_at_self : (i : ℕ) (m : Memory) (o : ℕ) → zero_at i m (frame i) o ≡ 0
unfolding zero_at
zero_at_self i m o = ap (λ (p : ℕ → ℕ). p o) (update_self m (frame i) (λ o. 0) (frame i) refl)

-- A byte of the page that a process has at a virtual page number.
pub record IsAt (pid vpage_no o byte : ℕ) (s : Mmu) : Type 0 where
  pub page : ℕ
  pub used : (s.pages page).used ≢ 0
  pub owner : (s.pages page).pid ≡ pid
  pub vpage : (s.pages page).vpage_no ≡ vpage_no
  pub value : s.mem (frame page) o ≡ byte

pub IsAt-Kept :
    (pid vpage_no o byte : ℕ) (s s' : Mmu)
    → IsAt pid vpage_no o byte s
    → Kept s s'
    → IsAt pid vpage_no o byte s'
IsAt-Kept pid vpage_no o byte s s' at kept =
    let entry = kept.entries at.page at.used in
    record {
      page = at.page;
      used = Kept-used s s' kept at.page at.used;
      owner = ap (λ (p : PageInfo). p.pid) entry ∙ at.owner;
      vpage = ap (λ (p : PageInfo). p.vpage_no) entry ∙ at.vpage;
      value = ap (λ (p : ℕ → ℕ). p o) (kept.bytes at.page at.used) ∙ at.value;
    }
