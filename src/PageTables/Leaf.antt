-- ===== src/PageTables/Leaf.antt =====
-- The leaf table that `setup_identity_region` of egos-2000/earth/cpu_mmu.c finds or allocates.
use operating_systems_compon.Base.{
  ℕ, suc, ap, sym, ◌∙◌, ◌<◌, ◌≡◌, ◌≢◌, refl, some, eq→==, ne→==, update, update_ne, update_self,
}
use operating_systems_compon.Mmu.{PageTable, PageInfo, frame, apps_pages_cnt, mmu_alloc}
use operating_systems_compon.Mmu.Alloc.{mmu_alloc-some}
use operating_systems_compon.Mmu.Room.{count_free-take, mmu_alloc-found}
use operating_systems_compon.PageTables.{Paging, take_table}
use operating_systems_compon.PageTables.Walk.{free}

-- A page that was unused is a cleared table.
pub record IsTaken (i : ℕ) (s s' : Paging) : Type 0 where
  pub in_range : i < apps_pages_cnt
  pub unused : (s.pages i).used ≡ 0
  pub used : (s'.pages i).used ≡ 1
  pub others : (j : ℕ) → j ≢ i → s'.pages j ≡ s.pages j
  pub tables : s'.tables ≡ update s.tables (frame i) (λ j. 0)
  pub root : s'.root ≡ s.root
  pub room : free s ≡ suc (free s')

take_table-runs :
    (pid : ℕ) (s : Paging) (i : ℕ) (t : PageTable)
    → mmu_alloc s.pages ≡ some (i, t)
    → take_table pid s
      ≡ some (
        frame i,
        record s {
          pages = update t i (record (t i) { pid = pid });
          tables = update s.tables (frame i) (λ j. 0);
        },
      )
unfolding take_table
take_table-runs pid s i t h = rw h refl

pub take_table-IsTaken :
    (pid : ℕ) (s : Paging)
    → 0 < free s
    → (i : ℕ) × (s' : Paging) × (take_table pid s ≡ some (frame i, s')) × IsTaken i s s'
take_table-IsTaken pid s enough =
    let (i, t, h) = mmu_alloc-found s.pages enough in
    let (lt, unused, first, changed) = mmu_alloc-some s.pages i t h in
    let pages : PageTable = update t i (record (t i) { pid = pid }) in
    let own : t i ≡ record (s.pages i) { used = 1 } = changed i ∙ (rw (eq→== i i refl) refl) in
    let used : (pages i).used ≡ 1 =
      ap (λ (p : PageInfo). p.used) (update_self t i _ i refl)
      ∙ ap (λ (p : PageInfo). p.used) own in
    let others : (j : ℕ) → j ≢ i → pages j ≡ s.pages j = λ j ne.
      update_ne t i _ j (λ e. ne (sym e)) ∙ (changed j ∙ (rw (ne→== i j (λ e. ne (sym e))) refl)) in
    (
      i,
      record s { pages = pages; tables = update s.tables (frame i) (λ j. 0) },
      take_table-runs pid s i t h,
      record {
        in_range = lt;
        unused = unused;
        used = used;
        others = others;
        tables = refl;
        root = refl;
        room =
            count_free-take apps_pages_cnt i s.pages pages lt unused used
              (λ j ne. ap (λ (p : PageInfo). p.used) (others j ne));
      },
    )
