-- ===== src/PageTables/Identity.antt =====
-- `pagetable_identity_map` of egos-2000/earth/cpu_mmu.c as a whole.
use operating_systems_compon.Base.{
  ℕ, suc, ap, ◌∙◌, ◌+◌, ◌/◌, ◌%◌, ◌^◌, ◌≤◌, ◌<◌, ◌≡◌, refl, Bool, true, false, some, List, [], ◌∷◌,
  length, update, update_self, All, leb, ltb, ◌&&◌, ◌==◌, arith,
}
use operating_systems_compon.Mmu.{frame, apps_pages_cnt}
use operating_systems_compon.Mmu.Room.{count_free}
use operating_systems_compon.PageTables.{
  Tables, Paging, user_rwx, leaf_for, fill_leaf, setup_identity_region, regions, setup_regions,
  setup_root, pagetable_identity_map,
}
use operating_systems_compon.PageTables.Walk.{walk, free, IsLinked}
use operating_systems_compon.PageTables.Leaf.{IsTaken, take_table-IsTaken}
use operating_systems_compon.PageTables.Region.{
  leaf_for-IsReady, Within, end-IsLinked, end_fields, walk-Within, walk_kept,
}

-- The region starts at a multiple of 1 KB and lies in one leaf table.
abbrev pub FitsLeaf : ℕ × ℕ → Type 0
FitsLeaf (addr, npages) = (addr / 4096 % 1024 + npages ≤ 1024) × (addr < 2 ^ 32) × (addr % 1024 ≡ 0)

-- Every address of the region is mapped to itself.
abbrev pub IsIdentity : Paging → ℕ × ℕ → Type 0
IsIdentity s (addr, npages) = (va : ℕ) → Within addr npages va → walk s.tables s.root va ≡ some va

-- A step that keeps the shape of the tables and the addresses mapped to themselves.
record Keeps (taken : ℕ) (s s' : Paging) : Type 0 where
  linked : IsLinked s'
  kept : (va : ℕ) → walk s.tables s.root va ≡ some va → walk s'.tables s'.root va ≡ some va
  room : free s ≤ taken + free s'

setup_identity_region-runs :
    (pid addr npages flag leaf : ℕ) (s s' : Paging)
    → leaf_for pid (addr / 2 ^ 22) s ≡ some (leaf, s')
    → setup_identity_region pid addr npages flag s ≡ some (fill_leaf addr npages flag leaf s')
unfolding setup_identity_region
setup_identity_region-runs pid addr npages flag leaf s s' h = rw h refl

setup_identity_region-Keeps :
    (pid addr npages : ℕ) (s : Paging)
    → IsLinked s
    → 0 < free s
    → FitsLeaf (addr, npages)
    → (s' : Paging) × (setup_identity_region pid addr npages user_rwx s ≡ some s')
      × IsIdentity s' (addr, npages)
      × Keeps 1 s s'
setup_identity_region-Keeps pid addr npages s linked enough (fits, small, aligned) =
    let (leaf, s1, runs, ready) = leaf_for-IsReady pid (addr / 2 ^ 22) s linked enough in
    (
      fill_leaf addr npages user_rwx leaf s1,
      setup_identity_region-runs pid addr npages user_rwx leaf s s1 runs,
      walk-Within addr npages user_rwx leaf s s1 ready fits small aligned refl,
      record {
        linked = end-IsLinked addr npages user_rwx leaf s s1 ready fits small aligned;
        kept = walk_kept addr npages user_rwx leaf s s1 ready fits small aligned refl;
        room = omega (
          arith,
          ready.room,
          ap (count_free apps_pages_cnt)
              (end_fields addr npages user_rwx leaf s s1 ready fits small aligned).1,
        );
      },
    )

setup_regions_step :
    (pid addr npages : ℕ) (rs : List (ℕ × ℕ)) (s s1 s' : Paging)
    → setup_identity_region pid addr npages user_rwx s ≡ some s1
    → setup_regions pid rs s1 ≡ some s'
    → setup_regions pid ((addr, npages) ∷ rs) s ≡ some s'
unfolding setup_regions
setup_regions_step pid addr npages rs s s1 s' h1 h = rw h1 h

setup_regions_nil : (pid : ℕ) (s : Paging) → setup_regions pid [] s ≡ some s
unfolding setup_regions
setup_regions_nil pid s = refl

pub setup_regions-IsIdentity :
    (pid : ℕ) (rs : List (ℕ × ℕ)) (s : Paging)
    → IsLinked s
    → length rs ≤ free s
    → All FitsLeaf rs
    → (s' : Paging) × (setup_regions pid rs s ≡ some s')
      × All (IsIdentity s') rs
      × ((va : ℕ) → walk s.tables s.root va ≡ some va → walk s'.tables s'.root va ≡ some va)
setup_regions-IsIdentity pid [] s linked enough fits = (s, setup_regions_nil pid s, tt, λ va h. h)
setup_regions-IsIdentity pid ((addr, npages) ∷ rs) s linked enough (one, fits) =
    let (s1, h1, here, keeps) =
      setup_identity_region-Keeps pid addr npages s linked (omega arith) one in
    let (s', h, rest, kept) =
      setup_regions-IsIdentity pid rs s1 keeps.linked (omega (arith, keeps.room)) fits in
    (
      s',
      setup_regions_step pid addr npages rs s s1 s' h1 h,
      (λ va within. kept va (here va within), rest),
      λ va e. kept va (keeps.kept va e),
    )

cleared-IsLinked :
    (i : ℕ) (s s1 : Paging) (base : ℕ → ℕ)
    → IsTaken i s s1
    → IsLinked (record s1 { root = frame i; pid_to_pagetable_base = base })
cleared-IsLinked i s s1 base taken =
    let zeros : (v : ℕ) → s1.tables (frame i) v ≡ 0 = λ v.
      ap (λ (t : Tables). t (frame i) v) taken.tables
      ∙ ap (λ (t : ℕ → ℕ). t v) (update_self s.tables (frame i) _ (frame i) refl) in
    record {
      root_id = i;
      root_frame = refl;
      root_used = λ e. absurd (omega (arith, taken.used, e));
      leaf = λ v odd. absurd (omega (arith, zeros v, odd));
      distinct = λ v w ne odd_v odd_w. absurd (omega (arith, zeros v, odd_v));
    }

setup_root-runs :
    (pid : ℕ) (s : Paging)
    → 0 < free s
    → (s' : Paging) × (setup_root pid s ≡ some s') × IsLinked s' × (free s ≡ suc (free s'))
unfolding setup_root
setup_root-runs pid s enough =
    let (i, s1, h, taken) = take_table-IsTaken pid s enough in
    let base = update s1.pid_to_pagetable_base pid (frame i) in
    (
      record s1 { root = frame i; pid_to_pagetable_base = base },
      rw h refl,
      cleared-IsLinked i s s1 base taken,
      taken.room,
    )

-- The test of FitsLeaf for a list of regions.
all_fit : List (ℕ × ℕ) → Bool
all_fit [] = true
all_fit ((addr, npages) ∷ rs) =
    leb (addr / 4096 % 1024 + npages) 1024 && ltb addr (2 ^ 32) && addr % 1024 == 0 && all_fit rs

all_fit-FitsLeaf : (rs : List (ℕ × ℕ)) → all_fit rs ≡ true → All FitsLeaf rs
unfolding all_fit
all_fit-FitsLeaf [] h = tt
all_fit-FitsLeaf ((addr, npages) ∷ rs) h = (
  (ground (arith, h), ground (arith, h), ground (arith, h)),
  all_fit-FitsLeaf rs (ground (arith, h)),
)

regions-FitsLeaf : (qemu : Bool) → All FitsLeaf (regions qemu)
unfolding all_fit
regions-FitsLeaf true = all_fit-FitsLeaf (regions true) refl
regions-FitsLeaf false = all_fit-FitsLeaf (regions false) refl

length-regions : (qemu : Bool) → length (regions qemu) ≤ 10
length-regions true = omega arith
length-regions false = omega arith

-- With at least 11 unused pages, `pagetable_identity_map` returns, and then the Sv32 walk of the tables
-- in user mode maps every address of every region to itself, with the permission to read, to write and
-- to execute.
pub pagetable_identity_map-IsIdentity :
    (qemu : Bool) (pid : ℕ) (s : Paging)
    → 11 ≤ free s
    → (s' : Paging) × (pagetable_identity_map qemu pid s ≡ some s')
      × All (IsIdentity s') (regions qemu)
unfolding pagetable_identity_map
pagetable_identity_map-IsIdentity qemu pid s enough =
    let (s1, h1, linked, room) = setup_root-runs pid s (omega arith) in
    let (s', h, all, kept) =
      setup_regions-IsIdentity pid (regions qemu) s1 linked
        (omega (arith, room, length-regions qemu)) (regions-FitsLeaf qemu) in
    (s', rw h1 h, all)
