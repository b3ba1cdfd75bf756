-- ===== src/PageTables/Tests.antt =====
-- An instance of the theorem on the page tables of egos-2000/earth/cpu_mmu.c.
use operating_systems_compon.Base.{◌≡◌, refl, false, some, All, ltb, if◌then◌else◌, arith}
use operating_systems_compon.Mmu.{zero_info}
use operating_systems_compon.Mmu.Room.{count_free}
use operating_systems_compon.PageTables.{Paging, regions, pagetable_identity_map}
use operating_systems_compon.PageTables.Walk.{free}
use operating_systems_compon.PageTables.Identity.{IsIdentity, pagetable_identity_map-IsIdentity}

-- The first 501 pages are in use.
abbrev late : Paging
late = record {
  pages = λ i. if ltb i 501 then record { used = 1; pid = 3; vpage_no = 0 } else zero_info;
  tables = λ p. λ j. 7;
  root = 0;
  pid_to_pagetable_base = λ i. 0;
}

late-free : free late ≡ 11
unfolding count_free
late-free = refl

pagetable_identity_map-IsIdentity_example :
    (s' : Paging) × (pagetable_identity_map false 0 late ≡ some s')
    × All (IsIdentity s') (regions false)
pagetable_identity_map-IsIdentity_example =
    pagetable_identity_map-IsIdentity false 0 late (omega (arith, late-free))
