-- ===== src/Elf/Program.antt =====
-- What `elf_load` of egos-2000/library/elf/elf.c does for a whole file.
use operating_systems_compon.Base.{
  ℕ, ap, ◌+◌, ◌-◌, ◌/◌, ◌≤◌, ◌<◌, ◌≡◌, refl, inl, inr, Option, some, List, [], ◌∷◌, Bool-cases,
  true, false, ltb, if◌then◌else◌, update, update_ne, All, arith,
}
use operating_systems_compon.Mmu.{Mmu, Page, Memory, frame, page_size}
use operating_systems_compon.Kernel.{apps_arg, syscall_arg}
use operating_systems_compon.Elf.{
  Reader, ProgramHeader, ram_start, apps_stack_top, pheaders, load_segment, load_segments, map_page,
  map_args, map_rest, put_args, elf_load,
}
use operating_systems_compon.Elf.Pages.{
  free, Kept, Kept-refl, Kept-trans, Kept-mapped, map_page-IsMapped,
}
use operating_systems_compon.Elf.Loading.{IsLoaded, IsLoaded-Kept, load_segment-IsLoaded, pages_of}

-- The segments from RAM_START on, and their pages.
unfoldable pub in_ram : List ProgramHeader → List ProgramHeader
in_ram [] = []
in_ram (seg ∷ segs) =
    let rest = in_ram segs in if ltb seg.p_vaddr ram_start then rest else seg ∷ rest

unfoldable pub all_pages : List ProgramHeader → ℕ
all_pages [] = 0
all_pages (seg ∷ segs) = pages_of seg + all_pages segs

-- A step that takes `n` pages and keeps what is in use.
pub record Takes (n : ℕ) (s s' : Mmu) : Type 0 where
  pub kept : Kept s s'
  pub room : free s ≡ n + free s'

Takes-trans : (m n : ℕ) (s1 s2 s3 : Mmu) → Takes m s1 s2 → Takes n s2 s3 → Takes (m + n) s1 s3
Takes-trans m n s1 s2 s3 a b = record {
  kept = Kept-trans s1 s2 s3 a.kept b.kept;
  room = omega (arith, a.room, b.room);
}

map_page-Takes :
    (pid vpage_no : ℕ) (s : Mmu)
    → 0 < free s
    → (i : ℕ) × (s' : Mmu) × (map_page pid vpage_no s ≡ some (i, s')) × Takes 1 s s'
map_page-Takes pid vpage_no s enough =
    let (i, t, h, mapped) = map_page-IsMapped pid vpage_no s enough in
    let s' : Mmu = record s { pages = t } in
    let kept : Kept s s' = Kept-mapped s pid vpage_no i t s.mem mapped (λ j ne. refl) in
    (i, s', h, record { kept = kept; room = omega (arith, mapped.room) })

map_args-Takes :
    (pid argc : ℕ) (argv : Option Page) (s : Mmu)
    → 0 < free s
    → (s' : Mmu) × (map_args pid argc argv s ≡ some s') × Takes 1 s s'
unfolding map_args
map_args-Takes pid argc argv s enough =
    let (i, t, h, mapped) = map_page-IsMapped pid (apps_arg / page_size) s enough in
    let m : Memory = update s.mem (frame i) (put_args argc argv (s.mem (frame i))) in
    let kept : Kept s (record s { pages = t; mem = m }) =
      Kept-mapped s pid (apps_arg / page_size) i t m mapped
        (λ j ne. update_ne s.mem (frame i) _ (frame j) (λ e. ne (omega (arith, e)))) in
    (
      record s { pages = t; mem = m },
      rw h refl,
      record { kept = kept; room = omega (arith, mapped.room) },
    )

map_rest-Takes :
    (pid : ℕ) (s : Mmu) → 3 ≤ free s → (s' : Mmu) × (map_rest pid s ≡ some s') × Takes 3 s s'
unfolding map_rest
map_rest-Takes pid s enough =
    let (i, s1, h1, t1) = map_page-Takes pid (syscall_arg / page_size) s (omega arith) in
    let (j, s2, h2, t2) =
      map_page-Takes pid (apps_stack_top / page_size - 1) s1 (omega (arith, t1.room)) in
    let (k, s3, h3, t3) =
      map_page-Takes pid (apps_stack_top / page_size - 2) s2 (omega (arith, t1.room, t2.room)) in
    (s3, rw (h1, h2, h3) refl, Takes-trans 1 2 s s1 s3 t1 (Takes-trans 1 1 s1 s2 s3 t2 t3))

module _ (pid : ℕ) (reader : Reader) where
  load_segment-low :
      (seg : ProgramHeader) (s : Mmu)
      → ltb seg.p_vaddr ram_start ≡ true
      → load_segment pid reader seg s ≡ some s
  unfolding load_segment
  load_segment-low seg s low = rw low refl

  in_ram_low :
      (seg : ProgramHeader) (segs : List ProgramHeader)
      → ltb seg.p_vaddr ram_start ≡ true
      → in_ram (seg ∷ segs) ≡ in_ram segs
  unfolding in_ram
  in_ram_low seg segs low = rw low refl

  in_ram_high :
      (seg : ProgramHeader) (segs : List ProgramHeader)
      → ltb seg.p_vaddr ram_start ≡ false
      → in_ram (seg ∷ segs) ≡ seg ∷ in_ram segs
  unfolding in_ram
  in_ram_high seg segs high = rw high refl

  All-Kept :
      (segs : List ProgramHeader) (s s' : Mmu)
      → All (λ seg. IsLoaded pid reader seg s) segs
      → Kept s s'
      → All (λ seg. IsLoaded pid reader seg s') segs
  All-Kept [] s s' all kept = tt
  All-Kept (seg ∷ segs) s s' (one, all) kept =
      (IsLoaded-Kept pid reader seg s s' one kept, All-Kept segs s s' all kept)

  -- The segments of a file run to their end, with those that are loaded.
  abbrev SegmentsLoaded : (ones segs : List ProgramHeader) → Mmu → Type 0
  SegmentsLoaded ones segs s =
      (s' : Mmu) × (load_segments pid reader segs s ≡ some s')
      × All (λ seg. IsLoaded pid reader seg s') ones
      × Takes (all_pages ones) s s'

  load_segments_step :
      (seg : ProgramHeader) (segs : List ProgramHeader) (s s1 s' : Mmu)
      → load_segment pid reader seg s ≡ some s1
      → load_segments pid reader segs s1 ≡ some s'
      → load_segments pid reader (seg ∷ segs) s ≡ some s'
  unfolding load_segments
  load_segments_step seg segs s s1 s' h1 h = rw h1 h

  load_segments-low :
      (seg : ProgramHeader) (segs : List ProgramHeader) (s : Mmu)
      → ltb seg.p_vaddr ram_start ≡ true
      → SegmentsLoaded (in_ram segs) segs s
      → SegmentsLoaded (in_ram segs) (seg ∷ segs) s
  load_segments-low seg segs s low (s', h, all, takes) =
      (s', load_segments_step seg segs s s s' (load_segment-low seg s low) h, all, takes)

  load_segments-high :
      (seg : ProgramHeader) (segs : List ProgramHeader) (s s1 : Mmu)
      → load_segment pid reader seg s ≡ some s1
      → IsLoaded pid reader seg s1
      → Takes (pages_of seg) s s1
      → SegmentsLoaded (in_ram segs) segs s1
      → SegmentsLoaded (seg ∷ in_ram segs) (seg ∷ segs) s
  unfolding all_pages
  load_segments-high seg segs s s1 h1 one step (s', h, all, takes) = (
    s',
    load_segments_step seg segs s s1 s' h1 h,
    (IsLoaded-Kept pid reader seg s1 s' one takes.kept, all),
    Takes-trans (pages_of seg) (all_pages (in_ram segs)) s s1 s' step takes,
  )

  all_pages-cons :
      (seg : ProgramHeader) (segs : List ProgramHeader)
      → all_pages (seg ∷ segs) ≡ pages_of seg + all_pages segs
  unfolding all_pages
  all_pages-cons seg segs = refl

  load_segments-nil : (s : Mmu) → SegmentsLoaded (in_ram []) [] s
  unfolding load_segments in_ram all_pages
  load_segments-nil s = (s, refl, tt, record { kept = Kept-refl s; room = omega arith })

  pub load_segments-IsLoaded :
      (segs : List ProgramHeader) (s : Mmu)
      → all_pages (in_ram segs) ≤ free s
      → SegmentsLoaded (in_ram segs) segs s
  load_segments-IsLoaded [] s enough = load_segments-nil s
  load_segments-IsLoaded (seg ∷ segs) s enough = elim (Bool-cases (ltb seg.p_vaddr ram_start)) [
    | inl low ↦
        let same = in_ram_low seg segs low in
        let rest = load_segments-IsLoaded segs s (rw same at enough) in
        rw same (load_segments-low seg segs s low rest)
    | inr high ↦
        let same = in_ram_high seg segs high in
        let enough' : pages_of seg + all_pages (in_ram segs) ≤ free s =
          omega (arith, enough, ap all_pages same, all_pages-cons seg (in_ram segs)) in
        let (s1, h1, one, kept, room) =
          load_segment-IsLoaded pid reader seg s (ground (arith, high)) (omega (arith, enough')) in
        let rest = load_segments-IsLoaded segs s1 (omega (arith, enough', room)) in
        rw same (load_segments-high seg segs s s1 h1 one (record { kept = kept; room = room }) rest)
  ]

  -- With enough unused pages, `elf_load` returns, and all segments from RAM_START on are loaded.
  pub elf_load-IsLoaded :
      (argc : ℕ) (argv : Option Page) (s : Mmu)
      → all_pages (in_ram (pheaders (reader 0))) + 4 ≤ free s
      → (s' : Mmu) × (elf_load pid reader argc argv s ≡ some s')
        × All (λ seg. IsLoaded pid reader seg s') (in_ram (pheaders (reader 0)))
        × Takes (all_pages (in_ram (pheaders (reader 0))) + 4) s s'
  unfolding elf_load
  elf_load-IsLoaded argc argv s enough =
      let segs = pheaders (reader 0) in
      let (s1, h1, all, t1) = load_segments-IsLoaded segs s (omega arith) in
      let (s2, h2, t2) = map_args-Takes pid argc argv s1 (omega (arith, t1.room)) in
      let (s3, h3, t3) = map_rest-Takes pid s2 (omega (arith, t1.room, t2.room)) in
      let t23 = Takes-trans 1 3 s1 s2 s3 t2 t3 in
      (
        s3,
        rw (h1, h2, h3) refl,
        All-Kept (in_ram segs) s1 s3 all t23.kept,
        Takes-trans (all_pages (in_ram segs)) 4 s s1 s3 t1 t23,
      )
