-- ===== src/Loader/Fault.antt =====
-- One page fault that group-16-4/SimpleSmartLoader.c handles.
use operating_systems_compon.Base.{
  ℕ, ◌+◌, ◌≤◌, ◌<◌, ◌≡◌, refl, ◌∙◌, inl, inr, ◌⊎◌, some, [], ◌∷◌, ◌++◌, length, ltb, if◌then◌else◌,
  add32, arith, lt→ltb, le→ltb,
}
use operating_systems_compon.Loader.{
  page_size, Segment, Memory, System, Loader, page_of, prot_of, zero_bytes, clear_bss, file_offset,
  fragment, map_page, note_page, loader_map_segment,
}
use operating_systems_compon.Loader.Page.{
  IsSystem, IsSegment, image, IsLoaded, page_of-le, page_end, file_end-lem, file_offset-lem,
  zero_bytes-at, clear_bss-cleared,
}

module _ {system : System} {file : ℕ → ℕ} (law : IsSystem system file) (seg : Segment)
    (ok : IsSegment seg) (fault : ℕ) (lo : seg.p_vaddr ≤ fault)
    (hi : fault < seg.p_vaddr + seg.p_memsz) (m : Memory) where
  -- The page that `mmap` gives for a fault in the file's part.
  mapped : Memory
  mapped = law.file_page m (page_of fault) (prot_of seg.p_flags) (file_offset seg (page_of fault))

  map_page-file :
      fault < seg.p_vaddr + seg.p_filesz
      → map_page system seg fault m ≡ clear_bss seg (page_of fault) mapped
  unfolding map_page mapped
  map_page-file in_file =
      rw
        (
          file_end-lem seg ok,
          lt→ltb fault _ in_file,
          law.file_ok m (page_of fault) (prot_of seg.p_flags) (file_offset seg (page_of fault)),
        )
        refl

  IsLoaded-file :
      (m' : Memory)
      → ((a : ℕ)
          → a < page_of fault + page_size
          → a < seg.p_vaddr + seg.p_memsz
          → m' a ≡ (if ltb a (seg.p_vaddr + seg.p_filesz) then mapped a else 0))
      → ((a : ℕ) → (a < page_of fault) ⊎ (page_of fault + page_size ≤ a) → m' a ≡ mapped a)
      → IsLoaded file seg (page_of fault) m m'
  unfolding mapped image
  IsLoaded-file m' inside outside = record {
    bytes = λ a from upto start below.
        inside a upto below
        ∙ rw
            (
              law.file_in m (page_of fault) (prot_of seg.p_flags) (file_offset seg (page_of fault))
                  a from upto,
              file_offset-lem seg ok fault a lo hi from start upto,
            )
            refl;
    beside = λ a out.
        outside a out
        ∙ law.file_out m (page_of fault) (prot_of seg.p_flags) (file_offset seg (page_of fault)) a
            out;
  }

  -- The page of a fault in the file's part holds the segment.
  map_page-IsLoaded :
      fault < seg.p_vaddr + seg.p_filesz
      → (m' : Memory) × (map_page system seg fault m ≡ some m')
        × IsLoaded file seg (page_of fault) m m'
  map_page-IsLoaded in_file =
      let (m', runs, inside, outside) = clear_bss-cleared seg ok fault lo hi mapped in_file in
      (m', map_page-file in_file ∙ runs, IsLoaded-file m' inside outside)

  map_page-zeros :
      seg.p_vaddr + seg.p_filesz ≤ fault
      → map_page system seg fault m
        ≡ some (
            zero_bytes
              (page_of fault)
              (page_of fault + page_size)
              (law.zero_page m (page_of fault) (prot_of seg.p_flags)))
  unfolding map_page
  map_page-zeros beyond =
      rw
        (
          file_end-lem seg ok,
          le→ltb fault (seg.p_vaddr + seg.p_filesz) beyond,
          law.zero_ok m (page_of fault) (prot_of seg.p_flags),
          ok.bss_writable (omega arith),
          page_end seg ok fault lo hi,
        )
        refl

  -- All of the page of a fault beyond the file's part is 0.
  zeros-at :
      (a : ℕ)
      → page_of fault ≤ a
      → a < page_of fault + page_size
      → zero_bytes
          (page_of fault)
          (page_of fault + page_size)
          (law.zero_page m (page_of fault) (prot_of seg.p_flags))
          a
        ≡ 0
  unfolding zero_bytes
  zeros-at a from upto =
      ground (arith, law.zero_in m (page_of fault) (prot_of seg.p_flags) a from upto)

  IsLoaded-zeros :
      seg.p_vaddr + seg.p_filesz ≤ page_of fault
      → IsLoaded file seg (page_of fault) m (
          zero_bytes
            (page_of fault)
            (page_of fault + page_size)
            (law.zero_page m (page_of fault) (prot_of seg.p_flags)))
  unfolding image
  IsLoaded-zeros whole = record {
    bytes = λ a from upto start below.
        let beyond = le→ltb a (seg.p_vaddr + seg.p_filesz) (omega arith) in
        rw beyond (zeros-at a from upto);
    beside = λ a out.
        zero_bytes-at seg ok fault lo hi (page_of fault) (page_of fault + page_size) _ a
        ∙ (ground (arith, law.zero_out m (page_of fault) (prot_of seg.p_flags) a out));
  }

  map_page-either :
      (fault < seg.p_vaddr + seg.p_filesz) ⊎ (seg.p_vaddr + seg.p_filesz ≤ page_of fault)
      → (m' : Memory) × (map_page system seg fault m ≡ some m')
        × IsLoaded file seg (page_of fault) m m'
  map_page-either (inl in_file) = map_page-IsLoaded in_file
  map_page-either (inr whole) =
      (_, map_page-zeros (omega (arith, page_of-le fault)), IsLoaded-zeros whole)

-- The loader after it took a page at `base` with memory `m'`.
pub noted : Segment → (base : ℕ) → Memory → Loader → Loader
noted seg base m' loader = record loader {
  memory = m';
  map_ranges = loader.map_ranges ++ ((base, page_size) ∷ []);
  no_allocations = add32 loader.no_allocations 1;
  no_internal_fragmentation = add32 loader.no_internal_fragmentation (fragment seg base);
}

module _ {system : System} {file : ℕ → ℕ} (law : IsSystem system file) (seg : Segment)
    (ok : IsSegment seg) (fault : ℕ) (lo : seg.p_vaddr ≤ fault)
    (hi : fault < seg.p_vaddr + seg.p_memsz) (loader : Loader) where
  loader_map_segment-noted :
      (m' : Memory)
      → map_page system seg fault loader.memory ≡ some m'
      → loader_map_segment system seg fault loader ≡ some (noted seg (page_of fault) m' loader)
  unfolding loader_map_segment note_page noted
  loader_map_segment-noted m' e = rw (e, law.room (length loader.map_ranges + 1)) refl

  -- Where the system calls succeed, the segment is proper and a fault inside it is in the part that
  -- the file has, or in a page with none of that part, `loader_map_segment` returns 0 with the page
  -- noted and counted, the bytes of the segment in that page are those of the file and 0 beyond them,
  -- and no byte beside the page has changed.
  pub loader_map_segment-IsLoaded :
      (fault < seg.p_vaddr + seg.p_filesz) ⊎ (seg.p_vaddr + seg.p_filesz ≤ page_of fault)
      → (m' : Memory) × (loader_map_segment system seg fault loader
          ≡ some (noted seg (page_of fault) m' loader))
        × IsLoaded file seg (page_of fault) loader.memory m'
  loader_map_segment-IsLoaded where_it_is =
      let (m', runs, loaded) = map_page-either law seg ok fault lo hi loader.memory where_it_is in
      (m', loader_map_segment-noted m' runs, loaded)

  -- Where the system calls succeed, the segment is proper and a fault inside it is beyond the part that
  -- the file has, `loader_map_segment` returns 0 and every byte of the page is 0 afterwards, also one
  -- that the file has.
  pub loader_map_segment-lost :
      seg.p_vaddr + seg.p_filesz ≤ fault
      → (m' : Memory) × (loader_map_segment system seg fault loader
          ≡ some (noted seg (page_of fault) m' loader))
        × ((a : ℕ) → page_of fault ≤ a → a < page_of fault + page_size → m' a ≡ 0)
  loader_map_segment-lost beyond = (
    _,
    loader_map_segment-noted _ (map_page-zeros law seg ok fault lo hi loader.memory beyond),
    zeros-at law seg ok fault lo hi loader.memory,
  )
