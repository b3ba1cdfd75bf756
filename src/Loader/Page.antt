-- ===== src/Loader/Page.antt =====
-- The memory of a program after group-16-4/SimpleSmartLoader.c mapped a page of a segment.
use operating_systems_compon.Base.{
  ℕ, ◌+◌, ◌-◌, ◌%◌, ◌^◌, ◌≤◌, ◌<◌, ◌≡◌, refl, ◌∙◌, inl, inr, ◌⊎◌, Bool-cases, true, false, ◌&&◌,
  some, ltb, leb, if◌then◌else◌, add32, arith, lt→ltb,
}
use operating_systems_compon.Loader.{
  page_size, Segment, Memory, System, page_of, writable, zero_bytes, file_end, mem_end, bss_end,
  bss_starts, clear_bss, file_offset,
}

-- What the calls of the system do where they succeed: the page at `base` is replaced, by the bytes of
-- the file from the offset or by zeros, and no other byte of memory.
pub record IsSystem (system : System) (file : ℕ → ℕ) : Type 0 where
  pub file_page : Memory → (base prot offset : ℕ) → Memory
  pub zero_page : Memory → (base prot : ℕ) → Memory
  pub file_ok :
      (m : Memory) (base prot offset : ℕ)
      → system.map_file m base prot offset ≡ some (file_page m base prot offset)
  pub zero_ok :
      (m : Memory) (base prot : ℕ) → system.map_zeros m base prot ≡ some (zero_page m base prot)
  pub room : (n : ℕ) → system.has_room n ≡ true
  pub file_in :
      (m : Memory) (base prot offset a : ℕ)
      → base ≤ a
      → a < base + page_size
      → file_page m base prot offset a ≡ file (offset + (a - base))
  pub file_out :
      (m : Memory) (base prot offset a : ℕ)
      → (a < base) ⊎ (base + page_size ≤ a)
      → file_page m base prot offset a ≡ m a
  pub zero_in :
      (m : Memory) (base prot a : ℕ) → base ≤ a → a < base + page_size → zero_page m base prot a ≡ 0
  pub zero_out :
      (m : Memory) (base prot a : ℕ)
      → (a < base) ⊎ (base + page_size ≤ a)
      → zero_page m base prot a ≡ m a

-- A segment of a proper ELF file: it ends a page before the end of the address space, and addresses
-- and offsets agree within a page, as `mmap` needs.
pub record IsSegment (seg : Segment) : Type 0 where
  pub sizes : seg.p_filesz ≤ seg.p_memsz
  pub fits : seg.p_vaddr + seg.p_memsz + page_size < 2 ^ 32
  pub offset_fits : seg.p_offset + seg.p_memsz + page_size < 2 ^ 32
  pub aligned : seg.p_vaddr % page_size ≡ seg.p_offset % page_size
  pub bss_writable : seg.p_filesz < seg.p_memsz → writable seg ≡ true

-- The byte of the segment at an address.
unfoldable pub image : (ℕ → ℕ) → Segment → ℕ → ℕ
image file seg a =
    if ltb a (seg.p_vaddr + seg.p_filesz) then file (seg.p_offset + (a - seg.p_vaddr)) else 0

-- After a page was loaded: in the page the segment's bytes are there, and no byte beside the page has
-- changed.
pub record IsLoaded (file : ℕ → ℕ) (seg : Segment) (base : ℕ) (m m' : Memory) : Type 0 where
  pub bytes :
      (a : ℕ)
      → base ≤ a
      → a < base + page_size
      → seg.p_vaddr ≤ a
      → a < seg.p_vaddr + seg.p_memsz
      → m' a ≡ image file seg a
  pub beside : (a : ℕ) → (a < base) ⊎ (base + page_size ≤ a) → m' a ≡ m a

pub page_of-le : (a : ℕ) → page_of a ≤ a
unfolding page_of
page_of-le a = omega arith

pub page_of-lt : (a : ℕ) → a < page_of a + page_size
unfolding page_of
page_of-lt a = omega arith

module _ (seg : Segment) (ok : IsSegment seg) where
  pub file_end-lem : file_end seg ≡ seg.p_vaddr + seg.p_filesz
  unfolding file_end
  file_end-lem = omega (arith, ok.sizes, ok.fits)

  mem_end-lem : mem_end seg ≡ seg.p_vaddr + seg.p_memsz
  unfolding mem_end
  mem_end-lem = omega (arith, ok.fits)

  bss_starts-lt : (base : ℕ) → bss_starts seg base ≡ true → seg.p_filesz < seg.p_memsz
  unfolding bss_starts
  bss_starts-lt base h = ground arith

  -- The byte of the file at an address of the segment.
  pub file_offset-lem :
      (fault a : ℕ)
      → seg.p_vaddr ≤ fault
      → fault < seg.p_vaddr + seg.p_memsz
      → page_of fault ≤ a
      → seg.p_vaddr ≤ a
      → a < page_of fault + page_size
      → file_offset seg (page_of fault) + (a - page_of fault) ≡ seg.p_offset + (a - seg.p_vaddr)
  unfolding file_offset page_of
  file_offset-lem fault a lo hi from start upto = omega (arith, ok.fits, ok.offset_fits, ok.aligned)

  module _ (fault : ℕ) (lo : seg.p_vaddr ≤ fault) (hi : fault < seg.p_vaddr + seg.p_memsz) where
    pub page_end : add32 (page_of fault) page_size ≡ page_of fault + page_size
    page_end = omega (arith, page_of-le fault, ok.fits)

    pub zero_bytes-at :
        (start stop : ℕ) (m : Memory) (a : ℕ)
        → zero_bytes start stop m a ≡ (if leb start a && ltb a stop then 0 else m a)
    unfolding zero_bytes
    zero_bytes-at start stop m a = refl

    -- Where the BSS starts in the page, it is cleared up to its end or the end of the page.
    clear_bss-yes :
        (m : Memory)
        → bss_starts seg (page_of fault) ≡ true
        → clear_bss seg (page_of fault) m
          ≡ some (zero_bytes (seg.p_vaddr + seg.p_filesz) (bss_end seg (page_of fault)) m)
    unfolding clear_bss
    clear_bss-yes m h = rw (h, ok.bss_writable (bss_starts-lt (page_of fault) h), file_end-lem) refl

    clear_bss-no :
        (m : Memory)
        → bss_starts seg (page_of fault) ≡ false
        → clear_bss seg (page_of fault) m ≡ some m
    unfolding clear_bss
    clear_bss-no m h = rw h refl

    bss_end-lem :
        (a : ℕ)
        → a < page_of fault + page_size
        → ltb a (bss_end seg (page_of fault)) ≡ ltb a (seg.p_vaddr + seg.p_memsz)
    unfolding bss_end
    bss_end-lem a upto = rw (mem_end-lem, page_end) (ground arith)

    bss_end-le : bss_end seg (page_of fault) ≤ page_of fault + page_size
    unfolding bss_end
    bss_end-le = rw (mem_end-lem, page_end) (ground arith)

    -- Without a BSS in the page all of its bytes of the segment are in the file.
    bss_starts-no :
        (a : ℕ)
        → bss_starts seg (page_of fault) ≡ false
        → fault < seg.p_vaddr + seg.p_filesz
        → a < page_of fault + page_size
        → a < seg.p_vaddr + seg.p_memsz
        → a < seg.p_vaddr + seg.p_filesz
    unfolding bss_starts
    bss_starts-no a h in_file upto below =
        let h' = rw (file_end-lem, page_end) at h in ground (arith, page_of-le fault)

    -- The page after the BSS is cleared.
    pub clear_bss-cleared :
        (m : Memory)
        → fault < seg.p_vaddr + seg.p_filesz
        → (m' : Memory) × (clear_bss seg (page_of fault) m ≡ some m')
          × ((a : ℕ)
              → a < page_of fault + page_size
              → a < seg.p_vaddr + seg.p_memsz
              → m' a ≡ (if ltb a (seg.p_vaddr + seg.p_filesz) then m a else 0))
          × ((a : ℕ) → (a < page_of fault) ⊎ (page_of fault + page_size ≤ a) → m' a ≡ m a)
    clear_bss-cleared m in_file = elim (Bool-cases (bss_starts seg (page_of fault))) [
      | inl h ↦ (
        _,
        clear_bss-yes m h,
        (λ a upto below. zero_bytes-at _ _ m a ∙ rw (bss_end-lem a upto) (ground arith)),
        (λ a out. zero_bytes-at _ _ m a ∙ ground (arith, page_of-le fault, bss_end-le)),
      )
      | inr h ↦ (
        m,
        clear_bss-no m h,
        (λ a upto below.
            let there =
              lt→ltb a (seg.p_vaddr + seg.p_filesz) (bss_starts-no a h in_file upto below) in
            rw there refl),
        (λ a out. refl),
      )
    ]
