-- ===== src/Loader.antt =====
-- The page fault handler of group-16-4/SimpleSmartLoader.c, which maps a page of a segment at the
-- first access to it.
-- Memory is a function of the address, of 32 bits as in the ELF file. The system calls are an
-- interface. `none` is a fault that is not handled: the program ends with SIGSEGV, also where the
-- handler itself writes to a page without write access.
pub mod Page
pub mod Fault
pub mod Handler
mod Tests
use operating_systems_compon.Base.{
  ℕ, ◌+◌, ◌*◌, ◌/◌, ◌%◌, ◌≤◌, ◌<◌, ◌≡◌, ◌⊎◌, Bool, true, false, ◌&&◌, not, Option, none, some,
  ◌>>=◌, List, [], ◌∷◌, ◌++◌, length, ltb, leb, ◌==◌, if◌then◌else◌, add32, sub32,
}

abbrev pub page_size : ℕ
page_size = 4096

-- `Elf32_Phdr`, the fields that are read.
pub record Segment : Type 0 where
  pub p_type : ℕ
  pub p_offset : ℕ
  pub p_vaddr : ℕ
  pub p_filesz : ℕ
  pub p_memsz : ℕ
  pub p_flags : ℕ

abbrev pub Memory : Type 0
Memory = ℕ → ℕ

-- `mmap` of one page of the open file and of one page of zeros, where `none` is MAP_FAILED, and
-- whether `realloc` can make room for the given number of ranges.
pub record System : Type 0 where
  pub map_file : Memory → (base prot offset : ℕ) → Option Memory
  pub map_zeros : Memory → (base prot : ℕ) → Option Memory
  pub has_room : ℕ → Bool

-- The globals of the loader, and the memory of the program.
pub record Loader : Type 0 where
  pub memory : Memory
  pub map_ranges : List (ℕ × ℕ)
  pub no_page_faults : ℕ
  pub no_allocations : ℕ
  pub no_internal_fragmentation : ℕ

pub page_of : ℕ → ℕ
page_of a = a / page_size * page_size

-- PF_X, PF_W and PF_R as PROT_EXEC, PROT_WRITE and PROT_READ.
pub prot_of : ℕ → ℕ
prot_of flags =
    (if flags / 4 % 2 == 1 then 1 else 0)
    + (if flags / 2 % 2 == 1 then 2 else 0)
    + (if flags % 2 == 1 then 4 else 0)

pub writable : Segment → Bool
writable seg = seg.p_flags / 2 % 2 == 1

-- `memset(start, 0, stop - start)`.
pub zero_bytes : (start stop : ℕ) → Memory → Memory
zero_bytes start stop m a = if leb start a && ltb a stop then 0 else m a

pub file_end : Segment → ℕ
file_end seg = add32 seg.p_vaddr seg.p_filesz

pub mem_end : Segment → ℕ
mem_end seg = add32 seg.p_vaddr seg.p_memsz

-- The end of the BSS in the page at `base`.
pub bss_end : Segment → (base : ℕ) → ℕ
bss_end seg base =
    if leb (mem_end seg) (add32 base page_size) then mem_end seg else add32 base page_size

-- The BSS starts in the page at `base`.
pub bss_starts : Segment → (base : ℕ) → Bool
bss_starts seg base =
    ltb seg.p_filesz seg.p_memsz
    && (leb base (file_end seg) && ltb (file_end seg) (add32 base page_size))

-- Where it does, it is cleared in this page.
pub clear_bss : Segment → (base : ℕ) → Memory → Option Memory
clear_bss seg base m =
    if bss_starts seg base
    then (if writable seg then some (zero_bytes (file_end seg) (bss_end seg base) m) else none)
    else some m

-- The offset in the file of the page at `base`.
pub file_offset : Segment → (base : ℕ) → ℕ
file_offset seg base = add32 (page_of seg.p_offset) (sub32 base (page_of seg.p_vaddr))

-- The bytes of the page at `base` that no part of the segment uses.
pub fragment : Segment → (base : ℕ) → ℕ
fragment seg base =
    let used_start = if ltb base seg.p_vaddr then seg.p_vaddr else base in
    let used_end =
      if ltb (mem_end seg) (add32 base page_size) then mem_end seg else add32 base page_size in
    if ltb used_start used_end then sub32 page_size (sub32 used_end used_start) else 0

-- The segment is PT_LOAD and the address is inside it.
unfoldable pub holds : Segment → ℕ → Bool
holds seg fault = seg.p_type == 1 && (leb seg.p_vaddr fault && ltb fault (mem_end seg))

module _ (system : System) where
  pub map_page : Segment → (fault : ℕ) → Memory → Option Memory
  map_page seg fault m =
      let base = page_of fault in
      if ltb fault (file_end seg)
      then (system.map_file m base (prot_of seg.p_flags) (file_offset seg base)
          >>= clear_bss seg base)
      else (system.map_zeros m base (prot_of seg.p_flags) >>= λ m'.
          if writable seg then some (zero_bytes base (add32 base page_size) m') else none)

  -- The range is noted for the cleanup, and the page is counted.
  pub note_page : Segment → (base : ℕ) → Memory → Loader → Option Loader
  note_page seg base m loader =
      if system.has_room (length loader.map_ranges + 1)
      then some (record loader {
        memory = m;
        map_ranges = loader.map_ranges ++ ((base, page_size) ∷ []);
        no_allocations = add32 loader.no_allocations 1;
        no_internal_fragmentation = add32 loader.no_internal_fragmentation (fragment seg base);
      })
      else none

  pub loader_map_segment : Segment → (fault : ℕ) → Loader → Option Loader
  loader_map_segment seg fault loader =
      map_page seg fault loader.memory >>= λ m. note_page seg (page_of fault) m loader

  pub try_load_for_fault : List Segment → (fault : ℕ) → Loader → Option Loader
  try_load_for_fault [] fault loader = none
  try_load_for_fault (seg ∷ phdr) fault loader =
      let rest = try_load_for_fault phdr fault loader in
      if holds seg fault then loader_map_segment seg fault loader else rest

  pub segv_handler : List Segment → (fault : ℕ) → Loader → Option Loader
  segv_handler phdr fault loader =
      try_load_for_fault phdr fault
        (record loader { no_page_faults = add32 loader.no_page_faults 1 })
