-- ===== src/Elf/Aligned.antt =====
-- What `elf_load` of egos-2000/library/elf/elf.c loads of a file whose segments start at the start of a
-- block and of a page.
use operating_systems_compon.Base.{
  ℕ, ◌+◌, ◌*◌, ◌/◌, ◌%◌, ◌≤◌, ◌<◌, ◌≡◌, Option, some, List, [], ◌∷◌, All, arith, add32,
}
use operating_systems_compon.Mmu.{Mmu, Page}
use operating_systems_compon.Elf.{Reader, ProgramHeader, pheaders, end_pageno, elf_load}
use operating_systems_compon.Elf.Pages.{free, IsAt}
use operating_systems_compon.Elf.Loading.{IsLoaded}
use operating_systems_compon.Elf.Program.{in_ram, all_pages, Takes, elf_load-IsLoaded}

-- The segment starts with a block of the file and with a page of the process.
abbrev pub IsAligned : ProgramHeader → Type 0
IsAligned seg = (seg.p_offset % 512 ≡ 0) × (seg.p_vaddr % 4096 ≡ 0)

-- The byte `x` of the file part stands at the address p_vaddr + x of the process, and there are zeros
-- behind the pages of the file part, up to the page in which the segment ends.
pub record IsPlaced (pid : ℕ) (reader : Reader) (seg : ProgramHeader) (s : Mmu) : Type 0 where
  pub bytes :
      (x : ℕ)
      → x < seg.p_filesz
      → IsAt pid
          ((seg.p_vaddr + x) / 4096)
          ((seg.p_vaddr + x) % 4096)
          (reader ((seg.p_offset + x) / 512) ((seg.p_offset + x) % 512))
          s
  pub zeros :
      (a : ℕ)
      → seg.p_vaddr + (seg.p_filesz + 4095) / 4096 * 4096 ≤ a
      → a / 4096 < add32 seg.p_vaddr seg.p_memsz / 4096
      → IsAt pid (a / 4096) (a % 4096) 0 s

module _ (pid : ℕ) (reader : Reader) where
  IsLoaded-IsPlaced :
      (seg : ProgramHeader) (s : Mmu)
      → IsLoaded pid reader seg s
      → IsAligned seg
      → IsPlaced pid reader seg s
  unfolding end_pageno
  IsLoaded-IsPlaced seg s loaded (block, page) = record {
    bytes = λ x lt.
        let v : (seg.p_vaddr + x) / 4096 ≡ seg.p_vaddr / 4096 + x / 4096 = omega (arith, page) in
        let o : (seg.p_vaddr + x) % 4096 ≡ x % 4096 = omega (arith, page) in
        let b : (seg.p_offset + x) / 512 ≡ seg.p_offset / 512 + x / 512 = omega (arith, block) in
        let i : (seg.p_offset + x) % 512 ≡ x % 512 = omega (arith, block) in
        rw (v, o, b, i) (loaded.bytes x lt);
    zeros = λ a lo hi. loaded.zeros (a / 4096) (a % 4096) (omega (arith, lo, page)) hi;
  }

  All-IsPlaced :
      (segs : List ProgramHeader) (s : Mmu)
      → All (λ seg. IsLoaded pid reader seg s) segs
      → All IsAligned segs
      → All (λ seg. IsPlaced pid reader seg s) segs
  All-IsPlaced [] s all aligned = tt
  All-IsPlaced (seg ∷ segs) s (one, all) (here, aligned) =
      (IsLoaded-IsPlaced seg s one here, All-IsPlaced segs s all aligned)

  -- With enough unused pages, `elf_load` returns. Then of every segment from RAM_START on, where each
  -- of these starts at the start of a block of the file and of a page: the byte p_offset + x of the file
  -- stands at the address p_vaddr + x of the process, for every x below p_filesz, and zeros in the whole
  -- pages behind them up to, but without, the page of its end; the pages in use before keep their
  -- entries and bytes; and exactly the pages of the segments and four more are taken.
  pub elf_load-IsPlaced :
      (argc : ℕ) (argv : Option Page) (s : Mmu)
      → all_pages (in_ram (pheaders (reader 0))) + 4 ≤ free s
      → All IsAligned (in_ram (pheaders (reader 0)))
      → (s' : Mmu) × (elf_load pid reader argc argv s ≡ some s')
        × All (λ seg. IsPlaced pid reader seg s') (in_ram (pheaders (reader 0)))
        × Takes (all_pages (in_ram (pheaders (reader 0))) + 4) s s'
  elf_load-IsPlaced argc argv s enough aligned =
      let (s', h, all, takes) = elf_load-IsLoaded pid reader argc argv s enough in
      (s', h, All-IsPlaced (in_ram (pheaders (reader 0))) s' all aligned, takes)
