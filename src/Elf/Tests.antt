-- ===== src/Elf/Tests.antt =====
-- A run of `elf_load` of egos-2000/library/elf/elf.c, and an instance of the theorem on it.
use operating_systems_compon.Base.{
  ◌+◌, ◌≡◌, refl, some, none, ◌∷◌, [], All, update, leb, if◌then◌else◌, arith,
}
use operating_systems_compon.Mmu.{Mmu, Page, zero_info}
use operating_systems_compon.Mmu.Room.{count_free}
use operating_systems_compon.Kernel.Layout.{load_word}
use operating_systems_compon.Elf.{
  Reader, pheaders, segments_from, segment_at, e_phnum, e_phoff, end_pageno, elf_load,
}
use operating_systems_compon.Elf.Pages.{free}
use operating_systems_compon.Elf.Aligned.{IsAligned, IsPlaced, elf_load-IsPlaced}
use operating_systems_compon.Elf.Program.{in_ram, all_pages, Takes}

-- One segment at 0x80200000, with 600 bytes from block 1 on and 9000 bytes in memory.
abbrev pub header : Page
header =
    update
      (update
        (update
          (update (update (update (update (update (update (λ j. 0) 28 52) 44 1) 57 2) 62 32) 63 128)
            68 88)
          69 2)
        72 40)
      73 35

abbrev pub file : Reader
file block = if leb block 0 then header else λ j. j

abbrev pub fresh : Mmu
fresh = record { pages = λ i. zero_info; mem = λ p. λ j. 0; curr_vm_pid = 0 }

pheaders-file :
    pheaders (file 0)
    ≡ record { p_offset = 512; p_vaddr = 0x80200000; p_filesz = 600; p_memsz = 9000 } ∷ []
unfolding pheaders segments_from segment_at e_phnum e_phoff load_word
pheaders-file = refl

-- Two pages, though the segment reaches into a third.
pub all_pages-file : all_pages (in_ram (pheaders (file 0))) ≡ 2
unfolding all_pages in_ram end_pageno
all_pages-file = rw pheaders-file refl

pub fresh-free : free fresh ≡ 512
unfolding count_free
fresh-free = refl

pub file-IsAligned : All IsAligned (in_ram (pheaders (file 0)))
unfolding in_ram
file-IsAligned = rw pheaders-file ((refl, refl), tt)

elf_load-IsPlaced_example :
    (s' : Mmu) × (elf_load 5 file 0 none fresh ≡ some s')
    × All (λ seg. IsPlaced 5 file seg s') (in_ram (pheaders (file 0)))
    × Takes (all_pages (in_ram (pheaders (file 0))) + 4) fresh s'
elf_load-IsPlaced_example =
    elf_load-IsPlaced 5 file 0 none fresh (omega (arith, all_pages-file, fresh-free)) file-IsAligned
