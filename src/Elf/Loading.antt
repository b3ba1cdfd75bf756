-- ===== src/Elf/Loading.antt =====
-- What `elf_load` of egos-2000/library/elf/elf.c leaves in the pages of a process.
use operating_systems_compon.Base.{
  ℕ, zero, suc, ap, sym, ◌∙◌, ◌+◌, ◌*◌, ◌/◌, ◌%◌, ◌-◌, ◌≤◌, ◌<◌, ◌≡◌, refl, inl, inr, ℕ-cases, some,
  ltb, false, arith,
}
use operating_systems_compon.Mmu.{Mmu, PageTable, PageInfo, frame}
use operating_systems_compon.Mmu.Room.{IsMapped}
use operating_systems_compon.Elf.{
  Reader, ProgramHeader, Copy, ram_start, start_copy, blocks_of, end_pageno, copy_rounds,
  zero_pages, load_segment,
}
use operating_systems_compon.Elf.Pages.{
  free, Kept, Kept-refl, Kept-trans, Kept-mapped, IsAt, IsAt-Kept, zero_at, zero_at_self,
  zero_at-other, map_zero_page-IsMapped,
}
use operating_systems_compon.Elf.Copying.{Copied}
use operating_systems_compon.Elf.Rounds.{copy_rounds-Copied}

-- The pages of the file part, and all pages of a segment.
abbrev pub file_pages : ProgramHeader → ℕ
file_pages seg = (seg.p_filesz + 4095) / 4096

abbrev pub pages_of : ProgramHeader → ℕ
pages_of seg = file_pages seg + (end_pageno seg - (seg.p_vaddr / 4096 + file_pages seg))

module _ (pid : ℕ) where
  zero_page_IsAt :
      (v i : ℕ) (s : Mmu) (t : PageTable) (o : ℕ)
      → IsMapped pid v i s.pages t
      → IsAt pid v o 0 (record s { pages = t; mem = zero_at i s.mem })
  zero_page_IsAt v i s t o mapped = record {
    page = i;
    used = λ e. absurd (omega (arith, sym (ap (λ (p : PageInfo). p.used) mapped.entry) ∙ e));
    owner = ap (λ (p : PageInfo). p.pid) mapped.entry;
    vpage = ap (λ (p : PageInfo). p.vpage_no) mapped.entry;
    value = zero_at_self i s.mem o;
  }

  pub record IsZeroed (rounds v : ℕ) (s s' : Mmu) : Type 0 where
    pub kept : Kept s s'
    pub zeros : (w o : ℕ) → v ≤ w → w < v + rounds → IsAt pid w o 0 s'
    pub room : free s ≡ rounds + free s'

  pub zero_pages-IsZeroed :
      (rounds v : ℕ) (s : Mmu)
      → rounds ≤ free s
      → (s' : Mmu) × (zero_pages pid rounds v s ≡ some s') × IsZeroed rounds v s s'
  unfolding zero_pages
  zero_pages-IsZeroed zero v s enough = (
    s,
    refl,
    record { kept = Kept-refl s; zeros = λ w o lo hi. absurd (omega arith); room = omega arith },
  )
  zero_pages-IsZeroed (suc rounds) v s enough =
      let (i, t, h, mapped) = map_zero_page-IsMapped pid v s (omega arith) in
      let s1 : Mmu = record s { pages = t; mem = zero_at i s.mem } in
      let kept1 : Kept s s1 =
        Kept-mapped s pid v i t (zero_at i s.mem) mapped (zero_at-other i s.mem) in
      let (s', rest, zeroed) = zero_pages-IsZeroed rounds (v + 1) s1 (omega (arith, mapped.room)) in
      (
        s',
        rw h rest,
        record {
          kept = Kept-trans s s1 s' kept1 zeroed.kept;
          zeros = λ w o lo hi. elim (ℕ-cases v w) [
            | inl e ↦
                IsAt-Kept pid w o 0 s1 s' (rw (← e) (zero_page_IsAt v i s t o mapped)) zeroed.kept
            | inr ne ↦ zeroed.zeros w o (omega arith) (omega arith)
          ];
          room = omega (arith, mapped.room, zeroed.room);
        },
      )

module _ (pid : ℕ) (reader : Reader) where
  -- The bytes that the segment has in the pages of the process: those of the file from the start of the
  -- block of p_offset on, at the start of the page of p_vaddr, and zeros in the pages behind them. For a
  -- segment that starts with a block and a page, this is the file part in its place.
  pub record IsLoaded (seg : ProgramHeader) (s : Mmu) : Type 0 where
    pub bytes :
        (x : ℕ)
        → x < seg.p_filesz
        → IsAt pid
            (seg.p_vaddr / 4096 + x / 4096)
            (x % 4096)
            (reader (seg.p_offset / 512 + x / 512) (x % 512))
            s
    pub zeros :
        (v o : ℕ) → seg.p_vaddr / 4096 + file_pages seg ≤ v → v < end_pageno seg → IsAt pid v o 0 s

  pub IsLoaded-Kept :
      (seg : ProgramHeader) (s s' : Mmu) → IsLoaded seg s → Kept s s' → IsLoaded seg s'
  IsLoaded-Kept seg s s' loaded kept = record {
    bytes = λ x lt. IsAt-Kept pid _ _ _ s s' (loaded.bytes x lt) kept;
    zeros = λ v o lo hi. IsAt-Kept pid v o 0 s s' (loaded.zeros v o lo hi) kept;
  }

  start_Copied :
      (seg : ProgramHeader) (s : Mmu)
      → Copied pid reader seg.p_filesz
          (seg.p_vaddr / 4096)
          (seg.p_offset / 512)
          s
          0
          (start_copy seg s)
  unfolding start_copy
  start_Copied seg s = record {
    pageno = omega arith;
    blockno = omega arith;
    kept = Kept-refl s;
    blocks = λ k lt. absurd (omega arith);
    current = λ part. absurd (omega (arith, part));
    room = omega arith;
  }

  Copied-byte :
      (seg : ProgramHeader) (s : Mmu) (n : ℕ) (c : Copy)
      → Copied pid reader seg.p_filesz (seg.p_vaddr / 4096) (seg.p_offset / 512) s n c
      → seg.p_filesz ≤ n * 512
      → (x : ℕ) → x < seg.p_filesz
      → IsAt pid
          (seg.p_vaddr / 4096 + x / 4096)
          (x % 4096)
          (reader (seg.p_offset / 512 + x / 512) (x % 512))
          c.mmu
  Copied-byte seg s n c copied all x lt =
      let at = copied.blocks (x / 512) (omega arith) (x % 512) (omega arith) (omega arith) in
      let o : x / 512 % 8 * 512 + x % 512 ≡ x % 4096 = omega arith in
      let v : x / 512 / 8 ≡ x / 4096 = omega arith in
      record {
        page = at.page;
        used = at.used;
        owner = at.owner;
        vpage = at.vpage ∙ ap (λ (w : ℕ). seg.p_vaddr / 4096 + w) v;
        value = ap (c.mmu.mem (frame at.page)) (sym o) ∙ at.value;
      }

  -- The file part and the pages behind it.
  load_segment-two :
      (seg : ProgramHeader) (s : Mmu) (c : Copy) (s' : Mmu)
      → ram_start ≤ seg.p_vaddr
      → copy_rounds pid reader seg.p_filesz (blocks_of seg.p_filesz) 0 (start_copy seg s) ≡ some c
      → zero_pages pid (end_pageno seg - c.curr_pageno) c.curr_pageno c.mmu ≡ some s'
      → load_segment pid reader seg s ≡ some s'
  unfolding load_segment
  load_segment-two seg s c s' high h1 h2 =
      let not_low : ltb seg.p_vaddr ram_start ≡ false = ground arith in rw (not_low, h1) h2

  pub load_segment-IsLoaded :
      (seg : ProgramHeader) (s : Mmu)
      → ram_start ≤ seg.p_vaddr
      → pages_of seg ≤ free s
      → (s' : Mmu) × (load_segment pid reader seg s ≡ some s')
        × IsLoaded seg s'
        × Kept s s'
        × (free s ≡ pages_of seg + free s')
  unfolding blocks_of
  load_segment-IsLoaded seg s high enough =
      let n = (seg.p_filesz + 512 - 1) / 512 in
      let (c, h1, copied) =
        copy_rounds-Copied pid reader seg.p_filesz (seg.p_vaddr / 4096) (seg.p_offset / 512) s n 0
          (start_copy seg s) (start_Copied seg s) (omega (arith, enough)) in
      let pageno : c.curr_pageno ≡ seg.p_vaddr / 4096 + file_pages seg =
        omega (arith, copied.pageno) in
      let room : free c.mmu + file_pages seg ≡ free s = omega (arith, copied.room) in
      let (s', h2, zeroed) =
        zero_pages-IsZeroed pid (end_pageno seg - c.curr_pageno) c.curr_pageno c.mmu
          (omega (arith, room, pageno)) in
      (
        s',
        load_segment-two seg s c s' high h1 h2,
        record {
          bytes = λ x lt.
              IsAt-Kept pid _ _ _ c.mmu s' (Copied-byte seg s (0 + n) c copied (omega arith) x lt)
                zeroed.kept;
          zeros = λ v o lo hi. zeroed.zeros v o (omega (arith, pageno)) (omega (arith, pageno));
        },
        Kept-trans s c.mmu s' copied.kept zeroed.kept,
        omega (arith, room, zeroed.room, pageno),
      )
