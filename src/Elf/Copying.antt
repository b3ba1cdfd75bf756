-- ===== src/Elf/Copying.antt =====
-- The loop of `elf_load` in egos-2000/library/elf/elf.c over the blocks of the file.
use operating_systems_compon.Base.{
  ℕ, ap, ◌∙◌, ◌+◌, ◌*◌, ◌/◌, ◌%◌, ◌≤◌, ◌<◌, ◌≡◌, ◌≢◌, refl, inl, inr, ℕ-cases, true, false, some,
  ◌==◌, arith, eq→==, ne→==,
}
use operating_systems_compon.Mmu.{Mmu, PageTable}
use operating_systems_compon.Mmu.Room.{IsMapped}
use operating_systems_compon.Elf.{Reader, Copy, page_for, map_zero_page}
use operating_systems_compon.Elf.Pages.{
  free, zero_at, zero_at-other, map_zero_page-IsMapped, Kept, Kept-trans, Kept-mapped,
  unused_before, IsAt, IsAt-Kept,
}

module _ (pid : ℕ) (reader : Reader) (filesz first block : ℕ) (s0 : Mmu) where
  -- The bytes of block `k` of the file part.
  abbrev pub IsCopied : ℕ → Mmu → Type 0
  IsCopied k s =
      (j : ℕ)
      → j < 512
      → k * 512 + j < filesz
      → IsAt pid (first + k / 8) (k % 8 * 512 + j) (reader (block + k) j) s

  -- The page of the loop, for block `n`.
  pub record IsCurrent (n : ℕ) (c : Copy) : Type 0 where
    pub entry : c.mmu.pages c.ppage_id ≡ record { used = 1; pid = pid; vpage_no = first + n / 8 }
    pub fresh : (s0.pages c.ppage_id).used ≡ 0

  -- Before round `n`.
  pub record Copied (n : ℕ) (c : Copy) : Type 0 where
    pub pageno : c.curr_pageno ≡ first + (n + 7) / 8
    pub blockno : c.curr_blockno ≡ block + n
    pub kept : Kept s0 c.mmu
    pub blocks : (k : ℕ) → k < n → IsCopied k c.mmu
    pub current : n % 8 ≢ 0 → IsCurrent n c
    pub room : free c.mmu + (n + 7) / 8 ≡ free s0

  -- In round `n`, with its page.
  pub record Ready (n : ℕ) (c : Copy) : Type 0 where
    pub pageno : c.curr_pageno ≡ first + n / 8 + 1
    pub blockno : c.curr_blockno ≡ block + n
    pub kept : Kept s0 c.mmu
    pub blocks : (k : ℕ) → k < n → IsCopied k c.mmu
    pub current : IsCurrent n c
    pub room : free c.mmu + (n / 8 + 1) ≡ free s0

  IsCopied-Kept : (k : ℕ) (s s' : Mmu) → IsCopied k s → Kept s s' → IsCopied k s'
  IsCopied-Kept k s s' copied kept j lt below =
      IsAt-Kept pid (first + k / 8) (k % 8 * 512 + j) (reader (block + k) j) s s'
        (copied j lt below) kept

  page_for-new :
      (n : ℕ) (c : Copy) (i : ℕ) (t : PageTable)
      → n % 8 ≡ 0
      → map_zero_page pid c.curr_pageno c.mmu
        ≡ some (i, record (c.mmu) { pages = t; mem = zero_at i c.mmu.mem })
      → page_for pid (n * 512) c
        ≡ some (record c {
          mmu = record (c.mmu) { pages = t; mem = zero_at i c.mmu.mem };
          ppage_id = i;
          curr_pageno = c.curr_pageno + 1;
        })
  unfolding page_for
  page_for-new n c i t full h =
      let e : (n * 512 % 4096 == 0) ≡ true = eq→== (n * 512 % 4096) 0 (omega (arith, full)) in
      rw (e, h) refl

  page_for-old : (n : ℕ) (c : Copy) → n % 8 ≢ 0 → page_for pid (n * 512) c ≡ some c
  unfolding page_for
  page_for-old n c part =
      let e : (n * 512 % 4096 == 0) ≡ false =
        ne→== (n * 512 % 4096) 0 (λ z. part (omega (arith, z))) in
      rw e refl

  Ready-new :
      (n : ℕ) (c : Copy) (i : ℕ) (t : PageTable)
      → n % 8 ≡ 0
      → Copied n c
      → IsMapped pid c.curr_pageno i c.mmu.pages t
      → Ready n (record c {
        mmu = record (c.mmu) { pages = t; mem = zero_at i c.mmu.mem };
        ppage_id = i;
        curr_pageno = c.curr_pageno + 1;
      })
  Ready-new n c i t full copied mapped =
      let s' : Mmu = record (c.mmu) { pages = t; mem = zero_at i c.mmu.mem } in
      let keeps : Kept c.mmu s' =
        Kept-mapped c.mmu pid c.curr_pageno i t (zero_at i c.mmu.mem) mapped
          (zero_at-other i c.mmu.mem) in
      let v : c.curr_pageno ≡ first + n / 8 = omega (arith, full, copied.pageno) in
      record {
        pageno = omega (arith, v);
        blockno = copied.blockno;
        kept = Kept-trans s0 c.mmu s' copied.kept keeps;
        blocks = λ k lt. IsCopied-Kept k c.mmu s' (copied.blocks k lt) keeps;
        current = record {
          entry = mapped.entry ∙ ap (λ (p : ℕ). record { used = 1; pid = pid; vpage_no = p }) v;
          fresh = unused_before s0 c.mmu copied.kept i mapped.unused;
        };
        room = omega (arith, full, copied.room, mapped.room);
      }

  Ready-old : (n : ℕ) (c : Copy) → n % 8 ≢ 0 → Copied n c → Ready n c
  Ready-old n c part copied = record {
    pageno = omega (arith, part, copied.pageno);
    blockno = copied.blockno;
    kept = copied.kept;
    blocks = copied.blocks;
    current = copied.current part;
    room = omega (arith, part, copied.room);
  }

  pub page_for-Ready :
      (n : ℕ) (c : Copy)
      → Copied n c
      → (n + 8) / 8 ≤ free s0
      → (c' : Copy) × (page_for pid (n * 512) c ≡ some c') × Ready n c'
  page_for-Ready n c copied enough = elim (ℕ-cases (n % 8) 0) [
    | inl full ↦
        let (i, t, h, mapped) =
          map_zero_page-IsMapped pid c.curr_pageno c.mmu (omega (arith, full, copied.room)) in
        (_, page_for-new n c i t full h, Ready-new n c i t full copied mapped)
    | inr part ↦ (c, page_for-old n c part, Ready-old n c part copied)
  ]
