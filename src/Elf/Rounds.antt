-- ===== src/Elf/Rounds.antt =====
-- The rounds of the loop of `elf_load` in egos-2000/library/elf/elf.c over the blocks of the file.
use operating_systems_compon.Base.{
  ℕ, zero, suc, ap, sym, ◌∙◌, ◌+◌, ◌*◌, ◌/◌, ◌%◌, ◌≤◌, ◌<◌, ◌≡◌, refl, inl, inr, ℕ-cases, some,
  arith,
}
use operating_systems_compon.Mmu.{Mmu, Page, PageTable, PageInfo, frame, apps_pages_cnt}
use operating_systems_compon.Mmu.Room.{count_free}
use operating_systems_compon.Elf.{Reader, Copy, put_block, copy_round, copy_rounds}
use operating_systems_compon.Elf.Pages.{free, Kept, used_ne}
use operating_systems_compon.Elf.Copying.{IsCopied, Copied, Ready, page_for-Ready}
use operating_systems_compon.Elf.Blocks.{
  put_block-pages, put_block-fields, put_block-other, put_block-below, put_block-in,
}

module _ (pid : ℕ) (reader : Reader) (filesz first block : ℕ) (s0 : Mmu) where
  module _ (n : ℕ) (c : Copy) (ready : Ready pid reader filesz first block s0 n c) where
    put_block-Kept : Kept s0 (put_block reader filesz (n * 512) c).mmu
    put_block-Kept = record {
      entries = λ j used.
          ap (λ (t : PageTable). t j) (put_block-pages reader filesz n c)
          ∙ ready.kept.entries j used;
      bytes = λ j used.
          put_block-other reader filesz n c j (used_ne s0 c.ppage_id j ready.current.fresh used)
          ∙ ready.kept.bytes j used;
    }

    entry_of : (j : ℕ) → (put_block reader filesz (n * 512) c).mmu.pages j ≡ c.mmu.pages j
    entry_of j = ap (λ (t : PageTable). t j) (put_block-pages reader filesz n c)

    -- The bytes of an earlier block, in the page of the loop or another one.
    earlier_value :
        (k j q : ℕ)
        → k < n
        → j < 512
        → (c.mmu.pages q).vpage_no ≡ first + k / 8
        → (put_block reader filesz (n * 512) c).mmu.mem (frame q) (k % 8 * 512 + j)
          ≡ c.mmu.mem (frame q) (k % 8 * 512 + j)
    earlier_value k j q before lt vpage = elim (ℕ-cases c.ppage_id q) [
      | inl e ↦
          let same : first + n / 8 ≡ first + k / 8 =
            sym (ap (λ (p : PageInfo). p.vpage_no) ready.current.entry)
            ∙ ap (λ (i : ℕ). (c.mmu.pages i).vpage_no) e
            ∙ vpage in
          rw (← e) (put_block-below reader filesz n c (k % 8 * 512 + j) (omega (arith, same)))
      | inr ne ↦ ap (λ (p : Page). p (k % 8 * 512 + j)) (put_block-other reader filesz n c q ne)
    ]

    earlier-IsCopied :
        (k : ℕ)
        → k < n
        → IsCopied pid reader filesz first block s0 k (put_block reader filesz (n * 512) c).mmu
    earlier-IsCopied k before j lt below =
        let at = ready.blocks k before j lt below in
        let entry = entry_of at.page in
        record {
          page = at.page;
          used = λ e. at.used (sym (ap (λ (p : PageInfo). p.used) entry) ∙ e);
          owner = ap (λ (p : PageInfo). p.pid) entry ∙ at.owner;
          vpage = ap (λ (p : PageInfo). p.vpage_no) entry ∙ at.vpage;
          value = earlier_value k j at.page before lt at.vpage ∙ at.value;
        }

    this-IsCopied :
        IsCopied pid reader filesz first block s0 n (put_block reader filesz (n * 512) c).mmu
    this-IsCopied j lt below =
        let entry = entry_of c.ppage_id ∙ ready.current.entry in
        record {
          page = c.ppage_id;
          used = λ e. absurd (omega (arith, sym (ap (λ (p : PageInfo). p.used) entry) ∙ e));
          owner = ap (λ (p : PageInfo). p.pid) entry;
          vpage = ap (λ (p : PageInfo). p.vpage_no) entry;
          value =
              put_block-in reader filesz n c j lt below ∙ ap (λ (b : ℕ). reader b j) ready.blockno;
        }

    put_block-Copied :
        Copied pid reader filesz first block s0 (n + 1) (put_block reader filesz (n * 512) c)
    put_block-Copied =
        let (same_id, same_pageno, next_block) = put_block-fields reader filesz n c in
        let same_room : free (put_block reader filesz (n * 512) c).mmu ≡ free c.mmu =
          ap (count_free apps_pages_cnt) (put_block-pages reader filesz n c) in
        record {
          pageno = omega (arith, same_pageno, ready.pageno);
          blockno = omega (arith, next_block, ready.blockno);
          kept = put_block-Kept;
          blocks = λ k lt. elim (ℕ-cases k n) [
            | inl e ↦ transport_block e
            | inr ne ↦ earlier-IsCopied k (omega (arith, lt, ne))
          ];
          current = λ part. record {
            entry =
                ap (put_block reader filesz (n * 512) c).mmu.pages same_id
                ∙ entry_of c.ppage_id
                ∙ ready.current.entry
                ∙ ap (λ (v : ℕ). record { used = 1; pid = pid; vpage_no = v })
                    (omega (arith, part));
            fresh = ap (λ (i : ℕ). (s0.pages i).used) same_id ∙ ready.current.fresh;
          };
          room = omega (arith, same_room, ready.room);
        }
      where
        transport_block :
            {k : ℕ}
            → k ≡ n
            → IsCopied pid reader filesz first block s0 k (put_block reader filesz (n * 512) c).mmu
        transport_block e = rw e this-IsCopied

  copy_round-Copied :
      (n : ℕ) (c : Copy)
      → Copied pid reader filesz first block s0 n c
      → (n + 8) / 8 ≤ free s0
      → (c' : Copy) × (copy_round pid reader filesz (n * 512) c ≡ some c')
        × Copied pid reader filesz first block s0 (n + 1) c'
  unfolding copy_round
  copy_round-Copied n c copied enough =
      let (c', h, ready) = page_for-Ready pid reader filesz first block s0 n c copied enough in
      (put_block reader filesz (n * 512) c', rw h refl, put_block-Copied n c' ready)

  pub copy_rounds-Copied :
      (rounds n : ℕ) (c : Copy)
      → Copied pid reader filesz first block s0 n c
      → (n + rounds + 7) / 8 ≤ free s0
      → (c' : Copy) × (copy_rounds pid reader filesz rounds (n * 512) c ≡ some c')
        × Copied pid reader filesz first block s0 (n + rounds) c'
  unfolding copy_rounds
  copy_rounds-Copied zero n c copied enough =
      let e : n + 0 ≡ n = omega arith in (c, refl, rw e copied)
  copy_rounds-Copied (suc rounds) n c copied enough =
      let (c1, h, copied1) = copy_round-Copied n c copied (omega arith) in
      let (c', rest, last) = copy_rounds-Copied rounds (n + 1) c1 copied1 (omega arith) in
      let e : n + 1 + rounds ≡ n + suc rounds = omega arith in
      let o : n * 512 + 512 ≡ (n + 1) * 512 = omega arith in (c', rw (h, o) rest, rw (← e) last)
