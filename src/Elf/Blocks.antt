-- ===== src/Elf/Blocks.antt =====
-- What a round of the loop in `elf_load` of egos-2000/library/elf/elf.c writes.
use operating_systems_compon.Base.{
  ℕ, ap, ◌∙◌, ◌+◌, ◌*◌, ◌%◌, ◌-◌, ◌≤◌, ◌<◌, ◌≡◌, ◌≢◌, refl, arith, update_ne, update_self,
}
use operating_systems_compon.Mmu.{Page, frame}
use operating_systems_compon.Elf.{Reader, Copy, put_bytes, put_block, size_of}

put_bytes-in :
    (at size : ℕ) (buf page : Page) (o : ℕ)
    → at ≤ o
    → o < at + size
    → put_bytes at size buf page o ≡ buf (o - at)
unfolding put_bytes
put_bytes-in at size buf page o lo hi = ground arith

put_bytes-below :
    (at size : ℕ) (buf page : Page) (o : ℕ) → o < at → put_bytes at size buf page o ≡ page o
unfolding put_bytes
put_bytes-below at size buf page o lt = ground arith

-- What the round leaves.
module _ (reader : Reader) (filesz n : ℕ) (c : Copy) where
  pub put_block-pages : (put_block reader filesz (n * 512) c).mmu.pages ≡ c.mmu.pages
  unfolding put_block
  put_block-pages = refl

  pub put_block-fields :
      ((put_block reader filesz (n * 512) c).ppage_id ≡ c.ppage_id)
      × ((put_block reader filesz (n * 512) c).curr_pageno ≡ c.curr_pageno)
      × ((put_block reader filesz (n * 512) c).curr_blockno ≡ c.curr_blockno + 1)
  unfolding put_block
  put_block-fields = (refl, refl, refl)

  pub put_block-other :
      (j : ℕ)
      → c.ppage_id ≢ j
      → (put_block reader filesz (n * 512) c).mmu.mem (frame j) ≡ c.mmu.mem (frame j)
  unfolding put_block
  put_block-other j ne =
      update_ne c.mmu.mem (frame c.ppage_id) _ (frame j) (λ e. ne (omega (arith, e)))

  put_block-page :
      (put_block reader filesz (n * 512) c).mmu.mem (frame c.ppage_id)
      ≡ put_bytes
          (n * 512 % 4096)
          (size_of filesz (n * 512))
          (reader c.curr_blockno)
          (c.mmu.mem (frame c.ppage_id))
  unfolding put_block
  put_block-page = update_self c.mmu.mem (frame c.ppage_id) _ (frame c.ppage_id) refl

  pub put_block-below :
      (o : ℕ)
      → o < n % 8 * 512
      → (put_block reader filesz (n * 512) c).mmu.mem (frame c.ppage_id) o
        ≡ c.mmu.mem (frame c.ppage_id) o
  put_block-below o lt =
      ap (λ (p : Page). p o) put_block-page
      ∙ put_bytes-below (n * 512 % 4096) _ (reader c.curr_blockno) _ o (omega arith)

  pub put_block-in :
      (j : ℕ)
      → j < 512
      → n * 512 + j < filesz
      → (put_block reader filesz (n * 512) c).mmu.mem (frame c.ppage_id) (n % 8 * 512 + j)
        ≡ reader c.curr_blockno j
  unfolding size_of
  put_block-in j lt below =
      ap (λ (p : Page). p (n % 8 * 512 + j)) put_block-page
      ∙ put_bytes-in (n * 512 % 4096) _ (reader c.curr_blockno) _ (n % 8 * 512 + j) (omega arith)
          (ground arith)
      ∙ ap (reader c.curr_blockno) (omega arith)
