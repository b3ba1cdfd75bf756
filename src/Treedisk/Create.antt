-- ===== src/Treedisk/Create.antt =====
-- `setup_freelist` and `treedisk_create` of egos-2000/library/file/file1.c: the free list of a new
-- file system.
use operating_systems_compon.Base.{
  ℕ, zero, suc, ◌+◌, ◌-◌, ◌/◌, ◌==◌, ltb, if◌then◌else◌, add32, update,
}
use operating_systems_compon.Treedisk.Store.{Block, null_block, InodeStore}
use operating_systems_compon.Treedisk.{
  Outcome, ◌>>=◌, ok, failed, or_panic, or_fail, refs_per_block, inodes_per_block, n_inodeblocks,
  get, put,
}

-- `for (; i < REFS_PER_BLOCK; i++) freelist_data[i] = 0`, for the slots left.
unfoldable pub clear_slots : (left i : ℕ) → Block → Block
clear_slots zero i refs = refs
clear_slots (suc left) i refs = clear_slots left (i + 1) (update refs i 0)

-- The loop before it, and then that one: the data and `next_free`.
unfoldable pub fill_slots : (left i next_free nblocks : ℕ) → Block → Block × ℕ
fill_slots zero i next_free nblocks refs = (refs, next_free)
fill_slots (suc left) i next_free nblocks refs =
    let rest = fill_slots left (i + 1) (add32 next_free 1) nblocks (update refs i next_free) in
    if ltb next_free nblocks then rest else (clear_slots (suc left) i refs, next_free)

-- A free list block with `freelist_block` as the next of the list; `refs` is what the array holds
-- before, from the round before or, at first, whatever the stack holds.
unfoldable pub list_block : Block → (freelist_block next_free nblocks : ℕ) → Block × ℕ
list_block refs freelist_block next_free nblocks =
    fill_slots (refs_per_block - 1) 1 next_free nblocks (update refs 0 freelist_block)

module _ {St : Type 0} (below : InodeStore St) (below_ino : ℕ) where
  -- The `while` loop, with fuel: it fails without.
  unfoldable pub setup_freelist :
      (fuel : ℕ)
      → St
      → (freelist_data : Block) → (freelist_block next_free nblocks : ℕ) → Outcome (ℕ × St)
  setup_freelist zero s freelist_data freelist_block next_free nblocks = failed
  setup_freelist (suc fuel) s freelist_data freelist_block next_free nblocks =
      if ltb next_free nblocks
      then (let (refs, next) =
            list_block freelist_data freelist_block (add32 next_free 1) nblocks in
          or_panic (put below below_ino s next_free refs) >>= λ s'.
          setup_freelist fuel s' refs next_free next nblocks)
      else ok (freelist_block, s)

  -- `for (i = 1; i <= n_inodeblocks; i++)` writes the null block at `i`.
  pub clear_inodes : (left i : ℕ) → St → Outcome St
  clear_inodes zero i s = ok s
  clear_inodes (suc left) i s =
      or_fail (put below below_ino s i null_block) >>= λ s'. clear_inodes left (i + 1) s'

  unfoldable pub create_new : (stack : Block) (n_inode_blocks nblocks : ℕ) → St → Outcome St
  create_new stack n_inode_blocks nblocks s =
      setup_freelist (suc nblocks) s stack 0 (add32 n_inode_blocks 1) nblocks >>= λ (free_list, s').
      or_fail (put below below_ino s' 0 (update (update null_block 0 n_inode_blocks) 1 free_list))
      >>= λ s''. clear_inodes n_inode_blocks 1 s''

  -- `stack` is what the array of `setup_freelist` holds before it is set.
  unfoldable pub treedisk_create : (stack : Block) → St → (ninodes : ℕ) → Outcome St
  treedisk_create stack s ninodes =
      let n_inode_blocks = add32 ninodes (inodes_per_block - 1) / inodes_per_block in
      let nblocks = below.getsize s below_ino in
      if ltb nblocks (add32 n_inode_blocks 2)
      then failed
      else (or_fail (get below below_ino s 0) >>= λ superblock.
          if n_inodeblocks superblock == 0 then create_new stack n_inode_blocks nblocks s else ok s)
