-- ===== src/Treedisk.antt =====
-- The file system of egos-2000/library/file/file1.c and file1.h: files as trees of blocks inside one
-- inode of the store below, and a free list.
-- A block is its 128 words; the store below is an interface, with what the file system relies on as
-- laws. Sizes are those of the RISC-V build, where `size_t` has 32 bits.
pub mod Store
pub mod Levels
pub mod Slots
pub mod Freelist
pub mod Walk
pub mod Create
pub mod Fill
pub mod Setup
pub mod Supply
pub mod Hole
pub mod Descent
pub mod Grow
pub mod Found
pub mod Filled
pub mod Stored
pub mod Tests
use operating_systems_compon.Base.{
  ℕ, zero, suc, ◌+◌, ◌-◌, ◌*◌, ◌/◌, ◌%◌, ◌^◌, Bool, true, false, ◌&&◌, not, Option, none, some,
  List, ltb, leb, ◌==◌, if◌then◌else◌, update, add32, sub32, mul32, count_from,
}
use Store.{Block, null_block, InodeStore}

abbrev pub refs_per_block : ℕ
refs_per_block = 128

abbrev pub inodes_per_block : ℕ
inodes_per_block = 64

-- `return` with a result, `return -1`, and `panic`.
pub data Outcome (A : Type 0) : Type 0 where
  ok : A → Outcome A
  failed : Outcome A
  panic : Outcome A

infixl 5 ◌>>=◌
abbrev pub ◌>>=◌ : {A B : Type 0} → Outcome A → (A → Outcome B) → Outcome B
ok a >>= f = f a
failed >>= f = failed
panic >>= f = panic

-- A result of the store below, where a negative one is returned or is a panic.
abbrev pub or_fail : {A : Type 0} → Option A → Outcome A
or_fail none = failed
or_fail (some a) = ok a

abbrev pub or_panic : {A : Type 0} → Option A → Outcome A
or_panic none = panic
or_panic (some a) = ok a

-- `log_shift_r`: a shift by the width or more gives 0.
pub log_shift_r : ℕ → ℕ → ℕ
log_shift_r x nbits = if leb 32 nbits then 0 else x / 2 ^ nbits

-- The loop of `treedisk_init` that computes `log_rpb`, with fuel.
pub find_log : ℕ → ℕ → Option ℕ
find_log zero n = none
find_log (suc fuel) n =
    let rest = find_log fuel (n + 1) in
    if not ((refs_per_block - 1) / 2 ^ (n + 1) == 0) then rest else some (n + 1)

-- log2 of the number of references in a block, as `treedisk_init` computes it.
abbrev pub log_rpb : ℕ
log_rpb = 7

-- `while (log_shift_r(x, n * log_rpb) != 0) n++`, with fuel.
pub count_levels : ℕ → ℕ → ℕ → Option ℕ
count_levels zero x n = none
count_levels (suc fuel) x n =
    let rest = count_levels fuel x (n + 1) in
    if log_shift_r x (n * log_rpb) == 0 then some n else rest

-- The levels above the data blocks that a file with a block at `last` needs.
pub levels_for : ℕ → Option ℕ
levels_for last = count_levels 6 last 0

-- The levels of a file of `nblocks` blocks.
pub levels_of : ℕ → Option ℕ
levels_of nblocks = if ltb 0 nblocks then levels_for (sub32 nblocks 1) else some 0

-- `log_shift_r(offset, level * log_rpb) % REFS_PER_BLOCK`.
pub index_at : ℕ → ℕ → ℕ
index_at offset level = log_shift_r offset (level * log_rpb) % refs_per_block

-- `struct treedisk_snapshot`; `slot` is the index of the inode in its block.
pub record Snapshot : Type 0 where
  pub superblock : Block
  pub inodeblock : Block
  pub inode_blockno : ℕ
  pub slot : ℕ

-- The fields of `struct treedisk_superblock` and `struct treedisk_inode`, as words of their blocks.
abbrev pub n_inodeblocks : Block → ℕ
n_inodeblocks b = b 0

abbrev pub free_list : Block → ℕ
free_list b = b 1

abbrev pub root_word : Snapshot → ℕ
root_word snap = 2 * snap.slot

abbrev pub root : Snapshot → ℕ
root snap = snap.inodeblock (root_word snap)

abbrev pub nblocks : Snapshot → ℕ
nblocks snap = snap.inodeblock (root_word snap + 1)

abbrev pub set_root : ℕ → Snapshot → Snapshot
set_root b snap = record snap { inodeblock = update snap.inodeblock (root_word snap) b }

abbrev pub set_nblocks : ℕ → Snapshot → Snapshot
set_nblocks n snap = record snap { inodeblock = update snap.inodeblock (root_word snap + 1) n }

-- The scan of a free list block, from slot `k` down to 1; 0 if all are empty.
pub last_ref : ℕ → Block → ℕ
last_ref zero refs = 0
last_ref (suc k) refs =
    let rest = last_ref k refs in if not (refs (suc k) == 0) then suc k else rest

-- What `treedisk_alloc_block` returns, with the snapshot and the store after it.
pub record Taken (St : Type 0) : Type 0 where
  pub block : ℕ
  pub snap : Snapshot
  pub store : St

module _ {St : Type 0} (below : InodeStore St) (below_ino : ℕ) where
  abbrev get : St → ℕ → Option Block
  get s b = below.read s below_ino b

  abbrev put : St → ℕ → Block → Option St
  put s b block = below.write s below_ino b block

  pub treedisk_get_snapshot : St → ℕ → Option Snapshot
  treedisk_get_snapshot s inode_no = elim (get s 0) [
    | none ↦ none
    | some superblock ↦
        if leb (mul32 (n_inodeblocks superblock) inodes_per_block) inode_no
        then none
        else elim (get s (add32 1 (inode_no / inodes_per_block))) [
          | none ↦ none
          | some inodeblock ↦ some (record {
            superblock = superblock;
            inodeblock = inodeblock;
            inode_blockno = add32 1 (inode_no / inodes_per_block);
            slot = inode_no % inodes_per_block;
          })
        ]
  ]

  -- The free block reference at slot `i` of the first free list block `b`, or that block itself.
  pub take_ref : St → Snapshot → (b : ℕ) → Block → (i : ℕ) → Outcome (Taken St)
  take_ref s snap b refs i =
      if i == 0
      then (let superblock = update snap.superblock 1 (refs 0) in
          or_panic (put s 0 superblock) >>= λ s'.
          ok (record { block = b; snap = record snap { superblock = superblock }; store = s' }))
      else (or_panic (put s b (update refs i 0)) >>= λ s'.
          ok (record { block = refs i; snap = snap; store = s' }))

  pub treedisk_alloc_block : St → Snapshot → Outcome (Taken St)
  treedisk_alloc_block s snap =
      let b = free_list snap.superblock in
      if b == 0
      then panic
      else (or_panic (get s b) >>= λ refs.
          take_ref s snap b refs (last_ref (refs_per_block - 1) refs))

  pub treedisk_getsize : St → ℕ → Outcome ℕ
  treedisk_getsize s ino = or_fail (treedisk_get_snapshot s ino) >>= λ snap. ok (nblocks snap)

  pub treedisk_setsize : St → ℕ → ℕ → Outcome ℕ
  treedisk_setsize s ino n = panic

  -- The loop of `treedisk_read` with `level` levels below block `b`.
  pub read_walk : St → (level offset b : ℕ) → Outcome Block
  read_walk s zero offset b = if b == 0 then ok null_block else or_fail (get s b)
  read_walk s (suc level) offset b =
      if b == 0
      then ok null_block
      else (or_fail (get s b) >>= λ refs. read_walk s level offset (refs (index_at offset level)))

  pub read_file : St → Snapshot → (offset : ℕ) → Outcome Block
  read_file s snap offset =
      if leb (nblocks snap) offset
      then failed
      else (or_fail (levels_of (nblocks snap)) >>= λ level. read_walk s level offset (root snap))

  pub treedisk_read : St → (ino offset : ℕ) → Outcome Block
  treedisk_read s ino offset =
      or_fail (treedisk_get_snapshot s ino) >>= λ snap. read_file s snap offset

  -- One indirect block is put above the root.
  pub grow_once : St → Snapshot → Outcome (Snapshot × St)
  grow_once s snap = treedisk_alloc_block s snap >>= λ t.
      or_panic (put t.store t.block (update null_block 0 (root t.snap))) >>= λ s'.
      ok (set_root t.block t.snap, s')

  -- `n` levels are added.
  pub grow : ℕ → St → Snapshot → Outcome (Snapshot × St)
  grow zero s snap = ok (snap, s)
  grow (suc n) s snap = grow_once s snap >>= λ (snap', s'). grow n s' snap'

  -- The loop of `treedisk_write`: `word` of block `parent`, which stands at `parent_off`, refers to
  -- the tree with `level` levels that holds the offset.
  pub write_walk :
      (level offset : ℕ) (data_block : Block)
      → St
      → Snapshot
      → (parent : Block) → (word parent_off : ℕ) → Outcome St
  write_walk zero offset data_block s snap parent word parent_off =
      if parent word == 0
      then (treedisk_alloc_block s snap >>= λ t.
          or_panic (put t.store parent_off (update parent word t.block)) >>= λ s'.
          or_panic (put s' t.block data_block))
      else or_panic (put s (parent word) data_block)
  write_walk (suc level) offset data_block s snap parent word parent_off =
      if parent word == 0
      then (treedisk_alloc_block s snap >>= λ t.
          or_panic (put t.store parent_off (update parent word t.block)) >>= λ s'.
          write_walk level offset data_block s' t.snap null_block (index_at offset level) t.block)
      else (or_panic (get s (parent word)) >>= λ refs.
          write_walk level offset data_block s snap refs (index_at offset level) (parent word))

  -- The end of `treedisk_write`, from writing back the inode block on.
  pub write_tree :
      (dirty : Bool) (level offset : ℕ) (data_block : Block) → Snapshot → St → Outcome St
  write_tree dirty level offset data_block snap s =
      or_panic (if dirty then put s snap.inode_blockno snap.inodeblock else some s) >>= λ s'.
      write_walk level offset data_block s' snap snap.inodeblock (root_word snap) snap.inode_blockno

  -- `treedisk_write` where the file gets longer: the new size is never 0 unless `offset + 1` wraps.
  pub write_longer : St → Snapshot → (level offset : ℕ) → Block → Outcome St
  write_longer s snap level offset data_block =
      let snap' = set_nblocks (add32 offset 1) snap in
      or_fail (levels_for offset) >>= λ level_after.
      if nblocks snap' == 0
      then write_tree true level_after offset data_block snap' s
      else (grow (level_after - level) s snap' >>= λ (snap'', s').
          write_tree true (level + (level_after - level)) offset data_block snap'' s')

  pub write_file : St → Snapshot → (offset : ℕ) → Block → Outcome St
  write_file s snap offset data_block = or_fail (levels_of (nblocks snap)) >>= λ level.
      if leb (nblocks snap) offset
      then write_longer s snap level offset data_block
      else write_tree false level offset data_block snap s

  pub treedisk_write : St → (ino offset : ℕ) → Block → Outcome St
  treedisk_write s ino offset data_block =
      or_fail (treedisk_get_snapshot s ino) >>= λ snap. write_file s snap offset data_block
