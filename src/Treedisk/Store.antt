-- ===== src/Treedisk/Store.antt =====
-- The interface of inode stores, egos-2000/library/file/inode.h, and the store of
-- egos-2000/tools/mkfs.c that keeps the blocks in memory.
use operating_systems_compon.Base.{
  ℕ, ◌*◌, ◌/◌, ◌≡◌, ◌≢◌, refl, Option, some, update, update_self, update_ne, some_inj, ap, sym, ◌∙◌,
}

-- The 128 words of a block.
abbrev pub Block : Type 0
Block = ℕ → ℕ

abbrev pub null_block : Block
null_block _ = 0

-- The methods of a `struct inode_store` over a state; `none` is a negative result. A file system
-- never sets the size of the store below.
pub record InodeStore (St : Type 0) : Type 0 where
  pub getsize : St → (ino : ℕ) → ℕ
  pub read : St → (ino offset : ℕ) → Option Block
  pub write : St → (ino offset : ℕ) → Block → Option St

-- What is written at an offset is read there, and nothing changes at another.
pub record IsStore {St : Type 0} (below : InodeStore St) : Type 0 where
  pub read_same :
      (s s' : St) (ino o : ℕ) (b : Block)
      → below.write s ino o b ≡ some s'
      → below.read s' ino o ≡ some b
  pub read_other :
      (s s' : St) (ino o o' : ℕ) (b : Block)
      → below.write s ino o b ≡ some s'
      → o ≢ o'
      → below.read s' ino o' ≡ below.read s ino o'

-- No write fails, as in the two stores of the repository.
pub record IsWritable {St : Type 0} (below : InodeStore St) : Type 0 where
  pub written : St → (ino offset : ℕ) → Block → St
  pub write_ok : (s : St) (ino o : ℕ) (b : Block) → below.write s ino o b ≡ some (written s ino o b)

-- The 2 MB of `fs[]`, by block.
abbrev pub Ram : Type 0
Ram = ℕ → Block

unfoldable pub ramread : Ram → (ino offset : ℕ) → Option Block
ramread fs ino offset = some (fs offset)

pub ramwrite : Ram → (ino offset : ℕ) → Block → Option Ram
ramwrite fs ino offset block = some (update fs offset block)

-- `FILE_SYS_DISK_SIZE / BLOCK_SIZE`.
pub getsize : Ram → ℕ → ℕ
getsize fs ino = 2 * 1024 * 1024 / 512

abbrev pub ramdisk : InodeStore Ram
ramdisk = record { getsize = getsize; read = ramread; write = ramwrite }

-- The store of mkfs.c keeps what is written, and fails at no offset.
pub ramdisk-IsStore : IsStore ramdisk
unfolding ramread ramwrite
ramdisk-IsStore = record {
  read_same = λ s s' ino o b e.
      ap (λ (u : Ram). some (u o)) (sym (some_inj e)) ∙ ap some (update_self s o b o refl);
  read_other = λ s s' ino o o' b e ne.
      ap (λ (u : Ram). some (u o')) (sym (some_inj e)) ∙ ap some (update_ne s o b o' ne);
}

pub ramdisk-IsWritable : IsWritable ramdisk
unfolding ramwrite
ramdisk-IsWritable = record { written = λ fs ino o b. update fs o b; write_ok = λ fs ino o b. refl }
