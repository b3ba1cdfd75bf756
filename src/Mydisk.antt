-- ===== src/Mydisk.antt =====
-- The file system of egos-2000/library/file/file0.c, which gives each file 128 blocks of the store
-- below at fixed places; the store is the interface of Treedisk.Store.
-- The two functions of the size are not written in the source: they stop the system.
mod Tests
use operating_systems_compon.Base.{
  ℕ, ◌+◌, ◌*◌, ◌^◌, ◌≡◌, ◌≢◌, ◌<◌, ◌⊎◌, inl, inr, refl, ◌∙◌, Option, some, add32, mul32, arith,
}
use operating_systems_compon.Treedisk.Store.{Block, InodeStore, IsStore, IsWritable}

-- `DUMMY_DISK_OFFSET`.
pub disk_offset : (ino offset : ℕ) → ℕ
disk_offset ino offset = add32 (mul32 ino 128) offset

module _ {St : Type 0} (below : InodeStore St) where
  pub mydisk_read : St → (ino offset : ℕ) → Option Block
  mydisk_read s ino offset = below.read s 0 (disk_offset ino offset)

  pub mydisk_write : St → (ino offset : ℕ) → Block → Option St
  mydisk_write s ino offset block = below.write s 0 (disk_offset ino offset) block

-- `mydisk_create` writes nothing.
pub mydisk_create : {St : Type 0} → St → (ninodes : ℕ) → St
mydisk_create s ninodes = s

-- Files below 2^25 and blocks below 128 have places of their own.
disk_offset-ne :
    (i j a b : ℕ)
    → i < 2 ^ 25
    → j < 2 ^ 25
    → a < 128
    → b < 128
    → (i ≢ j) ⊎ (a ≢ b)
    → disk_offset i a ≢ disk_offset j b
unfolding disk_offset
disk_offset-ne i j a b i_fits j_fits a_fits b_fits (inl ne) e = ne (omega arith)
disk_offset-ne i j a b i_fits j_fits a_fits b_fits (inr ne) e = ne (omega arith)

-- What a write leaves.
pub record IsWritten {St : Type 0} (below : InodeStore St) (s s' : St) (ino offset : ℕ)
    (block : Block) : Type 0 where
  pub same : mydisk_read below s' ino offset ≡ some block
  pub others :
      (j b : ℕ)
      → j < 2 ^ 25
      → b < 128
      → (ino ≢ j) ⊎ (offset ≢ b)
      → mydisk_read below s' j b ≡ mydisk_read below s j b

-- On a store that keeps what is written and whose writes succeed, `mydisk_write` to a file below 2^25
-- and a block below 128 returns, and afterwards `mydisk_read` gives what was written there, and at
-- every other such file and block what it gave before.
pub mydisk_write-IsWritten :
    {St : Type 0} {below : InodeStore St}
    → IsStore below
    → IsWritable below
    → (s : St) (ino offset : ℕ) (block : Block) → ino < 2 ^ 25
    → offset < 128
    → (s' : St) × (mydisk_write below s ino offset block ≡ some s')
      × IsWritten below s s' ino offset block
unfolding mydisk_read mydisk_write
mydisk_write-IsWritten law ready s ino offset block ino_fits offset_fits =
    let place = disk_offset ino offset in
    let s' = ready.written s 0 place block in
    let w = ready.write_ok s 0 place block in
    (
      s',
      w,
      record {
        same = law.read_same s s' 0 place block w;
        others = λ j b j_fits b_fits ne.
            law.read_other s s' 0 place (disk_offset j b) block w
              (disk_offset-ne ino j offset b ino_fits j_fits offset_fits b_fits ne);
      },
    )
