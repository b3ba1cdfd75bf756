-- ===== src/Treedisk/Tests.antt =====
-- A small disk in the memory store of egos-2000/tools/mkfs.c, with one inode block, and the theorems
-- on the file system of egos-2000/library/file/file1.c applied to it.
use operating_systems_compon.Base.{
  ℕ, ◌+◌, ◌-◌, ◌^◌, ◌<◌, ◌≤◌, ◌≡◌, ◌⊎◌, refl, inl, inr, Bool, true, false, ◌&&◌, ◌==◌,
  if◌then◌else◌, Bool-cases, ℕ-cases, eq→==, ne→==, get_or, some, List, [], ◌∷◌, ◌++◌, arith,
}
use operating_systems_compon.Treedisk.Store.{
  Block, null_block, Ram, ramdisk, ramdisk-IsStore, ramdisk-IsWritable, ramread,
}
use operating_systems_compon.Treedisk.Supply.{Apart, apart_nil, apart_cons}
use operating_systems_compon.Treedisk.Hole.{Way, way_hole, way_down, outside_nil, outside_cons}
use operating_systems_compon.Treedisk.Filled.{IsStored}
use operating_systems_compon.Treedisk.Stored.{treedisk_write-IsStored}
use operating_systems_compon.Treedisk.Slots.{Avoids, avoids_nil, avoids_cons, refs_down}
use operating_systems_compon.Treedisk.Freelist.{
  Free, free_nil, free_cons, IsTaken, treedisk_alloc_block-IsTaken,
}
use operating_systems_compon.Treedisk.Fill.{countdown}
use operating_systems_compon.Treedisk.Setup.{IsSetUp, setup_freelist-countdown}
use operating_systems_compon.Treedisk.Create.{setup_freelist}
use operating_systems_compon.Treedisk.Levels.{levels_for_lem}
use operating_systems_compon.Treedisk.Walk.{
  Leads, leads_data, leads_down, IsOverwritten, treedisk_write-IsOverwritten,
}
use operating_systems_compon.Treedisk.{
  ok, Snapshot, Taken, levels_for, levels_of, index_at, log_shift_r, count_levels,
  treedisk_alloc_block, treedisk_read, read_file, read_walk, treedisk_write, treedisk_get_snapshot,
}

-- A block with these first words, and zeros after them.
abbrev words : List ℕ → Block
words ws i = get_or ws i 0

abbrev super_block : Block
super_block = words (1 ∷ 2 ∷ [])

-- Inode 0 has two blocks below the indirect block 6.
abbrev inode_block : Block
inode_block = words (6 ∷ 2 ∷ [])

-- The free list block: slots 1 and 2 are in use.
abbrev list_refs : Block
list_refs = words (0 ∷ 3 ∷ 4 ∷ [])

abbrev indirect : Block
indirect = words (7 ∷ 8 ∷ [])

abbrev pub file_data : Block
file_data n = n + 5

abbrev pub disk : Ram
disk b =
    get_or
      (super_block ∷ inode_block ∷ list_refs ∷ null_block ∷ null_block ∷ null_block ∷ indirect
        ∷ file_data ∷ [])
      b null_block

abbrev opened : Snapshot
opened = record { superblock = super_block; inodeblock = inode_block; inode_blockno = 1; slot = 0 }

levels_for_lem_example :
    (n : ℕ) × (levels_for 20000 ≡ some n) × (20000 < 128 ^ n) × ((n ≡ 0) ⊎ (128 ^ (n - 1) ≤ 20000))
levels_for_lem_example = levels_for_lem 20000 (omega arith)

disk_super : ramdisk.read disk 0 0 ≡ some super_block
unfolding ramread
disk_super = refl

disk-opened : treedisk_get_snapshot ramdisk 0 disk 0 ≡ some opened
unfolding ramread treedisk_get_snapshot
disk-opened = refl

disk_levels : levels_of 2 ≡ some 1
unfolding levels_of levels_for count_levels log_shift_r
disk_levels = refl

disk-Free : Free ramdisk 0 disk 2 (2 ∷ []) (4 ∷ 3 ∷ 2 ∷ [])
unfolding ramread refs_down
disk-Free = free_cons (omega arith) refl avoids_nil free_nil

treedisk_alloc_block_example :
    (t : Taken Ram) × (treedisk_alloc_block ramdisk 0 disk opened ≡ ok t)
    × IsTaken ramdisk 0 disk (2 ∷ []) (4 ∷ 3 ∷ 2 ∷ []) t
treedisk_alloc_block_example =
    treedisk_alloc_block-IsTaken ramdisk-IsStore 0 ramdisk-IsWritable disk opened disk_super
      (2 ∷ []) (4 ∷ 3 ∷ 2 ∷ []) (omega arith) disk-Free

setup_freelist_example :
    (head : ℕ) × (s' : Ram) × (setup_freelist ramdisk 0 301 disk file_data 0 5 300 ≡ ok (head, s'))
    × IsSetUp ramdisk 0 300 (countdown 295 5 ++ []) head s'
setup_freelist_example =
    setup_freelist-countdown ramdisk-IsStore ramdisk-IsWritable 0 300 (omega arith) disk file_data 5
      295 (omega arith) refl

disk-Leads : Leads ramdisk 0 disk 1 1 6 (6 ∷ []) 8
unfolding ramread index_at log_shift_r
disk-Leads = leads_down (omega arith) refl (leads_data (omega arith))

treedisk_write_example :
    (s' : Ram) × (treedisk_write ramdisk 0 disk 0 1 file_data ≡ ok s')
    × IsOverwritten ramdisk 0 disk s' 0 1 8 file_data
treedisk_write_example =
    treedisk_write-IsOverwritten ramdisk-IsStore ramdisk-IsWritable 0 disk opened 0 1 1 8 (6 ∷ [])
      file_data disk-opened (omega arith) disk_levels disk-Leads
      (avoids_cons (omega arith) avoids_nil) (omega arith)

-- A disk with eleven references in the free list block.
abbrev long_refs : Block
long_refs = words (0 ∷ 20 ∷ 21 ∷ 22 ∷ 23 ∷ 24 ∷ 25 ∷ 26 ∷ 27 ∷ 28 ∷ 29 ∷ 30 ∷ [])

abbrev roomy : Ram
roomy b =
    get_or
      (super_block ∷ inode_block ∷ long_refs ∷ null_block ∷ null_block ∷ null_block ∷ indirect ∷ [])
      b null_block

abbrev supply : List ℕ
supply = 30 ∷ 29 ∷ 28 ∷ 27 ∷ 26 ∷ 25 ∷ 24 ∷ 23 ∷ 22 ∷ 21 ∷ 20 ∷ 2 ∷ []

-- A block that is in no place of the list, and a list with no block twice.
absent : ℕ → List ℕ → Bool
absent o [] = true
absent o (x ∷ xs) = let rest = absent o xs in if o == x then false else rest

absent-Avoids : (o : ℕ) (xs : List ℕ) → absent o xs ≡ true → Avoids o xs
unfolding absent
absent-Avoids o [] h = avoids_nil
absent-Avoids o (x ∷ xs) h = elim (ℕ-cases o x) [
  | inl e ↦ let bad : false ≡ true = rw (eq→== o x e) at h in cc
  | inr ne ↦ avoids_cons ne (absent-Avoids o xs (rw (ne→== o x ne) at h))
]

distinct : List ℕ → Bool
distinct [] = true
distinct (x ∷ xs) = let rest = distinct xs in absent x xs && rest

distinct-Apart : (xs : List ℕ) → distinct xs ≡ true → Apart xs
unfolding distinct
distinct-Apart [] h = apart_nil
distinct-Apart (x ∷ xs) h = elim (Bool-cases (absent x xs)) [
  | inl e ↦ apart_cons (absent-Avoids x xs e) (distinct-Apart xs (rw e at h))
  | inr e ↦ let bad : false ≡ true = rw e at h in cc
]

roomy_super : ramdisk.read roomy 0 0 ≡ some super_block
unfolding ramread
roomy_super = refl

roomy-opened : treedisk_get_snapshot ramdisk 0 roomy 0 ≡ some opened
unfolding ramread treedisk_get_snapshot
roomy-opened = refl

roomy-Free : Free ramdisk 0 roomy 2 (2 ∷ []) supply
unfolding ramread refs_down
roomy-Free = free_cons (omega arith) refl avoids_nil free_nil

supply-Apart : Apart supply
unfolding absent distinct
supply-Apart = distinct-Apart supply refl

no_super_block : Avoids 0 supply
unfolding absent
no_super_block = absent-Avoids 0 supply refl

no_inode_block : Avoids 1 supply
unfolding absent
no_inode_block = absent-Avoids 1 supply refl

no_indirect_block : Avoids 6 supply
unfolding absent
no_indirect_block = absent-Avoids 6 supply refl

-- Block 300 of the file, in its present tree, is a hole below the indirect block.
roomy-Way : Way ramdisk 0 roomy 300 1 6 (6 ∷ [])
unfolding ramread index_at log_shift_r
roomy-Way = way_down (omega arith) refl avoids_nil (way_hole refl)

treedisk_write-IsStored_example :
    (s' : Ram) × (treedisk_write ramdisk 0 roomy 0 300 file_data ≡ ok s')
    × IsStored ramdisk 0 roomy s' 0 300 301 file_data (6 ∷ []) supply
treedisk_write-IsStored_example =
    treedisk_write-IsStored ramdisk-IsStore ramdisk-IsWritable 0 roomy opened 0 300 1 file_data
      (6 ∷ []) supply roomy-opened disk_levels
      (record {
        super = roomy_super;
        blocks = 2 ∷ [];
        free = roomy-Free;
        apart = supply-Apart;
        used = no_super_block;
      })
      roomy-Way (outside_cons no_indirect_block outside_nil) (omega arith)
      (avoids_cons (omega arith) avoids_nil) no_inode_block (omega arith) (omega arith)
      (omega arith)

-- Block 0 of the file, block 7 of the disk, behind the indirect block.
pub disk-read : treedisk_read ramdisk 0 disk 0 0 ≡ ok file_data
unfolding treedisk_read treedisk_get_snapshot read_file read_walk ramread levels_of levels_for
    count_levels log_shift_r index_at
disk-read = refl
