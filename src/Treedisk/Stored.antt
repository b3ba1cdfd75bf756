-- ===== src/Treedisk/Stored.antt =====
-- `treedisk_write` and `treedisk_read` of egos-2000/library/file/file1.c at any offset: a data block,
-- a hole, or behind the end of the file.
use operating_systems_compon.Base.{
  ℕ, ◌+◌, ◌-◌, ◌*◌, ◌^◌, ◌≤◌, ◌<◌, ◌≡◌, ◌≢◌, refl, sym, ap, ◌∙◌, inl, inr, true, Bool-cases, some,
  List, length, arith, leb, ltb, add32, sub32, if◌then◌else◌, update_self, update_ne, ne→==,
}
use operating_systems_compon.Treedisk.Store.{Block, InodeStore, IsStore, IsWritable}
use operating_systems_compon.Treedisk.Slots.{Avoids}
use operating_systems_compon.Treedisk.Supply.{IsReady, IsReady-frame, IsReady-superblock}
use operating_systems_compon.Treedisk.Hole.{Outside, Way}
use operating_systems_compon.Treedisk.Descent.{Way-frame, write_walk-Fills}
use operating_systems_compon.Treedisk.Grow.{Grows, grow-Grows}
use operating_systems_compon.Treedisk.Found.{treedisk_get_snapshot-IsFound, levels_for-levels_of}
use operating_systems_compon.Treedisk.Walk.{write_file-inside}
use operating_systems_compon.Treedisk.{
  ok, ◌>>=◌, Snapshot, n_inodeblocks, root, root_word, nblocks, set_nblocks, levels_of, levels_for,
  treedisk_get_snapshot, treedisk_write, write_walk, write_tree, write_longer, write_file, grow,
}
use operating_systems_compon.Treedisk.Filled.{IsStored, write_found, Fills-IsStored}

module _ {St : Type 0} {below : InodeStore St} (law : IsStore below) (can : IsWritable below)
    (ino : ℕ) where
  -- How `treedisk_write` proceeds where the file gets longer.
  module _ (s : St) (snap : Snapshot) (offset level after : ℕ) (block : Block)
      (levels : levels_of (nblocks snap) ≡ some level) (later : levels_for offset ≡ some after)
      (small : offset + 1 < 2 ^ 32) where
    abbrev longer : Snapshot
    longer = set_nblocks (offset + 1) snap

    write_longer-grow : write_longer below ino s snap level offset block ≡ (
        grow below ino (after - level) s longer >>= λ (snap'', s').
        write_tree below ino true (level + (after - level)) offset block snap'' s')
    unfolding write_longer
    write_longer-grow =
        let next : add32 offset 1 ≡ offset + 1 = ground arith in
        let ne : offset + 1 ≢ 0 = omega arith in
        rw
          (
            next,
            later,
            update_self snap.inodeblock (root_word snap + 1) (offset + 1) (root_word snap + 1) refl,
            ne→== (offset + 1) 0 ne,
          )
          refl

    write_file-longer :
        nblocks snap ≤ offset
        → write_file below ino s snap offset block
          ≡ write_longer below ino s snap level offset block
    unfolding write_file
    write_file-longer le =
        let beyond : leb (nblocks snap) offset ≡ true = ground arith in rw (levels, beyond) refl

    write_tree-dirty :
        (s' : St) (snap' : Snapshot) (n : ℕ)
        → write_tree below ino true n offset block snap' s'
          ≡ write_walk below ino n offset block
              (can.written s' ino snap'.inode_blockno snap'.inodeblock)
              snap'
              snap'.inodeblock
              (root_word snap')
              snap'.inode_blockno
    unfolding write_tree
    write_tree-dirty s' snap' n = rw (can.write_ok s' ino snap'.inode_blockno snap'.inodeblock) refl

    levels_of-longer : levels_of (offset + 1) ≡ some after
    unfolding levels_of
    levels_of-longer =
        let pos : ltb 0 (offset + 1) ≡ true = ground arith in
        let last : sub32 (offset + 1) 1 ≡ offset = ground arith in rw (pos, last) later

  grown_write :
      (s : St) (snap : Snapshot) (offset n level : ℕ) (block : Block) (s' : St) (snap' : Snapshot)
      → grow below ino n s snap ≡ ok (snap', s')
      → (grow below ino n s snap >>= λ (snap'', s'').
          write_tree below ino true level offset block snap'' s'')
        ≡ write_tree below ino true level offset block snap' s'
  grown_write s snap offset n level block s' snap' h = rw h refl

  module _ (s : St) (snap : Snapshot) (inode_no offset level : ℕ) (block : Block) (bs xs : List ℕ)
      (found : treedisk_get_snapshot below ino s inode_no ≡ some snap)
      (levels : levels_of (nblocks snap) ≡ some level) (ready : IsReady below ino s snap xs)
      (way : Way below ino s offset level (root snap) bs) (out : Outside xs bs)
      (no_super : snap.inode_blockno ≢ 0) (a : Avoids snap.inode_blockno bs)
      (b : Avoids snap.inode_blockno xs) (room : 11 ≤ length xs) where
    IsStored-inside :
        offset < nblocks snap
        → nblocks snap < 2 ^ 32
        → (s' : St) × (treedisk_write below ino s inode_no offset block ≡ ok s')
          × IsStored below ino s s' inode_no offset (nblocks snap) block bs xs
    IsStored-inside inside small =
        let v = treedisk_get_snapshot-IsFound below ino s inode_no snap found in
        let (after, later, le, five) =
          levels_for-levels_of (nblocks snap) (nblocks snap) level (omega arith) small levels in
        let (s', h, f) =
          write_walk-Fills law can ino offset block s snap xs level (root snap) bs snap.inodeblock
            (root_word snap) snap.inode_blockno way refl ready v.inode no_super a b out
            (omega arith) in
        (
          s',
          write_found below ino s snap inode_no offset level block found
              ∙ write_file-inside below ino s snap offset level inside levels block
              ∙ h,
          Fills-IsStored below ino s s s' snap snap inode_no offset (nblocks snap) level block bs bs
              xs xs v refl refl refl refl inside levels (λ o ne ni c d. (c, d, refl)) f,
        )

    -- The end of the write, behind the growth of the tree.
    after_growth :
        (after : ℕ) (s2 : St) (snap1 snap2 : Snapshot)
        → snap1 ≡ set_nblocks (offset + 1) snap
        → level ≤ after
        → after ≤ 5
        → levels_of (offset + 1) ≡ some after
        → Grows below ino offset s s2 snap1 snap2 (after - level) level bs xs
        → (s' : St) × (write_walk below ino after offset block
              (can.written s2 ino snap2.inode_blockno snap2.inodeblock)
              snap2
              snap2.inodeblock
              (root_word snap2)
              snap2.inode_blockno
            ≡ ok s')
          × IsStored below ino s s' inode_no offset (offset + 1) block bs xs
    after_growth after s2 snap1 snap2 grown le five levels' g =
        let v = treedisk_get_snapshot-IsFound below ino s inode_no snap found in
        let blockno : snap2.inode_blockno ≡ snap.inode_blockno =
          g.inode_blockno ∙ ap (λ (x : Snapshot). x.inode_blockno) grown in
        let slot : snap2.slot ≡ snap.slot = g.slot ∙ ap (λ (x : Snapshot). x.slot) grown in
        let s3 = can.written s2 ino snap2.inode_blockno snap2.inodeblock in
        let wr : below.write s2 ino snap2.inode_blockno snap2.inodeblock ≡ some s3 =
          can.write_ok s2 ino snap2.inode_blockno snap2.inodeblock in
        let spares : (o : ℕ) → o ≢ snap.inode_blockno → below.read s3 ino o ≡ below.read s2 ino o =
          λ o ne.
            law.read_other s2 s3 ino snap2.inode_blockno o snap2.inodeblock wr
              (λ e. ne (sym e ∙ blockno)) in
        let a' = g.fresh snap.inode_blockno a b in
        let b' = g.spared snap.inode_blockno b in
        let all_levels : after - level + level ≡ after = omega arith in
        let way' : Way below ino s3 offset after (root snap2) g.passed =
          Way-frame below ino offset s2 s3 after (root snap2) g.passed (rw all_levels at (g.way))
            (λ o ne na. spares o (λ e. na (rw e a'))) in
        let (s', h, f) =
          write_walk-Fills law can ino offset block s3 snap2 g.rest after (root snap2) g.passed
            snap2.inodeblock (root_word snap2) snap2.inode_blockno way' refl
            (IsReady-frame law ino s2 s3 snap2 snap2.inode_blockno snap2.inodeblock g.rest wr
              (rw blockno no_super) (rw blockno b') g.ready)
            (law.read_same s2 s3 ino snap2.inode_blockno snap2.inodeblock wr) (rw blockno no_super)
            (rw blockno a') (rw blockno b') g.outside (omega (arith, g.room)) in
        (
          s',
          h,
          Fills-IsStored below ino s s3 s' snap snap2 inode_no offset (offset + 1) after block bs
              g.passed xs g.rest v blockno slot
              (g.count ∙ ap (λ (x : Snapshot). n_inodeblocks x.superblock) grown)
              (longer_size snap1 snap2 grown slot g.others) (omega arith) levels'
              (λ o ne ni c d. (g.fresh o c d, g.spared o d, spares o ni ∙ g.frame o ne d)) f,
        )
      where
        longer_size :
            (snap1 snap2 : Snapshot)
            → snap1 ≡ set_nblocks (offset + 1) snap
            → snap2.slot ≡ snap.slot
            → ((j : ℕ) → j ≢ root_word snap1 → snap2.inodeblock j ≡ snap1.inodeblock j)
            → nblocks snap2 ≡ offset + 1
        longer_size snap1 snap2 grown slot others =
            let same : snap1.slot ≡ snap.slot = ap (λ (x : Snapshot). x.slot) grown in
            ap (λ (i : ℕ). snap2.inodeblock (2 * i + 1)) slot
            ∙ others (root_word snap + 1) (omega (arith, same))
            ∙ ap (λ (x : Snapshot). x.inodeblock (root_word snap + 1)) grown
            ∙ update_self snap.inodeblock (root_word snap + 1) (offset + 1) (root_word snap + 1)
                refl

    IsStored-longer :
        nblocks snap ≤ offset
        → offset + 1 < 2 ^ 32
        → (s' : St) × (treedisk_write below ino s inode_no offset block ≡ ok s')
          × IsStored below ino s s' inode_no offset (offset + 1) block bs xs
    IsStored-longer le small =
        let (after, later, more, five) =
          levels_for-levels_of (nblocks snap) offset level le (omega arith) levels in
        let snap1 = longer s snap offset level after block levels later small in
        let old_root : root snap1 ≡ root snap =
          update_ne snap.inodeblock (root_word snap + 1) (offset + 1) (root_word snap)
            (omega arith) in
        let (s2, snap2, h2, g) =
          grow-Grows law can ino offset (after - level) s snap1 level bs xs
            (IsReady-superblock below ino s snap snap1 xs refl ready) (rw old_root way) out
            (omega arith) in
        let same_levels : level + (after - level) ≡ after = omega arith in
        let (s', h, stored) =
          after_growth after s2 snap1 snap2 refl more five
            (levels_of-longer s snap offset level after block levels later small) g in
        let grows = write_longer-grow s snap offset level after block levels later small in
        let end =
          write_tree-dirty s snap offset level after block levels later small s2 snap2 after in
        (
          s',
          write_found below ino s snap inode_no offset level block found
              ∙ write_file-longer s snap offset level after block levels later small le
              ∙ grows
              ∙ grown_write s snap1 offset (after - level) (level + (after - level)) block s2 snap2
                  h2
              ∙ ap (λ (n : ℕ). write_tree below ino true n offset block snap2 s2) same_levels
              ∙ end
              ∙ h,
          stored,
        )

    -- On a store that keeps what is written and whose writes succeed, for an inode that is found in
    -- a block other than 0, of a file of less than 2^32 blocks, and an offset below 2^32 - 1: let
    -- at least 11 blocks be in the free list, which is in order, and let the superblock, the blocks
    -- on the way to the offset, the block of the inode and those of the free list be apart, with no
    -- block twice. Then `treedisk_write` returns, also in a hole and behind the end of the file;
    -- `treedisk_read` gives the block that was written, the file reaches at least to the offset and
    -- is no longer than it was or than that, the free list is still in order, and every block
    -- outside the free list and off the way is as before, but for the superblock and the block of
    -- the inode.
    pub treedisk_write-IsStored :
        nblocks snap < 2 ^ 32
        → offset + 1 < 2 ^ 32
        → (s' : St) × (treedisk_write below ino s inode_no offset block ≡ ok s')
          × IsStored below ino s s' inode_no offset
              (if ltb offset (nblocks snap) then nblocks snap else offset + 1)
              block
              bs
              xs
    treedisk_write-IsStored small next = elim (Bool-cases (ltb offset (nblocks snap))) [
      | inl h ↦ rw h (IsStored-inside (ground arith) small)
      | inr h ↦ rw h (IsStored-longer (ground arith) next)
    ]
