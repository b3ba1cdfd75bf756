-- ===== src/Treedisk/Walk.antt =====
-- `treedisk_read` and `treedisk_write` of egos-2000/library/file/file1.c at an offset that has a
-- data block already.
use operating_systems_compon.Base.{
  ℕ, suc, ◌/◌, ◌<◌, ◌≡◌, ◌≢◌, refl, sym, ap, ◌∙◌, inl, inr, false, Option-cases, some, List, [],
  ◌∷◌, arith, leb, add32, ne→==,
}
use operating_systems_compon.Treedisk.Store.{Block, InodeStore, IsStore, IsWritable}
use operating_systems_compon.Treedisk.Slots.{Avoids, avoids_cons}
use operating_systems_compon.Treedisk.{
  ok, or_panic, or_fail, Snapshot, nblocks, root, root_word, levels_of, index_at, inodes_per_block,
  treedisk_get_snapshot, treedisk_getsize, treedisk_read, treedisk_write, read_walk, read_file,
  write_walk, write_tree, write_file,
}

module _ {St : Type 0} (below : InodeStore St) (ino : ℕ) where
  -- In store `s` the tree with the given levels below block `b` has data block `d` at the offset, and
  -- the way there passes the indirect blocks `bs`.
  pub data Leads (s : St) (offset : ℕ) : (level b : ℕ) (bs : List ℕ) → ℕ → Type 0 where
    leads_data : {d : ℕ} → d ≢ 0 → Leads s offset 0 d [] d
    leads_down :
        {level b : ℕ} {refs : Block} {bs : List ℕ} {d : ℕ}
        → b ≢ 0
        → below.read s ino b ≡ some refs
        → Leads s offset level (refs (index_at offset level)) bs d
        → Leads s offset (suc level) b (b ∷ bs) d

  -- What an overwrite leaves.
  pub record IsOverwritten (s s' : St) (inode_no offset d : ℕ) (block : Block) : Type 0 where
    pub reads : treedisk_read below ino s' inode_no offset ≡ ok block
    pub size : treedisk_getsize below ino s' inode_no ≡ treedisk_getsize below ino s inode_no
    pub frame : (o : ℕ) → o ≢ d → below.read s' ino o ≡ below.read s ino o

module _ {St : Type 0} (below : InodeStore St) (ino : ℕ) where
  read_walk-zero :
      (s : St) (offset d : ℕ)
      → d ≢ 0
      → read_walk below ino s 0 offset d ≡ or_fail (below.read s ino d)
  unfolding read_walk
  read_walk-zero s offset d ne = rw (ne→== _ _ ne) refl

  read_walk-suc :
      (s : St) (level offset b : ℕ) (refs : Block)
      → b ≢ 0
      → below.read s ino b ≡ some refs
      → read_walk below ino s (suc level) offset b
        ≡ read_walk below ino s level offset (refs (index_at offset level))
  unfolding read_walk
  read_walk-suc s level offset b refs ne r = rw (ne→== _ _ ne, r) refl

  -- Reading walks to the data block.
  pub read_walk-Leads :
      (s : St) (offset level b : ℕ) (bs : List ℕ) (d : ℕ)
      → Leads below ino s offset level b bs d
      → read_walk below ino s level offset b ≡ or_fail (below.read s ino d)
  read_walk-Leads s offset _ _ _ _ (leads_data ne) = read_walk-zero s offset _ ne
  read_walk-Leads s offset _ _ _ _ (leads_down ne r rest) =
      read_walk-suc s _ offset _ _ ne r ∙ read_walk-Leads s offset _ _ _ _ rest

  module _ (offset : ℕ) (block : Block) (s : St) (snap : Snapshot) where
    write_walk-zero :
        (parent : Block) (word off : ℕ)
        → parent word ≢ 0
        → write_walk below ino 0 offset block s snap parent word off
          ≡ or_panic (below.write s ino (parent word) block)
    unfolding write_walk
    write_walk-zero parent word off ne = rw (ne→== _ _ ne) refl

    write_walk-suc :
        (level : ℕ) (parent : Block) (word off : ℕ) (refs : Block)
        → parent word ≢ 0
        → below.read s ino (parent word) ≡ some refs
        → write_walk below ino (suc level) offset block s snap parent word off
          ≡ write_walk below ino level offset block s snap refs
              (index_at offset level)
              (parent word)
    unfolding write_walk
    write_walk-suc level parent word off refs ne r = rw (ne→== _ _ ne, r) refl

    -- Writing walks to the same data block, and writes it alone.
    write_walk-Leads :
        (level b : ℕ) (bs : List ℕ) (d : ℕ)
        → Leads below ino s offset level b bs d
        → (parent : Block) (word off : ℕ) → parent word ≡ b
        → write_walk below ino level offset block s snap parent word off
          ≡ or_panic (below.write s ino d block)
    write_walk-Leads _ _ _ _ (leads_data ne) parent word off e =
        rw (← e) (write_walk-zero parent word off (rw e ne))
    write_walk-Leads _ _ _ _ (leads_down {level} {b} {refs} {bs} {d} ne r rest) parent word off e =
        write_walk-suc level parent word off refs (rw e ne) (rw e r)
        ∙ write_walk-Leads level (refs (index_at offset level)) bs d rest refs
            (index_at offset level) (parent word) refl

  -- The snapshot of an inode depends on the superblock and the inode block alone.
  treedisk_get_snapshot-frame :
      (s s' : St) (inode_no : ℕ)
      → below.read s' ino 0 ≡ below.read s ino 0
      → below.read s' ino (add32 1 (inode_no / inodes_per_block))
        ≡ below.read s ino (add32 1 (inode_no / inodes_per_block))
      → treedisk_get_snapshot below ino s' inode_no ≡ treedisk_get_snapshot below ino s inode_no
  unfolding treedisk_get_snapshot
  treedisk_get_snapshot-frame s s' inode_no e₀ e₁ =
      rw (treedisk_get_snapshot, e₀)
        (elim (Option-cases (below.read s ino 0)) [
          | inl h ↦ rw (treedisk_get_snapshot, h) refl
          | inr (super, h) ↦ rw (treedisk_get_snapshot, h, e₁) refl
        ])

  treedisk_getsize-frame :
      (s s' : St) (inode_no : ℕ)
      → treedisk_get_snapshot below ino s' inode_no ≡ treedisk_get_snapshot below ino s inode_no
      → treedisk_getsize below ino s' inode_no ≡ treedisk_getsize below ino s inode_no
  unfolding treedisk_getsize
  treedisk_getsize-frame s s' inode_no e = rw e refl

  module _ (s : St) (snap : Snapshot) (offset level : ℕ) (inside : offset < nblocks snap)
      (levels : levels_of (nblocks snap) ≡ some level) where
    pub read_file-inside :
        read_file below ino s snap offset ≡ read_walk below ino s level offset (root snap)
    unfolding read_file
    read_file-inside =
        let beyond : leb (nblocks snap) offset ≡ false = ground arith in rw (beyond, levels) refl

    pub write_file-inside :
        (block : Block)
        → write_file below ino s snap offset block
          ≡ write_walk below ino level offset block s snap snap.inodeblock
              (root_word snap)
              snap.inode_blockno
    unfolding write_file write_tree
    write_file-inside block =
        let beyond : leb (nblocks snap) offset ≡ false = ground arith in rw (levels, beyond) refl

Leads-ne :
    {St : Type 0} (below : InodeStore St) (ino : ℕ) (s : St) (offset level b : ℕ) (bs : List ℕ)
    (d : ℕ)
    → Leads below ino s offset level b bs d
    → d ≢ 0
Leads-ne below ino s offset _ _ _ _ (leads_data ne) = ne
Leads-ne below ino s offset _ _ _ _ (leads_down {level} {b} {refs} {bs} {d} ne r rest) =
    Leads-ne below ino s offset level (refs (index_at offset level)) bs d rest

module _ {St : Type 0} {below : InodeStore St} (law : IsStore below) (ino : ℕ) where
  -- A write to a block that the way does not pass leaves the way.
  Leads-frame :
      (s s' : St) (o : ℕ) (block : Block)
      → below.write s ino o block ≡ some s'
      → (offset level b : ℕ) (bs : List ℕ) (d : ℕ) → Leads below ino s offset level b bs d
      → Avoids o bs
      → Leads below ino s' offset level b bs d
  Leads-frame s s' o block w offset _ _ _ _ (leads_data ne) a = leads_data ne
  Leads-frame s s' o block w offset _ _ _ _ (leads_down ne r rest) (avoids_cons ne_o a) =
      leads_down ne (law.read_other s s' ino o _ block w ne_o ∙ r)
        (Leads-frame s s' o block w offset _ _ _ _ rest a)

  module _ (ready : IsWritable below) (s : St) (snap : Snapshot) (inode_no offset level d : ℕ)
      (bs : List ℕ) (block : Block) (found : treedisk_get_snapshot below ino s inode_no ≡ some snap)
      (inside : offset < nblocks snap) (levels : levels_of (nblocks snap) ≡ some level)
      (way : Leads below ino s offset level (root snap) bs d) where
    treedisk_write-inside :
        treedisk_write below ino s inode_no offset block ≡ ok (ready.written s ino d block)
    unfolding treedisk_write
    treedisk_write-inside = rw found (
        write_file-inside below ino s snap offset level inside levels block
        ∙ write_walk-Leads below ino offset block s snap level (root snap) bs d way snap.inodeblock
            (root_word snap) snap.inode_blockno refl
        ∙ ap or_panic (ready.write_ok s ino d block))

    treedisk_read-inside : treedisk_read below ino s inode_no offset ≡ or_fail (below.read s ino d)
    unfolding treedisk_read
    treedisk_read-inside = rw found (
        read_file-inside below ino s snap offset level inside levels
        ∙ read_walk-Leads below ino s offset level (root snap) bs d way)

module _ {St : Type 0} {below : InodeStore St} (law : IsStore below) (ready : IsWritable below)
    (ino : ℕ) (s : St) (snap : Snapshot) (inode_no offset level d : ℕ) (bs : List ℕ) (block : Block)
    (found : treedisk_get_snapshot below ino s inode_no ≡ some snap)
    (inside : offset < nblocks snap) (levels : levels_of (nblocks snap) ≡ some level)
    (way : Leads below ino s offset level (root snap) bs d) where
  -- On a store that keeps what is written and whose writes succeed, when the inode is found, the
  -- offset is inside the file and the tree leads to a data block that is neither on the way there nor
  -- the block of the inode, `treedisk_write` returns, and afterwards `treedisk_read` at that offset
  -- gives what was written, the size is as before and no other block of the store has changed.
  pub treedisk_write-IsOverwritten :
      Avoids d bs
      → d ≢ add32 1 (inode_no / inodes_per_block)
      → (s' : St) × (treedisk_write below ino s inode_no offset block ≡ ok s')
        × IsOverwritten below ino s s' inode_no offset d block
  treedisk_write-IsOverwritten av apart =
      let s' = ready.written s ino d block in
      let w : below.write s ino d block ≡ some s' = ready.write_ok s ino d block in
      let others : (o : ℕ) → o ≢ d → below.read s' ino o ≡ below.read s ino o =
        λ o ne. law.read_other s s' ino d o block w (λ e. ne (sym e)) in
      let d_ne = Leads-ne below ino s offset level (root snap) bs d way in
      let same =
        treedisk_get_snapshot-frame below ino s s' inode_no (others 0 (λ e. d_ne (sym e)))
          (others _ (λ e. apart (sym e))) in
      (
        s',
        treedisk_write-inside law ino ready s snap inode_no offset level d bs block found inside
            levels way,
        record {
          reads =
              treedisk_read-inside law ino ready s' snap inode_no offset level d bs block
                (same ∙ found) inside levels
                (Leads-frame law ino s s' d block w offset level (root snap) bs d way av)
              ∙ ap or_fail (law.read_same s s' ino d block w);
          size = treedisk_getsize-frame below ino s s' inode_no same;
          frame = others;
        },
      )
