-- ===== src/Treedisk/Filled.antt =====
-- The file behind the loop of `treedisk_write` of egos-2000/library/file/file1.c.
use operating_systems_compon.Base.{
  ℕ, ◌+◌, ◌/◌, ◌<◌, ◌≡◌, ◌≢◌, refl, ap, ◌∙◌, some, List, arith, add32,
}
use operating_systems_compon.Treedisk.Store.{Block, InodeStore}
use operating_systems_compon.Treedisk.Slots.{Avoids}
use operating_systems_compon.Treedisk.Supply.{SameInode, IsReady, IsReady-superblock}
use operating_systems_compon.Treedisk.Hole.{Fills}
use operating_systems_compon.Treedisk.Found.{IsFound, IsFound-treedisk_get_snapshot}
use operating_systems_compon.Treedisk.Walk.{read_walk-Leads, read_file-inside}
use operating_systems_compon.Treedisk.{
  ok, or_fail, Snapshot, n_inodeblocks, inodes_per_block, root, root_word, nblocks, levels_of,
  treedisk_get_snapshot, treedisk_getsize, treedisk_read, treedisk_write, read_walk, write_file,
}

module _ {St : Type 0} (below : InodeStore St) (ino : ℕ) where
  -- After a write of a block: it is read at the offset, the file has `n` blocks, the free list is in
  -- order, and blocks that are neither on the way `bs` nor in the supply `xs` are as before, but for
  -- the superblock and the block of the inode.
  pub record IsStored (s s' : St) (inode_no offset n : ℕ) (block : Block) (bs xs : List ℕ)
      : Type 0 where
    pub reads : treedisk_read below ino s' inode_no offset ≡ ok block
    pub size : treedisk_getsize below ino s' inode_no ≡ ok n
    pub snap : Snapshot
    pub found : treedisk_get_snapshot below ino s' inode_no ≡ some snap
    pub rest : List ℕ
    pub ready : IsReady below ino s' snap rest
    pub frame :
        (o : ℕ)
        → o ≢ 0
        → o ≢ add32 1 (inode_no / inodes_per_block)
        → Avoids o bs
        → Avoids o xs
        → below.read s' ino o ≡ below.read s ino o

  module _ (s : St) (snap : Snapshot) (inode_no offset level : ℕ) (block : Block)
      (found : treedisk_get_snapshot below ino s inode_no ≡ some snap) where
    read_found :
        offset < nblocks snap
        → levels_of (nblocks snap) ≡ some level
        → read_walk below ino s level offset (root snap) ≡ ok block
        → treedisk_read below ino s inode_no offset ≡ ok block
    unfolding treedisk_read
    read_found inside levels h =
        rw found (read_file-inside below ino s snap offset level inside levels ∙ h)

    getsize_found : treedisk_getsize below ino s inode_no ≡ ok (nblocks snap)
    unfolding treedisk_getsize
    getsize_found = rw found refl

    pub write_found :
        treedisk_write below ino s inode_no offset block ≡ write_file below ino s snap offset block
    unfolding treedisk_write
    write_found = rw found refl

  -- The loop at the end of `treedisk_write` leaves the file stored.
  pub Fills-IsStored :
      (s s2 s' : St) (snap snap2 : Snapshot) (inode_no offset n level : ℕ) (block : Block)
      (bs bs' xs xs' : List ℕ)
      → IsFound below ino s inode_no snap
      → snap2.inode_blockno ≡ snap.inode_blockno
      → snap2.slot ≡ snap.slot
      → n_inodeblocks snap2.superblock ≡ n_inodeblocks snap.superblock
      → nblocks snap2 ≡ n
      → offset < n
      → levels_of n ≡ some level
      → ((o : ℕ)
          → o ≢ 0
          → o ≢ snap.inode_blockno
          → Avoids o bs
          → Avoids o xs
          → Avoids o bs' × Avoids o xs' × (below.read s2 ino o ≡ below.read s ino o))
      → Fills below ino s2 s' snap2 bs' xs' level offset block snap2.inodeblock
          (root_word snap2)
          snap2.inode_blockno
      → IsStored s s' inode_no offset n block bs xs
  Fills-IsStored s s2 s' snap snap2 inode_no offset n level block bs bs' xs xs' v blockno slot count
        size inside levels before f =
      let inode : SameInode snap2 f.snap' = f.inode in
      let ready : IsReady below ino s' f.snap' f.rest = f.ready in
      let snap' : Snapshot = record {
        superblock = f.snap'.superblock;
        inodeblock = f.refs;
        inode_blockno = snap2.inode_blockno;
        slot = snap2.slot;
      } in
      let found : treedisk_get_snapshot below ino s' inode_no ≡ some snap' =
        IsFound-treedisk_get_snapshot below ino s' inode_no snap' (record {
          super = ready.super;
          inode = f.holds;
          inode_blockno = blockno ∙ v.inode_blockno;
          slot = slot ∙ v.slot;
          inside = rw (inode.count ∙ count) v.inside;
        }) in
      let n' : nblocks snap' ≡ n = f.others (root_word snap2 + 1) (omega arith) ∙ size in
      let walk : read_walk below ino s' level offset (root snap') ≡ ok block =
        read_walk-Leads below ino s' offset level (root snap') f.way f.target f.leads
        ∙ ap or_fail f.written in
      record {
        reads =
            read_found s' snap' inode_no offset level block found (rw n' inside) (rw n' levels)
              walk;
        size = getsize_found s' snap' inode_no offset level block found ∙ ap ok n';
        snap = snap';
        found = found;
        rest = f.rest;
        ready = IsReady-superblock below ino s' f.snap' snap' f.rest refl ready;
        frame = λ o ne ne_inode a b.
            let at_inode : o ≢ snap.inode_blockno = λ e. ne_inode (e ∙ v.inode_blockno) in
            let (a', b', same) = before o ne at_inode a b in
            f.frame o ne (λ e. at_inode (e ∙ blockno)) a' b' ∙ same;
      }
