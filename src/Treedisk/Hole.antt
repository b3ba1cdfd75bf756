-- ===== src/Treedisk/Hole.antt =====
-- The loop of `treedisk_write` of egos-2000/library/file/file1.c on any tree: where the way to the
-- offset ends in a hole, the missing blocks are allocated.
use operating_systems_compon.Base.{
  ℕ, zero, suc, ◌<◌, ◌≡◌, ◌≢◌, refl, sym, ◌∙◌, some, List, [], ◌∷◌, length, update, update_self,
  update_ne, arith, eq→==,
}
use operating_systems_compon.Treedisk.Store.{Block, null_block, InodeStore, IsStore, IsWritable}
use operating_systems_compon.Treedisk.Slots.{Avoids, avoids_nil}
use operating_systems_compon.Treedisk.Supply.{
  Apart-head, Avoids-head, Avoids-tail, SameInode, IsReady, IsReady-frame, HasTaken,
  treedisk_alloc_block-HasTaken,
}
use operating_systems_compon.Treedisk.Walk.{Leads, leads_data, leads_down}
use operating_systems_compon.Treedisk.{
  ok, Snapshot, Taken, index_at, treedisk_alloc_block, write_walk,
}

-- The list avoids every block of `bs`.
pub data Outside (xs : List ℕ) : List ℕ → Type 0 where
  outside_nil : Outside xs []
  outside_cons : {b : ℕ} {bs : List ℕ} → Avoids b xs → Outside xs bs → Outside xs (b ∷ bs)

module _ {St : Type 0} (below : InodeStore St) (ino : ℕ) where
  -- In store `s` the way to the offset, in the tree with the given levels below block `b`, passes the
  -- blocks `bs`; it ends in a data block, or earlier in a hole.
  pub data Way (s : St) (offset : ℕ) : (level b : ℕ) (bs : List ℕ) → Type 0 where
    way_hole : {level b : ℕ} → b ≡ 0 → Way s offset level b []
    way_data : {b : ℕ} → b ≢ 0 → Way s offset 0 b (b ∷ [])
    way_down :
        {level b : ℕ} {refs : Block} {bs : List ℕ}
        → b ≢ 0
        → below.read s ino b ≡ some refs
        → Avoids b bs
        → Way s offset level (refs (index_at offset level)) bs
        → Way s offset (suc level) b (b ∷ bs)

  -- After the loop: what block `parent_off` holds, whose `word` was `b`, the way behind it, and what
  -- is left of the supply `xs`.
  pub record Fills (s s' : St) (snap : Snapshot) (bs xs : List ℕ) (level offset : ℕ)
      (block parent : Block) (word parent_off : ℕ) : Type 0 where
    pub snap' : Snapshot
    pub rest : List ℕ
    pub ready : IsReady below ino s' snap' rest
    pub inode : SameInode snap snap'
    pub spared : (o : ℕ) → Avoids o xs → Avoids o rest
    pub refs : Block
    pub holds : below.read s' ino parent_off ≡ some refs
    pub others : (j : ℕ) → j ≢ word → refs j ≡ parent j
    pub way : List ℕ
    pub target : ℕ
    pub leads : Leads below ino s' offset level (refs word) way target
    pub written : below.read s' ino target ≡ some block
    pub frame :
        (o : ℕ)
        → o ≢ 0
        → o ≢ parent_off
        → Avoids o bs
        → Avoids o xs
        → below.read s' ino o ≡ below.read s ino o

SameInode-trans : (a b c : Snapshot) → SameInode a b → SameInode b c → SameInode a c
SameInode-trans a b c p q = record {
  inodeblock = q.inodeblock ∙ p.inodeblock;
  inode_blockno = q.inode_blockno ∙ p.inode_blockno;
  slot = q.slot ∙ p.slot;
  count = q.count ∙ p.count;
}

module _ {St : Type 0} {below : InodeStore St} (law : IsStore below) (can : IsWritable below)
    (ino offset : ℕ) (block : Block) where
  abbrev pub put : St → ℕ → Block → St
  put s o blk = can.written s ino o blk

  pub puts : (s : St) (o : ℕ) (blk : Block) → below.write s ino o blk ≡ some (put s o blk)
  puts s o blk = can.write_ok s ino o blk

  pub same : (s : St) (o : ℕ) (blk : Block) → below.read (put s o blk) ino o ≡ some blk
  same s o blk = law.read_same s (put s o blk) ino o blk (puts s o blk)

  pub other :
      (s : St) (o o' : ℕ) (blk : Block)
      → o' ≢ o
      → below.read (put s o blk) ino o' ≡ below.read s ino o'
  other s o o' blk ne = law.read_other s (put s o blk) ino o o' blk (puts s o blk) (λ e. ne (sym e))

  module _ (s : St) (snap : Snapshot) (parent : Block) (word off : ℕ) (t : Taken St)
      (h : treedisk_alloc_block below ino s snap ≡ ok t) (hole : parent word ≡ 0) where
    write_walk-hole_zero :
        write_walk below ino 0 offset block s snap parent word off
        ≡ ok (put (put t.store off (update parent word t.block)) t.block block)
    unfolding write_walk
    write_walk-hole_zero =
        rw
          (
            eq→== _ _ hole,
            h,
            puts t.store off (update parent word t.block),
            puts (put t.store off (update parent word t.block)) t.block block,
          )
          refl

    write_walk-hole_suc :
        (level : ℕ)
        → write_walk below ino (suc level) offset block s snap parent word off
          ≡ write_walk below ino level offset block
              (put t.store off (update parent word t.block))
              t.snap
              null_block
              (index_at offset level)
              t.block
    unfolding write_walk
    write_walk-hole_suc level =
        rw (eq→== _ _ hole, h, puts t.store off (update parent word t.block)) refl

  -- The state after the allocation of `x` and the write to the parent.
  module _ (s : St) (snap : Snapshot) (parent : Block) (word off x : ℕ) (rest : List ℕ)
      (t : Taken St) (v : IsReady below ino s snap (x ∷ rest))
      (taken : HasTaken below ino s snap x rest t) (no_super : off ≢ 0)
      (a : Avoids off (x ∷ rest)) where
    abbrev linked : St
    linked = put t.store off (update parent word x)

    linked-IsReady : IsReady below ino linked t.snap rest
    linked-IsReady =
        IsReady-frame law ino t.store linked t.snap off (update parent word x) rest
          (puts t.store off (update parent word x)) no_super (Avoids-tail off x rest a) taken.ready

    linked-frame :
        (o : ℕ)
        → o ≢ 0
        → o ≢ off
        → Avoids o (x ∷ rest)
        → below.read linked ino o ≡ below.read s ino o
    linked-frame o ne ne_off b =
        other t.store off o (update parent word x) ne_off ∙ taken.frame o ne b

    hole_zero-Fills :
        Fills below ino s (put linked x block) snap [] (x ∷ rest) 0 offset block parent word off
    hole_zero-Fills =
        let x_ne : x ≢ 0 = λ e. Avoids-head 0 x rest v.used (sym e) in
        let off_ne = Avoids-head off x rest a in
        record {
          snap' = t.snap;
          rest = rest;
          ready =
              IsReady-frame law ino linked (put linked x block) t.snap x block rest
                (puts linked x block) x_ne (Apart-head x rest v.apart) linked-IsReady;
          inode = taken.inode;
          spared = λ o b. Avoids-tail o x rest b;
          refs = update parent word x;
          holds = other linked x off block off_ne ∙ same t.store off (update parent word x);
          others = λ j ne. update_ne parent word x j (λ e. ne (sym e));
          way = [];
          target = x;
          leads = rw (update_self parent word x word refl) (leads_data x_ne);
          written = same linked x block;
          frame = λ o ne ne_off b c.
              other linked x o block (Avoids-head o x rest c) ∙ linked-frame o ne ne_off c;
        }

    hole_suc-Fills :
        (level : ℕ) (s' : St)
        → Fills below ino linked s' t.snap [] rest level offset block null_block
            (index_at offset level)
            x
        → Fills below ino s s' snap [] (x ∷ rest) (suc level) offset block parent word off
    hole_suc-Fills level s' f =
        let x_ne : x ≢ 0 = λ e. Avoids-head 0 x rest v.used (sym e) in
        record {
          snap' = f.snap';
          rest = f.rest;
          ready = f.ready;
          inode = SameInode-trans snap t.snap f.snap' taken.inode f.inode;
          spared = λ o b. f.spared o (Avoids-tail o x rest b);
          refs = update parent word x;
          holds =
              f.frame off no_super (Avoids-head off x rest a) avoids_nil (Avoids-tail off x rest a)
              ∙ same t.store off (update parent word x);
          others = λ j ne. update_ne parent word x j (λ e. ne (sym e));
          way = x ∷ f.way;
          target = f.target;
          leads = rw (update_self parent word x word refl) (leads_down x_ne f.holds f.leads);
          written = f.written;
          frame = λ o ne ne_off b c.
              f.frame o ne (Avoids-head o x rest c) avoids_nil (Avoids-tail o x rest c)
              ∙ linked-frame o ne ne_off c;
        }

  -- A hole is filled from the supply, with one block for each level and one for the data.
  pub write_walk-hole :
      (level : ℕ) (s : St) (snap : Snapshot) (parent : Block) (word off : ℕ) (xs : List ℕ)
      → parent word ≡ 0
      → IsReady below ino s snap xs
      → off ≢ 0
      → Avoids off xs
      → level < length xs
      → (s' : St) × (write_walk below ino level offset block s snap parent word off ≡ ok s')
        × Fills below ino s s' snap [] xs level offset block parent word off
  write_walk-hole level s snap parent word off [] hole v no_super a enough = absurd (omega arith)
  write_walk-hole zero s snap parent word off (x ∷ rest) hole v no_super a enough =
      let (t, h, taken) = treedisk_alloc_block-HasTaken law ino can s snap x rest v in
      (
        _,
        rw taken.block at (write_walk-hole_zero s snap parent word off t h hole),
        hole_zero-Fills s snap parent word off x rest t v taken no_super a,
      )
  write_walk-hole (suc level) s snap parent word off (x ∷ rest) hole v no_super a enough =
      let (t, h, taken) = treedisk_alloc_block-HasTaken law ino can s snap x rest v in
      let next = linked s snap parent word off x rest t v taken no_super a in
      let (s', h', f) =
        write_walk-hole level next t.snap null_block (index_at offset level) x rest refl
          (linked-IsReady s snap parent word off x rest t v taken no_super a)
          (λ e. Avoids-head 0 x rest v.used (sym e)) (Apart-head x rest v.apart) (omega arith) in
      (
        s',
        (rw taken.block at (write_walk-hole_suc s snap parent word off t h hole level)) ∙ h',
        hole_suc-Fills s snap parent word off x rest t v taken no_super a level s' f,
      )
