-- ===== src/Treedisk/Grow.antt =====
-- The levels that `treedisk_write` of egos-2000/library/file/file1.c puts above the root of a file
-- that gets longer.
use operating_systems_compon.Base.{
  ℕ, ℕ-cases, zero, suc, ◌+◌, ◌*◌, ◌≤◌, ◌≡◌, ◌≢◌, refl, sym, ap, ◌∙◌, inl, inr, some, List, [], ◌∷◌,
  length, update, update_self, update_ne, arith,
}
use operating_systems_compon.Treedisk.Store.{Block, null_block, InodeStore, IsStore, IsWritable}
use operating_systems_compon.Treedisk.Slots.{Avoids, avoids_nil, avoids_cons}
use operating_systems_compon.Treedisk.Supply.{
  Apart-head, Avoids-head, Avoids-tail, SameInode, IsReady, IsReady-frame, IsReady-superblock,
  treedisk_alloc_block-HasTaken,
}
use operating_systems_compon.Treedisk.Hole.{
  Outside, outside_nil, outside_cons, Way, way_hole, way_down,
}
use operating_systems_compon.Treedisk.Descent.{Outside-head, Outside-tail, Way-frame}
use operating_systems_compon.Treedisk.{
  ok, Snapshot, Taken, n_inodeblocks, root, root_word, set_root, index_at, treedisk_alloc_block,
  grow_once, grow,
}

pub Outside-member :
    (xs : List ℕ) (o : ℕ) (bs : List ℕ) → Outside xs bs → ¬ Avoids o bs → Avoids o xs
Outside-member xs o [] out h = absurd (h avoids_nil)
Outside-member xs o (b ∷ bs) out h = elim (ℕ-cases o b) [
  | inl e ↦ rw e (Outside-head xs b bs out)
  | inr ne ↦ Outside-member xs o bs (Outside-tail xs b bs out) (λ a. h (avoids_cons ne a))
]

Outside-rest : (x : ℕ) (rest bs : List ℕ) → Outside (x ∷ rest) bs → Outside rest bs
Outside-rest x rest _ outside_nil = outside_nil
Outside-rest x rest _ (outside_cons {b} {bs} a out) =
    outside_cons (Avoids-tail b x rest a) (Outside-rest x rest bs out)

Outside-first : (x : ℕ) (rest bs : List ℕ) → Outside (x ∷ rest) bs → Avoids x bs
Outside-first x rest _ outside_nil = avoids_nil
Outside-first x rest _ (outside_cons {b} {bs} a out) =
    avoids_cons (λ e. Avoids-head b x rest a (sym e)) (Outside-first x rest bs out)

module _ {St : Type 0} (below : InodeStore St) (ino offset : ℕ) where
  -- After `n` levels were added to a tree of `level` levels, from the supply `xs`.
  pub record Grows (s s' : St) (snap snap' : Snapshot) (n level : ℕ) (bs xs : List ℕ) : Type 0 where
    pub rest : List ℕ
    pub ready : IsReady below ino s' snap' rest
    pub passed : List ℕ
    pub way : Way below ino s' offset (n + level) (root snap') passed
    pub outside : Outside rest passed
    pub inode_blockno : snap'.inode_blockno ≡ snap.inode_blockno
    pub slot : snap'.slot ≡ snap.slot
    pub count : n_inodeblocks snap'.superblock ≡ n_inodeblocks snap.superblock
    pub others : (j : ℕ) → j ≢ root_word snap → snap'.inodeblock j ≡ snap.inodeblock j
    pub fresh : (o : ℕ) → Avoids o bs → Avoids o xs → Avoids o passed
    pub spared : (o : ℕ) → Avoids o xs → Avoids o rest
    pub room : length xs ≡ n + length rest
    pub frame : (o : ℕ) → o ≢ 0 → Avoids o xs → below.read s' ino o ≡ below.read s ino o

module _ {St : Type 0} {below : InodeStore St} (law : IsStore below) (can : IsWritable below)
    (ino offset : ℕ) where
  abbrev above : ℕ → Block
  above b = update null_block 0 b

  grow_once-taken :
      (s : St) (snap : Snapshot) (t : Taken St)
      → treedisk_alloc_block below ino s snap ≡ ok t
      → grow_once below ino s snap
        ≡ ok (set_root t.block t.snap, can.written t.store ino t.block (above (root t.snap)))
  unfolding grow_once
  grow_once-taken s snap t h = rw (h, can.write_ok t.store ino t.block (above (root t.snap))) refl

  root-SameInode : (snap snap' : Snapshot) → SameInode snap snap' → root snap' ≡ root snap
  root-SameInode snap snap' e = rw (e.slot) (ap (λ (b : Block). b (2 * snap.slot)) e.inodeblock)

  -- The way through the new block: down the old tree for the first offsets, else a hole.
  Way-above :
      (s : St) (level x r : ℕ) (bs xs : List ℕ)
      → x ≢ 0
      → below.read s ino x ≡ some (above r)
      → Way below ino s offset level r bs
      → Avoids x bs
      → Avoids x xs
      → Outside xs bs
      → (passed : List ℕ) × Way below ino s offset (suc level) x passed
        × Outside xs passed
        × ((o : ℕ) → Avoids o bs → o ≢ x → Avoids o passed)
  Way-above s level x r bs xs ne reads w a out_x out = elim (ℕ-cases 0 (index_at offset level)) [
    | inl e ↦ (
      x ∷ bs,
      way_down ne reads a (rw (update_self null_block 0 r (index_at offset level) e) w),
      outside_cons out_x out,
      λ o b nx. avoids_cons nx b,
    )
    | inr off_path ↦ (
      x ∷ [],
      way_down ne reads avoids_nil
          (way_hole (update_ne null_block 0 r (index_at offset level) off_path)),
      outside_cons out_x outside_nil,
      λ o b nx. avoids_cons nx avoids_nil,
    )
  ]

  grow_once-Grows :
      (s : St) (snap : Snapshot) (level x : ℕ) (bs rest : List ℕ)
      → IsReady below ino s snap (x ∷ rest)
      → Way below ino s offset level (root snap) bs
      → Outside (x ∷ rest) bs
      → (s' : St) × (snap' : Snapshot) × (grow_once below ino s snap ≡ ok (snap', s'))
        × Grows below ino offset s s' snap snap' 1 level bs (x ∷ rest)
  grow_once-Grows s snap level x bs rest v w out =
      let (t, h, taken) = treedisk_alloc_block-HasTaken law ino can s snap x rest v in
      let r_same = root-SameInode snap t.snap taken.inode in
      let s' = can.written t.store ino x (above (root snap)) in
      let wr : below.write t.store ino x (above (root snap)) ≡ some s' =
        can.write_ok t.store ino x (above (root snap)) in
      let x_ne : x ≢ 0 = λ e. Avoids-head 0 x rest v.used (sym e) in
      let x_bs = Outside-first x rest bs out in
      let frame : (o : ℕ) → o ≢ 0 → Avoids o (x ∷ rest) → below.read s' ino o ≡ below.read s ino o =
        λ o ne a.
          law.read_other t.store s' ino x o (above (root snap)) wr
            (λ e. Avoids-head o x rest a (sym e))
          ∙ taken.frame o ne a in
      let old : Way below ino s' offset level (root snap) bs =
        Way-frame below ino offset s s' level (root snap) bs w
          (λ o ne na. frame o ne (Outside-member (x ∷ rest) o bs out na)) in
      let (passed, way, outside, fresh) =
        Way-above s' level x (root snap) bs rest x_ne
          (law.read_same t.store s' ino x (above (root snap)) wr) old x_bs
          (Apart-head x rest v.apart) (Outside-rest x rest bs out) in
      let one_more : 1 + level ≡ suc level = omega arith in
      let inode : SameInode snap t.snap = taken.inode in
      let after : IsReady below ino s' t.snap rest =
        IsReady-frame law ino t.store s' t.snap x (above (root snap)) rest wr x_ne
          (Apart-head x rest v.apart) taken.ready in
      (
        s',
        set_root x t.snap,
        rw (taken.block, r_same) at (grow_once-taken s snap t h),
        record {
          rest = rest;
          ready = IsReady-superblock below ino s' t.snap (set_root x t.snap) rest refl after;
          passed = passed;
          way =
              rw
                (
                  update_self t.snap.inodeblock (root_word t.snap) x (root_word t.snap) refl,
                  one_more,
                )
                way;
          outside = outside;
          inode_blockno = inode.inode_blockno;
          slot = inode.slot;
          count = inode.count;
          others = λ j ne.
              update_ne t.snap.inodeblock (root_word t.snap) x j
                (λ e. ne (sym e ∙ ap (λ i. 2 * i) inode.slot))
              ∙ ap (λ (b : Block). b j) inode.inodeblock;
          fresh = λ o a b. fresh o a (Avoids-head o x rest b);
          spared = λ o a. Avoids-tail o x rest a;
          room = omega arith;
          frame = frame;
        },
      )

  grow-next :
      (n : ℕ) (s s' : St) (snap snap' : Snapshot)
      → grow_once below ino s snap ≡ ok (snap', s')
      → grow below ino (suc n) s snap ≡ grow below ino n s' snap'
  unfolding grow
  grow-next n s s' snap snap' h = rw h refl

  grow-zero : (s : St) (snap : Snapshot) → grow below ino 0 s snap ≡ ok (snap, s)
  unfolding grow
  grow-zero s snap = refl

  pub grow-Grows :
      (n : ℕ) (s : St) (snap : Snapshot) (level : ℕ) (bs xs : List ℕ)
      → IsReady below ino s snap xs
      → Way below ino s offset level (root snap) bs
      → Outside xs bs
      → n ≤ length xs
      → (s' : St) × (snap' : Snapshot) × (grow below ino n s snap ≡ ok (snap', s'))
        × Grows below ino offset s s' snap snap' n level bs xs
  grow-Grows zero s snap level bs xs v w out enough =
      let none_more : 0 + level ≡ level = omega arith in
      (
        s,
        snap,
        grow-zero s snap,
        record {
          rest = xs;
          ready = v;
          passed = bs;
          way = rw none_more w;
          outside = out;
          inode_blockno = refl;
          slot = refl;
          count = refl;
          others = λ j ne. refl;
          fresh = λ o a b. a;
          spared = λ o a. a;
          room = omega arith;
          frame = λ o ne a. refl;
        },
      )
  grow-Grows (suc n) s snap level bs [] v w out enough = absurd (omega arith)
  grow-Grows (suc n) s snap level bs (x ∷ xs) v w out enough =
      let (s1, snap1, h1, one) = grow_once-Grows s snap level x bs xs v w out in
      let (s', snap', h, more) =
        grow-Grows n s1 snap1 (1 + level) one.passed one.rest one.ready one.way one.outside
          (omega (arith, one.room)) in
      let levels : n + (1 + level) ≡ suc n + level = omega arith in
      (
        s',
        snap',
        grow-next n s s1 snap snap1 h1 ∙ h,
        record {
          rest = more.rest;
          ready = more.ready;
          passed = more.passed;
          way = rw levels at (more.way);
          outside = more.outside;
          inode_blockno = more.inode_blockno ∙ one.inode_blockno;
          slot = more.slot ∙ one.slot;
          count = more.count ∙ one.count;
          others = λ j ne. more.others j (λ e. ne (e ∙ ap (λ i. 2 * i) one.slot)) ∙ one.others j ne;
          fresh = λ o a b. more.fresh o (one.fresh o a b) (one.spared o b);
          spared = λ o a. more.spared o (one.spared o a);
          room = omega (arith, one.room, more.room);
          frame = λ o ne a. more.frame o ne (one.spared o a) ∙ one.frame o ne a;
        },
      )
