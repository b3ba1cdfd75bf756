-- ===== src/Treedisk/Supply.antt =====
-- The blocks that `treedisk_alloc_block` of egos-2000/library/file/file1.c will hand out, one after
-- the other, while other blocks are written.
use operating_systems_compon.Base.{
  ℕ, ◌-◌, ◌≡◌, ◌≢◌, refl, sym, ap, ◌∙◌, inl, inr, Option-cases, some, List, [], ◌∷◌, ◌++◌, update,
  update_ne, arith, ◌==◌, Bool-cases,
}
use operating_systems_compon.Treedisk.Store.{Block, InodeStore, IsStore, IsWritable}
use operating_systems_compon.Treedisk.Slots.{Avoids, avoids_nil, avoids_cons, refs_down}
use operating_systems_compon.Treedisk.Freelist.{
  Free, free_nil, free_cons, Free-frame, treedisk_alloc_block-IsTaken,
}
use operating_systems_compon.Treedisk.{
  ok, panic, refs_per_block, last_ref, Snapshot, n_inodeblocks, free_list, Taken, take_ref,
  treedisk_alloc_block,
}

-- No block stands twice in the list.
pub data Apart : List ℕ → Type 0 where
  apart_nil : Apart []
  apart_cons : {x : ℕ} {xs : List ℕ} → Avoids x xs → Apart xs → Apart (x ∷ xs)

-- The snapshots of one inode that differ in the free list alone.
pub record SameInode (snap snap' : Snapshot) : Type 0 where
  pub inodeblock : snap'.inodeblock ≡ snap.inodeblock
  pub inode_blockno : snap'.inode_blockno ≡ snap.inode_blockno
  pub slot : snap'.slot ≡ snap.slot
  pub count : n_inodeblocks snap'.superblock ≡ n_inodeblocks snap.superblock

pub Avoids-head : (o x : ℕ) (xs : List ℕ) → Avoids o (x ∷ xs) → o ≢ x
Avoids-head o x xs (avoids_cons ne a) = ne

pub Avoids-tail : (o x : ℕ) (xs : List ℕ) → Avoids o (x ∷ xs) → Avoids o xs
Avoids-tail o x xs (avoids_cons ne a) = a

pub Apart-head : (x : ℕ) (xs : List ℕ) → Apart (x ∷ xs) → Avoids x xs
Apart-head x xs (apart_cons a rest) = a

pub Apart-tail : (x : ℕ) (xs : List ℕ) → Apart (x ∷ xs) → Apart xs
Apart-tail x xs (apart_cons a rest) = rest

Avoids-behind : (o : ℕ) (front bs : List ℕ) → Avoids o (front ++ bs) → Avoids o bs
Avoids-behind o [] bs a = a
Avoids-behind o (x ∷ front) bs a = Avoids-behind o front bs (Avoids-tail o x (front ++ bs) a)

head_or : List ℕ → ℕ
head_or [] = 0
head_or (x ∷ xs) = x

tail_of : List ℕ → List ℕ
tail_of [] = []
tail_of (x ∷ xs) = xs

uncons : (x y : ℕ) (xs ys : List ℕ) → ◌≡◌ {A = List ℕ} (x ∷ xs) (y ∷ ys) → (y ≡ x) × (ys ≡ xs)
unfolding head_or tail_of
uncons x y xs ys e = (sym (ap head_or e), sym (ap tail_of e))

module _ {St : Type 0} (below : InodeStore St) (ino : ℕ) where
  -- The superblock in memory is the one in store `s`, whose free list hands out `xs`, which are
  -- different blocks other than 0.
  pub record IsReady (s : St) (snap : Snapshot) (xs : List ℕ) : Type 0 where
    pub super : below.read s ino 0 ≡ some snap.superblock
    pub blocks : List ℕ
    pub free : Free below ino s (free_list snap.superblock) blocks xs
    pub apart : Apart xs
    pub used : Avoids 0 xs

  -- An allocation from `x ∷ rest`.
  pub record HasTaken (s : St) (snap : Snapshot) (x : ℕ) (rest : List ℕ) (t : Taken St)
      : Type 0 where
    pub block : t.block ≡ x
    pub ready : IsReady t.store t.snap rest
    pub inode : SameInode snap t.snap
    pub frame :
        (o : ℕ) → o ≢ 0 → Avoids o (x ∷ rest) → below.read t.store ino o ≡ below.read s ino o

-- A list block is handed out itself, so what avoids the references avoids the list blocks.
Free-Avoids-blocks :
    {St : Type 0} (below : InodeStore St) (ino : ℕ) (s : St) (o b : ℕ) (bs xs : List ℕ)
    → Free below ino s b bs xs
    → Avoids o xs
    → Avoids o bs
Free-Avoids-blocks below ino s o _ _ _ free_nil a = avoids_nil
Free-Avoids-blocks below ino s o _ _ _ (free_cons {b} {refs} {bs} {xs} ne r av f) a =
    let here = Avoids-behind o (refs_down (refs_per_block - 1) refs) (b ∷ xs) a in
    avoids_cons (Avoids-head o b xs here)
      (Free-Avoids-blocks below ino s o (refs 0) bs xs f (Avoids-tail o b xs here))

Free-ne :
    {St : Type 0} (below : InodeStore St) (ino : ℕ) (s : St) (b : ℕ) (bs xs : List ℕ)
    → Free below ino s b bs xs
    → xs ≢ []
    → b ≢ 0
Free-ne below ino s _ _ _ free_nil h = absurd (h refl)
Free-ne below ino s _ _ _ (free_cons ne r av f) h = ne

not_nil : (x : ℕ) (xs : List ℕ) → ◌≢◌ {A = List ℕ} (x ∷ xs) []
not_nil x xs e = cc

module _ {St : Type 0} (below : InodeStore St) (ino : ℕ) where
  take_ref-SameInode :
      (s : St) (snap : Snapshot) (b : ℕ) (refs : Block) (i : ℕ) (t : Taken St)
      → take_ref below ino s snap b refs i ≡ ok t
      → SameInode snap t.snap
  unfolding take_ref
  take_ref-SameInode s snap b refs i t h =
      let super' = update snap.superblock 1 (refs 0) in
      elim (Bool-cases (i == 0)) [
        | inl z ↦ elim (Option-cases (below.write s ino 0 super')) [
          | inl w ↦ let bad : panic ≡ ok t = rw (z, w) at h in cc
          | inr (s', w) ↦
              let e : ok
                    (record { block = b; snap = record snap { superblock = super' }; store = s' })
                  ≡ ok t =
                rw (z, w) at h in
              rw (← ok_inj e) (record {
                inodeblock = refl;
                inode_blockno = refl;
                slot = refl;
                count = update_ne snap.superblock 1 (refs 0) 0 (omega arith);
              })
        ]
        | inr nz ↦ elim (Option-cases (below.write s ino b (update refs i 0))) [
          | inl w ↦ let bad : panic ≡ ok t = rw (nz, w) at h in cc
          | inr (s', w) ↦
              let e : ok (record { block = refs i; snap = snap; store = s' }) ≡ ok t =
                rw (nz, w) at h in
              rw (← ok_inj e)
                (record { inodeblock = refl; inode_blockno = refl; slot = refl; count = refl })
        ]
      ]
    where
      ok_inj : {a b : Taken St} → ok a ≡ ok b → a ≡ b
      ok_inj e = cc

  treedisk_alloc_block-SameInode :
      (s : St) (snap : Snapshot) (t : Taken St)
      → treedisk_alloc_block below ino s snap ≡ ok t
      → SameInode snap t.snap
  unfolding treedisk_alloc_block
  treedisk_alloc_block-SameInode s snap t h = elim (Bool-cases (free_list snap.superblock == 0)) [
    | inl z ↦ let bad : panic ≡ ok t = rw z at h in cc
    | inr nz ↦ elim (Option-cases (below.read s ino (free_list snap.superblock))) [
      | inl r ↦ let bad : panic ≡ ok t = rw (nz, r) at h in cc
      | inr (refs, r) ↦
          take_ref-SameInode s snap (free_list snap.superblock) refs
            (last_ref (refs_per_block - 1) refs) t (rw (nz, r) at h)
    ]
  ]

module _ {St : Type 0} {below : InodeStore St} (law : IsStore below) (ino : ℕ) where
  -- A write outside the free list.
  pub IsReady-frame :
      (s s' : St) (snap : Snapshot) (o : ℕ) (blk : Block) (xs : List ℕ)
      → below.write s ino o blk ≡ some s'
      → o ≢ 0
      → Avoids o xs
      → IsReady below ino s snap xs
      → IsReady below ino s' snap xs
  IsReady-frame s s' snap o blk xs w ne a v = record {
    super = law.read_other s s' ino o 0 blk w ne ∙ v.super;
    blocks = v.blocks;
    free =
        Free-frame law ino s s' o blk w (free_list snap.superblock) v.blocks xs v.free
          (Free-Avoids-blocks below ino s o (free_list snap.superblock) v.blocks xs v.free a);
    apart = v.apart;
    used = v.used;
  }

  -- The first block of the supply is allocated.
  pub treedisk_alloc_block-HasTaken :
      (can : IsWritable below) (s : St) (snap : Snapshot) (x : ℕ) (rest : List ℕ)
      → IsReady below ino s snap (x ∷ rest)
      → (t : Taken St) × (treedisk_alloc_block below ino s snap ≡ ok t)
        × HasTaken below ino s snap x rest t
  treedisk_alloc_block-HasTaken can s snap x rest v =
      let (t, h, taken) =
        treedisk_alloc_block-IsTaken law ino can s snap v.super v.blocks (x ∷ rest)
          (Free-ne below ino s (free_list snap.superblock) v.blocks (x ∷ rest) v.free
            (not_nil x rest))
          v.free in
      let (first, behind) = uncons x t.block rest taken.rest taken.first in
      (
        t,
        h,
        record {
          block = first;
          ready = record {
            super = taken.super;
            blocks = taken.rest_blocks;
            free = rw behind at taken.free;
            apart = Apart-tail x rest v.apart;
            used = Avoids-tail 0 x rest v.used;
          };
          inode = treedisk_alloc_block-SameInode below ino s snap t h;
          frame = λ o ne a. taken.frame o ne (
              Free-Avoids-blocks below ino s o (free_list snap.superblock) v.blocks (x ∷ rest)
                v.free a);
        },
      )

-- The superblock is all of the snapshot that counts here.
pub IsReady-superblock :
    {St : Type 0} (below : InodeStore St) (ino : ℕ) (s : St) (snap snap' : Snapshot) (xs : List ℕ)
    → snap'.superblock ≡ snap.superblock
    → IsReady below ino s snap xs
    → IsReady below ino s snap' xs
IsReady-superblock below ino s snap snap' xs e v = record {
  super = v.super ∙ ap some (sym e);
  blocks = v.blocks;
  free = rw e v.free;
  apart = v.apart;
  used = v.used;
}
