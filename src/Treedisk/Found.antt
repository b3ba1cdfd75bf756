-- ===== src/Treedisk/Found.antt =====
-- `treedisk_get_snapshot` of egos-2000/library/file/file1.c by what it reads, and the number of levels
-- of a file that gets longer.
use operating_systems_compon.Base.{
  ℕ, zero, suc, ◌+◌, ◌-◌, ◌/◌, ◌%◌, ◌^◌, ◌≤◌, ◌<◌, ◌≡◌, refl, sym, ap, ◌∙◌, ◌⊎◌, inl, inr, true,
  false, Bool-cases, Option-cases, none, some, some_inj, arith, leb, ltb, add32, sub32, mul32,
}
use native.Mathlib.Numerals.{unary_clauses}
use operating_systems_compon.Treedisk.Store.{Block, InodeStore}
use operating_systems_compon.Treedisk.Levels.{levels_for_lem}
use operating_systems_compon.Treedisk.{
  Snapshot, n_inodeblocks, inodes_per_block, treedisk_get_snapshot, levels_for, levels_of,
}

module _ {St : Type 0} (below : InodeStore St) (ino : ℕ) where
  -- The snapshot of an inode in store `s`.
  pub record IsFound (s : St) (inode_no : ℕ) (snap : Snapshot) : Type 0 where
    pub super : below.read s ino 0 ≡ some snap.superblock
    pub inode : below.read s ino snap.inode_blockno ≡ some snap.inodeblock
    pub inode_blockno : snap.inode_blockno ≡ add32 1 (inode_no / inodes_per_block)
    pub slot : snap.slot ≡ inode_no % inodes_per_block
    pub inside : leb (mul32 (n_inodeblocks snap.superblock) inodes_per_block) inode_no ≡ false

  module _ (s : St) (inode_no : ℕ) where
    no_super : below.read s ino 0 ≡ none → treedisk_get_snapshot below ino s inode_no ≡ none
    unfolding treedisk_get_snapshot
    no_super e = rw (treedisk_get_snapshot, e) refl

    beyond :
        (super : Block)
        → below.read s ino 0 ≡ some super
        → leb (mul32 (n_inodeblocks super) inodes_per_block) inode_no ≡ true
        → treedisk_get_snapshot below ino s inode_no ≡ none
    unfolding treedisk_get_snapshot
    beyond super e b = rw (treedisk_get_snapshot, e, b) refl

    no_inode :
        (super : Block)
        → below.read s ino 0 ≡ some super
        → leb (mul32 (n_inodeblocks super) inodes_per_block) inode_no ≡ false
        → below.read s ino (add32 1 (inode_no / inodes_per_block)) ≡ none
        → treedisk_get_snapshot below ino s inode_no ≡ none
    unfolding treedisk_get_snapshot
    no_inode super e b h = rw (treedisk_get_snapshot, e, b, h) refl

    both :
        (super inode : Block)
        → below.read s ino 0 ≡ some super
        → leb (mul32 (n_inodeblocks super) inodes_per_block) inode_no ≡ false
        → below.read s ino (add32 1 (inode_no / inodes_per_block)) ≡ some inode
        → treedisk_get_snapshot below ino s inode_no
          ≡ some (record {
            superblock = super;
            inodeblock = inode;
            inode_blockno = add32 1 (inode_no / inodes_per_block);
            slot = inode_no % inodes_per_block;
          })
    unfolding treedisk_get_snapshot
    both super inode e b h = rw (treedisk_get_snapshot, e, b, h) refl

    clash : (snap : Snapshot) → none ≡ some snap → ⊥
    clash snap e = cc

    pub treedisk_get_snapshot-IsFound :
        (snap : Snapshot)
        → treedisk_get_snapshot below ino s inode_no ≡ some snap
        → IsFound s inode_no snap
    treedisk_get_snapshot-IsFound snap found = elim (Option-cases (below.read s ino 0)) [
      | inl e ↦ absurd (clash snap (sym (no_super e) ∙ found))
      | inr (super, e) ↦
          elim (Bool-cases (leb (mul32 (n_inodeblocks super) inodes_per_block) inode_no)) [
            | inl b ↦ absurd (clash snap (sym (beyond super e b) ∙ found))
            | inr b ↦
                elim (Option-cases (below.read s ino (add32 1 (inode_no / inodes_per_block)))) [
                  | inl h ↦ absurd (clash snap (sym (no_inode super e b h) ∙ found))
                  | inr (inode, h) ↦
                      rw (← some_inj (sym (both super inode e b h) ∙ found)) (record {
                        super = e;
                        inode = h;
                        inode_blockno = refl;
                        slot = refl;
                        inside = b;
                      })
                ]
          ]
    ]

  pub IsFound-treedisk_get_snapshot :
      (s : St) (inode_no : ℕ) (snap : Snapshot)
      → IsFound s inode_no snap
      → treedisk_get_snapshot below ino s inode_no ≡ some snap
  IsFound-treedisk_get_snapshot s inode_no snap v =
      both s inode_no snap.superblock snap.inodeblock v.super v.inside
        (rw (v.inode_blockno) at (v.inode))
      ∙ ap some (
          rebuilt snap (add32 1 (inode_no / inodes_per_block)) (inode_no % inodes_per_block)
            v.inode_blockno v.slot)
    where
      rebuilt :
          (snap : Snapshot) (b i : ℕ)
          → snap.inode_blockno ≡ b
          → snap.slot ≡ i
          → record {
            superblock = snap.superblock;
            inodeblock = snap.inodeblock;
            inode_blockno = b;
            slot = i;
          }
            ≡ snap
      rebuilt snap b i p q = rw (← p, ← q) refl

pow-le : (a k : ℕ) → 128 ^ a ≤ 128 ^ (k + a)
pow-le a zero = let same : 0 + a ≡ a = omega arith in rw same (omega arith)
pow-le a (suc k) =
    let ih = pow-le a k in
    let next : suc k + a ≡ suc (k + a) = omega arith in
    rw next (simp unary_clauses (omega (arith, ih)))

-- A longer file has at least as many levels, and never more than five.
pub levels_for-levels_of :
    (n offset level : ℕ)
    → n ≤ offset
    → offset < 2 ^ 32
    → levels_of n ≡ some level
    → (after : ℕ) × (levels_for offset ≡ some after) × (level ≤ after) × (after ≤ 5)
unfolding levels_of
levels_for-levels_of n offset level le small e =
    let (after, h, fits, least) = levels_for_lem offset small in
    (after, h, below_after after fits, at_most after least)
  where
    power : (a b : ℕ) → a ≤ b → 128 ^ a ≤ 128 ^ b
    power a b ab = let same : b - a + a ≡ b = omega arith in rw same at (pow-le a (b - a))

    at_most : (after : ℕ) → (after ≡ 0) ⊎ (128 ^ (after - 1) ≤ offset) → after ≤ 5
    at_most after (inl z) = omega arith
    at_most after (inr p) = elim (Bool-cases (leb after 5)) [
      | inl small_after ↦ ground arith
      | inr big ↦ let q = power 5 (after - 1) (ground arith) in absurd (omega (arith, q, p, small))
    ]

    below_levels :
        (after m : ℕ) → offset < 128 ^ after → (m ≡ 0) ⊎ (128 ^ (m - 1) ≤ n - 1) → m ≤ after
    below_levels after m fits (inl z) = omega arith
    below_levels after m fits (inr p) = elim (Bool-cases (leb m after)) [
      | inl ok_m ↦ ground arith
      | inr more ↦ let q = power after (m - 1) (ground arith) in absurd (omega (arith, q, p, fits))
    ]

    below_after : (after : ℕ) → offset < 128 ^ after → level ≤ after
    below_after after fits = elim (Bool-cases (ltb 0 n)) [
      | inl pos ↦
          let last : sub32 n 1 ≡ n - 1 = ground arith in
          let (m, h, lo, least) = levels_for_lem (n - 1) (omega arith) in
          let same : m ≡ level = some_inj (sym h ∙ (rw (pos, last) at e)) in
          rw same at (below_levels after m fits least)
      | inr z ↦ let zero_level : level ≡ 0 = sym (some_inj (rw z at e)) in omega arith
    ]
