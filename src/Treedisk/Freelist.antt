-- ===== src/Treedisk/Freelist.antt =====
-- The free list of egos-2000/library/file/file1.c: what `treedisk_alloc_block` takes from it.
use operating_systems_compon.Base.{
  ℕ, ℕ-cases, ◌-◌, ◌≡◌, ◌≢◌, refl, sym, ap, ◌∙◌, inl, inr, some, List, [], ◌∷◌, ◌++◌, update,
  update_ne, eq→==, ne→==,
}
use operating_systems_compon.Treedisk.Store.{Block, InodeStore, IsStore, IsWritable}
use operating_systems_compon.Treedisk.Slots.{
  Avoids, avoids_nil, avoids_cons, refs_down, last_ref-ne, last_ref-refs_down_nil,
  last_ref-refs_down,
}
use operating_systems_compon.Treedisk.{
  ok, panic, refs_per_block, Snapshot, free_list, last_ref, Taken, take_ref, treedisk_alloc_block,
}

module _ {St : Type 0} (below : InodeStore St) (ino : ℕ) where
  -- In store `s` the free list that starts at a block hands out `xs`, in this order, and its list
  -- blocks are `bs`: a list block gives its references first, then itself.
  pub data Free (s : St) : ℕ → (bs xs : List ℕ) → Type 0 where
    free_nil : Free s 0 [] []
    free_cons :
        {b : ℕ} {refs : Block} {bs xs : List ℕ}
        → b ≢ 0
        → below.read s ino b ≡ some refs
        → Avoids b bs
        → Free s (refs 0) bs xs
        → Free s b (b ∷ bs) (refs_down (refs_per_block - 1) refs ++ (b ∷ xs))

apart : (o b : ℕ) (bs : List ℕ) → Avoids o (b ∷ bs) → b ≢ o
apart o b bs (avoids_cons ne a) e = ne (sym e)

-- What a successful allocation leaves: the block is the first that the list hands out, the rest of
-- the list stays, the superblock in memory is the one in the store, and nothing else is written.
pub record IsTaken {St : Type 0} (below : InodeStore St) (ino : ℕ) (s : St) (bs xs : List ℕ)
    (t : Taken St) : Type 0 where
  pub rest : List ℕ
  pub rest_blocks : List ℕ
  pub first : xs ≡ t.block ∷ rest
  pub free : Free below ino t.store (free_list t.snap.superblock) rest_blocks rest
  pub used : t.block ≢ 0
  pub super : below.read t.store ino 0 ≡ some t.snap.superblock
  pub frame : (o : ℕ) → o ≢ 0 → Avoids o bs → below.read t.store ino o ≡ below.read s ino o

module _ {St : Type 0} {below : InodeStore St} (law : IsStore below) (ino : ℕ) where
  pub Free-frame :
      (s s' : St) (o : ℕ) (blk : Block)
      → below.write s ino o blk ≡ some s'
      → (b : ℕ) (bs xs : List ℕ) → Free below ino s b bs xs
      → Avoids o bs
      → Free below ino s' b bs xs
  Free-frame s s' o blk w _ _ _ free_nil a = free_nil
  Free-frame s s' o blk w _ _ _ (free_cons ne r av f) (avoids_cons ne_o a) =
      free_cons ne (law.read_other s s' ino o _ blk w ne_o ∙ r) av
        (Free-frame s s' o blk w _ _ _ f a)

  Free-Avoids : (s : St) (b : ℕ) (bs xs : List ℕ) → Free below ino s b bs xs → Avoids 0 bs
  Free-Avoids s _ _ _ free_nil = avoids_nil
  Free-Avoids s _ _ _ (free_cons ne r av f) = avoids_cons (λ e. ne (sym e)) (Free-Avoids s _ _ _ f)

  module _ (ready : IsWritable below) (s : St) (snap : Snapshot)
      (same : below.read s ino 0 ≡ some snap.superblock) where
    take_ref-slot :
        (b i : ℕ) (refs : Block)
        → i ≢ 0
        → take_ref below ino s snap b refs i
          ≡ ok (record {
            block = refs i;
            snap = snap;
            store = ready.written s ino b (update refs i 0);
          })
    unfolding take_ref
    take_ref-slot b i refs ne = rw (ne→== _ _ ne, ready.write_ok s ino b (update refs i 0)) refl

    take_ref-list :
        (b : ℕ) (refs : Block)
        → take_ref below ino s snap b refs 0
          ≡ ok (record {
            block = b;
            snap = record snap { superblock = update snap.superblock 1 (refs 0) };
            store = ready.written s ino 0 (update snap.superblock 1 (refs 0));
          })
    unfolding take_ref
    take_ref-list b refs = rw (ready.write_ok s ino 0 (update snap.superblock 1 (refs 0))) refl

    treedisk_alloc_block-read :
        (refs : Block)
        → free_list snap.superblock ≢ 0
        → below.read s ino (free_list snap.superblock) ≡ some refs
        → treedisk_alloc_block below ino s snap
          ≡ take_ref below ino s snap
              (free_list snap.superblock)
              refs
              (last_ref (refs_per_block - 1) refs)
    unfolding treedisk_alloc_block
    treedisk_alloc_block-read refs ne r = rw (ne→== _ _ ne, r) refl

    IsTaken-slot :
        (b i : ℕ) (refs : Block) (bs xs : List ℕ)
        → b ≡ free_list snap.superblock
        → b ≢ 0
        → i ≢ 0
        → refs i ≢ 0
        → refs_down (refs_per_block - 1) refs
          ≡ refs i ∷ refs_down (refs_per_block - 1) (update refs i 0)
        → Avoids b bs
        → Free below ino s (refs 0) bs xs
        → IsTaken below ino s (b ∷ bs) (refs_down (refs_per_block - 1) refs ++ (b ∷ xs)) (record {
          block = refs i;
          snap = snap;
          store = ready.written s ino b (update refs i 0);
        })
    IsTaken-slot b i refs bs xs e ne ni nr split av f =
        let s' = ready.written s ino b (update refs i 0) in
        let w : below.write s ino b (update refs i 0) ≡ some s' =
          ready.write_ok s ino b (update refs i 0) in
        let next : Free below ino s' (update refs i 0 0) bs xs =
          rw (update_ne refs i 0 0 ni)
            (Free-frame s s' b (update refs i 0) w (refs 0) bs xs f av) in
        record {
          rest = refs_down (refs_per_block - 1) (update refs i 0) ++ (b ∷ xs);
          rest_blocks = b ∷ bs;
          first = ap (λ l. l ++ (b ∷ xs)) split;
          free = rw (← e) (free_cons ne (law.read_same s s' ino b (update refs i 0) w) av next);
          used = nr;
          super = law.read_other s s' ino b 0 (update refs i 0) w ne ∙ same;
          frame = λ o no_super a. law.read_other s s' ino b o (update refs i 0) w (apart o b bs a);
        }

    IsTaken-list :
        (b : ℕ) (refs : Block) (bs xs : List ℕ)
        → b ≢ 0
        → refs_down (refs_per_block - 1) refs ≡ []
        → Free below ino s (refs 0) bs xs
        → IsTaken below ino s (b ∷ bs) (refs_down (refs_per_block - 1) refs ++ (b ∷ xs)) (record {
          block = b;
          snap = record snap { superblock = update snap.superblock 1 (refs 0) };
          store = ready.written s ino 0 (update snap.superblock 1 (refs 0));
        })
    IsTaken-list b refs bs xs ne none_left f =
        let super' = update snap.superblock 1 (refs 0) in
        let s' = ready.written s ino 0 super' in
        let w : below.write s ino 0 super' ≡ some s' = ready.write_ok s ino 0 super' in
        record {
          rest = xs;
          rest_blocks = bs;
          first = ap (λ l. l ++ (b ∷ xs)) none_left;
          free = Free-frame s s' 0 super' w (refs 0) bs xs f (Free-Avoids s (refs 0) bs xs f);
          used = ne;
          super = law.read_same s s' ino 0 super' w;
          frame = λ o no_super a. law.read_other s s' ino 0 o super' w (λ e. no_super (sym e));
        }

    treedisk_alloc_block-from :
        (b : ℕ) (bs xs : List ℕ)
        → b ≡ free_list snap.superblock
        → b ≢ 0
        → Free below ino s b bs xs
        → (t : Taken St) × (treedisk_alloc_block below ino s snap ≡ ok t)
          × IsTaken below ino s bs xs t
    treedisk_alloc_block-from _ _ _ e ne free_nil = absurd (ne refl)
    treedisk_alloc_block-from _ _ _ e ne (free_cons {b} {refs} {bs} {xs} nb r av f) =
        let read : treedisk_alloc_block below ino s snap
            ≡ take_ref below ino s snap b refs (last_ref (refs_per_block - 1) refs) =
          rw e (treedisk_alloc_block-read refs (rw (← e) nb) (rw (← e) r)) in
        elim (ℕ-cases (last_ref (refs_per_block - 1) refs) 0) [
          | inl z ↦ (
            _,
            rw z at read ∙ take_ref-list b refs,
            IsTaken-list b refs bs xs nb (last_ref-refs_down_nil _ refs z) f,
          )
          | inr nz ↦ (
            _,
            read ∙ take_ref-slot b _ refs nz,
            IsTaken-slot b _ refs bs xs e nb nz (last_ref-ne _ refs nz)
                (last_ref-refs_down _ refs nz) av f,
          )
        ]

    -- On a store whose writes succeed, with a free list that is not empty and the superblock in
    -- memory that of the store, `treedisk_alloc_block` returns the first block of the list: not 0, and
    -- afterwards the list is the rest, the superblock in memory is again that of the store, and every
    -- block but the superblock and the list blocks is unchanged.
    pub treedisk_alloc_block-IsTaken :
        (bs xs : List ℕ)
        → free_list snap.superblock ≢ 0
        → Free below ino s (free_list snap.superblock) bs xs
        → (t : Taken St) × (treedisk_alloc_block below ino s snap ≡ ok t)
          × IsTaken below ino s bs xs t
    treedisk_alloc_block-IsTaken bs xs ne f = treedisk_alloc_block-from _ bs xs refl ne f

  -- With an empty free list the allocation panics, whatever the store holds.
  pub treedisk_alloc_block-full :
      (s : St) (snap : Snapshot)
      → free_list snap.superblock ≡ 0
      → treedisk_alloc_block below ino s snap ≡ panic
  unfolding treedisk_alloc_block
  treedisk_alloc_block-full s snap e = rw (eq→== _ _ e) refl
