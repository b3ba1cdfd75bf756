-- ===== src/Treedisk/Setup.antt =====
-- The free list that `setup_freelist` of egos-2000/library/file/file1.c leaves.
use mathlib.Core.Path.{subst}
use operating_systems_compon.Base.{
  ℕ, zero, suc, ◌+◌, ◌-◌, ◌<◌, ◌≤◌, ◌≡◌, refl, ◌∙◌, some, List, [], ◌∷◌, ◌++◌, arith, lt→ltb,
  le→ltb, ◌^◌,
}
use operating_systems_compon.Treedisk.Store.{Block, InodeStore, IsStore, IsWritable}
use operating_systems_compon.Treedisk.Slots.{Avoids, avoids_nil, avoids_cons, refs_down}
use operating_systems_compon.Treedisk.Freelist.{Free-frame, Free, free_nil, free_cons}
use operating_systems_compon.Treedisk.{ok, refs_per_block}
use operating_systems_compon.Treedisk.Create.{list_block, setup_freelist}
use operating_systems_compon.Treedisk.Fill.{
  add32-fits, countdown-zero, countdown, countdown-append, countdown-snoc, IsListBlock,
  list_block-IsListBlock,
}

-- The list blocks lie below the next block.
pub data Under (n : ℕ) : List ℕ → Type 0 where
  under_nil : Under n []
  under_cons : {b : ℕ} {bs : List ℕ} → b < n → Under n bs → Under n (b ∷ bs)

Under-Avoids : (n o : ℕ) (bs : List ℕ) → n ≤ o → Under n bs → Avoids o bs
Under-Avoids n o _ le under_nil = avoids_nil
Under-Avoids n o _ le (under_cons lt u) = avoids_cons (omega arith) (Under-Avoids n o _ le u)

Under-le : (n n' : ℕ) (bs : List ℕ) → n ≤ n' → Under n bs → Under n' bs
Under-le n n' _ le under_nil = under_nil
Under-le n n' _ le (under_cons lt u) = under_cons (omega arith) (Under-le n n' _ le u)

countdown-join :
    (k' m k next next' : ℕ) (xs : List ℕ)
    → next' ≡ next + 1 + m
    → k' + (m + 1) ≡ suc k
    → countdown k' next' ++ (countdown (m + 1) next ++ xs) ≡ countdown (suc k) next ++ xs
countdown-join k' m k next next' xs e total =
    let start : next' ≡ next + (m + 1) = omega arith in
    rw start (rw (← total) (countdown-append k' (m + 1) next xs))

-- A free list that hands out `xs`, with its list blocks below `limit`.
pub record IsSetUp {St : Type 0} (below : InodeStore St) (ino : ℕ) (limit : ℕ) (xs : List ℕ)
    (head : ℕ) (s : St) : Type 0 where
  pub list_blocks : List ℕ
  pub free : Free below ino s head list_blocks xs
  pub under : Under limit list_blocks

module _ {St : Type 0} {below : InodeStore St} (law : IsStore below) (ready : IsWritable below)
    (ino nblocks : ℕ) (fits : nblocks < 2 ^ 32) where
  setup_freelist-stop :
      (fuel : ℕ) (s : St) (junk : Block) (head next : ℕ)
      → nblocks ≤ next
      → setup_freelist below ino (suc fuel) s junk head next nblocks ≡ ok (head, s)
  unfolding setup_freelist
  setup_freelist-stop fuel s junk head next le = rw (le→ltb next nblocks le) refl

  setup_freelist-step :
      (fuel : ℕ) (s : St) (junk : Block) (head next : ℕ)
      → next < nblocks
      → setup_freelist below ino (suc fuel) s junk head next nblocks
        ≡ setup_freelist below ino fuel
            (ready.written s ino next (list_block junk head (next + 1) nblocks).0)
            (list_block junk head (next + 1) nblocks).0
            next
            (list_block junk head (next + 1) nblocks).1
            nblocks
  unfolding setup_freelist
  setup_freelist-step fuel s junk head next lt =
      rw
        (
          lt→ltb next nblocks lt,
          add32-fits next nblocks lt fits,
          ready.write_ok s ino next (list_block junk head (next + 1) nblocks).0,
        )
        refl

  -- A list block that was filled and written is put before the list.
  IsSetUp-extend :
      (s : St) (head next m next' : ℕ) (xs : List ℕ) (block : Block)
      → 1 ≤ next
      → IsSetUp below ino next xs head s
      → IsListBlock head (next + 1) nblocks m block next'
      → IsSetUp below ino next' (countdown (m + 1) next ++ xs) next (ready.written s ino next block)
  IsSetUp-extend s head next m next' xs block pos done filled =
      let s' = ready.written s ino next block in
      let w : below.write s ino next block ≡ some s' = ready.write_ok s ino next block in
      let away = Under-Avoids next next done.list_blocks (omega arith) done.under in
      let kept : Free below ino s' (block 0) done.list_blocks xs =
        rw filled.link
          (Free-frame law ino s s' next block w head done.list_blocks xs done.free away) in
      let order : refs_down (refs_per_block - 1) block ++ (next ∷ xs)
          ≡ countdown (m + 1) next ++ xs =
        rw filled.slots (countdown-snoc m next xs) in
      record {
        list_blocks = next ∷ done.list_blocks;
        free =
            subst (Free below ino s' next (next ∷ done.list_blocks)) order
              (free_cons (omega arith) (law.read_same s s' ino next block w) away kept);
        under =
            under_cons (omega (arith, filled.advance))
              (Under-le next next' _ (omega (arith, filled.advance)) done.under);
      }

  setup_freelist-IsSetUp :
      (fuel : ℕ) (s : St) (junk : Block) (head next k : ℕ) (xs : List ℕ)
      → next + k ≡ nblocks
      → k < fuel
      → 1 ≤ next
      → IsSetUp below ino next xs head s
      → (head' : ℕ) × (s' : St) × (setup_freelist below ino fuel s junk head next nblocks
          ≡ ok (head', s'))
        × IsSetUp below ino nblocks (countdown k next ++ xs) head' s'
  setup_freelist-IsSetUp zero s junk head next k xs e enough pos done = absurd (omega arith)
  setup_freelist-IsSetUp (suc fuel) s junk head next zero xs e enough pos done =
      let end : nblocks ≡ next = omega arith in
      (
        head,
        s,
        setup_freelist-stop fuel s junk head next (omega arith),
        rw (end, countdown-zero next) done,
      )
  setup_freelist-IsSetUp (suc fuel) s junk head next (suc k) xs e enough pos done =
      let (m, filled) =
        list_block-IsListBlock junk head (next + 1) nblocks fits (omega arith) (omega arith) in
      let next' = (list_block junk head (next + 1) nblocks).1 in
      let (head', s', runs, set_up) =
        setup_freelist-IsSetUp fuel
          (ready.written s ino next (list_block junk head (next + 1) nblocks).0)
          (list_block junk head (next + 1) nblocks).0 next next' (k - m)
          (countdown (m + 1) next ++ xs) (omega (arith, filled.advance, filled.bound)) (omega arith)
          (omega (arith, filled.advance)) (IsSetUp-extend s head next m _ xs _ pos done filled) in
      (
        head',
        s',
        setup_freelist-step fuel s junk head next (omega arith) ∙ runs,
        subst (λ ys. IsSetUp below ino nblocks ys head' s')
            (countdown-join (k - m) m k next next' xs filled.advance
              (omega (arith, filled.advance, filled.bound)))
            set_up,
      )

  -- On a store that keeps what is written, whose writes succeed and which has fewer than 2^32 blocks,
  -- `setup_freelist` from a first block that is not 0 returns with fuel for one more round than there
  -- are blocks, whatever its array holds at first, and the free list that it leaves hands out every
  -- block from the last down to that first one, each once.
  pub setup_freelist-countdown :
      (s : St) (junk : Block) (next k : ℕ)
      → 1 ≤ next
      → next + k ≡ nblocks
      → (head : ℕ) × (s' : St) × (setup_freelist below ino (suc nblocks) s junk 0 next nblocks
          ≡ ok (head, s'))
        × IsSetUp below ino nblocks (countdown k next ++ []) head s'
  setup_freelist-countdown s junk next k pos e =
      setup_freelist-IsSetUp (suc nblocks) s junk 0 next k [] e (omega arith) pos
        (record { list_blocks = []; free = free_nil; under = under_nil })
