-- ===== src/Treedisk/Fill.antt =====
-- The list blocks that `setup_freelist` of egos-2000/library/file/file1.c fills.
use operating_systems_compon.Base.{
  ℕ, zero, suc, ◌+◌, ◌-◌, ◌<◌, ◌≤◌, ◌≡◌, refl, ap, ◌∙◌, inl, inr, true, false, Bool-cases, ℕ-cases,
  List, [], ◌∷◌, ◌++◌, arith, leb, ltb, if◌then◌else◌, add32, update, ltb→lt, ◌&&◌, ◌^◌,
}
use operating_systems_compon.Treedisk.Store.{Block}
use operating_systems_compon.Treedisk.Slots.{
  refs_down, refs_down_empty, refs_down_used, refs_down_zero,
}
use operating_systems_compon.Treedisk.{refs_per_block}
use operating_systems_compon.Treedisk.Create.{clear_slots, fill_slots, list_block}

-- The blocks `lo + k - 1` down to `lo`.
unfoldable pub countdown : (k lo : ℕ) → List ℕ
countdown zero lo = []
countdown (suc k) lo = (lo + k) ∷ countdown k lo

-- What the two loops leave at a slot.
abbrev filled_slot : (left i next nblocks : ℕ) → Block → ℕ → ℕ
filled_slot left i next nblocks refs j =
    if leb i j && ltb j (i + left)
    then (if ltb (next + (j - i)) nblocks then next + (j - i) else 0)
    else refs j

clear_slots-at :
    (left i : ℕ) (refs : Block) (j : ℕ)
    → clear_slots left i refs j ≡ (if leb i j && ltb j (i + left) then 0 else refs j)
unfolding clear_slots
clear_slots-at zero i refs j = ground arith
clear_slots-at (suc left) i refs j = ground (arith, clear_slots-at left (i + 1) (update refs i 0) j)

pub add32-fits : (a b : ℕ) → a < b → b < 2 ^ 32 → add32 a 1 ≡ a + 1
add32-fits a b lt fits = omega arith

module _ (left i next nblocks : ℕ) (refs : Block) (j : ℕ) where
  filled_slot-suc :
      ltb next nblocks ≡ true
      → filled_slot left (i + 1) (next + 1) nblocks (update refs i next) j
        ≡ filled_slot (suc left) i next nblocks refs j
  filled_slot-suc h = ground arith

  filled_slot-clear :
      ltb next nblocks ≡ false
      → (if leb i j && ltb j (i + suc left) then 0 else refs j)
        ≡ filled_slot (suc left) i next nblocks refs j
  filled_slot-clear h = ground arith

fill_slots-at :
    (left i next nblocks : ℕ) (refs : Block) (j : ℕ)
    → nblocks < 2 ^ 32
    → (fill_slots left i next nblocks refs).0 j ≡ filled_slot left i next nblocks refs j
unfolding fill_slots
fill_slots-at zero i next nblocks refs j fits = ground arith
fill_slots-at (suc left) i next nblocks refs j fits = elim (Bool-cases (ltb next nblocks)) [
  | inl h ↦
      rw (h, add32-fits next nblocks (ltb→lt next nblocks h) fits)
        (fill_slots-at left (i + 1) (next + 1) nblocks (update refs i next) j fits
          ∙ filled_slot-suc left i next nblocks refs j h)
  | inr h ↦
      rw h (clear_slots-at (suc left) i refs j ∙ filled_slot-clear left i next nblocks refs j h)
]

-- The loops stop at the last block or when the slots are used up.
fill_slots-next :
    (left i next nblocks : ℕ) (refs : Block)
    → nblocks < 2 ^ 32
    → next ≤ nblocks
    → (fill_slots left i next nblocks refs).1
      ≡ (if leb (next + left) nblocks then next + left else nblocks)
unfolding fill_slots
fill_slots-next zero i next nblocks refs fits le = ground arith
fill_slots-next (suc left) i next nblocks refs fits le = elim (Bool-cases (ltb next nblocks)) [
  | inl h ↦
      rw (h, add32-fits next nblocks (ltb→lt next nblocks h) fits)
        (fill_slots-next left (i + 1) (next + 1) nblocks (update refs i next) fits
            (omega (arith, ltb→lt next nblocks h))
          ∙ (ground arith))
  | inr h ↦ rw h (ground arith)
]

-- The references of a block whose first `m` slots were filled from `next`, in the order they are
-- handed out.
refs_down-countdown :
    (k m next : ℕ) (refs : Block)
    → m ≤ k
    → ((j : ℕ) → 1 ≤ j → j ≤ m → refs j ≡ next + (j - 1))
    → ((j : ℕ) → m < j → j ≤ k → refs j ≡ 0)
    → 1 ≤ next
    → refs_down k refs ≡ countdown m next
unfolding countdown
refs_down-countdown zero m next refs le filled empty pos =
    let e : m ≡ 0 = omega arith in rw e (refs_down_zero refs)
refs_down-countdown (suc k) m next refs le filled empty pos = elim (ℕ-cases m (suc k)) [
  | inl e ↦
      let last : refs (suc k) ≡ next + k =
        omega (arith, filled (suc k) (omega arith) (omega arith)) in
      rw e (
        refs_down_used k refs (omega arith)
        ∙ rw last (
            ap (◌∷◌ (next + k)) (
              refs_down-countdown k k next refs (omega arith) (λ j lo hi. filled j lo (omega arith))
                (λ j lo hi. absurd (omega arith)) pos)))
  | inr ne ↦
      refs_down_empty k refs (empty (suc k) (omega arith) (omega arith))
      ∙ refs_down-countdown k m next refs (omega arith) filled (λ j lo hi. empty j lo (omega arith))
          pos
]

pub countdown-append :
    (k m lo : ℕ) (xs : List ℕ)
    → countdown k (lo + m) ++ (countdown m lo ++ xs) ≡ countdown (k + m) lo ++ xs
unfolding countdown
countdown-append zero m lo xs = let e : 0 + m ≡ m = omega arith in rw e refl
countdown-append (suc k) m lo xs =
    let e : suc k + m ≡ suc (k + m) = omega arith in
    let head : lo + m + k ≡ lo + (k + m) = omega arith in
    rw (e, head) (ap (◌∷◌ (lo + (k + m))) (countdown-append k m lo xs))

pub countdown-zero : (lo : ℕ) → countdown 0 lo ≡ []
unfolding countdown
countdown-zero lo = refl

countdown-one : (lo : ℕ) (xs : List ℕ) → lo ∷ xs ≡ countdown 1 lo ++ xs
unfolding countdown
countdown-one lo xs = let e : lo + 0 ≡ lo = omega arith in rw e refl

pub countdown-snoc :
    (k lo : ℕ) (xs : List ℕ) → countdown k (lo + 1) ++ (lo ∷ xs) ≡ countdown (k + 1) lo ++ xs
countdown-snoc k lo xs =
    let one : lo ∷ xs ≡ countdown 1 lo ++ xs = countdown-one lo xs in
    rw one (countdown-append k 1 lo xs)

-- A list block that is filled from `next` on.
pub record IsListBlock (head next nblocks m : ℕ) (block : Block) (next' : ℕ) : Type 0 where
  pub link : block 0 ≡ head
  pub slots : refs_down (refs_per_block - 1) block ≡ countdown m next
  pub advance : next' ≡ next + m
  pub bound : next + m ≤ nblocks

pub list_block-IsListBlock :
    (refs : Block) (head next nblocks : ℕ)
    → nblocks < 2 ^ 32
    → 1 ≤ next
    → next ≤ nblocks
    → (m : ℕ) × IsListBlock head next nblocks m
        (list_block refs head next nblocks).0
        (list_block refs head next nblocks).1
unfolding list_block
list_block-IsListBlock refs head next nblocks fits pos le =
    let start = update refs 0 head in
    let at_slot = λ (j : ℕ). fill_slots-at (refs_per_block - 1) 1 next nblocks start j fits in
    let end = fill_slots-next (refs_per_block - 1) 1 next nblocks start fits le in
    elim (ℕ-cases (nblocks - next - (refs_per_block - 1)) 0) [
      | inl z ↦ (
        nblocks - next,
        record {
          link = at_slot 0;
          slots =
              refs_down-countdown _ _ next _ (omega arith) (λ j lo hi. at_slot j ∙ (ground arith))
                (λ j lo hi. at_slot j ∙ (ground arith)) pos;
          advance = end ∙ (ground arith);
          bound = omega arith;
        },
      )
      | inr nz ↦ (
        refs_per_block - 1,
        record {
          link = at_slot 0;
          slots =
              refs_down-countdown _ _ next _ (omega arith) (λ j lo hi. at_slot j ∙ (ground arith))
                (λ j lo hi. absurd (omega arith)) pos;
          advance = end ∙ (ground arith);
          bound = omega arith;
        },
      )
    ]
