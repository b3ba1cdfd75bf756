-- ===== src/Treedisk/Slots.antt =====
-- The slots of a free list block of egos-2000/library/file/file1.c, which `treedisk_alloc_block` scans
-- from the last one down, and lists of blocks without a given one.
use operating_systems_compon.Base.{
  ℕ, ℕ-cases, zero, suc, ◌≤◌, ◌<◌, ◌≡◌, ◌≢◌, refl, sym, ap, ◌∙◌, inl, inr, List, [], ◌∷◌, arith,
  ◌==◌, if◌then◌else◌, update, update_self, update_ne, eq→==, ne→==,
}
use operating_systems_compon.Treedisk.Store.{Block}
use operating_systems_compon.Treedisk.{last_ref}

-- The references of a free list block at slots `k` down to 1 that are in use, the last slot first.
unfoldable pub refs_down : ℕ → Block → List ℕ
refs_down zero refs = []
refs_down (suc k) refs =
    let rest = refs_down k refs in if refs (suc k) == 0 then rest else refs (suc k) ∷ rest

pub data Avoids (o : ℕ) : List ℕ → Type 0 where
  avoids_nil : Avoids o []
  avoids_cons : {b : ℕ} {bs : List ℕ} → o ≢ b → Avoids o bs → Avoids o (b ∷ bs)

last_ref-le : (k : ℕ) (refs : Block) → last_ref k refs ≤ k
unfolding last_ref
last_ref-le zero refs = omega arith
last_ref-le (suc k) refs = ground (arith, last_ref-le k refs)

refs_down-update :
    (k j v : ℕ) (refs : Block) → k < j → refs_down k (update refs j v) ≡ refs_down k refs
unfolding refs_down
refs_down-update zero j v refs lt = refl
refs_down-update (suc k) j v refs lt =
    rw (update_ne refs j v (suc k) (omega arith))
      (rw (refs_down-update k j v refs (omega arith)) refl)

-- A slot is passed over when it is empty, and taken when it is not.
pub refs_down_empty :
    (k : ℕ) (refs : Block) → refs (suc k) ≡ 0 → refs_down (suc k) refs ≡ refs_down k refs
unfolding refs_down
refs_down_empty k refs e = rw (eq→== _ _ e) refl

pub refs_down_used :
    (k : ℕ) (refs : Block)
    → refs (suc k) ≢ 0
    → refs_down (suc k) refs ≡ refs (suc k) ∷ refs_down k refs
unfolding refs_down
refs_down_used k refs ne = rw (ne→== _ _ ne) refl

last_ref_empty : (k : ℕ) (refs : Block) → refs (suc k) ≡ 0 → last_ref (suc k) refs ≡ last_ref k refs
unfolding last_ref
last_ref_empty k refs e = rw (eq→== _ _ e) refl

last_ref_used : (k : ℕ) (refs : Block) → refs (suc k) ≢ 0 → last_ref (suc k) refs ≡ suc k
unfolding last_ref
last_ref_used k refs ne = rw (ne→== _ _ ne) refl

last_ref_zero : (refs : Block) → last_ref 0 refs ≡ 0
unfolding last_ref
last_ref_zero refs = refl

pub refs_down_zero : (refs : Block) → refs_down 0 refs ≡ []
unfolding refs_down
refs_down_zero refs = refl

pub last_ref-ne : (k : ℕ) (refs : Block) → last_ref k refs ≢ 0 → refs (last_ref k refs) ≢ 0
last_ref-ne zero refs ne = absurd (ne (last_ref_zero refs))
last_ref-ne (suc k) refs ne = elim (ℕ-cases (refs (suc k)) 0) [
  | inl e ↦ rw (last_ref_empty k refs e) (last_ref-ne k refs (rw (last_ref_empty k refs e) at ne))
  | inr e ↦ rw (last_ref_used k refs e) e
]

-- A block with no reference hands out none.
pub last_ref-refs_down_nil : (k : ℕ) (refs : Block) → last_ref k refs ≡ 0 → refs_down k refs ≡ []
last_ref-refs_down_nil zero refs z = refs_down_zero refs
last_ref-refs_down_nil (suc k) refs z = elim (ℕ-cases (refs (suc k)) 0) [
  | inl e ↦
      rw (refs_down_empty k refs e)
        (last_ref-refs_down_nil k refs (rw (last_ref_empty k refs e) at z))
  | inr e ↦ absurd (omega (arith, last_ref_used k refs e))
]

-- The last slot in use holds the first reference handed out.
pub last_ref-refs_down :
    (k : ℕ) (refs : Block)
    → last_ref k refs ≢ 0
    → refs_down k refs ≡ refs (last_ref k refs) ∷ refs_down k (update refs (last_ref k refs) 0)
last_ref-refs_down zero refs ne = absurd (ne (last_ref_zero refs))
last_ref-refs_down (suc k) refs ne = elim (ℕ-cases (refs (suc k)) 0) [
  | inl e ↦
      let below_k : last_ref k refs ≢ suc k = omega (arith, last_ref-le k refs) in
      rw (last_ref_empty k refs e) (
        refs_down_empty k refs e
        ∙ last_ref-refs_down k refs (rw (last_ref_empty k refs e) at ne)
        ∙ ap (◌∷◌ (refs (last_ref k refs))) (
            sym (
              refs_down_empty k (update refs (last_ref k refs) 0)
                (update_ne refs (last_ref k refs) 0 (suc k) below_k ∙ e))))
  | inr e ↦ rw (last_ref_used k refs e) (
      refs_down_used k refs e
      ∙ ap (◌∷◌ (refs (suc k))) (
          sym (
            refs_down_empty k (update refs (suc k) 0) (update_self refs (suc k) 0 (suc k) refl)
            ∙ refs_down-update k (suc k) 0 refs (omega arith))))
]
