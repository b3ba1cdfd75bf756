-- ===== src/Base/Arrays.antt =====
-- C arrays as functions of the index, and the counted loop `for (k = i; k < i + n; k++)`.
use Prim.Native.Nat.{ℕ, zero, suc, ◌+◌, ◌≤◌, ◌<◌}
use mathlib.Core.Path.{◌≡◌}
use mathlib.Core.Logic.{◌≢◌, ◌⊎◌}
use mathlib.Core.Bool.{◌&&◌}
use native.Mathlib.Omega.{arith}
use operating_systems_compon.Base.Tests.{ltb, leb, ◌==◌, if◌then◌else◌, eq→==, ne→==}

-- `a[i] = v`.
abbrev pub update {ℓ} : {A : Type ℓ} → (ℕ → A) → ℕ → A → ℕ → A
update a i v = λ j. if i == j then v else a j

unfoldable pub count_from {ℓ} : {S : Type ℓ} → (rounds k : ℕ) → (body : ℕ → S → S) → S → S
count_from zero k body st = st
count_from (suc rounds) k body st = count_from rounds (k + 1) body (body k st)

-- An invariant of the body, indexed by the counter, holds at the end; the body may use that the
-- counter is in its range.
pub count_from-invariant {ℓ κ} :
    {S : Type ℓ} (Inv : ℕ → S → Type κ) (body : ℕ → S → S) (rounds start stop : ℕ)
    → ((k : ℕ) (st : S) → start ≤ k → k < stop → Inv k st → Inv (k + 1) (body k st))
    → (st : S) → start + rounds ≡ stop
    → Inv start st
    → Inv stop (count_from rounds start body st)
unfolding count_from
count_from-invariant Inv body zero start stop keep st e holds =
    let same : start ≡ stop = omega arith in rw (← same) holds
count_from-invariant Inv body (suc rounds) start stop keep st e holds =
    let kept = keep start st (omega arith) (omega arith) holds in
    count_from-invariant Inv body rounds (start + 1) stop
      (λ k st' lo hi. keep k st' (omega arith) hi) (body start st) (omega arith) kept

-- A loop whose round `k` rewrites entry `k` alone, from what that entry holds, rewrites each entry
-- of its range once and leaves the others.
pub count_from-pointwise {ℓ} :
    {A : Type ℓ} (g : ℕ → A → A) (body : ℕ → (ℕ → A) → ℕ → A)
    → ((k : ℕ) (a : ℕ → A) (j : ℕ) → body k a j ≡ (if k == j then g j (a j) else a j))
    → (n i : ℕ) (a : ℕ → A) (j : ℕ)
    → count_from n i body a j ≡ (if leb i j && ltb j (i + n) then g j (a j) else a j)
unfolding count_from
count_from-pointwise g body local zero i a j = ground arith
count_from-pointwise g body local (suc n) i a j =
    ground (arith, count_from-pointwise g body local n (i + 1) (body i a) j, local i a j)

module _ {ℓ} {A : Type ℓ} (a : ℕ → A) (i : ℕ) (v : A) (j : ℕ) where
  pub update_self : i ≡ j → update a i v j ≡ v
  update_self e = rw (eq→== _ _ e)

  pub update_ne : i ≢ j → update a i v j ≡ a j
  update_ne ne = rw (ne→== _ _ ne)

pub ℕ-cases : (i j : ℕ) → (i ≡ j) ⊎ (i ≢ j)
ℕ-cases i j = grind arith
