-- ===== src/Base/Search.antt =====
-- The loop `for (k = i; k < i + n; k++) if (test(k)) { … break or return … }`.
use Prim.Native.Nat.{ℕ, zero, suc, ◌+◌, ◌≤◌, ◌<◌}
use mathlib.Core.Path.{◌≡◌, ap, ◌∙◌}
use mathlib.Core.Logic.{inl, inr}
use mathlib.Core.Bool.{Bool, true, false}
use mathlib.Core.Option.{Option, none, some}
use native.Mathlib.Omega.{arith}
use operating_systems_compon.Base.Tests.{if◌then◌else◌, Bool-cases, Option-cases, ltb}
use operating_systems_compon.Base.Arrays.{ℕ-cases}

-- The first index from `i` on, of `n`, at which the test holds.
unfoldable pub first_index : (ℕ → Bool) → ℕ → ℕ → Option ℕ
first_index test zero i = none
first_index test (suc n) i =
    let rest = first_index test n (i + 1) in if test i then some i else rest

module _ (test : ℕ → Bool) where
  pub first_index-some :
      (n i k : ℕ) → first_index test n i ≡ some k → (i ≤ k) × (k < i + n) × (test k ≡ true)
  unfolding first_index
  first_index-some zero i k h = cc
  first_index-some (suc n) i k h = ground (arith, first_index-some n (i + 1) k)

  pub first_index-first :
      (n i k : ℕ) → first_index test n i ≡ some k → (j : ℕ) → i ≤ j → j < k → test j ≡ false
  unfolding first_index
  first_index-first zero i k h j lo hi = cc
  first_index-first (suc n) i k h j lo hi = elim (Bool-cases (test i)) [
    | inl hit ↦ ground arith
    | inr miss ↦ elim (ℕ-cases i j) [
      | inl e ↦ rw (← e) miss
      | inr ne ↦ first_index-first n (i + 1) k (rw miss at h) j (omega arith) hi
    ]
  ]

  pub first_index-none :
      (n i : ℕ) → first_index test n i ≡ none → (j : ℕ) → i ≤ j → j < i + n → test j ≡ false
  unfolding first_index
  first_index-none zero i h j lo hi = absurd (omega arith)
  first_index-none (suc n) i h j lo hi = elim (Bool-cases (test i)) [
    | inl hit ↦ ground arith
    | inr miss ↦ elim (ℕ-cases i j) [
      | inl e ↦ rw (← e) miss
      | inr ne ↦ first_index-none n (i + 1) (rw miss at h) j (omega arith) (omega arith)
    ]
  ]

-- The first hit below `n`.
pub first_index-hit :
    (test : ℕ → Bool) (n k : ℕ)
    → k < n
    → test k ≡ true
    → ((j : ℕ) → j < k → test j ≡ false)
    → first_index test n 0 ≡ some k
first_index-hit test n k lt hit miss = elim (Option-cases (first_index test n 0)) [
  | inl e ↦ clash (first_index-none test n 0 e k (omega arith) (omega arith))
  | inr (j, e) ↦ elim (ℕ-cases j k) [
    | inl same ↦ e ∙ ap some same
    | inr ne ↦
        let (lo, hi, there) = first_index-some test n 0 j e in
        elim (Bool-cases (ltb j k)) [
          | inl before ↦ cc (there, miss j (ground (arith, before)))
          | inr after ↦
              clash (first_index-first test n 0 j e k (omega arith) (ground (arith, after, ne)))
        ]
  ]
]
  where
    clash : test k ≡ false → first_index test n 0 ≡ some k
    clash e = cc (hit, e)
