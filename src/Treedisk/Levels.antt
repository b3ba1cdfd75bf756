-- ===== src/Treedisk/Levels.antt =====
-- The number of levels of a file, computed by the `while` loops of `treedisk_read` and
-- `treedisk_write` in egos-2000/library/file/file1.c, and `log_rpb`.
use operating_systems_compon.Base.{ℕ, ◌-◌, ◌^◌, ◌≤◌, ◌<◌, ◌≡◌, refl, some, arith, inl, inr, ◌⊎◌}
use operating_systems_compon.Treedisk.{find_log, log_rpb, levels_for, count_levels, log_shift_r}

-- The loop of `treedisk_init` ends with the value used here.
find_log_lem : find_log 7 0 ≡ some log_rpb
unfolding find_log
find_log_lem = refl

below-cases : (x bound : ℕ) → (x < bound) ⊎ (bound ≤ x)
below-cases x bound = grind arith

-- Six rounds end the loop for every offset that fits in 32 bits, with the smallest number of levels
-- whose tree, 128 references in a block, has more blocks than the offset.
pub levels_for_lem :
    (x : ℕ)
    → x < 2 ^ 32
    → (n : ℕ) × (levels_for x ≡ some n) × (x < 128 ^ n) × ((n ≡ 0) ⊎ (128 ^ (n - 1) ≤ x))
unfolding levels_for count_levels log_shift_r
levels_for_lem x small = elim (below-cases x 1) [
  | inl h ↦ (0, ground arith, omega arith, inl refl)
  | inr h₀ ↦ elim (below-cases x 128) [
    | inl h ↦ (1, ground arith, omega arith, inr (omega arith))
    | inr h₁ ↦ elim (below-cases x 16384) [
      | inl h ↦ (2, ground arith, omega arith, inr (omega arith))
      | inr h₂ ↦ elim (below-cases x 2097152) [
        | inl h ↦ (3, ground arith, omega arith, inr (omega arith))
        | inr h₃ ↦ elim (below-cases x 268435456) [
          | inl h ↦ (4, ground arith, omega arith, inr (omega arith))
          | inr h₄ ↦ (5, ground arith, omega arith, inr (omega arith))
        ]
      ]
    ]
  ]
]
