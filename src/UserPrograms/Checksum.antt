-- ===== src/UserPrograms/Checksum.antt =====
-- `checksum` of egos-2000/apps/user/udp_demo.c. A `char` has no sign, as on the RISC-V machines that
-- the program is for.
use operating_systems_compon.Base.{
  ℕ, zero, suc, ◌∙◌, ◌+◌, ◌-◌, ◌*◌, ◌/◌, ◌%◌, ◌^◌, ◌<◌, ◌≡◌, ◌≢◌, refl, inl, inr, ℕ-cases, ne→==,
  Bool, true, false, Option, none, some, ◌==◌, if◌then◌else◌, add32, count_from, arith,
}

-- `r += (ptr[2 * i] << 8) | ptr[2 * i + 1]`; bytes are below 256, so that the or is a sum.
pub add_pair : (ptr : ℕ → ℕ) (i r : ℕ) → ℕ
add_pair ptr i r = add32 r (ptr (2 * i) * 256 + ptr (2 * i + 1))

pub add_pairs : (r : ℕ) (ptr : ℕ → ℕ) (length : ℕ) → ℕ
add_pairs r ptr length = count_from (length / 2) 0 (add_pair ptr) r

-- `while (r >> 16)`; none where the rounds do not suffice.
pub fold_overflows : (rounds r : ℕ) → Option ℕ
fold_overflows zero r = if r / 65536 == 0 then some r else none
fold_overflows (suc rounds) r =
    let rest = fold_overflows rounds (r % 65536 + r / 65536) in
    if r / 65536 == 0 then some r else rest

pub complement : ℕ → ℕ
complement r = let c = 65535 - r in if c == 0 then 65535 else c

pub finish_sum : (complete : Bool) → Option ℕ → Option ℕ
finish_sum complete none = none
finish_sum complete (some r) = some (if complete then complement r else r)

pub checksum : (r : ℕ) (ptr : ℕ → ℕ) (length : ℕ) (complete : Bool) → Option ℕ
checksum r ptr length complete = finish_sum complete (fold_overflows 2 (add_pairs r ptr length))

-- One round of the loop keeps the remainder by 65535.
round_mod : (r : ℕ) → (r % 65536 + r / 65536) % 65535 ≡ r % 65535
round_mod r = omega arith

fold_done : (rounds r : ℕ) → r / 65536 ≡ 0 → fold_overflows rounds r ≡ some r
unfolding fold_overflows
fold_done zero r e = rw e refl
fold_done (suc rounds) r e = rw e refl

fold_round :
    (rounds r : ℕ)
    → r / 65536 ≢ 0
    → fold_overflows (suc rounds) r ≡ fold_overflows rounds (r % 65536 + r / 65536)
unfolding fold_overflows
fold_round rounds r ne = let more : (r / 65536 == 0) ≡ false = ne→== _ _ ne in rw more refl

-- The result of the loop: 16 bits, with the remainder of the sum.
record IsFolded (r f : ℕ) : Type 0 where
  bound : f < 65536
  same : f % 65535 ≡ r % 65535

fold_overflows-IsFolded :
    (r : ℕ) → r < 2 ^ 32 → (f : ℕ) × (fold_overflows 2 r ≡ some f) × IsFolded r f
fold_overflows-IsFolded r small = elim (ℕ-cases (r / 65536) 0) [
  | inl e ↦ (r, fold_done 2 r e, record { bound = omega (arith, e); same = refl })
  | inr ne ↦
      (let r1 = r % 65536 + r / 65536 in
        elim (ℕ-cases (r1 / 65536) 0) [
          | inl e ↦ (
            r1,
            fold_round 1 r ne ∙ fold_done 1 r1 e,
            record { bound = omega (arith, e); same = round_mod r },
          )
          | inr ne1 ↦
              (let r2 = r1 % 65536 + r1 / 65536 in
                (
                  r2,
                  fold_round 1 r ne
                      ∙ (fold_round 0 r1 ne1 ∙ fold_done 0 r2 (omega (arith, small, ne1))),
                  record { bound = omega (arith, small, ne1); same = round_mod r1 ∙ round_mod r },
                ))
        ])
]

-- The sum of the words without overflow.
unfoldable pub sum_from : (rounds i : ℕ) (ptr : ℕ → ℕ) → ℕ
sum_from zero i ptr = 0
sum_from (suc rounds) i ptr = ptr (2 * i) * 256 + ptr (2 * i + 1) + sum_from rounds (i + 1) ptr

add_pair-from :
    (ptr : ℕ → ℕ) (rounds i r : ℕ)
    → r + sum_from rounds i ptr < 2 ^ 32
    → count_from rounds i (add_pair ptr) r ≡ r + sum_from rounds i ptr
unfolding add_pair sum_from count_from
add_pair-from ptr zero i r small = omega arith
add_pair-from ptr (suc rounds) i r small =
    let word = ptr (2 * i) * 256 + ptr (2 * i + 1) in
    let whole : (r + word) % 2 ^ 32 ≡ r + word = omega (arith, small) in
    rw whole (add_pair-from ptr rounds (i + 1) (r + word) (omega (arith, small)) ∙ omega arith)

complement-sum :
    (f : ℕ)
    → f < 65536
    → (0 < complement f) × (complement f < 65536) × ((f + complement f) % 65535 ≡ 0)
unfolding complement
complement-sum f lt = elim (ℕ-cases f 65535) [
  | inl e ↦ rw e (omega arith, omega arith, refl)
  | inr ne ↦
      (let other : (65535 - f == 0) ≡ false = ne→== _ _ (omega (arith, ne, lt)) in
        rw other (omega (arith, ne, lt), omega (arith, lt), omega (arith, lt)))
]

-- When the words sum up to less than 2^32, two rounds of the loop suffice, and the complete checksum
-- is a number from 1 to 65535 with which the sum is a multiple of 65535.
pub checksum-sum :
    (r : ℕ) (ptr : ℕ → ℕ) (length : ℕ)
    → r + sum_from (length / 2) 0 ptr < 2 ^ 32
    → (c : ℕ) × (checksum r ptr length true ≡ some c)
      × (0 < c)
      × (c < 65536)
      × ((r + sum_from (length / 2) 0 ptr + c) % 65535 ≡ 0)
unfolding checksum add_pairs finish_sum
checksum-sum r ptr length small =
    let total = r + sum_from (length / 2) 0 ptr in
    let (f, runs, folded) = fold_overflows-IsFolded total small in
    let (positive, bound, sums) = complement-sum f folded.bound in
    (
      complement f,
      rw (add_pair-from ptr (length / 2) 0 r small, runs) refl,
      positive,
      bound,
      omega (arith, sums, folded.same),
    )
