-- ===== src/Threads/Trace.antt =====
-- The threads of group-16-5/simple-multithreader.h side by side: `pthread_create` starts each, the
-- calls of one thread come in order, those of different threads in any, and `pthread_join` waits for
-- all of them.
use operating_systems_compon.Base.{
  ℕ, zero, suc, ◌+◌, ◌^◌, ◌<◌, ◌≤◌, ◌≡◌, refl, sym, ap, ◌∙◌, inl, inr, Bool, List, [], ◌∷◌, ◌++◌,
  leb, ltb, ◌==◌, ℕ-cases, eq→==, ne→==, ◌&&◌, if◌then◌else◌, add32, slt, sle, arith,
}
use operating_systems_compon.Threads.{concat_map, parallel_for1}
use operating_systems_compon.Threads.Partition.{rank, count_up, parallel_for1-count_up}

module _ {A : Type 0} where
  -- One of the threads makes its next call, `x`.
  pub data Calls : List (List A) → A → List (List A) → Type 0 where
    calls_here : {x : A} {xs : List A} {tss : List (List A)} → Calls ((x ∷ xs) ∷ tss) x (xs ∷ tss)
    calls_there :
        {x : A} {xs : List A} {tss tss' : List (List A)}
        → Calls tss x tss'
        → Calls (xs ∷ tss) x (xs ∷ tss')

  -- A trace of all threads until none has a call left.
  pub data Trace : List (List A) → List A → Type 0 where
    trace_end : {tss : List (List A)} → concat_map (λ xs. xs) tss ≡ [] → Trace tss []
    trace_call :
        {x : A} {tss tss' : List (List A)} {tr : List A}
        → Calls tss x tss'
        → Trace tss' tr
        → Trace tss (x ∷ tr)

  -- How many elements pass a test.
  unfoldable pub occurrences : (A → Bool) → List A → ℕ
  occurrences test [] = 0
  occurrences test (x ∷ xs) = (if test x then 1 else 0) + occurrences test xs

  occurrences-append :
      (test : A → Bool) (xs ys : List A)
      → occurrences test (xs ++ ys) ≡ occurrences test xs + occurrences test ys
  unfolding occurrences
  occurrences-append test [] ys = omega arith
  occurrences-append test (x ∷ xs) ys = omega (arith, occurrences-append test xs ys)

  -- The calls that all threads have left.
  left_over : (A → Bool) → List (List A) → ℕ
  left_over test tss = occurrences test (concat_map (λ xs. xs) tss)

  left_over-concat :
      (test : A → Bool) (tss : List (List A)) (ys : List A)
      → concat_map (λ xs. xs) tss ≡ ys
      → left_over test tss ≡ occurrences test ys
  unfolding left_over
  left_over-concat test tss ys e = ap (occurrences test) e

  left_over-cons :
      (test : A → Bool) (xs : List A) (tss : List (List A))
      → left_over test (xs ∷ tss) ≡ occurrences test xs + left_over test tss
  unfolding left_over concat_map
  left_over-cons test xs tss = occurrences-append test xs (concat_map (λ ys. ys) tss)

  occurrences-cons :
      (test : A → Bool) (x : A) (xs : List A)
      → occurrences test (x ∷ xs) ≡ (if test x then 1 else 0) + occurrences test xs
  unfolding occurrences
  occurrences-cons test x xs = refl

  -- A call takes itself from the calls left.
  left_over-Calls :
      (test : A → Bool) (tss : List (List A)) (x : A) (tss' : List (List A))
      → Calls tss x tss'
      → left_over test tss ≡ (if test x then 1 else 0) + left_over test tss'
  left_over-Calls test _ _ _ (calls_here {x} {xs} {tss}) = omega (
    arith,
    left_over-cons test (x ∷ xs) tss,
    left_over-cons test xs tss,
    occurrences-cons test x xs,
  )
  left_over-Calls test _ _ _ (calls_there {x} {xs} {tss} {tss'} step) = omega (
    arith,
    left_over-cons test xs tss,
    left_over-cons test xs tss',
    left_over-Calls test tss x tss' step,
  )

  -- Every trace makes each call as often as the threads together.
  occurrences-Trace :
      (test : A → Bool) (tss : List (List A)) (tr : List A)
      → Trace tss tr
      → occurrences test tr ≡ left_over test tss
  unfolding left_over
  occurrences-Trace test tss _ (trace_end e) = ap (occurrences test) (sym e)
  occurrences-Trace test _ _ (trace_call {x} {tss} {tss'} {tr} step rest) = omega (
    arith,
    occurrences-cons test x tr,
    left_over-Calls test tss x tss' step,
    occurrences-Trace test tss' tr rest,
  )

rank_inj : (a b : ℕ) → a < 2 ^ 32 → b < 2 ^ 32 → rank a ≡ rank b → a ≡ b
rank_inj a b a_fits b_fits e = omega arith

occurrences-step :
    (k lo x : ℕ)
    → occurrences (λ y. x == y) (count_up (suc k) lo)
      ≡ (if x == lo then 1 else 0) + occurrences (λ y. x == y) (count_up k (add32 lo 1))
unfolding occurrences count_up
occurrences-step k lo x = refl

occurrences_zero : (lo x : ℕ) → occurrences (λ y. x == y) (count_up 0 lo) ≡ 0
unfolding occurrences count_up
occurrences_zero lo x = refl

-- Equality of two `int`s is that of their places.
==-rank : (a b : ℕ) → a < 2 ^ 32 → b < 2 ^ 32 → (a == b) ≡ (rank a == rank b)
==-rank a b a_fits b_fits = elim (ℕ-cases a b) [
  | inl e ↦ rw (eq→== a b e, eq→== (rank a) (rank b) (ap rank e)) refl
  | inr ne ↦
      rw (ne→== a b ne, ne→== (rank a) (rank b) (λ e. ne (rank_inj a b a_fits b_fits e))) refl
]

within : (lo k x : ℕ) → ℕ
within lo k x = if leb lo x && ltb x (lo + k) then 1 else 0

within_zero : (lo x : ℕ) → within lo 0 x ≡ 0
unfolding within
within_zero lo x = ground arith

within-rank :
    (low high k x : ℕ)
    → rank high ≡ rank low + k
    → within (rank low) k (rank x) ≡ (if sle low x && slt x high then 1 else 0)
unfolding within
within-rank low high k x e = rw (← e) refl

within-suc : (lo k x : ℕ) → (if x == lo then 1 else 0) + within (lo + 1) k x ≡ within lo (suc k) x
unfolding within
within-suc lo k x = ground arith

-- Where the range fits in 32 bits, an `int` stands in it once or not at all.
occurrences-count_up :
    (k lo x : ℕ)
    → lo < 2 ^ 32
    → x < 2 ^ 32
    → rank lo + k < 2 ^ 32
    → occurrences (λ y. x == y) (count_up k lo) ≡ within (rank lo) k (rank x)
occurrences-count_up zero lo x lo_fits x_fits room =
    occurrences_zero lo x ∙ sym (within_zero (rank lo) (rank x))
occurrences-count_up (suc k) lo x lo_fits x_fits room =
    let next : rank (add32 lo 1) ≡ rank lo + 1 = omega arith in
    let ih : occurrences (λ y. x == y) (count_up k (add32 lo 1))
        ≡ within (rank (add32 lo 1)) k (rank x) =
      occurrences-count_up k (add32 lo 1) x (omega arith) x_fits (omega arith) in
    occurrences-step k lo x
    ∙ rw (==-rank x lo x_fits lo_fits, ih, next) (within-suc (rank lo) k (rank x))

-- For an `int` range of `k` indices that is not empty and whose length fits an `int`, and any number
-- of threads, every trace of the threads until all are joined calls the lambda once with each `int`
-- from `low` on and below `high`, and with no other.
pub parallel_for1-once :
    (low high k num_threads : ℕ)
    → low < 2 ^ 32
    → high < 2 ^ 32
    → num_threads < 2 ^ 32
    → rank high ≡ rank low + k
    → 1 ≤ k
    → k < 2 ^ 31
    → (tr : List ℕ) → Trace (parallel_for1 low high num_threads) tr
    → (x : ℕ) → x < 2 ^ 32
    → occurrences (λ y. x == y) tr ≡ (if sle low x && slt x high then 1 else 0)
parallel_for1-once low high k num_threads low_fits high_fits threads_fit e pos small tr run x
      x_fits =
    occurrences-Trace (λ y. x == y) _ tr run
    ∙ left_over-concat (λ y. x == y) _ _
        (parallel_for1-count_up low high k num_threads low_fits high_fits threads_fit e pos small)
    ∙ occurrences-count_up k low x low_fits x_fits (omega arith)
    ∙ within-rank low high k x e
