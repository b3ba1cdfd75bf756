-- ===== src/Threads/Partition.antt =====
-- The ranges of the threads in group-16-5/simple-multithreader.h, and the calls that they make
-- together.
use operating_systems_compon.Base.{
  ℕ, zero, suc, ◌+◌, ◌-◌, ◌*◌, ◌/◌, ◌%◌, ◌^◌, ◌<◌, ◌≤◌, ◌≡◌, refl, ap, ◌∙◌, List, [], ◌∷◌, ◌++◌,
  map, true, false, leb, le→ltb, lt→ltb, if◌then◌else◌, add32, sub32, slt, sle, arith,
}
use native.Mathlib.Nat.{mod-lt, div-le_self, div-add-mod'}
use operating_systems_compon.Threads.{
  indices, run_task1, concat_map, len_of, spawn, threads_for, split, parallel_for1,
}

-- The `k` indices from `lo` on.
unfoldable pub count_up : (k lo : ℕ) → List ℕ
count_up zero lo = []
count_up (suc k) lo = lo ∷ count_up k (add32 lo 1)

count_up_zero : (lo : ℕ) → [] ≡ count_up 0 lo
unfolding count_up
count_up_zero lo = refl

-- The place of an `int` in the signed order.
abbrev pub rank : ℕ → ℕ
rank a = (a + 2 ^ 31) % 2 ^ 32

rank-add32 : (a k : ℕ) → a < 2 ^ 32 → rank a + k < 2 ^ 32 → rank (add32 a k) ≡ rank a + k
rank-add32 a k fits room = omega arith

-- The loop makes as many rounds as its bound is ahead, with any fuel that is at least that.
pub indices-count_up :
    (fuel k start stop : ℕ)
    → k ≤ fuel
    → start < 2 ^ 32
    → rank stop ≡ rank start + k
    → indices fuel start stop ≡ count_up k start
unfolding indices count_up
indices-count_up zero zero start stop le fits e = refl
indices-count_up zero (suc k) start stop le fits e = absurd (omega arith)
indices-count_up (suc fuel) zero start stop le fits e =
    let ended : slt start stop ≡ false = le→ltb (rank start) (rank stop) (omega arith) in
    rw ended refl
indices-count_up (suc fuel) (suc k) start stop le fits e =
    let goes_on : slt start stop ≡ true = lt→ltb (rank start) (rank stop) (omega arith) in
    rw goes_on (
      ap (◌∷◌ start)
        (indices-count_up fuel k (add32 start 1) stop (omega arith) (omega arith) (omega arith)))

count_up-append :
    (a b lo : ℕ) → lo < 2 ^ 32 → count_up a lo ++ count_up b (add32 lo a) ≡ count_up (a + b) lo
unfolding count_up
count_up-append zero b lo fits =
    let e : add32 lo 0 ≡ lo = omega arith in let e' : 0 + b ≡ b = omega arith in rw (e, e') refl
count_up-append (suc a) b lo fits =
    let e : add32 lo (suc a) ≡ add32 (add32 lo 1) a = omega arith in
    let e' : suc a + b ≡ suc (a + b) = omega arith in
    rw (e, e') (ap (◌∷◌ lo) (count_up-append a b (add32 lo 1) (omega arith)))

-- The lengths of the ranges of `left` threads from `count` on, together.
total_len : (left count base extra : ℕ) → ℕ
total_len zero count base extra = 0
total_len (suc left) count base extra =
    len_of base extra count + total_len left (suc count) base extra

run_task1-count_up :
    (start len : ℕ)
    → start < 2 ^ 32
    → rank start + len < 2 ^ 32
    → run_task1 (record { low = start; high = add32 start len }) ≡ count_up len start
unfolding run_task1
run_task1-count_up start len fits room =
    indices-count_up _ len start (add32 start len) (omega arith) fits (omega arith)

spawn-count_up :
    (left count current base extra : ℕ)
    → current < 2 ^ 32
    → rank current + total_len left count base extra < 2 ^ 32
    → concat_map run_task1 (spawn left count current base extra)
      ≡ count_up (total_len left count base extra) current
unfolding spawn total_len concat_map
spawn-count_up zero count current base extra fits room = count_up_zero current
spawn-count_up (suc left) count current base extra fits room =
    let len = len_of base extra count in
    rw (run_task1-count_up current len fits (omega arith)) (
      ap (◌++◌ (count_up len current))
        (spawn-count_up left (suc count) (add32 current len) base extra (omega arith) (omega arith))
      ∙ count_up-append len (total_len left (suc count) base extra) current fits)

total_len-eq :
    (left count base extra : ℕ)
    → base < 2 ^ 31
    → total_len left count base extra
      ≡ base * left + (if leb (count + left) extra then left else extra - count)
unfolding total_len len_of
total_len-eq zero count base extra small = ground arith
total_len-eq (suc left) count base extra small =
    ground (arith, total_len-eq left (suc count) base extra small)

pub ltb→leb : (a b : ℕ) → a < b → leb b a ≡ false
ltb→leb a b lt = ground arith

pub concat_map-map :
    {A B : Type 0} (f : A → List B) (xs : List A)
    → concat_map (λ ys. ys) (map f xs) ≡ concat_map f xs
unfolding concat_map
concat_map-map f [] = refl
concat_map-map f (x ∷ xs) = ap (◌++◌ (f x)) (concat_map-map f xs)

-- The number of threads is positive as an `int`.
threads_for-bounds : (n : ℕ) → n < 2 ^ 32 → (1 ≤ threads_for n) × (threads_for n < 2 ^ 31)
unfolding threads_for
threads_for-bounds n fits = ground arith

-- The ranges of all threads have the length of the whole range together.
total_len-div : (k n : ℕ) → k < 2 ^ 31 → 1 ≤ n → total_len n 0 (k / n) (k % n) ≡ k
total_len-div k n small pos =
    let base_small : k / n < 2 ^ 31 = omega (arith, div-le_self k n) in
    let rem : k % n < n = mod-lt k pos in
    let whole : k / n * n + k % n ≡ k = div-add-mod' k n in
    ground (arith, total_len-eq n 0 (k / n) (k % n) base_small)

-- The ranges of the threads, one after the other.
pub split-count_up :
    (low high k num_threads : ℕ)
    → low < 2 ^ 32
    → high < 2 ^ 32
    → num_threads < 2 ^ 32
    → rank high ≡ rank low + k
    → 1 ≤ k
    → k < 2 ^ 31
    → concat_map run_task1 (split low high num_threads) ≡ count_up k low
unfolding split
split-count_up low high k num_threads low_fits high_fits threads_fit e pos small =
    let total : sub32 high low ≡ k = omega arith in
    let n = threads_for num_threads in
    let n_pos = (threads_for-bounds num_threads threads_fit).0 in
    let lens = total_len-div k n small n_pos in
    rw total (
      spawn-count_up n 0 low (k / n) (k % n) low_fits (omega (arith, lens))
      ∙ ap (λ l. count_up l low) lens)

-- For an `int` range of `k` indices that is not empty and whose length fits an `int`, and any number
-- of threads, the calls of the threads in the order they are created, one after the other, are the
-- indices of the range, each once and in order.
pub parallel_for1-count_up :
    (low high k num_threads : ℕ)
    → low < 2 ^ 32
    → high < 2 ^ 32
    → num_threads < 2 ^ 32
    → rank high ≡ rank low + k
    → 1 ≤ k
    → k < 2 ^ 31
    → concat_map (λ ys. ys) (parallel_for1 low high num_threads) ≡ count_up k low
unfolding parallel_for1
parallel_for1-count_up low high k num_threads low_fits high_fits threads_fit e pos small =
    let full : sle high low ≡ false = ltb→leb (rank low) (rank high) (omega arith) in
    rw full (
      concat_map-map run_task1 (split low high num_threads)
      ∙ split-count_up low high k num_threads low_fits high_fits threads_fit e pos small)
