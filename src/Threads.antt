-- ===== src/Threads.antt =====
-- The two `parallel_for` of group-16-5/simple-multithreader.h: the ranges of the threads, and the
-- calls of the lambda that each thread makes.
-- An `int` is its 32-bit pattern; the calls of a thread are the list of the arguments of the lambda.
pub mod Partition
pub mod Grid
pub mod Trace
mod Tests
use operating_systems_compon.Base.{
  ℕ, zero, suc, ◌+◌, ◌/◌, ◌%◌, List, [], ◌∷◌, ◌++◌, map, ltb, if◌then◌else◌, add32, sub32, slt, sle,
}

-- `struct ThreadData1`, and the rows of `struct ThreadData2`, whose columns are those of the call.
pub record ThreadData : Type 0 where
  pub low : ℕ
  pub high : ℕ

-- `for (int i = start; i < end; i++)`, with fuel.
pub indices : (fuel start end : ℕ) → List ℕ
indices zero start end = []
indices (suc fuel) start end =
    let rest = indices fuel (add32 start 1) end in if slt start end then start ∷ rest else []

-- A round more than the loop has where it has any: the test ends it, not the fuel.
abbrev pub rounds : ℕ → ℕ → ℕ
rounds start end = suc (sub32 end start)

-- `runTask1`.
pub run_task1 : ThreadData → List ℕ
run_task1 td = indices (rounds td.low td.high) td.low td.high

pub pair_with : List ℕ → ℕ → List (ℕ × ℕ)
pair_with js i = map (λ j. (i, j)) js

unfoldable pub concat_map {ℓ κ} : {A : Type ℓ} {B : Type κ} → (A → List B) → List A → List B
concat_map f [] = []
concat_map f (x ∷ xs) = f x ++ concat_map f xs

-- `runTask2`.
pub run_task2 : (low2 high2 : ℕ) → ThreadData → List (ℕ × ℕ)
run_task2 low2 high2 td =
    concat_map (pair_with (indices (rounds low2 high2) low2 high2)) (run_task1 td)

-- The length of the range of thread `count`.
pub len_of : (base extra count : ℕ) → ℕ
len_of base extra count = if ltb count extra then add32 base 1 else base

-- `while (count < numThreads)`: the data of the threads, in the order they are created.
pub spawn : (left count current base extra : ℕ) → List ThreadData
spawn zero count current base extra = []
spawn (suc left) count current base extra =
    let x = add32 current (len_of base extra count) in
    record { low = current; high = x } ∷ spawn left (suc count) x base extra

-- `if (numThreads <= 0) numThreads = 1`.
pub threads_for : ℕ → ℕ
threads_for num_threads = if sle num_threads 0 then 1 else num_threads

-- The data of the threads of a range, where it is not empty.
pub split : (low high num_threads : ℕ) → List ThreadData
split low high num_threads =
    let n = threads_for num_threads in spawn n 0 low (sub32 high low / n) (sub32 high low % n)

-- `parallel_for` on one range: the calls of each thread.
pub parallel_for1 : (low high num_threads : ℕ) → List (List ℕ)
parallel_for1 low high num_threads =
    if sle high low then [] else map run_task1 (split low high num_threads)

-- `parallel_for` on rows and columns.
pub parallel_for2 : (low1 high1 low2 high2 num_threads : ℕ) → List (List (ℕ × ℕ))
parallel_for2 low1 high1 low2 high2 num_threads =
    if sle high1 low1
    then []
    else (if sle high2 low2 then [] else map (run_task2 low2 high2) (split low1 high1 num_threads))
