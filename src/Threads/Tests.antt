-- ===== src/Threads/Tests.antt =====
-- Ranges of `int`s that start below 0, and the theorems of group-16-5/simple-multithreader.h applied
-- to them.
use operating_systems_compon.Base.{
  ◌≡◌, refl, [], ◌∷◌, ◌==◌, ◌&&◌, sle, slt, if◌then◌else◌, minus_one, arith,
}
use operating_systems_compon.Threads.{
  indices, run_task1, len_of, spawn, threads_for, split, concat_map, pair_with, parallel_for1,
  parallel_for2,
}
use operating_systems_compon.Threads.Partition.{count_up, parallel_for1-count_up}
use operating_systems_compon.Threads.Grid.{parallel_for2-count_up}
use operating_systems_compon.Threads.Trace.{
  Trace, trace_end, trace_call, calls_here, calls_there, occurrences, parallel_for1-once,
}

-- Two threads share the range from -1 to 1: the first has two indices.
two_threads : parallel_for1 minus_one 2 2 ≡ (minus_one ∷ 0 ∷ []) ∷ (1 ∷ []) ∷ []
unfolding parallel_for1 split spawn threads_for len_of run_task1 indices
two_threads = refl

parallel_for1-count_up_example :
    concat_map (λ ys. ys) (parallel_for1 minus_one 2 2) ≡ count_up 3 minus_one
parallel_for1-count_up_example =
    parallel_for1-count_up minus_one 2 3 2 (omega arith) (omega arith) (omega arith) (omega arith)
      (omega arith) (omega arith)

parallel_for2-count_up_example :
    concat_map (λ ys. ys) (parallel_for2 minus_one 2 5 9 2)
    ≡ concat_map (pair_with (count_up 4 5)) (count_up 3 minus_one)
parallel_for2-count_up_example =
    parallel_for2-count_up minus_one 2 3 5 9 4 2 (omega arith) (omega arith) (omega arith)
      (omega arith) (omega arith) (omega arith) (omega arith) (omega arith) (omega arith)
      (omega arith)

-- The second thread comes between the two calls of the first.
mixed : Trace (parallel_for1 minus_one 2 2) (minus_one ∷ 1 ∷ 0 ∷ [])
unfolding parallel_for1 split spawn threads_for len_of run_task1 indices concat_map
mixed =
    trace_call calls_here
      (trace_call (calls_there calls_here) (trace_call calls_here (trace_end refl)))

parallel_for1-once_example :
    occurrences (λ y. 1 == y) (minus_one ∷ 1 ∷ 0 ∷ [])
    ≡ (if sle minus_one 1 && slt 1 2 then 1 else 0)
parallel_for1-once_example =
    parallel_for1-once minus_one 2 3 2 (omega arith) (omega arith) (omega arith) (omega arith)
      (omega arith) (omega arith) (minus_one ∷ 1 ∷ 0 ∷ []) mixed 1 (omega arith)
