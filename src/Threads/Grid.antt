-- ===== src/Threads/Grid.antt =====
-- `parallel_for` on rows and columns, of group-16-5/simple-multithreader.h.
use operating_systems_compon.Base.{
  ℕ, ◌+◌, ◌^◌, ◌<◌, ◌≤◌, ◌≡◌, refl, sym, ap, ◌∙◌, List, [], ◌∷◌, ◌++◌, false, sle, arith,
}
use operating_systems_compon.Threads.{
  ThreadData, indices, rounds, run_task1, run_task2, pair_with, concat_map, split, parallel_for2,
}
use operating_systems_compon.Threads.Partition.{
  rank, count_up, ltb→leb, indices-count_up, concat_map-map, split-count_up,
}

append_assoc : {A : Type 0} (xs ys zs : List A) → (xs ++ ys) ++ zs ≡ xs ++ (ys ++ zs)
append_assoc [] ys zs = refl
append_assoc (x ∷ xs) ys zs = ap (◌∷◌ x) (append_assoc xs ys zs)

module _ {B C : Type 0} where
  concat_map-append :
      (g : B → List C) (xs ys : List B)
      → concat_map g (xs ++ ys) ≡ concat_map g xs ++ concat_map g ys
  unfolding concat_map
  concat_map-append g [] ys = refl
  concat_map-append g (x ∷ xs) ys =
      ap (◌++◌ (g x)) (concat_map-append g xs ys)
      ∙ sym (append_assoc (g x) (concat_map g xs) (concat_map g ys))

  concat_map-concat_map :
      {A : Type 0} (g : B → List C) (f : A → List B) (xs : List A)
      → concat_map (λ x. concat_map g (f x)) xs ≡ concat_map g (concat_map f xs)
  unfolding concat_map
  concat_map-concat_map g f [] = refl
  concat_map-concat_map g f (x ∷ xs) =
      ap (◌++◌ (concat_map g (f x))) (concat_map-concat_map g f xs)
      ∙ sym (concat_map-append g (f x) (concat_map f xs))

run_task2-all :
    (low2 high2 k2 : ℕ) (tds : List ThreadData)
    → low2 < 2 ^ 32
    → high2 < 2 ^ 32
    → rank high2 ≡ rank low2 + k2
    → concat_map (run_task2 low2 high2) tds
      ≡ concat_map (pair_with (count_up k2 low2)) (concat_map run_task1 tds)
unfolding run_task2
run_task2-all low2 high2 k2 tds low_fits high_fits e =
    let cols : indices (rounds low2 high2) low2 high2 ≡ count_up k2 low2 =
      indices-count_up _ k2 low2 high2 (omega arith) low_fits e in
    rw (← cols)
      (concat_map-concat_map (pair_with (indices (rounds low2 high2) low2 high2)) run_task1 tds)

-- For rows and columns that are not empty, with at most 2^31 - 1 rows, and any number of threads, the
-- calls of the threads in the order they are created, one after the other, are the pairs of a row and
-- a column, each once, row by row.
pub parallel_for2-count_up :
    (low1 high1 k1 low2 high2 k2 num_threads : ℕ)
    → low1 < 2 ^ 32
    → high1 < 2 ^ 32
    → low2 < 2 ^ 32
    → high2 < 2 ^ 32
    → num_threads < 2 ^ 32
    → rank high1 ≡ rank low1 + k1
    → rank high2 ≡ rank low2 + k2
    → 1 ≤ k1
    → k1 < 2 ^ 31
    → 1 ≤ k2
    → concat_map (λ ys. ys) (parallel_for2 low1 high1 low2 high2 num_threads)
      ≡ concat_map (pair_with (count_up k2 low2)) (count_up k1 low1)
unfolding parallel_for2
parallel_for2-count_up low1 high1 k1 low2 high2 k2 num_threads l1 h1 l2 h2 nf e1 e2 pos1 small1
      pos2 =
    let rows : sle high1 low1 ≡ false = ltb→leb (rank low1) (rank high1) (omega arith) in
    let cols : sle high2 low2 ≡ false = ltb→leb (rank low2) (rank high2) (omega arith) in
    rw (rows, cols)
      (concat_map-map (run_task2 low2 high2) (split low1 high1 num_threads)
        ∙ run_task2-all low2 high2 k2 (split low1 high1 num_threads) l2 h2 e2
        ∙ ap (concat_map (pair_with (count_up k2 low2)))
            (split-count_up low1 high1 k1 num_threads l1 h1 nf e1 pos1 small1))
