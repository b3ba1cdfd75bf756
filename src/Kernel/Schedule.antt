-- ===== src/Kernel/Schedule.antt =====
-- The choice of the next process in `proc_yield` of egos-2000/grass/kernel.c: levels, and the order
-- of the round robin.
pub mod Yield
use operating_systems_compon.Base.{
  ℕ, zero, suc, ◌+◌, ◌-◌, ◌%◌, ◌^◌, ◌≤◌, ◌<◌, ◌≡◌, ◌≢◌, refl, sym, ap, ◌∙◌, ◌⊎◌, inl, inr, Bool,
  true, false, ◌&&◌, ◌||◌, not, Option, none, some, arith, ltb, leb, ◌==◌, if◌then◌else◌, ◌>>=◌,
  Bool-cases, ℕ-cases, slt, ltb→lt,
}
use native.Mathlib.Nat.{add-zero}
use operating_systems_compon.Process.{
  Process, ProcStatus, unused, loading, ready, running, runnable, pending_syscall, rank, ◌=s=◌,
  ProcSet, max_nprocess, mlfq_nlevels,
}
use operating_systems_compon.Kernel.{Kernel, Choice, can_run, consider, retry, slot_after, choose}

-- No system call is pending in slots 0 to 15, and every level fits the queue.
pub record IsSettled (t : ProcSet) : Type 0 where
  pub no_call : (j : ℕ) → j < max_nprocess → (t j).status ≢ pending_syscall
  pub level : (j : ℕ) → j < max_nprocess → (t j).mlfq_level < mlfq_nlevels

-- After the slots at distance 1 to `i - 1` from `start`: none of them could run, or the slot at
-- distance `m` is the first with the lowest level among those that can.
pub data Best (t : ProcSet) (start i : ℕ) : (lowest next : ℕ) → Type 0 where
  nobody :
      {lowest next : ℕ}
      → lowest ≡ 5
      → next ≡ max_nprocess
      → ((m : ℕ) → 0 < m → m < i → can_run (t (slot_after start m)).status ≡ false)
      → Best t start i lowest next
  somebody :
      {lowest next : ℕ} (m₀ : ℕ)
      → 0 < m₀
      → m₀ < i
      → next ≡ slot_after start m₀
      → lowest ≡ (t next).mlfq_level
      → can_run (t next).status ≡ true
      → ((m : ℕ)
          → 0 < m
          → m < i
          → can_run (t (slot_after start m)).status ≡ true
          → (t next).mlfq_level ≤ (t (slot_after start m)).mlfq_level)
      → ((m : ℕ)
          → 0 < m
          → m < m₀
          → can_run (t (slot_after start m)).status ≡ true
          → (t next).mlfq_level < (t (slot_after start m)).mlfq_level)
      → Best t start i lowest next

module _ (k : Kernel) (v : IsSettled k.procs) where
  skipped :
      (start i lowest next : ℕ)
      → Best k.procs start i lowest next
      → can_run (k.procs (slot_after start i)).status ≡ false
      → Best k.procs start (i + 1) lowest next
  skipped start i lowest next (nobody a b c) no_run =
      nobody a b
        (λ m lo hi. elim (ℕ-cases m i) [ inl e ↦ rw e no_run | inr ne ↦ c m lo (omega arith) ])
  skipped start i lowest next (somebody m₀ a b c d e f g) no_run =
      somebody m₀ a (omega arith) c d e
        (λ m lo hi r. elim (ℕ-cases m i) [
          | inl em ↦ cc (ap (λ (x : ℕ). can_run (k.procs (slot_after start x)).status) em)
          | inr ne ↦ f m lo (omega arith) r
        ])
        g

  kept :
      (start i lowest next : ℕ)
      → Best k.procs start i lowest next
      → lowest ≤ (k.procs (slot_after start i)).mlfq_level
      → lowest < 5
      → Best k.procs start (i + 1) lowest next
  kept start i lowest next (nobody a b c) ge lt = absurd (omega arith)
  kept start i lowest next (somebody m₀ a b c d e f g) ge lt =
      somebody m₀ a (omega arith) c d e
        (λ m lo hi r. elim (ℕ-cases m i) [
          | inl em ↦ rw em (omega arith)
          | inr ne ↦ f m lo (omega arith) r
        ])
        g

  improved :
      (start i lowest next : ℕ)
      → 0 < i
      → Best k.procs start i lowest next
      → (k.procs (slot_after start i)).mlfq_level < lowest
      → can_run (k.procs (slot_after start i)).status ≡ true
      → Best k.procs start (i + 1) (k.procs (slot_after start i)).mlfq_level (slot_after start i)
  improved start i lowest next pos (nobody a b c) lt run =
      somebody i pos (omega arith) refl refl run
        (λ m lo hi r. elim (ℕ-cases m i) [
          | inl e ↦ rw e (omega arith)
          | inr ne ↦ clash (c m lo (omega arith)) r
        ])
        (λ m lo hi r. clash (c m lo hi) r)
    where
      clash : {P : Type 0} {b : Bool} → b ≡ false → b ≡ true → P
      clash p q = cc
  improved start i lowest next pos (somebody m₀ a b c d e f g) lt run =
      somebody i pos (omega arith) refl refl run
        (λ m lo hi r. elim (ℕ-cases m i) [
          | inl em ↦ rw em (omega arith)
          | inr ne ↦ omega (arith, f m lo (omega arith) r)
        ])
        (λ m lo hi r. omega (arith, f m lo hi r))

  -- One round, where no call is pending.
  consider-Best :
      (start i lowest next : ℕ)
      → 0 < i
      → lowest ≤ 5
      → Best k.procs start i lowest next
      → let c =
          consider
            (slot_after start i)
            (record { kernel = k; lowest_level = lowest; next_idx = next }) in
        (c.kernel ≡ k) × (c.lowest_level ≤ 5) × Best k.procs start (i + 1) c.lowest_level c.next_idx
  unfolding consider
  consider-Best start i lowest next pos le b =
      let j = slot_after start i in
      let small = v.level j (omega arith) in
      elim (Bool-cases (can_run (k.procs j).status)) [
        | inl run ↦ elim (Bool-cases (slt (k.procs j).mlfq_level lowest)) [
          | inl less ↦
              rw (run, less)
                (refl, omega arith, improved start i lowest next pos b (ground arith) run)
          | inr more ↦
              rw (run, more) (refl, le, kept start i lowest next b (ground arith) (ground arith))
        ]
        | inr no_run ↦ rw no_run (refl, le, skipped start i lowest next b no_run)
      ]

  retry_settled : (start i : ℕ) → retry (slot_after start i) k ≡ some k
  unfolding retry
  retry_settled start i = rw (
      not_pending (k.procs (slot_after start i)).status
        (v.no_call (slot_after start i) (omega arith)))
    where
      not_pending : (s : ProcStatus) → s ≢ pending_syscall → (s =s= pending_syscall) ≡ false
      not_pending pending_syscall ne = absurd (ne refl)
      not_pending _ ne = refl

  pub choose-Best :
      (start n i lowest next : ℕ)
      → 0 < i
      → lowest ≤ 5
      → Best k.procs start i lowest next
      → (c : Choice) × (choose start n i
            (record { kernel = k; lowest_level = lowest; next_idx = next })
          ≡ some c)
        × (c.kernel ≡ k)
        × Best k.procs start (i + n) c.lowest_level c.next_idx
  unfolding choose
  choose-Best start zero i lowest next pos le b =
      (record { kernel = k; lowest_level = lowest; next_idx = next }, refl, refl, rw add-zero b)
  choose-Best start (suc n) i lowest next pos le b =
      let c' =
        consider (slot_after start i)
          (record { kernel = k; lowest_level = lowest; next_idx = next }) in
      let (same, le', b') = consider-Best start i lowest next pos le b in
      let (c, e, kc, bc) =
        choose-Best start n (i + 1) c'.lowest_level c'.next_idx (omega arith) le' b' in
      let e' : c' ≡ record { kernel = k; lowest_level = c'.lowest_level; next_idx = c'.next_idx } =
        ap
          (λ (x : Kernel). record {
            kernel = x;
            lowest_level = c'.lowest_level;
            next_idx = c'.next_idx;
          })
          same in
      (
        c,
        rw (retry_settled start i) (rw e' e),
        kc,
        let f : i + suc n ≡ i + 1 + n = omega arith in rw f bc,
      )
