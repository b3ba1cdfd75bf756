-- ===== src/Scheduler/Shutdown.antt =====
-- The loop of group-16-3/scheduler.c after the shell has taken the flag `scheduler_running` back.
use operating_systems_compon.Base.{
  ℕ, zero, suc, ◌+◌, ◌≤◌, ◌<◌, ◌≡◌, ◌≢◌, refl, sym, ap, ◌∙◌, ◌⊎◌, inl, inr, Bool, Bool-cases,
  ℕ-cases, true, false, ◌&&◌, some, List, [], ◌∷◌, take, drop, length, ltb, ◌==◌, ne→==, arith,
  if◌then◌else◌,
}
use operating_systems_compon.Scheduler.{
  Jobs, Seen, Schedule, ready_from, running_of, entries, round_of, unfinished, loop_body,
  scheduler_loop,
}
use operating_systems_compon.Scheduler.Rotation.{elem, chosen-take}
use operating_systems_compon.Scheduler.Ending.{round_of-ended, ready_from-drop}

-- Every job is as it was, or has ended.
abbrev Ends : Jobs → Jobs → Type 0
Ends jobs jobs' = (j : ℕ) → ((jobs' j).state ≡ (jobs j).state) ⊎ ((jobs' j).state ≡ 2)

Ends-trans : (a b c : Jobs) → Ends a b → Ends b c → Ends a c
Ends-trans a b c p q j = elim (q j) [
  | inr e ↦ inr e
  | inl e ↦ elim (p j) [ inl f ↦ inl (e ∙ f) | inr f ↦ inr (e ∙ f) ]
]

length-drop-lt : (k : ℕ) (xs : List ℕ) → 0 < k → 0 < length xs → length (drop k xs) < length xs
length-drop-lt zero xs hk hx = absurd (omega arith)
length-drop-lt (suc k) [] hk hx = absurd (omega arith)
length-drop-lt (suc k) (x ∷ xs) hk hx = elim (Bool-cases (ltb 0 k && ltb 0 (length xs))) [
  | inl b ↦ let ih = length-drop-lt k xs (ground arith) (ground arith) in omega (arith, ih)
  | inr b ↦ let le = length-drop-le k xs in omega (arith, le)
]
  where
    length-drop-le : (k : ℕ) (xs : List ℕ) → length (drop k xs) ≤ length xs
    length-drop-le zero xs = omega arith
    length-drop-le (suc k) [] = omega arith
    length-drop-le (suc k) (x ∷ xs) = let ih = length-drop-le k xs in omega (arith, ih)

unfinished-nil :
    (ended : ℕ → Bool) (is : List ℕ) (jobs : Jobs) → unfinished ended false is jobs ≡ []
unfolding unfinished
unfinished-nil ended [] jobs = refl
unfinished-nil ended (i ∷ is) jobs = elim (Bool-cases (ended (jobs i).pid)) [
  | inl e ↦ rw e (unfinished-nil ended is jobs)
  | inr e ↦ rw e (unfinished-nil ended is jobs)
]

module _ (job_count ncpu : ℕ) (some_cpu : 0 < ncpu) where
  abbrev queue_of : Jobs → List ℕ
  queue_of jobs = ready_from job_count 0 jobs

  -- A round with the flag off.
  record IsShorter (s s' : Schedule) : Type 0 where
    less : length (queue_of s'.jobs) < length (queue_of s.jobs)
    len : s'.queue_len ≡ length (queue_of s'.jobs)
    ends : Ends s.jobs s'.jobs

  some_running : (len : ℕ) → 0 < len → 0 < running_of len ncpu
  unfolding running_of
  some_running len pos = ground arith

  loop_body-round :
      (seen : Seen) (s : Schedule)
      → seen.after ≡ false
      → (length (queue_of s.jobs) == 0) ≡ false
      → (loop_body seen job_count ncpu s ≡ record {
        jobs = round_of seen.ended false job_count ncpu s.jobs;
        queue_len = length (drop (running_of (length (queue_of s.jobs)) ncpu) (queue_of s.jobs));
      })
  unfolding loop_body
  loop_body-round seen s off busy =
      rw
        (
          busy,
          off,
          unfinished-nil seen.ended
              (entries (running_of (length (queue_of s.jobs)) ncpu) (queue_of s.jobs)) s.jobs,
        )
        refl

  round-IsShorter :
      (seen : Seen) (s : Schedule)
      → seen.after ≡ false
      → 0 < length (queue_of s.jobs)
      → IsShorter s (loop_body seen job_count ncpu s)
  round-IsShorter seen s off pos =
      let k = running_of (length (queue_of s.jobs)) ncpu in
      let jobs' = round_of seen.ended false job_count ncpu s.jobs in
      let taken : (j : ℕ)
          → (jobs' j).state ≡ (if elem j (take k (queue_of s.jobs)) then 2 else (s.jobs j).state) =
        (λ j.
          round_of-ended seen.ended job_count ncpu s.jobs j
          ∙ ap (λ (is : List ℕ). if elem j is then 2 else (s.jobs j).state)
              (chosen-take job_count ncpu s.jobs)) in
      let left : queue_of jobs' ≡ drop k (queue_of s.jobs) =
        ready_from-drop job_count 0 k s.jobs jobs' (λ j le. taken j) in
      let shorter =
        length-drop-lt k (queue_of s.jobs) (some_running (length (queue_of s.jobs)) pos) pos in
      rw (loop_body-round seen s off (ne→== (length (queue_of s.jobs)) 0 (omega arith))) (record {
        less = omega (arith, shorter, ap (λ (l : List ℕ). length l) left);
        len = ap (λ (l : List ℕ). length l) (sym left);
        ends = λ j.
            let e = taken j in
            elim (Bool-cases (elem j (take k (queue_of s.jobs)))) [
              | inl h ↦ inr (e ∙ rw h refl)
              | inr h ↦ inl (e ∙ rw h refl)
            ];
      })

  module _ (seen : ℕ → Seen) (off_before : (n : ℕ) → (seen n).before ≡ false)
      (off_after : (n : ℕ) → (seen n).after ≡ false) where
    loop-stop :
        (fuel n : ℕ) (s : Schedule)
        → s.queue_len ≡ 0
        → scheduler_loop (suc fuel) seen n job_count ncpu s ≡ some s
    unfolding scheduler_loop
    loop-stop fuel n s e = rw (off_before n, e) refl

    loop-next :
        (fuel n : ℕ) (s : Schedule)
        → 0 < s.queue_len
        → scheduler_loop (suc fuel) seen n job_count ncpu s
          ≡ scheduler_loop fuel seen (n + 1) job_count ncpu (loop_body (seen n) job_count ncpu s)
    unfolding scheduler_loop
    loop-next fuel n s pos =
        let busy : ltb 0 s.queue_len ≡ true = ground arith in rw (off_before n, busy) refl

    -- The loop ends, with no job left that is ready.
    scheduler_loop-none_ready :
        (fuel n : ℕ) (s : Schedule)
        → s.queue_len ≡ length (queue_of s.jobs)
        → s.queue_len < fuel
        → (s' : Schedule) × (scheduler_loop fuel seen n job_count ncpu s ≡ some s')
          × (length (queue_of s'.jobs) ≡ 0)
          × Ends s.jobs s'.jobs
    scheduler_loop-none_ready zero n s len enough = absurd (omega arith)
    scheduler_loop-none_ready (suc fuel) n s len enough = elim (ℕ-cases s.queue_len 0) [
      | inl e ↦ (s, loop-stop fuel n s e, sym len ∙ e, λ j. inl refl)
      | inr ne ↦
          let next = loop_body (seen n) job_count ncpu s in
          let r = round-IsShorter (seen n) s (off_after n) (omega arith) in
          let (s', h, none_left, ends) =
            scheduler_loop-none_ready fuel (n + 1) next r.len (omega (arith, r.less, r.len)) in
          (
            s',
            loop-next fuel n s (omega arith) ∙ h,
            none_left,
            Ends-trans s.jobs next.jobs s'.jobs r.ends ends,
          )
    ]

no_ready :
    (left i : ℕ) (jobs : Jobs)
    → length (ready_from left i jobs) ≡ 0
    → (j : ℕ) → i ≤ j
    → j < i + left
    → (jobs j).state ≢ 0
unfolding ready_from
no_ready zero i jobs h j lo hi = absurd (omega arith)
no_ready (suc left) i jobs h j lo hi = elim (Bool-cases ((jobs i).state == 0)) [
  | inl s ↦
      let bad : suc (length (ready_from left (i + 1) jobs)) ≡ 0 = rw s at h in absurd (omega arith)
  | inr s ↦ elim (ℕ-cases i j) [
    | inl e ↦ rw e at (==-ne (jobs i).state s)
    | inr ne ↦ no_ready left (i + 1) jobs (rw s at h) j (omega arith) (omega arith)
  ]
]
  where
    ==-ne : (n : ℕ) → (n == 0) ≡ false → n ≢ 0
    ==-ne n h = ground arith

-- When the flag is off from some round on, there is a processor, no jobs are added, and `queue_len`
-- is the number of jobs that are ready: the loop ends after at most one round for each of them, and
-- then every job that was ready has state 2, and every other one has its state or 2.
pub scheduler_loop-all_ended :
    (job_count ncpu : ℕ) (seen : ℕ → Seen) (fuel n : ℕ) (s : Schedule)
    → 0 < ncpu
    → ((k : ℕ) → (seen k).before ≡ false)
    → ((k : ℕ) → (seen k).after ≡ false)
    → s.queue_len ≡ length (ready_from job_count 0 s.jobs)
    → s.queue_len < fuel
    → (s' : Schedule) × (scheduler_loop fuel seen n job_count ncpu s ≡ some s')
      × ((j : ℕ) → j < job_count → (s.jobs j).state ≡ 0 → (s'.jobs j).state ≡ 2)
      × ((j : ℕ) → ((s'.jobs j).state ≡ (s.jobs j).state) ⊎ ((s'.jobs j).state ≡ 2))
scheduler_loop-all_ended job_count ncpu seen fuel n s some_cpu off_before off_after len enough =
    let (s', h, none_left, ends) =
      scheduler_loop-none_ready job_count ncpu some_cpu seen off_before off_after fuel n s len
        enough in
    (
      s',
      h,
      λ j hj was_ready. elim (ends j) [
        | inl e ↦
            absurd
              (no_ready job_count 0 s'.jobs none_left j (omega arith) (omega arith) (e ∙ was_ready))
        | inr e ↦ e
      ],
      ends,
    )
