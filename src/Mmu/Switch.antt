-- ===== src/Mmu/Switch.antt =====
-- What `soft_tlb_switch` of egos-2000/earth/cpu_mmu.c does to memory, once and there and back.
use operating_systems_compon.Base.{
  ℕ, ne→==, ==→eq, ◌+◌, ◌≤◌, ◌<◌, ◌≡◌, ◌≢◌, refl, sym, ap, ◌∙◌, inl, inr, true, false, arith, ◌==◌,
  Bool-cases, ℕ-cases, update_self, update_ne, count_from-invariant,
}
use operating_systems_compon.Mmu.{
  PageTable, apps_pages_cnt, owned, Memory, first_frame, frame, vpage, Mmu, save_page, load_page,
  save_pages, load_pages, soft_tlb_switch,
}

-- The pages of a process are mapped below the frames, no two of them to one place.
pub record IsMapped (t : PageTable) (pid : ℕ) : Type 0 where
  pub below : (i : ℕ) → owned t pid i ≡ true → vpage t i < first_frame
  pub apart :
      (i j : ℕ) → owned t pid i ≡ true → owned t pid j ≡ true → vpage t i ≡ vpage t j → i ≡ j

-- After the first `k` rounds of the save loop.
record Saved (t : PageTable) (pid : ℕ) (m₀ : Memory) (k : ℕ) (m : Memory) : Type 0 where
  user : (a : ℕ) → a < first_frame → m a ≡ m₀ a
  done : (i : ℕ) → i < k → owned t pid i ≡ true → m (frame i) ≡ m₀ (vpage t i)
  other : (i : ℕ) → owned t pid i ≡ false → m (frame i) ≡ m₀ (frame i)

-- A page that a process owns is no page that it does not own.
not_same : (t : PageTable) (pid i j : ℕ) → owned t pid i ≡ true → owned t pid j ≡ false → i ≢ j
not_same t pid i j yours mine e = cc (ap (owned t pid) e)

module _ (t : PageTable) (pid : ℕ) (v : IsMapped t pid) (m₀ : Memory) where
  save_page-Saved :
      (k : ℕ) (m : Memory) → Saved t pid m₀ k m → Saved t pid m₀ (k + 1) (save_page t pid k m)
  unfolding save_page
  save_page-Saved k m s = elim (Bool-cases (owned t pid k)) [
    | inl mine ↦ rw mine (record {
      user = λ a ha. update_ne m (frame k) _ a (omega arith) ∙ s.user a ha;
      done = λ i hi own. elim (ℕ-cases k i) [
        | inl e ↦
            update_self m (frame k) _ (frame i) (omega arith)
            ∙ s.user _ (v.below k mine)
            ∙ ap (λ (x : ℕ). m₀ (vpage t x)) e
        | inr ne ↦ update_ne m (frame k) _ (frame i) (omega arith) ∙ s.done i (omega arith) own
      ];
      other = λ i free.
          let ne : k ≢ i = not_same t pid k i mine free in
          update_ne m (frame k) _ (frame i) (omega arith) ∙ s.other i free;
    })
    | inr not_mine ↦ rw not_mine (record {
      user = s.user;
      done = λ i hi own.
          let ne : i ≢ k = not_same t pid i k own not_mine in s.done i (omega arith) own;
      other = s.other;
    })
  ]

  save_pages-Saved : Saved t pid m₀ apps_pages_cnt (save_pages t pid m₀)
  unfolding save_pages
  save_pages-Saved =
      count_from-invariant (Saved t pid m₀) (save_page t pid) apps_pages_cnt 0 apps_pages_cnt
        (λ k m lo hi. save_page-Saved k m) m₀ (omega arith)
        (record { user = λ a h. refl; done = λ i h. absurd (omega arith); other = λ i f. refl })

-- After the first `k` rounds of the load loop.
record Loaded (t : PageTable) (pid : ℕ) (m₀ : Memory) (k : ℕ) (m : Memory) : Type 0 where
  frames : (a : ℕ) → first_frame ≤ a → m a ≡ m₀ a
  done : (i : ℕ) → i < k → owned t pid i ≡ true → m (vpage t i) ≡ m₀ (frame i)

module _ (t : PageTable) (pid : ℕ) (v : IsMapped t pid) (m₀ : Memory) where
  load_page-Loaded :
      (k : ℕ) (m : Memory) → Loaded t pid m₀ k m → Loaded t pid m₀ (k + 1) (load_page t pid k m)
  unfolding load_page
  load_page-Loaded k m s = elim (Bool-cases (owned t pid k)) [
    | inl mine ↦ rw mine (record {
      frames = λ a ha. update_ne m (vpage t k) _ a (omega (arith, v.below k mine)) ∙ s.frames a ha;
      done = λ i hi own. elim (ℕ-cases k i) [
        | inl e ↦
            update_self m (vpage t k) _ (vpage t i) (ap (λ (x : ℕ). vpage t x) e)
            ∙ s.frames _ (omega arith)
            ∙ ap (λ (x : ℕ). m₀ (frame x)) e
        | inr ne ↦
            update_ne m (vpage t k) _ (vpage t i) (λ e. ne (v.apart k i mine own e))
            ∙ s.done i (omega arith) own
      ];
    })
    | inr not_mine ↦ rw not_mine (record {
      frames = s.frames;
      done = λ i hi own.
          let ne : i ≢ k = not_same t pid i k own not_mine in s.done i (omega arith) own;
    })
  ]

  load_pages-Loaded : Loaded t pid m₀ apps_pages_cnt (load_pages t pid m₀)
  unfolding load_pages
  load_pages-Loaded =
      count_from-invariant (Loaded t pid m₀) (load_page t pid) apps_pages_cnt 0 apps_pages_cnt
        (λ k m lo hi. load_page-Loaded k m) m₀ (omega arith)
        (record { frames = λ a h. refl; done = λ i h. absurd (omega arith) })

-- A page belongs to one process.
owned_once : (t : PageTable) (p q i : ℕ) → p ≢ q → owned t p i ≡ true → owned t q i ≡ false
owned_once t p q i ne own = ground arith

-- The switch, where the process is not the current one.
soft_tlb_switch-ne :
    (pid : ℕ) (s : Mmu)
    → pid ≢ s.curr_vm_pid
    → soft_tlb_switch pid s ≡ record s {
      mem = load_pages s.pages pid (save_pages s.pages s.curr_vm_pid s.mem);
      curr_vm_pid = pid;
    }
unfolding soft_tlb_switch
soft_tlb_switch-ne pid s ne = rw (ne→== pid s.curr_vm_pid ne)

-- Process `q` is switched in, runs, and writes to no frame of the region that `mmu_alloc` hands
-- out; then process `p`, which was current before, is switched in again. Every page that `p` owns
-- holds at its virtual place what it held before, if both processes are mapped below the frames
-- and without overlap.
pub switch-switch :
    (s : Mmu) (q : ℕ) (ran : Memory)
    → s.curr_vm_pid ≢ q
    → IsMapped s.pages s.curr_vm_pid
    → IsMapped s.pages q
    → ((a : ℕ) → first_frame ≤ a → ran a ≡ (soft_tlb_switch q s).mem a)
    → (i : ℕ) → i < apps_pages_cnt
    → owned s.pages s.curr_vm_pid i ≡ true
    → (soft_tlb_switch s.curr_vm_pid (record (soft_tlb_switch q s) { mem = ran })).mem
        (vpage s.pages i)
      ≡ s.mem (vpage s.pages i)
switch-switch s q ran ne vp vq same i hi own =
    let t = s.pages in
    let p = s.curr_vm_pid in
    let out = soft_tlb_switch-ne q s (λ e. ne (sym e)) in
    let here = save_pages-Saved t p vp s.mem in
    let gone = load_pages-Loaded t q vq (save_pages t p s.mem) in
    let there = save_pages-Saved t q vq ran in
    let back = load_pages-Loaded t p vp (save_pages t q ran) in
    let kept : ran (frame i) ≡ load_pages t q (save_pages t p s.mem) (frame i) =
      same (frame i) (omega arith) ∙ ap (λ (u : Mmu). u.mem (frame i)) out in
    rw (out, soft_tlb_switch-ne p (record s { mem = ran; curr_vm_pid = q }) ne)
      (back.done i hi own
        ∙ there.other i (owned_once t p q i ne own)
        ∙ kept
        ∙ gone.frames (frame i) (omega arith)
        ∙ here.done i hi own)

-- After a switch the current process is the one asked for.
pub soft_tlb_switch-pid : (pid : ℕ) (s : Mmu) → (soft_tlb_switch pid s).curr_vm_pid ≡ pid
unfolding soft_tlb_switch
soft_tlb_switch-pid pid s = elim (Bool-cases (pid == s.curr_vm_pid)) [
  | inl same ↦ rw same (sym (==→eq pid s.curr_vm_pid same))
  | inr other ↦ rw other
]
