-- ===== src/PageTables/Region.antt =====
-- `setup_identity_region` of egos-2000/earth/cpu_mmu.c as a whole.
use operating_systems_compon.Base.{
  ℕ, ap, sym, ◌∙◌, ◌+◌, ◌-◌, ◌*◌, ◌/◌, ◌%◌, ◌^◌, ◌≤◌, ◌<◌, ◌≡◌, ◌≢◌, refl, inl, inr, ℕ-cases,
  Bool-cases, true, false, some, leb, ltb, ◌&&◌, ◌==◌, ==→eq, eq→==, update_ne, update_self, arith,
}
use operating_systems_compon.Mmu.{PageInfo, frame}
use operating_systems_compon.PageTables.{
  Paging, take_table, set_root, leaf_for, set_entries, fill_leaf, entry, user_rwx,
}
use operating_systems_compon.PageTables.Bits.{
  entry-page, entry-permits, IsFilled, set_entries-IsFilled,
}
use operating_systems_compon.PageTables.Walk.{
  permits, walk, walk-some, walk-same, walk-identity, free, IsLinked,
}
use operating_systems_compon.PageTables.Leaf.{take_table-IsTaken}
use operating_systems_compon.PageTables.New.{IsReady, new-IsReady}

leaf_for-old :
    (pid v : ℕ) (s : Paging)
    → (s.tables s.root v % 2 == 1) ≡ true
    → leaf_for pid v s ≡ some (s.tables s.root v * 4 % 2 ^ 32 / 4096, s)
unfolding leaf_for
leaf_for-old pid v s h = rw h refl

leaf_for-new :
    (pid v : ℕ) (s s1 : Paging) (leaf : ℕ)
    → (s.tables s.root v % 2 == 1) ≡ false
    → take_table pid s ≡ some (leaf, s1)
    → leaf_for pid v s ≡ some (leaf, set_root v leaf s1)
unfolding leaf_for
leaf_for-new pid v s s1 leaf h e = rw (h, e) refl

pub leaf_for-IsReady :
    (pid v : ℕ) (s : Paging)
    → IsLinked s
    → 0 < free s
    → (leaf : ℕ) × (s' : Paging) × (leaf_for pid v s ≡ some (leaf, s')) × IsReady v leaf s s'
leaf_for-IsReady pid v s linked enough = elim (Bool-cases (s.tables s.root v % 2 == 1)) [
  | inl h ↦
      let is = linked.leaf v (==→eq _ _ h) in
      let page : s.tables s.root v * 4 % 2 ^ 32 / 4096 ≡ frame is.id =
        omega (arith, is.word, is.in_range) in
      (
        frame is.id,
        s,
        leaf_for-old pid v s h ∙ ap (λ p. some (p, s)) page,
        record {
          linked = linked;
          word = is.word;
          apart = is.apart;
          walks = λ va b e. e;
          room = omega arith;
        },
      )
  | inr h ↦
      (let (i, s1, runs, taken) = take_table-IsTaken pid s enough in
        let even : s.tables s.root v % 2 ≢ 1 = λ e. true_false (sym (eq→== _ _ e) ∙ h) in
        (
          frame i,
          set_root v (frame i) s1,
          leaf_for-new pid v s s1 (frame i) h runs,
          new-IsReady v i s s1 linked taken even,
        ))
]
  where
    true_false : true ≡ false → ⊥
    true_false e = cc

-- The addresses of a region.
abbrev pub Within : (addr npages va : ℕ) → Type 0
Within addr npages va = (addr / 4096 ≤ va / 4096) × (va / 4096 < addr / 4096 + npages)

module _ (addr npages flag leaf : ℕ) (s s' : Paging) (ready : IsReady (addr / 2 ^ 22) leaf s s')
    (fits : addr / 4096 % 1024 + npages ≤ 1024) (small : addr < 2 ^ 32)
    (aligned : addr % 1024 ≡ 0) where
  abbrev pub end : Paging
  end = fill_leaf addr npages flag leaf s'

  pub end_fields : (end.root ≡ s'.root) × (end.pages ≡ s'.pages)
  unfolding fill_leaf
  end_fields = (refl, refl)

  end_table : (p : ℕ) → p ≢ leaf → end.tables p ≡ s'.tables p
  unfolding fill_leaf
  end_table p ne = update_ne s'.tables leaf _ p (λ e. ne (sym e))

  end_leaf : end.tables leaf ≡ set_entries addr npages flag (s'.tables leaf)
  unfolding fill_leaf
  end_leaf = update_self s'.tables leaf _ leaf refl

  root_kept : (w : ℕ) → end.tables s'.root w ≡ s'.tables s'.root w
  root_kept w = ap (λ (t : ℕ → ℕ). t w) (end_table s'.root (λ e. ready.apart (sym e)))

  is_filled : IsFilled addr flag (s'.tables leaf) npages (end.tables leaf)
  is_filled = rw end_leaf (set_entries-IsFilled addr npages flag (s'.tables leaf))

  -- An address of the region is mapped to itself.
  pub walk-Within :
      flag ≡ user_rwx → (va : ℕ) → Within addr npages va → walk end.tables end.root va ≡ some va
  walk-Within user va (lo, hi) =
      let i = va / 4096 - addr / 4096 in
      let index : va / 4096 % 1024 ≡ addr / 4096 % 1024 + i = omega (arith, lo, hi, fits) in
      let word : end.tables leaf (va / 4096 % 1024) ≡ entry ((addr + i * 4096) % 2 ^ 32) flag =
        ap (end.tables leaf) index ∙ is_filled.filled i (omega (arith, lo, hi)) in
      let page : (addr + i * 4096) % 2 ^ 32 / 4096 ≡ va / 4096 =
        omega (arith, lo, hi, fits, small) in
      let same : va / 2 ^ 22 ≡ addr / 2 ^ 22 = omega (arith, lo, hi, fits) in
      ap (λ r. walk end.tables r va) end_fields.0
      ∙ walk-identity end.tables s'.root va leaf
          (root_kept (va / 2 ^ 22) ∙ ap (s'.tables s'.root) same ∙ ready.word)
          (ap permits word
            ∙ ap (λ x. permits (entry ((addr + i * 4096) % 2 ^ 32) x)) user
            ∙ entry-permits ((addr + i * 4096) % 2 ^ 32) (omega (arith, aligned)))
          (ap (λ x. x / 1024) word ∙ entry-page ((addr + i * 4096) % 2 ^ 32) flag ∙ page)

  -- The word of an address outside of the region is as it was.
  leaf_kept :
      (va : ℕ)
      → (Within addr npages va → ⊥)
      → s'.tables s'.root (va / 2 ^ 22) % 2 ≡ 1
      → end.tables (s'.tables s'.root (va / 2 ^ 22) / 1024) (va / 4096 % 1024)
        ≡ s'.tables (s'.tables s'.root (va / 2 ^ 22) / 1024) (va / 4096 % 1024)
  leaf_kept va out odd = elim (ℕ-cases (addr / 2 ^ 22) (va / 2 ^ 22)) [
    | inl e ↦
        let page : s'.tables s'.root (va / 2 ^ 22) / 1024 ≡ leaf =
          omega (arith, ap (s'.tables s'.root) e, ready.word) in
        rw page (
          is_filled.others (va / 4096 % 1024)
            (λ i lt z. out (omega (arith, z, e, lt, fits), omega (arith, z, e, lt, fits))))
    | inr ne ↦
        let is = ready.linked.leaf (va / 2 ^ 22) odd in
        let here : s'.tables s'.root (addr / 2 ^ 22) % 2 ≡ 1 = omega (arith, ready.word) in
        let other = ready.linked.distinct (addr / 2 ^ 22) (va / 2 ^ 22) ne here odd in
        ap (λ (t : ℕ → ℕ). t (va / 4096 % 1024))
          (end_table (s'.tables s'.root (va / 2 ^ 22) / 1024)
            (λ z. other (omega (arith, z, is.word, ready.word))))
  ]

  pub walk_kept :
      flag ≡ user_rwx
      → (va : ℕ) → walk s.tables s.root va ≡ some va
      → walk end.tables end.root va ≡ some va
  walk_kept user va h =
      elim (Bool-cases (leb (addr / 4096) (va / 4096) && ltb (va / 4096) (addr / 4096 + npages))) [
        | inl inside ↦ walk-Within user va (ground (arith, inside), ground (arith, inside))
        | inr outside ↦
            let h' = ready.walks va va h in
            let valid = walk-some s'.tables s'.root va va h' in
            ap (λ r. walk end.tables r va) end_fields.0
            ∙ walk-same s'.tables end.tables s'.root va (root_kept (va / 2 ^ 22))
                (leaf_kept va (λ (lo, hi). ground (arith, outside, lo, hi)) valid)
            ∙ h'
      ]

  pub end-IsLinked : IsLinked end
  end-IsLinked = record {
    root_id = ready.linked.root_id;
    root_frame = end_fields.0 ∙ ready.linked.root_frame;
    root_used = λ e.
        ready.linked.root_used
          (ap (λ (t : ℕ → PageInfo). (t ready.linked.root_id).used) (sym end_fields.1) ∙ e);
    leaf = λ w odd.
        (let is = ready.linked.leaf w (ap (λ x. x % 2) (sym (root_end w)) ∙ odd) in
          record {
            id = is.id;
            word = root_end w ∙ is.word;
            used = λ e. is.used (ap (λ (t : ℕ → PageInfo). (t is.id).used) (sym end_fields.1) ∙ e);
            apart = λ e. is.apart (e ∙ end_fields.0);
            in_range = is.in_range;
          });
    distinct = λ a b ab odd_a odd_b z.
        ready.linked.distinct a b ab (ap (λ x. x % 2) (sym (root_end a)) ∙ odd_a)
          (ap (λ x. x % 2) (sym (root_end b)) ∙ odd_b) (sym (root_end a) ∙ z ∙ root_end b);
  }
    where
      root_end : (w : ℕ) → end.tables end.root w ≡ s'.tables s'.root w
      root_end w = ap (λ r. end.tables r w) end_fields.0 ∙ root_kept w
