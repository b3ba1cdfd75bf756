-- ===== src/PageTables/New.antt =====
-- A new leaf table of `setup_identity_region` in egos-2000/earth/cpu_mmu.c, and the tables before.
use operating_systems_compon.Base.{
  ℕ, suc, ap, sym, ◌∙◌, ◌+◌, ◌*◌, ◌/◌, ◌%◌, ◌^◌, ◌≤◌, ◌≡◌, ◌≢◌, refl, inl, inr, ℕ-cases, some,
  update, update_ne, update_self, arith,
}
use operating_systems_compon.Mmu.{PageInfo, frame, page_size}
use operating_systems_compon.PageTables.{Tables, Paging, set_root}
use operating_systems_compon.PageTables.Walk.{walk, walk-some, walk-same, free, IsLeaf, IsLinked}
use operating_systems_compon.PageTables.Leaf.{IsTaken}

-- What the rest of the region needs of the leaf table.
pub record IsReady (v leaf : ℕ) (s s' : Paging) : Type 0 where
  pub linked : IsLinked s'
  pub word : s'.tables s'.root v ≡ leaf * 1024 + 1
  pub apart : leaf ≢ s'.root
  pub walks : (va b : ℕ) → walk s.tables s.root va ≡ some b → walk s'.tables s'.root va ≡ some b
  pub room : free s ≤ suc (free s')

module _ (v leaf : ℕ) (s : Paging) where
  set_root-root :
      (w : ℕ)
      → (set_root v leaf s).tables s.root w
        ≡ update (s.tables s.root) v (leaf * page_size / 4 + 1) w
  unfolding set_root
  set_root-root w = ap (λ (t : ℕ → ℕ). t w) (update_self s.tables s.root _ s.root refl)

  set_root-other : (p : ℕ) → p ≢ s.root → (set_root v leaf s).tables p ≡ s.tables p
  unfolding set_root
  set_root-other p ne = update_ne s.tables s.root _ p (λ e. ne (sym e))

  set_root-fields : ((set_root v leaf s).root ≡ s.root) × ((set_root v leaf s).pages ≡ s.pages)
  unfolding set_root
  set_root-fields = (refl, refl)

module _ (v i : ℕ) (s s1 : Paging) (linked : IsLinked s) (taken : IsTaken i s s1)
    (even : s.tables s.root v % 2 ≢ 1) where
  used_after : (j : ℕ) → (s.pages j).used ≢ 0 → (s1.pages j).used ≢ 0
  used_after j used e = used (
      sym (
        ap (λ (p : PageInfo). p.used)
          (taken.others j (λ z. used (ap (λ k. (s.pages k).used) z ∙ taken.unused))))
      ∙ e)

  used_other : (j : ℕ) → (s.pages j).used ≢ 0 → frame j ≢ frame i
  used_other j used e =
      let same : j ≡ i = omega (arith, e) in used (ap (λ k. (s.pages k).used) same ∙ taken.unused)

  root_other : s.root ≢ frame i
  root_other e = used_other linked.root_id linked.root_used (sym linked.root_frame ∙ e)

  abbrev s2 : Paging
  s2 = set_root v (frame i) s1

  root_same : s2.root ≡ s.root
  root_same = (set_root-fields v (frame i) s1).0 ∙ taken.root

  old_table : (p : ℕ) → p ≢ s.root → p ≢ frame i → s2.tables p ≡ s.tables p
  old_table p not_root not_new =
      set_root-other v (frame i) s1 p (λ e. not_root (e ∙ taken.root))
      ∙ ap (λ (t : Tables). t p) taken.tables
      ∙ update_ne s.tables (frame i) _ p (λ e. not_new (sym e))

  root_table : (w : ℕ) → s2.tables s2.root w ≡ update (s.tables s.root) v (frame i * 1024 + 1) w
  root_table w =
      let before : s1.tables s1.root ≡ s.tables s.root =
        ap s1.tables taken.root
        ∙ ap (λ (t : Tables). t s.root) taken.tables
        ∙ update_ne s.tables (frame i) _ s.root (λ e. root_other (sym e)) in
      let word : frame i * page_size / 4 + 1 ≡ frame i * 1024 + 1 = omega arith in
      ap (λ r. s2.tables r w) (set_root-fields v (frame i) s1).0
      ∙ set_root-root v (frame i) s1 w
      ∙ ap (λ (t : ℕ → ℕ). update t v (frame i * page_size / 4 + 1) w) before
      ∙ ap (λ x. update (s.tables s.root) v x w) word

  root_new : s2.tables s2.root v ≡ frame i * 1024 + 1
  root_new = root_table v ∙ update_self (s.tables s.root) v _ v refl

  root_old : (w : ℕ) → v ≢ w → s2.tables s2.root w ≡ s.tables s.root w
  root_old w ne = root_table w ∙ update_ne (s.tables s.root) v _ w ne

  IsLeaf-old : (w : ℕ) → v ≢ w → IsLeaf w s → IsLeaf w s2
  IsLeaf-old w ne is = record {
    id = is.id;
    word = root_old w ne ∙ is.word;
    used = λ e.
        used_after is.id is.used
          (ap (λ (t : ℕ → PageInfo). (t is.id).used) (sym (set_root-fields v (frame i) s1).1) ∙ e);
    apart = λ e. is.apart (e ∙ root_same);
    in_range = is.in_range;
  }

  IsLeaf-new : IsLeaf v s2
  IsLeaf-new = record {
    id = i;
    word = root_new;
    used = λ e. absurd (
        omega (
          arith,
          taken.used,
          ap (λ (t : ℕ → PageInfo). (t i).used) (sym (set_root-fields v (frame i) s1).1) ∙ e,
        ));
    apart = λ e. root_other (sym (e ∙ root_same));
    in_range = taken.in_range;
  }

  -- The new word differs from those of the other leaf tables.
  word_other :
      (w : ℕ) → v ≢ w → s2.tables s2.root w % 2 ≡ 1 → frame i * 1024 + 1 ≢ s2.tables s2.root w
  word_other w ne odd e =
      let is = linked.leaf w (ap (λ x. x % 2) (sym (root_old w ne)) ∙ odd) in
      used_other is.id is.used (omega (arith, e, root_old w ne, is.word))

  IsLinked-new : IsLinked s2
  IsLinked-new = record {
    root_id = linked.root_id;
    root_frame = root_same ∙ linked.root_frame;
    root_used = λ e. used_after linked.root_id linked.root_used (
        ap (λ (t : ℕ → PageInfo). (t linked.root_id).used) (sym (set_root-fields v (frame i) s1).1)
        ∙ e);
    leaf = λ w odd. elim (ℕ-cases v w) [
      | inl e ↦ rw (← e) IsLeaf-new
      | inr ne ↦ IsLeaf-old w ne (linked.leaf w (ap (λ x. x % 2) (sym (root_old w ne)) ∙ odd))
    ];
    distinct = λ a b ab odd_a odd_b. elim (ℕ-cases v a) [
      | inl e ↦ λ z.
          word_other b (λ vb. ab (sym e ∙ vb)) odd_b
            (sym root_new ∙ ap (λ w. s2.tables s2.root w) e ∙ z)
      | inr na ↦ elim (ℕ-cases v b) [
        | inl e ↦
            λ z. word_other a na odd_a (sym root_new ∙ ap (λ w. s2.tables s2.root w) e ∙ sym z)
        | inr nb ↦ λ z.
            linked.distinct a b ab (ap (λ x. x % 2) (sym (root_old a na)) ∙ odd_a)
              (ap (λ x. x % 2) (sym (root_old b nb)) ∙ odd_b)
              (sym (root_old a na) ∙ z ∙ root_old b nb)
      ]
    ];
  }

  walks_new : (va b : ℕ) → walk s.tables s.root va ≡ some b → walk s2.tables s2.root va ≡ some b
  walks_new va b h =
      let w = va / 2 ^ 22 in
      let odd = walk-some s.tables s.root va b h in
      let ne : v ≢ w = λ e. even (ap (λ x. s.tables s.root x % 2) e ∙ odd) in
      let is = linked.leaf w odd in
      let page : s.tables s.root w / 1024 ≡ frame is.id = omega (arith, is.word) in
      let same_table : s2.tables (s.tables s.root w / 1024) ≡ s.tables (s.tables s.root w / 1024) =
        old_table (s.tables s.root w / 1024) (λ e. is.apart (sym page ∙ e))
          (λ e. used_other is.id is.used (sym page ∙ e)) in
      let same_root : s2.tables s.root w ≡ s.tables s.root w =
        ap (λ r. s2.tables r w) (sym root_same) ∙ root_old w ne in
      ap (λ r. walk s2.tables r va) root_same
      ∙ walk-same s.tables s2.tables s.root va same_root
          (ap (λ (t : ℕ → ℕ). t (va / 4096 % 1024)) same_table)
      ∙ h

  pub new-IsReady : IsReady v (frame i) s s2
  new-IsReady = record {
    linked = IsLinked-new;
    word = root_new;
    apart = λ e. root_other (sym (e ∙ root_same));
    walks = walks_new;
    room = omega (
      arith,
      taken.room,
      ap (λ (t : ℕ → PageInfo). free (record s { pages = t })) (set_root-fields v (frame i) s1).1,
    );
  }
