-- ===== src/PageTables/Walk.antt =====
-- The walk that the hardware does on the tables of egos-2000/earth/cpu_mmu.c (RISC-V Sv32), and the
-- shape of the tables.
use operating_systems_compon.Base.{
  ℕ, ap, ◌+◌, ◌*◌, ◌/◌, ◌%◌, ◌^◌, ◌<◌, ◌≡◌, ◌≢◌, refl, inl, inr, Bool, Bool-cases, true, ◌&&◌,
  Option, none, some, ◌==◌, if◌then◌else◌, ==→eq, arith,
}
use operating_systems_compon.Mmu.{frame, apps_pages_cnt}
use operating_systems_compon.Mmu.Room.{count_free}
use operating_systems_compon.PageTables.{Tables, Paging}

-- The word is valid, has the bits R, W, X and U, and the bits A and D, which the hardware may leave to
-- software: a program in user mode may read, write and execute what it leads to.
unfoldable pub permits : (word : ℕ) → Bool
permits word = word % 32 == 31 && word / 64 % 4 == 3

-- A valid word with none of R, W and X leads to a table; its bits U, A and D are reserved.
pub is_pointer : (word : ℕ) → Bool
is_pointer word = word % 32 == 1 && word / 64 % 4 == 0

-- The address that a leaf word gives, for a page of 4 KB, and for one of 4 MB in the root, which has
-- to be aligned.
pub leaf_walk : (word va : ℕ) → Option ℕ
leaf_walk word va = if permits word then some (word / 1024 * 4096 + va % 4096) else none

pub superpage_walk : (word va : ℕ) → Option ℕ
superpage_walk word va =
    if permits word && word / 1024 % 1024 == 0
    then some (word / 2 ^ 20 * 2 ^ 22 + va % 2 ^ 22)
    else none

-- The address to which the hardware translates `va` for a read, a write and an execution in user mode;
-- none when one of them faults.
pub walk : Tables → (root va : ℕ) → Option ℕ
walk tables root va =
    let word = tables root (va / 2 ^ 22) in
    if is_pointer word
    then leaf_walk (tables (word / 1024) (va / 4096 % 1024)) va
    else superpage_walk word va

abbrev pub free : Paging → ℕ
free s = count_free apps_pages_cnt s.pages

-- Root entry `v` leads to a leaf table, a page in use other than the root.
pub record IsLeaf (v : ℕ) (s : Paging) : Type 0 where
  pub id : ℕ
  pub word : s.tables s.root v ≡ frame id * 1024 + 1
  pub used : (s.pages id).used ≢ 0
  pub apart : frame id ≢ s.root
  pub in_range : id < apps_pages_cnt

-- The root is a page in use, and its valid entries lead to different leaf tables.
pub record IsLinked (s : Paging) : Type 0 where
  pub root_id : ℕ
  pub root_frame : s.root ≡ frame root_id
  pub root_used : (s.pages root_id).used ≢ 0
  pub leaf : (v : ℕ) → s.tables s.root v % 2 ≡ 1 → IsLeaf v s
  pub distinct :
      (v w : ℕ)
      → v ≢ w
      → s.tables s.root v % 2 ≡ 1
      → s.tables s.root w % 2 ≡ 1
      → s.tables s.root v ≢ s.tables s.root w

is_pointer-odd : (word : ℕ) → is_pointer word ≡ true → word % 2 ≡ 1
unfolding is_pointer
is_pointer-odd word h = let low : word % 32 ≡ 1 = ground (arith, h) in omega (arith, low)

superpage-odd : (word va b : ℕ) → superpage_walk word va ≡ some b → word % 2 ≡ 1
unfolding superpage_walk permits
superpage-odd word va b h = elim (Bool-cases (word % 32 == 31)) [
  | inl e ↦ let low : word % 32 ≡ 31 = ==→eq _ _ e in omega (arith, low)
  | inr e ↦ none_some (rw e at h)
]
  where
    none_some : none ≡ some b → word % 2 ≡ 1
    none_some z = cc

pub walk-some :
    (tables : Tables) (root va b : ℕ)
    → walk tables root va ≡ some b
    → tables root (va / 2 ^ 22) % 2 ≡ 1
unfolding walk
walk-some tables root va b h = elim (Bool-cases (is_pointer (tables root (va / 2 ^ 22)))) [
  | inl e ↦ is_pointer-odd _ e
  | inr e ↦ superpage-odd (tables root (va / 2 ^ 22)) va b (rw e at h)
]

-- Only two words count.
pub walk-same :
    (tables tables' : Tables) (root va : ℕ)
    → tables' root (va / 2 ^ 22) ≡ tables root (va / 2 ^ 22)
    → tables' (tables root (va / 2 ^ 22) / 1024) (va / 4096 % 1024)
      ≡ tables (tables root (va / 2 ^ 22) / 1024) (va / 4096 % 1024)
    → walk tables' root va ≡ walk tables root va
unfolding walk
walk-same tables tables' root va same_root same_leaf = rw (same_root, same_leaf) refl

pointer_word : (leaf : ℕ) → is_pointer (leaf * 1024 + 1) ≡ true
unfolding is_pointer
pointer_word leaf =
    let low : (leaf * 1024 + 1) % 32 ≡ 1 = omega arith in
    let high : (leaf * 1024 + 1) / 64 % 4 ≡ 0 = omega arith in rw (low, high) refl

pub walk-identity :
    (tables : Tables) (root va leaf : ℕ)
    → tables root (va / 2 ^ 22) ≡ leaf * 1024 + 1
    → permits (tables leaf (va / 4096 % 1024)) ≡ true
    → tables leaf (va / 4096 % 1024) / 1024 ≡ va / 4096
    → walk tables root va ≡ some va
unfolding walk leaf_walk
walk-identity tables root va leaf root_word permitted page =
    let there : (leaf * 1024 + 1) / 1024 ≡ leaf = omega arith in
    rw (root_word, pointer_word leaf, there, permitted, page) (ap some (omega arith))
