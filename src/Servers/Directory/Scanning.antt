-- ===== src/Servers/Directory/Scanning.antt =====
-- The words that the loop of `dir_lookup` in egos-2000/library/syscall/servers.c passes over.
use operating_systems_compon.Base.{
  ℕ, zero, suc, ap, sym, ◌∙◌, ◌≡◌, refl, inl, inr, Bool, Bool-cases, true, false, ◌&&◌, none, some,
  [], ◌∷◌, ◌++◌, length, ltb, ◌==◌, Line, All, same_text, arith,
}
use operating_systems_compon.Servers.Directory.{atoi, followed, behind, lookup_from}
use operating_systems_compon.Servers.Directory.Entries.{NotSpace, spaces}

absurd_bool {ℓ} : {A : Type ℓ} → false ≡ true → A
absurd_bool e = cc

followed-length : (name s : Line) → followed name s ≡ true → ltb (length name) (length s) ≡ true
unfolding followed
followed-length [] [] h = cc
followed-length [] (c ∷ s) h = ground arith
followed-length (n ∷ name) [] h = cc
followed-length (n ∷ name) (c ∷ s) h = elim (Bool-cases (n == c)) [
  | inl e ↦ let h' = followed-length name s (rw e at h) in ground (arith, h')
  | inr e ↦ absurd_bool (rw e at h)
]

-- A word at the start of a text is the name, or not.
followed-word :
    (name w rest : Line)
    → All NotSpace name
    → All NotSpace w
    → followed name (w ++ (32 ∷ rest)) ≡ same_text name w
unfolding followed
followed-word [] [] rest name_ok ok = refl
followed-word [] (c ∷ w) rest name_ok (one, ok) = one
followed-word (n ∷ name) [] rest (one, name_ok) ok = rw one refl
followed-word (n ∷ name) (c ∷ w) rest (a, name_ok) (b, ok) =
    rw (followed-word name w rest name_ok ok) refl

behind-word :
    (name w rest : Line) → same_text name w ≡ true → behind name (w ++ (32 ∷ rest)) ≡ 32 ∷ rest
unfolding behind
behind-word [] [] rest h = refl
behind-word [] (c ∷ w) rest h = cc
behind-word (n ∷ name) [] rest h = cc
behind-word (n ∷ name) (c ∷ w) rest h = elim (Bool-cases (n == c)) [
  | inl e ↦ behind-word name w rest (rw e at h)
  | inr e ↦ absurd_bool (rw e at h)
]

pub lookup_from-short :
    (name : Line) (before : Bool) (s : Line)
    → ltb (length name) (length s) ≡ false
    → lookup_from name before s ≡ none
unfolding lookup_from
lookup_from-short name before [] h = refl
lookup_from-short name before (c ∷ s) h = rw h refl

-- One step of the loop.
module _ (name : Line) (c : ℕ) (s : Line) where
  lookup_from-hit :
      followed name (c ∷ s) ≡ true
      → lookup_from name true (c ∷ s) ≡ some (atoi (behind name (c ∷ s)))
  unfolding lookup_from
  lookup_from-hit h = let long = followed-length name (c ∷ s) h in rw (long, h) refl

  lookup_from-miss :
      (before : Bool)
      → (before && followed name (c ∷ s)) ≡ false
      → lookup_from name before (c ∷ s) ≡ lookup_from name (c == 32) s
  unfolding lookup_from
  lookup_from-miss before h = elim (Bool-cases (ltb (length name) (length (c ∷ s)))) [
    | inl long ↦ rw (long, h) refl
    | inr short ↦ rw short (sym (lookup_from-short name (c == 32) s (ground (arith, short))))
  ]

module _ (name : Line) (name_ok : All NotSpace name) where
  lookup_from-inside :
      (w rest : Line)
      → All NotSpace w
      → lookup_from name false (w ++ (32 ∷ rest)) ≡ lookup_from name true rest
  lookup_from-inside [] rest ok = lookup_from-miss name 32 rest false refl
  lookup_from-inside (c ∷ w) rest (one, ok) =
      lookup_from-miss name c (w ++ (32 ∷ rest)) false refl ∙ rw one (lookup_from-inside w rest ok)

  pub lookup_from-word :
      (w rest : Line)
      → All NotSpace w
      → same_text name w ≡ false
      → lookup_from name true (w ++ (32 ∷ rest)) ≡ lookup_from name true rest
  lookup_from-word [] rest ok other =
      lookup_from-miss name 32 rest true (followed-word name [] rest name_ok ok ∙ other)
  lookup_from-word (c ∷ w) rest (one, ok) other =
      lookup_from-miss name c (w ++ (32 ∷ rest)) true
        (followed-word name (c ∷ w) rest name_ok (one, ok) ∙ other)
      ∙ rw one (lookup_from-inside w rest ok)

  pub lookup_from-found :
      (w rest : Line)
      → All NotSpace w
      → same_text name w ≡ true
      → lookup_from name true (w ++ (32 ∷ rest)) ≡ some (atoi (32 ∷ rest))
  lookup_from-found [] rest ok same =
      lookup_from-hit name 32 rest (followed-word name [] rest name_ok ok ∙ same)
      ∙ ap (λ t. some (atoi t)) (behind-word name [] rest same)
  lookup_from-found (c ∷ w) rest ok same =
      lookup_from-hit name c (w ++ (32 ∷ rest)) (followed-word name (c ∷ w) rest name_ok ok ∙ same)
      ∙ ap (λ t. some (atoi t)) (behind-word name (c ∷ w) rest same)

  pub lookup_from-spaces :
      (n : ℕ) (rest : Line)
      → same_text name [] ≡ false
      → lookup_from name true (spaces n rest) ≡ lookup_from name true rest
  unfolding spaces
  lookup_from-spaces zero rest some_byte = refl
  lookup_from-spaces (suc n) rest some_byte =
      lookup_from-word [] (spaces n rest) tt some_byte ∙ lookup_from-spaces n rest some_byte
