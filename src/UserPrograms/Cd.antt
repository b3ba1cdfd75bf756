-- ===== src/UserPrograms/Cd.antt =====
-- egos-2000/apps/user/cd.c. The directories are an argument: from the number of one and a name, the
-- number, or none for -1. An argument of the program is not empty.
use operating_systems_compon.Base.{
  ℕ, zero, suc, ap, sym, ◌∙◌, ◌-◌, ◌≤◌, ◌<◌, ◌≡◌, refl, inl, inr, ℕ-cases, Bool, true, false,
  Option, none, some, [], ◌∷◌, ◌++◌, length, length-append, take, get_or, ltb, ◌==◌, if◌then◌else◌,
  eq→==, Line, All, codes, same_text, arith,
}

-- `workdir_ino` and `workdir`.
pub record Workdir : Type 0 where
  pub ino : ℕ
  pub path : Line

abbrev pub Lookup : Type 0
Lookup = (ino : ℕ) → (name : Line) → Option ℕ

pub ends_in_slash : Line → Bool
ends_in_slash name = get_or name (length name - 1) 0 == b'/'

pub with_slash : Line → Line
with_slash name = if ends_in_slash name then name else name ++ (b'/' ∷ [])

-- `while (workdir[len] != '/') workdir[len--] = 0` on a path that starts with a slash.
pub last_slash : (len : ℕ) → Line → ℕ
last_slash zero path = zero
last_slash (suc len) path =
    let before = last_slash len path in if get_or path (suc len) 0 == b'/' then suc len else before

pub up : Line → Line
up path = let len = last_slash (length path) path in if len == 0 then take 1 path else take len path

pub into : (path name : Line) → Line
into path name =
    (if ltb 1 (length path) then path ++ (b'/' ∷ []) else path) ++ take (length name - 1) name

pub next_path : (path name : Line) → Line
next_path path name =
    if same_text (codes "./") name
    then path
    else (if same_text (codes "../") name then up path else into path name)

pub change : Option ℕ → (name : Line) → Workdir → Workdir
change none name w = w
change (some ino) name w = record { ino = ino; path = next_path w.path name }

-- `cd name`; a name that is not found leaves the directory.
pub cd : Lookup → Line → Workdir → Workdir
cd lookup arg w = change (lookup w.ino (with_slash arg)) (with_slash arg) w

abbrev pub NotSlash : ℕ → Type 0
NotSlash c = (c == b'/') ≡ false

get_or-append : (u : Line) (c : ℕ) (name : Line) → get_or (u ++ (c ∷ name)) (length u) 0 ≡ c
get_or-append [] c name = refl
get_or-append (x ∷ u) c name = get_or-append u c name

get_or-NotSlash : (name : Line) (k : ℕ) → All NotSlash name → NotSlash (get_or name k 0)
get_or-NotSlash [] k ok = refl
get_or-NotSlash (c ∷ name) zero (one, ok) = one
get_or-NotSlash (c ∷ name) (suc k) (one, ok) = get_or-NotSlash name k ok

get_or-behind :
    (u : Line) (c : ℕ) (name : Line) (k : ℕ)
    → All NotSlash name
    → length u < k
    → NotSlash (get_or (u ++ (c ∷ name)) k 0)
get_or-behind [] c name zero ok lt = absurd (omega arith)
get_or-behind [] c name (suc k) ok lt = get_or-NotSlash name k ok
get_or-behind (x ∷ u) c name zero ok lt = absurd (omega arith)
get_or-behind (x ∷ u) c name (suc k) ok lt = get_or-behind u c name k ok (omega arith)

last_slash-append :
    (k : ℕ) (u name : Line)
    → All NotSlash name
    → length u ≤ k
    → last_slash k (u ++ (b'/' ∷ name)) ≡ length u
unfolding last_slash
last_slash-append zero u name ok le = omega arith
last_slash-append (suc k) u name ok le = elim (ℕ-cases (length u) (suc k)) [
  | inl e ↦
      let hit : (get_or (u ++ (b'/' ∷ name)) (suc k) 0 == b'/') ≡ true =
        eq→== _ _ (ap (λ j. get_or (u ++ (b'/' ∷ name)) j 0) (sym e) ∙ get_or-append u b'/' name) in
      rw hit (sym e)
  | inr ne ↦
      rw (get_or-behind u b'/' name (suc k) ok (omega arith))
        (last_slash-append k u name ok (omega arith))
]

take-append : (u v : Line) → take (length u) (u ++ v) ≡ u
take-append [] v = refl
take-append (x ∷ u) v = ap (λ t. x ∷ t) (take-append u v)

-- Up from a path that ends in a slash and a name.
up-append : (c : ℕ) (u name : Line) → All NotSlash name → up ((c ∷ u) ++ (b'/' ∷ name)) ≡ c ∷ u
unfolding up
up-append c u name ok =
    let e =
      last_slash-append (length ((c ∷ u) ++ (b'/' ∷ name))) (c ∷ u) name ok
        (omega (arith, length-append (c ∷ u) (b'/' ∷ name))) in
    let some_byte : (length (c ∷ u) == 0) ≡ false = ground arith in
    rw (e, some_byte) (take-append (c ∷ u) (b'/' ∷ name))

up-root : (name : Line) → All NotSlash name → up (b'/' ∷ name) ≡ b'/' ∷ []
unfolding up
up-root name ok =
    let e = last_slash-append (length (b'/' ∷ name)) [] name ok (omega arith) in rw e refl

with_slash-name : (name : Line) → All NotSlash name → with_slash name ≡ name ++ (b'/' ∷ [])
unfolding with_slash ends_in_slash
with_slash-name name ok = rw (get_or-NotSlash name (length name - 1) ok) refl

up-into :
    (p name : Line) → All NotSlash name → up (into (b'/' ∷ p) (name ++ (b'/' ∷ []))) ≡ b'/' ∷ p
unfolding into
up-into p name ok = elim (ℕ-cases (length p) 0) [
  | inl e ↦
      let root : ltb 1 (length (b'/' ∷ p)) ≡ false = ground (arith, e) in
      rw (root, own) (shorter p e)
  | inr ne ↦
      let longer : ltb 1 (length (b'/' ∷ p)) ≡ true = ground (arith, ne) in
      rw (longer, own) (ap up (append_one (b'/' ∷ p) b'/' name) ∙ up-append b'/' p name ok)
]
  where
    own : take (length (name ++ (b'/' ∷ [])) - 1) (name ++ (b'/' ∷ [])) ≡ name
    own =
        let e : length (name ++ (b'/' ∷ [])) - 1 ≡ length name =
          omega (arith, length-append name (b'/' ∷ [])) in
        ap (λ n. take n (name ++ (b'/' ∷ []))) e ∙ take-append name (b'/' ∷ [])

    append_one : (u : Line) (c : ℕ) (v : Line) → (u ++ (c ∷ [])) ++ v ≡ u ++ (c ∷ v)
    append_one [] c v = refl
    append_one (x ∷ u) c v = ap (λ t. x ∷ t) (append_one u c v)

    shorter : (q : Line) → length q ≡ 0 → up ((b'/' ∷ q) ++ name) ≡ b'/' ∷ q
    shorter [] e = up-root name ok
    shorter (x ∷ q) e = absurd (omega arith)

cd-found :
    (lookup : Lookup) (name : Line) (w : Workdir) (ino : ℕ)
    → lookup w.ino (with_slash name) ≡ some ino
    → cd lookup name w ≡ record { ino = ino; path = next_path w.path (with_slash name) }
unfolding cd change
cd-found lookup name w ino h = rw h refl

-- From an absolute path, `cd name` and then `cd ..` lead back, where the directory of the name has
-- the first one as its parent, and the name has no slash and is neither "." nor "..".
pub cd_back :
    (lookup : Lookup) (ino child : ℕ) (p name : Line)
    → All NotSlash name
    → same_text (codes "./") (name ++ (b'/' ∷ [])) ≡ false
    → same_text (codes "../") (name ++ (b'/' ∷ [])) ≡ false
    → lookup ino (name ++ (b'/' ∷ [])) ≡ some child
    → lookup child (codes "../") ≡ some ino
    → cd lookup (codes "..") (cd lookup name (record { ino = ino; path = b'/' ∷ p }))
      ≡ record { ino = ino; path = b'/' ∷ p }
unfolding next_path
cd_back lookup ino child p name ok not_here not_up down above =
    let w : Workdir = record { ino = ino; path = b'/' ∷ p } in
    let full = with_slash-name name ok in
    let there : Workdir = record { ino = child; path = into (b'/' ∷ p) (name ++ (b'/' ∷ [])) } in
    let parent = with_slash-name (codes "..") (refl, (refl, tt)) in
    let first : cd lookup name w ≡ there =
      cd-found lookup name w child (ap (lookup ino) full ∙ down)
      ∙ (rw (full, not_here, not_up) refl) in
    ap (cd lookup (codes "..")) first
    ∙ cd-found lookup (codes "..") there ino (ap (lookup child) parent ∙ above)
    ∙ (rw parent (ap (λ (q : Line). record { ino = ino; path = q }) (up-into p name ok)))
