-- ===== src/Servers/Directory/Numbers.antt =====
-- The number that `dir_lookup` of egos-2000/library/syscall/servers.c reads behind a name.
use operating_systems_compon.Base.{
  ℕ, zero, suc, ◌-◌, ◌<◌, ◌≡◌, refl, true, false, [], ◌∷◌, ◌++◌, length, ◌==◌, Line, All, add32,
  mul32, arith,
}
use operating_systems_compon.Servers.Directory.{
  is_white, is_digit, digits_from, signed_digits, atoi,
}
use operating_systems_compon.Servers.Directory.Entries.{NotSpace, spaces}

is_digit_space : is_digit 32 ≡ false
unfolding is_digit
is_digit_space = refl

digits_from-word :
    (acc : ℕ) (ds rest : Line)
    → All (λ c. is_digit c ≡ true) ds
    → digits_from acc (ds ++ (32 ∷ rest)) ≡ digits_from acc ds
unfolding digits_from
digits_from-word acc [] rest ok = rw is_digit_space refl
digits_from-word acc (c ∷ ds) rest (one, ok) =
    rw one (digits_from-word (add32 (mul32 acc 10) (c - b'0')) ds rest ok)

pub atoi-spaces : (n : ℕ) (s : Line) → atoi (spaces n s) ≡ atoi s
unfolding atoi spaces is_white
atoi-spaces zero s = refl
atoi-spaces (suc n) s = atoi-spaces n s

is_digit-not :
    (c : ℕ)
    → is_digit c ≡ true
    → (is_white c ≡ false) × ((c == b'-') ≡ false) × ((c == b'+') ≡ false) × ((c == 32) ≡ false)
unfolding is_digit is_white
is_digit-not c h = (ground arith, ground arith, ground arith, ground arith)

pub NotSpace-digits : (ds : Line) → All (λ c. is_digit c ≡ true) ds → All NotSpace ds
NotSpace-digits [] ok = tt
NotSpace-digits (c ∷ ds) (one, ok) =
    let (w, m, p, space) = is_digit-not c one in (space, NotSpace-digits ds ok)

pub atoi-digits :
    (ds rest : Line)
    → 0 < length ds
    → All (λ c. is_digit c ≡ true) ds
    → atoi (ds ++ (32 ∷ rest)) ≡ digits_from 0 ds
unfolding atoi signed_digits
atoi-digits [] rest lt ok = absurd (omega arith)
atoi-digits (c ∷ ds) rest lt (one, ok) =
    let (white, minus, plus, space) = is_digit-not c one in
    rw (white, minus, plus) (digits_from-word 0 (c ∷ ds) rest (one, ok))
