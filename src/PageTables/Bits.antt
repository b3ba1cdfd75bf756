-- ===== src/PageTables/Bits.antt =====
-- The words that `setup_identity_region` of egos-2000/earth/cpu_mmu.c writes into a leaf table.
use operating_systems_compon.Base.{
  ℕ, zero, suc, ap, ◌∙◌, ◌+◌, ◌*◌, ◌/◌, ◌%◌, ◌^◌, ◌<◌, ◌≡◌, ◌≢◌, refl, inl, inr, ℕ-cases, arith,
  update_ne, true, update_self, count_from-invariant,
}
use operating_systems_compon.PageTables.{user_rwx, or_bits, entry, set_entry, set_entries}
use operating_systems_compon.PageTables.Walk.{permits}

-- Powers of two.
power : ℕ → ℕ
power zero = 1
power (suc n) = 2 * power n

or_bits-bound : (bits a b : ℕ) → or_bits bits a b < power bits
unfolding or_bits power
or_bits-bound zero a b = omega arith
or_bits-bound (suc bits) a b = ground (arith, or_bits-bound bits (a / 2) (b / 2))

or_ten : (a b : ℕ) → or_bits 10 a b < 1024
unfolding power
or_ten a b = or_bits-bound 10 a b

-- An entry has the page number of the address, and those of user regions permit every access.
pub entry-page : (addr flag : ℕ) → entry addr flag / 1024 ≡ addr / 4096
unfolding entry
entry-page addr flag = omega (arith, or_ten (addr / 4 % 1024) flag)

-- Bits 8 and 9 are left to software.
user_bits : (k : ℕ) → k < 4 → or_bits 10 (k * 256) user_rwx ≡ k * 256 + 223
unfolding or_bits
user_bits zero lt = refl
user_bits (suc zero) lt = refl
user_bits (suc (suc zero)) lt = refl
user_bits (suc (suc (suc zero))) lt = refl
user_bits (suc (suc (suc (suc k)))) lt = absurd (omega arith)

pub entry-permits : (addr : ℕ) → addr % 1024 ≡ 0 → permits (entry addr user_rwx) ≡ true
unfolding entry permits
entry-permits addr aligned =
    let k = addr / 4 % 1024 / 256 in
    let bits : addr / 4 % 1024 ≡ k * 256 = omega (arith, aligned) in
    let word : addr / 4 / 1024 * 1024 + or_bits 10 (addr / 4 % 1024) user_rwx
        ≡ addr / 4 / 1024 * 1024 + (k * 256 + 223) =
      (ap (λ x. addr / 4 / 1024 * 1024 + or_bits 10 x user_rwx) bits
        ∙ ap (λ x. addr / 4 / 1024 * 1024 + x) (user_bits k (omega arith))) in
    let low : (addr / 4 / 1024 * 1024 + (k * 256 + 223)) % 32 ≡ 31 = omega arith in
    let high : (addr / 4 / 1024 * 1024 + (k * 256 + 223)) / 64 % 4 ≡ 3 = omega arith in
    rw (word, low, high) refl

-- The entries after `n` rounds.
pub record IsFilled (addr flag : ℕ) (old : ℕ → ℕ) (n : ℕ) (leaf : ℕ → ℕ) : Type 0 where
  pub filled :
      (i : ℕ) → i < n → leaf (addr / 4096 % 1024 + i) ≡ entry ((addr + i * 4096) % 2 ^ 32) flag
  pub others : (j : ℕ) → ((i : ℕ) → i < n → addr / 4096 % 1024 + i ≢ j) → leaf j ≡ old j

set_entry-IsFilled :
    (addr flag : ℕ) (old : ℕ → ℕ) (k : ℕ) (leaf : ℕ → ℕ)
    → IsFilled addr flag old k leaf
    → IsFilled addr flag old (k + 1) (set_entry addr flag k leaf)
unfolding set_entry
set_entry-IsFilled addr flag old k leaf is =
    let at = addr / 4096 % 1024 in
    let word = entry ((addr + k * 4096) % 2 ^ 32) flag in
    record {
      filled = λ i lt. elim (ℕ-cases k i) [
        | inl e ↦
            update_self leaf (at + k) word (at + i) (ap (λ j. at + j) e)
            ∙ ap (λ j. entry ((addr + j * 4096) % 2 ^ 32) flag) e
        | inr ne ↦
            update_ne leaf (at + k) word (at + i) (λ e. ne (omega (arith, e)))
            ∙ is.filled i (omega arith)
      ];
      others = λ j out.
          update_ne leaf (at + k) word j (out k (omega arith))
          ∙ is.others j (λ i lt. out i (omega arith));
    }

pub set_entries-IsFilled :
    (addr npages flag : ℕ) (old : ℕ → ℕ)
    → IsFilled addr flag old npages (set_entries addr npages flag old)
unfolding set_entries
set_entries-IsFilled addr npages flag old =
    count_from-invariant (IsFilled addr flag old) (set_entry addr flag) npages 0 npages
      (λ k leaf lo hi is. set_entry-IsFilled addr flag old k leaf is) old (omega arith)
      (record { filled = λ i lt. absurd (omega arith); others = λ j out. refl })
