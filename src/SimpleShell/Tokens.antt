-- ===== src/SimpleShell/Tokens.antt =====
-- `parseInput` of group-16-2/simple-shell.c.c against the words of the line.
use operating_systems_compon.Base.{
  ℕ, zero, suc, ◌≤◌, ◌≡◌, refl, sym, ap, ◌∙◌, inl, inr, List-cases, Bool-cases, true, false, [],
  ◌∷◌, length, ◌==◌, Line, split, not_empty, words, words_separator, arith,
}
use operating_systems_compon.SimpleShell.{skip, token, next_token, parse_tokens, parse_input}

skip_space : (c : ℕ) (s : Line) → (c == b' ') ≡ true → skip (c ∷ s) ≡ skip s
unfolding skip
skip_space c s h = rw h refl

skip_other : (c : ℕ) (s : Line) → (c == b' ') ≡ false → skip (c ∷ s) ≡ c ∷ s
unfolding skip
skip_other c s h = rw h refl

skip_nil : skip [] ≡ []
unfolding skip
skip_nil = refl

-- Skipping separators loses no word.
words-skip : (s : Line) → words b' ' (skip s) ≡ words b' ' s
words-skip [] = ap (words b' ') skip_nil
words-skip (c ∷ s) = elim (Bool-cases (c == b' ')) [
  | inl h ↦ ap (words b' ') (skip_space c s h) ∙ words-skip s ∙ sym (words_separator b' ' c s h)
  | inr h ↦ ap (words b' ') (skip_other c s h)
]

-- The rest does not start with one.
skip-head : (s : Line) (c : ℕ) (r : Line) → skip s ≡ c ∷ r → (c == b' ') ≡ false
skip-head [] c r e = cc (skip_nil)
skip-head (d ∷ s) c r e = elim (Bool-cases (d == b' ')) [
  | inl h ↦ skip-head s c r (sym (skip_space d s h) ∙ e)
  | inr h ↦ let same : c ≡ d = cc (skip_other d s h) in rw same h
]

length-skip : (s : Line) → length (skip s) ≤ length s
unfolding skip
length-skip [] = omega arith
length-skip (c ∷ s) = ground (arith, length-skip s)

-- A token is the first part of the line, and the other parts are the words of what is left.
token-split : (s : Line) → (token s).0 ≡ (split b' ' s).0
unfolding token split
token-split [] = refl
token-split (c ∷ s) = elim (Bool-cases (c == b' ')) [
  | inl h ↦ rw h refl
  | inr h ↦ rw h (ap (◌∷◌ c) (token-split s))
]

token-words : (s : Line) → not_empty (split b' ' s).1 ≡ words b' ' (token s).1
unfolding token split words not_empty
token-words [] = refl
token-words (c ∷ s) = elim (Bool-cases (c == b' ')) [
  | inl h ↦ rw h refl
  | inr h ↦ rw h (token-words s)
]

length-token : (s : Line) → length (token s).1 ≤ length s
unfolding token
length-token [] = omega arith
length-token (c ∷ s) = elim (Bool-cases (c == b' ')) [
  | inl h ↦ rw h (omega arith)
  | inr h ↦ rw h (omega (arith, length-token s))
]

token_other :
    (c : ℕ) (s : Line) → (c == b' ') ≡ false → token (c ∷ s) ≡ (c ∷ (token s).0, (token s).1)
unfolding token
token_other c s h = rw h refl

words-cons :
    (c : ℕ) (s : Line)
    → (c == b' ') ≡ false
    → words b' ' (c ∷ s) ≡ (c ∷ (split b' ' s).0) ∷ not_empty (split b' ' s).1
unfolding words split not_empty
words-cons c s h = rw h refl

-- The words of a line that starts with a byte of a word: the token, and the words of what is left.
words-token :
    (c : ℕ) (s : Line)
    → (c == b' ') ≡ false
    → words b' ' (c ∷ s) ≡ (token (c ∷ s)).0 ∷ words b' ' (token (c ∷ s)).1
words-token c s h =
    words-cons c s h ∙ rw (token_other c s h) (rw (token-split s, token-words s) refl)

words_nil : words b' ' [] ≡ []
unfolding words split not_empty
words_nil = refl

length-token_less : (c : ℕ) (s : Line) → (c == b' ') ≡ false → length (token (c ∷ s)).1 ≤ length s
length-token_less c s h = rw (token_other c s h) (length-token s)

parse_tokens_zero : parse_tokens 0 [] ≡ []
unfolding parse_tokens
parse_tokens_zero = refl

parse_tokens-end : (fuel : ℕ) (s : Line) → skip s ≡ [] → parse_tokens (suc fuel) s ≡ []
unfolding parse_tokens next_token
parse_tokens-end fuel s e = rw (e, parse_tokens) refl

parse_tokens-next :
    (fuel : ℕ) (s : Line) (c : ℕ) (r : Line)
    → skip s ≡ c ∷ r
    → parse_tokens (suc fuel) s ≡ (token (c ∷ r)).0 ∷ parse_tokens fuel (token (c ∷ r)).1
unfolding parse_tokens next_token
parse_tokens-next fuel s c r e = rw (e, parse_tokens) refl

-- Any fuel that is at least the length of the line is enough.
parse_tokens-words : (fuel : ℕ) (s : Line) → length s ≤ fuel → parse_tokens fuel s ≡ words b' ' s
parse_tokens-words zero [] le = parse_tokens_zero ∙ sym words_nil
parse_tokens-words zero (c ∷ s) le = absurd (omega arith)
parse_tokens-words (suc fuel) s le = elim (List-cases (skip s)) [
  | inl e ↦ parse_tokens-end fuel s e ∙ sym words_nil ∙ ap (words b' ') (sym e) ∙ words-skip s
  | inr (c, r, e) ↦
      let h = skip-head s c r e in
      let shorter : length (token (c ∷ r)).1 ≤ fuel =
        omega (arith, length-skip s, ap length e, length-token_less c r h) in
      parse_tokens-next fuel s c r e
      ∙ ap (◌∷◌ (token (c ∷ r)).0) (parse_tokens-words fuel (token (c ∷ r)).1 shorter)
      ∙ sym (words-token c r h)
      ∙ ap (words b' ') (sym e)
      ∙ words-skip s
]

-- `parseInput` gives the words of the line between spaces: the parts of the line between two
-- separators, less the empty ones.
pub parse_input-words : (s : Line) → parse_input s ≡ words b' ' s
unfolding parse_input
parse_input-words s = parse_tokens-words (length s) s (omega arith)
