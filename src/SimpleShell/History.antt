-- ===== src/SimpleShell/History.antt =====
-- The history of group-16-2/simple-shell.c.c as a window on all commands.
use operating_systems_compon.Base.{
  ℕ, zero, suc, ◌+◌, ◌-◌, ◌≤◌, ◌<◌, ◌≡◌, refl, sym, ap, ◌∙◌, inl, inr, ℕ-cases, List, [], ◌∷◌, ◌++◌,
  length, length-append, drop, ltb, leb, if◌then◌else◌, update, update_self, update_ne, lt→ltb,
  le→ltb, count_from, Line, arith,
}
use operating_systems_compon.SimpleShell.{
  Shell, max_history_size, shift_one, shift_down, add_to_history, listing, history_lines,
}

-- The loop moves the entries of its range down by one.
shift-at {ℓ} :
    {A : Type ℓ} (n i : ℕ) (a : ℕ → A) (j : ℕ)
    → count_from n i shift_one a j
      ≡ (if leb i j then (if ltb j (i + n) then a (j + 1) else a j) else a j)
unfolding count_from shift_one
shift-at zero i a j = ground arith
shift-at (suc n) i a j = ground (arith, shift-at n (i + 1) (shift_one i a) j)

shift_down-at {ℓ} : {A : Type ℓ} (a : ℕ → A) (j : ℕ) → j < 499 → shift_down a j ≡ a (j + 1)
unfolding shift_down
shift_down-at a j lt = shift-at 499 0 a j ∙ rw (lt→ltb j (0 + 499) lt) (ground arith)

length-listing : (n i : ℕ) (sh : Shell) → length (listing n i sh) ≡ n
unfolding listing
length-listing zero i sh = refl
length-listing (suc n) i sh = omega (arith, length-listing n (i + 1) sh)

listing-snoc :
    (n i : ℕ) (sh : Shell) → listing (suc n) i sh ≡ listing n i sh ++ (sh.history (i + n) ∷ [])
unfolding listing
listing-snoc zero i sh = let e : i + 0 ≡ i = omega arith in rw e refl
listing-snoc (suc n) i sh =
    let e : i + suc n ≡ i + 1 + n = omega arith in
    rw e (ap (◌∷◌ (sh.history i)) (listing-snoc n (i + 1) sh))

-- Two histories that agree, at a distance, have the same lines there.
listing-eq :
    (n i k : ℕ) (sh sh' : Shell)
    → ((j : ℕ) → i ≤ j → j < i + n → sh'.history j ≡ sh.history (j + k))
    → listing n i sh' ≡ listing n (i + k) sh
unfolding listing
listing-eq zero i k sh sh' same = refl
listing-eq (suc n) i k sh sh' same =
    let e : i + k + 1 ≡ i + 1 + k = omega arith in
    rw (same i (omega arith) (omega arith), e)
      (ap (◌∷◌ (sh.history (i + k)))
        (listing-eq n (i + 1) k sh sh' (λ j lo hi. same j (omega arith) (omega arith))))

-- The history without its oldest lines, so that it fits.
unfoldable pub newest : List Line → List Line
newest lines = drop (length lines - max_history_size) lines

length-history_lines : (sh : Shell) → length (history_lines sh) ≡ sh.history_count
unfolding history_lines
length-history_lines sh = length-listing sh.history_count 0 sh

drop_none : {A : Type 0} (k : ℕ) (xs : List A) → k ≡ 0 → drop k xs ≡ xs
drop_none k xs e = rw e refl

newest-short : (lines : List Line) → length lines ≤ max_history_size → newest lines ≡ lines
unfolding newest
newest-short lines le = drop_none (length lines - max_history_size) lines (omega arith)

newest-full :
    (line : Line) (lines : List Line)
    → length lines ≡ max_history_size
    → newest (line ∷ lines) ≡ lines
unfolding newest
newest-full line lines e = let one : suc (length lines) - 500 ≡ 1 = omega arith in rw one refl

listing-cons : (n i : ℕ) (sh : Shell) → listing (suc n) i sh ≡ sh.history i ∷ listing n (i + 1) sh
unfolding listing
listing-cons n i sh = refl

-- A history that has another's lines from `k` on, and one line more.
listing-last :
    (n k : ℕ) (sh sh' : Shell) (line : Line)
    → ((j : ℕ) → j < n → sh'.history j ≡ sh.history (j + k))
    → sh'.history n ≡ line
    → listing (suc n) 0 sh' ≡ listing n (0 + k) sh ++ (line ∷ [])
listing-last n k sh sh' line same last =
    listing-snoc n 0 sh'
    ∙ rw (listing-eq n 0 k sh sh' (λ j lo hi. same j (omega arith)))
        (let e : 0 + n ≡ n = omega arith in rw (e, last) refl)

module _ (command : Line) (sh : Shell) where
  add_to_history-count :
      (add_to_history command sh).history_count
      ≡ (if ltb sh.history_count max_history_size then sh.history_count + 1 else sh.history_count)
  unfolding add_to_history
  add_to_history-count = ground arith

  add_to_history-room :
      sh.history_count < max_history_size
      → (add_to_history command sh).history ≡ update sh.history sh.history_count command
  unfolding add_to_history
  add_to_history-room room = rw (lt→ltb sh.history_count max_history_size room) refl

  add_to_history-full :
      max_history_size ≤ sh.history_count
      → (add_to_history command sh).history ≡ update (shift_down sh.history) 499 command
  unfolding add_to_history
  add_to_history-full full = rw (le→ltb sh.history_count max_history_size full) refl

  room-listing :
      sh.history_count < max_history_size
      → listing (suc sh.history_count) 0 (add_to_history command sh)
        ≡ listing sh.history_count (0 + 0) sh ++ (command ∷ [])
  room-listing room =
      listing-last sh.history_count 0 sh (add_to_history command sh) command
        (λ j lt. rw (add_to_history-room room) (
          let e : j + 0 ≡ j = omega arith in
          rw e (update_ne sh.history sh.history_count command j (omega arith))))
        (rw (add_to_history-room room)
          (update_self sh.history sh.history_count command sh.history_count refl))

  full-listing :
      max_history_size ≤ sh.history_count
      → listing 500 0 (add_to_history command sh) ≡ listing 499 (0 + 1) sh ++ (command ∷ [])
  full-listing full =
      listing-last 499 1 sh (add_to_history command sh) command
        (λ j lt. rw (add_to_history-full full) (
          update_ne (shift_down sh.history) 499 command j (omega arith)
          ∙ shift_down-at sh.history j lt))
        (rw (add_to_history-full full) refl)

  lines-count :
      (n : ℕ) (other : Shell) → other.history_count ≡ n → history_lines other ≡ listing n 0 other
  unfolding history_lines
  lines-count n other e = ap (λ k. listing k 0 other) e

  room-count :
      sh.history_count < max_history_size
      → (add_to_history command sh).history_count ≡ suc sh.history_count
  room-count room = add_to_history-count ∙ rw (lt→ltb _ _ room) (omega arith)

  full-count : sh.history_count ≡ max_history_size → (add_to_history command sh).history_count ≡ 500
  full-count full =
      add_to_history-count ∙ rw (le→ltb sh.history_count max_history_size (omega arith)) full

  room-newest :
      sh.history_count < max_history_size
      → history_lines (add_to_history command sh) ≡ newest (history_lines sh ++ (command ∷ []))
  room-newest room =
      let short : length (history_lines sh ++ (command ∷ [])) ≤ max_history_size =
        omega (arith, length-append (history_lines sh) (command ∷ []), length-history_lines sh) in
      lines-count (suc sh.history_count) (add_to_history command sh) (room-count room)
      ∙ room-listing room
      ∙ ap (λ ls. ls ++ (command ∷ [])) (sym (lines-count sh.history_count sh refl))
      ∙ sym (newest-short (history_lines sh ++ (command ∷ [])) short)

  full-newest :
      sh.history_count ≡ max_history_size
      → history_lines (add_to_history command sh) ≡ newest (history_lines sh ++ (command ∷ []))
  full-newest full =
      let tail = listing 499 (0 + 1) sh ++ (command ∷ []) in
      let long : length tail ≡ max_history_size = omega (
        arith,
        length-append (listing 499 (0 + 1) sh) (command ∷ []),
        length-listing 499 (0 + 1) sh,
      ) in
      let whole : history_lines sh ++ (command ∷ []) ≡ sh.history 0 ∷ tail =
        ap (λ ls. ls ++ (command ∷ [])) (lines-count 500 sh full ∙ listing-cons 499 0 sh) in
      lines-count 500 (add_to_history command sh) (full-count full)
      ∙ full-listing (omega arith)
      ∙ sym (newest-full (sh.history 0) tail long)
      ∙ ap newest (sym whole)

  -- With a history that fits, a command is added at its end, and the oldest lines go so that it still
  -- fits: it shows the newest 500 commands, in order.
  pub history_lines-add_to_history :
      sh.history_count ≤ max_history_size
      → (history_lines (add_to_history command sh) ≡ newest (history_lines sh ++ (command ∷ [])))
        × ((add_to_history command sh).history_count ≤ max_history_size)
  history_lines-add_to_history fits = elim (ℕ-cases sh.history_count max_history_size) [
    | inl full ↦ (full-newest full, omega (arith, full-count full))
    | inr ne ↦ (room-newest (omega arith), omega (arith, room-count (omega arith)))
  ]
