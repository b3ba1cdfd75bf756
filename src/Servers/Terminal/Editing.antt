-- ===== src/Servers/Terminal/Editing.antt =====
-- `term_read` of egos-2000/library/syscall/servers.c against the editing of a line.
use operating_systems_compon.Base.{
  ℕ, zero, suc, sym, ◌∙◌, ◌+◌, ◌-◌, ◌≤◌, ◌<◌, ◌^◌, ◌≡◌, refl, inl, inr, Bool-cases, true, false,
  Option, none, some, List, [], ◌∷◌, ◌++◌, length, length-append, get_or, get_or-snoc, ltb, ◌==◌,
  if◌then◌else◌, ne→==, eq→==, update, update_ne, update_self, ℕ-cases, sub32, Line, arith,
}
use operating_systems_compon.Servers.Terminal.{
  TermRead, enter, backspace, after_writing, next_index, echo, entered, filled, read_from,
  term_read,
}

-- A line without its last byte.
unfoldable pub but_last : Line → Line
but_last [] = []
but_last (b ∷ []) = []
but_last (b ∷ c ∷ line) = b ∷ but_last (c ∷ line)

-- The line that is typed, up to Enter or up to its room, and what is left to read: a backspace takes
-- the last byte away, and every other byte is added.
unfoldable pub edited : (room : ℕ) (line : Line) → List ℕ → Option (Line × List ℕ)
edited room line [] = if ltb (length line) room then none else some (line, [])
edited room line (c ∷ typed) =
    let shorter = edited room (but_last line) typed in
    let longer = edited room (line ++ (c ∷ [])) typed in
    if ltb (length line) room
    then (if c == enter then some (line, typed) else (if c == backspace then shorter else longer))
    else some (line, c ∷ typed)

length-but_last : (line : Line) → length (but_last line) ≡ length line - 1
unfolding but_last
length-but_last [] = refl
length-but_last (b ∷ []) = refl
length-but_last (b ∷ c ∷ line) = omega (arith, length-but_last (c ∷ line))

get_or-but_last :
    (line : Line) (j : ℕ)
    → j < length (but_last line)
    → get_or (but_last line) j 0 ≡ get_or line j 0
unfolding but_last
get_or-but_last [] j lt = absurd (omega arith)
get_or-but_last (b ∷ []) j lt = absurd (omega arith)
get_or-but_last (b ∷ c ∷ line) zero lt = refl
get_or-but_last (b ∷ c ∷ line) (suc j) lt = get_or-but_last (c ∷ line) j (omega arith)

-- The bytes of a line stand at the start of a buffer.
abbrev pub Starts : Line → (ℕ → ℕ) → Type 0
Starts line buf = (j : ℕ) → j < length line → buf j ≡ get_or line j 0

-- What `term_read` gives for a line.
pub record IsLine (line : Line) (unread : List ℕ) (r : TermRead) : Type 0 where
  pub ret : r.ret ≡ (if length line == 0 then 0 else length line + 1)
  pub bytes : Starts line r.buf
  pub ended : r.buf (length line) ≡ 0
  pub left : r.unread ≡ unread

-- Both wait, or both end, with the same line.
pub data Agrees : Option (Line × List ℕ) → Option TermRead → Type 0 where
  both_wait : Agrees none none
  both_end :
      {line : Line} {unread : List ℕ} {r : TermRead}
      → IsLine line unread r
      → Agrees (some (line, unread)) (some r)

module _ (len room : ℕ) (fits : sub32 len 1 ≡ room) (positive : 0 < room)
    (same : len ≡ room + 1) where
  filled-IsLine :
      (line : Line) (buf : ℕ → ℕ) (unread : List ℕ)
      → length line ≡ room
      → Starts line buf
      → IsLine line unread (filled len buf unread)
  unfolding filled
  filled-IsLine line buf unread full starts =
      let not_empty : (length line == 0) ≡ false = ne→== _ _ (λ e. absurd (omega (arith, e))) in
      record {
        ret = rw not_empty (omega arith);
        bytes =
            λ j lt. update_ne buf (sub32 len 1) 0 j (λ e. absurd (omega (arith, e))) ∙ starts j lt;
        ended = update_self buf (sub32 len 1) 0 (length line) (omega arith);
        left = refl;
      }

  entered-IsLine :
      (line : Line) (buf : ℕ → ℕ) (unread : List ℕ)
      → Starts line buf
      → IsLine line unread (entered (length line) buf unread)
  unfolding entered
  entered-IsLine line buf unread starts = record {
    ret = refl;
    bytes = λ j lt. update_ne buf (length line) 0 j (λ e. absurd (omega (arith, e))) ∙ starts j lt;
    ended = update_self buf (length line) 0 (length line) refl;
    left = refl;
  }

  Agrees-after_writing :
      (out : List ℕ) (e : Option (Line × List ℕ)) (r : Option TermRead)
      → Agrees e r
      → Agrees e (after_writing out r)
  unfolding after_writing
  Agrees-after_writing out none none both_wait = both_wait
  Agrees-after_writing out none (some r) agrees = elim agrees [ ]
  Agrees-after_writing out (some (line, unread)) none agrees = elim agrees [ ]
  Agrees-after_writing out (some (line, unread)) (some r) (both_end is) =
      both_end (record { ret = is.ret; bytes = is.bytes; ended = is.ended; left = is.left })

  -- The buffer behind a byte that is added, or taken away.
  Starts-longer :
      (line : Line) (c : ℕ) (buf : ℕ → ℕ)
      → Starts line buf
      → Starts (line ++ (c ∷ [])) (update buf (length line) c)
  Starts-longer line c buf starts j lt = elim (ℕ-cases (length line) j) [
    | inl e ↦
        update_self buf (length line) c j e
        ∙ sym (get_or-snoc line c j 0 ∙ (rw (eq→== (length line) j e) refl))
    | inr ne ↦
        update_ne buf (length line) c j ne
        ∙ starts j (omega (arith, length-append line (c ∷ [])))
        ∙ sym (get_or-snoc line c j 0 ∙ (rw (ne→== (length line) j ne) refl))
  ]

  Starts-shorter :
      (line : Line) (c : ℕ) (buf : ℕ → ℕ)
      → Starts line buf
      → Starts (but_last line) (update buf (length line) c)
  Starts-shorter line c buf starts j lt =
      let e = length-but_last line in
      update_ne buf (length line) c j (λ z. absurd (omega (arith, z, e)))
      ∙ starts j (omega (arith, e))
      ∙ sym (get_or-but_last line j lt)

  -- The steps of the two.
  module _ (line : Line) (buf : ℕ → ℕ) (c : ℕ) (typed : List ℕ) where
    step_full :
        ltb (length line) room ≡ false
        → length line ≡ room
        → Starts line buf
        → Agrees (edited room line (c ∷ typed)) (read_from len (length line) buf (c ∷ typed))
    unfolding edited read_from
    step_full h full starts =
        rw (fits, h) (both_end (filled-IsLine line buf (c ∷ typed) full starts))

    step_enter :
        ltb (length line) room ≡ true
        → (c == enter) ≡ true
        → Starts line buf
        → Agrees (edited room line (c ∷ typed)) (read_from len (length line) buf (c ∷ typed))
    unfolding edited read_from
    step_enter h e starts = rw (fits, h, e) (both_end (entered-IsLine line buf typed starts))

    step_shorter :
        ltb (length line) room ≡ true
        → (c == enter) ≡ false
        → (c == backspace) ≡ true
        → Agrees
            (edited room (but_last line) typed)
            (read_from len (length (but_last line)) (update buf (length line) c) typed)
        → Agrees (edited room line (c ∷ typed)) (read_from len (length line) buf (c ∷ typed))
    unfolding edited read_from next_index
    step_shorter h e b rest =
        rw (fits, h, e, b)
          (Agrees-after_writing (echo c (length line)) _ _ (rw (length-but_last line) at rest))

    step_longer :
        ltb (length line) room ≡ true
        → (c == enter) ≡ false
        → (c == backspace) ≡ false
        → Agrees
            (edited room (line ++ (c ∷ [])) typed)
            (read_from len (length line + 1) (update buf (length line) c) typed)
        → Agrees (edited room line (c ∷ typed)) (read_from len (length line) buf (c ∷ typed))
    unfolding edited read_from next_index
    step_longer h e b rest =
        rw (fits, h, e, b) (Agrees-after_writing (echo c (length line)) _ _ rest)

  step_end :
      (line : Line) (buf : ℕ → ℕ)
      → length line ≤ room
      → Starts line buf
      → Agrees (edited room line []) (read_from len (length line) buf [])
  unfolding edited read_from
  step_end line buf le starts = elim (Bool-cases (ltb (length line) room)) [
    | inl h ↦ rw (fits, h) both_wait
    | inr h ↦ rw (fits, h) (both_end (filled-IsLine line buf [] (ground (arith, h)) starts))
  ]

  read_from-Agrees :
      (typed : List ℕ) (line : Line) (buf : ℕ → ℕ)
      → length line ≤ room
      → Starts line buf
      → Agrees (edited room line typed) (read_from len (length line) buf typed)
  read_from-Agrees [] line buf le starts = step_end line buf le starts
  read_from-Agrees (c ∷ typed) line buf le starts = elim (Bool-cases (ltb (length line) room)) [
    | inr h ↦ step_full line buf c typed h (ground (arith, h)) starts
    | inl h ↦ elim (Bool-cases (c == enter)) [
      | inl e ↦ step_enter line buf c typed h e starts
      | inr e ↦ elim (Bool-cases (c == backspace)) [
        | inl b ↦ step_shorter line buf c typed h e b (
            read_from-Agrees typed (but_last line) (update buf (length line) c)
              (omega (arith, length-but_last line)) (Starts-shorter line c buf starts))
        | inr b ↦
            (let l : length (line ++ (c ∷ [])) ≡ length line + 1 = length-append line (c ∷ []) in
              let below : length line < room = ground (arith, h) in
              let rest =
                read_from-Agrees typed (line ++ (c ∷ [])) (update buf (length line) c)
                  (omega (arith, l)) (Starts-longer line c buf starts) in
              step_longer line buf c typed h e b (rw l at rest))
      ]
    ]
  ]

-- With a buffer of at least 2 bytes, `term_read` waits as long as the line that is edited waits, and
-- else leaves this line in the buffer, with a 0 behind it and the same bytes left to read; it returns
-- 0 for the empty line and the length with the 0 for another one.
pub term_read-Agrees :
    (len : ℕ) (buf : ℕ → ℕ) (typed : List ℕ)
    → 1 < len
    → len < 2 ^ 32
    → Agrees (edited (len - 1) [] typed) (term_read len buf typed)
unfolding term_read
term_read-Agrees len buf typed two small =
    read_from-Agrees len (len - 1) (omega arith) (omega arith) (omega arith) typed [] buf
      (omega arith) (λ j lt. absurd (omega arith))
