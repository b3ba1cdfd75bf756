-- ===== src/Kernel/Layout/Roundtrip.antt =====
-- The copies of a `struct syscall` to and from a page, in egos-2000/grass/kernel.c.
use operating_systems_compon.Base.{
  ℕ, zero, suc, ◌+◌, ◌-◌, ◌^◌, ◌≤◌, ◌<◌, ◌≡◌, ◌⊎◌, inl, refl, ap, ◌∙◌, List, [], ◌∷◌, arith, length,
  get_or,
}
use operating_systems_compon.Mmu.{Page}
use operating_systems_compon.Process.{Syscall, CallStatus, pending, done}
use operating_systems_compon.Kernel.Layout.{
  syscall_msg_len, load_word, store_word, load_bytes, store_bytes, status_word, word_status,
  load_syscall, store_syscall,
}

load_word-store_word : (o w : ℕ) (p : Page) → w < 2 ^ 32 → load_word (store_word o w p) o ≡ w
unfolding load_word store_word
load_word-store_word o w p h = ground arith

-- Two pages agree on the four bytes from `o` on.
load_word-eq :
    (o : ℕ) (p q : Page)
    → p o ≡ q o
    → p (o + 1) ≡ q (o + 1)
    → p (o + 2) ≡ q (o + 2)
    → p (o + 3) ≡ q (o + 3)
    → load_word p o ≡ load_word q o
unfolding load_word
load_word-eq o p q a b c d = omega arith

store_word-ne : (o w : ℕ) (p : Page) (j : ℕ) → (j < o) ⊎ (o + 4 ≤ j) → store_word o w p j ≡ p j
unfolding store_word
store_word-ne o w p j h = ground arith

store_bytes-ne :
    (o : ℕ) (xs : List ℕ) (p : Page) (j : ℕ)
    → (j < o) ⊎ (o + length xs ≤ j)
    → store_bytes o xs p j ≡ p j
unfolding store_bytes
store_bytes-ne o xs p j h = ground arith

store_bytes-in :
    (o : ℕ) (xs : List ℕ) (p : Page) (i : ℕ)
    → i < length xs
    → store_bytes o xs p (o + i) ≡ get_or xs i 0
unfolding store_bytes
store_bytes-in o xs p i h = let e : o + i - o ≡ i = omega arith in rw e (ground arith)

load_word-store_word_ne :
    (o o' w : ℕ) (p : Page)
    → (o + 4 ≤ o') ⊎ (o' + 4 ≤ o)
    → load_word (store_word o' w p) o ≡ load_word p o
load_word-store_word_ne o o' w p h =
    load_word-eq o _ p (store_word-ne o' w p o (omega arith))
      (store_word-ne o' w p (o + 1) (omega arith)) (store_word-ne o' w p (o + 2) (omega arith))
      (store_word-ne o' w p (o + 3) (omega arith))

load_word-store_bytes :
    (o o' : ℕ) (xs : List ℕ) (p : Page)
    → (o + 4 ≤ o') ⊎ (o' + length xs ≤ o)
    → load_word (store_bytes o' xs p) o ≡ load_word p o
load_word-store_bytes o o' xs p h =
    load_word-eq o _ p (store_bytes-ne o' xs p o (omega arith))
      (store_bytes-ne o' xs p (o + 1) (omega arith)) (store_bytes-ne o' xs p (o + 2) (omega arith))
      (store_bytes-ne o' xs p (o + 3) (omega arith))

load_bytes-eq :
    (n : ℕ) (xs : List ℕ) (p : Page) (o : ℕ)
    → length xs ≡ n
    → ((i : ℕ) → i < n → p (o + i) ≡ get_or xs i 0)
    → load_bytes p o n ≡ xs
unfolding load_bytes
load_bytes-eq zero [] p o e h = refl
load_bytes-eq zero (x ∷ xs) p o e h = absurd (omega arith)
load_bytes-eq (suc n) [] p o e h = absurd (omega arith)
load_bytes-eq (suc n) (x ∷ xs) p o e h =
    let first : p o ≡ x = ap p (omega arith) ∙ h 0 (omega arith) in
    let rest =
      load_bytes-eq n xs p (o + 1) (omega arith)
        (λ i hi. ap p (omega arith) ∙ h (suc i) (omega arith)) in
    rw (first, rest)

word_status-status_word : (s : CallStatus) → word_status (status_word s) ≡ s
word_status-status_word pending = refl
word_status-status_word done = refl

status_word-lt : (s : CallStatus) → status_word s < 2 ^ 32
status_word-lt pending = omega arith
status_word-lt done = omega arith

-- The fields fit the layout.
pub record Fits (sc : Syscall) : Type 0 where
  pub kind : sc.kind < 2 ^ 32
  pub sender : sc.sender < 2 ^ 32
  pub receiver : sc.receiver < 2 ^ 32
  pub content : length sc.content ≡ syscall_msg_len

module _ (sc : Syscall) (p : Page) (v : Fits sc) where
  abbrev header : Page
  header = store_word 8 sc.receiver (store_word 4 sc.sender (store_word 0 sc.kind p))

  abbrev filled : Page
  filled = store_bytes 12 sc.content header

  -- A word of the header is not touched by what is stored behind it.
  load_word-filled :
      (o w : ℕ) → o + 4 ≤ 12 → load_word (store_word 1036 w filled) o ≡ load_word header o
  load_word-filled o w h =
      load_word-store_word_ne o 1036 w filled (inl (omega arith))
      ∙ load_word-store_bytes o 12 sc.content header (inl h)

  load_bytes-filled :
      (w : ℕ) → load_bytes (store_word 1036 w filled) 12 syscall_msg_len ≡ sc.content
  load_bytes-filled w =
      load_bytes-eq syscall_msg_len sc.content (store_word 1036 w filled) 12 v.content (λ i hi.
        store_word-ne 1036 w filled (12 + i) (inl (omega arith))
        ∙ store_bytes-in 12 sc.content header i (omega (arith, v.content)))

  kind-filled : (w : ℕ) → load_word (store_word 1036 w filled) 0 ≡ sc.kind
  kind-filled w =
      load_word-filled 0 w (omega arith)
      ∙ load_word-store_word_ne 0 8 _ _ (inl (omega arith))
      ∙ load_word-store_word_ne 0 4 _ _ (inl (omega arith))
      ∙ load_word-store_word 0 sc.kind p v.kind

  sender-filled : (w : ℕ) → load_word (store_word 1036 w filled) 4 ≡ sc.sender
  sender-filled w =
      load_word-filled 4 w (omega arith)
      ∙ load_word-store_word_ne 4 8 _ _ (inl (omega arith))
      ∙ load_word-store_word 4 sc.sender _ v.sender

  receiver-filled : (w : ℕ) → load_word (store_word 1036 w filled) 8 ≡ sc.receiver
  receiver-filled w =
      load_word-filled 8 w (omega arith) ∙ load_word-store_word 8 sc.receiver _ v.receiver

-- What the kernel copies to a page, user space reads from it, and the other way round.
pub load_syscall-store_syscall :
    (sc : Syscall) (p : Page) → Fits sc → load_syscall (store_syscall sc p) ≡ sc
unfolding load_syscall store_syscall
load_syscall-store_syscall sc p v =
    let w = status_word sc.status in
    rw (
      kind-filled sc p v w,
      sender-filled sc p v w,
      receiver-filled sc p v w,
      load_bytes-filled sc p v w,
      load_word-store_word 1036 w (filled sc p v) (status_word-lt sc.status),
      word_status-status_word sc.status,
    )
