-- ===== src/Kernel/Layout.antt =====
-- `struct syscall` of egos-2000/library/syscall/syscall.h in the bytes of a page: the type at offset
-- 0, then sender, receiver, 1024 bytes of content and the status, each `int` in four bytes, the
-- lowest first.
pub mod Roundtrip
use operating_systems_compon.Base.{
  ℕ, zero, suc, ◌+◌, ◌-◌, ◌*◌, ◌/◌, ◌%◌, ◌^◌, ◌≤◌, ◌<◌, ◌≡◌, refl, sym, ap, ◌∙◌, Bool, true, false,
  ◌&&◌, List, [], ◌∷◌, arith, ltb, leb, ◌==◌, if◌then◌else◌, length, get_or,
}
use operating_systems_compon.Mmu.{Page}
use operating_systems_compon.Process.{Syscall, CallStatus, pending, done}

-- `SYSCALL_MSG_LEN`.
abbrev pub syscall_msg_len : ℕ
syscall_msg_len = 1024

unfoldable pub load_word : Page → ℕ → ℕ
load_word p o = p o + 256 * p (o + 1) + 65536 * p (o + 2) + 16777216 * p (o + 3)

pub store_word : ℕ → ℕ → Page → Page
store_word o w p = λ j.
    if j == o
    then w % 256
    else if j == o + 1
    then w / 256 % 256
    else if j == o + 2
    then w / 65536 % 256
    else if j == o + 3
    then w / 16777216 % 256
    else p j

pub load_bytes : Page → ℕ → ℕ → List ℕ
load_bytes p o zero = []
load_bytes p o (suc n) = p o ∷ load_bytes p (o + 1) n

pub store_bytes : ℕ → List ℕ → Page → Page
store_bytes o xs p = λ j. if leb o j && ltb j (o + length xs) then get_or xs (j - o) 0 else p j

abbrev pub status_word : CallStatus → ℕ
status_word pending = 0
status_word done = 1

abbrev pub word_status : ℕ → CallStatus
word_status n = if n == 0 then pending else done

pub load_syscall : Page → Syscall
load_syscall p = record {
  kind = load_word p 0;
  sender = load_word p 4;
  receiver = load_word p 8;
  content = load_bytes p 12 syscall_msg_len;
  status = word_status (load_word p 1036);
}

pub store_syscall : Syscall → Page → Page
store_syscall sc p = store_word 1036 (status_word sc.status) (
    store_bytes 12 sc.content
      (store_word 8 sc.receiver (store_word 4 sc.sender (store_word 0 sc.kind p))))
