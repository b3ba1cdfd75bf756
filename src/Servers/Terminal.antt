-- ===== src/Servers/Terminal.antt =====
-- The terminal: `term_read` and `term_write` of egos-2000/library/syscall/servers.c in the kernel, and
-- the server of egos-2000/apps/system/sys_terminal.c. What is typed is an argument, a list of bytes;
-- `none` is a read that still waits.
pub mod Editing
mod Tests
use operating_systems_compon.Base.{
  ℕ, zero, suc, ◌+◌, ◌-◌, ◌%◌, ◌^◌, Bool, Option, none, some, List, [], ◌∷◌, ◌++◌, ltb, ◌==◌,
  if◌then◌else◌, update, sub32, Line,
}

abbrev pub term_buf_size : ℕ
term_buf_size = 512

abbrev pub enter : ℕ
enter = 13

abbrev pub backspace : ℕ
backspace = 127

-- What `term_read` returns, the buffer, the bytes that are left to read, and those written.
pub record TermRead : Type 0 where
  pub ret : ℕ
  pub buf : ℕ → ℕ
  pub unread : List ℕ
  pub written : List ℕ

pub after_writing : List ℕ → Option TermRead → Option TermRead
after_writing out none = none
after_writing out (some r) = some (record r { written = out ++ r.written })

-- The round is over with `i = i ? i - 2 : i - 1` or `i`, and `i++`.
pub next_index : (c i : ℕ) → ℕ
next_index c i = if c == backspace then i - 1 else i + 1

-- What a byte other than Enter writes.
pub echo : (c i : ℕ) → List ℕ
echo c i =
    if c == backspace
    then (if i == 0 then [] else 8 ∷ 32 ∷ 8 ∷ [])
    else (if c == 0 then [] else c ∷ [])

pub entered : (i : ℕ) (buf : ℕ → ℕ) (unread : List ℕ) → TermRead
entered i buf unread = record {
  ret = if i == 0 then 0 else i + 1;
  buf = update buf i 0;
  unread = unread;
  written = 10 ∷ 13 ∷ [];
}

pub filled : (len : ℕ) (buf : ℕ → ℕ) (unread : List ℕ) → TermRead
filled len buf unread = record {
  ret = len;
  buf = update buf (sub32 len 1) 0;
  unread = unread;
  written = [];
}

-- The loop from index `i` on.
pub read_from : (len i : ℕ) (buf : ℕ → ℕ) → List ℕ → Option TermRead
read_from len i buf [] = if ltb i (sub32 len 1) then none else some (filled len buf [])
read_from len i buf (c ∷ typed) =
    let rest = read_from len (next_index c i) (update buf i c) typed in
    if ltb i (sub32 len 1)
    then (if c == enter then some (entered i buf typed) else after_writing (echo c i) rest)
    else some (filled len buf (c ∷ typed))

pub term_read : (len : ℕ) (buf : ℕ → ℕ) → List ℕ → Option TermRead
term_read len buf typed = read_from len 0 buf typed

pub term_write : (str : ℕ → ℕ) (len i : ℕ) → List ℕ
term_write str zero i = []
term_write str (suc len) i = str i ∷ term_write str len (i + 1)

-- `struct term_request`; the type is 0 for TERM_INPUT and 1 for TERM_OUTPUT.
pub record TermRequest : Type 0 where
  pub kind : ℕ
  pub len : ℕ
  pub buf : ℕ → ℕ

-- What the server does with a request.
pub data TermAnswer : Type 0 where
  reply : TermRead → TermAnswer
  waiting : TermAnswer
  output : List ℕ → TermAnswer
  fatal : TermAnswer

pub reply_of : Option TermRead → TermAnswer
reply_of none = waiting
reply_of (some r) = reply r

-- A round of the loop of the server; the reply's buffer is read into where the request stood.
pub handle_request : TermRequest → (buf : ℕ → ℕ) → (typed : List ℕ) → TermAnswer
handle_request req buf typed =
    if ltb term_buf_size req.len
    then fatal
    else (if req.kind == 0
        then reply_of (term_read req.len buf typed)
        else (if req.kind == 1 then output (term_write req.buf req.len 0) else fatal))
