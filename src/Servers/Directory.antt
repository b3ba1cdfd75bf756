-- ===== src/Servers/Directory.antt =====
-- `dir_lookup` of egos-2000/library/syscall/servers.c. The text of a directory is the bytes of its
-- first block before the first 0.
pub mod Entries
pub mod Scanning
pub mod Numbers
pub mod Lookup
mod Tests
use operating_systems_compon.Base.{
  ℕ, zero, suc, ◌+◌, ◌-◌, ◌*◌, ◌≤◌, ◌<◌, Bool, true, false, ◌&&◌, ◌||◌, not, Option, none, some,
  List, [], ◌∷◌, ◌++◌, length, ltb, leb, ◌==◌, if◌then◌else◌, sub32, add32, mul32, Line,
}

-- `atoi`: white space, a sign, and digits.
pub is_white : ℕ → Bool
is_white c = c == 32 || leb 9 c && leb c 13

unfoldable pub is_digit : ℕ → Bool
is_digit c = leb b'0' c && leb c b'9'

unfoldable pub digits_from : (acc : ℕ) → Line → ℕ
digits_from acc [] = acc
digits_from acc (c ∷ s) =
    let rest = digits_from (add32 (mul32 acc 10) (c - b'0')) s in if is_digit c then rest else acc

pub signed_digits : Line → ℕ
signed_digits [] = 0
signed_digits (c ∷ s) =
    if c == b'-'
    then sub32 0 (digits_from 0 s)
    else (if c == b'+' then digits_from 0 s else digits_from 0 (c ∷ s))

pub atoi : Line → ℕ
atoi [] = 0
atoi (c ∷ s) = let rest = atoi s in if is_white c then rest else signed_digits (c ∷ s)

-- `!strncmp(name, s, namelen) && s[namelen] == ' '`.
pub followed : (name s : Line) → Bool
followed [] [] = false
followed [] (c ∷ s) = c == 32
followed (n ∷ name) [] = false
followed (n ∷ name) (c ∷ s) = n == c && followed name s

-- `buf + i + namelen`.
pub behind : (name s : Line) → Line
behind [] s = s
behind (n ∷ name) [] = []
behind (n ∷ name) (c ∷ s) = behind name s

-- The loop from the byte on at which `s` starts; `before` tells that it is the first one or stands
-- behind a space. The loop ends where no more bytes are left than the name has.
pub lookup_from : (name : Line) (before : Bool) → Line → Option ℕ
lookup_from name before [] = none
lookup_from name before (c ∷ s) =
    let rest = lookup_from name (c == 32) s in
    if ltb (length name) (length (c ∷ s))
    then (if before && followed name (c ∷ s) then some (atoi (behind name (c ∷ s))) else rest)
    else none

-- `none` where the text is shorter than the name: `strlen(buf) - namelen` wraps, and the loop reads
-- past the buffer. Else the number, or none for -1.
pub dir_lookup : (text name : Line) → Option (Option ℕ)
dir_lookup text name =
    if ltb (length text) (length name) then none else some (lookup_from name true text)
