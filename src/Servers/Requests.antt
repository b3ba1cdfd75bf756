-- ===== src/Servers/Requests.antt =====
-- `parse_request` of egos-2000/apps/system/sys_shell.c: the arguments of a command line.
pub mod Cells
pub mod Scanning
pub mod Words
mod Tests
use operating_systems_compon.Base.{
  ℕ, zero, suc, ◌+◌, Bool, Option, none, some, List, [], ◌∷◌, leb, ◌==◌, if◌then◌else◌, update,
  Line,
}
use operating_systems_compon.Servers.{cmd_nargs, cmd_arg_len}

-- `argv` as a function of the argument and the byte.
abbrev pub Argv : Type 0
Argv = ℕ → ℕ → ℕ

pub put_byte : (row column byte : ℕ) → Argv → Argv
put_byte row column byte argv = update argv row (update (argv row) column byte)

-- The variables of the loop.
pub record Scan : Type 0 where
  pub argv : Argv
  pub nargs : ℕ
  pub idx : ℕ

pub scan_start : Scan
scan_start = record { argv = λ row column. 0; nargs = 0; idx = 0 }

-- A byte of an argument; none is `return -1`.
pub scan_byte : ℕ → Scan → Option Scan
scan_byte c s =
    if leb cmd_arg_len (s.idx + 1)
    then none
    else some (record s { argv = put_byte s.nargs s.idx c s.argv; idx = s.idx + 1 })

-- A space behind an argument.
pub scan_space : Scan → Option Scan
scan_space s =
    if leb cmd_nargs (s.nargs + 1)
    then none
    else some (record { argv = put_byte s.nargs s.idx 0 s.argv; nargs = s.nargs + 1; idx = 0 })

pub scan_one : ℕ → Scan → Option Scan
scan_one c s = if c == b' ' then (if s.idx == 0 then some s else scan_space s) else scan_byte c s

pub scan : Line → Scan → Option Scan
scan [] s = some s
scan (c ∷ buf) s = elim (scan_one c s) [ none ↦ none | some s' ↦ scan buf s' ]

-- `argc` and `argv`.
pub argc_of : Scan → ℕ
argc_of s = if s.idx == 0 then s.nargs else s.nargs + 1

pub parse_request : Line → Option (ℕ × Argv)
parse_request buf = elim (scan buf scan_start) [ none ↦ none | some s ↦ some (argc_of s, s.argv) ]
