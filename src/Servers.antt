-- ===== src/Servers.antt =====
-- The system servers of egos-2000/apps/system and the calls of egos-2000/library/syscall/servers.c.
pub mod Requests
pub mod Terminal
pub mod Directory
pub mod Files
pub mod Processes
use operating_systems_compon.Base.{ℕ}

-- The sizes of egos-2000/library/syscall/servers.h.
abbrev pub cmd_nargs : ℕ
cmd_nargs = 16

abbrev pub cmd_arg_len : ℕ
cmd_arg_len = 32
