-- ===== src/Servers/Processes.antt =====
-- The process server egos-2000/apps/system/sys_proc.c. It calls `proc_alloc`, `proc_set_ready` and
-- `proc_free` of the kernel, `elf_load`, and the file server through `dir_lookup` and `file_read`; the
-- argument `file` is what a buffer holds after `file_read` of an inode and an offset.
-- `none` is a FATAL stop, or an access behind a buffer.
pub mod Loading
pub mod Spawn
mod Tests
use operating_systems_compon.Base.{
  ℕ, zero, suc, ◌+◌, ◌-◌, ◌/◌, ◌%◌, ◌^◌, Bool, true, false, ◌&&◌, ◌||◌, not, Option, none, some,
  ◌>>=◌, ◌>>◌, List, [], ◌∷◌, ltb, leb, ◌==◌, if◌then◌else◌, Line, codes, minus_one,
}
use operating_systems_compon.Mmu.{Page}
use operating_systems_compon.Process.{Stats, proc_alloc, proc_set_ready, proc_free, gpid_all}
use operating_systems_compon.Elf.{Reader, elf_load}
use operating_systems_compon.Kernel.System.{System, with_procs, with_mmu, release_of, after_release}
use operating_systems_compon.Servers.{cmd_nargs, cmd_arg_len}
use operating_systems_compon.Servers.Requests.{Argv}
use operating_systems_compon.Servers.Directory.{dir_lookup}

-- `struct proc_request`.
pub record ProcRequest : Type 0 where
  pub kind : ℕ
  pub argc : ℕ
  pub argv : Argv

abbrev pub proc_spawn : ℕ
proc_spawn = 0

abbrev pub proc_exit : ℕ
proc_exit = 1

abbrev pub proc_killall : ℕ
proc_killall = 2

abbrev pub cmd_ok : ℕ
cmd_ok = 0

abbrev pub cmd_error : ℕ
cmd_error = 1

-- What the server sends to the shell, if anything: the type of a `struct proc_reply`.
pub data Answer : Type 0 where
  silent : Answer
  to_shell : ℕ → Answer

-- The system, with the variables of the server and the statistics that were printed.
pub record Server : Type 0 where
  pub sys : System
  pub app_ino : ℕ
  pub app_pid : ℕ
  pub shell_waiting : Bool
  pub log : List Stats

-- A string in a buffer with `left` bytes from index `i` on; none without a 0.
pub text_from : (left i : ℕ) → Page → Option Line
text_from zero i buf = none
text_from (suc left) i buf =
    let rest = text_from left (i + 1) buf in
    if buf i == 0 then some [] else (rest >>= λ s. some (buf i ∷ s))

-- A new process with the program of the reader: `sys_spawn`, and the end of `app_spawn`.
pub load_process :
    (now : ℕ) → Reader → (argc : ℕ) → (argv : Option Page) → System → Option (ℕ × System)
load_process now reader argc argv sys = do
  a ← proc_alloc now sys.curr_pid sys.kernel.procs
  m ← elf_load a.pid reader argc argv sys.kernel.mmu
  some (
    a.pid,
    record {
      kernel = with_mmu m (with_procs (proc_set_ready a.pid a.procs) sys.kernel);
      curr_pid = a.curr_pid;
    },
  )

-- The program of a system server is read from the disk itself.
pub sys_spawn : (now : ℕ) → Reader → System → Option (ℕ × System)
sys_spawn now reader = load_process now reader 0 none

-- The number that `dir_lookup` returns.
abbrev pub number_of : Option ℕ → ℕ
number_of none = minus_one
number_of (some n) = n

-- `req->argv[req->argc - 1][0] == '&'`.
pub in_background : ProcRequest → Bool
in_background req = req.argv (req.argc - 1) 0 == b'&'

-- The arguments as the bytes of the message.
pub args_page : Argv → Page
args_page argv j = argv (j / cmd_arg_len) (j % cmd_arg_len)

module _ (file : (ino offset : ℕ) → Page) where
  -- `dir_lookup`, with the block of the directory from the file server.
  pub lookup : ℕ → Line → Option ℕ
  lookup dir_ino name = do
    text ← text_from 512 0 (file dir_ino 0)
    n ← dir_lookup text name
    some (number_of n)

  -- `app_spawn` behind the lookups.
  pub start_app : (now : ℕ) → ProcRequest → (ino : ℕ) → Server → Option (ℕ × Server)
  start_app now req ino srv =
      if leb (2 ^ 31) ino then some (cmd_error, record srv { app_ino = ino }) else (do
        (pid, sys) ←
            load_process now (file ino) (if in_background req then req.argc - 1 else req.argc)
              (some (args_page req.argv)) srv.sys
        some (cmd_ok, record srv { sys = sys; app_ino = ino; app_pid = pid }))

  pub app_spawn : (now : ℕ) → ProcRequest → Server → Option (ℕ × Server)
  app_spawn now req srv = do
    bin_ino ← lookup 0 (codes "bin/")
    name ← text_from cmd_arg_len 0 (req.argv 0)
    ino ← lookup bin_ino name
    start_app now req ino srv

  -- The first case of the switch. With no arguments, or too many, `argv` is read out of bounds.
  pub on_spawn : (now : ℕ) → ProcRequest → Server → Option (Answer × Server)
  on_spawn now req srv = if (req.argc == 0) || ltb cmd_nargs req.argc then none else (do
    (kind, srv') ← app_spawn now req srv
    some (
      to_shell kind,
      record srv' { shell_waiting = not (in_background req) && (kind == cmd_ok) },
    ))

  -- `proc_free`, with the times at which the slots are visited.
  pub release : (clock : ℕ → ℕ) → (pid : ℕ) → Server → Server
  release clock pid srv =
      let r = proc_free clock pid (release_of srv.log srv.sys.kernel) in
      record srv { sys = record srv.sys { kernel = after_release r srv.sys.kernel }; log = r.log }

  -- The reply of PROC_EXIT is the message itself.
  pub on_exit : (clock : ℕ → ℕ) → (sender : ℕ) → Server → Answer × Server
  on_exit clock sender srv = (
    if srv.shell_waiting && (srv.app_pid == sender) then to_shell proc_exit else silent,
    release clock sender srv,
  )

  -- A round of the loop of `main`.
  pub handle :
      (now : ℕ) → (clock : ℕ → ℕ) → (sender : ℕ) → ProcRequest → Server → Option (Answer × Server)
  handle now clock sender req srv =
      if req.kind == proc_spawn
      then on_spawn now req srv
      else if req.kind == proc_exit
      then some (on_exit clock sender srv)
      else if req.kind == proc_killall
      then some (silent, release clock gpid_all srv)
      else none
