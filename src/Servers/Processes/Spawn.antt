-- ===== src/Servers/Processes/Spawn.antt =====
-- The requests of the shell to egos-2000/apps/system/sys_proc.c: PROC_SPAWN with its lookups in the
-- directories.
use operating_systems_compon.Base.{
  ℕ, suc, ◌+◌, ◌^◌, ◌≤◌, ◌<◌, ◌≡◌, refl, ap, ◌∙◌, Bool, true, false, not, ◌&&◌, none, some, List,
  [], length, All, arith, ltb, ◌==◌, Line, codes, same_text, minus_one, eq→==, ne→==,
}
use operating_systems_compon.Mmu.{Page}
use operating_systems_compon.Process.{unused, max_nprocess}
use operating_systems_compon.Process.Status.{IsTable}
use operating_systems_compon.Elf.{Reader, pheaders}
use operating_systems_compon.Elf.Pages.{free}
use operating_systems_compon.Elf.Program.{in_ram, all_pages}
use operating_systems_compon.Kernel.System.{System}
use operating_systems_compon.Servers.{cmd_nargs, cmd_arg_len}
use operating_systems_compon.Servers.Directory.Entries.{
  NotSpace, Entry, directory_text, find_entry, IsEntry,
}
use operating_systems_compon.Servers.Directory.Lookup.{dir_lookup-find_entry}
use operating_systems_compon.Servers.Processes.{
  Server, ProcRequest, to_shell, proc_spawn, cmd_ok, cmd_error, text_from, number_of, in_background,
  lookup, start_app, app_spawn, on_spawn, handle,
}

-- The first block of an inode is the text of a directory, in which the name can be looked up.
pub record IsDirectory (file : ℕ → ℕ → Page) (ino : ℕ) (name : Line) (es : List Entry)
    : Type 0 where
  pub text : text_from 512 0 (file ino 0) ≡ some (directory_text es)
  pub some_byte : same_text name [] ≡ false
  pub no_space : All NotSpace name
  pub entries : All (IsEntry name) es
  pub long : length name ≤ length (directory_text es)

-- What a server can start: some slot and enough pages for the file are unused.
pub record HasRoom (reader : Reader) (sys : System) : Type 0 where
  pub slot : ℕ
  pub low : 0 < slot
  pub high : slot < max_nprocess
  pub is_unused : (sys.kernel.procs slot).status ≡ unused
  pub table : IsTable sys.curr_pid sys.kernel.procs
  pub small : suc sys.curr_pid < 2 ^ 32
  pub pages : all_pages (in_ram (pheaders (reader 0))) + 4 ≤ free sys.kernel.mmu

module _ (file : ℕ → ℕ → Page) where
  lookup-find_entry :
      (ino : ℕ) (name : Line) (es : List Entry)
      → IsDirectory file ino name es
      → lookup file ino name ≡ some (number_of (find_entry name es))
  unfolding lookup
  lookup-find_entry ino name es d =
      rw (d.text, dir_lookup-find_entry name es d.some_byte d.no_space d.entries d.long) refl

  start_app-error :
      (now : ℕ) (req : ProcRequest) (srv : Server)
      → start_app file now req minus_one srv ≡ some (cmd_error, record srv { app_ino = minus_one })
  unfolding start_app
  start_app-error now req srv = refl

  -- The server behind a start.
  abbrev started : ℕ → System → (ino : ℕ) → Server → Server
  started pid sys ino srv = record srv { sys = sys; app_ino = ino; app_pid = pid }

  module _ (now : ℕ) (clock : ℕ → ℕ) (sender : ℕ) (req : ProcRequest) (srv : Server) (name : Line)
      (bin : ℕ) (root_entries entries : List Entry) (kind : req.kind ≡ proc_spawn)
      (some_arg : 0 < req.argc) (max_args : req.argc ≤ cmd_nargs)
      (named : text_from cmd_arg_len 0 (req.argv 0) ≡ some name)
      (root_dir : IsDirectory file 0 (codes "bin/") root_entries)
      (bin_found : find_entry (codes "bin/") root_entries ≡ some bin)
      (bin_dir : IsDirectory file bin name entries) where
    app_spawn-start :
        app_spawn file now req srv
        ≡ start_app file now req (number_of (find_entry name entries)) srv
    unfolding app_spawn
    app_spawn-start =
        let first = lookup-find_entry 0 (codes "bin/") root_entries root_dir in
        let second = lookup-find_entry bin name entries bin_dir in
        rw (first, bin_found, named, second) refl

    handle-on_spawn : handle file now clock sender req srv ≡ on_spawn file now req srv
    unfolding handle
    handle-on_spawn = rw (eq→== req.kind proc_spawn kind) refl

    on_spawn-result :
        (r : ℕ) (srv' : Server)
        → app_spawn file now req srv ≡ some (r, srv')
        → on_spawn file now req srv
          ≡ some
              (to_shell r, record srv' { shell_waiting = not (in_background req) && (r == cmd_ok) })
    unfolding on_spawn
    on_spawn-result r srv' h =
        let not_none : (req.argc == 0) ≡ false = ne→== req.argc 0 (omega arith) in
        let not_many : ltb cmd_nargs req.argc ≡ false = ground arith in
        rw (not_none, not_many, h) refl

    -- PROC_SPAWN, with 1 to 16 arguments, of a name without spaces, where inode 0 and bin/ are
    -- directories as mkfs.c writes them, whose numbers are not the name: if bin/ does not have the
    -- name, the shell gets CMD_ERROR and does not wait for a process, and the system and the last
    -- process of the server are as before.
    pub handle-not_found :
        find_entry name entries ≡ none
        → handle file now clock sender req srv
          ≡ some (to_shell cmd_error, record srv { app_ino = minus_one; shell_waiting = false })
    handle-not_found missing =
        let start = app_spawn-start ∙ ap (λ e. start_app file now req (number_of e) srv) missing in
        handle-on_spawn
        ∙ on_spawn-result cmd_error _ (start ∙ start_app-error now req srv)
        ∙ ap
            (λ (b : Bool).
              some (to_shell cmd_error, record srv { app_ino = minus_one; shell_waiting = b }))
            (never (in_background req))
      where
        never : (b : Bool) → (not b && (cmd_error == cmd_ok)) ≡ false
        never true = refl
        never false = refl
