-- ===== src/Servers/Processes/Tests.antt =====
-- A system with two directories and one program, and instances of the theorems on the process server
-- of egos-2000/apps/system/sys_proc.c.
use operating_systems_compon.Base.{
  ℕ, ◌≡◌, refl, false, none, some, List, [], ◌∷◌, arith, ◌==◌, if◌then◌else◌, get_or, Line, codes,
  minus_one,
}
use operating_systems_compon.Mmu.{Page}
use operating_systems_compon.Elf.Tests.{file, fresh}
use operating_systems_compon.Kernel.System.{System, zero_process}
use operating_systems_compon.Servers.Directory.{is_digit, digits_from}
use operating_systems_compon.Servers.Directory.Entries.{
  Entry, directory_text, entry_text, spaces, find_entry,
}
use operating_systems_compon.Servers.Processes.Spawn.{IsDirectory, handle-not_found}
use operating_systems_compon.Servers.Processes.{
  Server, ProcRequest, to_shell, proc_spawn, cmd_error, text_from, handle,
}

abbrev entry : Line → Line → Entry
entry name digits = record { name = name; padding = 2; digits = digits }

abbrev root_entries : List Entry
root_entries = entry (codes "bin/") (codes "6") ∷ []

abbrev bin_entries : List Entry
bin_entries = entry (codes "echo") (codes "7") ∷ []

-- The bytes of a text, with zeros behind them.
abbrev page : Line → Page
page text j = get_or text j 0

-- Inode 0 is the root directory, 6 is bin/, and every other one has the program.
abbrev files : ℕ → ℕ → Page
files ino offset =
    if ino == 0
    then page (codes "bin/   6 ")
    else if ino == 6
    then page (codes "echo   7 ")
    else file offset

abbrev request : Line → ProcRequest
request name = record {
  kind = proc_spawn;
  argc = 1;
  argv = λ row column. if row == 0 then page name column else 0;
}

abbrev system : System
system = record {
  kernel = record {
    procs = λ _. zero_process;
    last_reset = 0;
    core_in_kernel = 0;
    core_to_proc_idx = λ _. 0;
    mmu = fresh;
    mtimecmp = λ _. 0;
  };
  curr_pid = 4;
}

abbrev server : Server
server = record { sys = system; app_ino = 0; app_pid = 0; shell_waiting = false; log = [] }

text_root : text_from 512 0 (files 0 0) ≡ some (directory_text root_entries)
unfolding text_from directory_text entry_text spaces
text_root = refl

text_bin : text_from 512 0 (files 6 0) ≡ some (directory_text bin_entries)
unfolding text_from directory_text entry_text spaces
text_bin = refl

root-IsDirectory : IsDirectory files 0 (codes "bin/") root_entries
unfolding directory_text entry_text spaces is_digit
root-IsDirectory = record {
  text = text_root;
  some_byte = refl;
  no_space = (refl, (refl, (refl, (refl, tt))));
  entries = (
    record {
      name_spaces = (refl, (refl, (refl, (refl, tt))));
      digit = (refl, tt);
      some_digit = omega arith;
      not_name = refl;
    },
    tt,
  );
  long = omega arith;
}

missing-IsDirectory : IsDirectory files 6 (codes "echa") bin_entries
unfolding directory_text entry_text spaces is_digit
missing-IsDirectory = record {
  text = text_bin;
  some_byte = refl;
  no_space = (refl, (refl, (refl, (refl, tt))));
  entries = (
    record {
      name_spaces = (refl, (refl, (refl, (refl, tt))));
      digit = (refl, tt);
      some_digit = omega arith;
      not_name = refl;
    },
    tt,
  );
  long = omega arith;
}

bin_found : find_entry (codes "bin/") root_entries ≡ some 6
unfolding find_entry digits_from is_digit
bin_found = refl

echa_missing : find_entry (codes "echa") bin_entries ≡ none
unfolding find_entry
echa_missing = refl

named_echa : text_from 32 0 ((request (codes "echa")).argv 0) ≡ some (codes "echa")
unfolding text_from
named_echa = refl

handle-not_found_example :
    handle files 30 (λ _. 40) 4 (request (codes "echa")) server
    ≡ some (to_shell cmd_error, record server { app_ino = minus_one; shell_waiting = false })
handle-not_found_example =
    handle-not_found files 30 (λ _. 40) 4 (request (codes "echa")) server (codes "echa") 6
      root_entries bin_entries refl (omega arith) (omega arith) named_echa root-IsDirectory
      bin_found missing-IsDirectory echa_missing
