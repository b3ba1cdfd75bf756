-- ===== src/StarterLoader.antt =====
-- The loader of group-16/starter/without-bonus/loader.c. What the system answers is an argument: whether
-- the file opens, memory is there, and the reads and the seek are complete; the program headers that were
-- read; and the address that `mmap` returns.
mod Tests
use operating_systems_compon.Base.{
  ℕ, zero, suc, ◌+◌, ◌-◌, ◌%◌, ◌^◌, Bool, ◌&&◌, Option, none, some, List, [], ◌∷◌, leb, ◌==◌,
  if◌then◌else◌, add32, sub32,
}

-- `PT_LOAD`.
abbrev pub pt_load : ℕ
pt_load = 1

-- The fields of `Elf32_Phdr` that are read.
pub record Elf32Phdr : Type 0 where
  pub p_type : ℕ
  pub p_offset : ℕ
  pub p_vaddr : ℕ
  pub p_memsz : ℕ

-- The test of the loop: the end of the segment counts as inside.
pub has_entry : (entry : ℕ) → Elf32Phdr → Bool
has_entry entry ph =
    let end = add32 ph.p_vaddr ph.p_memsz in
    ph.p_type == pt_load && (leb ph.p_vaddr entry && leb entry end)

-- The loop over the program headers.
pub find_segment : (entry : ℕ) → List Elf32Phdr → Option Elf32Phdr
find_segment entry [] = none
find_segment entry (ph ∷ phs) =
    let rest = find_segment entry phs in if has_entry entry ph then some ph else rest

pub record LoadAnswers : Type 0 where
  pub opened : Bool
  pub ehdr_memory : Bool
  pub ehdr_read : Bool
  pub phdr_memory : Bool
  pub phdr_seek : Bool
  pub phdr_read : Bool
  pub e_entry : ℕ
  pub phdrs : List Elf32Phdr
  pub mmap : (start size offset : ℕ) → ℕ

-- The address that is called, a return with a message, or, where no segment is found, the read of
-- the header behind the last one.
pub data Run : Type 0 where
  calls : ℕ → Run
  returns : Run
  undefined : Run

pub start_of : LoadAnswers → Option Elf32Phdr → Run
start_of w none = undefined
start_of w (some ph) =
    calls (add32 (w.mmap ph.p_vaddr ph.p_memsz ph.p_offset) (sub32 w.e_entry ph.p_vaddr))

pub load_and_run_elf : LoadAnswers → Run
load_and_run_elf w =
    if w.opened
      && (w.ehdr_memory && (w.ehdr_read && (w.phdr_memory && (w.phdr_seek && w.phdr_read))))
    then start_of w (find_segment w.e_entry w.phdrs)
    else returns
