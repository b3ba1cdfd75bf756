-- ===== src/StarterLoader/Tests.antt =====
-- Runs of the loader of group-16/starter/without-bonus/loader.c.
use operating_systems_compon.Base.{ℕ, ◌≡◌, refl, true, List, [], ◌∷◌}
use operating_systems_compon.StarterLoader.{
  Elf32Phdr, LoadAnswers, calls, undefined, has_entry, find_segment, start_of, load_and_run_elf,
}

abbrev text : Elf32Phdr
text = record { p_type = 1; p_offset = 0; p_vaddr = 4096; p_memsz = 100 }

abbrev answers : ℕ → List Elf32Phdr → LoadAnswers
answers entry phdrs = record {
  opened = true;
  ehdr_memory = true;
  ehdr_read = true;
  phdr_memory = true;
  phdr_seek = true;
  phdr_read = true;
  e_entry = entry;
  phdrs = phdrs;
  mmap = λ start size offset. start;
}

runs_entry : load_and_run_elf (answers 4100 (text ∷ [])) ≡ calls 4100
unfolding load_and_run_elf start_of find_segment has_entry
runs_entry = refl

-- The address behind the segment is called as well.
runs_behind : load_and_run_elf (answers 4196 (text ∷ [])) ≡ calls 4196
unfolding load_and_run_elf start_of find_segment has_entry
runs_behind = refl

runs_nothing : load_and_run_elf (answers 4100 []) ≡ undefined
unfolding load_and_run_elf start_of find_segment has_entry
runs_nothing = refl
