-- ===== src/Elf.antt =====
-- `elf_load` of egos-2000/library/elf/elf.c, over the pages of egos-2000/earth/cpu_mmu.c with the
-- software TLB. The file is an argument, `reader`, from the block number to the bytes of the buffer;
-- what a buffer holds behind its 512 bytes is what stands there in memory.
pub mod Pages
pub mod Copying
pub mod Blocks
pub mod Rounds
pub mod Loading
pub mod Program
pub mod Aligned
pub mod Tests
use operating_systems_compon.Base.{
  ℕ, zero, suc, ◌+◌, ◌-◌, ◌*◌, ◌/◌, ◌%◌, ◌^◌, Bool, Option, none, some, ◌>>=◌, List, [], ◌∷◌, leb,
  ltb, ◌==◌, ◌&&◌, if◌then◌else◌, update, count_from, add32,
}
use operating_systems_compon.Mmu.{
  Mmu, Page, page_size, apps_pages_base, frame, mmu_alloc, soft_tlb_map,
}
use operating_systems_compon.Kernel.{apps_arg, syscall_arg}
use operating_systems_compon.Kernel.Layout.{load_word, store_word}
use operating_systems_compon.Servers.{cmd_nargs, cmd_arg_len}

abbrev pub ram_start : ℕ
ram_start = 0x80000000

abbrev pub apps_stack_top : ℕ
apps_stack_top = 0x80400000

abbrev pub block_size : ℕ
block_size = 512

abbrev pub Reader : Type 0
Reader = ℕ → Page

-- The fields of `struct elf32_program_header` that are read.
pub record ProgramHeader : Type 0 where
  pub p_offset : ℕ
  pub p_vaddr : ℕ
  pub p_filesz : ℕ
  pub p_memsz : ℕ

pub segment_at : Page → (o : ℕ) → ProgramHeader
segment_at hbuf o = record {
  p_offset = load_word hbuf (o + 4);
  p_vaddr = load_word hbuf (o + 8);
  p_filesz = load_word hbuf (o + 16);
  p_memsz = load_word hbuf (o + 20);
}

-- `pheader[i]` for the next `left` indices.
pub segments_from : (left o : ℕ) → Page → List ProgramHeader
segments_from zero o hbuf = []
segments_from (suc left) o hbuf = segment_at hbuf o ∷ segments_from left (o + 32) hbuf

pub e_phoff : Page → ℕ
e_phoff hbuf = load_word hbuf 28

pub e_phnum : Page → ℕ
e_phnum hbuf = hbuf 44 + 256 * hbuf 45

pub pheaders : Page → List ProgramHeader
pheaders hbuf = segments_from (e_phnum hbuf) (e_phoff hbuf) hbuf

-- `mmu_alloc` and `mmu_map`.
pub map_page : (pid vpage_no : ℕ) → Mmu → Option (ℕ × Mmu)
map_page pid vpage_no s =
    mmu_alloc s.pages >>= λ (i, t). some (i, record s { pages = soft_tlb_map pid vpage_no i t })

-- The same with `memset` to 0.
pub map_zero_page : (pid vpage_no : ℕ) → Mmu → Option (ℕ × Mmu)
map_zero_page pid vpage_no s = map_page pid vpage_no s >>= λ (i, s').
    some (i, record s' { mem = update s'.mem (frame i) (λ j. 0) })

-- The variables of the loop over the blocks.
pub record Copy : Type 0 where
  pub mmu : Mmu
  pub ppage_id : ℕ
  pub curr_pageno : ℕ
  pub curr_blockno : ℕ

-- A page for every 8 blocks.
pub page_for : (pid off : ℕ) → Copy → Option Copy
page_for pid off c =
    if off % page_size == 0
    then (map_zero_page pid c.curr_pageno c.mmu >>= λ (i, s).
        some (record c { mmu = s; ppage_id = i; curr_pageno = c.curr_pageno + 1 }))
    else some c

-- `memcpy(page + at, buf, size)`.
pub put_bytes : (at size : ℕ) (buf : Page) → Page → Page
put_bytes at size buf page = λ j. if leb at j && ltb j (at + size) then buf (j - at) else page j

-- Sums with `off` do not wrap: a file part near 2^32 bytes needs more pages than there are.
pub size_of : (filesz off : ℕ) → ℕ
size_of filesz off = if ltb (off + block_size) filesz then block_size else filesz - off

pub put_block : (reader : Reader) (filesz off : ℕ) → Copy → Copy
put_block reader filesz off c =
    let i = frame c.ppage_id in
    let buf = reader c.curr_blockno in
    record c {
      mmu = record (c.mmu) {
        mem =
            update c.mmu.mem i (put_bytes (off % page_size) (size_of filesz off) buf (c.mmu.mem i));
      };
      curr_blockno = c.curr_blockno + 1;
    }

pub start_copy : ProgramHeader → Mmu → Copy
start_copy seg s = record {
  mmu = s;
  ppage_id = 0;
  curr_pageno = seg.p_vaddr / page_size;
  curr_blockno = seg.p_offset / block_size;
}

-- The rounds of the loop `for (off = 0; off < filesz; off += BLOCK_SIZE)`.
pub blocks_of : (filesz : ℕ) → ℕ
blocks_of filesz = (filesz + block_size - 1) / block_size

pub end_pageno : ProgramHeader → ℕ
end_pageno seg = add32 seg.p_vaddr seg.p_memsz / page_size

-- `while (curr_pageno < end_pageno)`.
pub zero_pages : (pid rounds curr_pageno : ℕ) → Mmu → Option Mmu
zero_pages pid zero curr_pageno s = some s
zero_pages pid (suc rounds) curr_pageno s =
    map_zero_page pid curr_pageno s >>= λ (i, s'). zero_pages pid rounds (curr_pageno + 1) s'

module _ (pid : ℕ) (reader : Reader) where
  pub copy_round : (filesz off : ℕ) → Copy → Option Copy
  copy_round filesz off c = page_for pid off c >>= λ c'. some (put_block reader filesz off c')

  pub copy_rounds : (filesz rounds off : ℕ) → Copy → Option Copy
  copy_rounds filesz zero off c = some c
  copy_rounds filesz (suc rounds) off c =
      copy_round filesz off c >>= copy_rounds filesz rounds (off + block_size)

  pub load_segment : ProgramHeader → Mmu → Option Mmu
  load_segment seg s =
      if ltb seg.p_vaddr ram_start
      then some s
      else copy_rounds seg.p_filesz (blocks_of seg.p_filesz) 0 (start_copy seg s) >>= λ c.
          zero_pages pid (end_pageno seg - c.curr_pageno) c.curr_pageno c.mmu

  pub load_segments : List ProgramHeader → Mmu → Option Mmu
  load_segments [] s = some s
  load_segments (seg ∷ segs) s = load_segment seg s >>= load_segments segs

-- `argv_addr[i]`, for `argc` indices.
pub argv_word : (i : ℕ) → Page → Page
argv_word i = store_word (4 + 4 * i) (apps_arg + 4 + 4 * cmd_nargs + i * cmd_arg_len)

-- `argc`, the strings where there are some, and the addresses of the strings.
pub put_args : (argc : ℕ) (argv : Option Page) → Page → Page
put_args argc argv page = count_from argc 0 argv_word (elim argv [
  | none ↦ store_word 0 argc page
  | some args ↦ put_bytes (4 + 4 * cmd_nargs) (argc * cmd_arg_len) args (store_word 0 argc page)
])

pub map_args : (pid argc : ℕ) (argv : Option Page) → Mmu → Option Mmu
map_args pid argc argv s = map_page pid (apps_arg / page_size) s >>= λ (i, s').
    some (record s' { mem = update s'.mem (frame i) (put_args argc argv (s'.mem (frame i))) })

-- The page of system calls and the two pages of the stack.
pub map_rest : (pid : ℕ) → Mmu → Option Mmu
map_rest pid s = map_page pid (syscall_arg / page_size) s >>= λ (i, s1).
    map_page pid (apps_stack_top / page_size - 1) s1 >>= λ (j, s2).
    map_page pid (apps_stack_top / page_size - 2) s2 >>= λ (k, s3). some s3

-- `elf_load`; `none` is the FATAL stop when no page is free.
pub elf_load : (pid : ℕ) (reader : Reader) (argc : ℕ) (argv : Option Page) → Mmu → Option Mmu
elf_load pid reader argc argv s = load_segments pid reader (pheaders (reader 0)) s >>= λ s1.
    map_args pid argc argv s1 >>= map_rest pid
