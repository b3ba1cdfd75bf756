-- ===== src/Loader/Tests.antt =====
-- A segment with 100 bytes of file and a BSS behind them, and the theorems of
-- group-16-4/SimpleSmartLoader.c applied to it.
use operating_systems_compon.Base.{
  ℕ, ◌+◌, ◌-◌, ◌%◌, ◌<◌, ◌≤◌, ◌≡◌, refl, inl, ◌&&◌, true, some, [], ◌∷◌, ltb, leb, if◌then◌else◌,
  arith,
}
use operating_systems_compon.Loader.{
  page_size, Segment, Memory, System, Loader, page_of, writable, holds, mem_end, loader_map_segment,
  segv_handler,
}
use operating_systems_compon.Loader.Page.{IsSystem, IsSegment, IsLoaded}
use operating_systems_compon.Loader.Fault.{
  noted, loader_map_segment-IsLoaded, loader_map_segment-lost,
}
use operating_systems_compon.Loader.Handler.{
  Misses, misses_nil, misses_cons, counted, segv_handler-first,
}

-- A file whose bytes count up, and a system whose calls all succeed.
abbrev file : ℕ → ℕ
file offset = offset % 256

abbrev with_file : Memory → (base prot offset : ℕ) → Memory
with_file m base prot offset a =
    if leb base a && ltb a (base + page_size) then file (offset + (a - base)) else m a

abbrev with_zeros : Memory → (base prot : ℕ) → Memory
with_zeros m base prot a = if leb base a && ltb a (base + page_size) then 0 else m a

abbrev system : System
system = record {
  map_file = λ m base prot offset. some (with_file m base prot offset);
  map_zeros = λ m base prot. some (with_zeros m base prot);
  has_room = λ n. true;
}

system-IsSystem : IsSystem system file
system-IsSystem = record {
  file_page = with_file;
  zero_page = with_zeros;
  file_ok = λ m base prot offset. refl;
  zero_ok = λ m base prot. refl;
  room = λ n. refl;
  file_in = λ m base prot offset a from upto. ground arith;
  file_out = λ m base prot offset a out. ground arith;
  zero_in = λ m base prot a from upto. ground arith;
  zero_out = λ m base prot a out. ground arith;
}

abbrev text : Segment
text = record {
  p_type = 1;
  p_offset = 0;
  p_vaddr = 4096;
  p_filesz = 300;
  p_memsz = 300;
  p_flags = 5;
}

abbrev bss : Segment
bss = record {
  p_type = 1;
  p_offset = 4112;
  p_vaddr = 8208;
  p_filesz = 100;
  p_memsz = 6000;
  p_flags = 6;
}

bss-IsSegment : IsSegment bss
unfolding writable
bss-IsSegment = record {
  sizes = omega arith;
  fits = omega arith;
  offset_fits = omega arith;
  aligned = refl;
  bss_writable = λ lt. refl;
}

abbrev start : Loader
start = record {
  memory = λ a. 7;
  map_ranges = [];
  no_page_faults = 0;
  no_allocations = 0;
  no_internal_fragmentation = 0;
}

loader_map_segment-IsLoaded_example :
    (m' : Memory) × (loader_map_segment system bss 8210 start
      ≡ some (noted bss (page_of 8210) m' start))
    × IsLoaded file bss (page_of 8210) start.memory m'
loader_map_segment-IsLoaded_example =
    loader_map_segment-IsLoaded system-IsSystem bss bss-IsSegment 8210 (omega arith) (omega arith)
      start (inl (omega arith))

-- The page at 8192 has the 100 bytes of the file, and a fault at 9000 loses them.
loader_map_segment-lost_example :
    (m' : Memory) × (loader_map_segment system bss 9000 start
      ≡ some (noted bss (page_of 9000) m' start))
    × ((a : ℕ) → page_of 9000 ≤ a → a < page_of 9000 + page_size → m' a ≡ 0)
loader_map_segment-lost_example =
    loader_map_segment-lost system-IsSystem bss bss-IsSegment 9000 (omega arith) (omega arith) start
      (omega arith)

text-Misses : Misses 9000 (text ∷ [])
unfolding holds mem_end
text-Misses = misses_cons refl misses_nil

bss-holds : holds bss 9000 ≡ true
unfolding holds mem_end
bss-holds = refl

segv_handler-first_example :
    segv_handler system (text ∷ bss ∷ []) 9000 start
    ≡ loader_map_segment system bss 9000 (counted start)
segv_handler-first_example =
    segv_handler-first system 9000 (text ∷ []) bss [] start text-Misses bss-holds
