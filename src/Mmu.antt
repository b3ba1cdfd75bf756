-- ===== src/Mmu.antt =====
-- Physical pages and the software TLB of egos-2000/earth/cpu_mmu.c.
-- `page_info_table` is a function of the page id, and memory a function of the physical page
-- number: page id `i` is page `frame i`, above all pages that applications are mapped to.
pub mod Alloc
pub mod Switch
pub mod Room
mod Tests
use operating_systems_compon.Base.{
  ℕ, zero, suc, ◌+◌, ◌-◌, ◌/◌, ◌%◌, ◌^◌, Bool, true, false, ◌&&◌, not, Option, none, some, ◌==◌,
  if◌then◌else◌, update, count_from, first_index, minus_one,
}

abbrev pub page_size : ℕ
page_size = 4096

abbrev pub ram_end : ℕ
ram_end = 0x80600000

abbrev pub apps_pages_base : ℕ
apps_pages_base = 0x80400000

-- `APPS_PAGES_CNT`.
abbrev pub apps_pages_cnt : ℕ
apps_pages_cnt = (ram_end - apps_pages_base) / page_size

-- `struct page_info`; `use` holds an `int` that is true unless it is 0.
pub record PageInfo : Type 0 where
  pub used : ℕ
  pub pid : ℕ
  pub vpage_no : ℕ

abbrev pub zero_info : PageInfo
zero_info = record { used = 0; pid = 0; vpage_no = 0 }

abbrev pub PageTable : Type 0
PageTable = ℕ → PageInfo

pub take_page : PageTable → Option ℕ → Option (ℕ × PageTable)
take_page t none = none
take_page t (some i) = some (i, update t i (record (t i) { used = 1 }))

-- `mmu_alloc`; `none` is the FATAL stop when no page is free.
pub mmu_alloc : PageTable → Option (ℕ × PageTable)
mmu_alloc t = take_page t (first_index (λ i. (t i).used == 0) apps_pages_cnt 0)

-- `page_info_table[i].use && page_info_table[i].pid == pid`.
abbrev pub owned : PageTable → ℕ → ℕ → Bool
owned t pid i = not ((t i).used == 0) && ((t i).pid == pid)

pub free_page : ℕ → ℕ → PageTable → PageTable
free_page pid i t = if owned t pid i then update t i zero_info else t

pub mmu_free : ℕ → PageTable → PageTable
mmu_free pid t = count_from apps_pages_cnt 0 (free_page pid) t

pub soft_tlb_map : ℕ → ℕ → ℕ → PageTable → PageTable
soft_tlb_map pid vpage_no ppage_id t =
    update t ppage_id (record (t ppage_id) { pid = pid; vpage_no = vpage_no })

-- The 4096 bytes of a page, by offset.
abbrev pub Page : Type 0
Page = ℕ → ℕ

-- Memory by physical page number.
abbrev pub Memory : Type 0
Memory = ℕ → Page

-- The first page of the region that `mmu_alloc` hands out.
abbrev pub first_frame : ℕ
first_frame = apps_pages_base / page_size

-- `PAGE_ID_TO_ADDR(i)`, as a page number.
abbrev pub frame : ℕ → ℕ
frame i = first_frame + i

-- `PAGE_NO_TO_ADDR(x)`, as a page number: `x * 4096` wraps at 2^32.
abbrev pub vpage : PageTable → ℕ → ℕ
vpage t i = (t i).vpage_no % 2 ^ 20

-- The page table, the memory, and `curr_vm_pid` of `soft_tlb_switch`.
pub record Mmu : Type 0 where
  pub pages : PageTable
  pub mem : Memory
  pub curr_vm_pid : ℕ

pub save_page : PageTable → ℕ → ℕ → Memory → Memory
save_page t pid i m = if owned t pid i then update m (frame i) (m (vpage t i)) else m

pub load_page : PageTable → ℕ → ℕ → Memory → Memory
load_page t pid i m = if owned t pid i then update m (vpage t i) (m (frame i)) else m

pub save_pages : PageTable → ℕ → Memory → Memory
save_pages t pid m = count_from apps_pages_cnt 0 (save_page t pid) m

pub load_pages : PageTable → ℕ → Memory → Memory
load_pages t pid m = count_from apps_pages_cnt 0 (load_page t pid) m

pub soft_tlb_switch : ℕ → Mmu → Mmu
soft_tlb_switch pid s = if pid == s.curr_vm_pid then s else record s {
  mem = load_pages s.pages pid (save_pages s.pages s.curr_vm_pid s.mem);
  curr_vm_pid = pid;
}

unfoldable pub soft_tlb_translate : ℕ → ℕ → Mmu → ℕ × Mmu
soft_tlb_translate pid vaddr s = (vaddr, soft_tlb_switch pid s)
