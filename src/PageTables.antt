-- ===== src/PageTables.antt =====
-- The page tables of egos-2000/earth/cpu_mmu.c: `setup_identity_region` and `pagetable_identity_map`
-- over the pages of Mmu. A table is a function from the index to its 32-bit word, and tables are found by their
-- physical page number.
pub mod Walk
pub mod Bits
pub mod Leaf
pub mod New
pub mod Region
pub mod Identity
mod Tests
use operating_systems_compon.Base.{
  ℕ, zero, suc, ◌+◌, ◌-◌, ◌*◌, ◌/◌, ◌%◌, ◌^◌, Bool, Option, none, some, ◌>>=◌, List, [], ◌∷◌, ◌++◌,
  ◌==◌, if◌then◌else◌, update, count_from, sle,
}
use operating_systems_compon.Mmu.{
  PageTable, page_size, frame, mmu_alloc, Mmu, soft_tlb_map, soft_tlb_switch, soft_tlb_translate,
}

-- `USER_RWX`.
abbrev pub user_rwx : ℕ
user_rwx = 0xDF

abbrev pub Tables : Type 0
Tables = ℕ → ℕ → ℕ

-- The page table of the pages, the tables, the page number of `root`, and those by process.
pub record Paging : Type 0 where
  pub pages : PageTable
  pub tables : Tables
  pub root : ℕ
  pub pid_to_pagetable_base : ℕ → ℕ

-- A bitwise or of the lowest bits.
pub or_bits : (bits a b : ℕ) → ℕ
or_bits zero a b = 0
or_bits (suc bits) a b = (if a % 2 + b % 2 == 0 then 0 else 1) + 2 * or_bits bits (a / 2) (b / 2)

-- `(addr >> 2) | flag` for a flag below 2^10.
pub entry : (addr flag : ℕ) → ℕ
entry addr flag = addr / 4 / 1024 * 1024 + or_bits 10 (addr / 4 % 1024) flag

-- A page that is cleared for a table of the process.
pub take_table : (pid : ℕ) → Paging → Option (ℕ × Paging)
take_table pid s = mmu_alloc s.pages >>= λ (i, t). some (
  frame i,
  record s {
    pages = update t i (record (t i) { pid = pid });
    tables = update s.tables (frame i) (λ j. 0);
  },
)

-- `root[vpn1] = (leaf >> 2) | 1`.
pub set_root : (vpn1 leaf : ℕ) → Paging → Paging
set_root vpn1 leaf s = record s {
  tables = update s.tables s.root (update (s.tables s.root) vpn1 (leaf * page_size / 4 + 1));
}

-- The leaf table, allocated where there is none.
pub leaf_for : (pid vpn1 : ℕ) → Paging → Option (ℕ × Paging)
leaf_for pid vpn1 s =
    if s.tables s.root vpn1 % 2 == 1
    then some (s.tables s.root vpn1 * 4 % 2 ^ 32 / page_size, s)
    else (take_table pid s >>= λ (leaf, s'). some (leaf, set_root vpn1 leaf s'))

pub set_entry : (addr flag i : ℕ) → (ℕ → ℕ) → ℕ → ℕ
set_entry addr flag i leaf =
    update leaf (addr / 4096 % 1024 + i) (entry ((addr + i * page_size) % 2 ^ 32) flag)

pub set_entries : (addr npages flag : ℕ) → (ℕ → ℕ) → ℕ → ℕ
set_entries addr npages flag leaf = count_from npages 0 (set_entry addr flag) leaf

pub fill_leaf : (addr npages flag leaf : ℕ) → Paging → Paging
fill_leaf addr npages flag leaf s = record s {
  tables = update s.tables leaf (set_entries addr npages flag (s.tables leaf));
}

pub setup_identity_region : (pid addr npages flag : ℕ) → Paging → Option Paging
setup_identity_region pid addr npages flag s =
    leaf_for pid (addr / 2 ^ 22) s >>= λ (leaf, s'). some (fill_leaf addr npages flag leaf s')

-- The regions of `pagetable_identity_map`: RAM in the loop, then the devices.
abbrev pub regions : (qemu : Bool) → List (ℕ × ℕ)
regions qemu =
    (0x80000000, 1024)
    ∷ (0x80400000, 1024)
    ∷ ((if qemu then 0x41000000 else 0xF0002000), 4)
    ∷ ((if qemu then 0x10000000 else 0xF0001000), 1)
    ∷ ((if qemu then 0x02000000 else 0xF0010000), 16)
    ∷ ((if qemu then 0x22000000 else 0x20400000), 1024)
    ∷ ((if qemu then 0x42000000 else 0x80600000), 512)
    ∷ (if qemu
        then (0x40000000, 1) ∷ (0x30018000, 1) ∷ []
        else (0xF0008800, 1) ∷ (0x90001000, 1) ∷ (0x90000000, 1) ∷ [])

pub setup_regions : (pid : ℕ) → List (ℕ × ℕ) → Paging → Option Paging
setup_regions pid [] s = some s
setup_regions pid ((addr, npages) ∷ rs) s =
    setup_identity_region pid addr npages user_rwx s >>= setup_regions pid rs

-- The root table is a cleared page.
pub setup_root : (pid : ℕ) → Paging → Option Paging
setup_root pid s = take_table pid s >>= λ (p, s').
    some (record s' { root = p; pid_to_pagetable_base = update s'.pid_to_pagetable_base pid p })

pub pagetable_identity_map : (qemu : Bool) (pid : ℕ) → Paging → Option Paging
pagetable_identity_map qemu pid s = setup_root pid s >>= setup_regions pid (regions qemu)

-- `MAX_NPROCESS`.
abbrev pub max_nprocess : ℕ
max_nprocess = 256

-- The functions that are given to the kernel keep the software TLB; `none` is a FATAL stop.
pub page_table_map : (pid vpage_no ppage_id : ℕ) → PageTable → Option PageTable
page_table_map pid vpage_no ppage_id t =
    if sle max_nprocess pid then none else some (soft_tlb_map pid vpage_no ppage_id t)

pub page_table_switch : (pid : ℕ) → Mmu → Mmu
page_table_switch pid s = soft_tlb_switch pid s

pub page_table_translate : (pid vaddr : ℕ) → Mmu → ℕ × Mmu
page_table_translate pid vaddr s = soft_tlb_translate pid vaddr s
