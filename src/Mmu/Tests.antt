-- ===== src/Mmu/Tests.antt =====
-- Runs of the page table and of the software TLB, and instances of their theorems.
use operating_systems_compon.Base.{ℕ, ◌+◌, ◌≡◌, refl, some, arith, update, first_index}
use operating_systems_compon.Mmu.{
  PageInfo, PageTable, zero_info, mmu_alloc, take_page, Mmu, soft_tlb_switch,
}
use operating_systems_compon.Mmu.Switch.{IsMapped, switch-switch}

abbrev info : ℕ → ℕ → PageInfo
info pid vpage_no = record { used = 1; pid = pid; vpage_no = vpage_no }

-- Pid 5 has pages 0 and 2, pid 6 has page 1, at the same virtual pages.
abbrev table : PageTable
table =
    update (update (update (λ _. zero_info) 0 (info 5 0x80200)) 1 (info 6 0x80200)) 2
      (info 5 0x803ff)

abbrev full : PageTable
full _ = info 5 0x80200

abbrev five_runs : Mmu
five_runs = record { pages = table; mem = λ a o. a + o; curr_vm_pid = 5 }

alloc_takes_lowest : mmu_alloc table ≡ some (3, update table 3 (record zero_info { used = 1 }))
unfolding mmu_alloc take_page first_index
alloc_takes_lowest = refl

five-IsMapped : IsMapped table 5
five-IsMapped = record { below = λ i h. ground arith; apart = λ i j h h' e. ground arith }

six-IsMapped : IsMapped table 6
six-IsMapped = record { below = λ i h. ground arith; apart = λ i j h h' e. ground arith }

-- Pid 6 runs and writes nothing at all.
switch-switch_example :
    (soft_tlb_switch 5
        (record (soft_tlb_switch 6 five_runs) { mem = (soft_tlb_switch 6 five_runs).mem })).mem
      0x803ff
    ≡ five_runs.mem 0x803ff
switch-switch_example =
    switch-switch five_runs 6 (soft_tlb_switch 6 five_runs).mem (omega arith) five-IsMapped
      six-IsMapped (λ a h. refl) 2 (omega arith) refl
