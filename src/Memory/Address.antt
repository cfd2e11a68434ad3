-- ===== src/Memory/Address.antt =====
-- Page-table entries, translation and the operand of an instruction, of os/memory.c. The routines
-- that read a process's memory take its page table and registers as arguments.
use Prim.Native.Nat.{bit_and, bit_or}
use lab.Prelude.{
  ℕ, ◌+◌, ◌*◌, ◌/◌, ◌%◌, ◌^◌, List, none, some, Option, ltb, if◌then◌else◌, get_elem?,
}
use lab.Memory.Freemap.{page_size}

-- MEMORY_PTE_VALID and MEMORY_PTE_MASK
abbrev pub pte_valid : ℕ
pte_valid = 1

abbrev pub pte_mask : ℕ
pte_mask = 0xffff_fff8

-- `MemorySetupPte`
unfoldable pub setup_pte : ℕ → ℕ
setup_pte page = bit_or (page * page_size % 2 ^ 32) pte_valid

-- `MemoryPteToPage`
unfoldable pub pte_to_page : ℕ → ℕ
pte_to_page pte = bit_and pte pte_mask

-- The page that `MemoryFreePte` frees.
unfoldable pub page_of_pte : ℕ → ℕ
page_of_pte pte = bit_and pte pte_mask / page_size

-- `MemoryTranslateUserToSystem`; 0 where the page is past the table. `none` is a read out of the
-- sixteen entries of the array `pagetable`.
unfoldable pub translate : List ℕ → ℕ → ℕ → Option ℕ
translate pagetable npages addr =
    if ltb npages (addr / page_size)
    then some 0
    else elim (get_elem? pagetable (addr / page_size)) [
      | none ↦ none
      | some pte ↦ some ((bit_and pte pte_mask + addr % page_size) % 2 ^ 32)
    ]
