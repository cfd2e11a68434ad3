-- ===== src/Memory/Freemap.antt =====
-- The page allocator of os/memory.c: one bit for each page, 1 for a free one.
use Prim.Native.Nat.{bit_and, bit_or, bit_xor}
use lab.Prelude.{
  ℕ, zero, suc, ◌+◌, ◌-◌, ◌*◌, ◌/◌, ◌%◌, ◌^◌, List, none, some, true, false, ◌==◌, leb,
  if◌then◌else◌, get_elem?, set, replicate,
}
use lab.Run.{Cmd, ok, fault, pure, starved, out_of_fuel, ◌>>=◌, ◌>>◌}

-- MEMORY_PAGE_SIZE
abbrev pub page_size : ℕ
page_size = 2 ^ 16

-- MEMORY_MAX_PAGES / 32
abbrev pub map_words : ℕ
map_words = 2048

-- The static variables of memory.c; `mapnum` is that of `MemoryAllocPage`. Arithmetic on them stays
-- below 2 ^ 32 while the numbers of pages do.
pub record Memory : Type 0 where
  pub page_start : ℕ
  pub freemap_max : ℕ
  pub free_count : ℕ
  pub freepages : List ℕ
  pub mapnum : ℕ

-- The exclusive or with `negativeone`.
unfoldable pub invert : ℕ → ℕ
invert n = bit_xor n 0xffff_ffff

-- `freepages[wd]`, a fault out of the array's bounds.
unfoldable pub word_at : ℕ → Cmd Memory ℕ
word_at wd m = elim (get_elem? m.freepages wd) [ none ↦ fault | some w ↦ ok w m ]

unfoldable pub set_word : ℕ → ℕ → Cmd Memory (Unit {0})
set_word wd w m = ok tt (record m { freepages = set m.freepages wd w })

-- The new word of `MemorySetFreemap`: bit `n` of `w` becomes `b`.
unfoldable pub put_bit : ℕ → ℕ → ℕ → ℕ
unfolding invert
put_bit w n b = bit_or (bit_and w (invert (2 ^ n))) (b * 2 ^ n)

-- `MemorySetFreemap`
unfoldable pub set_freemap : ℕ → ℕ → Cmd Memory (Unit {0})
unfolding word_at set_word
set_freemap p b = do w ← word_at (p / 32); set_word (p / 32) (put_bit w (p % 32) b)

-- The loop of `MemoryModuleInit` over the pages from `page` on.
unfoldable pub free_from : ℕ → ℕ → Cmd Memory (Unit {0})
free_from zero page = pure tt
free_from (suc n) page = do
  (λ m. ok tt (record m { free_count = m.free_count + 1 }))
  set_freemap page 1
  free_from n (page + 1)

-- `MemoryModuleInit`, given `lastosaddress` and what `MemoryGetSize` reads. Only the first
-- `freemapmax` words are cleared by the loop; the array is zero to begin with.
unfoldable pub memory_init : ℕ → ℕ → Cmd Memory (Unit {0})
memory_init last_os_address size m =
    let max_page = size / page_size in
    let start = (last_os_address + page_size - 4) / page_size in
    free_from (max_page - start) start (record m {
      page_start = start;
      freemap_max = (max_page + 31) / 32;
      free_count = 0;
      freepages = replicate map_words 0;
    })

-- The loop of `MemoryAllocPage` that looks for a word with a free page, `rounds` times at most.
unfoldable pub next_word : ℕ → Cmd Memory ℕ
next_word zero m = out_of_fuel
next_word (suc rounds) m = elim (get_elem? m.freepages m.mapnum) [
  | none ↦ fault
  | some w ↦ elim (w == 0) [
    | true ↦
        next_word rounds
          (record m { mapnum = if leb m.freemap_max (m.mapnum + 1) then 0 else m.mapnum + 1 })
    | false ↦ ok w m
  ]
]

-- The loop that looks for the lowest bit that is set, from bit `n` on.
unfoldable pub lowest_bit : ℕ → ℕ → ℕ → Cmd Memory ℕ
lowest_bit zero v n = starved
lowest_bit (suc rounds) v n = elim (bit_and v (2 ^ n) == 0) [
  | true ↦ lowest_bit rounds v (n + 1)
  | false ↦ pure n
]

-- `MemoryAllocPage`; 0 when no page is free. The first loop goes at most once round the map.
unfoldable pub alloc_page : Cmd Memory ℕ
unfolding invert set_word
alloc_page m =
    if m.free_count == 0
    then ok 0 m
    else (do
      w ← next_word (m.freemap_max + 1)
      n ← lowest_bit 32 w 0
      λ k.
          (do
            set_word k.mapnum (bit_and w (invert (2 ^ n)))
            (λ j. ok (k.mapnum * 32 + n) (record j { free_count = j.free_count - 1 })))
            k)
        m

-- `MemoryFreePage`
unfoldable pub free_page : ℕ → Cmd Memory (Unit {0})
free_page page = do set_freemap page 1; (λ m. ok tt (record m { free_count = m.free_count + 1 }))
