-- ===== src/Memory/Examples.antt =====
-- The laws of os/memory.c at concrete page tables and maps.
use lab.Prelude.{ℕ, zero, suc, ◌<◌, ◌^◌, ◌≡◌, ◌≢◌, refl, ◌∷◌, [], arith, get_or}
use lab.Run.{Returns, ◌>>=◌, out_of_fuel}
use lab.Memory.Freemap.{Memory, alloc_page, free_page}
use lab.Memory.FreemapLaws.{page_bit}
use lab.Memory.AllocLaws.{IsMap, Taken, alloc_page-Taken}
use lab.Memory.RoundTrip.{alloc_page-free_page}
use lab.Memory.Moving.{to_user, move_between}
use lab.Memory.MovingLaws.{move_between-ends}

move_between-ends_example :
    move_between 301 (0x30001 ∷ 0x50001 ∷ []) 2 to_user 100 0xffe0 300 0 (λ a. 7) ≢ out_of_fuel
move_between-ends_example =
    move_between-ends 301 (0x30001 ∷ 0x50001 ∷ []) 2 to_user 100 0xffe0 300 0 (λ a. 7) (omega arith)

-- Two words of a map; the pages 34 and 36 are free, and the search stands at the full word.
abbrev pub two_words : Memory
two_words = record {
  page_start = 3;
  freemap_max = 2;
  free_count = 2;
  freepages = 0 ∷ 20 ∷ [];
  mapnum = 0;
}

two_words-fit : (i : ℕ) → get_or two_words.freepages i 0 < 2 ^ 32
two_words-fit zero = omega arith
two_words-fit (suc zero) = omega arith
two_words-fit (suc (suc i)) = omega arith

pub two_words-IsMap : IsMap two_words
two_words-IsMap = record { inside = omega arith; room = omega arith; words = two_words-fit }

alloc_page-Taken_example : Returns (λ p t. Taken two_words p t) (alloc_page two_words)
alloc_page-Taken_example =
    alloc_page-Taken two_words 34 two_words-IsMap (λ e. omega (arith, e)) (omega arith) refl

alloc_page-free_page_example :
    Returns
      (λ _ t.
        ((r : ℕ) → page_bit t.freepages r ≡ page_bit two_words.freepages r) × (t.free_count ≡ 2))
      ((alloc_page >>= free_page) two_words)
alloc_page-free_page_example =
    alloc_page-free_page two_words 34 two_words-IsMap (λ e. omega (arith, e)) (omega arith) refl
