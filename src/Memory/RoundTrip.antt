-- ===== src/Memory/RoundTrip.antt =====
-- MemoryAllocPage and MemoryFreePage of os/memory.c in turn.
use lab.Prelude.{
  ℕ, ◌/◌, ◌<◌, ◌≡◌, ◌≢◌, refl, sym, ap, ◌∙◌, Bool-cases, ==_iff, inl, inr, arith, ◌==◌,
}
use lab.Run.{◌>>=◌, Returns, Returns-and_then, Returns-mono}
use lab.Memory.Freemap.{Memory, alloc_page, free_page}
use lab.Memory.FreemapLaws.{page_bit, Marked, free_page-Marked}
use lab.Memory.AllocLaws.{IsMap, Taken, alloc_page-Taken}

restored :
    (m k t : Memory) (p : ℕ)
    → Taken m p k
    → Marked k p 1 t.freepages
    → (r : ℕ) → page_bit t.freepages r ≡ page_bit m.freepages r
restored m k t p taken marked r = elim (Bool-cases (r == p)) [
  | inl same ↦ marked.bits r ∙ rw (same) (sym (rw ((==_iff r p).0 same) taken.was_free))
  | inr other ↦ marked.bits r ∙ rw (other) (taken.marked.bits r ∙ rw (other) refl)
]

-- When the count of free pages is not 0 and some page of the map is free, a page that
-- `MemoryAllocPage` returns and `MemoryFreePage` then takes back leaves every page of the bitmap and
-- the count of free pages as they were.
pub alloc_page-free_page :
    (m : Memory) (q : ℕ)
    → IsMap m
    → m.free_count ≢ 0
    → q / 32 < m.freemap_max
    → page_bit m.freepages q ≡ 1
    → Returns
        (λ _ t.
          ((r : ℕ) → page_bit t.freepages r ≡ page_bit m.freepages r)
          × (t.free_count ≡ m.free_count))
        ((alloc_page >>= free_page) m)
alloc_page-free_page m q map some_free below free =
    Returns-and_then (alloc_page-Taken m q map some_free below free) λ p k taken.
      Returns-mono
        (free_page-Marked k p (omega (arith, taken.inside_map, taken.marked.size, map.room)))
        λ _ t (marked, rest). (
          restored m k t p taken marked,
          (omega (
            arith,
            ap (λ (x : Memory). x.free_count) rest,
            ap (λ (x : Memory). x.free_count) taken.rest,
            some_free,
          )),
        )
