-- ===== src/Process/Freeing.antt =====
-- The pages of a page table that ProcessFreeResources of os/process.c gives back, one by one.
use lab.Prelude.{
  ℕ, ◌+◌, ◌/◌, ◌<◌, ◌≡◌, refl, sym, subst, ◌∙◌, ap, List, [], ◌∷◌, arith, if◌then◌else◌, length,
}
use lab.Run.{Run, Cmd, Returns, returns, Returns-mono, and_then}
use lab.Queue.Shape.{contains}
use lab.Memory.Freemap.{Memory}
use lab.Memory.FreemapLaws.{page_bit, Marked, free_page-Marked}
use lab.Memory.Address.{page_of_pte}
use lab.Kernel.{Kernel, with_memory}
use lab.Process.Transitions.{free_ptes}

-- Every page stands in a map of `n` words.
abbrev pub InRoom : ℕ → List ℕ → Type 0
InRoom n [] = Unit {0}
InRoom n (p ∷ ps) = (p / 32 < n) × InRoom n ps

-- The pages of the list are free in `t`, the others are as in `m`, and the count has grown by their
-- number.
pub record Freed (m : Memory) (pages : List ℕ) (t : Memory) : Type 0 where
  pub size : length t.freepages ≡ length m.freepages
  pub bits :
      (r : ℕ) → page_bit t.freepages r ≡ (if contains r pages then 1 else page_bit m.freepages r)
  pub rest : t ≡ record m { freepages = t.freepages; free_count = m.free_count + length pages }

-- The pages of a list of page-table entries.
abbrev pub pages_of : List ℕ → List ℕ
pages_of [] = []
pages_of (pte ∷ ptes) = page_of_pte pte ∷ pages_of ptes

-- A routine of memory.c called from the kernel, with its post-condition.
pub Returns-in_memory :
    {A B : Type 0} {P : A → Memory → Type 0} {Q : B → Kernel → Type 0} {r : Run Memory A}
    (k : Kernel) (f : A → Cmd Kernel B)
    → Returns P r
    → ((a : A) (m : Memory) → P a m → Returns Q (f a (record k { memory = m })))
    → Returns Q (and_then (with_memory k r) f)
Returns-in_memory k f (returns p) next = next _ _ p

Freed-cons :
    (m j t : Memory) (p : ℕ) (ps : List ℕ)
    → Marked m p 1 j.freepages
    → j ≡ record m { freepages = j.freepages; free_count = m.free_count + 1 }
    → Freed j ps t
    → Freed m (p ∷ ps) t
Freed-cons m j t p ps marked rest freed = record {
  size = freed.size ∙ marked.size;
  bits = λ r. freed.bits r ∙ ground (arith, marked.bits r);
  rest =
      freed.rest
      ∙ (ap
            (λ (x : Memory). record x {
              free_count = x.free_count + length ps;
              freepages = t.freepages;
            })
            rest
          ∙ ap (λ (c : ℕ). record m { freepages = t.freepages; free_count = c }) (omega arith));
}

pub free_ptes-Freed :
    (k : Kernel) (ptes : List ℕ)
    → InRoom (length k.memory.freepages) (pages_of ptes)
    → Returns
        (λ _ t. Freed k.memory (pages_of ptes) t.memory × (t ≡ record k { memory = t.memory }))
        (free_ptes ptes k)
unfolding free_ptes
free_ptes-Freed k [] room = returns (
  record {
    size = refl;
    bits = λ r. refl;
    rest = ap (λ (c : ℕ). record k.memory { free_count = c }) (omega arith);
  },
  refl,
)
free_ptes-Freed k (pte ∷ ptes) (here, room) =
    Returns-in_memory k _ (free_page-Marked k.memory (page_of_pte pte) here) λ _ m (marked, rest).
      Returns-mono
        (free_ptes-Freed (record k { memory = m }) ptes
          (subst (λ (x : ℕ). InRoom x (pages_of ptes)) (sym marked.size) room))
        λ _ t (freed, same).
          (Freed-cons k.memory m t.memory (page_of_pte pte) (pages_of ptes) marked rest freed, same)

pub Freed-then :
    (m j t : Memory) (p : ℕ) (ps : List ℕ)
    → Freed m ps j
    → Marked j p 1 t.freepages
    → t ≡ record j { freepages = t.freepages; free_count = j.free_count + 1 }
    → Freed m (p ∷ ps) t
Freed-then m j t p ps freed marked rest = record {
  size = marked.size ∙ freed.size;
  bits = λ r. marked.bits r ∙ ground (arith, freed.bits r);
  rest =
      rest
      ∙ (ap (λ (x : Memory). record x { free_count = x.free_count + 1; freepages = t.freepages })
            freed.rest
          ∙ ap (λ (c : ℕ). record m { freepages = t.freepages; free_count = c }) (omega arith));
}
