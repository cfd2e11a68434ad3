-- ===== src/Memory/AllocLaws.antt =====
-- MemoryAllocPage of os/memory.c: it hands out a page that was free, and its loops end.
use Prim.Native.Nat.{bit_and, bit_xor}
use lab.Prelude.{
  ℕ, zero, suc, ◌+◌, ◌-◌, ◌*◌, ◌/◌, ◌%◌, ◌^◌, ◌≤◌, ◌<◌, ◌≡◌, ◌≢◌, ◌⊎◌, refl, sym, ap, ◌∙◌, subst,
  List, [], ◌∷◌, true, Bool-cases, ==_iff, ==_ne, inl, inr, arith, ◌==◌, leb, if◌then◌else◌, set,
  length, length-set, get_or,
}
use lab.Prelude.Bits.{and-le, bit_at, bit_at-zero, bit_at-cleared_self, bit_at-cleared_ne}
use lab.Run.{Cmd, Returns, returns, Returns-and_then, ok}
use lab.Memory.Freemap.{Memory, invert, set_word, next_word, alloc_page}
use lab.Memory.FreemapLaws.{page_bit, Marked, page_bit-set, get_elem?-get_or, lowest_bit-found}

-- The map covers the words before `freemap_max`, each of 32 bits, and the search starts inside it.
pub record IsMap (m : Memory) : Type 0 where
  pub inside : m.mapnum < m.freemap_max
  pub room : m.freemap_max ≤ length m.freepages
  pub words : (i : ℕ) → get_or m.freepages i 0 < 2 ^ 32

-- The word `j` lies `d` words after the word where the search is, round the map.
abbrev Ahead : Memory → ℕ → ℕ → Type 0
Ahead m j d = (j ≡ m.mapnum + d) ⊎ (j + m.freemap_max ≡ m.mapnum + d)

following : ℕ → ℕ → ℕ
following max cur = if leb max (cur + 1) then 0 else cur + 1

following-lt : (max cur : ℕ) → cur < max → following max cur < max
unfolding following
following-lt max cur lt = ground arith

-- One word on, the way is shorter by one.
following-ahead :
    (max cur j d : ℕ)
    → cur < max
    → j < max
    → (j ≡ cur + suc d) ⊎ (j + max ≡ cur + suc d)
    → (j ≡ following max cur + d) ⊎ (j + max ≡ following max cur + d)
unfolding following
following-ahead max cur j d lt j_lt ahead = ground (arith, ahead)

-- The search has not arrived where the word is 0.
not_there :
    (m : Memory) (j : ℕ)
    → j < m.freemap_max
    → m.mapnum < m.freemap_max
    → get_or m.freepages j 0 ≢ 0
    → (get_or m.freepages m.mapnum 0 == 0) ≡ true
    → Ahead m j 0
    → ⊥
not_there m j j_lt inside j_ne past (inl same) = j_ne (
    ap (λ (x : ℕ). get_or m.freepages x 0) (same ∙ omega arith)
    ∙ (==_iff (get_or m.freepages m.mapnum 0) 0).0 past)
not_there m j j_lt inside j_ne past (inr round) = omega (arith, round, j_lt, inside)

next_word-found :
    (m : Memory) (rounds d j : ℕ)
    → m.mapnum < m.freemap_max
    → m.freemap_max ≤ length m.freepages
    → j < m.freemap_max
    → get_or m.freepages j 0 ≢ 0
    → Ahead m j d
    → d < rounds
    → Returns
        (λ w t.
          (t ≡ record m { mapnum = t.mapnum })
          × (t.mapnum < m.freemap_max)
          × (w ≡ get_or m.freepages t.mapnum 0)
          × (w ≢ 0))
        (next_word rounds m)
unfolding next_word following
next_word-found m zero d j inside room j_lt j_ne ahead enough = absurd (omega (arith, enough))
next_word-found m (suc rounds) zero j inside room j_lt j_ne ahead enough =
    let w = get_or m.freepages m.mapnum 0 in
    elim (Bool-cases (w == 0)) [
      | inr here ↦
          rw (next_word, get_elem?-get_or m.freepages m.mapnum (omega (arith, inside, room)), here)
            (returns (refl, inside, refl, λ e. ground (arith, here, e)))
      | inl past ↦ absurd (not_there m j j_lt inside j_ne past ahead)
    ]
next_word-found m (suc rounds) (suc d) j inside room j_lt j_ne ahead enough =
    let w = get_or m.freepages m.mapnum 0 in
    elim (Bool-cases (w == 0)) [
      | inr here ↦
          rw (next_word, get_elem?-get_or m.freepages m.mapnum (omega (arith, inside, room)), here)
            (returns (refl, inside, refl, λ e. ground (arith, here, e)))
      | inl past ↦
          rw (next_word, get_elem?-get_or m.freepages m.mapnum (omega (arith, inside, room)), past)
            (next_word-found (record m { mapnum = following m.freemap_max m.mapnum }) rounds d j
              (following-lt m.freemap_max m.mapnum inside) room j_lt j_ne
              (following-ahead m.freemap_max m.mapnum j d inside j_lt ahead)
              (omega (arith, enough)))
    ]

-- What a successful allocation of the page `p` in the state `m` leaves in `t`.
pub record Taken (m : Memory) (p : ℕ) (t : Memory) : Type 0 where
  pub inside_map : p / 32 < m.freemap_max
  pub was_free : page_bit m.freepages p ≡ 1
  pub marked : Marked m p 0 t.freepages
  pub rest :
      t ≡ record m { freepages = t.freepages; mapnum = t.mapnum; free_count = m.free_count - 1 }
  pub still_map : IsMap t

-- The rounds of the search: a word of the map is at most `freemap_max - 1` words ahead.
distance :
    (m : Memory) (j : ℕ)
    → m.mapnum < m.freemap_max
    → j < m.freemap_max
    → (d : ℕ) × (d < m.freemap_max + 1) × Ahead m j d
distance m j inside j_lt = elim (Bool-cases (leb m.mapnum j)) [
  | inl ahead ↦ (j - m.mapnum, omega (arith, j_lt), inl (ground (arith, ahead)))
  | inr behind ↦ (
    j + m.freemap_max - m.mapnum,
    ground (arith, behind, inside),
    inr (ground (arith, behind, inside)),
  )
]

-- The word of a free page is not 0.
free-word : (words : List ℕ) (p : ℕ) → page_bit words p ≡ 1 → get_or words (p / 32) 0 ≢ 0
free-word words p free e =
    let zeros : bit_at 0 (p % 32) ≡ 1 = ap (λ (w : ℕ). bit_at w (p % 32)) (sym e) ∙ free in
    omega (arith, zeros, bit_at-zero (p % 32))

-- The word of the page `p` with its bit cleared.
abbrev without : Memory → ℕ → ℕ
unfolding invert
without m p = bit_and (get_or m.freepages (p / 32) 0) (invert (2 ^ (p % 32)))

-- The state that the allocation of the page `p` leaves.
abbrev taken : Memory → ℕ → Memory
taken m p = record m {
  freepages = set m.freepages (p / 32) (without m p);
  mapnum = p / 32;
  free_count = m.free_count - 1;
}

get_or-set_lt :
    (xs : List ℕ) (i v b j : ℕ) → v < b → get_or xs j 0 < b → get_or (set xs i v) j 0 < b
get_or-set_lt [] i v b j p q = q
get_or-set_lt (x ∷ xs) zero v b zero p q = p
get_or-set_lt (x ∷ xs) zero v b (suc j) p q = q
get_or-set_lt (x ∷ xs) (suc i) v b zero p q = q
get_or-set_lt (x ∷ xs) (suc i) v b (suc j) p q = get_or-set_lt xs i v b j p q

taken-Taken :
    (m : Memory) (p : ℕ)
    → IsMap m
    → p / 32 < m.freemap_max
    → page_bit m.freepages p ≡ 1
    → Taken m p (taken m p)
unfolding invert
taken-Taken m p map below free =
    let w = get_or m.freepages (p / 32) 0 in
    record {
      inside_map = below;
      was_free = free;
      marked = record {
        size = length-set m.freepages (p / 32) (without m p);
        bits =
            page_bit-set m.freepages p (without m p) 0 (omega (arith, below, map.room))
              (bit_at-cleared_self w (p % 32) (omega arith))
              (λ i h ne. bit_at-cleared_ne w (p % 32) i h ne);
      };
      rest = refl;
      still_map = record {
        inside = below;
        room = rw (length-set m.freepages (p / 32) (without m p)) map.room;
        words = λ i.
            get_or-set_lt m.freepages (p / 32) (without m p) (2 ^ 32) i
              (omega (arith, map.words (p / 32), and-le w (bit_xor (2 ^ (p % 32)) 0xffff_ffff)))
              (map.words i);
      };
    }

-- What `MemoryAllocPage` does once it has the word and the bit.
abbrev finish : ℕ → ℕ → Cmd Memory ℕ
unfolding invert
finish w n k = ok (k.mapnum * 32 + n) (record k {
  freepages = set k.freepages k.mapnum (bit_and w (invert (2 ^ n)));
  free_count = k.free_count - 1;
})

finish-Taken :
    (m : Memory) (c n p : ℕ)
    → IsMap m
    → c < m.freemap_max
    → bit_at (get_or m.freepages c 0) n ≡ 1
    → p / 32 ≡ c
    → p % 32 ≡ n
    → p ≡ c * 32 + n
    → Returns (λ q t. Taken m q t) (finish (get_or m.freepages c 0) n (record m { mapnum = c }))
unfolding invert
finish-Taken m c n p map below on e f g =
    rw (sym g, sym e, sym f)
      (returns
        (taken-Taken m p map (subst (λ (x : ℕ). x < m.freemap_max) (sym e) below) (rw (e, f) on)))

-- `MemoryAllocPage`, when the count of free pages is not 0 and some page of the map is free, ends and
-- returns a page of the map that was free; the bit of that page alone is cleared, the count is one
-- less, and the search stands at a word inside the map.
pub alloc_page-Taken :
    (m : Memory) (q : ℕ)
    → IsMap m
    → m.free_count ≢ 0
    → q / 32 < m.freemap_max
    → page_bit m.freepages q ≡ 1
    → Returns (λ p t. Taken m p t) (alloc_page m)
unfolding alloc_page set_word
alloc_page-Taken m q map some_free below free =
    let (d, near, ahead) = distance m (q / 32) map.inside below in
    rw (==_ne m.free_count 0 some_free) (
      Returns-and_then
        (next_word-found m (m.freemap_max + 1) d (q / 32) map.inside map.room below
          (free-word m.freepages q free) ahead near)
        λ w k (same, inside, word, w_ne).
          Returns-and_then
            (lowest_bit-found k w 32 0 w_ne
              (subst (λ (x : ℕ). x < 2 ^ 32) (sym word) (map.words k.mapnum))
              (λ i h. absurd (omega (arith, h))))
            λ n t (t_same, n_lt, on).
              subst (λ (x : Memory). Returns (λ p u. Taken m p u) (finish w n x))
                (sym (t_same ∙ same))
                (subst
                  (λ (v : ℕ).
                    Returns (λ p u. Taken m p u) (finish v n (record m { mapnum = k.mapnum })))
                  (sym word)
                  (finish-Taken m k.mapnum n (k.mapnum * 32 + n) map inside
                    (subst (λ (v : ℕ). bit_at v n ≡ 1) word on) (omega (arith, n_lt))
                    (omega (arith, n_lt)) refl)))
