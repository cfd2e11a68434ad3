-- ===== src/Memory/FreemapLaws.antt =====
-- The page allocator of os/memory.c, page by page.
use Prim.Native.Nat.{bit_and, bit_xor}
use lab.Prelude.{
  ℕ, zero, suc, ◌+◌, ◌*◌, ◌/◌, ◌%◌, ◌^◌, ◌<◌, ◌≡◌, ◌≢◌, refl, ap, ◌∙◌, subst, List, [], ◌∷◌, some,
  true, false, Bool-cases, ==_iff, ==_ne, inl, inr, arith, ◌==◌, if◌then◌else◌, get_elem?, set,
  length, length-set, get_or,
}
use lab.Prelude.Bits.{
  bit_at, bit_at-zero, bit_at-lt, bit_at-or, bit_at-pow_self, bit_at-pow_ne, bit_at-cleared_self,
  bit_at-cleared_ne, all_zero, and-pow_zero, and-pow_one,
}
use lab.Run.{Returns, returns, Returns-mono, Returns-and_then}
use lab.Memory.Freemap.{
  Memory, invert, word_at, set_word, put_bit, set_freemap, lowest_bit, free_page,
}

-- 1 if the page `p` is free.
abbrev pub page_bit : List ℕ → ℕ → ℕ
page_bit words p = bit_at (get_or words (p / 32) 0) (p % 32)

pub get_elem?-get_or : (xs : List ℕ) (i : ℕ) → i < length xs → get_elem? xs i ≡ some (get_or xs i 0)
get_elem?-get_or [] i h = absurd (omega (arith, h))
get_elem?-get_or (x ∷ xs) zero h = refl
get_elem?-get_or (x ∷ xs) (suc i) h = get_elem?-get_or xs i (omega (arith, h))

get_or-set_self : (xs : List ℕ) (i v : ℕ) → i < length xs → get_or (set xs i v) i 0 ≡ v
get_or-set_self [] i v h = absurd (omega (arith, h))
get_or-set_self (x ∷ xs) zero v h = refl
get_or-set_self (x ∷ xs) (suc i) v h = get_or-set_self xs i v (omega (arith, h))

get_or-set_ne : (xs : List ℕ) (i j v : ℕ) → i ≢ j → get_or (set xs i v) j 0 ≡ get_or xs j 0
get_or-set_ne [] i j v ne = refl
get_or-set_ne (x ∷ xs) zero zero v ne = absurd (ne refl)
get_or-set_ne (x ∷ xs) zero (suc j) v ne = refl
get_or-set_ne (x ∷ xs) (suc i) zero v ne = refl
get_or-set_ne (x ∷ xs) (suc i) (suc j) v ne = get_or-set_ne xs i j v (λ e. ne (ap suc e))

same_page : (r p : ℕ) → r / 32 ≡ p / 32 → r % 32 ≡ p % 32 → r ≡ p
same_page r p e f = omega (arith, e, f)

place_ne : (r p : ℕ) → (r / 32 == p / 32) ≡ true → (r == p) ≡ false → r % 32 ≢ p % 32
place_ne r p same other e =
    let page = same_page r p ((==_iff (r / 32) (p / 32)).0 same) e in ground (arith, page, other)

-- The pages in a map where the word of the page `p` is `w`, which differs from the old word in the
-- digit of `p` alone.
pub page_bit-set :
    (words : List ℕ) (p w b : ℕ)
    → p / 32 < length words
    → bit_at w (p % 32) ≡ b
    → ((i : ℕ) → i < 32 → i ≢ p % 32 → bit_at w i ≡ bit_at (get_or words (p / 32) 0) i)
    → (r : ℕ) → page_bit (set words (p / 32) w) r ≡ (if r == p then b else page_bit words r)
page_bit-set words p w b room here rest r = elim (Bool-cases (r / 32 == p / 32)) [
  | inr other ↦
      rw
        (
          ==_ne r p (λ e. ground (arith, other, e)),
          get_or-set_ne words (p / 32) (r / 32) w (λ e. ground (arith, other, e)),
        )
        refl
  | inl same ↦
      let word : get_or (set words (p / 32) w) (r / 32) 0 ≡ w =
        rw ((==_iff (r / 32) (p / 32)).0 same) (get_or-set_self words (p / 32) w room) in
      elim (Bool-cases (r == p)) [
        | inl page ↦ rw (page, word) (rw ((==_iff r p).0 page) here)
        | inr elsewhere ↦
            rw (elsewhere, word)
              (rest (r % 32) (omega arith) (place_ne r p same elsewhere)
                ∙ rw ((==_iff (r / 32) (p / 32)).0 same) refl)
      ]
]

digit_self : (n b : ℕ) → b < 2 → bit_at (b * 2 ^ n) n ≡ b
digit_self n zero small = ap (λ (x : ℕ). bit_at x n) (omega arith) ∙ bit_at-zero n
digit_self n (suc zero) small = ap (λ (x : ℕ). bit_at x n) (omega arith) ∙ bit_at-pow_self n
digit_self n (suc (suc b)) small = absurd (omega (arith, small))

digit_ne : (n b i : ℕ) → b < 2 → i ≢ n → bit_at (b * 2 ^ n) i ≡ 0
digit_ne n zero i small ne = ap (λ (x : ℕ). bit_at x i) (omega arith) ∙ bit_at-zero i
digit_ne n (suc zero) i small ne = ap (λ (x : ℕ). bit_at x i) (omega arith) ∙ bit_at-pow_ne n i ne
digit_ne n (suc (suc b)) i small ne = absurd (omega (arith, small))

-- The digits of the word that `MemorySetFreemap` writes.
put_bit_self : (w n b : ℕ) → n < 32 → b < 2 → bit_at (put_bit w n b) n ≡ b
unfolding put_bit invert
put_bit_self w n b h small =
    bit_at-or (bit_and w (bit_xor (2 ^ n) 0xffff_ffff)) (b * 2 ^ n) n
    ∙ rw (bit_at-cleared_self w n h, digit_self n b small) (omega arith)

put_bit_ne : (w n b i : ℕ) → i < 32 → b < 2 → i ≢ n → bit_at (put_bit w n b) i ≡ bit_at w i
unfolding put_bit invert
put_bit_ne w n b i h small ne =
    bit_at-or (bit_and w (bit_xor (2 ^ n) 0xffff_ffff)) (b * 2 ^ n) i
    ∙ rw (bit_at-cleared_ne w n i h ne, digit_ne n b i small ne) (omega arith)

-- The state `t` has the map of `m` but for the page `p`, which is `b` there.
pub record Marked (m : Memory) (p b : ℕ) (words : List ℕ) : Type 0 where
  pub size : length words ≡ length m.freepages
  pub bits : (r : ℕ) → page_bit words r ≡ (if r == p then b else page_bit m.freepages r)

-- `MemorySetFreemap` changes the bit of one page.
pub set_freemap-Marked :
    (m : Memory) (p b : ℕ)
    → p / 32 < length m.freepages
    → b < 2
    → Returns
        (λ _ t. Marked m p b t.freepages × (t ≡ record m { freepages = t.freepages }))
        (set_freemap p b m)
unfolding set_freemap word_at set_word
set_freemap-Marked m p b room small =
    let w = get_or m.freepages (p / 32) 0 in
    rw (set_freemap, word_at, get_elem?-get_or m.freepages (p / 32) room)
      (returns (
        record {
          size = length-set m.freepages (p / 32) (put_bit w (p % 32) b);
          bits =
              page_bit-set m.freepages p (put_bit w (p % 32) b) b room
                (put_bit_self w (p % 32) b (omega arith) small)
                (λ i h ne. put_bit_ne w (p % 32) b i h small ne);
        },
        refl,
      ))

-- `MemoryFreePage` marks the page as free, leaves the other pages as they were, and counts one more.
pub free_page-Marked :
    (m : Memory) (p : ℕ)
    → p / 32 < length m.freepages
    → Returns
        (λ _ t.
          Marked m p 1 t.freepages
          × (t ≡ record m { freepages = t.freepages; free_count = m.free_count + 1 }))
        (free_page p m)
unfolding free_page
free_page-Marked m p room =
    Returns-and_then (set_freemap-Marked m p 1 room (omega arith)) λ _ t (marked, rest).
      returns (marked, ap (λ (x : Memory). record x { free_count = x.free_count + 1 }) rest)

zero_or_one : (a : ℕ) → a < 2 → (a ≡ 0 → ⊥) → a ≡ 1
zero_or_one a lt ne = omega (arith, lt, ne)

clear_digit : (v n : ℕ) → (bit_and v (2 ^ n) == 0) ≡ true → bit_at v n ≡ 0
clear_digit v n clear = elim (Bool-cases (bit_at v n == 0)) [
  | inl off ↦ (==_iff (bit_at v n) 0).0 off
  | inr on ↦ absurd (
      and-pow_one v n (zero_or_one (bit_at v n) (bit_at-lt v n) (λ e. ground (arith, on, e)))
        ((==_iff (bit_and v (2 ^ n)) 0).0 clear))
]

still_off :
    (n v : ℕ)
    → ((i : ℕ) → i < n → bit_at v i ≡ 0)
    → bit_at v n ≡ 0
    → (i : ℕ) → i < n + 1
    → bit_at v i ≡ 0
still_off n v off here i h = elim (Bool-cases (i == n)) [
  | inl same ↦ rw ((==_iff i n).0 same) here
  | inr other ↦ off i (ground (arith, other, h))
]

pub lowest_bit-found :
    (m : Memory) (v rounds n : ℕ)
    → v ≢ 0
    → v < 2 ^ (n + rounds)
    → ((i : ℕ) → i < n → bit_at v i ≡ 0)
    → Returns (λ r t. (t ≡ m) × (r < n + rounds) × (bit_at v r ≡ 1)) (lowest_bit rounds v n m)
unfolding lowest_bit
lowest_bit-found m v zero n v_ne lt off =
    absurd (v_ne (all_zero n v (subst (λ (x : ℕ). v < 2 ^ x) (omega arith) lt) off))
lowest_bit-found m v (suc rounds) n v_ne lt off = elim (Bool-cases (bit_and v (2 ^ n) == 0)) [
  | inl clear ↦
      rw (lowest_bit, clear)
        (Returns-mono
          (lowest_bit-found m v rounds (n + 1) v_ne (subst (λ (x : ℕ). v < 2 ^ x) (omega arith) lt)
            (still_off n v off (clear_digit v n clear)))
          λ r t (same, below, on). (same, omega (arith, below), on))
  | inr set_bit ↦
      rw (lowest_bit, set_bit)
        (returns (
          refl,
          omega arith,
          zero_or_one (bit_at v n) (bit_at-lt v n)
              (λ e. ground (arith, set_bit, and-pow_zero v n e)),
        ))
]
