-- ===== src/Prelude/Bits.antt =====
-- The binary digits of a number, and what the bitwise operations do to each of them.
use Prim.Native.Nat.{
  ℕ, zero, suc, ◌+◌, ◌-◌, ◌*◌, ◌/◌, ◌%◌, ◌^◌, ◌≤◌, ◌<◌, min, max, differ, digits, bit_and, bit_or,
  bit_xor, bit_and-bitwise, bit_or-bitwise, bit_xor-bitwise,
}
use mathlib.Core.Path.{◌≡◌, refl, sym, ap, ◌∙◌}
use mathlib.Core.Logic.{◌≢◌, inl, inr}
use native.Mathlib.Omega.{arith}
use lab.Prelude.Tests.{◌==◌, ==_iff, Bool-cases}

-- The digit at place `i`, counted from the lowest one.
abbrev pub bit_at : ℕ → ℕ → ℕ
bit_at w zero = w % 2
bit_at w (suc i) = bit_at (w / 2) i

pub bit_at-zero : (i : ℕ) → bit_at 0 i ≡ 0
bit_at-zero zero = refl
bit_at-zero (suc i) = bit_at-zero i

pub bit_at-lt : (w i : ℕ) → bit_at w i < 2
bit_at-lt w zero = omega arith
bit_at-lt w (suc i) = bit_at-lt (w / 2) i

module _ (z : ℕ → ℕ) (f : ℕ → ℕ → ℕ) (small : (x y : ℕ) → x < 2 → y < 2 → f x y < 2)
    (run_out : (b i : ℕ) → bit_at (z b) i ≡ f 0 (bit_at b i)) where
  bit_at-digits : (n a b i : ℕ) → a ≤ n → bit_at (digits z f n a b) i ≡ f (bit_at a i) (bit_at b i)
  bit_at-digits zero zero b i enough = rw (bit_at-zero i) (run_out b i)
  bit_at-digits zero (suc a) b i enough = absurd (omega (arith, enough))
  bit_at-digits (suc n) zero b i enough = rw (bit_at-zero i) (run_out b i)
  bit_at-digits (suc n) (suc a) b zero enough =
      omega (arith, small (suc a % 2) (b % 2) (omega arith) (omega arith))
  bit_at-digits (suc n) (suc a) b (suc i) enough =
      let rest = digits z f n (suc a / 2) (b / 2) in
      let half : (rest * 2 + f (suc a % 2) (b % 2)) / 2 ≡ rest =
        omega (arith, small (suc a % 2) (b % 2) (omega arith) (omega arith)) in
      ap (λ (x : ℕ). bit_at x i) half
      ∙ bit_at-digits n (suc a / 2) (b / 2) i (omega (arith, enough))

min-lt : (x y : ℕ) → x < 2 → y < 2 → min x y < 2
min-lt x y p q = omega (arith, p, q)

max-lt : (x y : ℕ) → x < 2 → y < 2 → max x y < 2
max-lt x y p q = omega (arith, p, q)

differ-lt : (x y : ℕ) → x < 2 → y < 2 → differ x y < 2
differ-lt zero y p q = q
differ-lt (suc x) zero p q = p
differ-lt (suc zero) (suc y) p q = omega (arith, q)
differ-lt (suc (suc x)) (suc y) p q = absurd (omega (arith, p))

pub bit_at-and : (a b i : ℕ) → bit_at (bit_and a b) i ≡ min (bit_at a i) (bit_at b i)
bit_at-and a b i =
    rw (bit_and-bitwise a b)
      (bit_at-digits (λ y. 0) min min-lt (λ y j. bit_at-zero j ∙ omega arith) a a b i (omega arith))

pub bit_at-or : (a b i : ℕ) → bit_at (bit_or a b) i ≡ max (bit_at a i) (bit_at b i)
bit_at-or a b i =
    rw (bit_or-bitwise a b)
      (bit_at-digits (λ y. y) max max-lt (λ y j. omega arith) a a b i (omega arith))

pub bit_at-xor : (a b i : ℕ) → bit_at (bit_xor a b) i ≡ differ (bit_at a i) (bit_at b i)
bit_at-xor a b i =
    rw (bit_xor-bitwise a b)
      (bit_at-digits (λ y. y) differ differ-lt (λ y j. refl) a a b i (omega arith))

-- A power of two has one digit.
half-pow : (n : ℕ) → 2 ^ suc n / 2 ≡ 2 ^ n
half-pow n = omega arith

even-pow : (n : ℕ) → 2 ^ suc n % 2 ≡ 0
even-pow n = omega arith

pub bit_at-pow_self : (n : ℕ) → bit_at (2 ^ n) n ≡ 1
bit_at-pow_self zero = refl
bit_at-pow_self (suc n) = ap (λ (x : ℕ). bit_at x n) (half-pow n) ∙ bit_at-pow_self n

pub bit_at-pow_ne : (n i : ℕ) → i ≢ n → bit_at (2 ^ n) i ≡ 0
bit_at-pow_ne zero zero ne = absurd (ne refl)
bit_at-pow_ne zero (suc i) ne = bit_at-zero i
bit_at-pow_ne (suc n) zero ne = even-pow n
bit_at-pow_ne (suc n) (suc i) ne =
    ap (λ (x : ℕ). bit_at x i) (half-pow n) ∙ bit_at-pow_ne n i (λ e. ne (ap suc e))

-- A number below `2 ^ n` whose lowest `n` digits are 0 is 0.
pub all_zero : (n w : ℕ) → w < 2 ^ n → ((i : ℕ) → i < n → bit_at w i ≡ 0) → w ≡ 0
all_zero zero w lt off = omega (arith, lt)
all_zero (suc n) w lt off =
    let rest : w / 2 ≡ 0 =
      all_zero n (w / 2) (omega (arith, lt, half-pow n)) (λ i h. off (suc i) (omega (arith, h))) in
    omega (arith, rest, off 0 (omega arith))

lt_pow : (w : ℕ) → w < 2 ^ w
lt_pow zero = omega arith
lt_pow (suc w) = omega (arith, lt_pow w)

-- The test `w & (1 << n)` reads digit `n`.
pub and-pow_zero : (w n : ℕ) → bit_at w n ≡ 0 → bit_and w (2 ^ n) ≡ 0
and-pow_zero w n off =
    all_zero (bit_and w (2 ^ n)) (bit_and w (2 ^ n)) (lt_pow (bit_and w (2 ^ n))) λ i h.
      bit_at-and w (2 ^ n) i ∙ elim (Bool-cases (i == n)) [
        | inl same ↦ rw ((==_iff i n).0 same, off) (omega arith)
        | inr other ↦ rw (bit_at-pow_ne n i (λ e. ground (arith, other, e))) (omega arith)
      ]

pub and-pow_one : (w n : ℕ) → bit_at w n ≡ 1 → bit_and w (2 ^ n) ≢ 0
and-pow_one w n on none_set =
    let both : bit_at 0 n ≡ min 1 1 =
      ap (λ (x : ℕ). bit_at x n) (sym none_set)
      ∙ bit_at-and w (2 ^ n) n
      ∙ rw (on, bit_at-pow_self n) refl in
    omega (arith, both, bit_at-zero n)

bit_at-ones : (n i : ℕ) → i < n → bit_at (2 ^ n - 1) i ≡ 1
bit_at-ones zero i h = absurd (omega (arith, h))
bit_at-ones (suc n) zero h = omega (arith, lt_pow n)
bit_at-ones (suc n) (suc i) h =
    let half : (2 ^ suc n - 1) / 2 ≡ 2 ^ n - 1 = omega (arith, lt_pow n) in
    ap (λ (x : ℕ). bit_at x i) half ∙ bit_at-ones n i (omega (arith, h))

pub all_ones : (i : ℕ) → i < 32 → bit_at 0xffff_ffff i ≡ 1
all_ones i h = bit_at-ones 32 i h

-- Digit `n` of a word is cleared.
pub bit_at-cleared_self :
    (w n : ℕ) → n < 32 → bit_at (bit_and w (bit_xor (2 ^ n) 0xffff_ffff)) n ≡ 0
bit_at-cleared_self w n h =
    bit_at-and w (bit_xor (2 ^ n) 0xffff_ffff) n
    ∙ rw (bit_at-xor (2 ^ n) 0xffff_ffff n, bit_at-pow_self n, all_ones n h) (omega arith)

pub bit_at-cleared_ne :
    (w n i : ℕ) → i < 32 → i ≢ n → bit_at (bit_and w (bit_xor (2 ^ n) 0xffff_ffff)) i ≡ bit_at w i
bit_at-cleared_ne w n i h ne =
    bit_at-and w (bit_xor (2 ^ n) 0xffff_ffff) i
    ∙ rw (bit_at-xor (2 ^ n) 0xffff_ffff i, bit_at-pow_ne n i ne, all_ones i h)
        (omega (arith, bit_at-lt w i))

digits-le : (n a b : ℕ) → a ≤ n → digits (λ y. 0) min n a b ≤ a
digits-le zero zero b enough = omega arith
digits-le zero (suc a) b enough = absurd (omega (arith, enough))
digits-le (suc n) zero b enough = omega arith
digits-le (suc n) (suc a) b enough =
    omega (arith, digits-le n (suc a / 2) (b / 2) (omega (arith, enough)))

pub and-le : (a b : ℕ) → bit_and a b ≤ a
and-le a b = rw (bit_and-bitwise a b) (digits-le a a b (omega arith))
