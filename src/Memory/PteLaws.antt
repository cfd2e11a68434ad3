-- ===== src/Memory/PteLaws.antt =====
-- MemorySetupPte and the page that MemoryFreePte takes out of an entry, of os/memory.c.
use Prim.Native.Nat.{bit_and, bit_or, min, max}
use lab.Prelude.{
  ℕ, zero, suc, ◌+◌, ◌*◌, ◌^◌, ◌%◌, ◌/◌, ◌<◌, ◌≤◌, ◌≡◌, ap, ◌∙◌, arith, ltb, Bool-cases, inl, inr,
}
use lab.Prelude.Bits.{bit_at, bit_at-zero, bit_at-lt, bit_at-and, bit_at-or, all_ones}
use lab.Memory.Freemap.{page_size}
use lab.Memory.Address.{setup_pte, page_of_pte, pte_mask, pte_valid}

-- Two numbers with the same binary digits are equal.
bits-eq : (n a b : ℕ) → a ≤ n → b ≤ n → ((i : ℕ) → bit_at a i ≡ bit_at b i) → a ≡ b
bits-eq zero a b a_le b_le same = omega (arith, a_le, b_le)
bits-eq (suc n) a b a_le b_le same =
    let halves : a / 2 ≡ b / 2 =
      bits-eq n (a / 2) (b / 2) (omega (arith, a_le)) (omega (arith, b_le)) (λ i. same (suc i)) in
    omega (arith, halves, same 0)

-- A number below `2 ^ n` has no digit from place `n` on.
bit_at-beyond : (n w i : ℕ) → w < 2 ^ n → n ≤ i → bit_at w i ≡ 0
bit_at-beyond zero w i lt le = ap (λ (x : ℕ). bit_at x i) (omega (arith, lt)) ∙ bit_at-zero i
bit_at-beyond (suc n) w zero lt le = omega (arith, le)
bit_at-beyond (suc n) w (suc i) lt le =
    bit_at-beyond n (w / 2) i (omega (arith, lt)) (omega (arith, le))

-- Below the 32nd place the mask has the digit 1, but for the lowest three.
digit :
    (w j : ℕ)
    → w < 2 ^ 32
    → w % 8 ≡ 0
    → min (max (bit_at w j) (bit_at 1 j)) (bit_at pte_mask j) ≡ bit_at w j
digit w zero lt low = omega (arith, low)
digit w (suc zero) lt low = omega (arith, low)
digit w (suc (suc zero)) lt low = omega (arith, low)
digit w (suc (suc (suc j))) lt low = elim (Bool-cases (ltb j 29)) [
  | inl near ↦ omega (
    arith,
    all_ones (suc (suc (suc j))) (ground (arith, near)),
    bit_at-zero j,
    bit_at-lt w (suc (suc (suc j))),
  )
  | inr far ↦ omega (
    arith,
    bit_at-beyond 29 0x1fff_ffff j (omega arith) (ground (arith, far)),
    bit_at-beyond 32 w (suc (suc (suc j))) lt (ground (arith, far)),
  )
]

-- The page of an entry is the one that it was set up with.
pub page_of_pte-setup_pte : (page : ℕ) → page < 2 ^ 16 → page_of_pte (setup_pte page) ≡ page
unfolding page_of_pte setup_pte
page_of_pte-setup_pte page lt =
    let w = page * page_size % 2 ^ 32 in
    let same : bit_and (bit_or w pte_valid) pte_mask ≡ w =
      bits-eq (bit_and (bit_or w pte_valid) pte_mask + w) _ w (omega arith) (omega arith) (λ i.
        bit_at-and (bit_or w pte_valid) pte_mask i
        ∙ rw (bit_at-or w pte_valid i) (digit w i (omega arith) (omega arith))) in
    omega (arith, same, lt)
