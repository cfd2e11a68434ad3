-- ===== src/Memory/MovingLaws.antt =====
-- The loop of moveBetweenSpaces of os/memory.c ends.
use lab.Prelude.{
  ℕ, zero, suc, ◌+◌, ◌-◌, ◌%◌, ◌≢◌, ◌<◌, ◌≤◌, List, Bool-cases, Option-cases, inl, inr, arith, ◌==◌,
}
use lab.Run.{out_of_fuel, Returns, returns, Returns-run}
use lab.Text.Strings.{Bytes, load, store, bcopy}
use lab.Memory.Freemap.{page_size}
use lab.Memory.Address.{translate}
use lab.Memory.Moving.{Direction, to_user, to_system, copy_chunk, chunk, move_between}

bcopy-Returns : (src dst n : ℕ) (m : Bytes) → Returns (λ r t. Unit {0}) (bcopy src dst n m)
unfolding bcopy load store
bcopy-Returns src dst zero m = returns tt
bcopy-Returns src dst (suc n) m = bcopy-Returns (src + 1) (dst + 1) n _

copy_chunk-Returns :
    (dir : Direction) (s u n : ℕ) (m : Bytes) → Returns (λ r t. Unit {0}) (copy_chunk dir s u n m)
unfolding copy_chunk
copy_chunk-Returns to_user s u n m = bcopy-Returns s u n m
copy_chunk-Returns to_system s u n m = bcopy-Returns u s n m

-- A chunk is not empty, is not longer than what is left, and does not cross the end of the page.
chunk-bounds :
    (address n : ℕ)
    → n ≢ 0
    → (1 ≤ chunk address n)
      × (chunk address n ≤ n)
      × (address % page_size + chunk address n ≤ page_size)
unfolding chunk
chunk-bounds address n n_ne = ground arith

-- `moveBetweenSpaces` ends for `n` bytes within `n + 1` rounds, whatever the page table: with more
-- rounds than bytes its loop never uses up its fuel.
pub move_between-ends :
    (rounds : ℕ) (table : List ℕ) (npages : ℕ) (dir : Direction) (s u n copied : ℕ) (m : Bytes)
    → n < rounds
    → move_between rounds table npages dir s u n copied m ≢ out_of_fuel
unfolding move_between
move_between-ends zero table npages dir s u n copied m enough = λ e. omega (arith, enough)
move_between-ends (suc rounds) table npages dir s u n copied m enough = elim (Bool-cases (n == 0)) [
  | inl done ↦ rw done (λ e. ground arith)
  | inr left ↦ elim (Option-cases (translate table npages u)) [
    | inl unmapped ↦ rw (left, unmapped) (λ e. ground arith)
    | inr (address, mapped) ↦ elim (Bool-cases (address == 0)) [
      | inl past ↦ rw (left, mapped, past) (λ e. ground arith)
      | inr inside ↦
          let (lo, hi, page) = chunk-bounds address n (λ e. ground (arith, left, e)) in
          let (r, t, unit, copied_chunk) =
            Returns-run (copy_chunk-Returns dir s address (chunk address n) m) in
          rw (left, mapped, inside, copied_chunk)
            (move_between-ends rounds table npages dir (s + chunk address n) (u + chunk address n)
              (n - chunk address n) (copied + chunk address n) t (omega (arith, lo, hi, enough)))
    ]
  ]
]
