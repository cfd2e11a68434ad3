-- ===== src/Slots/Claims.antt =====
-- What the processes of apps/q3 have claimed of the slots and of the lock at each point of their loops.
use lab.Prelude.{
  ℕ, ◌+◌, ◌≡◌, ◌≤◌, ◌<◌, refl, sym, ap, Bool, true, false, List, [], ◌∷◌, ◌++◌, arith, length, ltb,
  Bool-cases, inl, inr,
}
use lab.Buffer.Ring.{buffer_size, next_idx}
use lab.Buffer.RingLaws.{Stands}
use lab.Slots.Steps.{
  Shared, Proc, wait_empty, want_lock, writing, written, signal_full, lock_for, looking, matched,
  removing, removed, signal_empty, other_item, over, next_product, next_item,
}

-- 1 for a producer that has an empty slot and has not filled it.
abbrev pub to_write : Proc → ℕ
to_write (want_lock i) = 1
to_write (writing i) = 1
to_write _ = 0

-- 1 for a producer that has filled a slot and has not signalled it.
abbrev pub to_signal : Proc → ℕ
to_signal (written i) = 1
to_signal (signal_full i) = 1
to_signal _ = 0

-- 1 for a consumer that has a full slot and has not taken its item.
abbrev pub to_remove : Proc → ℕ
to_remove (removing i) = 1
to_remove _ = 0

-- 1 for a consumer that has taken an item and has not signalled the slot.
abbrev pub to_free : Proc → ℕ
to_free (removed i) = 1
to_free (signal_empty i) = 1
to_free _ = 0

-- 1 for a process that holds the lock.
abbrev pub holds_lock : Proc → ℕ
holds_lock (writing i) = 1
holds_lock (written i) = 1
holds_lock (looking i) = 1
holds_lock (matched i) = 1
holds_lock (removing i) = 1
holds_lock (removed i) = 1
holds_lock (other_item i) = 1
holds_lock _ = 0

abbrev pub bit : Bool → ℕ
bit true = 1
bit false = 0

abbrev pub sum : (Proc → ℕ) → List Proc → ℕ
sum f [] = 0
sum f (p ∷ ps) = f p + sum f ps

-- The items that were written and not removed stand in the buffer, oldest first, and the semaphores and
-- the lock account for them; the numbers are the sums over the processes.
pub record Safe (s : Shared) (u v x y h : ℕ) : Type 0 where
  pub items : List ℕ
  pub in_range : s.ring.r_idx < buffer_size
  pub stands : Stands s.ring.buffer s.ring.r_idx items s.ring.w_idx
  pub history : s.sent ≡ s.received ++ items
  pub full : length items ≡ s.full_slots + v + x
  pub empty : s.empty_slots + length items + u + y ≡ buffer_size
  pub lock : h ≡ bit s.locked

abbrev pub IsSafe : Shared → List Proc → Type 0
IsSafe s ps =
    Safe s (sum to_write ps) (sum to_signal ps) (sum to_remove ps) (sum to_free ps)
      (sum holds_lock ps)

pub sum-replace :
    (f : Proc → ℕ) (before after : List Proc) (p : Proc)
    → sum f (before ++ p ∷ after) ≡ f p + sum f (before ++ after)
sum-replace f [] after p = refl
sum-replace f (q ∷ before) after p = omega (arith, sum-replace f before after p)

-- A producer or consumer at the start of its loop has no claim.
pub idle_product :
    (f : Proc → ℕ) (i : ℕ) → ((j : ℕ) → f (wait_empty j) ≡ 0) → f over ≡ 0 → f (next_product i) ≡ 0
unfolding next_product
idle_product f i at_start at_end = elim (Bool-cases (ltb i 10)) [
  | inl more ↦ rw more (at_start i)
  | inr no_more ↦ rw no_more at_end
]

pub idle_item :
    (f : Proc → ℕ) (i : ℕ) → ((j : ℕ) → f (lock_for j) ≡ 0) → f over ≡ 0 → f (next_item i) ≡ 0
unfolding next_item
idle_item f i at_start at_end = elim (Bool-cases (ltb i 10)) [
  | inl more ↦ rw more (at_start i)
  | inr no_more ↦ rw no_more at_end
]

pub append_assoc : (xs ys zs : List ℕ) → (xs ++ ys) ++ zs ≡ xs ++ (ys ++ zs)
append_assoc [] ys zs = refl
append_assoc (x ∷ xs) ys zs = ap (λ (l : List ℕ). x ∷ l) (append_assoc xs ys zs)

pub bit-le : (b : Bool) → bit b ≤ 1
bit-le true = omega arith
bit-le false = omega arith

-- The oldest item stands at `r_idx`.
pub oldest :
    (f : ℕ → ℕ) (r w : ℕ) (xs : List ℕ)
    → Stands f r xs w
    → 0 < length xs
    → (rest : List ℕ) × (xs ≡ f r ∷ rest) × Stands f (next_idx r) rest w
oldest f r w [] stands some_item = absurd (omega (arith, some_item))
oldest f r w (x ∷ xs) (here, rest) some_item = (xs, ap (λ (z : ℕ). z ∷ xs) (sym here), rest)
