-- ===== src/Buffer/RingLaws.antt =====
-- The circular buffer of apps/q2 against a queue of at most 31 items.
use lab.Prelude.{
  ℕ, suc, ◌+◌, ◌%◌, ◌≡◌, ◌≢◌, ◌<◌, refl, ap, true, false, List, [], ◌∷◌, ◌++◌, arith, ◌==◌, ==_ne,
  ==_self, length, length-append,
}
use lab.Queue.Store.{update}
use lab.Buffer.Ring.{buffer_size, Ring, next_idx, insert, remove_item}

-- The items `xs` stand in the buffer from index `i` on, and `w` is the index behind them.
abbrev pub Stands : (ℕ → ℕ) → ℕ → List ℕ → ℕ → Type 0
Stands f i [] w = w ≡ i
Stands f i (x ∷ xs) w = (f i ≡ x) × Stands f (next_idx i) xs w

-- The buffer holds the items `xs`, oldest first.
pub record IsRing (b : Ring) (xs : List ℕ) : Type 0 where
  pub in_range : b.r_idx < buffer_size
  pub room : length xs < buffer_size
  pub stands : Stands b.buffer b.r_idx xs b.w_idx

-- Where the items end.
pub Stands-end :
    (f : ℕ → ℕ) (i w : ℕ) (xs : List ℕ)
    → i < buffer_size
    → Stands f i xs w
    → w ≡ (i + length xs) % buffer_size
Stands-end f i w [] lt e = ground (arith, e)
Stands-end f i w (x ∷ xs) lt (here, rest) =
    omega (arith, Stands-end f (next_idx i) w xs (omega arith) rest)

-- An item behind the others: the index `w` is none of theirs.
pub Stands-snoc :
    (f : ℕ → ℕ) (i w v : ℕ) (xs : List ℕ)
    → i < buffer_size
    → length xs < buffer_size
    → Stands f i xs w
    → Stands (update f w v) i (xs ++ v ∷ []) (next_idx w)
unfolding update
Stands-snoc f i w v [] lt few e = (rw (e, ==_self i) refl, ap next_idx e)
Stands-snoc f i w v (x ∷ xs) lt few (here, rest) =
    let far : i ≢ w = omega (arith, Stands-end f (next_idx i) w xs (omega arith) rest, few, lt) in
    (
      rw (==_ne i w far) here,
      Stands-snoc f (next_idx i) w v xs (omega arith) (omega (arith, few)) rest,
    )

-- The buffer counts as full exactly when it holds 31 items, and as empty exactly when it holds none.
pub full-length :
    (b : Ring) (xs : List ℕ)
    → IsRing b xs
    → ((next_idx b.w_idx ≡ b.r_idx) → suc (length xs) ≡ buffer_size)
      × (suc (length xs) ≡ buffer_size → next_idx b.w_idx ≡ b.r_idx)
full-length b xs is =
    let end = Stands-end b.buffer b.r_idx b.w_idx xs is.in_range is.stands in
    ((λ e. omega (arith, end, e, is.in_range, is.room)), λ e. omega (arith, end, e, is.in_range))

-- The critical section of producer.c appends the product while fewer than 31 items are in the buffer.
pub insert-append :
    (b : Ring) (xs : List ℕ) (product : ℕ)
    → IsRing b xs
    → suc (length xs) < buffer_size
    → ((insert product b).0 ≡ true) × IsRing (insert product b).1 (xs ++ product ∷ [])
unfolding insert
insert-append b xs product is few =
    let not_full : (next_idx b.w_idx == b.r_idx) ≡ false =
      ==_ne (next_idx b.w_idx) b.r_idx (λ e. omega (arith, few, (full-length b xs is).0 e)) in
    rw not_full (
      refl,
      record {
        in_range = is.in_range;
        room = omega (arith, few, length-append {0} xs (product ∷ []));
        stands = Stands-snoc b.buffer b.r_idx b.w_idx product xs is.in_range is.room is.stands;
      },
    )

-- The critical section of producer.c refuses the product when the buffer holds 31 items, and leaves
-- the buffer alone.
pub insert-refused :
    (b : Ring) (xs : List ℕ) (product : ℕ)
    → IsRing b xs
    → suc (length xs) ≡ buffer_size
    → insert product b ≡ (false, b)
unfolding insert
insert-refused b xs product is full = rw ((full-length b xs is).1 full, ==_self b.r_idx) refl

pub not_empty : (b : Ring) (x : ℕ) (xs : List ℕ) → IsRing b (x ∷ xs) → (b.w_idx == b.r_idx) ≡ false
not_empty b x xs is =
    let end = Stands-end b.buffer b.r_idx b.w_idx (x ∷ xs) is.in_range is.stands in
    ==_ne b.w_idx b.r_idx (λ e. omega (arith, end, e, is.in_range, is.room))

-- The critical section of consumer.c takes the oldest item if it is the expected one; the others stay
-- in their order.
pub remove_item-head :
    (b : Ring) (x : ℕ) (xs : List ℕ)
    → IsRing b (x ∷ xs)
    → ((remove_item x b).0 ≡ true) × IsRing (remove_item x b).1 xs
unfolding remove_item
remove_item-head b x xs is =
    rw (not_empty b x xs is, is.stands.0, ==_self x)
      (
        refl,
        record {
          in_range = omega (arith, is.in_range);
          room = omega (arith, is.room);
          stands = is.stands.1;
        },
      )

-- The critical section of consumer.c leaves the buffer alone if the oldest item is not the expected
-- one.
pub remove_item-other :
    (b : Ring) (x : ℕ) (xs : List ℕ) (expected : ℕ)
    → IsRing b (x ∷ xs)
    → x ≢ expected
    → remove_item expected b ≡ (false, b)
unfolding remove_item
remove_item-other b x xs expected is ne =
    rw (not_empty b x xs is, is.stands.0, ==_ne x expected ne) refl
