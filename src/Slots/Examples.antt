-- ===== src/Slots/Examples.antt =====
-- The laws of apps/q3 at a run of one producer and one consumer over an empty page.
use lab.Prelude.{ℕ, ◌≡◌, ◌≤◌, refl, List, [], ◌∷◌, ◌++◌, length, false, true}
use lab.Queue.Store.{update}
use lab.Buffer.Ring.{buffer_size}
use lab.Buffer.RingLaws.{Stands}
use lab.Slots.Steps.{
  Shared, lock_for, removing, wait_empty, digit, next_product, put_item, waited_empty,
  producer_locks, writes, producer_unlocks, signals_full, consumer_locks, finds, waited_full, Leads,
  stays, goes, set_up, spawned,
}
use lab.Slots.Runs.{spawned-fifo, spawned-Expects}

abbrev blank : ℕ → ℕ
blank i = 0

-- The shared page after the steps of the producer, with `f` full slots.
abbrev one_item : ℕ → Shared
unfolding set_up put_item
one_item f = record (set_up blank) {
  ring = put_item 48 (record { w_idx = 0; r_idx = 0; buffer = blank });
  empty_slots = 31;
  full_slots = f;
  sent = 48 ∷ [];
}

first_item :
    Leads
      (set_up blank)
      (spawned 1)
      (record (one_item 1) { locked = false })
      (lock_for 0 ∷ wait_empty 1 ∷ [])
unfolding set_up spawned next_product put_item one_item
first_item =
    goes _ _ _ (lock_for 0 ∷ []) [] _ _ _
      (goes _ _ _ (lock_for 0 ∷ []) [] _ _ _
        (goes _ _ _ (lock_for 0 ∷ []) [] _ _ _
          (goes _ _ _ (lock_for 0 ∷ []) [] _ _ _
            (goes _ _ _ (lock_for 0 ∷ []) [] _ _ _ (stays _ _)
              (waited_empty (set_up blank) 0 31 refl))
            (producer_locks _ 0 refl))
          (writes _ 0))
        (producer_unlocks _ 0))
      (signals_full _ 0)

removing_first :
    Leads
      (set_up blank)
      (spawned 1)
      (record (one_item 0) { locked = true })
      (removing 0 ∷ wait_empty 1 ∷ [])
unfolding put_item set_up one_item update
removing_first =
    goes _ _ _ [] (wait_empty 1 ∷ []) _ _ _
      (goes _ _ _ [] (wait_empty 1 ∷ []) _ _ _
        (goes _ _ _ [] (wait_empty 1 ∷ []) _ _ _ first_item (consumer_locks _ 0 refl))
        (finds _ 0 refl))
      (waited_full _ 0 0 refl)

spawned-fifo_example :
    (items : List ℕ) × (48 ∷ [] ≡ [] ++ items)
    × Stands (one_item 0).ring.buffer 0 items 1
    × (length items ≤ buffer_size)
unfolding put_item set_up one_item update
spawned-fifo_example =
    spawned-fifo blank 1 (record (one_item 0) { locked = true }) (removing 0 ∷ wait_empty 1 ∷ [])
      removing_first

spawned-Expects_example : (rest : List ℕ) × (48 ∷ [] ≡ [] ++ digit 0 ∷ rest)
unfolding set_up one_item
spawned-Expects_example =
    spawned-Expects blank 1 0 (record (one_item 0) { locked = true }) [] (wait_empty 1 ∷ [])
      removing_first
