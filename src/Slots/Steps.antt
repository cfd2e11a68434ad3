-- ===== src/Slots/Steps.antt =====
-- The programs of apps/q3 as processes that take one step at a time, in any order. The semaphores are
-- their counts, and the lock is a bit; messages and the semaphore for the end are left out.
use lab.Prelude.{
  ℕ, suc, ◌+◌, ◌≡◌, ◌≢◌, Bool, true, false, List, [], ◌∷◌, ◌++◌, ltb, if◌then◌else◌, replicate,
}
use lab.Queue.Store.{update}
use lab.Buffer.Ring.{Ring, buffer_size, next_idx}

-- `shared_buffer`, without the number of processes, and two histories that no program reads: the
-- items that were written so far and those that were removed.
pub record Shared : Type 0 where
  pub ring : Ring
  pub empty_slots : ℕ
  pub full_slots : ℕ
  pub locked : Bool
  pub sent : List ℕ
  pub received : List ℕ

-- Where a process is, with the index of its depot. A producer waits for an empty slot, wants the lock,
-- writes, has written, and signals a full slot. A consumer wants the lock and looks at the oldest item;
-- it waits for a full slot, removes the item, has removed it and signals an empty slot, or it found
-- another item and gives the lock back.
pub data Proc : Type 0 where
  wait_empty want_lock writing written signal_full : ℕ → Proc
  lock_for looking matched removing removed signal_empty other_item : ℕ → Proc
  over : Proc

-- The item at an index of the producer's depot, the digits in order; also `expected_item`.
abbrev pub digit : ℕ → ℕ
digit i = i + 48

-- The tests of the two loops.
unfoldable pub next_product : ℕ → Proc
next_product i = if ltb i 10 then wait_empty i else over

unfoldable pub next_item : ℕ → Proc
next_item i = if ltb i 10 then lock_for i else over

-- The assignments of producer.c between its `lock_acquire` and `lock_release`.
unfoldable pub put_item : ℕ → Ring → Ring
put_item product b = record b { buffer = update b.buffer b.w_idx product; w_idx = next_idx b.w_idx }

-- The assignment to `r_idx` in consumer.c.
unfoldable pub advance : Ring → Ring
advance b = record b { r_idx = next_idx b.r_idx }

-- One step of a process.
pub data Step : Shared → Proc → Shared → Proc → Type 0 where
  waited_empty :
      (s : Shared) (i k : ℕ)
      → s.empty_slots ≡ suc k
      → Step s (wait_empty i) (record s { empty_slots = k }) (want_lock i)
  producer_locks :
      (s : Shared) (i : ℕ)
      → s.locked ≡ false
      → Step s (want_lock i) (record s { locked = true }) (writing i)
  writes :
      (s : Shared) (i : ℕ)
      → Step s
          (writing i)
          (record s { ring = put_item (digit i) s.ring; sent = s.sent ++ digit i ∷ [] })
          (written i)
  producer_unlocks :
      (s : Shared) (i : ℕ) → Step s (written i) (record s { locked = false }) (signal_full i)
  signals_full :
      (s : Shared) (i : ℕ)
      → Step s (signal_full i) (record s { full_slots = suc s.full_slots }) (next_product (i + 1))
  consumer_locks :
      (s : Shared) (i : ℕ)
      → s.locked ≡ false
      → Step s (lock_for i) (record s { locked = true }) (looking i)
  finds :
      (s : Shared) (i : ℕ) → s.ring.buffer s.ring.r_idx ≡ digit i → Step s (looking i) s (matched i)
  misses :
      (s : Shared) (i : ℕ)
      → s.ring.buffer s.ring.r_idx ≢ digit i
      → Step s (looking i) s (other_item i)
  waited_full :
      (s : Shared) (i k : ℕ)
      → s.full_slots ≡ suc k
      → Step s (matched i) (record s { full_slots = k }) (removing i)
  removes :
      (s : Shared) (i : ℕ)
      → Step s
          (removing i)
          (record s {
            ring = advance s.ring;
            received = s.received ++ s.ring.buffer s.ring.r_idx ∷ [];
          })
          (removed i)
  consumer_unlocks :
      (s : Shared) (i : ℕ) → Step s (removed i) (record s { locked = false }) (signal_empty i)
  signals_empty :
      (s : Shared) (i : ℕ)
      → Step s (signal_empty i) (record s { empty_slots = suc s.empty_slots }) (next_item (i + 1))
  gives_up : (s : Shared) (i : ℕ) → Step s (other_item i) (record s { locked = false }) (lock_for i)

-- What the processes may do, one step at a time and in any order.
pub data Leads : Shared → List Proc → Shared → List Proc → Type 0 where
  stays : (s : Shared) (ps : List Proc) → Leads s ps s ps
  goes :
      (s t u : Shared) (before after : List Proc) (p q : Proc) (ps : List Proc)
      → Leads s ps t (before ++ p ∷ after)
      → Step t p u q
      → Leads s ps u (before ++ q ∷ after)

-- The state that makeprocs.c sets up, over a page with the given contents.
unfoldable pub set_up : (ℕ → ℕ) → Shared
set_up page = record {
  ring = record { w_idx = 0; r_idx = 0; buffer = page };
  empty_slots = buffer_size;
  full_slots = 0;
  locked = false;
  sent = [];
  received = [];
}

-- The processes that makeprocs.c creates: `n` consumers, then `n` producers.
unfoldable pub spawned : ℕ → List Proc
unfolding next_product next_item
spawned n = replicate n (next_item 0) ++ replicate n (next_product 0)
