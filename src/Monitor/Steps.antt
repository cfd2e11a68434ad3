-- ===== src/Monitor/Steps.antt =====
-- The programs of apps/q4 as processes that take their turns in any order. The lock and the condition
-- variables are those of os/synch.c: a process that is woken has been given the lock. Messages, the
-- mapping of the page and the semaphore for the end are left out.
use lab.Prelude.{
  ℕ, ◌+◌, Bool, false, not, List, [], ◌∷◌, ◌++◌, Option, none, some, ltb, ◌==◌, if◌then◌else◌,
}
use lab.Queue.Store.{update}
use lab.Buffer.Ring.{Ring, next_idx}
use lab.Slots.Steps.{digit, put_item, advance}

-- Where a process is, with the index of its depot. A producer wants the lock, checks for room, writes,
-- signals `not_empty` and gives the lock back. A consumer wants the lock, checks for data, looks at the
-- oldest item, takes it, signals `not_full` and gives the lock back.
pub data Point : Type 0 where
  start_product check_room write tell_data unlock_product : ℕ → Point
  start_item check_data look take tell_room unlock_item : ℕ → Point
  over : Point

-- `shared_buffer`, with the owner and the queues of its lock and condition variables in place of their
-- handles, the places of the processes, and two histories that no program reads: the items that were
-- written so far and those that were removed.
pub record Monitor : Type 0 where
  pub ring : Ring
  pub owner : Option ℕ
  pub lock_waiting : List ℕ
  pub not_full : List ℕ
  pub not_empty : List ℕ
  pub points : ℕ → Point
  pub sent : List ℕ
  pub received : List ℕ

-- The tests of the two loops.
unfoldable pub resume_product : ℕ → Point
resume_product i = if ltb i 10 then start_product i else over

unfoldable pub resume_item : ℕ → Point
resume_item i = if ltb i 10 then start_item i else over

unfoldable pub go_to : ℕ → Point → Monitor → Monitor
go_to p v s = record s { points = update s.points p v }

-- `lock_acquire`; the process goes on at `v`, at once or once it has been given the lock.
unfoldable pub acquire : ℕ → Point → Option ℕ → Monitor → Monitor
unfolding go_to
acquire p v none s = go_to p v (record s { owner = some p })
acquire p v (some q) s = go_to p v (record s { lock_waiting = s.lock_waiting ++ p ∷ [] })

-- The lock goes to the first process that waits for it, if any: `lock_release`, and a part of
-- `cond_wait`.
unfoldable pub pass_to : List ℕ → Monitor → Monitor
pass_to [] s = record s { owner = none }
pass_to (q ∷ qs) s = record s { owner = some q; lock_waiting = qs }

unfoldable pub release : Monitor → Monitor
unfolding pass_to
release s = pass_to s.lock_waiting s

-- `cond_wait` on `not_full` and on `not_empty`.
unfoldable pub wait_room : ℕ → Monitor → Monitor
unfolding release
wait_room p s = release (record s { not_full = s.not_full ++ p ∷ [] })

unfoldable pub wait_data : ℕ → Monitor → Monitor
unfolding release
wait_data p s = release (record s { not_empty = s.not_empty ++ p ∷ [] })

-- `cond_signal` on `not_empty` and on `not_full`, with the processes that wait there: the first of them
-- is given the lock, and the caller waits for it.
unfoldable pub signal_data : ℕ → List ℕ → Monitor → Monitor
signal_data p [] s = s
signal_data p (q ∷ qs) s = record s {
  owner = some q;
  not_empty = qs;
  lock_waiting = s.lock_waiting ++ p ∷ [];
}

unfoldable pub signal_room : ℕ → List ℕ → Monitor → Monitor
signal_room p [] s = s
signal_room p (q ∷ qs) s = record s {
  owner = some q;
  not_full = qs;
  lock_waiting = s.lock_waiting ++ p ∷ [];
}

-- The part of the producer's loop between two calls, for the process that has the lock.
unfoldable pub act_product : ℕ → Point → Monitor → Monitor
unfolding go_to release wait_room signal_data
act_product p (check_room i) s =
    if next_idx s.ring.w_idx == s.ring.r_idx
    then wait_room p (go_to p (write i) s)
    else go_to p (write i) s
act_product p (write i) s =
    go_to p (tell_data i)
      (record s { ring = put_item (digit i) s.ring; sent = s.sent ++ digit i ∷ [] })
act_product p (tell_data i) s = signal_data p s.not_empty (go_to p (unlock_product i) s)
act_product p (unlock_product i) s = release (go_to p (resume_product (i + 1)) s)
act_product p v s = s

-- The part of the consumer's loop between two calls, for the process that has the lock.
unfoldable pub act_item : ℕ → Point → Monitor → Monitor
unfolding go_to release wait_data signal_room
act_item p (check_data i) s =
    if s.ring.w_idx == s.ring.r_idx then wait_data p (go_to p (look i) s) else go_to p (look i) s
act_item p (look i) s =
    if not (s.ring.buffer s.ring.r_idx == digit i)
    then go_to p (unlock_item i) s
    else go_to p (take i) s
act_item p (take i) s =
    go_to p (tell_room i)
      (record s { ring = advance s.ring; received = s.received ++ s.ring.buffer s.ring.r_idx ∷ [] })
act_item p (tell_room i) s = signal_room p s.not_full (go_to p (unlock_item (i + 1)) s)
act_item p (unlock_item i) s = release (go_to p (resume_item i) s)
act_item p v s = s

unfoldable pub act : ℕ → Point → Monitor → Monitor
unfolding act_product act_item
act p (start_product i) s = s
act p (start_item i) s = s
act p (check_room i) s = act_product p (check_room i) s
act p (write i) s = act_product p (write i) s
act p (tell_data i) s = act_product p (tell_data i) s
act p (unlock_product i) s = act_product p (unlock_product i) s
act p (check_data i) s = act_item p (check_data i) s
act p (look i) s = act_item p (look i) s
act p (take i) s = act_item p (take i) s
act p (tell_room i) s = act_item p (tell_room i) s
act p (unlock_item i) s = act_item p (unlock_item i) s
act p over s = s

unfoldable pub is_owner : Option ℕ → ℕ → Bool
is_owner none p = false
is_owner (some q) p = q == p

-- A turn of the process `p`. One that has called `lock_acquire`, `cond_wait` or `cond_signal` goes on when
-- it has the lock.
unfoldable pub turn_at : ℕ → Point → Monitor → Monitor
unfolding act acquire is_owner
turn_at p (start_product i) s = acquire p (check_room i) s.owner s
turn_at p (start_item i) s = acquire p (check_data i) s.owner s
turn_at p v s = if is_owner s.owner p then act p v s else s

unfoldable pub turn : ℕ → Monitor → Monitor
unfolding turn_at
turn p s = turn_at p (s.points p) s

-- The processes take turns in the given order.
unfoldable pub run : List ℕ → Monitor → Monitor
run [] s = s
run (p ∷ ps) s = run ps (turn p s)

-- The processes that makeprocs.c creates: `n` producers, then `n` consumers.
unfoldable pub launched : ℕ → ℕ → Point
launched n p = if ltb p n then resume_product 0 else if ltb p (n + n) then resume_item 0 else over

-- The state that makeprocs.c sets up, over a page with the given contents.
unfoldable pub initial : (ℕ → ℕ) → ℕ → Monitor
initial page n = record {
  ring = record { w_idx = 0; r_idx = 0; buffer = page };
  owner = none;
  lock_waiting = [];
  not_full = [];
  not_empty = [];
  points = launched n;
  sent = [];
  received = [];
}
