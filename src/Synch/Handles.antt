-- ===== src/Synch/Handles.antt =====
-- What the routines of os/synch.c share: return codes, ranges of handles, and the tables.
use lab.Prelude.{ℕ, zero, suc, ◌+◌, true, leb, if◌then◌else◌}
use lab.Prelude.Int.{ℤ, pos, negsuc}
use lab.Run.{Cmd, ok, pure, ◌>>=◌, ◌>>◌}
use lab.Queue.Store.{Ptr, update}
use lab.Kernel.{Kernel, Sem, Lock, Cond}
use lab.Process.Transitions.{suspend}
use lab.Process.Schedule.{schedule}

-- SYNC_SUCCESS and SYNC_FAIL; INVALID_COND and INVALID_LOCK are SYNC_FAIL too.
abbrev pub sync_success : ℤ
sync_success = pos 1

abbrev pub sync_fail : ℤ
sync_fail = negsuc 0

abbrev pub max_sems : ℕ
max_sems = 32

abbrev pub max_locks : ℕ
max_locks = 64

abbrev pub max_conds : ℕ
max_conds = 32

-- How a call ends for its caller: it returns, or the process lies in ProcessSleep() with the
-- interrupt level that it is to restore once it runs again.
pub data Outcome : Type 0 where
  returned : ℤ → Outcome
  asleep : ℕ → Outcome

-- A handle that a range check lets pass, as an index, or one that it refuses.
pub data Handle : Type 0 where
  index : ℕ → Handle
  bad : Handle

unfoldable pub in_table : ℕ → ℤ → Handle
in_table n (pos i) = if leb n i then bad else index i
in_table n (negsuc i) = bad

unfoldable pub read_sem : ℕ → Cmd Kernel Sem
read_sem i k = ok (k.sems i) k

unfoldable pub write_sem : ℕ → (Sem → Sem) → Cmd Kernel (Unit {0})
write_sem i f k = ok tt (record k { sems = update k.sems i (f (k.sems i)) })

unfoldable pub read_lock : ℕ → Cmd Kernel Lock
read_lock i k = ok (k.locks i) k

unfoldable pub write_lock : ℕ → (Lock → Lock) → Cmd Kernel (Unit {0})
write_lock i f k = ok tt (record k { locks = update k.locks i (f (k.locks i)) })

unfoldable pub read_cond : ℕ → Cmd Kernel Cond
read_cond i k = ok (k.conds i) k

unfoldable pub write_cond : ℕ → (Cond → Cond) → Cmd Kernel (Unit {0})
write_cond i f k = ok tt (record k { conds = update k.conds i (f (k.conds i)) })

unfoldable pub current_pcb : Cmd Kernel Ptr
current_pcb k = ok k.current k

-- The loops of `SynchModuleInit`.
unfoldable pub clear_sems : ℕ → ℕ → Cmd Kernel (Unit {0})
clear_sems zero i = pure tt
clear_sems (suc rounds) i = do write_sem i (λ s. record s { inuse = 0 }); clear_sems rounds (i + 1)

unfoldable pub clear_locks : ℕ → ℕ → Cmd Kernel (Unit {0})
clear_locks zero i = pure tt
clear_locks (suc rounds) i = do
  write_lock i (λ l. record l { inuse = 0 })
  clear_locks rounds (i + 1)

unfoldable pub clear_conds : ℕ → ℕ → Cmd Kernel (Unit {0})
clear_conds zero i = pure tt
clear_conds (suc rounds) i = do
  write_cond i (λ c. record c { inuse = 0 })
  clear_conds rounds (i + 1)

-- `SynchModuleInit`
unfoldable pub synch_init : Cmd Kernel ℤ
synch_init = do
  clear_sems max_sems 0
  clear_locks max_locks 0
  clear_conds max_conds 0
  pure sync_success

-- `ProcessSleep`: the trap 0x410, whose handler suspends the running process and schedules another.
module _ (free_shared_pte : Ptr → ℕ → Cmd Kernel (Unit {0})) where
  unfoldable pub process_sleep : Cmd Kernel (Unit {0})
  process_sleep = do p ← current_pcb; suspend p; schedule free_shared_pte true
