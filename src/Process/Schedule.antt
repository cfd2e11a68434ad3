-- ===== src/Process/Schedule.antt =====
-- ProcessSchedule of os/process.c.
use lab.Prelude.{ℕ, zero, suc, not, Bool, ◌==◌, if◌then◌else◌}
use lab.Run.{Cmd, ok, pure, starved, exitsim, when, ◌>>=◌, ◌>>◌}
use lab.Queue.Store.{Ptr, queue_success, first_of, last_of, object_of, is_empty}
use lab.Queue.Removal.{remove}
use lab.Queue.Moving.{move_after}
use lab.Kernel.{Kernel, run_queue, zombie_queue, queued, read_pcb}
use lab.Process.Transitions.{set_link, free_resources}

-- DLX_PROCESS_QUANTUM, in microseconds
abbrev pub process_quantum : ℕ
process_quantum = 10000

-- `TimerSet`: the device register of the timer.
unfoldable pub set_timer : ℕ → Cmd Kernel (Unit {0})
set_timer us k = ok tt (record k { timer = us })

unfoldable pub set_current : Ptr → Cmd Kernel (Unit {0})
set_current p k = ok tt (record k { current = p })

-- The running process, which stands in front, goes to the end of the run queue.
unfoldable pub rotate : Cmd Kernel ℕ
rotate = do
  z ← queued (last_of run_queue)
  f ← queued (first_of run_queue)
  queued (move_after run_queue z f)

-- The process at the head of the run queue becomes the current one.
unfoldable pub dispatch : Cmd Kernel (Unit {0})
dispatch = do f ← queued (first_of run_queue); p ← queued (object_of f); set_current p

-- `MemoryFreeSharedPte` comes with the object file lib/share_memory.o.
module _ (free_shared_pte : Ptr → ℕ → Cmd Kernel (Unit {0})) where
  -- The loop that frees the zombies, at most `rounds` of them.
  unfoldable pub reap : ℕ → Cmd Kernel (Unit {0})
  reap zero = starved
  reap (suc rounds) = do
    none_left ← queued (is_empty zombie_queue)
    if none_left then pure tt else do
      l ← queued (first_of zombie_queue)
      p ← queued (object_of l)
      r ← read_pcb p
      (status, l') ← queued (remove r.link)
      set_link p l'
      if not (status == queue_success)
          then exitsim
          else do free_resources free_shared_pte p; reap rounds

  -- `ProcessSchedule`. There are 32 PCBs, so 33 rounds free all zombies. With no process to run the
  -- simulator stops, whether or not processes sleep.
  unfoldable pub schedule : Bool → Cmd Kernel (Unit {0})
  schedule suspended = do
    idle ← queued (is_empty run_queue)
    if idle then exitsim else do
      when (not suspended) (rotate >> pure tt)
      dispatch
      reap 33
      set_timer process_quantum
