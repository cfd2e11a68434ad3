-- ===== src/Synch/Semaphore.antt =====
-- The semaphores of os/synch.c. A semaphore goes by its index in `sems`, so its address is never
-- NULL and the tests `if (!sem)` do not fire.
use lab.Prelude.{ℕ, zero, suc, ◌+◌, not, ◌==◌, if◌then◌else◌}
use lab.Prelude.Int.{ℤ, pos, incr_ℤ, decr_ℤ, is_pos_ℤ}
use lab.Run.{Cmd, pure, exitsim, ◌>>=◌, ◌>>◌}
use lab.Queue.Store.{Ptr, null, queue_success, first_of, object_of, is_empty, init_queue}
use lab.Queue.Insertion.{insert_last}
use lab.Queue.Removal.{alloc_link, remove}
use lab.Kernel.{Kernel, queued, sem_queue, disable_intrs, restore_intrs}
use lab.Process.Transitions.{wakeup}
use lab.Synch.Handles.{
  Outcome, returned, asleep, index, bad, in_table, sync_success, sync_fail, max_sems, read_sem,
  write_sem, current_pcb, process_sleep,
}

-- The search of `SemCreate` from index `i` on; the index past the table if all are in use.
unfoldable pub grab_sem : ℕ → ℕ → Cmd Kernel ℕ
grab_sem zero i = pure i
grab_sem (suc rounds) i = do
  s ← read_sem i
  if s.inuse == 0
      then write_sem i (λ r. record r { inuse = 1 }) >> pure i
      else grab_sem rounds (i + 1)

-- `SemInit`
unfoldable pub sem_init : ℕ → ℤ → Cmd Kernel ℤ
sem_init i count = do
  status ← queued (init_queue (sem_queue i))
  if not (status == queue_success)
      then exitsim
      else do write_sem i (λ r. record r { count = count }); pure sync_success

-- `SemCreate`. `SemInit` returns SYNC_SUCCESS or not at all.
unfoldable pub sem_create : ℤ → Cmd Kernel ℤ
sem_create count = do
  level ← disable_intrs
  i ← grab_sem max_sems 0
  restore_intrs level
  if i == max_sems then pure sync_fail else do sem_init i count; pure (pos i)

-- `SemSignal`
unfoldable pub sem_signal : ℕ → Cmd Kernel ℤ
sem_signal i = do
  level ← disable_intrs
  write_sem i (λ r. record r { count = incr_ℤ r.count })
  s ← read_sem i
  if is_pos_ℤ s.count
      then (do
        nobody ← queued (is_empty (sem_queue i))
        if nobody then pure tt else do
          l ← queued (first_of (sem_queue i))
          p ← queued (object_of l)
          (status, l') ← queued (remove l)
          if not (status == queue_success)
              then exitsim
              else do wakeup p; write_sem i (λ r. record r { count = decr_ℤ r.count }))
      else pure tt
  restore_intrs level
  pure sync_success

-- `SemHandleSignal`
unfoldable pub sem_handle_signal : ℤ → Cmd Kernel ℤ
sem_handle_signal h = elim (in_table max_sems h) [
  | bad ↦ pure sync_fail
  | index i ↦ do s ← read_sem i; if s.inuse == 0 then pure sync_fail else sem_signal i
]

module _ (free_shared_pte : Ptr → ℕ → Cmd Kernel (Unit {0})) where
  -- `SemWait`
  unfoldable pub sem_wait : ℕ → Cmd Kernel Outcome
  sem_wait i = do
    level ← disable_intrs
    s ← read_sem i
    if not (is_pos_ℤ s.count)
        then (do
          p ← current_pcb
          l ← queued (alloc_link p)
          if l == null then exitsim else do
            status ← queued (insert_last (sem_queue i) l)
            if not (status == queue_success)
                then exitsim
                else do process_sleep free_shared_pte; pure (asleep level))
        else (do
          write_sem i (λ r. record r { count = decr_ℤ r.count })
          restore_intrs level
          pure (returned sync_success))

  -- `SemHandleWait`
  unfoldable pub sem_handle_wait : ℤ → Cmd Kernel Outcome
  sem_handle_wait h = elim (in_table max_sems h) [
    | bad ↦ pure (returned sync_fail)
    | index i ↦ do s ← read_sem i; if s.inuse == 0 then pure (returned sync_fail) else sem_wait i
  ]
