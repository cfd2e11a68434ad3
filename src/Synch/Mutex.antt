-- ===== src/Synch/Mutex.antt =====
-- The locks of os/synch.c. A lock goes by its index in `locks`, so the tests `if (!k)` do not fire.
use lab.Prelude.{ℕ, zero, suc, ◌+◌, not, ◌==◌, if◌then◌else◌}
use lab.Prelude.Int.{ℤ, pos, negsuc, is_neg_ℤ, eqb_ℤ}
use lab.Run.{Cmd, pure, exitsim, starved, ◌>>=◌, ◌>>◌}
use lab.Queue.Store.{
  Ptr, null, queue_success, queue_max_links, first_of, object_of, next_of, is_empty, init_queue,
}
use lab.Queue.Insertion.{insert_last}
use lab.Queue.Removal.{alloc_link, remove}
use lab.Kernel.{Kernel, queued, lock_queue, pid_of, current_pid, disable_intrs, restore_intrs}
use lab.Process.Transitions.{wakeup}
use lab.Synch.Handles.{
  Outcome, returned, asleep, index, bad, in_table, sync_success, sync_fail, max_locks, read_lock,
  write_lock, current_pcb, process_sleep,
}

-- The search of `LockCreate` from index `i` on.
unfoldable pub grab_lock : ℕ → ℕ → Cmd Kernel ℕ
grab_lock zero i = pure i
grab_lock (suc rounds) i = do
  s ← read_lock i
  if s.inuse == 0
      then write_lock i (λ r. record r { inuse = 1 }) >> pure i
      else grab_lock rounds (i + 1)

unfoldable pub set_owner : ℕ → ℤ → Cmd Kernel (Unit {0})
unfolding write_lock
set_owner i pid = write_lock i (λ r. record r { pid = pid })

-- `LockInit`
unfoldable pub lock_init : ℕ → Cmd Kernel ℤ
lock_init i = do
  status ← queued (init_queue (lock_queue i))
  if not (status == queue_success) then exitsim else do set_owner i (negsuc 0); pure sync_success

-- `LockCreate`. `LockInit` returns SYNC_SUCCESS or not at all.
unfoldable pub lock_create : Cmd Kernel ℤ
lock_create = do
  level ← disable_intrs
  i ← grab_lock max_locks 0
  restore_intrs level
  if i == max_locks then pure sync_fail else do lock_init i; pure (pos i)

-- A lock goes to the first process that waits for it, if there is one: the second half of
-- `LockRelease`, which `CondWait` repeats.
unfoldable pub pass_on : ℕ → Cmd Kernel (Unit {0})
pass_on i = do
  set_owner i (negsuc 0)
  nobody ← queued (is_empty (lock_queue i))
  if nobody then pure tt else do
    l ← queued (first_of (lock_queue i))
    p ← queued (object_of l)
    (status, l') ← queued (remove l)
    if not (status == queue_success) then exitsim else do set_owner i (pid_of p); wakeup p

-- `LockRelease`. A caller that does not own the lock leaves with the interrupts disabled.
unfoldable pub lock_release : ℕ → Cmd Kernel ℤ
lock_release i = do
  level ← disable_intrs
  r ← read_lock i
  me ← current_pid
  if not (eqb_ℤ r.pid me)
      then pure sync_fail
      else do pass_on i; restore_intrs level; pure sync_success

-- `LockHandleRelease`
unfoldable pub lock_handle_release : ℤ → Cmd Kernel ℤ
lock_handle_release h = elim (in_table max_locks h) [
  | bad ↦ pure sync_fail
  | index i ↦ do r ← read_lock i; if r.inuse == 0 then pure sync_fail else lock_release i
]

-- The loop of `LockTransfer`, over at most as many links as there are.
unfoldable pub wake_owner : ℕ → ℕ → Ptr → Cmd Kernel (Unit {0})
wake_owner zero i l = starved
wake_owner (suc rounds) i l = if l == null then pure tt else do
  p ← queued (object_of l)
  r ← read_lock i
  if eqb_ℤ (pid_of p) r.pid
      then (do
        (status, l') ← queued (remove l)
        if not (status == queue_success) then exitsim else wakeup p)
      else (do n ← queued (next_of l); wake_owner rounds i n)

-- `LockTransfer`
unfoldable pub lock_transfer : ℕ → Ptr → Cmd Kernel ℤ
lock_transfer i p = do
  level ← disable_intrs
  r ← read_lock i
  me ← current_pid
  if not (eqb_ℤ r.pid me) then pure sync_fail else do
    set_owner i (pid_of p)
    l ← queued (first_of (lock_queue i))
    wake_owner (queue_max_links + 1) i l
    restore_intrs level
    pure sync_success

module _ (free_shared_pte : Ptr → ℕ → Cmd Kernel (Unit {0})) where
  -- `LockAcquire`
  unfoldable pub lock_acquire : ℕ → Cmd Kernel Outcome
  lock_acquire i = do
    level ← disable_intrs
    r ← read_lock i
    me ← current_pid
    if eqb_ℤ r.pid me
        then (do restore_intrs level; pure (returned sync_success))
        else if not (is_neg_ℤ r.pid)
        then (do
          p ← current_pcb
          l ← queued (alloc_link p)
          if l == null then exitsim else do
            status ← queued (insert_last (lock_queue i) l)
            if not (status == queue_success)
                then exitsim
                else do process_sleep free_shared_pte; pure (asleep level))
        else (do set_owner i me; restore_intrs level; pure (returned sync_success))

  -- `LockHandleAcquire`
  unfoldable pub lock_handle_acquire : ℤ → Cmd Kernel Outcome
  lock_handle_acquire h = elim (in_table max_locks h) [
    | bad ↦ pure (returned sync_fail)
    | index i ↦ do
      r ← read_lock i
      if r.inuse == 0 then pure (returned sync_fail) else lock_acquire i
  ]
