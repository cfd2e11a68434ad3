-- ===== src/Synch/Condition.antt =====
-- The condition variables of os/synch.c.
use lab.Prelude.{ℕ, zero, suc, ◌+◌, not, ◌==◌, if◌then◌else◌}
use lab.Prelude.Int.{ℤ, pos, eqb_ℤ}
use lab.Run.{Cmd, fault, pure, exitsim, ◌>>=◌, ◌>>◌}
use lab.Queue.Store.{Ptr, null, queue_success, first_of, object_of, is_empty, init_queue}
use lab.Queue.Insertion.{insert_last}
use lab.Queue.Removal.{alloc_link, remove}
use lab.Kernel.{
  Kernel, queued, lock_queue, cond_queue, pid_of, current_pid, disable_intrs, restore_intrs,
}
use lab.Process.Transitions.{wakeup}
use lab.Synch.Handles.{
  Outcome, returned, asleep, index, bad, in_table, sync_success, sync_fail, max_sems, max_locks,
  max_conds, read_lock, read_cond, write_cond, current_pcb, process_sleep,
}
use lab.Synch.Mutex.{set_owner, pass_on}

-- The search of `CondCreate` from index `i` on; the condition that is found belongs to `lock`.
unfoldable pub grab_cond : ℕ → ℕ → ℕ → Cmd Kernel ℕ
grab_cond lock zero i = pure i
grab_cond lock (suc rounds) i = do
  c ← read_cond i
  if c.inuse == 0
      then write_cond i (λ r. record r { inuse = 1; lock = lock }) >> pure i
      else grab_cond lock rounds (i + 1)

-- `CondCreate`. The handle of the lock is not checked before `locks[lock]` is read, so a handle out
-- of range is a fault.
unfoldable pub cond_create : ℤ → Cmd Kernel ℤ
cond_create lock = elim (in_table max_locks lock) [
  | bad ↦ λ k. fault
  | index j ↦ do
    r ← read_lock j
    if r.inuse == 0 then pure sync_fail else do
      level ← disable_intrs
      i ← grab_cond j max_conds 0
      restore_intrs level
      if i == max_conds then pure sync_fail else do
        status ← queued (init_queue (cond_queue i))
        if not (status == queue_success) then exitsim else pure (pos i)
]

module _ (free_shared_pte : Ptr → ℕ → Cmd Kernel (Unit {0})) where
  -- `CondWait`
  unfoldable pub cond_wait : ℕ → Cmd Kernel Outcome
  cond_wait i = do
    level ← disable_intrs
    c ← read_cond i
    r ← read_lock c.lock
    me ← current_pid
    if not (eqb_ℤ r.pid me) then (do restore_intrs level; pure (returned sync_fail)) else (do
      p ← current_pcb
      l ← queued (alloc_link p)
      if l == null then exitsim else do
        status ← queued (insert_last (cond_queue i) l)
        if not (status == queue_success)
            then exitsim
            else do pass_on c.lock; process_sleep free_shared_pte; pure (asleep level))

  -- `CondHandleWait`, whose range check names MAX_SEMS.
  unfoldable pub cond_handle_wait : ℤ → Cmd Kernel Outcome
  cond_handle_wait h = elim (in_table max_sems h) [
    | bad ↦ pure (returned sync_fail)
    | index i ↦ do c ← read_cond i; if c.inuse == 0 then pure (returned sync_fail) else cond_wait i
  ]

  -- `CondSignal`
  unfoldable pub cond_signal : ℕ → Cmd Kernel Outcome
  cond_signal i = do
    level ← disable_intrs
    c ← read_cond i
    r ← read_lock c.lock
    me ← current_pid
    if not (eqb_ℤ r.pid me) then (do restore_intrs level; pure (returned sync_fail)) else (do
      nobody ← queued (is_empty (cond_queue i))
      if nobody then (do restore_intrs level; pure (returned sync_success)) else (do
        l ← queued (first_of (cond_queue i))
        p ← queued (object_of l)
        (status, l') ← queued (remove l)
        if not (status == queue_success) then exitsim else do
          set_owner c.lock (pid_of p)
          self ← current_pcb
          m ← queued (alloc_link self)
          if m == null then exitsim else do
            status' ← queued (insert_last (lock_queue c.lock) m)
            if not (status' == queue_success)
                then exitsim
                else do wakeup p; process_sleep free_shared_pte; pure (asleep level)))

  -- `CondHandleSignal`, whose range check names MAX_SEMS.
  unfoldable pub cond_handle_signal : ℤ → Cmd Kernel Outcome
  cond_handle_signal h = elim (in_table max_sems h) [
    | bad ↦ pure (returned sync_fail)
    | index i ↦ do
      c ← read_cond i
      if c.inuse == 0 then pure (returned sync_fail) else cond_signal i
  ]

-- What a process does that wakes up in ProcessSleep(): each routine that sleeps ends alike.
unfoldable pub resume : Outcome → Cmd Kernel ℤ
resume (returned v) = pure v
resume (asleep level) = do restore_intrs level; pure sync_success
