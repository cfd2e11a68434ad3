-- ===== src/Process/Transitions.antt =====
-- ProcessSuspend, ProcessWakeup, ProcessDestroy, ProcessModuleInit and ProcessFreeResources of
-- os/process.c. An ASSERT only prints, so it leaves no trace here.
use lab.Prelude.{ℕ, zero, suc, ◌+◌, ◌/◌, not, List, [], ◌∷◌, ◌==◌, if◌then◌else◌, take}
use lab.Prelude.Int.{ℤ}
use lab.Run.{Cmd, ok, pure, exitsim, ◌>>=◌, ◌>>◌}
use lab.Queue.Store.{Ptr, null, Store, queue_success, init_queue}
use lab.Queue.Insertion.{insert_first, insert_last}
use lab.Queue.Removal.{alloc_link, remove}
use lab.Memory.Freemap.{page_size, free_page}
use lab.Memory.Address.{page_of_pte}
use lab.Kernel.{
  Kernel, free_pcbs, run_queue, wait_queue, zombie_queue, queued, in_memory, read_pcb, write_pcb,
}
use lab.Process.Status.{status_free, status_runnable, status_waiting, status_zombie, set_status}

unfoldable pub set_link : Ptr → Ptr → Cmd Kernel (Unit {0})
unfolding write_pcb
set_link p l = write_pcb p (λ r. record r { link = l })

-- A new link for the process `p`, which `insert` puts into a queue.
unfoldable pub enqueue : (Ptr → Cmd Store ℕ) → Ptr → Cmd Kernel (Unit {0})
unfolding set_link
enqueue insert p = do
  l ← queued (alloc_link p)
  set_link p l
  if l == null
      then exitsim
      else do status ← queued (insert l); if not (status == queue_success) then exitsim else pure tt

-- What ProcessSuspend, ProcessWakeup and ProcessDestroy do once the status is set: the link of `p`
-- leaves the queue on which it stands, and a new one goes to another queue.
unfoldable pub requeue : (Ptr → Cmd Store ℕ) → Ptr → Cmd Kernel (Unit {0})
unfolding read_pcb set_link
requeue insert p = do
  r ← read_pcb p
  (status, l) ← queued (remove r.link)
  set_link p l
  if not (status == queue_success) then exitsim else enqueue insert p

-- `ProcessSuspend`
unfoldable pub suspend : Ptr → Cmd Kernel (Unit {0})
suspend p = do set_status p status_waiting; requeue (insert_last wait_queue) p

-- `ProcessWakeup`
unfoldable pub wakeup : Ptr → Cmd Kernel (Unit {0})
wakeup p = do set_status p status_runnable; requeue (insert_last run_queue) p

-- `ProcessDestroy`
unfoldable pub destroy : Ptr → Cmd Kernel (Unit {0})
destroy p = do set_status p status_zombie; requeue (insert_first zombie_queue) p

-- `ProcessSetResult`
unfoldable pub set_result : Ptr → ℤ → Cmd Kernel (Unit {0})
unfolding write_pcb
set_result p v = write_pcb p (λ r. record r { result = v })

-- The loop of `ProcessModuleInit`: `rounds` PCBs from the address `p` on become free.
unfoldable pub init_pcbs : ℕ → Ptr → Cmd Kernel (Unit {0})
unfolding write_pcb
init_pcbs zero p = pure tt
init_pcbs (suc rounds) p = do
  l ← queued (alloc_link p)
  write_pcb p (λ r. record r { link = l })
  if l == null then exitsim else do
    write_pcb p (λ r. record r { flags = status_free })
    status ← queued (insert_first free_pcbs l)
    if not (status == queue_success) then exitsim else init_pcbs rounds (p + 1)

-- PROCESS_MAX_PROCS
abbrev pub max_procs : ℕ
max_procs = 32

-- `ProcessModuleInit`
unfoldable pub process_init : Cmd Kernel (Unit {0})
process_init = do
  queued (init_queue free_pcbs)
  queued (init_queue run_queue)
  queued (init_queue wait_queue)
  queued (init_queue zombie_queue)
  init_pcbs max_procs 1
  (λ k. ok tt (record k { current = null }))

-- The loop of `ProcessFreeResources` over the pages of the process that are not shared.
unfoldable pub free_ptes : List ℕ → Cmd Kernel (Unit {0})
free_ptes [] = pure tt
free_ptes (pte ∷ ptes) = do in_memory (free_page (page_of_pte pte)); free_ptes ptes

-- `MemoryFreeSharedPte` comes with the object file lib/share_memory.o.
module _ (free_shared_pte : Ptr → ℕ → Cmd Kernel (Unit {0})) where
  -- The loop of `ProcessFreeResources` over the shared pages, from page `i` on.
  unfoldable pub free_shared : ℕ → Ptr → ℕ → Cmd Kernel (Unit {0})
  free_shared zero p i = pure tt
  free_shared (suc rounds) p i = do free_shared_pte p i; free_shared rounds p (i + 1)

  -- `ProcessFreeResources`; a process has at most the sixteen pages of its table.
  unfoldable pub free_resources : Ptr → Cmd Kernel (Unit {0})
  free_resources p = do
    l ← queued (alloc_link p)
    set_link p l
    if l == null then exitsim else do
      write_pcb p (λ r. record r { flags = status_free })
      r ← read_pcb p
      status ← queued (insert_last free_pcbs r.link)
      if not (status == queue_success) then exitsim else do
        r' ← read_pcb p
        free_shared r'.npages p 0
        r'' ← read_pcb p
        free_ptes (take r''.npages r''.pagetable)
        in_memory (free_page (r''.sys_stack_area / page_size))
        set_status p status_free
