-- ===== src/Synch/WaitLaws.antt =====
-- SemWait of os/synch.c.
use lab.Prelude.{ℕ, suc, ◌≡◌, ◌≢◌, refl, false, List, [], ◌∷◌, arith, ==_ne}
use lab.Prelude.Int.{pos, is_pos_ℤ}
use lab.Run.{Cmd, Returns, returns, Returns-run, ok}
use lab.Queue.Store.{Ptr, null, free_links, update}
use lab.Queue.Shape.{View, Holds}
use lab.Kernel.{Kernel, sem_queue, run_queue, zombie_queue, disable_intrs, restore_intrs, set_intrs}
use lab.Process.Schedule.{process_quantum}
use lab.Synch.Handles.{returned, asleep, sync_success, read_sem, write_sem, current_pcb}
use lab.Synch.Semaphore.{sem_wait}
use lab.Synch.SignalLaws.{sem_queue-IsWaiting}
use lab.Synch.Sleep.{Slept, joins, join, process_sleep-Slept}

module _ (free_shared_pte : Ptr → ℕ → Cmd Kernel (Unit {0})) (k : Kernel) (i : ℕ) where
  -- `SemWait` on a semaphore with a positive count returns at once, one lower, with the interrupt
  -- level, the queues and the processes as they were.
  pub sem_wait-taken :
      (n : ℕ)
      → (k.sems i).count ≡ pos (suc n)
      → sem_wait free_shared_pte i k
        ≡ ok
            (returned sync_success)
            (record k { sems = update k.sems i (record (k.sems i) { count = pos n }) })
  unfolding sem_wait disable_intrs restore_intrs set_intrs write_sem read_sem update
  sem_wait-taken n count = simp count

  -- `SemWait` on a semaphore whose count is not positive puts the running process to sleep, where
  -- it stands in front of another one in the run queue, a link is free and there are no zombies:
  -- its new link is the last that waits for the semaphore, it goes to the end of the wait queue,
  -- and the process that stood behind it becomes the current one for a quantum. The counts stay as they
  -- were, though the comment on `SemWait` says that it decrements; and when the scheduler has chosen the
  -- next process the interrupts are still disabled, though the comment says that they are turned on
  -- before. The return from the interrupt, in assembly, is not part of this.
  pub sem_wait-Slept :
      (v : View) (pl m free : Ptr) (ms rest : List Ptr)
      → Holds k.store v
      → is_pos_ℤ (k.sems i).count ≡ false
      → k.current ≢ null
      → (k.pcbs k.current).link ≡ pl
      → v run_queue ≡ pl ∷ m ∷ ms
      → v zombie_queue ≡ []
      → v free_links ≡ free ∷ rest
      → Returns
          (λ r t.
            (r ≡ asleep k.intrs)
            × Slept k v (sem_queue i) k.current m ms t.store t.pcbs
            × (t ≡ record k {
              store = t.store;
              pcbs = t.pcbs;
              current = (k.store.links m).object;
              timer = process_quantum;
              intrs = 15;
            }))
          (sem_wait free_shared_pte i k)
  unfolding sem_wait disable_intrs set_intrs read_sem current_pcb
  sem_wait-Slept v pl m free ms rest all count p_ne link run none_left spare =
      elim (join k.store v (sem_queue i) k.current free rest (sem_queue-IsWaiting i) all spare) [
        | joins n s1 s2 allocated inserted en ↦
            let k' = record k { store = s2; intrs = 15 } in
            let (u, t, sl, slept) = Returns-run (
              process_sleep-Slept free_shared_pte k k' v (sem_queue i) k.current pl n m ms
                (sem_queue-IsWaiting i) (omega arith) p_ne refl link run none_left refl en) in
            simp (count, allocated, ==_ne n null en.not_null, inserted, slept)
              (returns (refl, sl.0, sl.1))
      ]
