-- ===== src/Synch/Examples.antt =====
-- The laws of os/synch.c at a concrete kernel.
use lab.Prelude.{ℕ, ◌≡◌, refl, [], ◌∷◌, arith}
use lab.Run.{Returns}
use lab.Kernel.{sem_queue, lock_queue, pid_of}
use lab.Process.Schedule.{process_quantum}
use lab.Process.Examples.{world, world_view, world_store, world-Holds, no_shared_pages}
use lab.Synch.Handles.{returned, asleep, sync_success}
use lab.Synch.Semaphore.{sem_signal, sem_wait}
use lab.Synch.Mutex.{lock_acquire, lock_release}
use lab.Synch.Wake.{Woken}
use lab.Synch.Sleep.{Slept}
use lab.Synch.SignalLaws.{sem_signal-Woken}
use lab.Synch.WaitLaws.{sem_wait-Slept}
use lab.Synch.LockLaws.{owned_by, lock_release-Woken, lock_acquire-release, lock_acquire-Slept}

sem_signal-Woken_example :
    Returns
      (λ r t.
        (r ≡ sync_success)
        × Woken world world_view (sem_queue 0) 3 [] [] (14 ∷ []) t.store t.pcbs
        × (t.intrs ≡ 7)
        × ((j : ℕ) → t.sems j ≡ world.sems j))
      (sem_signal 0 world)
sem_signal-Woken_example =
    sem_signal-Woken world world_view 0 0 10 3 9 [] [] (14 ∷ []) world-Holds (omega arith) refl refl
      refl refl refl

sem_wait-Slept_example :
    Returns
      (λ r t.
        (r ≡ asleep 7)
        × Slept world world_view (sem_queue 0) 1 8 [] t.store t.pcbs
        × (t ≡ record world {
          store = t.store;
          pcbs = t.pcbs;
          current = 2;
          timer = process_quantum;
          intrs = 15;
        }))
      (sem_wait no_shared_pages 0 world)
sem_wait-Slept_example =
    sem_wait-Slept no_shared_pages world 0 world_view 7 8 12 [] (13 ∷ []) world-Holds refl
      (omega arith) refl refl refl refl

lock_release-Woken_example :
    Returns
      (λ r t.
        (r ≡ sync_success)
        × Woken world world_view (lock_queue 0) 4 [] (9 ∷ []) [] t.store t.pcbs
        × (t.intrs ≡ 7)
        × ((j : ℕ) → t.locks j ≡ owned_by world 0 (pid_of 4) j))
      (lock_release 0 world)
unfolding pid_of
lock_release-Woken_example =
    lock_release-Woken world world_view 0 11 4 14 [] (9 ∷ []) [] world-Holds (omega arith) refl refl
      refl refl refl

lock_acquire-release_example :
    Returns
      (λ r t.
        (r ≡ returned sync_success)
        × ((t.locks 1).pid ≡ pid_of 1)
        × Returns
            (λ r' u.
              (r' ≡ sync_success)
              × (u.intrs ≡ 7)
              × (u.store ≡ world_store)
              × (u.pcbs ≡ world.pcbs)
              × ((j : ℕ) → u.locks j ≡ world.locks j))
            (lock_release 1 t))
      (lock_acquire no_shared_pages 1 world)
lock_acquire-release_example =
    lock_acquire-release no_shared_pages world 1 (omega arith) world_view world-Holds refl refl

lock_acquire-Slept_example :
    Returns
      (λ r t.
        (r ≡ asleep 7)
        × Slept world world_view (lock_queue 2) 1 8 [] t.store t.pcbs
        × (t ≡ record world {
          store = t.store;
          pcbs = t.pcbs;
          current = 2;
          timer = process_quantum;
          intrs = 15;
        }))
      (lock_acquire no_shared_pages 2 world)
unfolding pid_of
lock_acquire-Slept_example =
    lock_acquire-Slept no_shared_pages world 2 (omega arith) world_view 7 8 12 [] (13 ∷ []) 1
      world-Holds refl refl refl refl refl refl
