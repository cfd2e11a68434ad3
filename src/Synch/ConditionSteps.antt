-- ===== src/Synch/ConditionSteps.antt =====
-- The steps of CondWait and CondSignal of os/synch.c up to the wakeup of another process.
use lab.Prelude.{ℕ, ◌≡◌, ◌≢◌, List, ◌∷◌, arith, ==_ne}
use lab.Prelude.Int.{negsuc}
use lab.Run.{Cmd, and_then, and_then_assoc, ok, pure}
use lab.Queue.Store.{Ptr, null, Store, object_of, queue_success}
use lab.Queue.Shape.{IsQueue}
use lab.Queue.Insertion.{insert_last}
use lab.Queue.Removal.{alloc_link, remove}
use lab.Queue.AccessLaws.{is_empty-cons, first_of-head}
use lab.Kernel.{Kernel, cond_queue, lock_queue, pid_of, current_pid, disable_intrs, set_intrs}
use lab.Process.Transitions.{wakeup}
use lab.Synch.Handles.{asleep, read_lock, read_cond, write_lock, current_pcb, process_sleep}
use lab.Synch.Mutex.{set_owner, pass_on}
use lab.Synch.Condition.{cond_signal, cond_wait}
use lab.Synch.LockLaws.{owned_by, eqb_ℤ_self}

-- The steps of `CondSignal` up to the wakeup, over the stores that they lead to.
pub cond_signal-steps :
    (free_shared_pte : Ptr → ℕ → Cmd Kernel (Unit {0})) (k : Kernel) (i lock : ℕ) (l p n : Ptr)
    (ls : List Ptr) (a : ℕ × Ptr) (s1 s2 s3 : Store)
    → (k.conds i).lock ≡ lock
    → (k.locks lock).pid ≡ pid_of k.current
    → IsQueue k.store (cond_queue i) (l ∷ ls)
    → (k.store.links l).object ≡ p
    → remove l k.store ≡ ok a s1
    → a ≡ (queue_success, null)
    → alloc_link k.current s1 ≡ ok n s2
    → n ≢ null
    → insert_last (lock_queue lock) n s2 ≡ ok queue_success s3
    → cond_signal free_shared_pte i k
      ≡ and_then
          (and_then
            (wakeup p (record k { store = s3; locks = owned_by k lock (pid_of p); intrs = 15 }))
            (λ _. process_sleep free_shared_pte))
          (λ _. pure (asleep k.intrs))
unfolding cond_signal disable_intrs set_intrs read_lock read_cond current_pid current_pcb set_owner
    write_lock object_of
cond_signal-steps free_shared_pte k i lock l p n ls a s1 s2 s3 on mine here carries removed done
      allocated n_ne inserted =
    simp
      (
        on,
        mine,
        eqb_ℤ_self (pid_of k.current),
        is_empty-cons k.store (cond_queue i) (omega arith) l ls here,
        first_of-head k.store (cond_queue i) (omega arith) (l ∷ ls) here,
        ==_ne l null here.chain.0.not_null,
        carries,
        removed,
        done,
        allocated,
        ==_ne n null n_ne,
        inserted,
      )
      (and_then_assoc
        (wakeup p (record k { store = s3; locks = owned_by k lock (pid_of p); intrs = 15 }))
        (λ _. process_sleep free_shared_pte) (λ _. pure (asleep k.intrs)))

-- The steps of `CondWait` up to the wakeup, over the stores that they lead to.
pub cond_wait-steps :
    (free_shared_pte : Ptr → ℕ → Cmd Kernel (Unit {0})) (k : Kernel) (i lock : ℕ) (l p n : Ptr)
    (ls : List Ptr) (a : ℕ × Ptr) (s1 s2 s3 : Store)
    → (k.conds i).lock ≡ lock
    → (k.locks lock).pid ≡ pid_of k.current
    → alloc_link k.current k.store ≡ ok n s1
    → n ≢ null
    → insert_last (cond_queue i) n s1 ≡ ok queue_success s2
    → IsQueue s2 (lock_queue lock) (l ∷ ls)
    → (s2.links l).object ≡ p
    → remove l s2 ≡ ok a s3
    → a ≡ (queue_success, null)
    → let f = owned_by (record k { locks = owned_by k lock (negsuc 0) }) lock (pid_of p) in
      cond_wait free_shared_pte i k
      ≡ and_then
          (and_then
            (wakeup p (record k { store = s3; locks = f; intrs = 15 }))
            (λ _. process_sleep free_shared_pte))
          (λ _. pure (asleep k.intrs))
unfolding cond_wait disable_intrs set_intrs read_lock read_cond current_pid current_pcb pass_on
    set_owner write_lock object_of
cond_wait-steps free_shared_pte k i lock l p n ls a s1 s2 s3 on mine allocated n_ne inserted here
      carries removed done =
    simp
      (
        on,
        mine,
        eqb_ℤ_self (pid_of k.current),
        allocated,
        ==_ne n null n_ne,
        inserted,
        is_empty-cons s2 (lock_queue lock) (omega arith) l ls here,
        first_of-head s2 (lock_queue lock) (omega arith) (l ∷ ls) here,
        ==_ne l null here.chain.0.not_null,
        carries,
        removed,
        done,
      )
      (and_then_assoc
        (wakeup p (record k {
          store = s3;
          locks = owned_by (record k { locks = owned_by k lock (negsuc 0) }) lock (pid_of p);
          intrs = 15;
        }))
        (λ _. process_sleep free_shared_pte) (λ _. pure (asleep k.intrs)))
