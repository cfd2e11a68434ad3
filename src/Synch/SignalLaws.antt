-- ===== src/Synch/SignalLaws.antt =====
-- SemSignal of os/synch.c.
use lab.Prelude.{
  ℕ, suc, ◌≡◌, ◌≢◌, refl, sym, subst, ap, List, [], ◌∷◌, ◌++◌, arith, ◌==◌, ==_self, ==_ne,
  Bool-cases, ==_iff, inl, inr,
}
use lab.Prelude.Int.{pos, decr_ℤ}
use lab.Run.{Returns, returns, Returns-run}
use lab.Queue.Store.{Ptr, null, update, object_of}
use lab.Queue.Shape.{IsQueue, View, Holds}
use lab.Queue.AccessLaws.{is_empty-cons, first_of-head}
use lab.Queue.RemovalLaws.{remove-returned}
use lab.Kernel.{Kernel, Sem, sem_queue, wait_queue, disable_intrs, restore_intrs, set_intrs}
use lab.Synch.Handles.{sync_success, read_sem, write_sem}
use lab.Synch.Semaphore.{sem_signal}
use lab.Synch.Wake.{Woken, IsWaiting, wakeup-Woken}

pub sem_queue-IsWaiting : (i : ℕ) → IsWaiting (sem_queue i)
sem_queue-IsWaiting i = record {
  not_null = omega arith;
  not_free = omega arith;
  not_run = omega arith;
  not_wait = omega arith;
}

-- One up and one down leaves the table of semaphores as it was.
up_down :
    (f g : ℕ → Sem) (i n j : ℕ)
    → (f i).count ≡ pos n
    → g ≡ update f i (record (f i) { count = pos (suc n) })
    → update g i (record (g i) { count = decr_ℤ (g i).count }) j ≡ f j
unfolding update
up_down f g i n j e raised = rw raised (elim (Bool-cases (j == i)) [
  | inl same ↦ rw ((==_iff j i).0 same, ==_self i, sym e) refl
  | inr other ↦ rw other refl
])

-- `SemSignal` on a semaphore whose count is not negative and for which somebody waits wakes the
-- first process that waits, which sleeps anywhere in the wait queue: it moves to the end of the
-- run queue, and every semaphore's count, the other queues and processes and the interrupt level
-- are as before.
pub sem_signal-Woken :
    (k : Kernel) (v : View) (i n l p pl : Ptr) (ls xs ys : List Ptr)
    → Holds k.store v
    → p ≢ null
    → (k.sems i).count ≡ pos n
    → v (sem_queue i) ≡ l ∷ ls
    → (k.store.links l).object ≡ p
    → (k.pcbs p).link ≡ pl
    → v wait_queue ≡ xs ++ pl ∷ ys
    → Returns
        (λ r t.
          (r ≡ sync_success)
          × Woken k v (sem_queue i) p ls xs ys t.store t.pcbs
          × (t.intrs ≡ k.intrs)
          × ((j : ℕ) → t.sems j ≡ k.sems j))
        (sem_signal i k)
unfolding sem_signal disable_intrs restore_intrs set_intrs write_sem read_sem update object_of
sem_signal-Woken k v i n l p pl ls xs ys all p_ne count waiting carries link sleeps =
    let q_ne : sem_queue i ≢ null = omega arith in
    let here = subst (IsQueue k.store (sem_queue i)) waiting (all (sem_queue i) q_ne) in
    let l_ne : l ≢ null = here.chain.0.not_null in
    let k1 = record k {
      sems = update k.sems i (record (k.sems i) { count = pos (suc n) });
      intrs = 15;
    } in
    let (a, s, re, removed) =
      Returns-run (remove-returned k.store v (sem_queue i) l [] ls q_ne all waiting) in
    let (b, t, wo, woken) = Returns-run (
      wakeup-Woken k v (sem_queue i) l p pl ls xs ys (sem_queue-IsWaiting i) p_ne waiting link
        sleeps (record k1 { store = s }) re.1 re.2 refl) in
    simp
      (
        ==_self i,
        count,
        is_empty-cons k.store (sem_queue i) q_ne l ls here,
        first_of-head k.store (sem_queue i) q_ne (l ∷ ls) here,
        ==_ne l null l_ne,
        carries,
        removed,
        re.0,
        woken,
      )
      (returns (
        refl,
        wo.0,
        refl,
        λ j. up_down k.sems t.sems i n j count (ap (λ (x : Kernel). x.sems) wo.1),
      ))
