-- ===== src/Synch/LockLaws.antt =====
-- LockAcquire and LockRelease of os/synch.c.
use lab.Prelude.{
  ℕ, ◌≡◌, ◌≢◌, refl, sym, subst, ap, ◌∙◌, false, true, List, [], ◌∷◌, ◌++◌, arith, ==_iff,
  Bool-cases, inl, inr, ==_ne, ==_self, ◌==◌,
}
use lab.Prelude.Int.{ℤ, pos, negsuc, eqb_ℤ}
use lab.Run.{Cmd, Returns, returns, Returns-run, ok}
use lab.Queue.Store.{Ptr, null, free_links, update, object_of}
use lab.Queue.Shape.{View, Holds, IsQueue}
use lab.Queue.AccessLaws.{is_empty-nil, is_empty-cons, first_of-head}
use lab.Queue.RemovalLaws.{remove-returned}
use lab.Kernel.{
  Kernel, Lock, lock_queue, run_queue, wait_queue, zombie_queue, pid_of, current_pid, disable_intrs,
  restore_intrs, set_intrs,
}
use lab.Process.Schedule.{process_quantum}
use lab.Synch.Handles.{returned, asleep, sync_success, read_lock, write_lock, current_pcb}
use lab.Synch.Mutex.{lock_acquire, lock_release, pass_on, set_owner}
use lab.Synch.Wake.{Woken, IsWaiting, wakeup-Woken}
use lab.Synch.Sleep.{Slept, joins, join, process_sleep-Slept}

pub lock_queue-IsWaiting : (i : ℕ) → IsWaiting (lock_queue i)
lock_queue-IsWaiting i = record {
  not_null = omega arith;
  not_free = omega arith;
  not_run = omega arith;
  not_wait = omega arith;
}

pub eqb_ℤ_self : (a : ℤ) → eqb_ℤ a a ≡ true
eqb_ℤ_self (pos n) = ground arith
eqb_ℤ_self (negsuc n) = ground arith

-- The table of locks with another owner for lock `i`.
abbrev pub owned_by : Kernel → ℕ → ℤ → ℕ → Lock
owned_by k i pid = update k.locks i (record (k.locks i) { pid = pid })

pub owned_twice :
    (k : Kernel) (i j : ℕ) (a b : ℤ)
    → owned_by (record k { locks = owned_by k i a }) i b j ≡ owned_by k i b j
unfolding update
owned_twice k i j a b = elim (Bool-cases (j == i)) [
  | inl same ↦ rw (same, ==_self i) refl
  | inr other ↦ rw other refl
]

module _ (k : Kernel) (v : View) (i l p pl : Ptr) (ls xs ys : List Ptr) (all : Holds k.store v)
    (p_ne : p ≢ null) (waiting : v (lock_queue i) ≡ l ∷ ls) (carries : (k.store.links l).object ≡ p)
    (link : (k.pcbs p).link ≡ pl) (sleeps : v wait_queue ≡ xs ++ pl ∷ ys) where
  -- A lock that is given up goes to the first process that waits for it, which wakes up.
  pub pass_on-Woken :
      (k' : Kernel)
      → k'.store ≡ k.store
      → k'.pcbs ≡ k.pcbs
      → Returns
          (λ _ t.
            Woken k v (lock_queue i) p ls xs ys t.store t.pcbs
            × (t ≡ record k' { store = t.store; pcbs = t.pcbs; locks = t.locks })
            × ((j : ℕ) → t.locks j ≡ owned_by k' i (pid_of p) j))
          (pass_on i k')
  unfolding pass_on set_owner write_lock update object_of
  pass_on-Woken k' store pcbs =
      let q_ne : lock_queue i ≢ null = omega arith in
      let here = subst (IsQueue k.store (lock_queue i)) waiting (all (lock_queue i) q_ne) in
      let (a, s, re, removed) =
        Returns-run (remove-returned k.store v (lock_queue i) l [] ls q_ne all waiting) in
      let k2 = record k' {
        store = s;
        locks = owned_by (record k' { locks = owned_by k' i (negsuc 0) }) i (pid_of p);
      } in
      let (b, t, wo, woken) = Returns-run (
        wakeup-Woken k v (lock_queue i) l p pl ls xs ys (lock_queue-IsWaiting i) p_ne waiting link
          sleeps k2 re.1 re.2 pcbs) in
      simp
        (
          store,
          is_empty-cons k.store (lock_queue i) q_ne l ls here,
          first_of-head k.store (lock_queue i) q_ne (l ∷ ls) here,
          ==_ne l null here.chain.0.not_null,
          carries,
          removed,
          re.0,
          woken,
        )
        (returns (
          wo.0,
          wo.1
              ∙ ap (λ (f : ℕ → Lock). record k' { store = t.store; pcbs = t.pcbs; locks = f })
                  (sym (ap (λ (x : Kernel). x.locks) wo.1)),
          λ j. ap (λ (x : Kernel). x.locks j) wo.1 ∙ owned_twice k' i j (negsuc 0) (pid_of p),
        ))

  -- `LockRelease` by the owner, while others wait for the lock, hands it to the process that has
  -- waited longest, which sleeps anywhere in the wait queue: that process owns the lock from then
  -- on and moves to the end of the run queue. The other locks, queues and processes and the
  -- interrupt level are as before.
  pub lock_release-Woken :
      (k.locks i).pid ≡ pid_of k.current
      → Returns
          (λ r t.
            (r ≡ sync_success)
            × Woken k v (lock_queue i) p ls xs ys t.store t.pcbs
            × (t.intrs ≡ k.intrs)
            × ((j : ℕ) → t.locks j ≡ owned_by k i (pid_of p) j))
          (lock_release i k)
  unfolding lock_release disable_intrs restore_intrs set_intrs read_lock current_pid
  lock_release-Woken mine =
      let (u, t, wo, passed) = Returns-run (pass_on-Woken (record k { intrs = 15 }) refl refl) in
      simp (mine, eqb_ℤ_self (pid_of k.current), passed) (returns (refl, wo.0, refl, wo.2))

-- `LockRelease` by the owner, while nobody waits, frees the lock and changes nothing else.
pub lock_release-freed :
    (k : Kernel) (v : View) (i : ℕ)
    → Holds k.store v
    → v (lock_queue i) ≡ []
    → (k.locks i).pid ≡ pid_of k.current
    → lock_release i k ≡ ok sync_success (record k { locks = owned_by k i (negsuc 0) })
unfolding lock_release disable_intrs restore_intrs set_intrs read_lock current_pid pass_on set_owner
    write_lock
lock_release-freed k v i all nobody mine =
    let here = subst (IsQueue k.store (lock_queue i)) nobody (all (lock_queue i) (omega arith)) in
    simp
      (mine, eqb_ℤ_self (pid_of k.current), is_empty-nil k.store (lock_queue i) (omega arith) here)

owned_before : (k : Kernel) (i j : ℕ) (a : ℤ) → (k.locks i).pid ≡ a → owned_by k i a j ≡ k.locks j
unfolding update
owned_before k i j a e = elim (Bool-cases (j == i)) [
  | inl same ↦ rw (same, (==_iff j i).0 same, sym e) refl
  | inr other ↦ rw other refl
]

not_free : (n : ℕ) (p : Ptr) → p ≢ null → eqb_ℤ (negsuc n) (pid_of p) ≡ false
unfolding pid_of
not_free n p p_ne = ground arith

module _ (free_shared_pte : Ptr → ℕ → Cmd Kernel (Unit {0})) (k : Kernel) (i : ℕ)
    (p_ne : k.current ≢ null) where
  -- A process that acquires a free lock, for which nobody waits, owns it, and when it releases it
  -- then the locks, the queues, the processes and the interrupt level are what they were before.
  pub lock_acquire-release :
      (v : View)
      → Holds k.store v
      → v (lock_queue i) ≡ []
      → (k.locks i).pid ≡ negsuc 0
      → Returns
          (λ r t.
            (r ≡ returned sync_success)
            × ((t.locks i).pid ≡ pid_of k.current)
            × Returns
                (λ r' u.
                  (r' ≡ sync_success)
                  × (u.intrs ≡ k.intrs)
                  × (u.store ≡ k.store)
                  × (u.pcbs ≡ k.pcbs)
                  × ((j : ℕ) → u.locks j ≡ k.locks j))
                (lock_release i t))
          (lock_acquire free_shared_pte i k)
  unfolding lock_acquire disable_intrs restore_intrs set_intrs read_lock current_pid set_owner
      write_lock update
  lock_acquire-release v all nobody free =
      let t = record k { locks = owned_by k i (pid_of k.current) } in
      let released = lock_release-freed t v i all nobody (rw (==_self i) refl) in
      simp (free, not_free 0 k.current p_ne)
        (returns (
          refl,
          rw (==_self i) refl,
          rw released (
              returns (
                refl,
                refl,
                refl,
                refl,
                λ j.
                    owned_twice k i j (pid_of k.current) (negsuc 0)
                    ∙ owned_before k i j (negsuc 0) free,
              )),
        ))

  -- `LockAcquire` on a lock that another process owns puts the running process to sleep, where it
  -- stands in front of another one in the run queue, a link is free and there are no zombies: it
  -- becomes the last that waits for the lock, the owners stay, and the process that stood behind
  -- it runs.
  pub lock_acquire-Slept :
      (v : View) (pl m free : Ptr) (ms rest : List Ptr) (owner : ℕ)
      → Holds k.store v
      → (k.locks i).pid ≡ pos owner
      → eqb_ℤ (pos owner) (pid_of k.current) ≡ false
      → (k.pcbs k.current).link ≡ pl
      → v run_queue ≡ pl ∷ m ∷ ms
      → v zombie_queue ≡ []
      → v free_links ≡ free ∷ rest
      → Returns
          (λ r t.
            (r ≡ asleep k.intrs)
            × Slept k v (lock_queue i) k.current m ms t.store t.pcbs
            × (t ≡ record k {
              store = t.store;
              pcbs = t.pcbs;
              current = (k.store.links m).object;
              timer = process_quantum;
              intrs = 15;
            }))
          (lock_acquire free_shared_pte i k)
  unfolding lock_acquire disable_intrs set_intrs read_lock current_pid current_pcb
  lock_acquire-Slept v pl m free ms rest owner all held other link run none_left spare =
      elim (join k.store v (lock_queue i) k.current free rest (lock_queue-IsWaiting i) all spare) [
        | joins n s1 s2 allocated inserted en ↦
            let k' = record k { store = s2; intrs = 15 } in
            let (u, t, sl, slept) = Returns-run (
              process_sleep-Slept free_shared_pte k k' v (lock_queue i) k.current pl n m ms
                (lock_queue-IsWaiting i) (omega arith) p_ne refl link run none_left refl en) in
            simp (held, other, allocated, ==_ne n null en.not_null, inserted, slept)
              (returns (refl, sl.0, sl.1))
      ]
