-- ===== src/Process/ScheduleLaws.antt =====
-- ProcessSchedule of os/process.c while no zombie waits to be freed.
use lab.Prelude.{ℕ, ◌≡◌, ◌≢◌, refl, subst, true, false, List, [], ◌∷◌, ◌++◌, arith, ==_ne}
use lab.Run.{Cmd, Returns, returns, Returns-run, ok, halted, ◌>>◌}
use lab.Queue.Store.{Ptr, null, update, object_of, queue_success}
use lab.Queue.Shape.{IsQueue, View, Holds}
use lab.Queue.AccessLaws.{is_empty-nil, is_empty-cons, first_of-head, last_of-last}
use lab.Queue.InsertionLaws.{Rewrites}
use lab.Queue.MovingLaws.{move_after-rotate, move_after-single}
use lab.Kernel.{Kernel, run_queue, zombie_queue}
use lab.Process.Schedule.{schedule, rotate, dispatch, reap, set_timer, set_current, process_quantum}

module _ (free_shared_pte : Ptr → ℕ → Cmd Kernel (Unit {0})) (k : Kernel) (v : View)
    (all : Holds k.store v) where
  at : (q : Ptr) (xs : List Ptr) → q ≢ null → v q ≡ xs → IsQueue k.store q xs
  at q xs ne e = subst (IsQueue k.store q) e (all q ne)

  -- `ProcessSchedule` stops the simulator when the run queue is empty, whatever sleeps.
  pub schedule-idle : v run_queue ≡ [] → schedule free_shared_pte true k ≡ halted
  unfolding schedule
  schedule-idle empty =
      simp (is_empty-nil k.store run_queue (omega arith) (at run_queue [] (omega arith) empty))

  -- The second half of `ProcessSchedule`.
  run_head :
      (l : Ptr) (ls : List Ptr)
      → v run_queue ≡ l ∷ ls
      → v zombie_queue ≡ []
      → (dispatch >> (reap free_shared_pte 33 >> set_timer process_quantum)) k
        ≡ ok tt (record k { current = (k.store.links l).object; timer = process_quantum })
  unfolding dispatch object_of set_current set_timer reap
  run_head l ls run none_left =
      let run_at = at run_queue (l ∷ ls) (omega arith) run in
      let zombies = at zombie_queue [] (omega arith) none_left in
      simp (
        first_of-head k.store run_queue (omega arith) (l ∷ ls) run_at,
        ==_ne l null run_at.chain.0.not_null,
        is_empty-nil k.store zombie_queue (omega arith) zombies,
      )

  -- After a process was suspended, and while there are no zombies, `ProcessSchedule` runs the
  -- process in front of the run queue for a quantum; no queue changes.
  pub schedule-head :
      (l : Ptr) (ls : List Ptr)
      → v run_queue ≡ l ∷ ls
      → v zombie_queue ≡ []
      → schedule free_shared_pte true k
        ≡ ok tt (record k { current = (k.store.links l).object; timer = process_quantum })
  unfolding schedule dispatch object_of set_current set_timer reap
  schedule-head l ls run none_left =
      let run_at = at run_queue (l ∷ ls) (omega arith) run in
      let zombies = at zombie_queue [] (omega arith) none_left in
      simp (
        is_empty-cons k.store run_queue (omega arith) l ls run_at,
        first_of-head k.store run_queue (omega arith) (l ∷ ls) run_at,
        ==_ne l null run_at.chain.0.not_null,
        is_empty-nil k.store zombie_queue (omega arith) zombies,
      )

  -- A lone process keeps the processor when its quantum ends.
  pub schedule-single :
      (l : Ptr)
      → v run_queue ≡ l ∷ []
      → v zombie_queue ≡ []
      → schedule free_shared_pte false k
        ≡ ok tt (record k { current = (k.store.links l).object; timer = process_quantum })
  unfolding schedule rotate dispatch object_of set_current set_timer reap
  schedule-single l run none_left =
      let run_at = at run_queue (l ∷ []) (omega arith) run in
      let zombies = at zombie_queue [] (omega arith) none_left in
      simp (
        is_empty-cons k.store run_queue (omega arith) l [] run_at,
        first_of-head k.store run_queue (omega arith) (l ∷ []) run_at,
        last_of-last k.store run_queue (omega arith) (l ∷ []) run_at,
        move_after-single k.store v run_queue l (omega arith) all run,
        ==_ne l null run_at.chain.0.not_null,
        is_empty-nil k.store zombie_queue (omega arith) zombies,
      )

-- `ProcessSchedule` at the end of a quantum, with two processes at least in the run queue and no
-- zombies, brings the running process, which stands in front, to the end of the run queue, runs
-- the process that stood behind it for a quantum, and leaves the other queues and the processes
-- alone.
pub schedule-rotate :
    (free_shared_pte : Ptr → ℕ → Cmd Kernel (Unit {0})) (k : Kernel) (v : View)
    → Holds k.store v
    → (l m : Ptr) (ls : List Ptr) → v run_queue ≡ l ∷ m ∷ ls
    → v zombie_queue ≡ []
    → Returns
        (λ _ t.
          Rewrites k.store v run_queue (m ∷ ls ++ l ∷ []) queue_success t.store
          × (t ≡ record k {
            store = t.store;
            current = (k.store.links m).object;
            timer = process_quantum;
          }))
        (schedule free_shared_pte false k)
unfolding schedule rotate update
schedule-rotate free_shared_pte k v all l m ls run none_left =
    let run_at = at free_shared_pte k v all run_queue (l ∷ m ∷ ls) (omega arith) run in
    let (a, s, re, moved) =
      Returns-run (move_after-rotate k.store v run_queue l (omega arith) all m ls run) in
    let tail =
      run_head free_shared_pte (record k { store = s }) (update v run_queue (m ∷ ls ++ l ∷ [])) re.1
        m (ls ++ l ∷ []) refl none_left in
    simp
      (
        is_empty-cons k.store run_queue (omega arith) l (m ∷ ls) run_at,
        first_of-head k.store run_queue (omega arith) (l ∷ m ∷ ls) run_at,
        last_of-last k.store run_queue (omega arith) (l ∷ m ∷ ls) run_at,
        moved,
      )
      (rw tail (returns ((refl, re.1, re.2), rw (re.2 m run_at.chain.1.0.not_null) refl)))
