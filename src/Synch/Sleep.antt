-- ===== src/Synch/Sleep.antt =====
-- What the routines of os/synch.c do to put the running process to sleep: a link for it joins the
-- queue of a semaphore, lock or condition, the process moves from the run queue to the wait queue, and
-- the next process runs.
use lab.Prelude.{
  ℕ, suc, ◌≡◌, ◌≢◌, refl, sym, subst, ◌∙◌, ap, true, List, [], ◌∷◌, ◌++◌, arith, ==_self, ==_ne,
  length,
}
use mathlib.Core.List.{tail}
use lab.Process.Transitions.{suspend}
use lab.Run.{Cmd, Returns, returns, Returns-run, ok}
use lab.Queue.Store.{Ptr, null, Store, free_links, queue_success, update}
use lab.Queue.Shape.{head_or, View, Holds}
use lab.Queue.Insertion.{insert_last}
use lab.Queue.Removal.{alloc_link}
use lab.Queue.InsertionLaws.{insert_last-snoc}
use lab.Queue.RemovalLaws.{Allocated, alloc_link-Allocated}
use lab.Kernel.{Kernel, Pcb, run_queue, wait_queue, zombie_queue}
use lab.Process.Status.{status_waiting, with_status}
use lab.Process.Schedule.{schedule, process_quantum}
use lab.Process.ScheduleLaws.{schedule-head}
use lab.Process.Requeue.{items, back, Enlisted, Enlisted-of}
use lab.Process.TransitionLaws.{suspend-Moved}
use lab.Synch.Handles.{process_sleep, current_pcb}
use lab.Synch.Wake.{IsWaiting}

-- A new link for a process joins the end of a queue, in equations.
pub data Joins (s : Store) (v : View) (q p : Ptr) : Type 0 where
  joins :
      (m : Ptr) (s1 s2 : Store)
      → alloc_link p s ≡ ok m s1
      → insert_last q m s1 ≡ ok queue_success s2
      → Enlisted s v back q p m s2
      → Joins s v q p

pub join :
    (s : Store) (v : View) (q p m : Ptr) (rest : List Ptr)
    → IsWaiting q
    → Holds s v
    → v free_links ≡ m ∷ rest
    → Joins s v q p
join s v q p m rest w all free =
    let (m', s1, al, allocated) = Returns-run (alloc_link-Allocated s v p all m rest free) in
    let al' = subst (λ (x : Ptr). Allocated s v p m rest x s1) al.result al in
    let (r, s2, re, inserted) = Returns-run (
      insert_last-snoc s1 (update v free_links rest) q m w.not_null al'.not_null al'.holds
        al'.loose) in
    joins m s1 s2 (allocated ∙ ap (λ (x : Ptr). ok x s1) al.result)
      (inserted ∙ ap (λ (x : ℕ). ok x s2) re.0)
      (Enlisted-of s s1 s2 v back q p m rest w.not_null w.not_free all free al' (refl, re.1, re.2))

-- The running process `p` has joined the end of the queue `q` and the end of the wait queue; the
-- others, `m` first, are left in the run queue. A free link has gone.
pub record Slept (k : Kernel) (v : View) (q p m : Ptr) (ms : List Ptr) (s : Store)
    (pcbs : Ptr → Pcb) : Type 0 where
  pub view : View
  pub holds : Holds s view
  pub waiting : items s (view q) ≡ items k.store (v q) ++ p ∷ []
  pub sleeping : items s (view wait_queue) ≡ items k.store (v wait_queue) ++ p ∷ []
  pub running : items s (view run_queue) ≡ items k.store (m ∷ ms)
  pub pool : suc (length (view free_links)) ≡ length (v free_links)
  pub others :
      (j : Ptr)
      → j ≢ null
      → j ≢ free_links
      → j ≢ q
      → j ≢ wait_queue
      → j ≢ run_queue
      → items s (view j) ≡ items k.store (v j)
  pub status : (pcbs p).flags ≡ with_status (k.pcbs p).flags status_waiting
  pub processes : (a : Ptr) → a ≢ p → pcbs a ≡ k.pcbs a

module _ (free_shared_pte : Ptr → ℕ → Cmd Kernel (Unit {0})) where
  -- `schedule-head`, where the queue is known by its processes.
  pub schedule-item :
      (k : Kernel) (v : View) (o : Ptr) (os xs : List Ptr)
      → Holds k.store v
      → v run_queue ≡ xs
      → items k.store xs ≡ o ∷ os
      → v zombie_queue ≡ []
      → schedule free_shared_pte true k ≡ ok tt (record k { current = o; timer = process_quantum })
  schedule-item k v o os [] all run carry none_left = ground arith
  schedule-item k v o os (x ∷ xs) all run carry none_left =
      schedule-head free_shared_pte k v all x xs run none_left
      ∙ ap (λ (y : Ptr). ok tt (record k { current = y; timer = process_quantum }))
          (ap (head_or null) carry)

  -- `ProcessSleep` in a process that has just joined the queue `q`, and does not alone stand in the
  -- run queue.
  module _ (k k' : Kernel) (v : View) (q p pl n m : Ptr) (ms : List Ptr) (w : IsWaiting q)
      (q_zombie : q ≢ zombie_queue) (p_ne : p ≢ null) (me : k'.current ≡ p)
      (link : (k.pcbs p).link ≡ pl) (run : v run_queue ≡ pl ∷ m ∷ ms)
      (none_left : v zombie_queue ≡ []) (pcbs : k'.pcbs ≡ k.pcbs)
      (en : Enlisted k.store v back q p n k'.store) where
    run_kept :
        (en.view run_queue ≡ v run_queue)
        × (items k'.store (en.view run_queue) ≡ items k.store (v run_queue))
    run_kept = en.others run_queue (omega arith) (omega arith) (λ x. w.not_run (sym x))

    -- The links behind the running process carry what they carried.
    rest_kept : items k'.store (m ∷ ms) ≡ items k.store (m ∷ ms)
    rest_kept =
        ap tail (ap (items k'.store) (sym (run_kept.0 ∙ run)) ∙ run_kept.1 ∙ ap (items k.store) run)

    pub process_sleep-Slept :
        Returns
          (λ _ t.
            Slept k v q p m ms t.store t.pcbs
            × (t ≡ record k' {
              store = t.store;
              pcbs = t.pcbs;
              current = (k.store.links m).object;
              timer = process_quantum;
            }))
          (process_sleep free_shared_pte k')
    unfolding process_sleep current_pcb
    process_sleep-Slept =
        let wait_kept =
          en.others wait_queue (omega arith) (omega arith) (λ x. w.not_wait (sym x)) in
        let zombies_kept =
          en.others zombie_queue (omega arith) (omega arith) (λ x. q_zombie (sym x)) in
        let link' : (k'.pcbs p).link ≡ pl = ap (λ (f : Ptr → Pcb). (f p).link) pcbs ∙ link in
        let (u, t, mo, suspended) =
          Returns-run
            (suspend-Moved k' en.view p pl [] (m ∷ ms) p_ne en.holds link' (run_kept.0 ∙ run)) in
        let left = mo.source ∙ rest_kept in
        let empty =
          (mo.others zombie_queue (omega arith) (omega arith) (omega arith) (omega arith)).0
          ∙ zombies_kept.0
          ∙ none_left in
        let next =
          schedule-item t mo.view (k.store.links m).object (items k.store ms) (mo.view run_queue)
            mo.holds refl left empty in
        rw (subst (λ (x : Ptr). suspend x k' ≡ ok u t) (sym me) suspended) (
          rw next (
            returns (
              record {
                view = mo.view;
                holds = mo.holds;
                waiting = (mo.others q w.not_null w.not_free w.not_run w.not_wait).1 ∙ en.target;
                sleeping = mo.target ∙ ap (λ (zs : List Ptr). zs ++ p ∷ []) wait_kept.1;
                running = left;
                pool = ap suc mo.pool ∙ en.pool;
                others = λ j ne jf jq jw jr. (mo.others j ne jf jr jw).1 ∙ (en.others j ne jf jq).1;
                status = ap (λ (r : Pcb). r.flags) (mo.pcbs p) ∙ rw (==_self p, pcbs) refl;
                processes = λ a ne. mo.pcbs a ∙ rw (==_ne a p ne, pcbs) refl;
              },
              ap
                  (λ (x : Kernel). record x {
                    current = (k.store.links m).object;
                    timer = process_quantum;
                  })
                  mo.rest,
            )))
