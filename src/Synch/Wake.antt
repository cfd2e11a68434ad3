-- ===== src/Synch/Wake.antt =====
-- What the routines of os/synch.c do to wake a process: its link leaves the queue of the semaphore,
-- lock or condition, and the process moves from the wait queue to the run queue.
use lab.Prelude.{
  suc, true, ◌≡◌, ◌≢◌, refl, sym, ◌∙◌, ap, List, [], ◌∷◌, ◌++◌, arith, ==_self, ==_ne, length,
  length-append,
}
use lab.Run.{Returns, Returns-mono}
use lab.Queue.Store.{Ptr, null, Store, update, free_links}
use lab.Queue.Shape.{contains, contains-append, Chain-queue, View, Holds}
use lab.Queue.Inserted.{SameObjects}
use lab.Queue.RemovalLaws.{returned}
use lab.Kernel.{Kernel, Pcb, run_queue, wait_queue}
use lab.Process.Status.{status_runnable, with_status}
use lab.Process.Transitions.{wakeup}
use lab.Process.Requeue.{items, items-same}
use lab.Process.TransitionLaws.{items-SameObjects, wakeup-Moved}

-- The process `p`, first in the queue `q` with the others `ls` behind it and between `xs` and `ys` in
-- the wait queue, has gone to the end of the run queue. A link has come back to the pool.
pub record Woken (k : Kernel) (v : View) (q p : Ptr) (ls xs ys : List Ptr) (s : Store)
    (pcbs : Ptr → Pcb) : Type 0 where
  pub view : View
  pub holds : Holds s view
  pub waiting : items s (view q) ≡ items k.store ls
  pub sleeping : items s (view wait_queue) ≡ items k.store (xs ++ ys)
  pub running : items s (view run_queue) ≡ items k.store (v run_queue) ++ p ∷ []
  pub pool : length (view free_links) ≡ suc (length (v free_links))
  pub others :
      (j : Ptr)
      → j ≢ null
      → j ≢ free_links
      → j ≢ q
      → j ≢ wait_queue
      → j ≢ run_queue
      → items s (view j) ≡ items k.store (v j)
  pub status : (pcbs p).flags ≡ with_status (k.pcbs p).flags status_runnable
  pub processes : (a : Ptr) → a ≢ p → pcbs a ≡ k.pcbs a

contains-mid :
    (pl a : Ptr) (xs ys : List Ptr)
    → contains a (xs ++ ys) ≡ true
    → contains a (xs ++ pl ∷ ys) ≡ true
contains-mid pl a xs ys i =
    ground (arith, i, contains-append a xs ys, contains-append a xs (pl ∷ ys))

-- `q` is none of the queues between which a process moves.
pub record IsWaiting (q : Ptr) : Type 0 where
  pub not_null : q ≢ null
  pub not_free : q ≢ free_links
  pub not_run : q ≢ run_queue
  pub not_wait : q ≢ wait_queue

module _ (k : Kernel) (v : View) (q l p pl : Ptr) (ls xs ys : List Ptr) (w : IsWaiting q)
    (p_ne : p ≢ null) (first : v q ≡ l ∷ ls) (link : (k.pcbs p).link ≡ pl)
    (sleeps : v wait_queue ≡ xs ++ pl ∷ ys) where
  -- The lists once the link has left `q`.
  left : View
  left = returned v q l [] ls

  left_other : (j : Ptr) → j ≢ free_links → j ≢ q → left j ≡ v j
  unfolding left update
  left_other j j_free j_q = rw (==_ne j free_links j_free, ==_ne j q j_q) refl

  left_here : left q ≡ ls
  unfolding left update
  left_here = rw (==_ne q free_links w.not_free, ==_self q) refl

  left_pool : length (left free_links) ≡ suc (length (v free_links))
  unfolding left update
  left_pool =
      rw (==_ne free_links q (λ x. w.not_free (sym x)))
        (omega (arith, length-append {0} (v free_links) (l ∷ [])))

  -- The processes that sleep beside `p` are the same.
  items-kept :
      (k' : Kernel)
      → Holds k'.store left
      → SameObjects k.store k'.store
      → items k'.store (xs ++ ys) ≡ items k.store (xs ++ ys)
  items-kept k' h same = items-same k.store k'.store (xs ++ ys) λ a i.
      same a
        (Chain-queue k'.store.links wait_queue null (left wait_queue) null a
          (h wait_queue (omega arith)).chain
          (rw (left_other wait_queue (omega arith) (λ e. w.not_wait (sym e)), sleeps)
            (contains-mid pl a xs ys i))).1

  pub wakeup-Woken :
      (k' : Kernel)
      → Holds k'.store (returned v q l [] ls)
      → SameObjects k.store k'.store
      → k'.pcbs ≡ k.pcbs
      → Returns
          (λ _ t.
            Woken k v q p ls xs ys t.store t.pcbs
            × (t ≡ record k' { store = t.store; pcbs = t.pcbs }))
          (wakeup p k')
  unfolding left
  wakeup-Woken k' h same pcbs =
      let kept = λ (j : Ptr) (ne : j ≢ null). items-SameObjects k.store k'.store left j ne h same in
      let wait_at : left wait_queue ≡ xs ++ pl ∷ ys =
        left_other wait_queue (omega arith) (λ e. w.not_wait (sym e)) ∙ sleeps in
      Returns-mono
        (wakeup-Moved k' left p pl xs ys p_ne h (ap (λ (f : Ptr → Pcb). (f p).link) pcbs ∙ link)
          wait_at)
        λ _ t mo. (
          record {
            view = mo.view;
            holds = mo.holds;
            waiting =
                (mo.others q w.not_null w.not_free w.not_wait w.not_run).1
                ∙ kept q w.not_null
                ∙ ap (items k.store) left_here;
            sleeping = mo.source ∙ items-kept k' h same;
            running =
                mo.target
                ∙ ap (λ (zs : List Ptr). zs ++ p ∷ [])
                    (kept run_queue (omega arith)
                      ∙ ap (items k.store)
                          (left_other run_queue (omega arith) (λ e. w.not_run (sym e))));
            pool = mo.pool ∙ left_pool;
            others = λ j ne jf jq jw jr.
                (mo.others j ne jf jw jr).1 ∙ kept j ne ∙ ap (items k.store) (left_other j jf jq);
            status = ap (λ (r : Pcb). r.flags) (mo.pcbs p) ∙ rw (==_self p, pcbs) refl;
            processes = λ a ne. mo.pcbs a ∙ rw (==_ne a p ne, pcbs) refl;
          },
          mo.rest,
        )
