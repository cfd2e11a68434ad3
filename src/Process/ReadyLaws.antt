-- ===== src/Process/ReadyLaws.antt =====
-- ProcessModuleInit of os/process.c after AQueueModuleInit of os/queue.c, as main calls them.
use lab.Prelude.{
  ◌+◌, ◌≤◌, ◌≡◌, ◌≢◌, refl, sym, subst, ◌∙◌, ap, true, List, [], arith, ◌==◌, ==_ne, ==_iff, length,
  Bool-cases, inl, inr,
}
use lab.Prelude.Int.{pos}
use lab.Run.{Returns, returns, Returns-and_then, ◌>>◌}
use lab.Queue.Store.{Ptr, null, Store, queue_max_links, update, free_links, init_queue, write_queue}
use lab.Queue.Shape.{contains, IsQueue, View, Holds}
use lab.Queue.InitLaws.{boot, fresh_view, init_module-pool, length-pool, empty-IsQueue}
use lab.Queue.Moving.{init_module}
use lab.Kernel.{Kernel, free_pcbs, run_queue, wait_queue, zombie_queue, queued}
use lab.Process.Status.{status_free}
use lab.Process.Transitions.{process_init, max_procs}
use lab.Process.Requeue.{Returns-queued, items}
use lab.Process.InitLaws.{ahead, Listed, init_pcbs-Listed}

abbrev emptied : Store → Ptr → Store
emptied s q = record s {
  queues = update s.queues q (record { first = null; last = null; nitems = pos 0 });
}

emptied-Holds : (s : Store) (v : View) (q : Ptr) → v q ≡ [] → Holds s v → Holds (emptied s q) v
unfolding update
emptied-Holds s v q none all k ne = elim (Bool-cases (k == q)) [
  | inl same ↦
      subst (λ (xs : List Ptr). IsQueue (emptied s q) k xs)
        (sym (ap v ((==_iff k q).0 same) ∙ none)) (empty-IsQueue (emptied s q) k (rw same refl))
  | inr off ↦ record {
    first = rw off (all k ne).first;
    last = rw off (all k ne).last;
    nitems = rw off (all k ne).nitems;
    chain = (all k ne).chain;
    distinct = (all k ne).distinct;
  }
]

-- An empty queue may be initialised once more.
init_queue-empty :
    (s : Store) (v : View) (q : Ptr)
    → q ≢ null
    → v q ≡ []
    → Holds s v
    → Returns (λ _ t. Holds t v) (init_queue q s)
unfolding init_queue write_queue
init_queue-empty s v q q_ne none all =
    simp (==_ne q null q_ne) (returns (emptied-Holds s v q none all))

-- The kernel with all PCBs free, the last one first, and no process.
pub record Ready (k t : Kernel) : Type 0 where
  pub view : View
  pub holds : Holds t.store view
  pub free : items t.store (view free_pcbs) ≡ ahead max_procs 1 []
  pub pool : length (view free_links) + max_procs ≡ queue_max_links
  pub empty : (j : Ptr) → j ≢ null → j ≢ free_links → j ≢ free_pcbs → items t.store (view j) ≡ []
  pub status : (a : Ptr) → 1 ≤ a → a ≤ max_procs → (t.pcbs a).flags ≡ status_free
  pub carries : (a : Ptr) → 1 ≤ a → a ≤ max_procs → (t.store.links (t.pcbs a).link).object ≡ a
  pub member : (a : Ptr) → 1 ≤ a → a ≤ max_procs → contains (t.pcbs a).link (view free_pcbs) ≡ true
  pub rest : t ≡ record k { store = t.store; pcbs = t.pcbs; current = null }

fresh : (j : Ptr) → j ≢ free_links → fresh_view j ≡ []
fresh j ne = rw (==_ne j free_links ne) refl

Ready-of :
    (k t : Kernel) (s : Store)
    → Listed (record k { store = s }) fresh_view max_procs 1 t
    → Ready k (record t { current = null })
Ready-of k t s li = record {
  view = li.view;
  holds = li.holds;
  free = li.free;
  pool = li.pool ∙ length-pool queue_max_links 1;
  empty = λ j ne j_free j_pcbs. li.others j ne j_free j_pcbs ∙ ap (items s) (fresh j j_free);
  status = λ a h h'. li.status a h (omega (arith, h'));
  carries = λ a h h'. li.carries a h (omega (arith, h'));
  member = λ a h h'. li.member a h (omega (arith, h'));
  rest = ap (λ (x : Kernel). record x { current = null }) li.rest;
}

-- `AQueueModuleInit` and then `ProcessModuleInit`, from a memory of zeros, end with 32 free PCBs, the last
-- one first, each on the link that it points to; 400 - 32 links are left free, every other queue is
-- empty, and no process is the current one.
pub process_init-Ready :
    (k : Kernel)
    → Returns (λ _ t. Ready k t) ((queued init_module >> process_init) (record k { store = boot }))
unfolding process_init
process_init-Ready k =
    Returns-queued (record k { store = boot }) _ init_module-pool
      λ r s0 (_, h0).
        Returns-queued (record k { store = s0 }) _
          (init_queue-empty s0 fresh_view free_pcbs (omega arith) (fresh free_pcbs (omega arith))
            h0)
          λ _ s1 h1.
            Returns-queued (record k { store = s1 }) _
              (init_queue-empty s1 fresh_view run_queue (omega arith)
                (fresh run_queue (omega arith)) h1)
              λ _ s2 h2.
                Returns-queued (record k { store = s2 }) _
                  (init_queue-empty s2 fresh_view wait_queue (omega arith)
                    (fresh wait_queue (omega arith)) h2)
                  λ _ s3 h3.
                    Returns-queued (record k { store = s3 }) _
                      (init_queue-empty s3 fresh_view zombie_queue (omega arith)
                        (fresh zombie_queue (omega arith)) h3)
                      λ _ s h.
                        Returns-and_then
                          (init_pcbs-Listed (record k { store = s }) fresh_view max_procs 1
                            (omega arith) h (omega (arith, length-pool queue_max_links 1)))
                          λ _ t li. returns (Ready-of k t s li)
