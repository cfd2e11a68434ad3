-- ===== src/Process/Reaping.antt =====
-- The loop of ProcessSchedule that frees the zombies, with one zombie.
use lab.Prelude.{
  ℕ, suc, ◌≡◌, ◌≢◌, refl, sym, subst, ◌∙◌, ap, List, [], ◌∷◌, ◌++◌, arith, ==_self, ==_ne, length,
  length-append,
}
use lab.Run.{Cmd, Returns, returns, Returns-and_then}
use lab.Queue.Store.{Ptr, null, Store, update, free_links, object_of}
use lab.Queue.Shape.{View, Holds, IsQueue}
use lab.Queue.AccessLaws.{is_empty-nil, is_empty-cons, first_of-head}
use lab.Queue.Inserted.{SameObjects}
use lab.Queue.RemovalLaws.{returned, remove-returned}
use lab.Kernel.{Kernel, Pcb, free_pcbs, zombie_queue, write_pcb, read_pcb}
use lab.Process.Status.{status_free}
use lab.Process.Transitions.{set_link}
use lab.Process.Schedule.{reap}
use lab.Process.Requeue.{Returns-queued, items}
use lab.Process.TransitionLaws.{items-SameObjects}
use lab.Process.Freeing.{InRoom, Freed}
use lab.Process.Reclaim.{owned, SharesNone, SharesNone-same, Reclaimed, free_resources-Reclaimed}

-- The zombie `p` has become a free process.
pub record Reaped (k : Kernel) (v : View) (p : Ptr) (t : Kernel) : Type 0 where
  pub view : View
  pub holds : Holds t.store view
  pub no_zombie : view zombie_queue ≡ []
  pub free : items t.store (view free_pcbs) ≡ items k.store (v free_pcbs) ++ p ∷ []
  pub others :
      (j : Ptr)
      → j ≢ null
      → j ≢ free_links
      → j ≢ free_pcbs
      → j ≢ zombie_queue
      → (view j ≡ v j) × (items t.store (view j) ≡ items k.store (v j))
  pub pool : length (view free_links) ≡ length (v free_links)
  pub status : (t.pcbs p).flags ≡ status_free
  pub processes : (a : Ptr) → a ≢ p → t.pcbs a ≡ k.pcbs a
  pub memory : Freed k.memory (owned (k.pcbs p)) t.memory
  pub rest : t ≡ record k { store = t.store; pcbs = t.pcbs; memory = t.memory }

-- The pool has a first link once a link has joined its end.
some_link : (xs : List Ptr) (l : Ptr) → (m : Ptr) × (rest : List Ptr) × (xs ++ l ∷ [] ≡ m ∷ rest)
some_link [] l = (l, [], refl)
some_link (x ∷ xs) l = (x, xs ++ l ∷ [], refl)

other_queue :
    (v : View) (l j : Ptr)
    → j ≢ free_links
    → j ≢ zombie_queue
    → returned v zombie_queue l [] [] j ≡ v j
unfolding update
other_queue v l j j_free j_z = rw (==_ne j free_links j_free, ==_ne j zombie_queue j_z) refl

-- The link of the zombie went to the pool, from where a free link came to carry the process.
Reaped-of :
    (k t : Kernel) (v : View) (p l m : Ptr) (s : Store)
    → Holds s (returned v zombie_queue l [] [])
    → SameObjects k.store s
    → Reclaimed
        (record k { store = s; pcbs = update k.pcbs p (record (k.pcbs p) { link = null }) })
        (returned v zombie_queue l [] [])
        p
        m
        t
    → Reaped k v p t
unfolding update
Reaped-of k t v p l m s h same rec =
    let w = returned v zombie_queue l [] [] in
    let en = rec.enlisted in
    let mine : update k.pcbs p (record (k.pcbs p) { link = null }) p
        ≡ record (k.pcbs p) { link = null } =
      rw (==_self p) refl in
    let kept = λ (j : Ptr) (ne : j ≢ null). items-SameObjects k.store s w j ne h same in
    let w_of = λ (j : Ptr) (j_free : j ≢ free_links) (j_z : j ≢ zombie_queue).
      other_queue v l j j_free j_z in
    record {
      view = en.view;
      holds = en.holds;
      no_zombie = (en.others zombie_queue (omega arith) (omega arith) (omega arith)).0;
      free = en.target ∙ ap (λ (xs : List Ptr). xs ++ p ∷ []) (kept free_pcbs (omega arith));
      others = λ j j_ne j_free j_d j_z.
          let o = en.others j j_ne j_free j_d in
          (o.0 ∙ w_of j j_free j_z, o.1 ∙ (kept j j_ne ∙ ap (items k.store) (w_of j j_free j_z)));
      pool = omega (arith, en.pool, length-append {0} (v free_links) (l ∷ []));
      status = ap (λ (r : Pcb). r.flags) (rec.pcbs p) ∙ rw (==_self p) refl;
      processes = λ a ne. rec.pcbs a ∙ rw (==_ne a p ne) refl;
      memory = subst (λ (r : Pcb). Freed k.memory (owned r) t.memory) mine rec.memory;
      rest = rec.rest;
    }

module _ (free_shared_pte : Ptr → ℕ → Cmd Kernel (Unit {0})) where
  -- The loop that frees the zombies, when one process is a zombie and it shares no page: its PCB joins
  -- the end of the free ones with the status of a free one, exactly the pages of its table and of its
  -- system stack become free, no zombie is left and no free link is lost; the other queues and processes
  -- stay. It takes two rounds.
  pub reap-Reaped :
      (k : Kernel) (v : View) (p l : Ptr) (left : ℕ)
      → p ≢ null
      → Holds k.store v
      → v zombie_queue ≡ l ∷ []
      → (k.store.links l).object ≡ p
      → (k.pcbs p).link ≡ l
      → SharesNone free_shared_pte k p
      → InRoom (length k.memory.freepages) (owned (k.pcbs p))
      → Returns (λ _ t. Reaped k v p t) (reap free_shared_pte (suc (suc left)) k)
  unfolding reap object_of set_link write_pcb read_pcb update
  reap-Reaped k v p l left p_ne all zombies carries link none room =
      let at = subst (IsQueue k.store zombie_queue) zombies (all zombie_queue (omega arith)) in
      simp
        (
          is_empty-cons k.store zombie_queue (omega arith) l [] at,
          first_of-head k.store zombie_queue (omega arith) (l ∷ []) at,
          ==_ne l null at.chain.0.not_null,
          carries,
          ==_ne p null p_ne,
          link,
        )
        (Returns-queued k _
          (remove-returned k.store v zombie_queue l [] [] (omega arith) all zombies)
          λ r s (done, h, same).
            let w = returned v zombie_queue l [] [] in
            let k1 = record k {
              store = s;
              pcbs = update k.pcbs p (record (k.pcbs p) { link = null });
            } in
            let mine : k1.pcbs p ≡ record (k.pcbs p) { link = null } = rw (==_self p) refl in
            let (m, rest, pool) = some_link (v free_links) l in
            rw done (
              simp (==_ne p null p_ne) (
                Returns-and_then
                  (free_resources-Reclaimed free_shared_pte k1 w p m rest p_ne h pool
                    (SharesNone-same free_shared_pte k k1 p (ap (λ (x : Pcb). x.npages) mine)
                      (ap (λ (x : Pcb). x.pagetable) mine) none)
                    (subst (λ (x : Pcb). InRoom (length k.memory.freepages) (owned x)) (sym mine)
                      room))
                  λ _ t rec.
                    let en = rec.enlisted in
                    let empty =
                      (en.others zombie_queue (omega arith) (omega arith) (omega arith)).0 in
                    let now =
                      subst (IsQueue t.store zombie_queue) empty
                        (en.holds zombie_queue (omega arith)) in
                    rw (is_empty-nil t.store zombie_queue (omega arith) now)
                      (returns (Reaped-of k t v p l m s h same rec)))))
