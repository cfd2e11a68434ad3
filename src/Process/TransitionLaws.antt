-- ===== src/Process/TransitionLaws.antt =====
-- ProcessSuspend, ProcessWakeup and ProcessDestroy of os/process.c against lists of processes.
use lab.Prelude.{
  ℕ, suc, ◌≡◌, ◌≢◌, refl, sym, subst, ◌∙◌, ap, true, List, [], ◌∷◌, ◌++◌, arith, ◌==◌,
  if◌then◌else◌, ==_self, ==_ne, length, length-append,
}
use lab.Run.{Returns, returns, and_then, Returns-mono}
use lab.Queue.Store.{Ptr, null, Store, update, free_links}
use lab.Queue.Shape.{contains, View, Holds, Chain-queue, head_or}
use lab.Queue.Inserted.{SameObjects}
use lab.Queue.RemovalLaws.{Allocated, returned, remove-returned, alloc_link-Allocated}
use lab.Kernel.{Kernel, run_queue, wait_queue, zombie_queue, write_pcb, read_pcb}
use lab.Process.Status.{status_runnable, status_waiting, status_zombie, with_status, set_status}
use lab.Process.Transitions.{set_link, enqueue, requeue, suspend, wakeup, destroy}
use lab.Process.Requeue.{
  Returns-queued, items, items-same, Place, back, front, placed, insert_at, insert_at-placed,
  Enlisted, Enlisted-of,
}

-- The process `p` with the link `m`, over the store `s`.
abbrev pub linked : Kernel → Ptr → Ptr → Store → Kernel
linked k p m s = record k { store = s; pcbs = update k.pcbs p (record (k.pcbs p) { link = m }) }

pub enqueue-Enlisted :
    (k : Kernel) (v : View) (e : Place) (d p m : Ptr) (rest : List Ptr)
    → p ≢ null
    → d ≢ null
    → d ≢ free_links
    → Holds k.store v
    → v free_links ≡ m ∷ rest
    → Returns
        (λ _ t. (s : Store) × Enlisted k.store v e d p m s × (t ≡ linked k p m s))
        (enqueue (insert_at e d) p k)
unfolding enqueue set_link write_pcb update
enqueue-Enlisted k v e d p m rest p_ne d_ne d_free all free =
    Returns-queued k _ (alloc_link-Allocated k.store v p all m rest free) λ r s al.
      let al' = subst (λ (x : Ptr). Allocated k.store v p m rest x s) al.result al in
      rw al.result (
        simp (==_ne p null p_ne, ==_ne m null al'.not_null)
          (Returns-queued (linked k p m s) _
            (insert_at-placed e s (update v free_links rest) d m d_ne al'.not_null al'.holds
              al'.loose)
            λ status u re. rw re.0 (
              returns (
                u,
                Enlisted-of k.store s u v e d p m rest d_ne d_free all free al' (refl, re.1, re.2),
                refl,
              ))))

pub items-SameObjects :
    (s t : Store) (w : View) (j : Ptr)
    → j ≢ null
    → Holds t w
    → SameObjects s t
    → items t (w j) ≡ items s (w j)
items-SameObjects s t w j ne all same =
    items-same s t (w j)
      λ a i. same a (Chain-queue t.links j null (w j) null a (all j ne).chain i).1

-- The process `p` has left its place between `xs` and `ys` in the queue `q` and stands at a place of
-- the queue `d`; the number of free links, the other queues and the other processes are as before.
pub record Moved (k : Kernel) (v : View) (p q : Ptr) (xs ys : List Ptr) (e : Place) (d : Ptr)
    (status : ℕ → ℕ) (t : Kernel) : Type 0 where
  pub view : View
  pub link : Ptr
  pub holds : Holds t.store view
  pub not_null : link ≢ null
  pub carries : (t.store.links link).object ≡ p
  pub member : contains link (view d) ≡ true
  pub source : items t.store (view q) ≡ items k.store (xs ++ ys)
  pub target : items t.store (view d) ≡ placed e p (items k.store (v d))
  pub links : view d ≡ placed e link (v d)
  pub others :
      (j : Ptr)
      → j ≢ null
      → j ≢ free_links
      → j ≢ q
      → j ≢ d
      → (view j ≡ v j) × (items t.store (view j) ≡ items k.store (v j))
  pub pool : length (view free_links) ≡ length (v free_links)
  pub pcbs :
      (a : Ptr)
      → t.pcbs a ≡ (
          if a == p
          then record (k.pcbs p) { flags = status (k.pcbs p).flags; link = link }
          else k.pcbs a)
  pub rest : t ≡ record k { store = t.store; pcbs = t.pcbs }

-- The first free link once `l` has joined the end of the pool, and the links behind it.
rest_or : Ptr → List Ptr → List Ptr
rest_or l [] = []
rest_or l (x ∷ xs) = xs ++ l ∷ []

snoc-eq-cons : (l : Ptr) (xs : List Ptr) → xs ++ l ∷ [] ≡ head_or l xs ∷ rest_or l xs
unfolding rest_or
snoc-eq-cons l [] = refl
snoc-eq-cons l (x ∷ xs) = refl

module _ (k : Kernel) (v : View) (p q l : Ptr) (xs ys : List Ptr) (e : Place) (d : Ptr)
    (p_ne : p ≢ null) (q_ne : q ≢ null) (q_free : q ≢ free_links) (d_ne : d ≢ null)
    (d_free : d ≢ free_links) (qd : q ≢ d) (all : Holds k.store v) (at : v q ≡ xs ++ l ∷ ys) where
  m : Ptr
  m = head_or l (v free_links)

  w : View
  w = returned v q l xs ys

  free : w free_links ≡ m ∷ rest_or l (v free_links)
  unfolding w m update
  free = rw (==_ne free_links q (λ x. q_free (sym x))) (snoc-eq-cons l (v free_links))

  w_of : (j : Ptr) → j ≢ free_links → j ≢ q → w j ≡ v j
  unfolding w update
  w_of j j_free j_q = rw (==_ne j free_links j_free, ==_ne j q j_q) refl

  w_source : w q ≡ xs ++ ys
  unfolding w update
  w_source = rw (==_ne q free_links q_free, ==_self q) refl

  length_pool : length (w free_links) ≡ suc (length (v free_links))
  unfolding w update
  length_pool =
      rw (==_ne free_links q (λ x. q_free (sym x)))
        (omega (arith, length-append {0} (v free_links) (l ∷ [])))

  Moved-of :
      (s u : Store)
      → Holds s w
      → SameObjects k.store s
      → Enlisted s w e d p m u
      → Moved k v p q xs ys e d (λ f. f) (linked (linked k p null s) p m u)
  unfolding update
  Moved-of s u h same en =
      let kept = λ (j : Ptr) (ne : j ≢ null). items-SameObjects k.store s w j ne h same in
      record {
        view = en.view;
        link = m;
        holds = en.holds;
        not_null = en.not_null;
        carries = en.carries;
        member = en.member;
        source = (en.others q q_ne q_free qd).1 ∙ kept q q_ne ∙ ap (items k.store) w_source;
        target =
            en.target
            ∙ ap (placed e p) (kept d d_ne ∙ ap (items k.store) (w_of d d_free (λ x. qd (sym x))));
        links = en.links ∙ ap (placed e m) (w_of d d_free (λ x. qd (sym x)));
        others = λ j j_ne j_free j_q j_d.
            let o = en.others j j_ne j_free j_d in
            let same_list = w_of j j_free j_q in
            (o.0 ∙ same_list, o.1 ∙ kept j j_ne ∙ ap (items k.store) same_list);
        pool = omega (arith, en.pool, length_pool);
        pcbs = λ a. ground arith;
        rest = refl;
      }

  requeue-Moved :
      (k.pcbs p).link ≡ l
      → Returns (λ _ t. Moved k v p q xs ys e d (λ f. f) t) (requeue (insert_at e d) p k)
  unfolding requeue read_pcb set_link write_pcb update w
  requeue-Moved link =
      simp (==_ne p null p_ne, link)
        (Returns-queued k _ (remove-returned k.store v q l xs ys q_ne all at) λ r s (done, h, same).
          rw done (
            simp (==_ne p null p_ne) (
              Returns-mono
                (enqueue-Enlisted (linked k p null s) w e d p m (rest_or l (v free_links)) p_ne d_ne
                  d_free h free)
                λ _ t (u, en, is). rw is (Moved-of s u h same en))))

-- The pid's status bits before and after, as `Moved` wants them.
abbrev pub now : ℕ → ℕ → ℕ
now status flags = with_status flags status

module _ (k : Kernel) (v : View) (p l : Ptr) (xs ys : List Ptr) (p_ne : p ≢ null)
    (all : Holds k.store v) (link : (k.pcbs p).link ≡ l) where
  transition-Moved :
      (q : Ptr) (e : Place) (d status : ℕ)
      → q ≢ null
      → q ≢ free_links
      → d ≢ null
      → d ≢ free_links
      → q ≢ d
      → v q ≡ xs ++ l ∷ ys
      → Returns
          (λ _ t. Moved k v p q xs ys e d (now status) t)
          (and_then (set_status p status k) (λ _. requeue (insert_at e d) p))
  unfolding set_status update
  transition-Moved q e d status q_ne q_free d_ne d_free qd at =
      let k' = record k {
        pcbs = update k.pcbs p (record (k.pcbs p) { flags = with_status (k.pcbs p).flags status });
      } in
      let link' : (k'.pcbs p).link ≡ l = rw (==_self p) link in
      rw (==_ne p null p_ne) (
        Returns-mono
          (requeue-Moved k' v p q l xs ys e d p_ne q_ne q_free d_ne d_free qd all at link')
          λ _ t mo. record {
            view = mo.view;
            link = mo.link;
            holds = mo.holds;
            not_null = mo.not_null;
            carries = mo.carries;
            member = mo.member;
            source = mo.source;
            target = mo.target;
            links = mo.links;
            others = mo.others;
            pool = mo.pool;
            pcbs = λ a. ground (arith, mo.pcbs a);
            rest = mo.rest;
          })

  -- `ProcessSuspend` takes a process that stands anywhere in the run queue to the end of the wait
  -- queue and marks it as waiting. It needs no free link to spare: the pool keeps its size, and
  -- the other queues and processes stay as they are.
  pub suspend-Moved :
      v run_queue ≡ xs ++ l ∷ ys
      → Returns
          (λ _ t. Moved k v p run_queue xs ys back wait_queue (now status_waiting) t)
          (suspend p k)
  unfolding suspend
  suspend-Moved =
      transition-Moved run_queue back wait_queue status_waiting (omega arith) (omega arith)
        (omega arith) (omega arith) (omega arith)

  -- `ProcessWakeup` takes a process that stands anywhere in the wait queue to the end of the run
  -- queue and marks it as runnable; the size of the pool, the other queues and the other processes
  -- stay.
  pub wakeup-Moved :
      v wait_queue ≡ xs ++ l ∷ ys
      → Returns
          (λ _ t. Moved k v p wait_queue xs ys back run_queue (now status_runnable) t)
          (wakeup p k)
  unfolding wakeup
  wakeup-Moved =
      transition-Moved wait_queue back run_queue status_runnable (omega arith) (omega arith)
        (omega arith) (omega arith) (omega arith)

  -- `ProcessDestroy` takes a process that stands anywhere in the run queue to the front of the
  -- zombies and marks it so; the size of the pool, the other queues and the other processes stay.
  pub destroy-Moved :
      v run_queue ≡ xs ++ l ∷ ys
      → Returns
          (λ _ t. Moved k v p run_queue xs ys front zombie_queue (now status_zombie) t)
          (destroy p k)
  unfolding destroy
  destroy-Moved =
      transition-Moved run_queue front zombie_queue status_zombie (omega arith) (omega arith)
        (omega arith) (omega arith) (omega arith)
