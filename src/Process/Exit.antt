-- ===== src/Process/Exit.antt =====
-- The exit trap of os/traps.c: ProcessDestroy, and ProcessSchedule with a zombie.
use lab.Prelude.{
  ℕ, ◌≡◌, ◌≢◌, refl, sym, subst, ◌∙◌, ap, true, false, List, [], ◌∷◌, ◌++◌, arith, ==_self, ==_ne,
  ==_iff, length,
}
use mathlib.Core.List.{tail}
use lab.Run.{Cmd, Returns, returns, Returns-mono, Returns-and_then, Returns-run, ◌>>◌}
use lab.Queue.Store.{Ptr, null, Store, update, free_links, queue_success, object_of}
use lab.Queue.Shape.{contains, View, Holds, IsQueue, head_or}
use lab.Queue.AccessLaws.{is_empty-cons, first_of-head, last_of-last}
use lab.Queue.InsertionLaws.{Rewrites}
use lab.Queue.MovingLaws.{move_after-rotate}
use lab.Kernel.{Kernel, Pcb, free_pcbs, run_queue, wait_queue, zombie_queue}
use lab.Memory.Freemap.{Memory}
use lab.Process.Schedule.{schedule, rotate, dispatch, reap, set_timer, set_current, process_quantum}
use lab.Process.Requeue.{items, items-append, front}
use lab.Process.Status.{status_free, status_zombie}
use lab.Process.Transitions.{destroy}
use lab.Process.TransitionLaws.{Moved, now, destroy-Moved, items-SameObjects}
use lab.Process.Freeing.{InRoom, Freed}
use lab.Process.Reclaim.{owned, SharesNone, SharesNone-same}
use lab.Process.Reaping.{Reaped, reap-Reaped}

module _ (free_shared_pte : Ptr → ℕ → Cmd Kernel (Unit {0})) where
  -- The second half of `ProcessSchedule`, with a zombie.
  run_next :
      (k : Kernel) (v : View) (p l y d : Ptr) (ys : List Ptr)
      → p ≢ null
      → Holds k.store v
      → v run_queue ≡ y ∷ ys
      → (k.store.links y).object ≡ d
      → v zombie_queue ≡ l ∷ []
      → (k.store.links l).object ≡ p
      → (k.pcbs p).link ≡ l
      → SharesNone free_shared_pte k p
      → InRoom (length k.memory.freepages) (owned (k.pcbs p))
      → Returns
          (λ _ t. Reaped (record k { current = d; timer = process_quantum }) v p t)
          ((dispatch >> (reap free_shared_pte 33 >> set_timer process_quantum)) k)
  unfolding dispatch object_of set_current set_timer
  run_next k v p l y d ys p_ne all run next zombies carries link none room =
      let run_at = subst (IsQueue k.store run_queue) run (all run_queue (omega arith)) in
      simp
        (
          first_of-head k.store run_queue (omega arith) (y ∷ ys) run_at,
          ==_ne y null run_at.chain.0.not_null,
          next,
        )
        (Returns-and_then
          (reap-Reaped free_shared_pte (record k { current = d }) v p l 31 p_ne all zombies carries
            link none room)
          λ _ t r. returns (record {
            view = r.view;
            holds = r.holds;
            no_zombie = r.no_zombie;
            free = r.free;
            others = r.others;
            pool = r.pool;
            status = r.status;
            processes = r.processes;
            memory = r.memory;
            rest = ap (λ (x : Kernel). record x { timer = process_quantum }) r.rest;
          }))

  -- `ProcessSchedule` at the end of a quantum, with one zombie: the run queue is rotated, the process
  -- behind the first one runs, and the zombie becomes a free process.
  schedule-Reaped :
      (k : Kernel) (v : View) (p l x y d : Ptr) (ys : List Ptr)
      → p ≢ null
      → Holds k.store v
      → v run_queue ≡ x ∷ y ∷ ys
      → (k.store.links y).object ≡ d
      → v zombie_queue ≡ l ∷ []
      → (k.store.links l).object ≡ p
      → (k.pcbs p).link ≡ l
      → SharesNone free_shared_pte k p
      → InRoom (length k.memory.freepages) (owned (k.pcbs p))
      → Returns
          (λ _ t.
            (s : Store) × Rewrites k.store v run_queue (y ∷ ys ++ x ∷ []) queue_success s
            × Reaped
                (record k { store = s; current = d; timer = process_quantum })
                (update v run_queue (y ∷ ys ++ x ∷ []))
                p
                t)
          (schedule free_shared_pte false k)
  unfolding schedule rotate update
  schedule-Reaped k v p l x y d ys p_ne all run next zombies carries link none room =
      let run_at = subst (IsQueue k.store run_queue) run (all run_queue (omega arith)) in
      let zombies_at =
        subst (IsQueue k.store zombie_queue) zombies (all zombie_queue (omega arith)) in
      let (a, s, re, moved) =
        Returns-run (move_after-rotate k.store v run_queue x (omega arith) all y ys run) in
      let same = re.2 in
      simp
        (
          is_empty-cons k.store run_queue (omega arith) x (y ∷ ys) run_at,
          first_of-head k.store run_queue (omega arith) (x ∷ y ∷ ys) run_at,
          last_of-last k.store run_queue (omega arith) (x ∷ y ∷ ys) run_at,
          moved,
        )
        (Returns-mono
          (run_next (record k { store = s }) (update v run_queue (y ∷ ys ++ x ∷ [])) p l y d
            (ys ++ x ∷ []) p_ne re.1 refl (same y run_at.chain.1.0.not_null ∙ next) zombies
            (same l zombies_at.chain.0.not_null ∙ carries) link none room)
          λ _ t r. (s, (refl, re.1, re.2), r))

-- The first link of a queue, by what it carries.
split_head :
    (s : Store) (xs : List Ptr) (c : Ptr) (es : List Ptr)
    → items s xs ≡ c ∷ es
    → (x : Ptr) × (ys : List Ptr) × (xs ≡ x ∷ ys) × ((s.links x).object ≡ c) × (items s ys ≡ es)
split_head s [] c es carry = ground (arith, carry)
split_head s (x ∷ xs) c es carry = (x, xs, refl, ap (head_or null) carry, ap tail carry)

-- A list without items is empty.
no_items : (s : Store) (xs : List Ptr) → items s xs ≡ [] → xs ≡ []
no_items s [] carry = refl
no_items s (x ∷ xs) carry = ground (arith, carry)

-- What the exit trap of the process `p` leaves of the kernel `k`, where the processes `c`, `d` and `es`
-- stood behind it in the run queue.
pub record Exited (k : Kernel) (v : View) (p c d : Ptr) (es : List Ptr) (t : Kernel) : Type 0 where
  pub view : View
  pub holds : Holds t.store view
  pub current : t.current ≡ d
  pub quantum : t.timer ≡ process_quantum
  pub running : items t.store (view run_queue) ≡ d ∷ es ++ c ∷ []
  pub sleeping : items t.store (view wait_queue) ≡ items k.store (v wait_queue)
  pub no_zombie : view zombie_queue ≡ []
  pub free : items t.store (view free_pcbs) ≡ items k.store (v free_pcbs) ++ p ∷ []
  pub pool : length (view free_links) ≡ length (v free_links)
  pub status : (t.pcbs p).flags ≡ status_free
  pub processes : (a : Ptr) → a ≢ p → t.pcbs a ≡ k.pcbs a
  pub memory : Freed k.memory (owned (k.pcbs p)) t.memory

-- The kernel `j` after the destruction of `p`: what `ProcessSchedule` finds in its queues.
record Dying (k : Kernel) (v : View) (p c d : Ptr) (es : List Ptr) (j : Kernel) : Type 0 where
  view : View
  holds : Holds j.store view
  x : Ptr
  y : Ptr
  ys : List Ptr
  run : view run_queue ≡ x ∷ y ∷ ys
  at_x : (j.store.links x).object ≡ c
  at_y : (j.store.links y).object ≡ d
  behind : items j.store ys ≡ es
  z : Ptr
  alone : view zombie_queue ≡ z ∷ []
  at_z : (j.store.links z).object ≡ p
  link : (j.pcbs p).link ≡ z
  npages : (j.pcbs p).npages ≡ (k.pcbs p).npages
  pagetable : (j.pcbs p).pagetable ≡ (k.pcbs p).pagetable
  owns : owned (j.pcbs p) ≡ owned (k.pcbs p)
  memory : j.memory ≡ k.memory
  waiting : items j.store (view wait_queue) ≡ items k.store (v wait_queue)
  free : items j.store (view free_pcbs) ≡ items k.store (v free_pcbs)
  pool : length (view free_links) ≡ length (v free_links)
  processes : (a : Ptr) → a ≢ p → j.pcbs a ≡ k.pcbs a

Dying-of :
    (k j : Kernel) (v : View) (p c d : Ptr) (ls es : List Ptr)
    → items k.store ls ≡ c ∷ d ∷ es
    → v zombie_queue ≡ []
    → Moved k v p run_queue [] ls front zombie_queue (now status_zombie) j
    → Dying k v p c d es j
Dying-of k j v p c d ls es behind none_yet mo =
    let (x, xs, run_x, at_x, behind_x) =
      split_head j.store (mo.view run_queue) c (d ∷ es) (mo.source ∙ behind) in
    let (y, ys, run_y, at_y, behind_y) = split_head j.store xs d es behind_x in
    let (z, zs, dead, at_z, behind_z) =
      split_head j.store (mo.view zombie_queue) p []
        (mo.target ∙ ap (λ (q : List Ptr). p ∷ items k.store q) none_yet) in
    let alone : mo.view zombie_queue ≡ z ∷ [] =
      dead ∙ ap (λ (q : List Ptr). z ∷ q) (no_items j.store zs behind_z) in
    let member : contains mo.link (z ∷ []) ≡ true =
      subst (λ (q : List Ptr). contains mo.link q ≡ true) alone mo.member in
    let its : mo.link ≡ z = (==_iff mo.link z).0 (ground (arith, member)) in
    let mine : j.pcbs p
        ≡ record (k.pcbs p) { flags = now status_zombie (k.pcbs p).flags; link = mo.link } =
      mo.pcbs p ∙ rw (==_self p) refl in
    record {
      view = mo.view;
      holds = mo.holds;
      x = x;
      y = y;
      ys = ys;
      run = run_x ∙ ap (λ (q : List Ptr). x ∷ q) run_y;
      at_x = at_x;
      at_y = at_y;
      behind = behind_y;
      z = z;
      alone = alone;
      at_z = at_z;
      link = ap (λ (r : Pcb). r.link) mine ∙ its;
      npages = ap (λ (r : Pcb). r.npages) mine;
      pagetable = ap (λ (r : Pcb). r.pagetable) mine;
      owns = ap owned mine;
      memory = ap (λ (q : Kernel). q.memory) mo.rest;
      waiting = (mo.others wait_queue (omega arith) (omega arith) (omega arith) (omega arith)).1;
      free = (mo.others free_pcbs (omega arith) (omega arith) (omega arith) (omega arith)).1;
      pool = mo.pool;
      processes = λ a ne. mo.pcbs a ∙ rw (==_ne a p ne) refl;
    }

Exited-of :
    (k j t : Kernel) (v : View) (p c d : Ptr) (es : List Ptr) (s : Store)
    (dy : Dying k v p c d es j)
    → Rewrites j.store dy.view run_queue (dy.y ∷ dy.ys ++ dy.x ∷ []) queue_success s
    → Reaped
        (record j { store = s; current = d; timer = process_quantum })
        (update dy.view run_queue (dy.y ∷ dy.ys ++ dy.x ∷ []))
        p
        t
    → Exited k v p c d es t
unfolding update
Exited-of k j t v p c d es s dy re r =
    let w = update dy.view run_queue (dy.y ∷ dy.ys ++ dy.x ∷ []) in
    let kept = λ (q : Ptr) (ne : q ≢ null). items-SameObjects j.store s w q ne re.1 re.2 in
    record {
      view = r.view;
      holds = r.holds;
      current = ap (λ (q : Kernel). q.current) r.rest;
      quantum = ap (λ (q : Kernel). q.timer) r.rest;
      running =
          (r.others run_queue (omega arith) (omega arith) (omega arith) (omega arith)).1
          ∙ (kept run_queue (omega arith)
              ∙ (items-append j.store (dy.y ∷ dy.ys) (dy.x ∷ [])
                  ∙ rw (dy.at_x, dy.at_y, dy.behind) refl));
      sleeping =
          (r.others wait_queue (omega arith) (omega arith) (omega arith) (omega arith)).1
          ∙ (kept wait_queue (omega arith) ∙ dy.waiting);
      no_zombie = r.no_zombie;
      free = r.free ∙ ap (λ (xs : List Ptr). xs ++ p ∷ []) (kept free_pcbs (omega arith) ∙ dy.free);
      pool = r.pool ∙ dy.pool;
      status = r.status;
      processes = λ a ne. r.processes a ne ∙ dy.processes a ne;
      memory =
          subst (λ (q : List ℕ). Freed k.memory q t.memory) dy.owns
            (subst (λ (q : Memory). Freed q (owned (j.pcbs p)) t.memory) dy.memory r.memory);
    }

module _ (free_shared_pte : Ptr → ℕ → Cmd Kernel (Unit {0})) where
  -- `ProcessDestroy` of the running process and `ProcessSchedule` at once.
  pub destroy-Exited :
      (k : Kernel) (v : View) (p l c d : Ptr) (ls es : List Ptr)
      → p ≢ null
      → Holds k.store v
      → v run_queue ≡ l ∷ ls
      → items k.store ls ≡ c ∷ d ∷ es
      → v zombie_queue ≡ []
      → (k.pcbs p).link ≡ l
      → SharesNone free_shared_pte k p
      → InRoom (length k.memory.freepages) (owned (k.pcbs p))
      → Returns (λ _ t. Exited k v p c d es t) ((destroy p >> schedule free_shared_pte false) k)
  destroy-Exited k v p l c d ls es p_ne all run behind none_yet link none room =
      Returns-and_then (destroy-Moved k v p l [] ls p_ne all link run) λ _ j mo.
        let dy = Dying-of k j v p c d ls es behind none_yet mo in
        Returns-mono
          (schedule-Reaped free_shared_pte j dy.view p dy.z dy.x dy.y d dy.ys p_ne dy.holds dy.run
            dy.at_y dy.alone dy.at_z dy.link
            (SharesNone-same free_shared_pte k j p dy.npages dy.pagetable none)
            (subst (λ (m : Memory). InRoom (length m.freepages) (owned (j.pcbs p))) (sym dy.memory)
              (subst (λ (q : List ℕ). InRoom (length k.memory.freepages) q) (sym dy.owns) room)))
          λ _ t (s, re, r). Exited-of k j t v p c d es s dy re r
