-- ===== src/Process/Examples.antt =====
-- The laws of os/process.c at a concrete kernel, which the examples of os/synch.c use as well.
use lab.Prelude.{
  ℕ, true, false, ◌≡◌, refl, sym, subst, inl, inr, [], ◌∷◌, arith, ◌==◌, if◌then◌else◌, Bool-cases,
  ==_iff, replicate,
}
use lab.Prelude.Int.{pos, negsuc}
use lab.Run.{◌>>◌, Cmd, Returns, pure}
use lab.Queue.Store.{Ptr, Link, Store, queue_success}
use lab.Queue.Shape.{IsQueue, View, Holds}
use lab.Queue.InitLaws.{empty-IsQueue}
use lab.Queue.InsertionLaws.{Rewrites}
use lab.Kernel.{queued, Kernel, Pcb, run_queue, wait_queue, zombie_queue}
use lab.Process.Status.{status_waiting, status_runnable, status_zombie}
use lab.Queue.Moving.{init_module}
use lab.Queue.InitLaws.{boot}
use lab.Process.Transitions.{suspend, wakeup, destroy, init_pcbs, process_init}
use lab.Process.Schedule.{schedule, process_quantum}
use lab.Process.Requeue.{back, front}
use lab.Process.TransitionLaws.{Moved, now, suspend-Moved, wakeup-Moved, destroy-Moved}
use lab.Process.ScheduleLaws.{schedule-rotate}
use lab.Process.ReadyLaws.{Ready, process_init-Ready}
use lab.Process.InitLaws.{Listed, init_pcbs-Listed}

abbrev pub node : Ptr → Ptr → Ptr → Ptr → Link
node p n q o = record { next = n; prev = p; queue = q; object = o }

-- Two links are free. The processes 1 and 2 stand in the run queue, 3 and 4 sleep; 3 waits for
-- semaphore 0, and 4 for lock 0.
abbrev pub world_store : Store
world_store = record {
  links = λ a.
      if a == 12
      then node 0 13 1 0
      else if a == 13
      then node 12 0 1 0
      else if a == 7
      then node 0 8 3 1
      else if a == 8
      then node 7 0 3 2
      else if a == 9
      then node 0 14 4 3
      else if a == 14
      then node 9 0 4 4
      else if a == 10
      then node 0 0 6 3
      else if a == 11
      then node 0 0 38 4
      else node 0 0 0 0;
  queues = λ k.
      if k == 1
      then record { first = 12; last = 13; nitems = pos 2 }
      else if k == 3
      then record { first = 7; last = 8; nitems = pos 2 }
      else if k == 4
      then record { first = 9; last = 14; nitems = pos 2 }
      else if k == 6
      then record { first = 10; last = 10; nitems = pos 1 }
      else if k == 38
      then record { first = 11; last = 11; nitems = pos 1 }
      else record { first = 0; last = 0; nitems = pos 0 };
}

abbrev pub world_view : View
world_view k =
    if k == 1
    then 12 ∷ 13 ∷ []
    else if k == 3
    then 7 ∷ 8 ∷ []
    else if k == 4
    then 9 ∷ 14 ∷ []
    else if k == 6
    then 10 ∷ []
    else if k == 38
    then 11 ∷ []
    else []

-- What `world_view` gives for a queue of the world.
in_world :
    (k c : Ptr)
    → (k == c) ≡ true
    → IsQueue world_store c (world_view c)
    → IsQueue world_store k (world_view k)
in_world k c same is =
    subst (λ (j : Ptr). IsQueue world_store j (world_view j)) (sym ((==_iff k c).0 same)) is

pool-IsQueue : IsQueue world_store 1 (12 ∷ 13 ∷ [])
pool-IsQueue = record {
  first = refl;
  last = refl;
  nitems = refl;
  chain = (
    record { not_null = omega arith; prev = refl; next = refl; queue = refl },
    (record { not_null = omega arith; prev = refl; next = refl; queue = refl }, tt),
  );
  distinct = (refl, (refl, tt));
}

run-IsQueue : IsQueue world_store 3 (7 ∷ 8 ∷ [])
run-IsQueue = record {
  first = refl;
  last = refl;
  nitems = refl;
  chain = (
    record { not_null = omega arith; prev = refl; next = refl; queue = refl },
    (record { not_null = omega arith; prev = refl; next = refl; queue = refl }, tt),
  );
  distinct = (refl, (refl, tt));
}

wait-IsQueue : IsQueue world_store 4 (9 ∷ 14 ∷ [])
wait-IsQueue = record {
  first = refl;
  last = refl;
  nitems = refl;
  chain = (
    record { not_null = omega arith; prev = refl; next = refl; queue = refl },
    (record { not_null = omega arith; prev = refl; next = refl; queue = refl }, tt),
  );
  distinct = (refl, (refl, tt));
}

sem-IsQueue : IsQueue world_store 6 (10 ∷ [])
sem-IsQueue = record {
  first = refl;
  last = refl;
  nitems = refl;
  chain = (record { not_null = omega arith; prev = refl; next = refl; queue = refl }, tt);
  distinct = (refl, tt);
}

lock-IsQueue : IsQueue world_store 38 (11 ∷ [])
lock-IsQueue = record {
  first = refl;
  last = refl;
  nitems = refl;
  chain = (record { not_null = omega arith; prev = refl; next = refl; queue = refl }, tt);
  distinct = (refl, tt);
}

pub world-Holds : Holds world_store world_view
world-Holds k ne = elim (Bool-cases (k == 1)) [
  | inl same ↦ in_world k 1 same pool-IsQueue
  | inr a ↦ elim (Bool-cases (k == 3)) [
    | inl same ↦ in_world k 3 same run-IsQueue
    | inr b ↦ elim (Bool-cases (k == 4)) [
      | inl same ↦ in_world k 4 same wait-IsQueue
      | inr c ↦ elim (Bool-cases (k == 6)) [
        | inl same ↦ in_world k 6 same sem-IsQueue
        | inr d ↦ elim (Bool-cases (k == 38)) [
          | inl same ↦ in_world k 38 same lock-IsQueue
          | inr e ↦ rw (a, b, c, d, e) (empty-IsQueue world_store k (rw (a, b, c, d, e) refl))
        ]
      ]
    ]
  ]
]

abbrev linked_pcb : Ptr → Pcb
linked_pcb l = record {
  flags = status_runnable;
  link = l;
  npages = 1;
  pagetable = [];
  sys_stack_area = 0;
  result = pos 0;
}

-- Process 1 runs. Semaphore 1 has the count 2; lock 0 and lock 3 belong to process 1, whose index
-- is 0, lock 2 to another process, and the other locks are free.
abbrev pub world : Kernel
world = record {
  store = world_store;
  pcbs = λ p.
      if p == 1
      then linked_pcb 7
      else if p == 2
      then linked_pcb 8
      else if p == 3
      then linked_pcb 9
      else linked_pcb 14;
  current = 1;
  sems = λ i. record { count = if i == 1 then pos 2 else pos 0; inuse = 1 };
  locks = λ i. record {
    pid = if i == 0 then pos 0 else if i == 3 then pos 0 else if i == 2 then pos 1 else negsuc 0;
    inuse = 1;
  };
  conds = λ i. record { lock = 0; inuse = 1 };
  memory = record {
    page_start = 3;
    freemap_max = 1;
    free_count = 0;
    freepages = replicate 1 0;
    mapnum = 0;
  };
  intrs = 7;
  timer = 0;
}

-- The parameter for the routine of lib/share_memory.o, which has no shared pages to free here.
abbrev pub no_shared_pages : Ptr → ℕ → Cmd Kernel (Unit {0})
no_shared_pages p i = pure tt

suspend-Moved_example :
    Returns
      (λ _ t. Moved world world_view 1 run_queue [] (8 ∷ []) back wait_queue (now status_waiting) t)
      (suspend 1 world)
suspend-Moved_example =
    suspend-Moved world world_view 1 7 [] (8 ∷ []) (omega arith) world-Holds refl refl

wakeup-Moved_example :
    Returns
      (λ _ t.
        Moved world world_view 3 wait_queue [] (14 ∷ []) back run_queue (now status_runnable) t)
      (wakeup 3 world)
wakeup-Moved_example =
    wakeup-Moved world world_view 3 9 [] (14 ∷ []) (omega arith) world-Holds refl refl

destroy-Moved_example :
    Returns
      (λ _ t.
        Moved world world_view 1 run_queue [] (8 ∷ []) front zombie_queue (now status_zombie) t)
      (destroy 1 world)
destroy-Moved_example =
    destroy-Moved world world_view 1 7 [] (8 ∷ []) (omega arith) world-Holds refl refl

schedule-rotate_example :
    Returns
      (λ _ t.
        Rewrites world_store world_view run_queue (8 ∷ 7 ∷ []) queue_success t.store
        × (t ≡ record world { store = t.store; current = 2; timer = process_quantum }))
      (schedule no_shared_pages false world)
schedule-rotate_example =
    schedule-rotate no_shared_pages world world_view world-Holds 7 8 [] refl refl

init_pcbs-Listed_example : Returns (λ _ t. Listed world world_view 2 20 t) (init_pcbs 2 20 world)
init_pcbs-Listed_example =
    init_pcbs-Listed world world_view 2 20 (omega arith) world-Holds (omega arith)

process_init-Ready_example :
    Returns
      (λ _ t. Ready world t)
      ((queued init_module >> process_init) (record world { store = boot }))
process_init-Ready_example = process_init-Ready world
