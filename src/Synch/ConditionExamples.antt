-- ===== src/Synch/ConditionExamples.antt =====
-- The laws of CondWait and CondSignal of os/synch.c, in a kernel where the process 3 waits for the
-- condition 0 and the process 4 for its lock.
use lab.Prelude.{
  ℕ, ◌≡◌, refl, sym, subst, true, inl, inr, [], ◌∷◌, arith, ◌==◌, if◌then◌else◌, Bool-cases, ==_iff,
}
use lab.Prelude.Int.{pos}
use lab.Run.{Returns}
use lab.Queue.Store.{Ptr, Store}
use lab.Queue.Shape.{IsQueue, View, Holds}
use lab.Queue.InitLaws.{empty-IsQueue}
use lab.Kernel.{Kernel, cond_queue, lock_queue, pid_of}
use lab.Process.Schedule.{process_quantum}
use lab.Process.Examples.{node, world, world_store, world_view, world-Holds, no_shared_pages}
use lab.Synch.Handles.{asleep}
use lab.Synch.Condition.{cond_signal, cond_wait}
use lab.Synch.LockLaws.{owned_by}
use lab.Synch.Handover.{Handed}
use lab.Synch.ConditionLaws.{cond_signal-Handed, cond_wait-Handed}

-- The store of the other examples, but for the link of the process 3.
abbrev cond_store : Store
cond_store = record {
  links = λ a. if a == 10 then node 0 0 102 3 else world_store.links a;
  queues = λ k.
      if k == 102
      then record { first = 10; last = 10; nitems = pos 1 }
      else if k == 6
      then record { first = 0; last = 0; nitems = pos 0 }
      else world_store.queues k;
}

abbrev cond_view : View
cond_view k =
    if k == 1
    then 12 ∷ 13 ∷ []
    else if k == 3
    then 7 ∷ 8 ∷ []
    else if k == 4
    then 9 ∷ 14 ∷ []
    else if k == 38
    then 11 ∷ []
    else if k == 102
    then 10 ∷ []
    else []

in_store :
    (k c : Ptr)
    → (k == c) ≡ true
    → IsQueue cond_store c (cond_view c)
    → IsQueue cond_store k (cond_view k)
in_store k c same is =
    subst (λ (j : Ptr). IsQueue cond_store j (cond_view j)) (sym ((==_iff k c).0 same)) is

pool-IsQueue : IsQueue cond_store 1 (12 ∷ 13 ∷ [])
pool-IsQueue = record {
  first = refl;
  last = refl;
  nitems = refl;
  chain = (
    record { not_null = omega arith; prev = refl; next = refl; queue = refl },
    (record { not_null = omega arith; prev = refl; next = refl; queue = refl }, tt),
  );
  distinct = (refl, (refl, tt));
}

run-IsQueue : IsQueue cond_store 3 (7 ∷ 8 ∷ [])
run-IsQueue = record {
  first = refl;
  last = refl;
  nitems = refl;
  chain = (
    record { not_null = omega arith; prev = refl; next = refl; queue = refl },
    (record { not_null = omega arith; prev = refl; next = refl; queue = refl }, tt),
  );
  distinct = (refl, (refl, tt));
}

wait-IsQueue : IsQueue cond_store 4 (9 ∷ 14 ∷ [])
wait-IsQueue = record {
  first = refl;
  last = refl;
  nitems = refl;
  chain = (
    record { not_null = omega arith; prev = refl; next = refl; queue = refl },
    (record { not_null = omega arith; prev = refl; next = refl; queue = refl }, tt),
  );
  distinct = (refl, (refl, tt));
}

lock-IsQueue : IsQueue cond_store 38 (11 ∷ [])
lock-IsQueue = record {
  first = refl;
  last = refl;
  nitems = refl;
  chain = (record { not_null = omega arith; prev = refl; next = refl; queue = refl }, tt);
  distinct = (refl, tt);
}

cond-IsQueue : IsQueue cond_store 102 (10 ∷ [])
cond-IsQueue = record {
  first = refl;
  last = refl;
  nitems = refl;
  chain = (record { not_null = omega arith; prev = refl; next = refl; queue = refl }, tt);
  distinct = (refl, tt);
}

cond-Holds : Holds cond_store cond_view
cond-Holds k ne = elim (Bool-cases (k == 1)) [
  | inl same ↦ in_store k 1 same pool-IsQueue
  | inr a ↦ elim (Bool-cases (k == 3)) [
    | inl same ↦ in_store k 3 same run-IsQueue
    | inr b ↦ elim (Bool-cases (k == 4)) [
      | inl same ↦ in_store k 4 same wait-IsQueue
      | inr c ↦ elim (Bool-cases (k == 38)) [
        | inl same ↦ in_store k 38 same lock-IsQueue
        | inr d ↦ elim (Bool-cases (k == 102)) [
          | inl same ↦ in_store k 102 same cond-IsQueue
          | inr e ↦ elim (Bool-cases (k == 6)) [
            | inl f ↦ rw (a, b, c, d, e) (empty-IsQueue cond_store k (rw (e, f) refl))
            | inr f ↦ rw (a, b, c, d, e) (empty-IsQueue cond_store k (rw (a, b, c, d, e, f) refl))
          ]
        ]
      ]
    ]
  ]
]

-- Process 1 runs and owns the lock 0.
abbrev cond_world : Kernel
cond_world = record world { store = cond_store }

cond_signal-Handed_example :
    Returns
      (λ r t.
        (r ≡ asleep 7)
        × Handed cond_world cond_view
            (cond_queue 0)
            (lock_queue 0)
            3
            []
            []
            (14 ∷ [])
            (8 ∷ [])
            t.store
            t.pcbs
        × (t ≡ record cond_world {
          store = t.store;
          pcbs = t.pcbs;
          locks = owned_by cond_world 0 (pid_of 3);
          current = 2;
          timer = process_quantum;
          intrs = 15;
        }))
      (cond_signal no_shared_pages 0 cond_world)
unfolding pid_of
cond_signal-Handed_example =
    cond_signal-Handed no_shared_pages cond_world cond_view 0 0 10 3 9 7 8 [] [] (14 ∷ []) []
      cond-Holds refl (omega arith) refl (omega arith) (omega arith) (omega arith) refl refl refl
      refl refl refl refl

cond_wait-Handed_example :
    Returns
      (λ r t.
        (r ≡ asleep 7)
        × Handed world world_view
            (lock_queue 0)
            (cond_queue 0)
            4
            []
            (9 ∷ [])
            []
            (8 ∷ [])
            t.store
            t.pcbs
        × (t ≡ record world {
          store = t.store;
          pcbs = t.pcbs;
          locks = t.locks;
          current = 2;
          timer = process_quantum;
          intrs = 15;
        })
        × ((j : ℕ) → t.locks j ≡ owned_by world 0 (pid_of 4) j))
      (cond_wait no_shared_pages 0 world)
unfolding pid_of
cond_wait-Handed_example =
    cond_wait-Handed no_shared_pages world world_view 0 0 11 4 14 7 8 [] (9 ∷ []) [] [] world-Holds
      refl (omega arith) refl (omega arith) (omega arith) (omega arith) refl refl refl refl refl
      refl 12 (13 ∷ []) refl refl
