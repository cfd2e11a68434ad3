-- ===== src/Synch/ConditionLaws.antt =====
-- CondWait and CondSignal of os/synch.c.
use lab.Prelude.{ℕ, ◌≡◌, ◌≢◌, ◌<◌, refl, sym, subst, ap, ◌∙◌, List, [], ◌∷◌, ◌++◌, arith}
use mathlib.Core.List.{tail}
use lab.Prelude.Int.{negsuc}
use lab.Run.{Cmd, Returns, returns, Returns-run, Returns-and_then}
use lab.Queue.Store.{Ptr, null, free_links}
use lab.Queue.Shape.{View, Holds, IsQueue, head_or}
use lab.Queue.RemovalLaws.{returned, remove-returned}
use lab.Queue.ReturnedLaws.{snoc-cons, returned-other, returned-here, returned-free}
use lab.Kernel.{Kernel, Lock, cond_queue, lock_queue, run_queue, wait_queue, zombie_queue, pid_of}
use lab.Process.Schedule.{process_quantum}
use lab.Process.Requeue.{items}
use lab.Process.TransitionLaws.{items-SameObjects}
use lab.Synch.Handles.{asleep}
use lab.Synch.Condition.{cond_signal, cond_wait}
use lab.Synch.Wake.{IsWaiting}
use lab.Synch.Sleep.{joins, join}
use lab.Synch.LockLaws.{owned_by, owned_twice, lock_queue-IsWaiting}
use lab.Synch.Handover.{Handed, Staged-Handed}
use lab.Synch.ConditionSteps.{cond_signal-steps, cond_wait-steps}

cond_queue-IsWaiting : (i : ℕ) → IsWaiting (cond_queue i)
cond_queue-IsWaiting i = record {
  not_null = omega arith;
  not_free = omega arith;
  not_run = omega arith;
  not_wait = omega arith;
}

module _ (free_shared_pte : Ptr → ℕ → Cmd Kernel (Unit {0})) (k : Kernel) (v : View) (i lock : ℕ)
    (l p wl pl m : Ptr) (ls xs ys ms : List Ptr) (all : Holds k.store v)
    (on : (k.conds i).lock ≡ lock) (lock_lt : lock < 64)
    (mine : (k.locks lock).pid ≡ pid_of k.current) (me_ne : k.current ≢ null) (p_ne : p ≢ null)
    (differ : k.current ≢ p) (carries : (k.store.links l).object ≡ p)
    (p_link : (k.pcbs p).link ≡ wl) (sleeps : v wait_queue ≡ xs ++ wl ∷ ys)
    (me_link : (k.pcbs k.current).link ≡ pl) (run : v run_queue ≡ pl ∷ m ∷ ms)
    (none_left : v zombie_queue ≡ []) where
  -- `CondSignal` by the owner of the condition's lock, while others wait for the condition, hands the lock
  -- to the process that has waited longest, which sleeps anywhere in the wait queue: that process moves to
  -- the end of the run queue. The caller joins the end of the lock's queue and goes to sleep, and the
  -- process that stood behind it in the run queue runs. It is assumed that there are no zombies.
  pub cond_signal-Handed :
      v (cond_queue i) ≡ l ∷ ls
      → Returns
          (λ r t.
            (r ≡ asleep k.intrs)
            × Handed k v (cond_queue i) (lock_queue lock) p ls xs ys (m ∷ ms) t.store t.pcbs
            × (t ≡ record k {
              store = t.store;
              pcbs = t.pcbs;
              locks = owned_by k lock (pid_of p);
              current = (k.store.links m).object;
              timer = process_quantum;
              intrs = 15;
            }))
          (cond_signal free_shared_pte i k)
  cond_signal-Handed waiting =
      let q_ne : cond_queue i ≢ null = omega arith in
      let q_free : cond_queue i ≢ free_links = omega arith in
      let here = subst (IsQueue k.store (cond_queue i)) waiting (all (cond_queue i) q_ne) in
      let (a, s1, re, removed) =
        Returns-run (remove-returned k.store v (cond_queue i) l [] ls q_ne all waiting) in
      let w = returned v (cond_queue i) l [] ls in
      let before : (j : Ptr)
          → j ≢ null
          → j ≢ free_links
          → j ≢ cond_queue i
          → items s1 (w j) ≡ items k.store (v j) =
        λ j ne jf jq.
          items-SameObjects k.store s1 w j ne re.1 re.2
          ∙ ap (items k.store) (returned-other v (cond_queue i) l [] ls j jf jq) in
      let (rest, split) = snoc-cons l (v free_links) in
      elim (join s1 w (lock_queue lock) k.current (head_or l (v free_links)) rest
        (lock_queue-IsWaiting lock) re.1 (returned-free v (cond_queue i) l [] ls q_free ∙ split)) [
          | joins n s2 s3 allocated inserted en ↦
              rw
                (cond_signal-steps free_shared_pte k i lock l p n ls a s1 s2 s3 on mine here carries
                  removed re.0 allocated en.not_null inserted)
                (Returns-and_then
                  (Staged-Handed free_shared_pte k v (cond_queue i) (lock_queue lock) p wl pl m ls
                    xs ys ms (cond_queue-IsWaiting i) (lock_queue-IsWaiting lock) (omega arith)
                    (omega arith) me_ne p_ne differ p_link sleeps me_link run none_left s3
                    (owned_by k lock (pid_of p))
                    (record {
                      view = en.view;
                      holds = en.holds;
                      left =
                          (en.others (cond_queue i) (omega arith) (omega arith)
                            (omega (arith, lock_lt))).1
                          ∙ items-SameObjects k.store s1 w (cond_queue i) (omega arith) re.1 re.2
                          ∙ ap (items k.store) (returned-here v (cond_queue i) l [] ls q_free);
                      joined =
                          en.target
                          ∙ ap (λ (zs : List Ptr). zs ++ k.current ∷ [])
                              (before (lock_queue lock) (omega arith) (omega arith)
                                (omega (arith, lock_lt)));
                      others = λ j ne jf jq jl. (
                        (en.others j ne jf jl).0 ∙ returned-other v (cond_queue i) l [] ls j jf jq,
                        (en.others j ne jf jl).1 ∙ before j ne jf jq,
                      );
                    }))
                  λ b t (handed, same). returns (refl, handed, same))
        ]

  -- `CondWait` by the owner of the condition's lock, while others wait for the lock, puts the caller at the
  -- end of the condition's queue and hands the lock to the process that has waited for it longest, which
  -- sleeps anywhere in the wait queue and moves to the end of the run queue. The caller goes to sleep, and
  -- the process that stood behind it in the run queue runs. It is assumed that a link is free and that
  -- there are no zombies.
  pub cond_wait-Handed :
      (free : Ptr) (rest : List Ptr)
      → v free_links ≡ free ∷ rest
      → v (lock_queue lock) ≡ l ∷ ls
      → Returns
          (λ r t.
            (r ≡ asleep k.intrs)
            × Handed k v (lock_queue lock) (cond_queue i) p ls xs ys (m ∷ ms) t.store t.pcbs
            × (t ≡ record k {
              store = t.store;
              pcbs = t.pcbs;
              locks = t.locks;
              current = (k.store.links m).object;
              timer = process_quantum;
              intrs = 15;
            })
            × ((j : ℕ) → t.locks j ≡ owned_by k lock (pid_of p) j))
          (cond_wait free_shared_pte i k)
  cond_wait-Handed free rest spare waiting =
      let q = lock_queue lock in
      let q_ne : q ≢ null = omega arith in
      let q_free : q ≢ free_links = omega arith in
      elim (join k.store v (cond_queue i) k.current free rest (cond_queue-IsWaiting i) all spare) [
        | joins n s1 s2 allocated inserted en ↦
            let f = owned_by (record k { locks = owned_by k lock (negsuc 0) }) lock (pid_of p) in
            let on_lock = en.others q q_ne q_free (omega (arith, lock_lt)) in
            let waiting' : en.view q ≡ l ∷ ls = on_lock.0 ∙ waiting in
            let same_items : items s2 (l ∷ ls) ≡ items k.store (l ∷ ls) =
              ap (items s2) (sym waiting') ∙ on_lock.1 ∙ ap (items k.store) waiting in
            let here = subst (IsQueue s2 q) waiting' (en.holds q q_ne) in
            let carries' : (s2.links l).object ≡ p = ap (head_or null) same_items ∙ carries in
            let (a, s3, re, removed) =
              Returns-run (remove-returned s2 en.view q l [] ls q_ne en.holds waiting') in
            let w = returned en.view q l [] ls in
            rw
              (cond_wait-steps free_shared_pte k i lock l p n ls a s1 s2 s3 on mine allocated
                en.not_null inserted here carries' removed re.0)
              (Returns-and_then
                (Staged-Handed free_shared_pte k v q (cond_queue i) p wl pl m ls xs ys ms
                  (lock_queue-IsWaiting lock) (cond_queue-IsWaiting i) (omega arith) (omega arith)
                  me_ne p_ne differ p_link sleeps me_link run none_left s3 f
                  (record {
                    view = w;
                    holds = re.1;
                    left =
                        items-SameObjects s2 s3 w q q_ne re.1 re.2
                        ∙ ap (items s2) (returned-here en.view q l [] ls q_free)
                        ∙ ap tail same_items;
                    joined =
                        items-SameObjects s2 s3 w (cond_queue i) (omega arith) re.1 re.2
                        ∙ ap (items s2) (
                            returned-other en.view q l [] ls (cond_queue i) (omega arith)
                              (omega (arith, lock_lt)))
                        ∙ en.target;
                    others = λ j ne jf jq jd. (
                      returned-other en.view q l [] ls j jf jq ∙ (en.others j ne jf jd).0,
                      items-SameObjects s2 s3 w j ne re.1 re.2
                          ∙ ap (items s2) (returned-other en.view q l [] ls j jf jq)
                          ∙ (en.others j ne jf jd).1,
                    );
                  }))
                λ b t (handed, same). returns (
                  refl,
                  handed,
                  same
                      ∙ ap
                          (λ (g : ℕ → Lock). record k {
                            store = t.store;
                            pcbs = t.pcbs;
                            locks = g;
                            current = (k.store.links m).object;
                            timer = process_quantum;
                            intrs = 15;
                          })
                          (sym (ap (λ (x : Kernel). x.locks) same)),
                  λ j.
                      ap (λ (x : Kernel). x.locks j) same
                      ∙ owned_twice k lock j (negsuc 0) (pid_of p),
                ))
      ]
