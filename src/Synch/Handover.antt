-- ===== src/Synch/Handover.antt =====
-- What CondWait and CondSignal of os/synch.c have done to the queues once one process wakes up and the
-- running one sleeps.
use lab.Prelude.{ℕ, ◌≡◌, ◌≢◌, refl, sym, ap, ◌∙◌, List, [], ◌∷◌, ◌++◌, arith}
use mathlib.Core.List.{tail}
use mathlib.Core.Path.{ap₂}
use lab.Run.{Cmd, Returns, Returns-mono, and_then}
use lab.Queue.Store.{Ptr, null, Store, free_links}
use lab.Queue.Shape.{View, Holds, head_or}
use lab.Kernel.{Kernel, Lock, Pcb, run_queue, wait_queue, zombie_queue}
use lab.Process.Status.{status_waiting, status_runnable, with_status}
use lab.Process.Schedule.{process_quantum}
use lab.Process.Requeue.{items}
use lab.Process.Transitions.{wakeup}
use lab.Synch.Handles.{process_sleep}
use lab.Synch.Wake.{IsWaiting}
use lab.Synch.Exchange.{exchange}

-- Where the items of a list stay, so do those of a part of it.
items-skip :
    (s t : Store) (xs ys : List Ptr) (l : Ptr)
    → items s (xs ++ l ∷ ys) ≡ items t (xs ++ l ∷ ys)
    → items s (xs ++ ys) ≡ items t (xs ++ ys)
items-skip s t [] ys l same = ap tail same
items-skip s t (x ∷ xs) ys l same =
    ap₂ ◌∷◌ (ap (head_or null) same) (items-skip s t xs ys l (ap tail same))

-- The running process has made room for the process `p`: that left the queue `q`, where the links `ls` are
-- left, and its place between `xs` and `ys` in the wait queue, and is runnable; the running process is the
-- last in the queue `d` and in the wait queue.
pub record Handed (k : Kernel) (v : View) (q d p : Ptr) (ls xs ys ms : List Ptr) (s : Store)
    (pcbs : Ptr → Pcb) : Type 0 where
  pub view : View
  pub holds : Holds s view
  pub left : items s (view q) ≡ items k.store ls
  pub joined : items s (view d) ≡ items k.store (v d) ++ k.current ∷ []
  pub sleeping : items s (view wait_queue) ≡ items k.store (xs ++ ys) ++ k.current ∷ []
  pub running : items s (view run_queue) ≡ items k.store ms ++ p ∷ []
  pub others :
      (j : Ptr)
      → j ≢ null
      → j ≢ free_links
      → j ≢ q
      → j ≢ d
      → j ≢ wait_queue
      → j ≢ run_queue
      → items s (view j) ≡ items k.store (v j)
  pub woken : (pcbs p).flags ≡ with_status (k.pcbs p).flags status_runnable
  pub slept : (pcbs k.current).flags ≡ with_status (k.pcbs k.current).flags status_waiting
  pub processes : (a : Ptr) → a ≢ p → a ≢ k.current → pcbs a ≡ k.pcbs a

-- The queues before the wakeup: a process has left the queue `q`, where the links `ls` are left, and the
-- running process is the last in the queue `d`.
pub record Staged (k : Kernel) (v : View) (q d : Ptr) (ls : List Ptr) (s : Store) : Type 0 where
  pub view : View
  pub holds : Holds s view
  pub left : items s (view q) ≡ items k.store ls
  pub joined : items s (view d) ≡ items k.store (v d) ++ k.current ∷ []
  pub others :
      (j : Ptr)
      → j ≢ null
      → j ≢ free_links
      → j ≢ q
      → j ≢ d
      → (view j ≡ v j) × (items s (view j) ≡ items k.store (v j))

module _ (free_shared_pte : Ptr → ℕ → Cmd Kernel (Unit {0})) (k : Kernel) (v : View)
    (q d p wl pl m : Ptr) (ls xs ys ms : List Ptr) (wq : IsWaiting q) (wd : IsWaiting d)
    (q_zombie : q ≢ zombie_queue) (d_zombie : d ≢ zombie_queue) (me_ne : k.current ≢ null)
    (p_ne : p ≢ null) (differ : k.current ≢ p) (p_link : (k.pcbs p).link ≡ wl)
    (sleeps : v wait_queue ≡ xs ++ wl ∷ ys) (me_link : (k.pcbs k.current).link ≡ pl)
    (run : v run_queue ≡ pl ∷ m ∷ ms) (none_left : v zombie_queue ≡ []) where
  pub Staged-Handed :
      (s : Store) (f : ℕ → Lock)
      → Staged k v q d ls s
      → Returns
          (λ _ t.
            Handed k v q d p ls xs ys (m ∷ ms) t.store t.pcbs
            × (t ≡ record k {
              store = t.store;
              pcbs = t.pcbs;
              locks = f;
              current = (k.store.links m).object;
              timer = process_quantum;
              intrs = 15;
            }))
          (and_then
            (wakeup p (record k { store = s; locks = f; intrs = 15 }))
            (λ _. process_sleep free_shared_pte))
  Staged-Handed s f st =
      let on_run =
        st.others run_queue (omega arith) (omega arith) (λ e. wq.not_run (sym e))
          (λ e. wd.not_run (sym e)) in
      let on_wait =
        st.others wait_queue (omega arith) (omega arith) (λ e. wq.not_wait (sym e))
          (λ e. wd.not_wait (sym e)) in
      let on_zombies =
        st.others zombie_queue (omega arith) (omega arith) (λ e. q_zombie (sym e))
          (λ e. d_zombie (sym e)) in
      let run_items : items s (pl ∷ m ∷ ms) ≡ items k.store (pl ∷ m ∷ ms) =
        ap (items s) (sym (on_run.0 ∙ run)) ∙ on_run.1 ∙ ap (items k.store) run in
      let wait_items : items s (xs ++ wl ∷ ys) ≡ items k.store (xs ++ wl ∷ ys) =
        ap (items s) (sym (on_wait.0 ∙ sleeps)) ∙ on_wait.1 ∙ ap (items k.store) sleeps in
      Returns-mono
        (exchange free_shared_pte (record k { store = s; locks = f; intrs = 15 }) st.view p
          k.current wl pl m xs ys ms st.holds p_ne me_ne differ refl p_link me_link
          (on_wait.0 ∙ sleeps) (on_run.0 ∙ run) (on_zombies.0 ∙ none_left))
        λ b t (ex, same). (
          record {
            view = ex.view;
            holds = ex.holds;
            left = ex.others q wq.not_null wq.not_free wq.not_wait wq.not_run ∙ st.left;
            joined = ex.others d wd.not_null wd.not_free wd.not_wait wd.not_run ∙ st.joined;
            sleeping =
                ex.sleeping
                ∙ ap (λ (zs : List Ptr). zs ++ k.current ∷ [])
                    (items-skip s k.store xs ys wl wait_items);
            running = ex.running ∙ ap (λ (zs : List Ptr). zs ++ p ∷ []) (ap tail run_items);
            others = λ j ne jf jq jd jw jr. ex.others j ne jf jw jr ∙ (st.others j ne jf jq jd).1;
            woken = ex.woken;
            slept = ex.slept;
            processes = ex.processes;
          },
          same
              ∙ ap
                  (λ (x : Ptr). record k {
                    store = t.store;
                    pcbs = t.pcbs;
                    locks = f;
                    current = x;
                    timer = process_quantum;
                    intrs = 15;
                  })
                  (ap (head_or null) (ap tail run_items)),
        )
