-- ===== src/Synch/Exchange.antt =====
-- What CondWait and CondSignal of os/synch.c end with: one process wakes up, and the running one goes to
-- sleep.
use lab.Prelude.{ℕ, ◌≡◌, ◌≢◌, refl, sym, subst, ◌∙◌, ap, List, [], ◌∷◌, ◌++◌, arith, ==_self, ==_ne}
use mathlib.Core.List.{tail}
use lab.Run.{Cmd, Returns, returns, Returns-run, ok, and_then}
use lab.Queue.Store.{Ptr, null, Store, free_links}
use lab.Queue.Shape.{View, Holds}
use lab.Kernel.{Kernel, Pcb, run_queue, wait_queue, zombie_queue}
use lab.Process.Status.{status_waiting, status_runnable, with_status}
use lab.Process.Schedule.{process_quantum}
use lab.Process.Transitions.{wakeup, suspend}
use lab.Process.Requeue.{items, back, placed}
use lab.Process.TransitionLaws.{suspend-Moved, wakeup-Moved}
use lab.Synch.Handles.{process_sleep, current_pcb}
use lab.Synch.Sleep.{schedule-item}

-- The process `p` has gone from its place between `xs` and `ys` in the wait queue to the end of the run
-- queue, and the process `o`, which was the first in the run queue, to the end of the wait queue; `ms` are
-- the links of the others in the run queue.
pub record Exchanged (k : Kernel) (v : View) (p o : Ptr) (xs ys ms : List Ptr) (s : Store)
    (pcbs : Ptr → Pcb) : Type 0 where
  pub view : View
  pub holds : Holds s view
  pub sleeping : items s (view wait_queue) ≡ items k.store (xs ++ ys) ++ o ∷ []
  pub running : items s (view run_queue) ≡ items k.store ms ++ p ∷ []
  pub others :
      (j : Ptr)
      → j ≢ null
      → j ≢ free_links
      → j ≢ wait_queue
      → j ≢ run_queue
      → items s (view j) ≡ items k.store (v j)
  pub woken : (pcbs p).flags ≡ with_status (k.pcbs p).flags status_runnable
  pub slept : (pcbs o).flags ≡ with_status (k.pcbs o).flags status_waiting
  pub processes : (a : Ptr) → a ≢ p → a ≢ o → pcbs a ≡ k.pcbs a

module _ (free_shared_pte : Ptr → ℕ → Cmd Kernel (Unit {0})) (k : Kernel) (v : View)
    (p o pl ol m : Ptr) (xs ys ms : List Ptr) (all : Holds k.store v) (p_ne : p ≢ null)
    (o_ne : o ≢ null) (differ : o ≢ p) (me : k.current ≡ o) (p_link : (k.pcbs p).link ≡ pl)
    (o_link : (k.pcbs o).link ≡ ol) (sleeps : v wait_queue ≡ xs ++ pl ∷ ys)
    (run : v run_queue ≡ ol ∷ m ∷ ms) (none_left : v zombie_queue ≡ []) where
  pub exchange :
      Returns
        (λ _ t.
          Exchanged k v p o xs ys (m ∷ ms) t.store t.pcbs
          × (t ≡ record k {
            store = t.store;
            pcbs = t.pcbs;
            current = (k.store.links m).object;
            timer = process_quantum;
          }))
        (and_then (wakeup p k) (λ _. process_sleep free_shared_pte))
  unfolding process_sleep current_pcb
  exchange =
      let (a, j, wo, woken) = Returns-run (wakeup-Moved k v p pl xs ys p_ne all p_link sleeps) in
      let o_flags : j.pcbs o ≡ k.pcbs o = wo.pcbs o ∙ rw (==_ne o p differ) refl in
      let o_link' : (j.pcbs o).link ≡ ol = ap (λ (r : Pcb). r.link) o_flags ∙ o_link in
      let run' : wo.view run_queue ≡ ol ∷ (m ∷ ms ++ wo.link ∷ []) =
        wo.links ∙ ap (placed back wo.link) run in
      let (b, t, su, suspended) =
        Returns-run
          (suspend-Moved j wo.view o ol [] (m ∷ ms ++ wo.link ∷ []) o_ne wo.holds o_link' run') in
      let left : items j.store (m ∷ ms ++ wo.link ∷ []) ≡ items k.store (m ∷ ms) ++ p ∷ [] =
        ap tail (
          ap (items j.store) (sym run')
          ∙ wo.target
          ∙ ap (λ (l : List Ptr). items k.store l ++ p ∷ []) run) in
      let running = su.source ∙ left in
      let empty =
        (su.others zombie_queue (omega arith) (omega arith) (omega arith) (omega arith)).0
        ∙ (wo.others zombie_queue (omega arith) (omega arith) (omega arith) (omega arith)).0
        ∙ none_left in
      let next =
        schedule-item free_shared_pte t su.view (k.store.links m).object
          (items k.store ms ++ p ∷ []) (su.view run_queue) su.holds refl running empty in
      let now_me : j.current ≡ o = ap (λ (x : Kernel). x.current) wo.rest ∙ me in
      let p_same : t.pcbs p ≡ j.pcbs p = su.pcbs p ∙ rw (==_ne p o (λ e. differ (sym e))) refl in
      rw woken (
        rw (subst (λ (x : Ptr). suspend x j ≡ ok b t) (sym now_me) suspended) (
          rw next (
            returns (
              record {
                view = su.view;
                holds = su.holds;
                sleeping = su.target ∙ ap (λ (l : List Ptr). l ++ o ∷ []) wo.source;
                running = running;
                others = λ i ne jf jw jr. (su.others i ne jf jr jw).1 ∙ (wo.others i ne jf jw jr).1;
                woken =
                    ap (λ (r : Pcb). r.flags) p_same
                    ∙ ap (λ (r : Pcb). r.flags) (wo.pcbs p)
                    ∙ rw (==_self p) refl;
                slept =
                    ap (λ (r : Pcb). r.flags) (su.pcbs o)
                    ∙ rw (==_self o) (ap (λ (r : Pcb). with_status r.flags status_waiting) o_flags);
                processes = λ a a_p a_o.
                    su.pcbs a ∙ rw (==_ne a o a_o) (wo.pcbs a ∙ rw (==_ne a p a_p) refl);
              },
              ap
                    (λ (x : Kernel). record x {
                      current = (k.store.links m).object;
                      timer = process_quantum;
                    })
                    su.rest
                  ∙ ap
                      (λ (x : Kernel). record x {
                        store = t.store;
                        pcbs = t.pcbs;
                        current = (k.store.links m).object;
                        timer = process_quantum;
                      })
                      wo.rest,
            ))))
