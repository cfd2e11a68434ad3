-- ===== src/Startup/AdmitLaws.antt =====
-- The last part of ProcessFork of os/process.c: a new process joins the run queue.
use lab.Prelude.{◌≡◌, ◌≢◌, refl, List, ◌∷◌, arith, ◌==◌, if◌then◌else◌, Bool-cases, inl, inr}
use lab.Run.{Returns, returns}
use lab.Queue.Store.{Ptr, null, free_links}
use lab.Queue.Shape.{View, Holds}
use lab.Kernel.{Kernel, run_queue, pid_of, disable_intrs, restore_intrs, set_intrs}
use lab.Process.Schedule.{set_current}
use lab.Process.Requeue.{back, Enlisted}
use lab.Process.TransitionLaws.{linked, enqueue-Enlisted}
use lab.Run.{Returns-and_then}
use lab.Startup.Fork.{admit}

-- The process `p` has joined the end of the run queue with the link `m`, and is the current one where
-- there was none.
pub record Admitted (k : Kernel) (v : View) (p m : Ptr) (t : Kernel) : Type 0 where
  pub enlisted : Enlisted k.store v back run_queue p m t.store
  pub rest : t ≡ record k {
    store = t.store;
    pcbs = (linked k p m t.store).pcbs;
    current = if k.current == null then p else k.current;
  }

pub admit-Admitted :
    (k : Kernel) (v : View) (p m : Ptr) (rest : List Ptr)
    → p ≢ null
    → Holds k.store v
    → v free_links ≡ m ∷ rest
    → Returns (λ r t. (r ≡ pid_of p) × Admitted k v p m t) (admit p k)
unfolding admit disable_intrs restore_intrs set_intrs set_current
admit-Admitted k v p m rest p_ne all free =
    Returns-and_then
      (enqueue-Enlisted (record k { intrs = 15 }) v back run_queue p m rest p_ne (omega arith)
        (omega arith) all free)
      λ _ t (s, en, is). rw is (elim (Bool-cases (k.current == null)) [
        | inl none ↦ rw none (returns (refl, record { enlisted = en; rest = rw none refl }))
        | inr some ↦ rw some (returns (refl, record { enlisted = en; rest = rw some refl }))
      ])
