-- ===== src/Startup/SpawnLaws.antt =====
-- The kernel before and after ProcessFork of os/process.c.
use Prim.Native.Nat.{bit_or}
use lab.Prelude.{
  ℕ, ◌-◌, ◌*◌, ◌^◌, ◌%◌, ◌≡◌, ◌≢◌, refl, sym, subst, ◌∙◌, ap, true, List, [], ◌∷◌, ◌++◌, arith,
  ◌==◌, if◌then◌else◌, ==_self, ==_ne, length, length-append, set,
}
use mathlib.Core.Path.{ap₂}
use lab.Queue.Store.{Ptr, null, Store, free_links, update}
use lab.Queue.Shape.{contains, View, Holds}
use lab.Queue.RemovalLaws.{returned}
use lab.Queue.ReturnedLaws.{returned-other, returned-here, returned-free}
use lab.Memory.Freemap.{Memory, page_size}
use lab.Memory.FreemapLaws.{page_bit}
use lab.Memory.Address.{setup_pte}
use lab.Kernel.{Kernel, Pcb, free_pcbs, run_queue}
use lab.Process.Status.{status_runnable, with_status}
use lab.Process.Requeue.{items}
use lab.Process.TransitionLaws.{items-SameObjects}
use lab.Startup.ClaimLaws.{Claimed, Provided}
use lab.Startup.AdmitLaws.{Admitted}

-- The process `p` of the type `ty` has come into being: its PCB was the first of the free ones, `ls`
-- behind it, and it stands at the end of the run queue and has the two pages as its own.
pub record Spawned (k : Kernel) (v : View) (p ty page stack : ℕ) (ls : List Ptr) (t : Kernel)
    : Type 0 where
  pub view : View
  pub link : Ptr
  pub holds : Holds t.store view
  pub ready : items t.store (view run_queue) ≡ items k.store (v run_queue) ++ p ∷ []
  pub free : items t.store (view free_pcbs) ≡ items k.store ls
  pub others :
      (j : Ptr)
      → j ≢ null
      → j ≢ free_links
      → j ≢ free_pcbs
      → j ≢ run_queue
      → items t.store (view j) ≡ items k.store (v j)
  pub pool : length (view free_links) ≡ length (v free_links)
  pub carries : (t.store.links link).object ≡ p
  pub member : contains link (view run_queue) ≡ true
  pub page_free : page_bit k.memory.freepages page ≡ 1
  pub stack_free : page_bit k.memory.freepages stack ≡ 1
  pub distinct : page ≢ stack
  pub bits :
      (r : ℕ)
      → page_bit t.memory.freepages r
        ≡ (if r == page then 0 else if r == stack then 0 else page_bit k.memory.freepages r)
  pub memory : t.memory ≡ record k.memory {
    freepages = t.memory.freepages;
    mapnum = t.memory.mapnum;
    free_count = k.memory.free_count - 2;
  }
  pub process : t.pcbs p ≡ record (k.pcbs p) {
    flags = bit_or (with_status (k.pcbs p).flags status_runnable) ty;
    link = link;
    npages = 1;
    pagetable = set (k.pcbs p).pagetable 0 (setup_pte page);
    sys_stack_area = stack * page_size % 2 ^ 32;
  }
  pub processes : (a : Ptr) → a ≢ p → t.pcbs a ≡ k.pcbs a
  pub rest : t ≡ record k {
    store = t.store;
    pcbs = t.pcbs;
    memory = t.memory;
    current = if k.current == null then p else k.current;
  }

-- `pcb->flags |= ty`
abbrev pub typed : Kernel → Ptr → ℕ → Kernel
typed k p ty = record k {
  pcbs = update k.pcbs p (record (k.pcbs p) { flags = bit_or (k.pcbs p).flags ty });
}

module _ (k k1 k2 : Kernel) (v : View) (p l a b : ℕ) (ls : List Ptr) (c : Claimed k v p l ls k1)
    (pr : Provided k1 p a b k2) where
  pub same_store : k2.store ≡ k1.store
  same_store = ap (λ (x : Kernel). x.store) pr.rest

  pub same_memory : k1.memory ≡ k.memory
  same_memory = ap (λ (x : Kernel). x.memory) c.rest

  -- The items of a queue before the process joined the run queue.
  pub before :
      (j : Ptr)
      → j ≢ null
      → items k2.store (returned v free_pcbs l [] ls j)
        ≡ items k.store (returned v free_pcbs l [] ls j)
  before j ne =
      ap (λ (s : Store). items s (returned v free_pcbs l [] ls j)) same_store
      ∙ items-SameObjects k.store k1.store (returned v free_pcbs l [] ls) j ne c.holds c.same

  pub other : (j : Ptr) → j ≢ free_links → j ≢ free_pcbs → returned v free_pcbs l [] ls j ≡ v j
  other j j_free j_pcbs = returned-other v free_pcbs l [] ls j j_free j_pcbs

module _ (k k1 k2 t : Kernel) (v : View) (p ty l a b m : ℕ) (ls : List Ptr)
    (at : v free_pcbs ≡ l ∷ ls) (c : Claimed k v p l ls k1) (pr : Provided k1 p a b k2)
    (ad : Admitted (typed k2 p ty) (returned v free_pcbs l [] ls) p m t) where
  kept_memory : t.memory ≡ k2.memory
  kept_memory = ap (λ (x : Kernel). x.memory) ad.rest

  pcb_of :
      (r : Ptr)
      → t.pcbs r ≡ update (typed k2 p ty).pcbs p (record ((typed k2 p ty).pcbs p) { link = m }) r
  pcb_of r = ap (λ (x : Kernel). x.pcbs r) ad.rest

  frame : Kernel → Kernel
  frame x = record x {
    store = t.store;
    pcbs = t.pcbs;
    memory = t.memory;
    current = if x.current == null then p else x.current;
  }

  kept : t ≡ frame k
  unfolding frame
  kept =
      ad.rest
      ∙ (ap₂
            (λ (ps : Ptr → Pcb) (me : Memory). record k2 {
              store = t.store;
              pcbs = ps;
              memory = me;
              current = if k2.current == null then p else k2.current;
            })
            (sym (ap (λ (x : Kernel). x.pcbs) ad.rest)) (sym kept_memory)
          ∙ (ap frame pr.rest ∙ ap frame c.rest))

  pub Spawned-of : Spawned k v p ty a b ls t
  unfolding frame update
  Spawned-of = record {
    view = ad.enlisted.view;
    link = m;
    holds = ad.enlisted.holds;
    ready =
        ad.enlisted.target
        ∙ ap (λ (xs : List Ptr). xs ++ p ∷ [])
            (before k k1 k2 v p l a b ls c pr run_queue (omega arith)
              ∙ ap (items k.store)
                  (other k k1 k2 v p l a b ls c pr run_queue (omega arith) (omega arith)));
    free =
        (ad.enlisted.others free_pcbs (omega arith) (omega arith) (omega arith)).1
        ∙ before k k1 k2 v p l a b ls c pr free_pcbs (omega arith)
        ∙ ap (items k.store) (returned-here v free_pcbs l [] ls (omega arith));
    others = λ j ne j_free j_pcbs j_run.
        (ad.enlisted.others j ne j_free j_run).1
        ∙ before k k1 k2 v p l a b ls c pr j ne
        ∙ ap (items k.store) (other k k1 k2 v p l a b ls c pr j j_free j_pcbs);
    pool =
        let grown =
          ap length (returned-free v free_pcbs l [] ls (omega arith))
          ∙ length-append {0} (v free_links) (l ∷ []) in
        omega (arith, ad.enlisted.pool, grown);
    carries = ad.enlisted.carries;
    member = ad.enlisted.member;
    page_free =
        subst (λ (x : Memory). page_bit x.freepages a ≡ 1) (same_memory k k1 k2 v p l a b ls c pr)
          pr.page;
    stack_free =
        subst (λ (x : Memory). page_bit x.freepages b ≡ 1) (same_memory k k1 k2 v p l a b ls c pr)
          pr.stack;
    distinct = pr.distinct;
    bits = λ r. rw (kept_memory, sym (same_memory k k1 k2 v p l a b ls c pr)) (pr.bits r);
    memory = rw (kept_memory, sym (same_memory k k1 k2 v p l a b ls c pr)) pr.memory;
    process = pcb_of p ∙ rw (==_self p, pr.pcbs p, ==_self p, c.pcbs p, ==_self p) refl;
    processes =
        λ r ne. pcb_of r ∙ rw (==_ne r p ne, pr.pcbs r, ==_ne r p ne, c.pcbs r, ==_ne r p ne) refl;
    rest = kept;
  }
