-- ===== src/Startup/ClaimLaws.antt =====
-- The first two parts of ProcessFork of os/process.c: the PCB and the two pages of a new process.
use lab.Prelude.{
  ℕ, ◌-◌, ◌*◌, ◌^◌, ◌%◌, ◌/◌, ◌<◌, ◌≤◌, ◌≡◌, ◌≢◌, refl, subst, ◌∙◌, ap, List, [], ◌∷◌, arith, ◌==◌,
  if◌then◌else◌, ==_ne, length, set, Bool-cases, inl, inr,
}
use lab.Run.{Returns, returns}
use lab.Queue.Store.{Ptr, null, update, object_of}
use lab.Queue.Shape.{IsQueue, View, Holds}
use lab.Queue.Inserted.{SameObjects}
use lab.Queue.AccessLaws.{is_empty-cons, first_of-head}
use lab.Queue.RemovalLaws.{returned, remove-returned}
use lab.Memory.Freemap.{Memory, page_size, alloc_page}
use lab.Memory.FreemapLaws.{page_bit}
use lab.Memory.AllocLaws.{IsMap, Taken, alloc_page-Taken}
use lab.Memory.Address.{setup_pte}
use lab.Kernel.{
  Kernel, Pcb, free_pcbs, read_pcb, write_pcb, disable_intrs, restore_intrs, set_intrs,
}
use lab.Process.Status.{status_runnable, with_status, set_status}
use lab.Process.Transitions.{set_link}
use lab.Process.Requeue.{Returns-queued}
use lab.Process.Freeing.{Returns-in_memory}
use lab.Startup.Fork.{claim_pcb, give_pages}

-- The kernel once the PCB `p` has left the front `l` of the queue of free ones.
pub record Claimed (k : Kernel) (v : View) (p l : Ptr) (ls : List Ptr) (t : Kernel) : Type 0 where
  pub holds : Holds t.store (returned v free_pcbs l [] ls)
  pub same : SameObjects k.store t.store
  pub pcbs :
      (a : Ptr)
      → t.pcbs a ≡ (
          if a == p
          then record (k.pcbs p) {
            flags = with_status (k.pcbs p).flags status_runnable;
            link = null;
          }
          else k.pcbs a)
  pub rest : t ≡ record k { store = t.store; pcbs = t.pcbs }

pub claim_pcb-Claimed :
    (k : Kernel) (v : View) (p l : Ptr) (ls : List Ptr)
    → p ≢ null
    → Holds k.store v
    → v free_pcbs ≡ l ∷ ls
    → (k.store.links l).object ≡ p
    → (k.pcbs p).link ≡ l
    → Returns (λ r t. (r ≡ p) × Claimed k v p l ls t) (claim_pcb k)
unfolding claim_pcb read_pcb set_link write_pcb set_status object_of disable_intrs restore_intrs
    set_intrs update
claim_pcb-Claimed k v p l ls p_ne all at carry link =
    let first = subst (IsQueue k.store free_pcbs) at (all free_pcbs (omega arith)) in
    simp
      (
        is_empty-cons k.store free_pcbs (omega arith) l ls first,
        first_of-head k.store free_pcbs (omega arith) (l ∷ ls) first,
        ==_ne l null first.chain.0.not_null,
        carry,
        ==_ne p null p_ne,
        link,
      )
      (Returns-queued (record k { intrs = 15 }) _
        (remove-returned k.store v free_pcbs l [] ls (omega arith) all at)
        λ r s (done, h, same). rw done (
          simp (==_ne p null p_ne) (
            returns
              (refl, record { holds = h; same = same; pcbs = λ a. ground arith; rest = refl }))))

-- The process `p` has the page `a`, and the page `b` for its system stack; both were free and differ,
-- and no other page has changed hands.
pub record Provided (k : Kernel) (p a b : ℕ) (t : Kernel) : Type 0 where
  pub page : page_bit k.memory.freepages a ≡ 1
  pub stack : page_bit k.memory.freepages b ≡ 1
  pub distinct : a ≢ b
  pub page_in_map : a / 32 < k.memory.freemap_max
  pub stack_in_map : b / 32 < k.memory.freemap_max
  pub size : length t.memory.freepages ≡ length k.memory.freepages
  pub bits :
      (r : ℕ)
      → page_bit t.memory.freepages r
        ≡ (if r == a then 0 else if r == b then 0 else page_bit k.memory.freepages r)
  pub memory : t.memory ≡ record k.memory {
    freepages = t.memory.freepages;
    mapnum = t.memory.mapnum;
    free_count = k.memory.free_count - 2;
  }
  pub pcbs :
      (r : Ptr)
      → t.pcbs r ≡ (
          if r == p
          then record (k.pcbs p) {
            npages = 1;
            pagetable = set (k.pcbs p).pagetable 0 (setup_pte a);
            sys_stack_area = b * page_size % 2 ^ 32;
          }
          else k.pcbs r)
  pub rest : t ≡ record k { memory = t.memory; pcbs = t.pcbs }

-- What a new process asks of the memory: two pages at least are free, and page 0 is not.
pub record HasTwo (m : Memory) (q1 q2 : ℕ) : Type 0 where
  pub map : IsMap m
  pub counted : 2 ≤ m.free_count
  pub zero_taken : page_bit m.freepages 0 ≡ 0
  pub in_map1 : q1 / 32 < m.freemap_max
  pub in_map2 : q2 / 32 < m.freemap_max
  pub free1 : page_bit m.freepages q1 ≡ 1
  pub free2 : page_bit m.freepages q2 ≡ 1
  pub two : q1 ≢ q2

-- Once one page has gone, another one can be taken.
second :
    (m t : Memory) (q1 q2 a : ℕ)
    → HasTwo m q1 q2
    → Taken m a t
    → Returns (λ b u. Taken t b u) (alloc_page t)
second m t q1 q2 a h ta =
    let max : t.freemap_max ≡ m.freemap_max = ap (λ (x : Memory). x.freemap_max) ta.rest in
    let count : t.free_count ≡ m.free_count - 1 = ap (λ (x : Memory). x.free_count) ta.rest in
    let some_free : t.free_count ≢ 0 = omega (arith, h.counted, count) in
    elim (Bool-cases (q1 == a)) [
      | inl same ↦
          alloc_page-Taken t q2 ta.still_map some_free (rw max h.in_map2)
            (ta.marked.bits q2 ∙ ground (arith, same, h.free2, h.two))
      | inr other ↦
          alloc_page-Taken t q1 ta.still_map some_free (rw max h.in_map1)
            (ta.marked.bits q1 ∙ rw other h.free1)
    ]

-- One field of the PCB `p` after the other is written.
abbrev written : (Ptr → Pcb) → Ptr → (Pcb → Pcb) → Ptr → Pcb
written pcbs p f = update pcbs p (f (pcbs p))

abbrev paged : Kernel → Ptr → Kernel
paged k p = record k { pcbs = written k.pcbs p (λ r. record r { npages = 1 }) }

abbrev housed : Kernel → Ptr → ℕ → Memory → Kernel
housed k p a m = record k {
  memory = m;
  pcbs = written (paged k p).pcbs p (λ r. record r { pagetable = set r.pagetable 0 (setup_pte a) });
}

abbrev supplied : Kernel → Ptr → ℕ → ℕ → Memory → Memory → Kernel
supplied k p a b m n = record k {
  memory = n;
  pcbs =
      written (housed k p a m).pcbs p (λ r. record r { sys_stack_area = b * page_size % 2 ^ 32 });
}

supplied-Provided :
    (k : Kernel) (p a b : ℕ) (m n : Memory)
    → Taken k.memory a m
    → Taken m b n
    → Provided k p a b (supplied k p a b m n)
unfolding update
supplied-Provided k p a b m n ta tb = record {
  page = ta.was_free;
  page_in_map = ta.inside_map;
  stack_in_map =
      subst (λ (x : ℕ). b / 32 < x) (ap (λ (x : Memory). x.freemap_max) ta.rest) tb.inside_map;
  size = tb.marked.size ∙ ta.marked.size;
  stack = ground (arith, tb.was_free, ta.marked.bits b);
  distinct = λ e. ground (arith, e, tb.was_free, ta.marked.bits b);
  bits = λ r. tb.marked.bits r ∙ ground (arith, ta.marked.bits r);
  memory =
      tb.rest
      ∙ (ap
            (λ (x : Memory). record x {
              freepages = n.freepages;
              mapnum = n.mapnum;
              free_count = x.free_count - 1;
            })
            ta.rest
          ∙ ap
              (λ (c : ℕ). record k.memory {
                freepages = n.freepages;
                mapnum = n.mapnum;
                free_count = c;
              })
              (omega arith));
  pcbs = λ r. ground arith;
  rest = refl;
}

pub give_pages-Provided :
    (k : Kernel) (p q1 q2 : ℕ)
    → p ≢ null
    → HasTwo k.memory q1 q2
    → Returns (λ _ t. (a : ℕ) × (b : ℕ) × Provided k p a b t) (give_pages p k)
unfolding give_pages write_pcb update
give_pages-Provided k p q1 q2 p_ne h = simp (==_ne p null p_ne) (
    Returns-in_memory (paged k p) _
      (alloc_page-Taken k.memory q1 h.map (omega (arith, h.counted)) h.in_map1 h.free1)
      λ a m ta.
        let a_ne : a ≢ 0 = λ e. ground (arith, e, ta.was_free, h.zero_taken) in
        simp (==_ne a 0 a_ne, ==_ne p null p_ne)
          (Returns-in_memory (housed k p a m) _ (second k.memory m q1 q2 a h ta) λ b n tb.
            let b_ne : b ≢ 0 =
              λ e. ground (arith, e, tb.was_free, ta.marked.bits 0, h.zero_taken) in
            rw (==_ne b 0 b_ne, ==_ne p null p_ne)
              (returns (a, b, supplied-Provided k p a b m n ta tb))))
