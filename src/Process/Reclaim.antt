-- ===== src/Process/Reclaim.antt =====
-- ProcessFreeResources of os/process.c: the pages of a process become free and its PCB joins the free ones.
use lab.Prelude.{
  ℕ, zero, suc, ◌+◌, ◌/◌, ◌<◌, ◌≡◌, ◌≢◌, refl, sym, subst, ◌∙◌, ap, ◌≤◌, List, ◌∷◌, arith, ◌==◌,
  if◌then◌else◌, ==_self, ==_ne, length, take, Bool-cases, inl, inr, not,
}
use lab.Run.{exitsim, ◌>>=◌, ◌>>◌, Cmd, Returns, returns, Returns-mono, Returns-and_then, ok}
use lab.Queue.Store.{Ptr, null, Store, update, free_links, queue_success}
use lab.Queue.Shape.{View, Holds}
use lab.Queue.Insertion.{insert_last}
use lab.Queue.InsertionLaws.{IsLoose, Rewrites}
use lab.Queue.RemovalLaws.{Allocated, alloc_link-Allocated}
use lab.Memory.Freemap.{free_page, page_size}
use lab.Memory.FreemapLaws.{free_page-Marked}
use lab.Kernel.{Kernel, Pcb, free_pcbs, queued, in_memory, write_pcb, read_pcb}
use lab.Process.Status.{status_free, with_status, set_status}
use lab.Process.Transitions.{set_link, free_ptes, free_shared, free_resources}
use lab.Process.Requeue.{Returns-queued, back, placed, Enlisted, Enlisted-of, insert_at-placed}
use lab.Process.Freeing.{InRoom, Freed, pages_of, Returns-in_memory, free_ptes-Freed, Freed-then}

-- The pages that a process gives back: that of its system stack, and those of its table.
abbrev pub owned : Pcb → List ℕ
owned r = r.sys_stack_area / page_size ∷ pages_of (take r.npages r.pagetable)

-- What `ProcessFreeResources` leaves of the kernel `k`.
pub record Reclaimed (k : Kernel) (v : View) (p m : Ptr) (t : Kernel) : Type 0 where
  pub enlisted : Enlisted k.store v back free_pcbs p m t.store
  pub pcbs :
      (a : Ptr)
      → t.pcbs a
        ≡ (if a == p then record (k.pcbs p) { flags = status_free; link = m } else k.pcbs a)
  pub memory : Freed k.memory (owned (k.pcbs p)) t.memory
  pub rest : t ≡ record k { store = t.store; pcbs = t.pcbs; memory = t.memory }

-- The process `p` shares none of its pages in the kernel `k`: as long as it has the page table that it has
-- there, `MemoryFreeSharedPte` of one of its pages changes nothing.
abbrev pub SharesNone : (Ptr → ℕ → Cmd Kernel (Unit {0})) → Kernel → Ptr → Type 0
SharesNone free_shared_pte k p =
    (i : ℕ) (t : Kernel)
    → i < (k.pcbs p).npages
    → (t.pcbs p).npages ≡ (k.pcbs p).npages
    → (t.pcbs p).pagetable ≡ (k.pcbs p).pagetable
    → free_shared_pte p i t ≡ ok tt t

pub SharesNone-same :
    (free_shared_pte : Ptr → ℕ → Cmd Kernel (Unit {0})) (k j : Kernel) (p : Ptr)
    → (j.pcbs p).npages ≡ (k.pcbs p).npages
    → (j.pcbs p).pagetable ≡ (k.pcbs p).pagetable
    → SharesNone free_shared_pte k p
    → SharesNone free_shared_pte j p
SharesNone-same free_shared_pte k j p count table none i t lt count' table' =
    none i t (subst (λ (n : ℕ). i < n) count lt) (count' ∙ count) (table' ∙ table)

module _ (free_shared_pte : Ptr → ℕ → Cmd Kernel (Unit {0})) where
  free_shared-none :
      (rounds : ℕ) (p : Ptr) (i : ℕ) (k : Kernel)
      → i + rounds ≤ (k.pcbs p).npages
      → SharesNone free_shared_pte k p
      → free_shared free_shared_pte rounds p i k ≡ ok tt k
  unfolding free_shared
  free_shared-none zero p i k in_table none = refl
  free_shared-none (suc rounds) p i k in_table none =
      rw (none i k (omega (arith, in_table)) refl refl)
        (free_shared-none rounds p (i + 1) k (omega (arith, in_table)) none)

  -- The pages, once the PCB stands among the free ones.
  -- The end of `ProcessFreeResources`, behind the insertion into the free PCBs.
  abbrev give_pages_back : Ptr → Cmd Kernel (Unit {0})
  give_pages_back p = do
    r' ← read_pcb p
    free_shared free_shared_pte r'.npages p 0
    r'' ← read_pcb p
    free_ptes (take r''.npages r''.pagetable)
    in_memory (free_page (r''.sys_stack_area / page_size))
    set_status p status_free

  give_back :
      (k : Kernel) (p : Ptr)
      → p ≢ null
      → SharesNone free_shared_pte k p
      → InRoom (length k.memory.freepages) (owned (k.pcbs p))
      → Returns
          (λ _ t.
            Freed k.memory (owned (k.pcbs p)) t.memory
            × (t ≡ record k {
              memory = t.memory;
              pcbs =
                  update k.pcbs p
                    (record (k.pcbs p) { flags = with_status (k.pcbs p).flags status_free });
            }))
          (give_pages_back p k)
  unfolding read_pcb set_status write_pcb
  give_back k p p_ne none (stack, room) =
      let page = (k.pcbs p).sys_stack_area / page_size in
      let ptes = take (k.pcbs p).npages (k.pcbs p).pagetable in
      let done_so = λ (t : Kernel).
        Freed k.memory (owned (k.pcbs p)) t.memory
        × (t ≡ record k {
          memory = t.memory;
          pcbs =
              update k.pcbs p
                (record (k.pcbs p) { flags = with_status (k.pcbs p).flags status_free });
        }) in
      simp (==_ne p null p_ne, free_shared-none (k.pcbs p).npages p 0 k (omega arith) none)
        (Returns-and_then (free_ptes-Freed k ptes room) λ _ t (freed, same).
          subst
            (λ (x : Kernel).
              Returns (λ _ u. done_so u)
                ((in_memory (free_page page) >> set_status p status_free) x))
            (sym same)
            (Returns-in_memory (record k { memory = t.memory }) _
              (free_page-Marked t.memory page
                (subst (λ (n : ℕ). page / 32 < n) (sym freed.size) stack))
              λ _ m (marked, rest). rw (==_ne p null p_ne) (
                returns
                  (Freed-then k.memory t.memory m page (pages_of ptes) freed marked rest, refl))))

  -- The part of `ProcessFreeResources` behind the assignment of the status.
  list_free :
      (k : Kernel) (w : View) (p : Ptr)
      → p ≢ null
      → (k.pcbs p).link ≢ null
      → Holds k.store w
      → IsLoose w (k.pcbs p).link
      → SharesNone free_shared_pte k p
      → InRoom (length k.memory.freepages) (owned (k.pcbs p))
      → Returns
          (λ _ t.
            (u : Store) × Rewrites k.store w free_pcbs
              (placed back (k.pcbs p).link (w free_pcbs))
              queue_success
              u
            × Freed k.memory (owned (k.pcbs p)) t.memory
            × (t ≡ record k {
              store = u;
              memory = t.memory;
              pcbs =
                  update k.pcbs p
                    (record (k.pcbs p) { flags = with_status (k.pcbs p).flags status_free });
            }))
          ((do
            r ← read_pcb p
            status ← queued (insert_last free_pcbs r.link)
            if not (status == queue_success) then exitsim else give_pages_back p)
            k)
  unfolding read_pcb
  list_free k w p p_ne l_ne all loose none room = simp (==_ne p null p_ne) (
      Returns-queued k _
        (insert_at-placed back k.store w free_pcbs (k.pcbs p).link (omega arith) l_ne all loose)
        λ status u re. rw re.0 (
          Returns-mono (give_back (record k { store = u }) p p_ne none room)
            λ _ t (freed, same). (u, (refl, re.1, re.2), freed, same)))

  -- `ProcessFreeResources` for a process that stands in no queue and shares no page: a free link comes to
  -- carry its PCB at the end of the free ones, its status is that of a free one, and exactly the pages of
  -- its table and of its system stack have become free; the other queues and processes stay.
  pub free_resources-Reclaimed :
      (k : Kernel) (v : View) (p m : Ptr) (rest : List Ptr)
      → p ≢ null
      → Holds k.store v
      → v free_links ≡ m ∷ rest
      → SharesNone free_shared_pte k p
      → InRoom (length k.memory.freepages) (owned (k.pcbs p))
      → Returns (λ _ t. Reclaimed k v p m t) (free_resources free_shared_pte p k)
  unfolding free_resources set_link write_pcb update with_status
  free_resources-Reclaimed k v p m rest p_ne all free none room =
      Returns-queued k _ (alloc_link-Allocated k.store v p all m rest free) λ r s al.
        let al' = subst (λ (x : Ptr). Allocated k.store v p m rest x s) al.result al in
        let pcbs' =
          update (update k.pcbs p (record (k.pcbs p) { link = m })) p
            (record (update k.pcbs p (record (k.pcbs p) { link = m }) p) { flags = status_free }) in
        let mine : pcbs' p ≡ record (k.pcbs p) { flags = status_free; link = m } =
          rw (==_self p) refl in
        let linked : (pcbs' p).link ≡ m = ap (λ (r : Pcb). r.link) mine in
        rw al.result (
          simp (==_ne p null p_ne, ==_ne m null al'.not_null)
            (Returns-mono
              (list_free (record k { store = s; pcbs = pcbs' }) (update v free_links rest) p p_ne
                (λ e. al'.not_null (sym linked ∙ e)) al'.holds
                (subst (λ (x : Ptr). IsLoose (update v free_links rest) x) (sym linked) al'.loose)
                (SharesNone-same free_shared_pte k (record k { store = s; pcbs = pcbs' }) p
                  (ap (λ (r : Pcb). r.npages) mine) (ap (λ (r : Pcb). r.pagetable) mine) none)
                (subst (λ (r : Pcb). InRoom (length k.memory.freepages) (owned r)) (sym mine) room))
              λ _ t (u, re, freed, same). record {
                enlisted =
                    subst (Enlisted k.store v back free_pcbs p m)
                      (sym (ap (λ (x : Kernel). x.store) same))
                      (Enlisted-of k.store s u v back free_pcbs p m rest (omega arith) (omega arith)
                        all free al'
                        (subst
                          (λ (x : Ptr).
                            Rewrites s (update v free_links rest) free_pcbs
                              (placed back x (update v free_links rest free_pcbs)) queue_success u)
                          linked re));
                pcbs = λ a. ap (λ (x : Kernel). x.pcbs a) same ∙ elim (Bool-cases (a == p)) [
                  | inl here ↦
                      rw here (
                        ap (λ (r : Pcb). record r { flags = with_status r.flags status_free }) mine)
                  | inr other ↦ rw (other) refl
                ];
                memory = subst (λ (r : Pcb). Freed k.memory (owned r) t.memory) mine freed;
                rest =
                    same
                    ∙ ap
                        (λ (x : Kernel). record k {
                          store = x.store;
                          pcbs = x.pcbs;
                          memory = t.memory;
                        })
                        (sym same);
              }))
