-- ===== src/Startup/GivingBackLaws.antt =====
-- The kernel after a ProcessFork of os/process.c that gives its PCB and pages back.
use lab.Prelude.{
  ℕ, ◌+◌, ◌-◌, ◌*◌, ◌^◌, ◌%◌, ◌≤◌, ◌≡◌, ◌≢◌, refl, sym, subst, ◌∙◌, ap, true, List, [], ◌∷◌, ◌++◌,
  arith, ==_self, ==_ne, length, length-append, set,
}
use mathlib.Core.Path.{ap₂}
use lab.Run.{Cmd, ok}
use lab.Queue.Store.{Ptr, null, free_links, update}
use lab.Queue.Shape.{contains, View, Holds}
use lab.Queue.RemovalLaws.{returned}
use lab.Queue.ReturnedLaws.{returned-here, returned-free}
use lab.Memory.Freemap.{Memory, page_size}
use lab.Memory.FreemapLaws.{page_bit}
use lab.Memory.Address.{setup_pte}
use lab.Memory.PteLaws.{page_of_pte-setup_pte}
use lab.Kernel.{Kernel, Pcb, free_pcbs}
use lab.Process.Status.{status_free, status_runnable, with_status}
use lab.Process.Requeue.{items}
use lab.Process.Freeing.{InRoom, Freed}
use lab.Process.Reclaim.{owned, SharesNone, Reclaimed}
use lab.Text.Strings.{Bytes}
use lab.Machine.{Machine, Layout}
use lab.Startup.Fork.{frame_size}
use lab.Startup.ClaimLaws.{Claimed, Provided}
use lab.Startup.SpawnLaws.{same_memory, before, other}

-- The PCB `p` has gone from the front of the free ones, `ls` behind it, to their end; it keeps the two
-- pages in its fields. All pages, the other queues and the other processes are as before.
pub record Refused (k : Kernel) (v : View) (p page stack : ℕ) (ls : List Ptr) (t : Kernel)
    : Type 0 where
  pub view : View
  pub holds : Holds t.store view
  pub free : items t.store (view free_pcbs) ≡ items k.store ls ++ p ∷ []
  pub others :
      (j : Ptr)
      → j ≢ null
      → j ≢ free_links
      → j ≢ free_pcbs
      → items t.store (view j) ≡ items k.store (v j)
  pub pool : length (view free_links) ≡ length (v free_links)
  pub carries : (t.store.links (t.pcbs p).link).object ≡ p
  pub member : contains (t.pcbs p).link (view free_pcbs) ≡ true
  pub process : t.pcbs p ≡ record (k.pcbs p) {
    flags = status_free;
    link = (t.pcbs p).link;
    npages = 1;
    pagetable = set (k.pcbs p).pagetable 0 (setup_pte page);
    sys_stack_area = stack * page_size % 2 ^ 32;
  }
  pub processes : (a : Ptr) → a ≢ p → t.pcbs a ≡ k.pcbs a
  pub bits : (r : ℕ) → page_bit t.memory.freepages r ≡ page_bit k.memory.freepages r
  pub count : t.memory.free_count ≡ k.memory.free_count
  pub rest : t ≡ record k { store = t.store; pcbs = t.pcbs; memory = t.memory }

-- A page that is free in the kernel `k` is not a shared one: where it has become the only page of the
-- process `p`, `MemoryFreeSharedPte` changes nothing.
abbrev pub FreshPages : (Ptr → ℕ → Cmd Kernel (Unit {0})) → Kernel → Ptr → List ℕ → Type 0
FreshPages free_shared_pte k p es =
    (page : ℕ) (t : Kernel)
    → page_bit k.memory.freepages page ≡ 1
    → (t.pcbs p).npages ≡ 1
    → (t.pcbs p).pagetable ≡ setup_pte page ∷ es
    → free_shared_pte p 0 t ≡ ok tt t

-- The machine after `set_up_frame`.
abbrev pub framed : Layout → Machine → Kernel → Ptr → Bytes → Machine
framed layout m k p text = record m {
  kernel = k;
  bytes = text;
  frames = update m.frames p (record (m.frames p) {
    address = (k.pcbs p).sys_stack_area + page_size - 4 * (frame_size + 8);
    prev_frame = 0;
    ptbase = layout.pagetable p;
    ptsize = (k.pcbs p).npages;
    ptbits = 16 + 16 * 2 ^ 16;
  });
}

module _ (k k1 k2 : Kernel) (v : View) (p l a b e : ℕ) (es ls : List Ptr)
    (at : v free_pcbs ≡ l ∷ ls) (table : (k.pcbs p).pagetable ≡ e ∷ es)
    (top : k.memory.freemap_max ≤ 2 ^ 11) (c : Claimed k v p l ls k1)
    (pr : Provided k1 p a b k2) where
  top1 : k1.memory.freemap_max ≤ 2 ^ 11
  top1 = rw (same_memory k k1 k2 v p l a b ls c pr) top

  pcb_of : k2.pcbs p ≡ record (k1.pcbs p) {
    npages = 1;
    pagetable = setup_pte a ∷ es;
    sys_stack_area = b * page_size % 2 ^ 32;
  }
  pcb_of = pr.pcbs p ∙ simp (==_self p, c.pcbs p, table)

  entire : k2.pcbs p ≡ record (k.pcbs p) {
    flags = with_status (k.pcbs p).flags status_runnable;
    link = null;
    npages = 1;
    pagetable = set (k.pcbs p).pagetable 0 (setup_pte a);
    sys_stack_area = b * page_size % 2 ^ 32;
  }
  entire = pr.pcbs p ∙ simp (==_self p, c.pcbs p)

  pub framed-own :
      (layout : Layout) (m : Machine) (text : Bytes)
      → (framed layout m k2 p text).frames p ≡ record (m.frames p) {
        address = b * page_size % 2 ^ 32 + page_size - 4 * (frame_size + 8);
        prev_frame = 0;
        ptbase = layout.pagetable p;
        ptsize = 1;
        ptbits = 16 + 16 * 2 ^ 16;
      }
  unfolding update
  framed-own layout m text = simp (==_self p, pcb_of)

  -- The page of the new process is not shared.
  pub new-SharesNone :
      (free_shared_pte : Ptr → ℕ → Cmd Kernel (Unit {0}))
      → FreshPages free_shared_pte k p es
      → SharesNone free_shared_pte k2 p
  new-SharesNone free_shared_pte fresh i t lt count table' =
      let one : (k2.pcbs p).npages ≡ 1 = ap (λ (r : Pcb). r.npages) pcb_of in
      subst (λ (x : ℕ). free_shared_pte p x t ≡ ok tt t) (omega (arith, lt, one))
        (fresh a t
          (subst (λ (x : Memory). page_bit x.freepages a ≡ 1)
            (same_memory k k1 k2 v p l a b ls c pr) pr.page)
          (count ∙ one) (table' ∙ ap (λ (r : Pcb). r.pagetable) pcb_of))

  -- The new process owns its two pages.
  owned-two : owned (k2.pcbs p) ≡ b ∷ a ∷ []
  owned-two =
      ap owned pcb_of
      ∙ ap₂ (λ (x y : ℕ). x ∷ y ∷ []) (omega (arith, top1, pr.stack_in_map))
          (page_of_pte-setup_pte a (omega (arith, top1, pr.page_in_map)))

  pub two-InRoom :
      k1.memory.freemap_max ≤ length k1.memory.freepages
      → InRoom (length k2.memory.freepages) (owned (k2.pcbs p))
  two-InRoom room = subst (InRoom (length k2.memory.freepages)) (sym owned-two) (
    omega (arith, room, pr.size, pr.stack_in_map),
    (omega (arith, room, pr.size, pr.page_in_map), tt),
  )

  module _ (m : Ptr) (t : Kernel) (counted : 2 ≤ k.memory.free_count)
      (re : Reclaimed k2 (returned v free_pcbs l [] ls) p m t) where
    given_back : Freed k2.memory (b ∷ a ∷ []) t.memory
    given_back = subst (λ (ps : List ℕ). Freed k2.memory ps t.memory) owned-two re.memory

    bits_back : (r : ℕ) → page_bit t.memory.freepages r ≡ page_bit k1.memory.freepages r
    bits_back r = given_back.bits r ∙ rw (pr.bits r) (ground (arith, pr.page, pr.stack))

    counted_back : t.memory.free_count ≡ k.memory.free_count
    counted_back =
        ap (λ (x : Memory). x.free_count) given_back.rest
        ∙ ap (λ (x : Memory). x.free_count + 2) pr.memory
        ∙ omega (
          arith,
          counted,
          ap (λ (x : Memory). x.free_count) (same_memory k k1 k2 v p l a b ls c pr),
        )

    own : t.pcbs p ≡ record (k2.pcbs p) { flags = status_free; link = m }
    own = re.pcbs p ∙ rw (==_self p) refl

    frame : Kernel → Kernel
    frame x = record x { store = t.store; pcbs = t.pcbs; memory = t.memory }

    pub Refused-of : Refused k v p a b ls t
    unfolding frame
    Refused-of = record {
      view = re.enlisted.view;
      holds = re.enlisted.holds;
      free =
          re.enlisted.target
          ∙ ap (λ (xs : List Ptr). xs ++ p ∷ [])
              (before k k1 k2 v p l a b ls c pr free_pcbs (omega arith)
                ∙ ap (items k.store) (returned-here v free_pcbs l [] ls (omega arith)));
      others = λ j ne j_free j_pcbs.
          (re.enlisted.others j ne j_free j_pcbs).1
          ∙ before k k1 k2 v p l a b ls c pr j ne
          ∙ ap (items k.store) (other k k1 k2 v p l a b ls c pr j j_free j_pcbs);
      pool =
          let grown =
            ap length (returned-free v free_pcbs l [] ls (omega arith))
            ∙ length-append {0} (v free_links) (l ∷ []) in
          omega (arith, re.enlisted.pool, grown);
      carries =
          subst (λ (r : Pcb). (t.store.links r.link).object ≡ p) (sym own) re.enlisted.carries;
      member =
          subst (λ (r : Pcb). contains r.link (re.enlisted.view free_pcbs) ≡ true) (sym own)
            re.enlisted.member;
      process =
          own
          ∙ (ap (λ (r : Pcb). record r { flags = status_free; link = m }) entire
              ∙ ap
                  (λ (q : Ptr). record (k.pcbs p) {
                    flags = status_free;
                    link = q;
                    npages = 1;
                    pagetable = set (k.pcbs p).pagetable 0 (setup_pte a);
                    sys_stack_area = b * page_size % 2 ^ 32;
                  })
                  (sym (ap (λ (r : Pcb). r.link) own)));
      processes = λ r ne.
          re.pcbs r ∙ rw (==_ne r p ne, pr.pcbs r, ==_ne r p ne, c.pcbs r, ==_ne r p ne) refl;
      bits = λ r.
          bits_back r
          ∙ ap (λ (x : Memory). page_bit x.freepages r) (same_memory k k1 k2 v p l a b ls c pr);
      count = counted_back;
      rest = re.rest ∙ (ap frame pr.rest ∙ ap frame c.rest);
    }
