-- ===== src/Process/InitLaws.antt =====
-- The loop of ProcessModuleInit of os/process.c over the array of PCBs.
use lab.Prelude.{
  ℕ, zero, suc, ◌+◌, ◌<◌, ◌≤◌, ◌≡◌, ◌≢◌, refl, sym, subst, ◌∙◌, ap, true, List, [], ◌∷◌, arith,
  ◌==◌, if◌then◌else◌, ==_self, ==_ne, length, ==_iff, Bool-cases, inl, inr,
}
use lab.Run.{Returns, returns, Returns-mono}
use lab.Queue.Store.{Ptr, null, Store, update, free_links}
use lab.Queue.Shape.{contains, View, Holds, Chain-queue}
use lab.Queue.RemovalLaws.{Allocated, alloc_link-Allocated}
use lab.Kernel.{Kernel, Pcb, free_pcbs, write_pcb}
use lab.Process.Status.{status_free}
use lab.Process.Transitions.{init_pcbs}
use lab.Process.Requeue.{Returns-queued, items, front, Enlisted, Enlisted-of, insert_at-placed}

-- The PCBs from the address `p` on, the last one first, in front of a list.
abbrev pub ahead : ℕ → Ptr → List Ptr → List Ptr
ahead zero p ls = ls
ahead (suc n) p ls = ahead n (p + 1) (p ∷ ls)

-- One round of the loop.
record Freshed (k : Kernel) (v : View) (p m : Ptr) (t : Kernel) : Type 0 where
  enlisted : Enlisted k.store v front free_pcbs p m t.store
  pcbs :
      (r : Ptr)
      → t.pcbs r
        ≡ (if r == p then record (k.pcbs p) { flags = status_free; link = m } else k.pcbs r)
  rest : t ≡ record k { store = t.store; pcbs = t.pcbs }

-- `n` PCBs from the address `p` on have become free.
pub record Listed (k : Kernel) (v : View) (n : ℕ) (p : Ptr) (t : Kernel) : Type 0 where
  pub view : View
  pub holds : Holds t.store view
  pub free : items t.store (view free_pcbs) ≡ ahead n p (items k.store (v free_pcbs))
  pub pool : length (view free_links) + n ≡ length (v free_links)
  pub others :
      (j : Ptr)
      → j ≢ null
      → j ≢ free_links
      → j ≢ free_pcbs
      → items t.store (view j) ≡ items k.store (v j)
  pub status : (a : Ptr) → p ≤ a → a < p + n → (t.pcbs a).flags ≡ status_free
  pub carries : (a : Ptr) → p ≤ a → a < p + n → (t.store.links (t.pcbs a).link).object ≡ a
  pub member : (a : Ptr) → p ≤ a → a < p + n → contains (t.pcbs a).link (view free_pcbs) ≡ true
  pub stays : (l : Ptr) → contains l (v free_pcbs) ≡ true → contains l (view free_pcbs) ≡ true
  pub kept :
      (l : Ptr)
      → contains l (v free_pcbs) ≡ true
      → (t.store.links l).object ≡ (k.store.links l).object
  pub below : (a : Ptr) → a < p → t.pcbs a ≡ k.pcbs a
  pub above : (a : Ptr) → p + n ≤ a → t.pcbs a ≡ k.pcbs a
  pub rest : t ≡ record k { store = t.store; pcbs = t.pcbs }

-- A free link is there.
some_link :
    (n : ℕ) (xs : List Ptr)
    → suc n ≤ length xs
    → (m : Ptr) × (rest : List Ptr) × (xs ≡ m ∷ rest) × (n ≤ length rest)
some_link n [] h = absurd (omega (arith, h))
some_link n (x ∷ xs) h = (x, xs, refl, omega (arith, h))

-- A link of the queue is none of the free ones.
off_pool :
    (k : Kernel) (v : View) (l m : Ptr)
    → Holds k.store v
    → contains l (v free_pcbs) ≡ true
    → contains m (v free_links) ≡ true
    → (l ≢ null) × (l ≢ m)
off_pool k v l m all here there =
    let (on, l_ne) =
      Chain-queue k.store.links free_pcbs null (v free_pcbs) null l
        (all free_pcbs (omega arith)).chain here in
    let (on', m_ne) =
      Chain-queue k.store.links free_links null (v free_links) null m
        (all free_links (omega arith)).chain there in
    (l_ne, λ e. omega (arith, on, on', ap (λ (x : Ptr). (k.store.links x).queue) e))

-- A round, and then the others.
then_more :
    (k j t : Kernel) (v : View) (n : ℕ) (p m : Ptr) (f : Freshed k v p m j)
    → Holds k.store v
    → Listed j f.enlisted.view n (p + 1) t
    → Listed k v (suc n) p t
then_more k j t v n p m f all li =
    let mine : j.pcbs p ≡ record (k.pcbs p) { flags = status_free; link = m } =
      f.pcbs p ∙ rw (==_self p) refl in
    let first : (t.pcbs p).flags ≡ status_free =
      ap (λ (r : Pcb). r.flags) (li.below p (omega arith) ∙ mine) in
    let pushed : (l : Ptr)
        → contains l (v free_pcbs) ≡ true
        → contains l (f.enlisted.view free_pcbs) ≡ true =
      λ l here. rw f.enlisted.links (ground (arith, here)) in
    let linked : (t.pcbs p).link ≡ m = ap (λ (r : Pcb). r.link) (li.below p (omega arith) ∙ mine) in
    let in_front : contains m (f.enlisted.view free_pcbs) ≡ true = f.enlisted.member in
    record {
      view = li.view;
      holds = li.holds;
      free = li.free ∙ ap (ahead n (p + 1)) f.enlisted.target;
      pool = omega (arith, li.pool, f.enlisted.pool);
      others = λ r ne r_free r_pcbs.
          li.others r ne r_free r_pcbs ∙ (f.enlisted.others r ne r_free r_pcbs).1;
      status = λ a h h'. elim (Bool-cases (a == p)) [
        | inl same ↦
            subst (λ (r : Ptr). (t.pcbs r).flags ≡ status_free) (sym ((==_iff a p).0 same)) first
        | inr other ↦ li.status a (ground (arith, other, h)) (omega (arith, h'))
      ];
      carries = λ a h h'. elim (Bool-cases (a == p)) [
        | inl same ↦
            subst (λ (r : Ptr). (t.store.links (t.pcbs r).link).object ≡ r)
              (sym ((==_iff a p).0 same))
              (subst (λ (l : Ptr). (t.store.links l).object ≡ p) (sym linked)
                (li.kept m in_front ∙ f.enlisted.carries))
        | inr other ↦ li.carries a (ground (arith, other, h)) (omega (arith, h'))
      ];
      member = λ a h h'. elim (Bool-cases (a == p)) [
        | inl same ↦
            subst (λ (r : Ptr). contains (t.pcbs r).link (li.view free_pcbs) ≡ true)
              (sym ((==_iff a p).0 same))
              (subst (λ (l : Ptr). contains l (li.view free_pcbs) ≡ true) (sym linked)
                (li.stays m in_front))
        | inr other ↦ li.member a (ground (arith, other, h)) (omega (arith, h'))
      ];
      stays = λ l here. li.stays l (pushed l here);
      kept = λ l here.
          let (ne, off) = off_pool k v l m all here f.enlisted.fresh in
          li.kept l (pushed l here) ∙ f.enlisted.kept l ne off;
      below =
          λ a h. li.below a (omega (arith, h)) ∙ f.pcbs a ∙ rw (==_ne a p (omega (arith, h))) refl;
      above =
          λ a h. li.above a (omega (arith, h)) ∙ f.pcbs a ∙ rw (==_ne a p (omega (arith, h))) refl;
      rest = li.rest ∙ ap (λ (x : Kernel). record x { store = t.store; pcbs = t.pcbs }) f.rest;
    }

-- The kernel once both fields of the PCB `p` are written.
abbrev cleared : Kernel → Ptr → Ptr → Store → Kernel
cleared k p m s =
    let pcbs = update k.pcbs p (record (k.pcbs p) { link = m }) in
    record k { store = s; pcbs = update pcbs p (record (pcbs p) { flags = status_free }) }

-- The loop of `ProcessModuleInit` over `n` PCBs from the address `p` on, which is not NULL, ends where `n`
-- links are free. Then all of them are free: they stand in front of the queue of free ones, the last
-- one first, each on the link that it points to, and the others stay in their order behind them. It
-- takes `n` links from the pool; the other queues and PCBs stay.
pub init_pcbs-Listed :
    (k : Kernel) (v : View) (n : ℕ) (p : Ptr)
    → p ≢ null
    → Holds k.store v
    → n ≤ length (v free_links)
    → Returns (λ _ t. Listed k v n p t) (init_pcbs n p k)
unfolding init_pcbs write_pcb update
init_pcbs-Listed k v zero p p_ne all enough = returns (record {
  view = v;
  holds = all;
  free = refl;
  pool = omega arith;
  others = λ r ne r_free r_pcbs. refl;
  status = λ a h h'. absurd (omega (arith, h, h'));
  carries = λ a h h'. absurd (omega (arith, h, h'));
  member = λ a h h'. absurd (omega (arith, h, h'));
  stays = λ l here. here;
  kept = λ l here. refl;
  below = λ a h. refl;
  above = λ a h. refl;
  rest = refl;
})
init_pcbs-Listed k v (suc n) p p_ne all enough =
    let (m, rest, free, more) = some_link n (v free_links) enough in
    Returns-queued k _ (alloc_link-Allocated k.store v p all m rest free) λ r s al.
      let al' = subst (λ (x : Ptr). Allocated k.store v p m rest x s) al.result al in
      rw al.result (
        simp (==_ne p null p_ne, ==_ne m null al'.not_null)
          (Returns-queued (cleared k p m s) _
            (insert_at-placed front s (update v free_links rest) free_pcbs m (omega arith)
              al'.not_null al'.holds al'.loose)
            λ status u re. rw re.0 (
              let en =
                Enlisted-of k.store s u v front free_pcbs p m rest (omega arith) (omega arith) all
                  free al' (refl, re.1, re.2) in
              Returns-mono
                (init_pcbs-Listed (cleared k p m u) en.view n (p + 1) (omega arith) en.holds
                  (omega (arith, enough, en.pool)))
                λ _ t li.
                  then_more k (cleared k p m u) t v n p m
                    (record { enlisted = en; pcbs = λ a. ground arith; rest = refl }) all li)))
