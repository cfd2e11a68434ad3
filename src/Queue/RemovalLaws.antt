-- ===== src/Queue/RemovalLaws.antt =====
-- AQueueRemove and AQueueAllocLink of os/queue.c against lists: a link leaves its queue, and the
-- pool of free links takes it back or hands it out.
use lab.Prelude.{
  ◌≡◌, ◌≢◌, refl, sym, subst, ◌∙◌, ap, inl, inr, List, [], ◌∷◌, ◌++◌, arith, ◌==◌, Bool-cases,
  ==_iff, ==_self, ==_ne,
}
use lab.Prelude.Int.{pos, ◌-ℤ◌}
use lab.Run.{Returns, returns, ok, pure, ◌>>◌, Returns-and_then, Returns-mono}
use lab.Queue.Store.{
  Ptr, null, Link, Store, update, queue_success, free_links, drop_item, set_next, set_prev,
  set_queue, set_object,
}
use lab.Queue.AccessLaws.{is_empty-nil, is_empty-cons, first_of-head}
use lab.Queue.Removal.{drop_ends, join_around, remove, alloc_link}
use lab.Queue.Shape.{
  Links, Distinct, Apart, head_or, last_or, IsQueue, View, Holds, contains-last_or, ne_of_contains,
}
use lab.Queue.Inserted.{SameObjects, not_contains}
use lab.Queue.InsertionLaws.{IsLoose, insert_last-snoc}
use lab.Queue.Unlinked.{
  Trimmed, Joined, Unlinked, drop_ends-Trimmed, join_around-Joined, parts, IsNode-of, apart,
  out_left, before_ne, behind_ne, out_of_rest,
}
use lab.Queue.Erased.{first_iff, last_iff, Unlinked-IsQueue, Unlinked-others}

-- What `drop_item` does.
abbrev less_one : Store → Ptr → Store
less_one s q = record s {
  queues = update s.queues q (record (s.queues q) { nitems = (s.queues q).nitems -ℤ pos 1 });
}

drop_item-ok : (s : Store) (q : Ptr) → q ≢ null → drop_item q s ≡ ok tt (less_one s q)
unfolding drop_item
drop_item-ok s q ne = simp (==_ne q null ne)

sides-eq_null :
    (h : Links) (q l : Ptr) (xs ys : List Ptr) (n : Ptr)
    → Distinct xs × Distinct (l ∷ ys) × Apart xs (l ∷ ys)
    → last_or null xs ≡ head_or null ys
    → last_or null xs ≡ null
sides-eq_null h q l [] ys n d e = refl
sides-eq_null h q l (x ∷ xs) [] n d e = e
sides-eq_null h q l (x ∷ xs) (y ∷ ys) n d e = absurd (
    ne_of_contains y (last_or x xs) (l ∷ y ∷ ys) (ground arith)
      (d.2 (last_or x xs) (contains-last_or x xs)) (sym e))

module _ (s : Store) (q l : Ptr) (xs ys : List Ptr) (q_ne : q ≢ null)
    (is : IsQueue s q (xs ++ l ∷ ys)) where
  sides_apart : last_or null xs ≡ head_or null ys → last_or null xs ≡ null
  sides_apart = sides-eq_null s.links q l xs ys null (apart s q l xs ys is)

  ends : Returns (λ _ t. Trimmed s q (last_or null xs) (head_or null ys) t) (drop_ends q l s)
  ends =
      let node = IsNode-of s q l xs ys is in
      drop_ends-Trimmed s q (last_or null xs) l (head_or null ys) q_ne node.not_null node.next
        node.prev
        (first_iff s.links q l (s.queues q).first xs ys l (parts s q l xs ys is).0
          (out_left s q l xs ys is) is.first)
        (last_iff s.links q l (s.queues q).last l xs ys (parts s q l xs ys is).1.1
          (apart s q l xs ys is).1.0 is.last)

  joins :
      (t : Store)
      → t.links ≡ s.links
      → Returns (λ _ u. Joined t (last_or null xs) l (head_or null ys) u) (join_around l t)
  joins t e =
      let node = IsNode-of s q l xs ys is in
      join_around-Joined t q (last_or null xs) l (head_or null ys) q_ne node.not_null
        (rw e node.next) (rw e node.prev) (before_ne s q l xs ys is) (behind_ne s q l xs ys is)
        sides_apart

  -- The steps of `AQueueRemove` and, in another order, of `AQueueAllocLink`.
  Unlinked-steps :
      (t u : Store)
      → Trimmed s q (last_or null xs) (head_or null ys) t
      → Joined t (last_or null xs) l (head_or null ys) u
      → Unlinked s q (last_or null xs) l (head_or null ys) (less_one u q)
        × ((less_one u q).links l ≡ s.links l)
  unfolding update
  Unlinked-steps t u tr jo =
      let node_ne = (IsNode-of s q l xs ys is).not_null in
      let p_ne = before_ne s q l xs ys is in
      let n_ne = behind_ne s q l xs ys is in
      (
        record {
          links = λ a ne off. ground (arith, jo.links a ne, tr.links);
          header = rw (jo.queues, tr.header, ==_self q) refl;
          others = λ k ne. ground (arith, jo.queues, tr.others k ne);
        },
        ground (arith, jo.links l node_ne, tr.links),
      )

  Unlinked-alloc :
      (t u : Store)
      → Trimmed s q (last_or null xs) (head_or null ys) t
      → Joined (less_one t q) (last_or null xs) l (head_or null ys) u
      → Unlinked s q (last_or null xs) l (head_or null ys) u
  unfolding update
  Unlinked-alloc t u tr jo = record {
    links = λ a ne off. ground (arith, jo.links a ne, tr.links);
    header = rw (jo.queues, tr.header, ==_self q) refl;
    others = λ k ne. ground (arith, jo.queues, tr.others k ne);
  }

-- The lists after `AQueueRemove`: `l` has left its place between `xs` and `ys` in `q` and waits at
-- the end of `freeLinks`.
abbrev pub returned : View → (q l : Ptr) → (xs ys : List Ptr) → View
returned v q l xs ys = let w = update v q (xs ++ ys) in update w free_links (w free_links ++ l ∷ [])

-- A link that has left `q` stands in no queue, and the queues hold the rest.
module _ (s : Store) (v : View) (q l : Ptr) (xs ys : List Ptr) (q_ne : q ≢ null) (all : Holds s v)
    (e : v q ≡ xs ++ l ∷ ys) where
  holds_at : IsQueue s q (xs ++ l ∷ ys)
  holds_at = subst (IsQueue s q) e (all q q_ne)

  Unlinked-Holds :
      (t : Store)
      → Unlinked s q (last_or null xs) l (head_or null ys) t
      → Holds t (update v q (xs ++ ys))
  unfolding update
  Unlinked-Holds t un k ne = elim (Bool-cases (k == q)) [
    | inl same ↦ rw same (
        subst (λ (j : Ptr). IsQueue t j (xs ++ ys)) (sym ((==_iff k q).0 same))
          (Unlinked-IsQueue s t q l xs ys holds_at un))
    | inr other ↦ rw other (
        Unlinked-others s t q l xs ys holds_at un k (v k) (λ (j : k ≡ q). cc ((==_iff k q).1 j))
          (all k ne))
  ]

  Unlinked-IsLoose : IsLoose (update v q (xs ++ ys)) l
  unfolding update
  Unlinked-IsLoose k ne = elim (Bool-cases (k == q)) [
    | inl same ↦ rw same (out_of_rest s q l xs ys holds_at)
    | inr other ↦ rw other (
        not_contains s.links k null (v k) null l (all k ne).chain λ (j : (s.links l).queue ≡ k).
          cc ((==_iff k q).1 (sym j ∙ (IsNode-of s q l xs ys holds_at).queue)))
  ]

  objects :
      (t : Store)
      → Unlinked s q (last_or null xs) l (head_or null ys) t × (t.links l ≡ s.links l)
      → SameObjects s t
  objects t un a ne = elim (Bool-cases (a == l)) [
    | inl same ↦
        subst (λ (b : Ptr). (t.links b).object ≡ (s.links b).object) (sym ((==_iff a l).0 same))
          (ap (λ (r : Link). r.object) un.1)
    | inr other ↦ ground (arith, un.0.links a ne (λ (j : a ≡ l). cc ((==_iff a l).1 j)))
  ]

  -- `AQueueRemove` takes a link out of the queue on which it stands, wherever it stands there, puts
  -- it at the end of the free links and clears the caller's pointer; all objects stay.
  pub remove-returned :
      Returns
        (λ r t. (r ≡ (queue_success, null)) × Holds t (returned v q l xs ys) × SameObjects s t)
        (remove l s)
  unfolding remove
  remove-returned =
      let node = IsNode-of s q l xs ys holds_at in
      simp (==_ne l null node.not_null, node.queue, ==_ne q null q_ne)
        (Returns-and_then (ends s q l xs ys q_ne holds_at) λ _ t tr.
          Returns-and_then (joins s q l xs ys q_ne holds_at t tr.links) λ _ u jo.
            rw (drop_item-ok u q q_ne) (
              let un = Unlinked-steps s q l xs ys q_ne holds_at t u tr jo in
              Returns-and_then
                (insert_last-snoc (less_one u q) (update v q (xs ++ ys)) free_links l (omega arith)
                  node.not_null (Unlinked-Holds (less_one u q) un.0) Unlinked-IsLoose)
                λ r w post.
                  returns (refl, post.1, λ a ne. post.2 a ne ∙ objects (less_one u q) un a ne)))

-- The link that `AQueueAllocLink` hands out is cleared.
clears :
    (s : Store) (l object : Ptr)
    → l ≢ null
    → Returns
        (λ r t.
          (r ≡ l)
          × ((t.links l).object ≡ object)
          × ((a : Ptr) → a ≢ l → t.links a ≡ s.links a)
          × (t.queues ≡ s.queues))
        ((set_next l null
            >> (set_prev l null >> (set_queue l null >> (set_object l object >> pure l))))
          s)
unfolding set_next set_prev set_queue set_object update
clears s l object ne =
    simp (==_ne l null ne) (returns (refl, ground arith, λ a off. ground arith, refl))

-- The post-condition of `AQueueAllocLink` where a link is free: the first free link leaves the
-- pool, stands in no queue, and carries the object; no other object changes.
pub record Allocated (s : Store) (v : View) (object l : Ptr) (ys : List Ptr) (r : Ptr) (t : Store)
    : Type 0 where
  pub result : r ≡ l
  pub not_null : l ≢ null
  pub holds : Holds t (update v free_links ys)
  pub loose : IsLoose (update v free_links ys) l
  pub carries : (t.links l).object ≡ object
  pub kept : (a : Ptr) → a ≢ null → a ≢ l → (t.links a).object ≡ (s.links a).object

module _ (s : Store) (v : View) (object : Ptr) (all : Holds s v) where
  -- With no free link left `AQueueAllocLink` returns NULL and changes nothing.
  pub alloc_link-none : v free_links ≡ [] → alloc_link object s ≡ ok null s
  unfolding alloc_link
  alloc_link-none e = simp (
      is_empty-nil s free_links (omega arith)
        (subst (IsQueue s free_links) e (all free_links (omega arith))))

  -- Where a link is free `AQueueAllocLink` returns the first free one: it leaves the pool, stands in
  -- no queue and carries the given object, while all other objects and queues stay.
  pub alloc_link-Allocated :
      (l : Ptr) (ys : List Ptr)
      → v free_links ≡ l ∷ ys
      → Returns (Allocated s v object l ys) (alloc_link object s)
  unfolding alloc_link
  alloc_link-Allocated l ys e =
      let free_ne : free_links ≢ null = omega arith in
      let is : IsQueue s free_links (l ∷ ys) =
        subst (IsQueue s free_links) e (all free_links free_ne) in
      let node = is.chain.0 in
      simp
        (
          is_empty-cons s free_links free_ne l ys is,
          first_of-head s free_links free_ne (l ∷ ys) is,
          ==_ne l null node.not_null,
        )
        (Returns-and_then (ends s free_links l [] ys free_ne is) λ _ t tr.
          rw (drop_item-ok t free_links free_ne) (
            Returns-and_then
              (joins s free_links l [] ys free_ne is (less_one t free_links) tr.links)
              λ _ u jo.
                let un = Unlinked-alloc s free_links l [] ys free_ne is t u tr jo in
                Returns-mono (clears u l object node.not_null) λ r w (same, carries, links, queues).
                  let un' : Unlinked s free_links null l (head_or null ys) w = record {
                    links = λ a ne off. links a off ∙ un.links a ne off;
                    header = rw queues un.header;
                    others = λ k ne. rw queues (un.others k ne);
                  } in
                  record {
                    result = same;
                    not_null = node.not_null;
                    holds = Unlinked-Holds s v free_links l [] ys free_ne all e w un';
                    loose = Unlinked-IsLoose s v free_links l [] ys free_ne all e;
                    carries = carries;
                    kept = λ a ne off. ground (arith, un'.links a ne off);
                  }))
