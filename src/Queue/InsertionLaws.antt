-- ===== src/Queue/InsertionLaws.antt =====
-- The insertions of os/queue.c against lists: each puts the link at its place in one list.
use lab.Prelude.{
  ℕ, ◌≡◌, ◌≢◌, refl, sym, subst, ◌∙◌, ap, true, false, inl, inr, List, [], ◌∷◌, ◌++◌, arith, ◌==◌,
  Bool-cases, ==_iff, ==_self, ==_ne,
}
use lab.Run.{Returns, ok, Returns-mono}
use mathlib.Core.List.{append-nil}
use lab.Queue.Store.{Ptr, null, Store, update, queue_success, read_queue, first_of, last_of}
use lab.Queue.Insertion.{
  is_anchor, link_after, insert_after, insert_before, insert_first, insert_last, link_before,
}
use lab.Queue.Shape.{
  contains, head_or, last_or, IsQueue, View, Holds, Chain-split, Chain-last, not_contains-append,
  Distinct-split, last_or-append, contains-last_or, ne_of_contains,
}
use lab.Queue.Splice.{
  LinksIn, link_after-single, link_after-end, link_after-middle, link_before-single,
  link_before-start, link_before-middle,
}
use lab.Queue.Inserted.{SameObjects, Spliced-IsQueue, Spliced-others, ne-head_or}

is_anchor-empty : (s : Store) (q : Ptr) → q ≢ null → IsQueue s q [] → is_anchor q null s ≡ ok true s
unfolding is_anchor
is_anchor-empty s q ne is = simp (==_ne q null ne, is.first, is.last, is.nitems)

is_anchor-on :
    (s : Store) (q p : Ptr) → p ≢ null → (s.links p).queue ≡ q → is_anchor q p s ≡ ok true s
unfolding is_anchor
is_anchor-on s q p ne on = simp (==_ne p null ne, on, ==_self q)

module _ (s : Store) (q p l : Ptr) (q_ne : q ≢ null) (l_ne : l ≢ null)
    (anchor : is_anchor q p s ≡ ok true s) where
  insert_after-anchor : insert_after q p l s ≡ link_after q p l s
  unfolding insert_after
  insert_after-anchor = simp (==_ne l null l_ne, ==_ne q null q_ne, anchor)

  insert_before-anchor : insert_before q p l s ≡ link_before q p l s
  unfolding insert_before
  insert_before-anchor = simp (==_ne l null l_ne, ==_ne q null q_ne, anchor)

-- The last link of a list that is not empty is an anchor, with its successor behind it.
record IsLast (s : Store) (q l : Ptr) (xs : List Ptr) (p n : Ptr) : Type 0 where
  ne : p ≢ null
  next : (s.links p).next ≡ n
  on : (s.links p).queue ≡ q
  apart : p ≢ l
  within : contains p xs ≡ true

module _ (s : Store) (q l : Ptr) (q_ne : q ≢ null) (l_ne : l ≢ null) where
  before_point :
      (x : Ptr) (xs ys : List Ptr)
      → IsQueue s q ((x ∷ xs) ++ ys)
      → contains l ((x ∷ xs) ++ ys) ≡ false
      → IsLast s q l (x ∷ xs) (last_or x xs) (head_or null ys)
  before_point x xs ys is new =
      let parts = Chain-split s.links q null (x ∷ xs) ys null is.chain in
      let z = Chain-last s.links q null x xs (head_or null ys) parts.0 in
      let out = (not_contains-append l (x ∷ xs) ys new).0 in
      record {
        ne = z.0;
        next = z.1;
        on = z.2;
        apart = ne_of_contains (last_or x xs) l (x ∷ xs) (contains-last_or x xs) out;
        within = contains-last_or x xs;
      }

  insert_after-Spliced :
      (xs ys : List Ptr)
      → (xs ≡ [] → ys ≡ [])
      → IsQueue s q (xs ++ ys)
      → contains l (xs ++ ys) ≡ false
      → Returns
          (LinksIn s q (last_or null xs) l (head_or null ys) q_ne l_ne)
          (insert_after q (last_or null xs) l s)
  insert_after-Spliced [] [] both is new =
      rw (insert_after-anchor s q null l q_ne l_ne (is_anchor-empty s q q_ne is))
        (link_after-single s q null l null q_ne l_ne refl refl is.nitems)
  insert_after-Spliced [] (y ∷ ys) both is new = cc (both refl)
  insert_after-Spliced (x ∷ xs) [] both is new =
      let at = before_point x xs [] is new in
      rw (insert_after-anchor s q _ l q_ne l_ne (is_anchor-on s q _ at.ne at.on)) (
        link_after-end s q _ l null q_ne l_ne at.ne at.apart at.next refl
          (is.last ∙ ap (last_or x) (append-nil xs)))
  insert_after-Spliced (x ∷ xs) (y ∷ ys) both is new =
      let at = before_point x xs (y ∷ ys) is new in
      let (node, c) = (Chain-split s.links q null (x ∷ xs) (y ∷ ys) null is.chain).1 in
      let away = (Distinct-split (x ∷ xs) (y ∷ ys) is.distinct).2 _ at.within in
      let z_ne = ne_of_contains (last_or y ys) _ (y ∷ ys) (contains-last_or y ys) away in
      rw (insert_after-anchor s q _ l q_ne l_ne (is_anchor-on s q _ at.ne at.on)) (
        link_after-middle s q _ l y q_ne l_ne at.ne at.apart at.next node.not_null
          (λ e. ne-head_or _ (y ∷ ys) at.ne away (sym e))
          (λ e. ne-head_or l (y ∷ ys) l_ne (not_contains-append l (x ∷ xs) (y ∷ ys) new).1 (sym e))
          (λ e. z_ne (sym (is.last ∙ last_or-append x xs y ys) ∙ e)))

  insert_before-Spliced :
      (xs ys : List Ptr)
      → (ys ≡ [] → xs ≡ [])
      → IsQueue s q (xs ++ ys)
      → contains l (xs ++ ys) ≡ false
      → Returns
          (LinksIn s q (last_or null xs) l (head_or null ys) q_ne l_ne)
          (insert_before q (head_or null ys) l s)
  insert_before-Spliced [] [] both is new =
      rw (insert_before-anchor s q null l q_ne l_ne (is_anchor-empty s q q_ne is))
        (link_before-single s q null l null q_ne l_ne refl refl is.nitems)
  insert_before-Spliced (x ∷ xs) [] both is new = cc (both refl)
  insert_before-Spliced [] (y ∷ ys) both is new =
      let node = is.chain.0 in
      let y_ne = λ (e : y ≡ l). ne-head_or l (y ∷ ys) l_ne new (sym e) in
      rw (insert_before-anchor s q y l q_ne l_ne (is_anchor-on s q y node.not_null node.queue))
        (link_before-start s q null l y q_ne l_ne node.not_null y_ne node.prev refl is.first)
  insert_before-Spliced (x ∷ xs) (y ∷ ys) both is new =
      let at = before_point x xs (y ∷ ys) is new in
      let node = (Chain-split s.links q null (x ∷ xs) (y ∷ ys) null is.chain).1.0 in
      let away = (Distinct-split (x ∷ xs) (y ∷ ys) is.distinct).2 _ at.within in
      let outs = not_contains-append l (x ∷ xs) (y ∷ ys) new in
      let y_ne = λ (e : y ≡ l). ne-head_or l (y ∷ ys) l_ne outs.1 (sym e) in
      let x_off = not_contains-append x xs (y ∷ ys) is.distinct.0 in
      rw (insert_before-anchor s q y l q_ne l_ne (is_anchor-on s q y node.not_null node.queue)) (
        link_before-middle s q _ l y q_ne l_ne node.not_null y_ne node.prev at.ne
          (ne-head_or _ (y ∷ ys) at.ne away) at.apart
          (λ e. ne-head_or x (y ∷ ys) is.chain.0.not_null x_off.1 (sym is.first ∙ e)))

-- A link that stands in no queue.
abbrev pub IsLoose : View → Ptr → Type 0
IsLoose v l = (k : Ptr) → k ≢ null → contains l (v k) ≡ false

-- The run succeeds, `q` holds `ws` afterwards and the other queues what they held.
abbrev pub Rewrites : Store → View → Ptr → List Ptr → ℕ → Store → Type 0
Rewrites s v q ws r t = (r ≡ queue_success) × Holds t (update v q ws) × SameObjects s t

module _ (s : Store) (v : View) (q l : Ptr) (xs ys : List Ptr) (q_ne : q ≢ null) (l_ne : l ≢ null)
    (all : Holds s v) (loose : IsLoose v l) (e : v q ≡ xs ++ ys) where
  holds_split : IsQueue s q (xs ++ ys)
  holds_split = subst (IsQueue s q) e (all q q_ne)

  out_of_split : contains l (xs ++ ys) ≡ false
  out_of_split = subst (λ (ws : List Ptr). contains l ws ≡ false) e (loose q q_ne)

  Spliced-Rewrites :
      (r : ℕ) (t : Store)
      → LinksIn s q (last_or null xs) l (head_or null ys) q_ne l_ne r t
      → Rewrites s v q (xs ++ l ∷ ys) r t
  unfolding update
  Spliced-Rewrites r t (done, sp) = (
    done,
    (λ k ne. elim (Bool-cases (k == q)) [
      | inl same ↦ rw same (
          subst (λ (j : Ptr). IsQueue t j (xs ++ l ∷ ys)) (sym ((==_iff k q).0 same))
            (Spliced-IsQueue s t q l xs ys l_ne holds_split out_of_split sp))
      | inr other ↦ rw other (
          Spliced-others s t q l xs ys l_ne holds_split out_of_split sp k (v k)
            (λ (j : k ≡ q). cc ((==_iff k q).1 j)) (loose k ne) (all k ne))
    ]),
    λ a ne. ground (arith, sp.links a ne),
  )

  -- `AQueueInsertAfter` puts a loose link behind the last link of `xs`, in a queue that holds
  -- `xs ++ ys`; NULL stands for the front of an empty queue. The other queues and the objects of
  -- all links stay.
  pub insert_after-append :
      (xs ≡ [] → ys ≡ [])
      → Returns (Rewrites s v q (xs ++ l ∷ ys)) (insert_after q (last_or null xs) l s)
  insert_after-append both =
      Returns-mono (insert_after-Spliced s q l q_ne l_ne xs ys both holds_split out_of_split)
        Spliced-Rewrites

  -- `AQueueInsertBefore` puts a loose link before the first link of `ys`, in a queue that holds
  -- `xs ++ ys`; NULL stands for the end of an empty queue. The other queues and the objects of all
  -- links stay.
  pub insert_before-append :
      (ys ≡ [] → xs ≡ [])
      → Returns (Rewrites s v q (xs ++ l ∷ ys)) (insert_before q (head_or null ys) l s)
  insert_before-append both =
      Returns-mono (insert_before-Spliced s q l q_ne l_ne xs ys both holds_split out_of_split)
        Spliced-Rewrites

module _ (s : Store) (v : View) (q l : Ptr) (q_ne : q ≢ null) (l_ne : l ≢ null) (all : Holds s v)
    (loose : IsLoose v l) where
  -- `AQueueInsertLast` succeeds on a loose link and a queue that are not NULL: the queue holds its
  -- list with the link at the end, and the other queues and the objects of all links stay.
  pub insert_last-snoc : Returns (Rewrites s v q (v q ++ l ∷ [])) (insert_last q l s)
  unfolding insert_last first_of last_of read_queue
  insert_last-snoc =
      simp (==_ne l null l_ne, ==_ne q null q_ne, (all q q_ne).last)
        (insert_after-append s v q l (v q) [] q_ne l_ne all loose (sym (append-nil (v q)))
          (λ e. refl))

  -- `AQueueInsertFirst` succeeds on a loose link and a queue that are not NULL: the queue holds its
  -- list with the link in front, and the other queues and the objects of all links stay.
  pub insert_first-cons : Returns (Rewrites s v q (l ∷ v q)) (insert_first q l s)
  unfolding insert_first first_of last_of read_queue
  insert_first-cons =
      simp (==_ne l null l_ne, ==_ne q null q_ne, (all q q_ne).first)
        (insert_before-append s v q l [] (v q) q_ne l_ne all loose refl (λ e. refl))
