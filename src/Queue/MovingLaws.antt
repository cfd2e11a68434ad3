-- ===== src/Queue/MovingLaws.antt =====
-- AQueueMoveAfter of os/queue.c, as the scheduler calls it: the first link goes behind the last.
use lab.Prelude.{
  ◌≡◌, ◌≢◌, refl, sym, subst, ◌∙◌, Bool, true, false, inl, inr, List, [], ◌∷◌, ◌++◌, arith, ◌==◌,
  if◌then◌else◌, Bool-cases, ==_iff, ==_self, ==_ne, length-append,
}
use lab.Run.{Returns, returns, ok, Returns-mono}
use lab.Queue.Store.{Ptr, null, Link, Store, update, queue_success}
use lab.Queue.InsertionLaws.{Rewrites}
use lab.Queue.Moving.{move_links, move_after}
use lab.Queue.Shape.{
  Agree, Chain, Links, last_or, IsQueue, View, Holds, Chain-queue, Chain-frame, Chain-last,
  Chain-append, contains-last_or, last_or-append, ne_of_contains, Distinct-append,
  Chain-relink_first, Chain-relink_last,
}
use lab.Queue.Inserted.{not_contains, ne-head_or, ne-last_or}

-- The links and the header after the link `x` has gone from before `y` to behind `z`.
pub record Rotated (s : Store) (q x y z : Ptr) (t : Store) : Type 0 where
  pub links :
      (a : Ptr)
      → t.links a ≡ (
          if a == x then record (s.links a) { next = null; prev = z } else record (s.links a) {
            next = if a == z then x else (s.links a).next;
            prev = if a == y then null else (s.links a).prev;
          })
  pub header : t.queues q ≡ record (s.queues q) { first = y; last = x }
  pub others : (k : Ptr) → k ≢ q → t.queues k ≡ s.queues k

module _ (s : Store) (q x y z : Ptr) (q_ne : q ≢ null) (x_ne : x ≢ null) (y_ne : y ≢ null)
    (z_ne : z ≢ null) (xy : x ≢ y) (xz : x ≢ z) (first : (s.queues q).first ≡ x)
    (last : (s.queues q).last ≡ z) (next : (s.links x).next ≡ y) (prev : (s.links x).prev ≡ null)
    (end : (s.links z).next ≡ null) where
  move_links-Rotated :
      Returns (λ r t. (r ≡ queue_success) × Rotated s q x y z t) (move_links q z x s)
  unfolding move_links update
  move_links-Rotated = elim (Bool-cases (z == y)) [
    | inl e ↦
        let zy = (==_iff z y).0 e in
        let end' = subst (λ (a : Ptr). (s.links a).next ≡ null) zy end in
        simp
          (
            ==_ne q null q_ne,
            ==_ne x null x_ne,
            ==_ne y null y_ne,
            ==_ne x y xy,
            ==_ne y x (λ j. xy (sym j)),
            ==_self x,
            ==_self q,
            ==_self y,
            first,
            last,
            next,
            prev,
            zy,
            end',
          )
          (returns (
            refl,
            record {
              links = λ a. ground arith;
              header = ground arith;
              others = λ k ne. ground arith;
            },
          ))
    | inr e ↦
        simp
          (
            ==_ne q null q_ne,
            ==_ne x null x_ne,
            ==_ne y null y_ne,
            ==_ne z null z_ne,
            ==_ne x y xy,
            ==_ne x z xz,
            ==_ne z x (λ j. xz (sym j)),
            ==_self x,
            ==_self q,
            ==_self z,
            first,
            last,
            next,
            prev,
            end,
            e,
          )
          (returns (
            refl,
            record {
              links = λ a. ground arith;
              header = ground arith;
              others = λ k ne. ground arith;
            },
          ))
  ]

two_writes :
    (r : Link) (x : Ptr) (b c : Bool)
    → record r { next = if b then x else r.next; prev = if c then null else r.prev } ≡ (
        let r' = if c then record r { prev = null } else r in
        if b then record r' { next = x } else r')
two_writes r x true true = refl
two_writes r x true false = refl
two_writes r x false true = refl
two_writes r x false false = refl

-- The chain after the move: first the links lose `x` in front, then they get it behind.
module _ (s t : Store) (q x y : Ptr) (ws : List Ptr) (is : IsQueue s q (x ∷ y ∷ ws))
    (ro : Rotated s q x y (last_or y ws) t) where
  cut : Links
  cut a = if a == y then record (s.links a) { prev = null } else s.links a

  x_ne-z : x ≢ last_or y ws
  x_ne-z e = ne_of_contains (last_or y ws) x (y ∷ ws) (contains-last_or y ws) is.distinct.0 (sym e)

  Chain-cut : Chain cut q null (y ∷ ws) null
  unfolding cut
  Chain-cut =
      Chain-relink_first s.links q cut x null (y ∷ ws) null is.chain.1 is.distinct.1 (λ a i. refl)

  Chain-moved : Chain t.links q null (y ∷ ws) x
  unfolding cut
  Chain-moved = Chain-relink_last cut q t.links null (y ∷ ws) null x Chain-cut is.distinct.1 λ a i.
      let off = ne_of_contains a x (y ∷ ws) i is.distinct.0 in
      ro.links a ∙ rw (==_ne a x off) (two_writes (s.links a) x (a == last_or y ws) (a == y))

  pub Rotated-IsQueue : IsQueue t q (y ∷ ws ++ x ∷ [])
  Rotated-IsQueue = record {
    first = rw ro.header refl;
    last = rw ro.header (sym (last_or-append null (y ∷ ws) x []));
    nitems = rw (ro.header, is.nitems, length-append {0} (y ∷ ws) (x ∷ [])) (ground arith);
    chain = Chain-append t.links q null (y ∷ ws) (x ∷ []) null Chain-moved (
      record {
        not_null = is.chain.0.not_null;
        prev = rw (ro.links x, ==_self x) refl;
        next = rw (ro.links x, ==_self x) refl;
        queue = rw (ro.links x, ==_self x) is.chain.0.queue;
      },
      tt,
    );
    distinct =
        Distinct-append (y ∷ ws) (x ∷ []) is.distinct.1 (refl, tt)
          λ a i. let off = ne_of_contains a x (y ∷ ws) i is.distinct.0 in rw (==_ne a x off) refl;
  }

  Rotated-frame :
      (k : Ptr) (zs : List Ptr) → k ≢ q → Chain s.links k null zs null → Agree s.links t.links zs
  Rotated-frame k zs ne c a i =
      let (on, a_ne) = Chain-queue s.links k null zs null a c i in
      let off : (s.links a).queue ≢ q = λ e. ne (sym on ∙ e) in
      let out = not_contains s.links q null (x ∷ y ∷ ws) null a is.chain off in
      let here = ne-head_or a (x ∷ y ∷ ws) a_ne out in
      let next = ne-head_or a (y ∷ ws) a_ne (ground arith) in
      let end = ne-last_or a (x ∷ y ∷ ws) a_ne out in
      ro.links a ∙ rw (==_ne a x here, ==_ne a y next, ==_ne a (last_or y ws) end)

  pub Rotated-others : (k : Ptr) (zs : List Ptr) → k ≢ q → IsQueue s k zs → IsQueue t k zs
  Rotated-others k zs ne other = record {
    first = rw (ro.others k ne) other.first;
    last = rw (ro.others k ne) other.last;
    nitems = rw (ro.others k ne) other.nitems;
    chain =
        Chain-frame s.links k t.links null zs null other.chain (Rotated-frame k zs ne other.chain);
    distinct = other.distinct;
  }

module _ (s : Store) (v : View) (q x : Ptr) (q_ne : q ≢ null) (all : Holds s v) where
  -- Moving the only link behind itself changes nothing.
  pub move_after-single : v q ≡ x ∷ [] → move_after q x x s ≡ ok queue_success s
  unfolding move_after
  move_after-single e =
      let node = (subst (IsQueue s q) e (all q q_ne)).chain.0 in
      simp (==_ne q null q_ne, ==_ne x null node.not_null, node.queue, ==_self q, ==_self x)

  -- `AQueueMoveAfter (q, AQueueLast (q), AQueueFirst (q))` brings the first link of two or more to
  -- the end and leaves the other queues alone.
  pub move_after-rotate :
      (y : Ptr) (ws : List Ptr)
      → v q ≡ x ∷ y ∷ ws
      → Returns (Rewrites s v q (y ∷ ws ++ x ∷ [])) (move_after q (last_or y ws) x s)
  unfolding move_after update
  move_after-rotate y ws e =
      let is = subst (IsQueue s q) e (all q q_ne) in
      let node = is.chain.0 in
      let node' = is.chain.1.0 in
      let end = Chain-last s.links q x y ws null is.chain.1 in
      let xy = ne-head_or x (y ∷ ws) node.not_null is.distinct.0 in
      let xz = ne-last_or x (y ∷ ws) node.not_null is.distinct.0 in
      simp
        (
          ==_ne q null q_ne,
          ==_ne x null node.not_null,
          node.queue,
          ==_self q,
          ==_ne _ null end.0,
          end.2,
          ==_ne _ x (λ j. xz (sym j)),
        )
        (Returns-mono
          (move_links-Rotated s q x y (last_or y ws) q_ne node.not_null node'.not_null end.0 xy xz
            is.first is.last node.next node.prev end.1)
          λ r t (done, ro). (
            done,
            (λ k ne. elim (Bool-cases (k == q)) [
              | inl same ↦ rw same (
                  subst (λ (j : Ptr). IsQueue t j (y ∷ ws ++ x ∷ [])) (sym ((==_iff k q).0 same))
                    (Rotated-IsQueue s t q x y ws is ro))
              | inr other ↦ rw other (
                  Rotated-others s t q x y ws is ro k (v k) (λ (j : k ≡ q). cc ((==_iff k q).1 j))
                    (all k ne))
            ]),
            λ a ne. ground (arith, ro.links a),
          ))
