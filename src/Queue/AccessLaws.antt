-- ===== src/Queue/AccessLaws.antt =====
-- The access functions of os/queue.c on a queue that holds a list.
use lab.Prelude.{◌≡◌, ◌≢◌, suc, length, true, ◌+◌, false, List, [], ◌∷◌, ==_ne, ◌==◌, arith}
use lab.Run.{ok}
use lab.Queue.Store.{Ptr, null, Store, first_of, last_of, is_empty}
use lab.Queue.Shape.{IsQueue, last_or, head_or}

module _ (s : Store) (q : Ptr) (q_ne : q ≢ null) where
  pub is_empty-nil : IsQueue s q [] → is_empty q s ≡ ok true s
  unfolding is_empty
  is_empty-nil is = simp (==_ne q null q_ne, is.nitems)

  pub is_empty-cons : (x : Ptr) (xs : List Ptr) → IsQueue s q (x ∷ xs) → is_empty q s ≡ ok false s
  unfolding is_empty
  is_empty-cons x xs is =
      let some_left : (suc (length xs) + 0 == 0) ≡ false = ground arith in
      simp (==_ne q null q_ne, is.nitems, some_left)

  pub first_of-head : (xs : List Ptr) → IsQueue s q xs → first_of q s ≡ ok (head_or null xs) s
  unfolding first_of
  first_of-head xs is = simp (==_ne q null q_ne, is.first)

  pub last_of-last : (xs : List Ptr) → IsQueue s q xs → last_of q s ≡ ok (last_or null xs) s
  unfolding last_of
  last_of-last xs is = simp (==_ne q null q_ne, is.last)
