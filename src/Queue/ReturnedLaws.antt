-- ===== src/Queue/ReturnedLaws.antt =====
-- The lists once AQueueRemove of os/queue.c has taken a link from a queue.
use lab.Prelude.{◌≡◌, ◌≢◌, refl, sym, List, [], ◌∷◌, ◌++◌, ==_self, ==_ne}
use lab.Queue.Store.{Ptr, update, free_links}
use lab.Queue.Shape.{View, head_or}
use lab.Queue.RemovalLaws.{returned}

-- The first free link is there, whether or not a link was free before.
pub snoc-cons : (l : Ptr) (xs : List Ptr) → (rest : List Ptr) × (xs ++ l ∷ [] ≡ head_or l xs ∷ rest)
snoc-cons l [] = ([], refl)
snoc-cons l (x ∷ xs) = (xs ++ l ∷ [], refl)

module _ (v : View) (q l : Ptr) (xs ys : List Ptr) where
  pub returned-other : (j : Ptr) → j ≢ free_links → j ≢ q → returned v q l xs ys j ≡ v j
  unfolding update
  returned-other j j_free j_q = rw (==_ne j free_links j_free, ==_ne j q j_q) refl

  pub returned-here : q ≢ free_links → returned v q l xs ys q ≡ xs ++ ys
  unfolding update
  returned-here q_free = rw (==_ne q free_links q_free, ==_self q) refl

  pub returned-free : q ≢ free_links → returned v q l xs ys free_links ≡ v free_links ++ l ∷ []
  unfolding update
  returned-free q_free = rw (==_ne free_links q (λ x. q_free (sym x))) refl
