-- ===== src/Queue/Examples.antt =====
-- The laws of os/queue.c at concrete stores, and runs of the routines.
use lab.Prelude.{
  ◌≡◌, refl, subst, inl, inr, [], ◌∷◌, arith, ◌==◌, if◌then◌else◌, Bool-cases, ==_iff,
}
use lab.Prelude.Int.{pos}
use lab.Run.{Returns}
use lab.Queue.Store.{Ptr, null, Store, queue_success}
use lab.Queue.Insertion.{insert_after}
use lab.Queue.Removal.{remove}
use lab.Queue.Shape.{View, Holds, Chain}
use lab.Queue.Inserted.{SameObjects}
use lab.Queue.InsertionLaws.{IsLoose, Rewrites, insert_after-append}
use lab.Queue.RemovalLaws.{returned, remove-returned}
use lab.Queue.InitLaws.{empty-IsQueue}

-- The links 7, 8 and 9 stand in the queue `q`, and carry the objects 70, 80 and 90.
abbrev trio : Ptr → Store
trio q = record {
  links = λ a.
      if a == 7
      then record { next = 8; prev = 0; queue = q; object = 70 }
      else if a == 8
      then record { next = 9; prev = 7; queue = q; object = 80 }
      else if a == 9
      then record { next = 0; prev = 8; queue = q; object = 90 }
      else record { next = 0; prev = 0; queue = 0; object = 0 };
  queues = λ k.
      if k == q
      then record { first = 7; last = 9; nitems = pos 3 }
      else record { first = 0; last = 0; nitems = pos 0 };
}

abbrev trio_view : Ptr → View
trio_view q k = if k == q then 7 ∷ 8 ∷ 9 ∷ [] else []

trio-Holds : (q : Ptr) → Holds (trio q) (trio_view q)
trio-Holds q k ne = elim (Bool-cases (k == q)) [
  | inl same ↦ rw same (record {
    first = rw same refl;
    last = rw same refl;
    nitems = rw same refl;
    chain =
        subst (λ (j : Ptr). Chain (trio j).links k null (7 ∷ 8 ∷ 9 ∷ []) null) ((==_iff k q).0 same)
          (
            record { not_null = omega arith; prev = refl; next = refl; queue = refl },
            (
              record { not_null = omega arith; prev = refl; next = refl; queue = refl },
              (record { not_null = omega arith; prev = refl; next = refl; queue = refl }, tt),
            ),
          );
    distinct = (refl, (refl, (refl, tt)));
  })
  | inr other ↦ rw other (empty-IsQueue (trio q) k (rw other refl))
]

trio-IsLoose : (q : Ptr) → IsLoose (trio_view q) 4
trio-IsLoose q k ne = ground arith

insert_after-append_example :
    Returns (Rewrites (trio 5) (trio_view 5) 5 (7 ∷ 4 ∷ 8 ∷ 9 ∷ [])) (insert_after 5 7 4 (trio 5))
insert_after-append_example =
    insert_after-append (trio 5) (trio_view 5) 5 4 (7 ∷ []) (8 ∷ 9 ∷ []) (omega arith) (omega arith)
      (trio-Holds 5) (trio-IsLoose 5) refl (λ e. cc)

remove-returned_example :
    Returns
      (λ r t.
        (r ≡ (queue_success, null))
        × Holds t (returned (trio_view 5) 5 8 (7 ∷ []) (9 ∷ []))
        × SameObjects (trio 5) t)
      (remove 8 (trio 5))
remove-returned_example =
    remove-returned (trio 5) (trio_view 5) 5 8 (7 ∷ []) (9 ∷ []) (omega arith) (trio-Holds 5) refl
