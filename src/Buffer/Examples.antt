-- ===== src/Buffer/Examples.antt =====
-- The laws of the circular buffer at a buffer whose two items stand on both sides of its end.
use lab.Prelude.{◌≡◌, refl, true, [], ◌∷◌, arith, ◌==◌, if◌then◌else◌}
use lab.Buffer.Ring.{Ring, insert, remove_item}
use lab.Buffer.RingLaws.{IsRing, insert-append, remove_item-head}

abbrev wrapped : Ring
wrapped = record { w_idx = 1; r_idx = 31; buffer = λ i. if i == 31 then 48 else 49 }

wrapped-IsRing : IsRing wrapped (48 ∷ 49 ∷ [])
wrapped-IsRing = record {
  in_range = omega arith;
  room = omega arith;
  stands = (refl, (refl, refl));
}

insert-append_example :
    ((insert 50 wrapped).0 ≡ true) × IsRing (insert 50 wrapped).1 (48 ∷ 49 ∷ 50 ∷ [])
insert-append_example = insert-append wrapped (48 ∷ 49 ∷ []) 50 wrapped-IsRing (omega arith)

remove_item-head_example :
    ((remove_item 48 wrapped).0 ≡ true) × IsRing (remove_item 48 wrapped).1 (49 ∷ [])
remove_item-head_example = remove_item-head wrapped 48 (49 ∷ []) wrapped-IsRing
