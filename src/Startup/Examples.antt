-- ===== src/Startup/Examples.antt =====
-- The laws of get_argument at the arguments "ls" and "a".
use lab.Prelude.{◌≡◌, ◌≤◌, refl, [], ◌∷◌, length, arith, ◌==◌, if◌then◌else◌}
use lab.Run.{Returns, ok}
use lab.Text.Strings.{Bytes}
use lab.Startup.Arguments.{Scanner, argument_offsets}
use lab.Startup.ArgumentLaws.{argument_offsets-bounded, argument_offsets-Packed}

abbrev ls_a : Bytes
ls_a p = if p == 50 then 108 else if p == 51 then 115 else if p == 53 then 97 else 0

abbrev scanner : Scanner
scanner = record { text = ls_a; str = 0; location = 7 }

argument_offsets-bounded_example :
    Returns (λ offs _. length offs ≤ 102) (argument_offsets 101 50 scanner)
argument_offsets-bounded_example = argument_offsets-bounded scanner 50

argument_offsets-Packed_example :
    argument_offsets 101 50 scanner
    ≡ ok (0 ∷ 3 ∷ 0 ∷ []) (record { text = ls_a; str = 50; location = 5 })
argument_offsets-Packed_example =
    argument_offsets-Packed 101 scanner 50 (108 ∷ 115 ∷ []) ((97 ∷ []) ∷ []) (λ e. omega (arith, e))
      (
        (refl, (λ e. omega (arith, e)), (refl, (λ e. omega (arith, e)), refl)),
        (λ e. ground (arith, e)),
        ((refl, (λ e. omega (arith, e)), refl), (λ e. ground (arith, e)), refl),
      )
      (omega arith) (omega arith)
