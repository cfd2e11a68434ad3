-- ===== src/Text/Examples.antt =====
-- The laws of os/misc.c at concrete strings.
use lab.Prelude.{
  ℕ, Option, some, none, ◌≡◌, ◌↔◌, refl, true, [], ◌∷◌, arith, take, starts_with, ◌==◌,
  if◌then◌else◌,
}
use lab.Prelude.Int.{ℤ, pos, negsuc}
use lab.Run.{Returns, ok, out_of_fuel, ◌>>=◌}
use lab.Text.Strings.{Bytes, load, store, dstrncmp, dmindex}
use lab.Text.Numbers.{
  ditoa, dstrtol, power_above, write_digits, skip_space, isspace, read_prefix, read_digits,
  digit_value,
}
use lab.Queue.Store.{update}
use lab.Text.StringLaws.{dstrncmp-starts_with, dmindex-stuck}

-- "dlx" stands at the address 10 and "dl" at 20.
abbrev words : Bytes
words a =
    if a == 10
    then 100
    else if a == 11
    then 108
    else if a == 12
    then 120
    else if a == 20
    then 100
    else if a == 21
    then 108
    else 0

dstrncmp-starts_with_example :
    Returns
      (λ r t.
        (t ≡ words)
        × ((r ≡ pos 0) ↔ (starts_with (take 4 (100 ∷ 108 ∷ [])) (100 ∷ 108 ∷ 120 ∷ []) ≡ true)))
      (dstrncmp 10 20 4 words)
dstrncmp-starts_with_example =
    dstrncmp-starts_with words 10 20 4 (100 ∷ 108 ∷ 120 ∷ []) (100 ∷ 108 ∷ [])
      (refl, omega arith, (refl, omega arith, (refl, omega arith, refl)))
      (refl, omega arith, (refl, omega arith, refl))

dmindex-stuck_example : dmindex 9 1000 12 20 words ≡ out_of_fuel
dmindex-stuck_example =
    dmindex-stuck words 12 20 9 1000 (100 ∷ 108 ∷ []) (omega arith)
      (refl, omega arith, (refl, omega arith, refl)) refl (omega arith)

-- A number that is written is read again.
abbrev written_and_read : ℤ → ℕ → Option ℤ
written_and_read n base = elim ((ditoa n 100 >>= λ _. dstrtol 12 100 base) words) [
  | ok a m ↦ some a.0
  | _ ↦ none
]

written_and_read_4095 : written_and_read (pos 4095) 10 ≡ some (pos 4095)
unfolding ditoa dstrtol power_above write_digits skip_space isspace read_prefix read_digits
    digit_value load store update
written_and_read_4095 = refl

-- The digits of a negative number are lost.
written_and_read_minus_5 : written_and_read (negsuc 4) 10 ≡ some (pos 0)
unfolding ditoa dstrtol skip_space isspace read_prefix read_digits digit_value load store update
written_and_read_minus_5 = refl
