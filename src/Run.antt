-- ===== src/Run.antt =====
-- How a kernel routine ends: with a value and a new state, by a read or write through NULL, by
-- exitsim() (which never returns), or, where a loop is modelled on fuel, with the fuel used up.
use lab.Prelude.{ℕ, ◌≡◌, refl, Bool, true, not, ◌==◌, if◌then◌else◌}

pub data Run (S A : Type 0) : Type 0 where
  ok : A → S → Run S A
  fault : Run S A
  halted : Run S A
  out_of_fuel : Run S A

abbrev pub Cmd : Type 0 → Type 0 → Type 0
Cmd S A = S → Run S A

abbrev pub pure : {S A : Type 0} → A → Cmd S A
pure = ok

abbrev pub exitsim : {S A : Type 0} → Cmd S A
exitsim s = halted

abbrev pub starved : {S A : Type 0} → Cmd S A
starved s = out_of_fuel

module _ {S A B : Type 0} where
  abbrev pub and_then : Run S A → (A → Cmd S B) → Run S B
  and_then (ok a s) k = k a s
  and_then fault k = fault
  and_then halted k = halted
  and_then out_of_fuel k = out_of_fuel

  infixl 5 ◌>>=◌ ◌>>◌
  abbrev pub ◌>>=◌ : Cmd S A → (A → Cmd S B) → Cmd S B
  ◌>>=◌ m k s = and_then (m s) k

  abbrev pub ◌>>◌ : Cmd S A → Cmd S B → Cmd S B
  ◌>>◌ m n s = and_then (m s) (λ _. n)

-- `if (b) m;`
abbrev pub when : {S : Type 0} → Bool → Cmd S (Unit {0}) → Cmd S (Unit {0})
when b m = if b then m else pure tt

-- Total correctness of a run: it ends with a value and a state that satisfy `P`.
pub data Returns {S A : Type 0} (P : A → S → Type 0) : Run S A → Type 0 where
  returns : {a : A} {s : S} → P a s → Returns P (ok a s)

module _ {S A : Type 0} {P : A → S → Type 0} where
  pub Returns-and_then :
      {B : Type 0} {Q : B → S → Type 0} {r : Run S A} {k : A → Cmd S B}
      → Returns P r
      → ((a : A) (s : S) → P a s → Returns Q (k a s))
      → Returns Q (and_then r k)
  Returns-and_then (returns p) next = next _ _ p

  pub Returns-mono :
      {Q : A → S → Type 0} {r : Run S A}
      → Returns P r
      → ((a : A) (s : S) → P a s → Q a s)
      → Returns Q r
  Returns-mono (returns p) weaken = returns (weaken _ _ p)

-- `if (status != SUCCESS) exitsim();` where the status is the success code `c`.
pub Returns-go_on :
    {S A : Type 0} {P : A → S → Type 0} (r c : ℕ) (m : Cmd S A) (s : S)
    → r ≡ c
    → (c == c) ≡ true
    → Returns P (m s)
    → Returns P ((if not (r == c) then exitsim else m) s)
Returns-go_on r c m s e refl_c h = rw (e, refl_c) h

-- A run that returns, as an equation.
pub Returns-run :
    {S A : Type 0} {P : A → S → Type 0} {r : Run S A}
    → Returns P r
    → (a : A) × (s : S) × P a s × (r ≡ ok a s)
Returns-run (returns {a} {s} p) = (a, s, p, refl)

pub and_then_assoc :
    {S A B C : Type 0} (r : Run S A) (f : A → Cmd S B) (g : B → Cmd S C)
    → and_then r (λ a s. and_then (f a s) g) ≡ and_then (and_then r f) g
and_then_assoc (ok a s) f g = refl
and_then_assoc fault f g = refl
and_then_assoc halted f g = refl
and_then_assoc out_of_fuel f g = refl
