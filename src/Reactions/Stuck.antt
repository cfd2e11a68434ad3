-- ===== src/Reactions/Stuck.antt =====
-- The processes of apps/q5 that cannot take their next operation.
use lab.Prelude.{ℕ, zero, suc, ◌≡◌, ◌⊎◌, inl, inr, refl, List, [], ◌∷◌, ◌++◌}
use lab.Reactions.Atmosphere.{
  Molecule, Op, take, give, Injector, producer, Counts, count, with_count, Steps, taken, given,
}
use lab.Reactions.Suffixes.{Suffix, producer-free}

-- A process that cannot step: it has ended, or waits for a molecule that is not there.
pub data Stuck (c : Counts) : List Op → Type 0 where
  ended : Stuck c []
  waits : (m : Molecule) (ops : List Op) → count m c ≡ 0 → Stuck c (take m ∷ ops)

abbrev pub AllStuck : Counts → List (List Op) → Type 0
AllStuck c [] = Unit {0}
AllStuck c (p ∷ ps) = Stuck c p × AllStuck c ps

-- One of the processes can take its next operation.
pub data CanStep (c : Counts) : List (List Op) → Type 0 where
  steps :
      (before after : List (List Op)) (ops rest : List Op) (d : Counts)
      → Steps c ops d rest
      → CanStep c (before ++ ops ∷ after)

Steps-or-Stuck :
    (c : Counts) (p : List Op) → ((d : Counts) × (rest : List Op) × Steps c p d rest) ⊎ Stuck c p
Steps-or-Stuck c [] = inr ended
Steps-or-Stuck c (give m ∷ ops) = inl (with_count m (suc (count m c)) c, ops, given m c ops)
Steps-or-Stuck c (take m ∷ ops) = go (count m c) refl
  where
    go :
        (k : ℕ)
        → count m c ≡ k
        → ((d : Counts) × (rest : List Op) × Steps c (take m ∷ ops) d rest) ⊎ Stuck c (take m ∷ ops)
    go zero e = inr (waits m ops e)
    go (suc k) e = inl (with_count m k c, ops, taken m k c ops e)

CanStep-behind :
    (c : Counts) (p : List Op) (ps : List (List Op)) → CanStep c ps → CanStep c (p ∷ ps)
CanStep-behind c p _ (steps before after ops rest d step) = steps (p ∷ before) after ops rest d step

pub CanStep-or-AllStuck : (c : Counts) (ps : List (List Op)) → CanStep c ps ⊎ AllStuck c ps
CanStep-or-AllStuck c [] = inr tt
CanStep-or-AllStuck c (p ∷ ps) = elim (Steps-or-Stuck c p) [
  | inl (d, rest, step) ↦ inl (steps [] ps p rest d step)
  | inr stuck ↦ elim (CanStep-or-AllStuck c ps) [
    | inl can ↦ inl (CanStep-behind c p ps can)
    | inr others ↦ inr (stuck, others)
  ]
]

pub producer-ended :
    (c : Counts) (i : Injector) (k : ℕ) (p : List Op) → Stuck c p → Suffix p (producer i k) → p ≡ []
producer-ended c i k _ ended s = refl
producer-ended c i k _ (waits m ops e) s = elim (producer-free i k m ops s) [ ]
