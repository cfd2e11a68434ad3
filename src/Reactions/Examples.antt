-- ===== src/Reactions/Examples.antt =====
-- The laws of apps/q5 at a run: one N3 is injected and reacts.
use lab.Prelude.{ℕ, ◌+◌, ◌*◌, ◌≡◌, refl, List, [], ◌∷◌}
use lab.Reactions.Atmosphere.{
  Op, take, give, n3, n, Counts, taken, given, Reaches, here, then, nothing, programs, producer,
  consumer, injected, react, expected_r3, r1, r2, r3, i_h2o,
}
use lab.Reactions.Progress.{expected_r3-Fits}
use lab.Reactions.Completion.{programs_complete}
use lab.Reactions.Conservation.{finished, programs-atoms}

-- The counts after the run.
abbrev three_n : Counts
three_n = record { of_n3 = 0; of_h2o = 0; of_n = 3; of_h2 = 0; of_o2 = 0; of_no2 = 0 }

abbrev some_n : ℕ → ℕ → Counts
some_n a b = record { of_n3 = a; of_h2o = 0; of_n = b; of_h2 = 0; of_o2 = 0; of_no2 = 0 }

abbrev giving : List Op → List (List Op)
giving ops = [] ∷ [] ∷ ops ∷ [] ∷ [] ∷ []

one_reaction : Reaches nothing (programs 1 0 1 0 0) three_n finished
unfolding programs producer consumer injected react expected_r3
one_reaction =
    then nothing (some_n 1 0) three_n []
      ([] ∷ (take n3 ∷ give n ∷ give n ∷ give n ∷ []) ∷ [] ∷ [] ∷ []) (give n3 ∷ []) [] finished
      (given n3 nothing [])
      (then (some_n 1 0) (some_n 0 0) three_n ([] ∷ [] ∷ []) ([] ∷ [] ∷ [])
        (take n3 ∷ give n ∷ give n ∷ give n ∷ []) (give n ∷ give n ∷ give n ∷ []) finished
        (taken n3 0 (some_n 1 0) (give n ∷ give n ∷ give n ∷ []) refl)
        (then (some_n 0 0) (some_n 0 1) three_n ([] ∷ [] ∷ []) ([] ∷ [] ∷ [])
          (give n ∷ give n ∷ give n ∷ []) (give n ∷ give n ∷ []) finished
          (given n (some_n 0 0) (give n ∷ give n ∷ []))
          (then (some_n 0 1) (some_n 0 2) three_n ([] ∷ [] ∷ []) ([] ∷ [] ∷ [])
            (give n ∷ give n ∷ []) (give n ∷ []) finished (given n (some_n 0 1) (give n ∷ []))
            (then (some_n 0 2) three_n three_n ([] ∷ [] ∷ []) ([] ∷ [] ∷ []) (give n ∷ []) []
              finished (given n (some_n 0 2) []) (here three_n finished)))))

programs-atoms_example : (3 * 0 + 3 + 0 ≡ 3 * 1) × (2 * 0 + 2 * 0 ≡ 2 * 0) × (0 + 2 * 0 + 2 * 0 ≡ 0)
programs-atoms_example = programs-atoms 1 0 1 0 0 three_n one_reaction

-- What is to do once the first of two N3 is injected, with two H2O to come.
abbrev after_one : List (List Op)
after_one = (give n3 ∷ []) ∷ producer i_h2o 2 ∷ consumer r1 2 ∷ consumer r2 1 ∷ consumer r3 1 ∷ []

one_injection : Reaches nothing (programs 2 2 2 1 1) (some_n 1 0) after_one
unfolding programs producer injected expected_r3
one_injection =
    then nothing (some_n 1 0) (some_n 1 0) []
      (producer i_h2o 2 ∷ consumer r1 2 ∷ consumer r2 1 ∷ consumer r3 1 ∷ [])
      (give n3 ∷ give n3 ∷ []) (give n3 ∷ []) after_one (given n3 nothing (give n3 ∷ []))
      (here (some_n 1 0) after_one)

programs_complete_example : (e : Counts) × Reaches (some_n 1 0) after_one e finished
unfolding expected_r3
programs_complete_example =
    programs_complete 2 2 2 1 1 (some_n 1 0) after_one (expected_r3-Fits 2 2) one_injection
