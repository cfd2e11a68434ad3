-- ===== src/Reactions/Progress.antt =====
-- The processes of apps/q5 never block each other.
use lab.Prelude.{ℕ, ◌*◌, ◌/◌, ◌≤◌, ◌≡◌, ◌⊎◌, inl, inr, refl, subst, List, [], ◌∷◌, arith}
use lab.Reactions.Atmosphere.{
  Molecule, n3, h2o, n, o2, Op, take, r1, r2, r3, react, consumer, i_n3, i_h2o, injected,
  expected_r3, programs, Counts, count, Reaches, nothing,
}
use lab.Reactions.Conservation.{
  Reaches-balanced, finished, producer-weight, times_0, times_1, times_2, times_3,
}
use lab.Reactions.Suffixes.{
  Suffix, Suffixes, no_process, and_process, Reaches-Suffixes, give-shrinks, r1-waits, r2-waits,
  r3-waits,
}
use lab.Reactions.Kinds.{
  only_n3, only_h2o, only_n, only_o2, consumer-weight, weigh-n3, weigh-h2o, weigh-n, weigh-o2,
}
use lab.Reactions.Stuck.{
  Stuck, ended, waits, AllStuck, CanStep, CanStep-or-AllStuck, producer-ended,
}

-- The reactions are no more than there are molecules for: the first takes at most the N3 that are
-- injected, the second two H2O each, and the third one N of the first and one O2 of the second each.
pub record Fits (a b c1 c2 c3 : ℕ) : Type 0 where
  pub first : c1 ≤ a
  pub second : 2 * c2 ≤ b
  pub nitrogens : c3 ≤ 3 * c1
  pub oxygens : c3 ≤ c2

-- The counts that makeprocs.c computes fit.
pub expected_r3-Fits : (a b : ℕ) → Fits a b a (b / 2) (expected_r3 a b)
unfolding expected_r3
expected_r3-Fits a b = record {
  first = omega arith;
  second = omega arith;
  nitrogens = ground arith;
  oxygens = ground arith;
}

module _ (a b c1 c2 c3 : ℕ) (fits : Fits a b c1 c2 c3) (d : Counts) where
  -- The run from the start to the counts `d` and the given processes.
  Run : List (List Op) → Type 0
  Run qs = Reaches nothing (programs a b c1 c2 c3) d qs

  r1-ended :
      (p3 p4 p5 : List Op)
      → Run ([] ∷ [] ∷ p3 ∷ p4 ∷ p5 ∷ [])
      → Suffix p3 (consumer r1 c1)
      → Suffix p4 (consumer r2 c2)
      → Suffix p5 (consumer r3 c3)
      → Stuck d p3
      → p3 ≡ []
  unfolding Run programs react injected
  r1-ended _ p4 p5 run s3 s4 s5 ended = refl
  r1-ended _ p4 p5 run s3 s4 s5 (waits m ops e) =
      let kind = r1-waits c1 m ops s3 in
      let run' = subst (λ (x : Molecule). Run ([] ∷ [] ∷ (take x ∷ ops) ∷ p4 ∷ p5 ∷ [])) kind run in
      let empty : d.of_n3 ≡ 0 = subst (λ (x : Molecule). count x d ≡ 0) kind e in
      absurd (
        omega (
          arith,
          empty,
          weigh-n3 d,
          Reaches-balanced only_n3 nothing d (programs a b c1 c2 c3)
              ([] ∷ [] ∷ (take n3 ∷ ops) ∷ p4 ∷ p5 ∷ []) run',
          producer-weight only_n3 i_n3 a,
          producer-weight only_n3 i_h2o b,
          consumer-weight only_n3 r1 c1,
          consumer-weight only_n3 r2 c2,
          consumer-weight only_n3 r3 c3,
          give-shrinks only_n3 (take m ∷ ops) (consumer r1 c1) s3,
          give-shrinks only_n3 p4 (consumer r2 c2) s4,
          give-shrinks only_n3 p5 (consumer r3 c3) s5,
          times_0 a,
          times_1 a,
          times_0 c1,
          times_1 c1,
          fits.first,
          times_0 b,
          times_0 c2,
          times_0 c3,
        ))

  r2-ended :
      (p4 p5 : List Op)
      → Run ([] ∷ [] ∷ [] ∷ p4 ∷ p5 ∷ [])
      → Suffix p4 (consumer r2 c2)
      → Suffix p5 (consumer r3 c3)
      → Stuck d p4
      → p4 ≡ []
  unfolding Run programs react injected
  r2-ended _ p5 run s4 s5 ended = refl
  r2-ended _ p5 run s4 s5 (waits m ops e) =
      let kind = r2-waits c2 m ops s4 in
      let run' = subst (λ (x : Molecule). Run ([] ∷ [] ∷ [] ∷ (take x ∷ ops) ∷ p5 ∷ [])) kind run in
      let empty : d.of_h2o ≡ 0 = subst (λ (x : Molecule). count x d ≡ 0) kind e in
      absurd (
        omega (
          arith,
          empty,
          weigh-h2o d,
          Reaches-balanced only_h2o nothing d (programs a b c1 c2 c3)
              ([] ∷ [] ∷ [] ∷ (take h2o ∷ ops) ∷ p5 ∷ []) run',
          producer-weight only_h2o i_n3 a,
          producer-weight only_h2o i_h2o b,
          consumer-weight only_h2o r1 c1,
          consumer-weight only_h2o r2 c2,
          consumer-weight only_h2o r3 c3,
          give-shrinks only_h2o (take m ∷ ops) (consumer r2 c2) s4,
          give-shrinks only_h2o p5 (consumer r3 c3) s5,
          times_0 a,
          times_1 b,
          times_0 c1,
          fits.second,
          times_0 c2,
          times_2 c2,
          times_0 c3,
        ))

  no_n :
      (ops : List Op)
      → Run ([] ∷ [] ∷ [] ∷ [] ∷ (take n ∷ ops) ∷ [])
      → Suffix (take n ∷ ops) (consumer r3 c3)
      → d.of_n ≡ 0
      → ⊥
  unfolding Run programs react injected
  no_n ops run s5 empty = omega (
    arith,
    empty,
    weigh-n d,
    Reaches-balanced only_n nothing d (programs a b c1 c2 c3)
        ([] ∷ [] ∷ [] ∷ [] ∷ (take n ∷ ops) ∷ []) run,
    producer-weight only_n i_n3 a,
    producer-weight only_n i_h2o b,
    consumer-weight only_n r1 c1,
    consumer-weight only_n r2 c2,
    consumer-weight only_n r3 c3,
    give-shrinks only_n (take n ∷ ops) (consumer r3 c3) s5,
    fits.nitrogens,
    fits.oxygens,
    times_0 a,
    times_0 b,
    times_1 a,
    times_0 c1,
    times_1 c1,
    fits.first,
    times_3 c1,
    times_0 c2,
    times_0 c3,
    times_1 c3,
  )

  no_o2 :
      (ops : List Op)
      → Run ([] ∷ [] ∷ [] ∷ [] ∷ (take o2 ∷ ops) ∷ [])
      → Suffix (take o2 ∷ ops) (consumer r3 c3)
      → d.of_o2 ≡ 0
      → ⊥
  unfolding Run programs react injected
  no_o2 ops run s5 empty = omega (
    arith,
    empty,
    weigh-o2 d,
    Reaches-balanced only_o2 nothing d (programs a b c1 c2 c3)
        ([] ∷ [] ∷ [] ∷ [] ∷ (take o2 ∷ ops) ∷ []) run,
    producer-weight only_o2 i_n3 a,
    producer-weight only_o2 i_h2o b,
    consumer-weight only_o2 r1 c1,
    consumer-weight only_o2 r2 c2,
    consumer-weight only_o2 r3 c3,
    give-shrinks only_o2 (take o2 ∷ ops) (consumer r3 c3) s5,
    fits.nitrogens,
    fits.oxygens,
    times_0 a,
    times_0 b,
    times_0 c1,
    times_0 c2,
    times_1 c2,
    times_0 c3,
    times_1 c3,
  )

  r3-ended :
      (p5 : List Op)
      → Run ([] ∷ [] ∷ [] ∷ [] ∷ p5 ∷ [])
      → Suffix p5 (consumer r3 c3)
      → Stuck d p5
      → p5 ≡ []
  r3-ended _ run s5 ended = refl
  r3-ended _ run s5 (waits m ops e) = elim (r3-waits c3 m ops s5) [
    | inl kind ↦
        elim (no_n ops
          (subst (λ (x : Molecule). Run ([] ∷ [] ∷ [] ∷ [] ∷ (take x ∷ ops) ∷ [])) kind run)
          (subst (λ (x : Molecule). Suffix (take x ∷ ops) (consumer r3 c3)) kind s5)
          (subst (λ (x : Molecule). count x d ≡ 0) kind e)) [ ]
    | inr kind ↦
        elim (no_o2 ops
          (subst (λ (x : Molecule). Run ([] ∷ [] ∷ [] ∷ [] ∷ (take x ∷ ops) ∷ [])) kind run)
          (subst (λ (x : Molecule). Suffix (take x ∷ ops) (consumer r3 c3)) kind s5)
          (subst (λ (x : Molecule). count x d ≡ 0) kind e)) [ ]
  ]

  AllStuck-finished :
      (qs : List (List Op))
      → Run qs
      → Suffixes qs (programs a b c1 c2 c3)
      → AllStuck d qs
      → qs ≡ finished
  unfolding Run programs
  AllStuck-finished _ run
        (and_process p1 _ _ _ s1 (
          and_process p2 _ _ _ s2 (
            and_process p3 _ _ _ s3
              (and_process p4 _ _ _ s4 (and_process p5 _ _ _ s5 no_process)))))
        (t1, (t2, (t3, (t4, (t5, _))))) =
      let e1 = producer-ended d i_n3 a p1 t1 s1 in
      let run1 = subst (λ (x : List Op). Run (x ∷ p2 ∷ p3 ∷ p4 ∷ p5 ∷ [])) e1 run in
      let e2 = producer-ended d i_h2o b p2 t2 s2 in
      let run2 = subst (λ (x : List Op). Run ([] ∷ x ∷ p3 ∷ p4 ∷ p5 ∷ [])) e2 run1 in
      let e3 = r1-ended p3 p4 p5 run2 s3 s4 s5 t3 in
      let run3 = subst (λ (x : List Op). Run ([] ∷ [] ∷ x ∷ p4 ∷ p5 ∷ [])) e3 run2 in
      let e4 = r2-ended p4 p5 run3 s4 s5 t4 in
      let run4 = subst (λ (x : List Op). Run ([] ∷ [] ∷ [] ∷ x ∷ p5 ∷ [])) e4 run3 in
      let e5 = r3-ended p5 run4 s5 t5 in rw (e1, e2, e3, e4, e5) refl

-- Where the reactions fit the molecules, whatever the processes of q5 have done so far and in whatever order, they have all ended or one of
-- them can take its next operation: no run comes to a deadlock.
pub programs-progress :
    (a b c1 c2 c3 : ℕ) (d : Counts) (qs : List (List Op))
    → Fits a b c1 c2 c3
    → Reaches nothing (programs a b c1 c2 c3) d qs
    → CanStep d qs ⊎ (qs ≡ finished)
unfolding Run
programs-progress a b c1 c2 c3 d qs fits run = elim (CanStep-or-AllStuck d qs) [
  | inl can ↦ inl can
  | inr stuck ↦ inr (
      AllStuck-finished a b c1 c2 c3 fits d qs run
        (Reaches-Suffixes nothing d (programs a b c1 c2 c3) qs run) stuck)
]
