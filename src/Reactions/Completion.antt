-- ===== src/Reactions/Completion.antt =====
-- A run of the processes of apps/q5 can always go on until all of them have ended.
use lab.Prelude.{
  ℕ, zero, suc, ◌+◌, ◌≤◌, ◌<◌, ◌≡◌, ◌⊎◌, inl, inr, refl, sym, subst, List, [], ◌∷◌, ◌++◌, length,
  arith,
}
use lab.Reactions.Atmosphere.{
  Op, programs, Counts, Steps, taken, given, Reaches, here, then, nothing,
}
use lab.Reactions.Conservation.{finished}
use lab.Reactions.Progress.{Fits, programs-progress}
use lab.Reactions.Stuck.{CanStep, steps}

-- The operations that are left.
abbrev pub left_over : List (List Op) → ℕ
left_over [] = 0
left_over (p ∷ ps) = length p + left_over ps

left_over-replace :
    (before after : List (List Op)) (ops : List Op)
    → left_over (before ++ ops ∷ after) ≡ length ops + left_over (before ++ after)
left_over-replace [] after ops = refl
left_over-replace (p ∷ before) after ops = omega (arith, left_over-replace before after ops)

Steps-shorter :
    (c d : Counts) (ops rest : List Op) → Steps c ops d rest → length ops ≡ suc (length rest)
Steps-shorter c d ops rest (taken m k c' ops' e) = refl
Steps-shorter c d ops rest (given m c' ops') = refl

CanStep-left : (c : Counts) (ps : List (List Op)) → CanStep c ps → 0 < left_over ps
CanStep-left c _ (steps before after ops rest d step) =
    omega (arith, left_over-replace before after ops, Steps-shorter c d ops rest step)

-- One more step at the end of a run.
Reaches-on :
    (c d e : Counts) (ps before after : List (List Op)) (ops rest : List Op)
    → Reaches c ps d (before ++ ops ∷ after)
    → Steps d ops e rest
    → Reaches c ps e (before ++ rest ∷ after)
Reaches-on c d e ps before after ops rest run step = go c ps (before ++ ops ∷ after) run refl
  where
    go :
        (c : Counts) (ps qs : List (List Op))
        → Reaches c ps d qs
        → qs ≡ before ++ ops ∷ after
        → Reaches c ps e (before ++ rest ∷ after)
    go c ps qs (here c' ps') same =
        subst (λ (x : List (List Op)). Reaches c x e (before ++ rest ∷ after)) (sym same)
          ((then) c e e before after ops rest (before ++ rest ∷ after) step
            (here e (before ++ rest ∷ after)))
    go c ps qs ((then) c' c1 d' before' after' ops' rest' qs' step' more) same =
        (then) c c1 e before' after' ops' rest' (before ++ rest ∷ after) step'
          (go c1 (before' ++ rest' ∷ after') qs more same)

module _ (a b c1 c2 c3 : ℕ) (fits : Fits a b c1 c2 c3) where
  completes :
      (left : ℕ) (d : Counts) (qs : List (List Op))
      → left_over qs ≤ left
      → Reaches nothing (programs a b c1 c2 c3) d qs
      → CanStep d qs ⊎ (qs ≡ finished)
      → (e : Counts) × Reaches d qs e finished
  completes left d qs bound run (inr over) =
      (d, subst (λ (x : List (List Op)). Reaches d qs d x) over (here d qs))
  completes zero d qs bound run (inl can) = absurd (omega (arith, bound, CanStep-left d qs can))
  completes (suc left) d _ bound run (inl (steps before after ops rest c step)) =
      let run' = Reaches-on nothing d c (programs a b c1 c2 c3) before after ops rest run step in
      let (e, more) =
        completes left c (before ++ rest ∷ after)
          (omega (
            arith,
            bound,
            left_over-replace before after ops,
            left_over-replace before after rest,
            Steps-shorter d c ops rest step,
          ))
          run' (programs-progress a b c1 c2 c3 c (before ++ rest ∷ after) fits run') in
      (e, (then) d c e before after ops rest finished step more)

-- From every state that the five processes of q5 reach, in whatever order they have run, a run leads on to
-- the end of all of them, where the counts that they read fit each other: the first reaction is made no
-- more often than N3 is injected, the second at most once for two H2O, and the third no more often than
-- the second and than three times the first.
pub programs_complete :
    (a b c1 c2 c3 : ℕ) (d : Counts) (qs : List (List Op))
    → Fits a b c1 c2 c3
    → Reaches nothing (programs a b c1 c2 c3) d qs
    → (e : Counts) × Reaches d qs e finished
programs_complete a b c1 c2 c3 d qs fits run =
    completes a b c1 c2 c3 fits (left_over qs) d qs (omega arith) run
      (programs-progress a b c1 c2 c3 d qs fits run)
