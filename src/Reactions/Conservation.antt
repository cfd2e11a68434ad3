-- ===== src/Reactions/Conservation.antt =====
-- The programs of apps/q5 keep the number of nitrogen, hydrogen and oxygen atoms.
use lab.Prelude.{ℕ, zero, suc, ◌+◌, ◌*◌, ◌≡◌, refl, sym, ◌∙◌, ap, List, [], ◌∷◌, ◌++◌, arith}
use lab.Reactions.Atmosphere.{
  Molecule, n3, h2o, n, h2, o2, no2, Op, take, give, Reaction, r1, r2, r3, react, consumer,
  Injector, i_n3, i_h2o, injected, producer, programs, Counts, count, with_count, Steps, taken,
  given, Reaches, here, then, nothing,
}

-- A weight for each kind of molecule, such as its nitrogen atoms.
abbrev pub Weight : Type 0
Weight = Molecule → ℕ

abbrev pub nitrogen : Weight
nitrogen n3 = 3
nitrogen n = 1
nitrogen no2 = 1
nitrogen _ = 0

abbrev pub hydrogen : Weight
hydrogen h2o = 2
hydrogen h2 = 2
hydrogen _ = 0

abbrev pub oxygen : Weight
oxygen h2o = 1
oxygen o2 = 2
oxygen no2 = 2
oxygen _ = 0

-- The weight `a`, as often as there are molecules of its kind.
abbrev pub times : ℕ → ℕ → ℕ
times a zero = 0
times a (suc k) = a + times a k

-- The weight of all molecules there are.
abbrev pub weigh : Weight → Counts → ℕ
weigh w c =
    times (w n3) c.of_n3
    + times (w h2o) c.of_h2o
    + times (w n) c.of_n
    + times (w h2) c.of_h2
    + times (w o2) c.of_o2
    + times (w no2) c.of_no2

-- The weight that is still to be given, and that is still to be taken.
abbrev pub to_give : Weight → List Op → ℕ
to_give w [] = 0
to_give w (take m ∷ ops) = to_give w ops
to_give w (give m ∷ ops) = w m + to_give w ops

abbrev pub to_take : Weight → List Op → ℕ
to_take w [] = 0
to_take w (take m ∷ ops) = w m + to_take w ops
to_take w (give m ∷ ops) = to_take w ops

abbrev pub all_give : Weight → List (List Op) → ℕ
all_give w [] = 0
all_give w (p ∷ ps) = to_give w p + all_give w ps

abbrev pub all_take : Weight → List (List Op) → ℕ
all_take w [] = 0
all_take w (p ∷ ps) = to_take w p + all_take w ps

weigh-suc :
    (w : Weight) (m : Molecule) (c : Counts)
    → weigh w (with_count m (suc (count m c)) c) ≡ w m + weigh w c
weigh-suc w n3 c = omega arith
weigh-suc w h2o c = omega arith
weigh-suc w n c = omega arith
weigh-suc w h2 c = omega arith
weigh-suc w o2 c = omega arith
weigh-suc w no2 c = omega arith

count-put : (m : Molecule) (k : ℕ) (c : Counts) → count m (with_count m k c) ≡ k
count-put n3 k c = refl
count-put h2o k c = refl
count-put n k c = refl
count-put h2 k c = refl
count-put o2 k c = refl
count-put no2 k c = refl

put-back :
    (m : Molecule) (j k : ℕ) (c : Counts) → count m c ≡ j → with_count m j (with_count m k c) ≡ c
put-back n3 j k c e = rw (sym e) refl
put-back h2o j k c e = rw (sym e) refl
put-back n j k c e = rw (sym e) refl
put-back h2 j k c e = rw (sym e) refl
put-back o2 j k c e = rw (sym e) refl
put-back no2 j k c e = rw (sym e) refl

weigh-taken :
    (w : Weight) (m : Molecule) (k : ℕ) (c : Counts)
    → count m c ≡ suc k
    → weigh w c ≡ w m + weigh w (with_count m k c)
weigh-taken w m k c e =
    let back : with_count m (suc (count m (with_count m k c))) (with_count m k c) ≡ c =
      put-back m (suc (count m (with_count m k c))) k c (e ∙ ap suc (sym (count-put m k c))) in
    ap (weigh w) (sym back) ∙ weigh-suc w m (with_count m k c)

-- An operation moves weight between the molecules there are and what is still to be given or taken.
Steps-balanced :
    (w : Weight) (c d : Counts) (ops rest : List Op)
    → Steps c ops d rest
    → weigh w c + to_give w ops + to_take w rest ≡ weigh w d + to_give w rest + to_take w ops
Steps-balanced w c d ops rest (taken m k c' ops' e) = omega (arith, weigh-taken w m k c e)
Steps-balanced w c d ops rest (given m c' ops') = omega (arith, weigh-suc w m c)

all_give-replace :
    (w : Weight) (before after : List (List Op)) (ops : List Op)
    → all_give w (before ++ ops ∷ after) ≡ to_give w ops + all_give w (before ++ after)
all_give-replace w [] after ops = refl
all_give-replace w (p ∷ before) after ops = omega (arith, all_give-replace w before after ops)

all_take-replace :
    (w : Weight) (before after : List (List Op)) (ops : List Op)
    → all_take w (before ++ ops ∷ after) ≡ to_take w ops + all_take w (before ++ after)
all_take-replace w [] after ops = refl
all_take-replace w (p ∷ before) after ops = omega (arith, all_take-replace w before after ops)

-- However the processes interleave, and whatever the weights, the weight of the molecules there are
-- and of those to be given, less that of those to be taken, stays the same.
pub Reaches-balanced :
    (w : Weight) (c d : Counts) (ps qs : List (List Op))
    → Reaches c ps d qs
    → weigh w c + all_give w ps + all_take w qs ≡ weigh w d + all_give w qs + all_take w ps
Reaches-balanced w c d ps qs (here c' ps') = refl
Reaches-balanced w c d ps qs (then c' c1 d' before after ops rest qs' step more) = omega (
  arith,
  Steps-balanced w c c1 ops rest step,
  Reaches-balanced w c1 d (before ++ rest ∷ after) qs more,
  all_give-replace w before after ops,
  all_give-replace w before after rest,
  all_take-replace w before after ops,
  all_take-replace w before after rest,
)

-- What a reaction takes and gives weighs the same.
abbrev IsConserved : Weight → Type 0
IsConserved w = (r : Reaction) (k : ℕ) → to_give w (consumer r k) ≡ to_take w (consumer r k)

nitrogen-IsConserved : IsConserved nitrogen
unfolding consumer react
nitrogen-IsConserved r zero = refl
nitrogen-IsConserved r1 (suc k) = omega (arith, nitrogen-IsConserved r1 k)
nitrogen-IsConserved r2 (suc k) = omega (arith, nitrogen-IsConserved r2 k)
nitrogen-IsConserved r3 (suc k) = omega (arith, nitrogen-IsConserved r3 k)

hydrogen-IsConserved : IsConserved hydrogen
unfolding consumer react
hydrogen-IsConserved r zero = refl
hydrogen-IsConserved r1 (suc k) = omega (arith, hydrogen-IsConserved r1 k)
hydrogen-IsConserved r2 (suc k) = omega (arith, hydrogen-IsConserved r2 k)
hydrogen-IsConserved r3 (suc k) = omega (arith, hydrogen-IsConserved r3 k)

oxygen-IsConserved : IsConserved oxygen
unfolding consumer react
oxygen-IsConserved r zero = refl
oxygen-IsConserved r1 (suc k) = omega (arith, oxygen-IsConserved r1 k)
oxygen-IsConserved r2 (suc k) = omega (arith, oxygen-IsConserved r2 k)
oxygen-IsConserved r3 (suc k) = omega (arith, oxygen-IsConserved r3 k)

pub producer-weight :
    (w : Weight) (i : Injector) (k : ℕ)
    → (to_give w (producer i k) ≡ times (w (injected i)) k) × (to_take w (producer i k) ≡ 0)
unfolding producer
producer-weight w i zero = (refl, refl)
producer-weight w i (suc k) =
    let (gives, takes) = producer-weight w i k in (omega (arith, gives), takes)

-- All processes have ended.
abbrev pub finished : List (List Op)
finished = [] ∷ [] ∷ [] ∷ [] ∷ [] ∷ []

programs-weight :
    (w : Weight) (a b c1 c2 c3 : ℕ) (d : Counts)
    → IsConserved w
    → Reaches nothing (programs a b c1 c2 c3) d finished
    → weigh w d ≡ times (w n3) a + times (w h2o) b
unfolding programs injected
programs-weight w a b c1 c2 c3 d even run = omega (
  arith,
  Reaches-balanced w nothing d (programs a b c1 c2 c3) finished run,
  producer-weight w i_n3 a,
  producer-weight w i_h2o b,
  even r1 c1,
  even r2 c2,
  even r3 c3,
)

pub times_0 : (k : ℕ) → times 0 k ≡ 0
times_0 zero = refl
times_0 (suc k) = omega (arith, times_0 k)

pub times_1 : (k : ℕ) → times 1 k ≡ k
times_1 zero = refl
times_1 (suc k) = omega (arith, times_1 k)

pub times_2 : (k : ℕ) → times 2 k ≡ 2 * k
times_2 zero = refl
times_2 (suc k) = omega (arith, times_2 k)

pub times_3 : (k : ℕ) → times 3 k ≡ 3 * k
times_3 zero = refl
times_3 (suc k) = omega (arith, times_3 k)

-- Whatever the order in which the five processes of q5 run, and whatever counts they read, once all have
-- ended the molecules hold
-- the three atoms of nitrogen of each N3 that was injected, and the two atoms of hydrogen and the one
-- atom of oxygen of each H2O.
pub programs-atoms :
    (a b c1 c2 c3 : ℕ) (d : Counts)
    → Reaches nothing (programs a b c1 c2 c3) d finished
    → (3 * d.of_n3 + d.of_n + d.of_no2 ≡ 3 * a)
      × (2 * d.of_h2o + 2 * d.of_h2 ≡ 2 * b)
      × (d.of_h2o + 2 * d.of_o2 + 2 * d.of_no2 ≡ b)
programs-atoms a b c1 c2 c3 d run = (
  omega (
    arith,
    programs-weight nitrogen a b c1 c2 c3 d nitrogen-IsConserved run,
    times_3 d.of_n3,
    times_0 d.of_h2o,
    times_1 d.of_n,
    times_0 d.of_h2,
    times_0 d.of_o2,
    times_1 d.of_no2,
    times_3 a,
    times_0 b,
  ),
  omega (
    arith,
    programs-weight hydrogen a b c1 c2 c3 d hydrogen-IsConserved run,
    times_0 d.of_n3,
    times_2 d.of_h2o,
    times_0 d.of_n,
    times_2 d.of_h2,
    times_0 d.of_o2,
    times_0 d.of_no2,
    times_0 a,
    times_2 b,
  ),
  omega (
    arith,
    programs-weight oxygen a b c1 c2 c3 d oxygen-IsConserved run,
    times_0 d.of_n3,
    times_1 d.of_h2o,
    times_0 d.of_n,
    times_0 d.of_h2,
    times_2 d.of_o2,
    times_2 d.of_no2,
    times_0 a,
    times_1 b,
  ),
)
