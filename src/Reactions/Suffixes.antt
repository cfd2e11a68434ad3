-- ===== src/Reactions/Suffixes.antt =====
-- What the processes of apps/q5 have left to do, and what they wait for.
use lab.Prelude.{ℕ, zero, suc, ◌≤◌, ◌≡◌, ◌⊎◌, inl, inr, refl, List, [], ◌∷◌, ◌++◌, arith}
use lab.Reactions.Atmosphere.{
  Molecule, n3, h2o, n, o2, Op, take, give, r1, r2, r3, react, consumer, Injector, producer, Counts,
  taken, given, Reaches, here, then,
}
use lab.Reactions.Conservation.{Weight, to_give}

-- What a process may still have to do.
pub data Suffix : List Op → List Op → Type 0 where
  whole : (ops : List Op) → Suffix ops ops
  later : (ops rest : List Op) (op : Op) → Suffix ops rest → Suffix ops (op ∷ rest)

pub data Suffixes : List (List Op) → List (List Op) → Type 0 where
  no_process : Suffixes [] []
  and_process :
      (ops rest : List Op) (ps qs : List (List Op))
      → Suffix ops rest
      → Suffixes ps qs
      → Suffixes (ops ∷ ps) (rest ∷ qs)

Suffixes-same : (ps : List (List Op)) → Suffixes ps ps
Suffixes-same [] = no_process
Suffixes-same (p ∷ ps) = and_process p p ps ps (whole p) (Suffixes-same ps)

-- A process that has made a step has less to do.
Suffixes-step :
    (qs before after : List (List Op)) (op : Op) (rest : List Op)
    → Suffixes qs (before ++ rest ∷ after)
    → Suffixes qs (before ++ (op ∷ rest) ∷ after)
Suffixes-step _ [] after op rest (and_process ops rest' ps qs' s more) =
    and_process ops (op ∷ rest) ps after (later ops rest op s) more
Suffixes-step _ (p ∷ before) after op rest (and_process ops rest' ps qs' s more) =
    and_process ops p ps (before ++ (op ∷ rest) ∷ after) s
      (Suffixes-step ps before after op rest more)

pub Reaches-Suffixes : (c d : Counts) (ps qs : List (List Op)) → Reaches c ps d qs → Suffixes qs ps
Reaches-Suffixes c d ps qs (here c' ps') = Suffixes-same ps
Reaches-Suffixes c d ps qs ((then) c' c1 d' before after ops rest qs' (taken m k c0 ops' e) more) =
    Suffixes-step qs before after (take m) rest
      (Reaches-Suffixes c1 d (before ++ rest ∷ after) qs more)
Reaches-Suffixes c d ps qs ((then) c' c1 d' before after ops rest qs' (given m c0 ops') more) =
    Suffixes-step qs before after (give m) rest
      (Reaches-Suffixes c1 d (before ++ rest ∷ after) qs more)

-- What is to be given shrinks.
pub give-shrinks : (w : Weight) (xs ys : List Op) → Suffix xs ys → to_give w xs ≤ to_give w ys
give-shrinks w xs ys (whole ops) = omega arith
give-shrinks w xs ys (later ops rest (take m) s) = give-shrinks w xs rest s
give-shrinks w xs ys (later ops rest (give m) s) = omega (arith, give-shrinks w xs rest s)

-- The molecules that a kind of process waits for.
pub producer-free :
    (i : Injector) (k : ℕ) (m : Molecule) (ops : List Op) → Suffix (take m ∷ ops) (producer i k) → ⊥
unfolding producer
producer-free i zero m ops s = elim s [ ]
producer-free i (suc k) m ops (later _ _ _ s) = producer-free i k m ops s

pub r1-waits :
    (k : ℕ) (m : Molecule) (ops : List Op) → Suffix (take m ∷ ops) (consumer r1 k) → m ≡ n3
unfolding consumer react
r1-waits zero m ops s = elim s [ ]
r1-waits (suc k) m ops (whole _) = refl
r1-waits (suc k) m ops (later _ _ _ (later _ _ _ (later _ _ _ (later _ _ _ s)))) =
    r1-waits k m ops s

pub r2-waits :
    (k : ℕ) (m : Molecule) (ops : List Op) → Suffix (take m ∷ ops) (consumer r2 k) → m ≡ h2o
unfolding consumer react
r2-waits zero m ops s = elim s [ ]
r2-waits (suc k) m ops (whole _) = refl
r2-waits (suc k) m ops (later _ _ _ (whole _)) = refl
r2-waits (suc k) m ops (later _ _ _ (later _ _ _ (later _ _ _ (later _ _ _ (later _ _ _ s))))) =
    r2-waits k m ops s

pub r3-waits :
    (k : ℕ) (m : Molecule) (ops : List Op)
    → Suffix (take m ∷ ops) (consumer r3 k)
    → (m ≡ n) ⊎ (m ≡ o2)
unfolding consumer react
r3-waits zero m ops s = elim s [ ]
r3-waits (suc k) m ops (whole _) = inl refl
r3-waits (suc k) m ops (later _ _ _ (whole _)) = inr refl
r3-waits (suc k) m ops (later _ _ _ (later _ _ _ (later _ _ _ s))) = r3-waits k m ops s
