-- ===== src/Reactions/Atmosphere.antt =====
-- The programs of apps/q5 as sequences of semaphore operations, and their interleavings. A semaphore
-- counts the molecules of one kind; all six start with the count 0. The messages they print are left
-- out, as is the semaphore for the end of the processes.
use lab.Prelude.{ℕ, zero, suc, ◌*◌, ◌/◌, ◌≡◌, List, [], ◌∷◌, ◌++◌, ltb, if◌then◌else◌}

pub data Molecule : Type 0 where
  n3 h2o n h2 o2 no2 : Molecule

-- `sem_wait` and `sem_signal` on the semaphore of a molecule.
pub data Op : Type 0 where
  take give : Molecule → Op

-- The three branches of the loop in consumer.c, by `reaction_idx`.
pub data Reaction : Type 0 where
  r1 r2 r3 : Reaction

unfoldable pub react : Reaction → List Op
react r1 = take n3 ∷ give n ∷ give n ∷ give n ∷ []
react r2 = take h2o ∷ take h2o ∷ give h2 ∷ give h2 ∷ give o2 ∷ []
react r3 = take n ∷ take o2 ∷ give no2 ∷ []

-- The loop of consumer.c with `expected_reactions` to go.
unfoldable pub consumer : Reaction → ℕ → List Op
consumer r zero = []
consumer r (suc k) = react r ++ consumer r k

-- The two injectors of producer.c, by `inj_idx`.
pub data Injector : Type 0 where
  i_n3 i_h2o : Injector

unfoldable pub injected : Injector → Molecule
injected i_n3 = n3
injected i_h2o = h2o

-- The loop of producer.c with `inj_count` to go.
unfoldable pub producer : Injector → ℕ → List Op
producer i zero = []
producer i (suc k) = give (injected i) ∷ producer i k

-- The reactions of the third kind that makeprocs.c expects.
unfoldable pub expected_r3 : ℕ → ℕ → ℕ
expected_r3 a b = if ltb (b / 2) (3 * a) then b / 2 else 3 * a

-- `process_create` for the two injectors and the three reactions, by the counts that the five processes
-- read from their arguments. makeprocs.c writes the string of the last one past the end of its array,
-- so these counts are arguments here and need not be those that it has computed.
unfoldable pub programs : (a b c1 c2 c3 : ℕ) → List (List Op)
programs a b c1 c2 c3 =
    producer i_n3 a ∷ producer i_h2o b ∷ consumer r1 c1 ∷ consumer r2 c2 ∷ consumer r3 c3 ∷ []

-- The counts of the semaphores, as a tuple of fields.
pub record Counts : Type 0 where
  pub of_n3 : ℕ
  pub of_h2o : ℕ
  pub of_n : ℕ
  pub of_h2 : ℕ
  pub of_o2 : ℕ
  pub of_no2 : ℕ

abbrev pub count : Molecule → Counts → ℕ
count n3 c = c.of_n3
count h2o c = c.of_h2o
count n c = c.of_n
count h2 c = c.of_h2
count o2 c = c.of_o2
count no2 c = c.of_no2

abbrev pub with_count : Molecule → ℕ → Counts → Counts
with_count n3 k c = record c { of_n3 = k }
with_count h2o k c = record c { of_h2o = k }
with_count n k c = record c { of_n = k }
with_count h2 k c = record c { of_h2 = k }
with_count o2 k c = record c { of_o2 = k }
with_count no2 k c = record c { of_no2 = k }

-- A process takes its next operation: a wait only where the count is positive.
pub data Steps : Counts → List Op → Counts → List Op → Type 0 where
  taken :
      (m : Molecule) (k : ℕ) (c : Counts) (ops : List Op)
      → count m c ≡ suc k
      → Steps c (take m ∷ ops) (with_count m k c) ops
  given :
      (m : Molecule) (c : Counts) (ops : List Op)
      → Steps c (give m ∷ ops) (with_count m (suc (count m c)) c) ops

-- What all processes may do from given counts, one operation at a time and in any order.
pub data Reaches : Counts → List (List Op) → Counts → List (List Op) → Type 0 where
  here : (c : Counts) (ps : List (List Op)) → Reaches c ps c ps
  then :
      (c d e : Counts) (before after : List (List Op)) (ops rest : List Op) (ps : List (List Op))
      → Steps c ops d rest
      → Reaches d (before ++ rest ∷ after) e ps
      → Reaches c (before ++ ops ∷ after) e ps

abbrev pub nothing : Counts
nothing = record { of_n3 = 0; of_h2o = 0; of_n = 0; of_h2 = 0; of_o2 = 0; of_no2 = 0 }
