-- ===== src/Monitor/Sleepers.antt =====
-- The queues of the lock and of the condition variables of apps/q4: who sleeps where.
use lab.Prelude.{ℕ, ◌≡◌, ◌≢◌, sym, ap, ◌∙◌, List, [], ◌∷◌, ◌++◌, ==_self, ==_ne}
use lab.Queue.Store.{update}
use lab.Monitor.Steps.{Point, check_room, write, unlock_product, check_data, look, unlock_item}

-- Where a process may sleep: 1 for the lock's queue, 2 for that of `not_full`, 3 for that of `not_empty`.
abbrev pub place : Point → ℕ
place (check_room i) = 1
place (unlock_product i) = 1
place (check_data i) = 1
place (unlock_item i) = 1
place (write i) = 2
place (look i) = 3
place _ = 0

abbrev pub AllAt : ℕ → (ℕ → Point) → List ℕ → Type 0
AllAt k points [] = Unit {0}
AllAt k points (q ∷ qs) = (place (points q) ≡ k) × AllAt k points qs

abbrev pub NotIn : ℕ → List ℕ → Type 0
NotIn p [] = Unit {0}
NotIn p (q ∷ qs) = (q ≢ p) × NotIn p qs

abbrev pub Distinct : List ℕ → Type 0
Distinct [] = Unit {0}
Distinct (q ∷ qs) = NotIn q qs × Distinct qs

-- Different processes sleep in the queue `qs`, all of them where they may.
pub record Queued (k : ℕ) (points : ℕ → Point) (qs : List ℕ) : Type 0 where
  pub at : AllAt k points qs
  pub once : Distinct qs

AllAt-update :
    (k : ℕ) (points : ℕ → Point) (p : ℕ) (v : Point) (qs : List ℕ)
    → NotIn p qs
    → AllAt k points qs
    → AllAt k (update points p v) qs
unfolding update
AllAt-update k points p v [] out at = tt
AllAt-update k points p v (q ∷ qs) (ne, out) (here, at) =
    (rw (==_ne q p ne) here, AllAt-update k points p v qs out at)

AllAt-snoc :
    (k : ℕ) (points : ℕ → Point) (p : ℕ) (qs : List ℕ)
    → AllAt k points qs
    → place (points p) ≡ k
    → AllAt k points (qs ++ p ∷ [])
AllAt-snoc k points p [] at e = (e, tt)
AllAt-snoc k points p (q ∷ qs) (here, at) e = (here, AllAt-snoc k points p qs at e)

pub NotIn-snoc : (p q : ℕ) (qs : List ℕ) → NotIn p qs → q ≢ p → NotIn p (qs ++ q ∷ [])
NotIn-snoc p q [] out ne = (ne, tt)
NotIn-snoc p q (r ∷ qs) (here, out) ne = (here, NotIn-snoc p q qs out ne)

Distinct-snoc : (p : ℕ) (qs : List ℕ) → NotIn p qs → Distinct qs → Distinct (qs ++ p ∷ [])
Distinct-snoc p [] out once = (tt, tt)
Distinct-snoc p (q ∷ qs) (ne, out) (first, once) =
    (NotIn-snoc q p qs first (λ e. ne (sym e)), Distinct-snoc p qs out once)

pub AllAt-NotIn :
    (k : ℕ) (points : ℕ → Point) (p : ℕ) (qs : List ℕ)
    → AllAt k points qs
    → place (points p) ≢ k
    → NotIn p qs
AllAt-NotIn k points p [] at ne = tt
AllAt-NotIn k points p (q ∷ qs) (here, at) ne =
    ((λ e. ne (ap (λ (x : ℕ). place (points x)) (sym e) ∙ here)), AllAt-NotIn k points p qs at ne)

-- A process that sleeps nowhere moves.
pub Queued-update :
    (k : ℕ) (points : ℕ → Point) (p : ℕ) (v : Point) (qs : List ℕ)
    → NotIn p qs
    → Queued k points qs
    → Queued k (update points p v) qs
Queued-update k points p v qs out queued = record {
  at = AllAt-update k points p v qs out queued.at;
  once = queued.once;
}

-- A process goes to sleep behind the others.
pub Queued-snoc :
    (k : ℕ) (points : ℕ → Point) (p : ℕ) (v : Point) (qs : List ℕ)
    → NotIn p qs
    → place v ≡ k
    → Queued k points qs
    → Queued k (update points p v) (qs ++ p ∷ [])
unfolding update
Queued-snoc k points p v qs out e queued = record {
  at =
      AllAt-snoc k (update points p v) p qs (AllAt-update k points p v qs out queued.at)
        (rw (==_self p) e);
  once = Distinct-snoc p qs out queued.once;
}
