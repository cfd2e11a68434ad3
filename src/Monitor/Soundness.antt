-- ===== src/Monitor/Soundness.antt =====
-- What every turn of the processes of apps/q4 keeps.
use lab.Prelude.{
  ℕ, suc, ◌≡◌, ◌<◌, refl, sym, subst, List, [], ◌∷◌, ◌++◌, arith, ==_self, ==_ne, Option, none,
  some, length,
}
use lab.Queue.Store.{update}
use lab.Buffer.Ring.{buffer_size}
use lab.Buffer.RingLaws.{IsRing}
use lab.Slots.Steps.{digit}
use lab.Monitor.Steps.{
  Point, start_product, check_room, write, tell_data, unlock_product, start_item, check_data, look,
  take, tell_room, unlock_item, over, Monitor, go_to, pass_to, release, wait_room, wait_data,
  signal_data, signal_room,
}
use lab.Monitor.Sleepers.{place, NotIn, Queued, NotIn-snoc, AllAt-NotIn, Queued-update, Queued-snoc}

-- The buffer holds the items `xs`, which were written and not removed, and the processes that sleep are
-- where they may.
pub record Calm (s : Monitor) (xs : List ℕ) : Type 0 where
  pub is : IsRing s.ring xs
  pub history : s.sent ≡ s.received ++ xs
  pub lock : Queued 1 s.points s.lock_waiting
  pub full : Queued 2 s.points s.not_full
  pub empty : Queued 3 s.points s.not_empty

-- What the process that has the lock relies on at each point.
abbrev pub Ready : List ℕ → Point → Type 0
Ready xs (start_product i) = ⊥
Ready xs (check_room i) = Unit {0}
Ready xs (write i) = suc (length xs) < buffer_size
Ready xs (tell_data i) = 0 < length xs
Ready xs (unlock_product i) = Unit {0}
Ready xs (start_item i) = ⊥
Ready xs (check_data i) = Unit {0}
Ready xs (look i) = 0 < length xs
Ready xs (take i) = (rest : List ℕ) × (xs ≡ digit i ∷ rest)
Ready xs (tell_room i) = suc (length xs) < buffer_size
Ready xs (unlock_item i) = Unit {0}
Ready xs over = ⊥

abbrev pub Outside : ℕ → Monitor → Type 0
Outside p s = NotIn p s.lock_waiting × NotIn p s.not_full × NotIn p s.not_empty

abbrev pub OwnerAt : Option ℕ → Monitor → List ℕ → Type 0
OwnerAt none s xs = Unit {0}
OwnerAt (some p) s xs = Outside p s × Ready xs (s.points p)

pub record IsSound (s : Monitor) (xs : List ℕ) : Type 0 where
  pub calm : Calm s xs
  pub owner_at : OwnerAt s.owner s xs

pub lock-Ready : (xs : List ℕ) (v : Point) → place v ≡ 1 → Ready xs v
lock-Ready xs (start_product i) e = absurd (omega (arith, e))
lock-Ready xs (check_room i) e = tt
lock-Ready xs (write i) e = absurd (omega (arith, e))
lock-Ready xs (tell_data i) e = absurd (omega (arith, e))
lock-Ready xs (unlock_product i) e = tt
lock-Ready xs (start_item i) e = absurd (omega (arith, e))
lock-Ready xs (check_data i) e = tt
lock-Ready xs (look i) e = absurd (omega (arith, e))
lock-Ready xs (take i) e = absurd (omega (arith, e))
lock-Ready xs (tell_room i) e = absurd (omega (arith, e))
lock-Ready xs (unlock_item i) e = tt
lock-Ready xs over e = absurd (omega (arith, e))

-- A producer that waits for room, and a consumer that waits for data.
room-Ready : (xs : List ℕ) (v : Point) → place v ≡ 2 → suc (length xs) < buffer_size → Ready xs v
room-Ready xs (start_product i) e h = absurd (omega (arith, e))
room-Ready xs (check_room i) e h = absurd (omega (arith, e))
room-Ready xs (write i) e h = h
room-Ready xs (tell_data i) e h = absurd (omega (arith, e))
room-Ready xs (unlock_product i) e h = absurd (omega (arith, e))
room-Ready xs (start_item i) e h = absurd (omega (arith, e))
room-Ready xs (check_data i) e h = absurd (omega (arith, e))
room-Ready xs (look i) e h = absurd (omega (arith, e))
room-Ready xs (take i) e h = absurd (omega (arith, e))
room-Ready xs (tell_room i) e h = absurd (omega (arith, e))
room-Ready xs (unlock_item i) e h = absurd (omega (arith, e))
room-Ready xs over e h = absurd (omega (arith, e))

data-Ready : (xs : List ℕ) (v : Point) → place v ≡ 3 → 0 < length xs → Ready xs v
data-Ready xs (start_product i) e h = absurd (omega (arith, e))
data-Ready xs (check_room i) e h = absurd (omega (arith, e))
data-Ready xs (write i) e h = absurd (omega (arith, e))
data-Ready xs (tell_data i) e h = absurd (omega (arith, e))
data-Ready xs (unlock_product i) e h = absurd (omega (arith, e))
data-Ready xs (start_item i) e h = absurd (omega (arith, e))
data-Ready xs (check_data i) e h = absurd (omega (arith, e))
data-Ready xs (look i) e h = h
data-Ready xs (take i) e h = absurd (omega (arith, e))
data-Ready xs (tell_room i) e h = absurd (omega (arith, e))
data-Ready xs (unlock_item i) e h = absurd (omega (arith, e))
data-Ready xs over e h = absurd (omega (arith, e))

-- The lock is passed on, or stays free.
pass_to-IsSound :
    (s : Monitor) (xs qs : List ℕ) → s.lock_waiting ≡ qs → Calm s xs → IsSound (pass_to qs s) xs
unfolding pass_to
pass_to-IsSound s xs [] e calm = record {
  calm = record {
    is = calm.is;
    history = calm.history;
    lock = calm.lock;
    full = calm.full;
    empty = calm.empty;
  };
  owner_at = tt;
}
pass_to-IsSound s xs (q ∷ qs) e calm =
    let lock = subst (λ (l : List ℕ). Queued 1 s.points l) e calm.lock in
    let at_lock = lock.at.0 in
    record {
      calm = record {
        is = calm.is;
        history = calm.history;
        lock = record { at = lock.at.1; once = lock.once.1 };
        full = calm.full;
        empty = calm.empty;
      };
      owner_at = (
        (
          lock.once.0,
          AllAt-NotIn 2 s.points q s.not_full calm.full.at (λ h. omega (arith, at_lock, h)),
          AllAt-NotIn 3 s.points q s.not_empty calm.empty.at (λ h. omega (arith, at_lock, h)),
        ),
        lock-Ready xs (s.points q) at_lock,
      );
    }

module _ (p : ℕ) (s : Monitor) (xs : List ℕ) (calm : Calm s xs) (out : Outside p s) where
  pub Calm-go_to : (v : Point) → Calm (go_to p v s) xs
  unfolding go_to
  Calm-go_to v = record {
    is = calm.is;
    history = calm.history;
    lock = Queued-update 1 s.points p v s.lock_waiting out.0 calm.lock;
    full = Queued-update 2 s.points p v s.not_full out.1 calm.full;
    empty = Queued-update 3 s.points p v s.not_empty out.2 calm.empty;
  }

  -- The owner goes on with the lock.
  pub go_to-IsSound : (v : Point) → s.owner ≡ some p → Ready xs v → IsSound (go_to p v s) xs
  unfolding go_to update
  go_to-IsSound v own ready = record {
    calm = Calm-go_to v;
    owner_at =
        subst (λ (o : Option ℕ). OwnerAt o (go_to p v s) xs) (sym own) (out, rw (==_self p) ready);
  }

  pub release-IsSound : (v : Point) → IsSound (release (go_to p v s)) xs
  unfolding release
  release-IsSound v =
      pass_to-IsSound (go_to p v s) xs (go_to p v s).lock_waiting refl (Calm-go_to v)

  pub wait_room-IsSound : (v : Point) → place v ≡ 2 → IsSound (wait_room p (go_to p v s)) xs
  unfolding wait_room release go_to
  wait_room-IsSound v e =
      pass_to-IsSound (record s { points = update s.points p v; not_full = s.not_full ++ p ∷ [] })
        xs s.lock_waiting refl
        (record {
          is = calm.is;
          history = calm.history;
          lock = Queued-update 1 s.points p v s.lock_waiting out.0 calm.lock;
          full = Queued-snoc 2 s.points p v s.not_full out.1 e calm.full;
          empty = Queued-update 3 s.points p v s.not_empty out.2 calm.empty;
        })

  pub wait_data-IsSound : (v : Point) → place v ≡ 3 → IsSound (wait_data p (go_to p v s)) xs
  unfolding wait_data release go_to
  wait_data-IsSound v e =
      pass_to-IsSound (record s { points = update s.points p v; not_empty = s.not_empty ++ p ∷ [] })
        xs s.lock_waiting refl
        (record {
          is = calm.is;
          history = calm.history;
          lock = Queued-update 1 s.points p v s.lock_waiting out.0 calm.lock;
          full = Queued-update 2 s.points p v s.not_full out.1 calm.full;
          empty = Queued-snoc 3 s.points p v s.not_empty out.2 e calm.empty;
        })

  -- The lock goes to a process that waits for data, and the signaller waits for the lock.
  pub signal_data-IsSound :
      (v : Point) (qs : List ℕ)
      → s.not_empty ≡ qs
      → place v ≡ 1
      → s.owner ≡ some p
      → 0 < length xs
      → IsSound (signal_data p qs (go_to p v s)) xs
  unfolding signal_data go_to update
  signal_data-IsSound v [] e at own some_item = go_to-IsSound v own (lock-Ready xs v at)
  signal_data-IsSound v (q ∷ qs) e at own some_item =
      let empty = subst (λ (l : List ℕ). Queued 3 s.points l) e calm.empty in
      let at_data = empty.at.0 in
      let (ne, out') = subst (λ (l : List ℕ). NotIn p l) e out.2 in
      record {
        calm = record {
          is = calm.is;
          history = calm.history;
          lock = Queued-snoc 1 s.points p v s.lock_waiting out.0 at calm.lock;
          full = Queued-update 2 s.points p v s.not_full out.1 calm.full;
          empty =
              Queued-update 3 s.points p v qs out'
                (record { at = empty.at.1; once = empty.once.1 });
        };
        owner_at = (
          (
            NotIn-snoc q p s.lock_waiting
                (AllAt-NotIn 1 s.points q s.lock_waiting calm.lock.at
                  (λ h. omega (arith, at_data, h)))
                (λ h. ne (sym h)),
            AllAt-NotIn 2 s.points q s.not_full calm.full.at (λ h. omega (arith, at_data, h)),
            empty.once.0,
          ),
          rw (==_ne q p ne) (data-Ready xs (s.points q) at_data some_item),
        );
      }

  -- The lock goes to a process that waits for room, and the signaller waits for the lock.
  pub signal_room-IsSound :
      (v : Point) (qs : List ℕ)
      → s.not_full ≡ qs
      → place v ≡ 1
      → s.owner ≡ some p
      → suc (length xs) < buffer_size
      → IsSound (signal_room p qs (go_to p v s)) xs
  unfolding signal_room go_to update
  signal_room-IsSound v [] e at own room = go_to-IsSound v own (lock-Ready xs v at)
  signal_room-IsSound v (q ∷ qs) e at own room =
      let full = subst (λ (l : List ℕ). Queued 2 s.points l) e calm.full in
      let at_room = full.at.0 in
      let (ne, out') = subst (λ (l : List ℕ). NotIn p l) e out.1 in
      record {
        calm = record {
          is = calm.is;
          history = calm.history;
          lock = Queued-snoc 1 s.points p v s.lock_waiting out.0 at calm.lock;
          full =
              Queued-update 2 s.points p v qs out' (record { at = full.at.1; once = full.once.1 });
          empty = Queued-update 3 s.points p v s.not_empty out.2 calm.empty;
        };
        owner_at = (
          (
            NotIn-snoc q p s.lock_waiting
                (AllAt-NotIn 1 s.points q s.lock_waiting calm.lock.at
                  (λ h. omega (arith, at_room, h)))
                (λ h. ne (sym h)),
            full.once.0,
            AllAt-NotIn 3 s.points q s.not_empty calm.empty.at (λ h. omega (arith, at_room, h)),
          ),
          rw (==_ne q p ne) (room-Ready xs (s.points q) at_room room),
        );
      }
