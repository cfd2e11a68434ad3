-- ===== src/Monitor/Runs.antt =====
-- What holds in every run of the programs of apps/q4.
use lab.Prelude.{ℕ, ◌≡◌, refl, ap, subst, ◌∙◌, List, [], ◌∷◌, ◌++◌, arith, Option, some}
use lab.Buffer.RingLaws.{IsRing}
use lab.Slots.Steps.{digit}
use lab.Monitor.Steps.{take, Monitor, turn, run, initial}
use lab.Monitor.Sleepers.{place}
use lab.Monitor.Soundness.{Ready, OwnerAt, IsSound}
use lab.Monitor.Turns.{Sound, turn_at-Sound}

run-Sound : (ps : List ℕ) (s : Monitor) (xs : List ℕ) → IsSound s xs → Sound (run ps s)
unfolding run turn Sound
run-Sound [] s xs sound = (xs, sound)
run-Sound (p ∷ ps) s xs sound =
    let (ys, sound') = turn_at-Sound p (s.points p) s xs refl sound in
    run-Sound ps (turn p s) ys sound'

initial-IsSound : (page : ℕ → ℕ) (n : ℕ) → IsSound (initial page n) []
unfolding initial
initial-IsSound page n = record {
  calm = record {
    is = record { in_range = omega arith; room = omega arith; stands = refl };
    history = refl;
    lock = record { at = tt; once = tt };
    full = record { at = tt; once = tt };
    empty = record { at = tt; once = tt };
  };
  owner_at = tt;
}

-- Whatever the order in which the producers and consumers of q4 take their turns, the items that were
-- written are those that were removed, in the same order, followed by those that stand in the buffer;
-- these are 31 at most, so no write overwrites an item, although a process that was woken does not check
-- again.
pub run-fifo :
    (page : ℕ → ℕ) (n : ℕ) (ps : List ℕ)
    → (items : List ℕ) × ((run ps (initial page n)).sent
        ≡ (run ps (initial page n)).received ++ items)
      × IsRing (run ps (initial page n)).ring items
unfolding Sound
run-fifo page n ps =
    let (items, sound) = run-Sound ps (initial page n) [] (initial-IsSound page n) in
    (items, sound.calm.history, sound.calm.is)

-- In every run of q4, the consumer that has the lock and is about to remove an item removes the one that
-- it expects, and this is the oldest of those that were written and not removed.
pub run-takes :
    (page : ℕ → ℕ) (n p i : ℕ) (ps : List ℕ)
    → (run ps (initial page n)).owner ≡ some p
    → (run ps (initial page n)).points p ≡ take i
    → (rest : List ℕ) × ((run ps (initial page n)).sent
        ≡ (run ps (initial page n)).received ++ digit i ∷ rest)
unfolding Sound
run-takes page n p i ps own place =
    let s = run ps (initial page n) in
    let (items, sound) = run-Sound ps (initial page n) [] (initial-IsSound page n) in
    let (_, ready) = subst (λ (o : Option ℕ). OwnerAt o s items) own sound.owner_at in
    let (rest, split) = subst (Ready items) place ready in
    (rest, sound.calm.history ∙ ap (λ (l : List ℕ). s.received ++ l) split)
