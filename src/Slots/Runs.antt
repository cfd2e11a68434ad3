-- ===== src/Slots/Runs.antt =====
-- What holds in every run of the programs of apps/q3.
use lab.Prelude.{
  ℕ, zero, suc, ◌+◌, ◌≡◌, ◌≤◌, ◌⊎◌, inl, inr, refl, sym, ◌∙◌, ap, subst, List, [], ◌∷◌, ◌++◌, arith,
  length, replicate,
}
use lab.Buffer.Ring.{Ring, buffer_size}
use lab.Buffer.RingLaws.{Stands}
use lab.Slots.Steps.{
  Shared, Proc, wait_empty, want_lock, writing, written, signal_full, lock_for, looking, matched,
  removing, removed, signal_empty, other_item, over, digit, next_product, next_item, Step,
  waited_empty, producer_locks, writes, producer_unlocks, signals_full, consumer_locks, finds,
  misses, waited_full, removes, consumer_unlocks, signals_empty, gives_up, Leads, stays, goes,
  set_up, spawned,
}
use lab.Slots.Claims.{
  to_write, to_signal, to_remove, to_free, holds_lock, sum, IsSafe, sum-replace, bit-le,
  idle_product, idle_item, oldest,
}
use lab.Slots.Safety.{Beside, Step-Safe}

sum-append : (f : Proc → ℕ) (ps qs : List Proc) → sum f (ps ++ qs) ≡ sum f ps + sum f qs
sum-append f [] qs = omega arith
sum-append f (p ∷ ps) qs = omega (arith, sum-append f ps qs)

sum-replicate : (f : Proc → ℕ) (n : ℕ) (p : Proc) → f p ≡ 0 → sum f (replicate n p) ≡ 0
sum-replicate f zero p e = refl
sum-replicate f (suc n) p e = omega (arith, e, sum-replicate f n p e)

-- No process has a claim at the start.
spawned-sum :
    (f : Proc → ℕ) (n : ℕ) → f (lock_for 0) ≡ 0 → f (wait_empty 0) ≡ 0 → sum f (spawned n) ≡ 0
unfolding spawned next_product next_item
spawned-sum f n item product = omega (
  arith,
  sum-append f (replicate n (lock_for 0)) (replicate n (wait_empty 0)),
  sum-replicate f n (lock_for 0) item,
  sum-replicate f n (wait_empty 0) product,
)

set_up-IsSafe : (page : ℕ → ℕ) (n : ℕ) → IsSafe (set_up page) (spawned n)
unfolding set_up
set_up-IsSafe page n = record {
  items = [];
  in_range = omega arith;
  stands = refl;
  history = refl;
  full = omega (arith, spawned-sum to_signal n refl refl, spawned-sum to_remove n refl refl);
  empty = omega (arith, spawned-sum to_write n refl refl, spawned-sum to_free n refl refl);
  lock = spawned-sum holds_lock n refl refl;
}

-- `IsSafe`, with one process apart from the others.
apart :
    (s : Shared) (before after : List Proc) (p : Proc)
    → let others = before ++ after in
      IsSafe s (before ++ p ∷ after)
      ≡ Beside
          (sum to_write others)
          (sum to_signal others)
          (sum to_remove others)
          (sum to_free others)
          (sum holds_lock others)
          s
          p
unfolding Beside
apart s before after p =
    rw
      (
        sum-replace to_write before after p,
        sum-replace to_signal before after p,
        sum-replace to_remove before after p,
        sum-replace to_free before after p,
        sum-replace holds_lock before after p,
      )
      refl

Leads-Safe : (s t : Shared) (ps qs : List Proc) → Leads s ps t qs → IsSafe s ps → IsSafe t qs
Leads-Safe s t ps qs (stays s' ps') safe = safe
Leads-Safe s t ps qs (goes s' t' u' before after p q ps' run step) safe =
    let others = before ++ after in
    let now = Leads-Safe s t' ps (before ++ p ∷ after) run safe in
    subst (λ (T : Type 0). T) (sym (apart u' before after q))
      (Step-Safe (sum to_write others) (sum to_signal others) (sum to_remove others)
        (sum to_free others) (sum holds_lock others) t' u' p q step
        (subst (λ (T : Type 0). T) (apart t' before after p) now))

spawned-Safe :
    (page : ℕ → ℕ) (n : ℕ) (t : Shared) (qs : List Proc)
    → Leads (set_up page) (spawned n) t qs
    → IsSafe t qs
spawned-Safe page n t qs run = Leads-Safe (set_up page) t (spawned n) qs run (set_up-IsSafe page n)

-- Whatever the order in which the producers and consumers of q3 run, the items that were written are
-- those that were removed, in the same order, followed by those that stand in the buffer from `r_idx` on;
-- these are 32 at most.
pub spawned-fifo :
    (page : ℕ → ℕ) (n : ℕ) (t : Shared) (qs : List Proc)
    → Leads (set_up page) (spawned n) t qs
    → (items : List ℕ) × (t.sent ≡ t.received ++ items)
      × Stands t.ring.buffer t.ring.r_idx items t.ring.w_idx
      × (length items ≤ buffer_size)
spawned-fifo page n t qs run =
    let safe = spawned-Safe page n t qs run in
    (safe.items, safe.history, safe.stands, omega (arith, safe.empty))

-- Whatever the order in which they run, one process of q3 at most holds the lock.
pub spawned-exclusive :
    (page : ℕ → ℕ) (n : ℕ) (t : Shared) (qs : List Proc)
    → Leads (set_up page) (spawned n) t qs
    → sum holds_lock qs ≤ 1
spawned-exclusive page n t qs run =
    omega (arith, (spawned-Safe page n t qs run).lock, bit-le t.locked)

-- A process that is about to remove an item, or has found the item it looks for, has that item in front.
abbrev pub Expects : Ring → Proc → Type 0
Expects b (matched i) = b.buffer b.r_idx ≡ digit i
Expects b (removing i) = b.buffer b.r_idx ≡ digit i
Expects b _ = Unit {0}

abbrev pub AllExpect : Ring → List Proc → Type 0
AllExpect b [] = Unit {0}
AllExpect b (p ∷ ps) = Expects b p × AllExpect b ps

AllExpect-split :
    (b : Ring) (before after : List Proc) (p : Proc)
    → AllExpect b (before ++ p ∷ after)
    → Expects b p × AllExpect b (before ++ after)
AllExpect-split b [] after p (here, rest) = (here, rest)
AllExpect-split b (r ∷ before) after p (here, rest) =
    let (one, others) = AllExpect-split b before after p rest in (one, (here, others))

AllExpect-join :
    (b : Ring) (before after : List Proc) (p : Proc)
    → Expects b p
    → AllExpect b (before ++ after)
    → AllExpect b (before ++ p ∷ after)
AllExpect-join b [] after p one others = (one, others)
AllExpect-join b (r ∷ before) after p one (here, rest) =
    (here, AllExpect-join b before after p one rest)

-- A process without the lock expects nothing of the buffer.
unlocked-Expects : (b : Ring) (p : Proc) → holds_lock p ≡ 0 → Expects b p
unlocked-Expects b (wait_empty i) e = tt
unlocked-Expects b (want_lock i) e = tt
unlocked-Expects b (writing i) e = tt
unlocked-Expects b (written i) e = tt
unlocked-Expects b (signal_full i) e = tt
unlocked-Expects b (lock_for i) e = tt
unlocked-Expects b (looking i) e = tt
unlocked-Expects b (matched i) e = absurd (omega (arith, e))
unlocked-Expects b (removing i) e = absurd (omega (arith, e))
unlocked-Expects b (removed i) e = tt
unlocked-Expects b (signal_empty i) e = tt
unlocked-Expects b (other_item i) e = tt
unlocked-Expects b over e = tt

unlocked-AllExpect : (b : Ring) (ps : List Proc) → sum holds_lock ps ≡ 0 → AllExpect b ps
unlocked-AllExpect b [] e = tt
unlocked-AllExpect b (p ∷ ps) e =
    (unlocked-Expects b p (omega (arith, e)), unlocked-AllExpect b ps (omega (arith, e)))

-- A step keeps what its process expects, and leaves the buffer alone or is made with the lock.
Step-Expects :
    (s t : Shared) (p q : Proc)
    → Step s p t q
    → Expects s.ring p
    → Expects t.ring q × ((s.ring ≡ t.ring) ⊎ (holds_lock p ≡ 1))
Step-Expects _ _ _ _ (waited_empty s i k e) h = (tt, inl refl)
Step-Expects _ _ _ _ (producer_locks s i e) h = (tt, inl refl)
Step-Expects _ _ _ _ (writes s i) h = (tt, inr refl)
Step-Expects _ _ _ _ (producer_unlocks s i) h = (tt, inl refl)
Step-Expects _ _ _ _ (signals_full s i) h = (
  unlocked-Expects s.ring (next_product (i + 1)) (idle_product holds_lock (i + 1) (λ j. refl) refl),
  inl refl,
)
Step-Expects _ _ _ _ (consumer_locks s i e) h = (tt, inl refl)
Step-Expects _ _ _ _ (finds s i e) h = (e, inl refl)
Step-Expects _ _ _ _ (misses s i e) h = (tt, inl refl)
Step-Expects _ _ _ _ (waited_full s i k e) h = (h, inl refl)
Step-Expects _ _ _ _ (removes s i) h = (tt, inr refl)
Step-Expects _ _ _ _ (consumer_unlocks s i) h = (tt, inl refl)
Step-Expects _ _ _ _ (signals_empty s i) h = (
  unlocked-Expects s.ring (next_item (i + 1)) (idle_item holds_lock (i + 1) (λ j. refl) refl),
  inl refl,
)
Step-Expects _ _ _ _ (gives_up s i) h = (tt, inl refl)

module _ (page : ℕ → ℕ) (n : ℕ) where
  spawned-AllExpect :
      (s t : Shared) (ps qs : List Proc)
      → s ≡ set_up page
      → ps ≡ spawned n
      → Leads s ps t qs
      → AllExpect t.ring qs
  spawned-AllExpect s t ps qs at_start all_start (stays s' ps') =
      unlocked-AllExpect s.ring ps
        (ap (sum holds_lock) all_start ∙ spawned-sum holds_lock n refl refl)
  spawned-AllExpect s t ps qs at_start all_start (goes s' t' u' before after p q ps' run step) =
      let run' =
        subst (λ (x : Shared). Leads x (spawned n) t' (before ++ p ∷ after)) at_start
          (subst (λ (x : List Proc). Leads s x t' (before ++ p ∷ after)) all_start run) in
      let (mine, others) =
        AllExpect-split t'.ring before after p
          (spawned-AllExpect s t' ps (before ++ p ∷ after) at_start all_start run) in
      let (after_step, how) = Step-Expects t' u' p q step mine in
      let others' : AllExpect u'.ring (before ++ after) = elim how [
        | inl same ↦ subst (λ (b : Ring). AllExpect b (before ++ after)) same others
        | inr lock ↦ unlocked-AllExpect u'.ring (before ++ after) (
            omega (
              arith,
              lock,
              spawned-exclusive page n t' (before ++ p ∷ after) run',
              sum-replace holds_lock before after p,
            ))
      ] in
      AllExpect-join u'.ring before after q after_step others'

-- Whatever the order in which they run, a consumer of q3 that is about to remove an item has the item
-- that it expects in front of it, and this is the oldest of the items that were written and not removed.
pub spawned-Expects :
    (page : ℕ → ℕ) (n i : ℕ) (t : Shared) (before after : List Proc)
    → Leads (set_up page) (spawned n) t (before ++ removing i ∷ after)
    → (rest : List ℕ) × (t.sent ≡ t.received ++ digit i ∷ rest)
spawned-Expects page n i t before after run =
    let safe = spawned-Safe page n t (before ++ removing i ∷ after) run in
    let (expected, _) = AllExpect-split t.ring before after (removing i) (
      spawned-AllExpect page n (set_up page) t (spawned n) (before ++ removing i ∷ after) refl refl
        run) in
    let (rest, split, _) =
      oldest t.ring.buffer t.ring.r_idx t.ring.w_idx safe.items safe.stands
        (omega (arith, safe.full, sum-replace to_remove before after (removing i))) in
    (
      rest,
      safe.history
          ∙ ap (λ (l : List ℕ). t.received ++ l) (split ∙ ap (λ (x : ℕ). x ∷ rest) expected),
    )
