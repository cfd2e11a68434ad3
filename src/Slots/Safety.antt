-- ===== src/Slots/Safety.antt =====
-- In apps/q3 the buffer is a queue whatever the order of the steps: no item is lost or overwritten, none
-- is removed twice, and one process at a time holds the lock.
use lab.Prelude.{
  ℕ, suc, ◌+◌, ◌≡◌, refl, sym, ◌∙◌, ap, Bool, true, false, List, [], ◌∷◌, ◌++◌, arith, length,
  length-append,
}
use lab.Buffer.RingLaws.{Stands-snoc}
use lab.Slots.Steps.{
  Shared, Proc, wait_empty, want_lock, writing, written, signal_full, lock_for, looking, matched,
  removing, removed, signal_empty, other_item, digit, next_product, next_item, put_item, advance,
  Step, waited_empty, producer_locks, writes, producer_unlocks, signals_full, consumer_locks, finds,
  misses, waited_full, removes, consumer_unlocks, signals_empty, gives_up,
}
use lab.Slots.Claims.{
  to_write, to_signal, to_remove, to_free, holds_lock, bit, Safe, idle_product, idle_item,
  append_assoc, bit-le, oldest,
}

module _ (s : Shared) (u v x y h : ℕ) (safe : Safe s u v x y h) where
  -- A step that changes neither the buffer nor the histories.
  counted :
      (e f : ℕ) (l : Bool) (u' v' x' y' h' : ℕ)
      → f + v' + x' ≡ s.full_slots + v + x
      → e + u' + y' ≡ s.empty_slots + u + y
      → h' ≡ bit l
      → Safe (record s { empty_slots = e; full_slots = f; locked = l }) u' v' x' y' h'
  counted e f l u' v' x' y' h' full empty lock = record {
    items = safe.items;
    in_range = safe.in_range;
    stands = safe.stands;
    history = safe.history;
    full = omega (arith, safe.full, full);
    empty = omega (arith, safe.empty, empty);
    lock = lock;
  }

  pub written-Safe :
      (product u' v' : ℕ)
      → u ≡ suc u'
      → v' ≡ suc v
      → Safe
          (record s { ring = put_item product s.ring; sent = s.sent ++ product ∷ [] })
          u'
          v'
          x
          y
          h
  unfolding put_item
  written-Safe product u' v' claimed filled = record {
    items = safe.items ++ product ∷ [];
    in_range = safe.in_range;
    stands =
        Stands-snoc s.ring.buffer s.ring.r_idx s.ring.w_idx product safe.items safe.in_range
          (omega (arith, safe.empty, claimed)) safe.stands;
    history =
        ap (λ (l : List ℕ). l ++ product ∷ []) safe.history
        ∙ append_assoc s.received safe.items (product ∷ []);
    full = omega (arith, safe.full, filled, length-append {0} safe.items (product ∷ []));
    empty = omega (arith, safe.empty, claimed, length-append {0} safe.items (product ∷ []));
    lock = safe.lock;
  }

  pub removed-Safe :
      (x' y' : ℕ)
      → x ≡ suc x'
      → y' ≡ suc y
      → Safe
          (record s {
            ring = advance s.ring;
            received = s.received ++ s.ring.buffer s.ring.r_idx ∷ [];
          })
          u
          v
          x'
          y'
          h
  unfolding advance
  removed-Safe x' y' claimed taken =
      let (rest, split, stands) =
        oldest s.ring.buffer s.ring.r_idx s.ring.w_idx safe.items safe.stands
          (omega (arith, safe.full, claimed)) in
      record {
        items = rest;
        in_range = omega arith;
        stands = stands;
        history =
            safe.history
            ∙ (ap (λ (l : List ℕ). s.received ++ l) split
                ∙ sym (append_assoc s.received (s.ring.buffer s.ring.r_idx ∷ []) rest));
        full = omega (arith, safe.full, claimed, ap length split);
        empty = omega (arith, safe.empty, taken, ap length split);
        lock = safe.lock;
      }

module _ (u v x y h : ℕ) where
  -- The sums, with the process `p` besides the others.
  unfoldable pub Beside : Shared → Proc → Type 0
  Beside s p =
      Safe s (to_write p + u) (to_signal p + v) (to_remove p + x) (to_free p + y) (holds_lock p + h)

  recount :
      (s : Shared) (p q : Proc) (e f : ℕ) (l : Bool)
      → Beside s p
      → f + (to_signal q + v) + (to_remove q + x)
        ≡ s.full_slots + (to_signal p + v) + (to_remove p + x)
      → e + (to_write q + u) + (to_free q + y) ≡ s.empty_slots + (to_write p + u) + (to_free p + y)
      → holds_lock q + h ≡ bit l
      → Beside (record s { empty_slots = e; full_slots = f; locked = l }) q
  unfolding Beside
  recount s p q e f l safe =
      counted s (to_write p + u) (to_signal p + v) (to_remove p + x) (to_free p + y)
        (holds_lock p + h) safe e f l (to_write q + u) (to_signal q + v) (to_remove q + x)
        (to_free q + y) (holds_lock q + h)

  pub Step-Safe : (s t : Shared) (p q : Proc) → Step s p t q → Beside s p → Beside t q
  unfolding Beside
  Step-Safe _ _ _ _ (waited_empty s i k e) safe =
      recount s (wait_empty i) (want_lock i) k s.full_slots s.locked safe (omega arith)
        (omega (arith, e)) safe.lock
  Step-Safe _ _ _ _ (producer_locks s i e) safe =
      recount s (want_lock i) (writing i) s.empty_slots s.full_slots true safe (omega arith)
        (omega arith) (omega (arith, safe.lock, ap bit e))
  Step-Safe _ _ _ _ (writes s i) safe =
      written-Safe s (to_write (writing i) + u) (to_signal (writing i) + v) (0 + x) (0 + y) (1 + h)
        safe (digit i) (to_write (written i) + u) (to_signal (written i) + v) (omega arith)
        (omega arith)
  Step-Safe _ _ _ _ (producer_unlocks s i) safe =
      recount s (written i) (signal_full i) s.empty_slots s.full_slots false safe (omega arith)
        (omega arith) (omega (arith, safe.lock, bit-le s.locked))
  Step-Safe _ _ _ _ (signals_full s i) safe =
      recount s (signal_full i) (next_product (i + 1)) s.empty_slots (suc s.full_slots) s.locked
        safe
        (omega (
          arith,
          idle_product to_signal (i + 1) (λ j. refl) refl,
          idle_product to_remove (i + 1) (λ j. refl) refl,
        ))
        (omega (
          arith,
          idle_product to_write (i + 1) (λ j. refl) refl,
          idle_product to_free (i + 1) (λ j. refl) refl,
        ))
        (omega (arith, safe.lock, idle_product holds_lock (i + 1) (λ j. refl) refl))
  Step-Safe _ _ _ _ (consumer_locks s i e) safe =
      recount s (lock_for i) (looking i) s.empty_slots s.full_slots true safe (omega arith)
        (omega arith) (omega (arith, safe.lock, ap bit e))
  Step-Safe _ _ _ _ (finds s i e) safe = safe
  Step-Safe _ _ _ _ (misses s i e) safe = safe
  Step-Safe _ _ _ _ (waited_full s i k e) safe =
      recount s (matched i) (removing i) s.empty_slots k s.locked safe (omega (arith, e))
        (omega arith) safe.lock
  Step-Safe _ _ _ _ (removes s i) safe =
      removed-Safe s (0 + u) (0 + v) (to_remove (removing i) + x) (to_free (removing i) + y) (1 + h)
        safe (to_remove (removed i) + x) (to_free (removed i) + y) (omega arith) (omega arith)
  Step-Safe _ _ _ _ (consumer_unlocks s i) safe =
      recount s (removed i) (signal_empty i) s.empty_slots s.full_slots false safe (omega arith)
        (omega arith) (omega (arith, safe.lock, bit-le s.locked))
  Step-Safe _ _ _ _ (signals_empty s i) safe =
      recount s (signal_empty i) (next_item (i + 1)) (suc s.empty_slots) s.full_slots s.locked safe
        (omega (
          arith,
          idle_item to_signal (i + 1) (λ j. refl) refl,
          idle_item to_remove (i + 1) (λ j. refl) refl,
        ))
        (omega (
          arith,
          idle_item to_write (i + 1) (λ j. refl) refl,
          idle_item to_free (i + 1) (λ j. refl) refl,
        ))
        (omega (arith, safe.lock, idle_item holds_lock (i + 1) (λ j. refl) refl))
  Step-Safe _ _ _ _ (gives_up s i) safe =
      recount s (other_item i) (lock_for i) s.empty_slots s.full_slots false safe (omega arith)
        (omega arith) (omega (arith, safe.lock, bit-le s.locked))
