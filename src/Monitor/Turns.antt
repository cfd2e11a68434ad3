-- ===== src/Monitor/Turns.antt =====
-- What a turn of a process of apps/q4 keeps, at each point of the two loops.
use lab.Prelude.{
  ℕ, suc, ◌+◌, ◌≡◌, ◌≢◌, ◌<◌, refl, sym, ap, subst, ◌∙◌, inl, inr, false, List, [], ◌∷◌, ◌++◌,
  arith, ◌==◌, if◌then◌else◌, ==_ne, ==_iff, Bool-cases, Option, none, some, length, length-append,
}
use lab.Queue.Store.{update}
use lab.Buffer.Ring.{Ring, buffer_size, next_idx}
use lab.Buffer.RingLaws.{IsRing, Stands, Stands-end, Stands-snoc}
use lab.Slots.Steps.{digit, put_item, advance}
use lab.Slots.Claims.{oldest, append_assoc}
use lab.Monitor.Steps.{
  Point, start_product, check_room, write, tell_data, unlock_product, start_item, check_data, look,
  take, tell_room, unlock_item, over, Monitor, resume_product, resume_item, go_to, acquire, act,
  is_owner, turn_at,
}
use lab.Monitor.Sleepers.{place, AllAt-NotIn, Queued-update, Queued-snoc, NotIn-snoc}
use lab.Monitor.Soundness.{
  Calm, Ready, Outside, OwnerAt, IsSound, go_to-IsSound, release-IsSound, wait_room-IsSound,
  wait_data-IsSound, signal_data-IsSound, signal_room-IsSound, lock-Ready,
}

-- The test of the producer, and that of the consumer.
has_room :
    (b : Ring) (xs : List ℕ)
    → IsRing b xs
    → (next_idx b.w_idx == b.r_idx) ≡ false
    → suc (length xs) < buffer_size
has_room b xs is some_room =
    ground
      (arith, Stands-end b.buffer b.r_idx b.w_idx xs is.in_range is.stands, is.in_range, is.room)

has_data : (b : Ring) (xs : List ℕ) → IsRing b xs → (b.w_idx == b.r_idx) ≡ false → 0 < length xs
has_data b [] is some_data = ground (arith, is.stands)
has_data b (x ∷ xs) is some_data = omega arith

unfoldable pub Sound : Monitor → Type 0
Sound s = (xs : List ℕ) × IsSound s xs

module _ (p : ℕ) (s : Monitor) (xs : List ℕ) (calm : Calm s xs) (out : Outside p s)
    (own : s.owner ≡ some p) where
  writes-IsSound :
      (i : ℕ) → suc (length xs) < buffer_size → IsSound (act p (write i) s) (xs ++ digit i ∷ [])
  unfolding act put_item
  writes-IsSound i room =
      go_to-IsSound p (record s { ring = put_item (digit i) s.ring; sent = s.sent ++ digit i ∷ [] })
        (xs ++ digit i ∷ [])
        (record {
          is = record {
            in_range = calm.is.in_range;
            room = omega (arith, room, length-append {0} xs (digit i ∷ []));
            stands =
                Stands-snoc s.ring.buffer s.ring.r_idx s.ring.w_idx (digit i) xs calm.is.in_range
                  calm.is.room calm.is.stands;
          };
          history =
              ap (λ (l : List ℕ). l ++ digit i ∷ []) calm.history
              ∙ append_assoc s.received xs (digit i ∷ []);
          lock = calm.lock;
          full = calm.full;
          empty = calm.empty;
        })
        out (tell_data i) own (omega (arith, length-append {0} xs (digit i ∷ [])))

  takes-IsSound : (i : ℕ) (rest : List ℕ) → xs ≡ digit i ∷ rest → IsSound (act p (take i) s) rest
  unfolding act advance
  takes-IsSound i rest split =
      let (here, stands) =
        subst (λ (l : List ℕ). Stands s.ring.buffer s.ring.r_idx l s.ring.w_idx) split
          calm.is.stands in
      let size = ap (length {A = ℕ}) split in
      go_to-IsSound p
        (record s {
          ring = advance s.ring;
          received = s.received ++ s.ring.buffer s.ring.r_idx ∷ [];
        })
        rest
        (record {
          is = record {
            in_range = omega arith;
            room = omega (arith, size, calm.is.room);
            stands = stands;
          };
          history =
              calm.history
              ∙ (ap (λ (l : List ℕ). s.received ++ l) (split ∙ ap (λ (x : ℕ). x ∷ rest) (sym here))
                  ∙ sym (append_assoc s.received (s.ring.buffer s.ring.r_idx ∷ []) rest));
          lock = calm.lock;
          full = calm.full;
          empty = calm.empty;
        })
        out (tell_room i) own (omega (arith, size, calm.is.room))

  checks_room-IsSound : (i : ℕ) → IsSound (act p (check_room i) s) xs
  unfolding act
  checks_room-IsSound i = elim (Bool-cases (next_idx s.ring.w_idx == s.ring.r_idx)) [
    | inl full ↦ rw full (wait_room-IsSound p s xs calm out (write i) refl)
    | inr some_room ↦
        rw some_room
          (go_to-IsSound p s xs calm out (write i) own (has_room s.ring xs calm.is some_room))
  ]

  checks_data-IsSound : (i : ℕ) → IsSound (act p (check_data i) s) xs
  unfolding act
  checks_data-IsSound i = elim (Bool-cases (s.ring.w_idx == s.ring.r_idx)) [
    | inl empty ↦ rw empty (wait_data-IsSound p s xs calm out (look i) refl)
    | inr some_data ↦
        rw some_data
          (go_to-IsSound p s xs calm out (look i) own (has_data s.ring xs calm.is some_data))
  ]

  looks-IsSound : (i : ℕ) → 0 < length xs → IsSound (act p (look i) s) xs
  unfolding act
  looks-IsSound i some_item = elim (Bool-cases (s.ring.buffer s.ring.r_idx == digit i)) [
    | inl found ↦
        let (rest, split, _) =
          oldest s.ring.buffer s.ring.r_idx s.ring.w_idx xs calm.is.stands some_item in
        rw found (
          go_to-IsSound p s xs calm out (take i) own
            (rest, split ∙ ap (λ (x : ℕ). x ∷ rest) ((==_iff _ _).0 found)))
    | inr other ↦ rw other (go_to-IsSound p s xs calm out (unlock_item i) own tt)
  ]

  act-Sound : (v : Point) → Ready xs v → Sound (act p v s)
  unfolding Sound
  act-Sound (start_product i) ready = elim ready [ ]
  act-Sound (check_room i) ready = (xs, checks_room-IsSound i)
  act-Sound (write i) ready = (xs ++ digit i ∷ [], writes-IsSound i ready)
  act-Sound (tell_data i) ready = (
    xs,
    unfold act in
        signal_data-IsSound p s xs calm out (unlock_product i) s.not_empty refl refl own ready,
  )
  act-Sound (unlock_product i) ready =
      (xs, unfold act in release-IsSound p s xs calm out (resume_product (i + 1)))
  act-Sound (start_item i) ready = elim ready [ ]
  act-Sound (check_data i) ready = (xs, checks_data-IsSound i)
  act-Sound (look i) ready = (xs, looks-IsSound i ready)
  act-Sound (take i) (rest, split) = (rest, takes-IsSound i rest split)
  act-Sound (tell_room i) ready = (
    xs,
    unfold act in
        signal_room-IsSound p s xs calm out (unlock_item (i + 1)) s.not_full refl refl own ready,
  )
  act-Sound (unlock_item i) ready =
      (xs, unfold act in release-IsSound p s xs calm out (resume_item i))
  act-Sound over ready = elim ready [ ]

away-Outside :
    (p : ℕ) (s : Monitor) (xs : List ℕ) → place (s.points p) ≡ 0 → Calm s xs → Outside p s
away-Outside p s xs away calm = (
  AllAt-NotIn 1 s.points p s.lock_waiting calm.lock.at (λ h. omega (arith, away, h)),
  AllAt-NotIn 2 s.points p s.not_full calm.full.at (λ h. omega (arith, away, h)),
  AllAt-NotIn 3 s.points p s.not_empty calm.empty.at (λ h. omega (arith, away, h)),
)

-- A process outside that asks for the lock.
acquire-IsSound :
    (p : ℕ) (v : Point) (o : Option ℕ) (s : Monitor) (xs : List ℕ)
    → s.owner ≡ o
    → place v ≡ 1
    → place (s.points p) ≡ 0
    → (Ready xs (s.points p) → ⊥)
    → IsSound s xs
    → IsSound (acquire p v o s) xs
unfolding acquire go_to update
acquire-IsSound p v none s xs free at away idle sound =
    let calm = sound.calm in
    go_to-IsSound p (record s { owner = some p }) xs
      (record {
        is = calm.is;
        history = calm.history;
        lock = calm.lock;
        full = calm.full;
        empty = calm.empty;
      })
      (away-Outside p s xs away calm) v refl (lock-Ready xs v at)
acquire-IsSound p v (some q) s xs free at away idle sound =
    let calm = sound.calm in
    let out = away-Outside p s xs away calm in
    let (out_q, ready) = subst (λ (o : Option ℕ). OwnerAt o s xs) free sound.owner_at in
    let p_ne : p ≢ q = λ e. idle (subst (λ (x : ℕ). Ready xs (s.points x)) (sym e) ready) in
    let q_ne : q ≢ p = λ e. p_ne (sym e) in
    let s' = record s { points = update s.points p v; lock_waiting = s.lock_waiting ++ p ∷ [] } in
    record {
      calm = record {
        is = calm.is;
        history = calm.history;
        lock = Queued-snoc 1 s.points p v s.lock_waiting out.0 at calm.lock;
        full = Queued-update 2 s.points p v s.not_full out.1 calm.full;
        empty = Queued-update 3 s.points p v s.not_empty out.2 calm.empty;
      };
      owner_at =
          subst (λ (o : Option ℕ). OwnerAt o s' xs) (sym free)
            (
              (NotIn-snoc q p s.lock_waiting out_q.0 p_ne, out_q.1, out_q.2),
              rw (==_ne q p q_ne) ready,
            );
    }

-- A turn of a process that is inside: it acts if it has the lock.
inside-Sound :
    (p : ℕ) (s : Monitor) (xs : List ℕ) (o : Option ℕ)
    → s.owner ≡ o
    → IsSound s xs
    → Sound (if is_owner o p then act p (s.points p) s else s)
unfolding is_owner Sound
inside-Sound p s xs none own sound = (xs, sound)
inside-Sound p s xs (some q) own sound = elim (Bool-cases (q == p)) [
  | inl e ↦
      let own' = own ∙ ap (λ (x : ℕ). some x) ((==_iff q p).0 e) in
      let (out, ready) = subst (λ (x : Option ℕ). OwnerAt x s xs) own' sound.owner_at in
      rw e (act-Sound p s xs sound.calm out own' (s.points p) ready)
  | inr e ↦ rw e (xs, sound)
]

pub turn_at-Sound :
    (p : ℕ) (v : Point) (s : Monitor) (xs : List ℕ)
    → s.points p ≡ v
    → IsSound s xs
    → Sound (turn_at p v s)
unfolding turn_at Sound
turn_at-Sound p (start_product i) s xs e sound = (
  xs,
  acquire-IsSound p (check_room i) s.owner s xs refl refl (ap place e)
      (λ r. elim (subst (Ready xs) e r) [ ]) sound,
)
turn_at-Sound p (start_item i) s xs e sound = (
  xs,
  acquire-IsSound p (check_data i) s.owner s xs refl refl (ap place e)
      (λ r. elim (subst (Ready xs) e r) [ ]) sound,
)
turn_at-Sound p v s xs e sound =
    subst (λ (x : Point). Sound (if is_owner s.owner p then act p x s else s)) e
      (inside-Sound p s xs s.owner refl sound)
