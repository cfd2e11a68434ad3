-- ===== src/Queue/Unlinked.antt =====
-- How AQueueAllocLink and AQueueRemove of os/queue.c take a link out of its place between `p` and
-- `n`.
use lab.Prelude.{
  ◌≡◌, ◌≢◌, refl, sym, ◌∙◌, ap, false, inl, inr, List, [], ◌∷◌, ◌++◌, arith, ◌==◌, if◌then◌else◌,
  Bool-cases, ==_self, ==_ne,
}
use lab.Prelude.Int.{pos, ◌-ℤ◌}
use lab.Run.{Returns, returns}
use lab.Queue.Store.{Ptr, null, Store, Queue, update}
use mathlib.Core.List.{append-nil}
use mathlib.Core.Bool.{false≢true}
use lab.Queue.Shape.{
  Links, contains, head_or, last_or, IsNode, Chain, Distinct, IsQueue, contains-append, Chain-split,
  Chain-last, last_or-append, Distinct-split, Apart,
}
use lab.Queue.Inserted.{ne-head_or, ne-last_or}
use lab.Queue.Removal.{drop_ends, join_around}

-- The header of `q` after `l` has left the ends of its list.
abbrev pub trimmed : Queue → (p n : Ptr) → Queue
trimmed r p n = record {
  first = if p == null then n else r.first;
  last = if n == null then p else r.last;
  nitems = r.nitems;
}

pub record Trimmed (s : Store) (q p n : Ptr) (t : Store) : Type 0 where
  pub links : t.links ≡ s.links
  pub header : t.queues q ≡ trimmed (s.queues q) p n
  pub others : (k : Ptr) → k ≢ q → t.queues k ≡ s.queues k

pub record Joined (s : Store) (p l n : Ptr) (t : Store) : Type 0 where
  pub links :
      (a : Ptr)
      → a ≢ null
      → t.links a ≡ (
          if a == p
          then record (s.links a) { next = n }
          else if a == n
          then record (s.links a) { prev = p }
          else s.links a)
  pub queues : t.queues ≡ s.queues

module _ (s : Store) (q p l n : Ptr) (q_ne : q ≢ null) (l_ne : l ≢ null)
    (next : (s.links l).next ≡ n) (prev : (s.links l).prev ≡ p) where
  pub drop_ends-Trimmed :
      (((s.queues q).first == l) ≡ (p == null))
      → (((s.queues q).last == l) ≡ (n == null))
      → Returns (λ _ t. Trimmed s q p n t) (drop_ends q l s)
  unfolding drop_ends update
  drop_ends-Trimmed f z = elim (Bool-cases (p == null)) [
    | inl e ↦ elim (Bool-cases (n == null)) [
      | inl d ↦
          simp (==_ne l null l_ne, ==_ne q null q_ne, f, z, e, d, next, prev, ==_self q)
            (returns
              (record { links = refl; header = ground arith; others = λ k ne. ground arith }))
      | inr d ↦
          simp (==_ne l null l_ne, ==_ne q null q_ne, f, z, e, d, next, ==_self q)
            (returns
              (record { links = refl; header = ground arith; others = λ k ne. ground arith }))
    ]
    | inr e ↦ elim (Bool-cases (n == null)) [
      | inl d ↦
          simp (==_ne l null l_ne, ==_ne q null q_ne, f, z, e, d, prev)
            (returns
              (record { links = refl; header = ground arith; others = λ k ne. ground arith }))
      | inr d ↦
          simp (==_ne q null q_ne, f, z, e, d)
            (returns
              (record { links = refl; header = ground arith; others = λ k ne. ground arith }))
    ]
  ]

  pub join_around-Joined :
      p ≢ l → n ≢ l → (p ≡ n → p ≡ null) → Returns (λ _ t. Joined s p l n t) (join_around l s)
  unfolding join_around update
  join_around-Joined pl nl pn = elim (Bool-cases (p == null)) [
    | inl e ↦ elim (Bool-cases (n == null)) [
      | inl d ↦
          simp (==_ne l null l_ne, next, prev, e, d)
            (returns (record { links = λ a ne. ground arith; queues = refl }))
      | inr d ↦
          simp (==_ne l null l_ne, next, prev, e, d)
            (returns (record { links = λ a ne. ground arith; queues = refl }))
    ]
    | inr e ↦ elim (Bool-cases (n == null)) [
      | inl d ↦
          simp (==_ne l null l_ne, next, prev, e, d, ==_ne l p (λ x. pl (sym x)))
            (returns (record { links = λ a ne. ground arith; queues = refl }))
      | inr d ↦
          simp (==_ne l null l_ne, next, prev, e, d, ==_ne l p (λ x. pl (sym x)))
            (returns (record { links = λ a ne. ground arith; queues = refl }))
    ]
  ]

-- `l` has left its place between `p` and `n` in the queue `q`; its own fields may have changed.
pub record Unlinked (s : Store) (q p l n : Ptr) (t : Store) : Type 0 where
  pub links :
      (a : Ptr)
      → a ≢ null
      → a ≢ l
      → t.links a ≡ (
          if a == p
          then record (s.links a) { next = n }
          else if a == n
          then record (s.links a) { prev = p }
          else s.links a)
  pub header : t.queues q ≡ (
      let r = s.queues q in
      record {
        first = if p == null then n else r.first;
        last = if n == null then p else r.last;
        nitems = r.nitems -ℤ pos 1;
      })
  pub others : (k : Ptr) → k ≢ q → t.queues k ≡ s.queues k

pub head_or-erase :
    (h : Links) (q l : Ptr) (xs ys : List Ptr) (n f : Ptr)
    → Chain h q null xs n
    → f ≡ head_or null (xs ++ l ∷ ys)
    → (if last_or null xs == null then head_or null ys else f) ≡ head_or null (xs ++ ys)
head_or-erase h q l [] ys n f c e = refl
head_or-erase h q l (x ∷ xs) ys n f c e =
    rw (==_ne (last_or x xs) null (Chain-last h q null x xs n c).0) e

pub last_or-erase :
    (h : Links) (q l p : Ptr) (xs ys : List Ptr) (z : Ptr)
    → Chain h q p ys null
    → z ≡ last_or null (xs ++ l ∷ ys)
    → (if head_or null ys == null then last_or null xs else z) ≡ last_or null (xs ++ ys)
last_or-erase h q l p xs [] z c e = ap (last_or null) (sym (append-nil xs))
last_or-erase h q l p xs (y ∷ ys) z (node, c) e =
    rw (==_ne y null node.not_null)
      (e ∙ last_or-append null xs l (y ∷ ys) ∙ sym (last_or-append null xs y ys))

-- A list with `l` between `xs` and `ys`, taken apart.
module _ (s : Store) (q l : Ptr) (xs ys : List Ptr) (is : IsQueue s q (xs ++ l ∷ ys)) where
  abbrev pub before : Ptr
  before = last_or null xs

  abbrev pub behind : Ptr
  behind = head_or null ys

  pub parts : Chain s.links q null xs l × Chain s.links q before (l ∷ ys) null
  parts = Chain-split s.links q null xs (l ∷ ys) null is.chain

  pub IsNode-of : IsNode s.links q before behind l
  IsNode-of = parts.1.0

  pub apart : Distinct xs × Distinct (l ∷ ys) × Apart xs (l ∷ ys)
  apart = Distinct-split xs (l ∷ ys) is.distinct

  pub out_left : contains l xs ≡ false
  out_left = elim (Bool-cases (contains l xs)) [
    | inl i ↦ absurd (false≢true (sym (apart.2 l i) ∙ ground arith))
    | inr o ↦ o
  ]

  pub before_ne : before ≢ l
  before_ne e = ne-last_or l xs IsNode-of.not_null out_left (sym e)

  pub behind_ne : behind ≢ l
  behind_ne e = ne-head_or l ys IsNode-of.not_null apart.1.0 (sym e)

  pub out_of_rest : contains l (xs ++ ys) ≡ false
  out_of_rest = ground (arith, contains-append l xs ys, out_left, apart.1.0)
