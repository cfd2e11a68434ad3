-- ===== src/Queue/Inserted.antt =====
-- The queue insertions of os/queue.c on lists: what stands in each queue afterwards.
use lab.Prelude.{
  ◌≡◌, ◌≢◌, refl, sym, ◌∙◌, true, false, inl, inr, List, [], ◌∷◌, ◌++◌, arith, ◌==◌, if◌then◌else◌,
  Bool-cases, ==_ne, length-append,
}
use lab.Queue.Store.{Ptr, null, Store}
use lab.Queue.Shape.{
  Agree, Links, contains, head_or, last_or, IsNode, Chain, Distinct, IsQueue, contains-append,
  Chain-frame, Chain-split, Chain-append, Chain-queue, Chain-last, contains-last_or, last_or-append,
  ne_of_contains, Distinct-append, Distinct-split, Apart, Chain-relink_last, Chain-relink_first,
}
use mathlib.Core.Bool.{false≢true}
use lab.Queue.Splice.{Spliced}

-- The object of each link stays.
abbrev pub SameObjects : Store → Store → Type 0
SameObjects s t = (a : Ptr) → a ≢ null → (t.links a).object ≡ (s.links a).object

pub ne-head_or : (a : Ptr) (xs : List Ptr) → a ≢ null → contains a xs ≡ false → a ≢ head_or null xs
ne-head_or a [] ne out = ne
ne-head_or a (x ∷ xs) ne out = ground arith

pub ne-last_or : (a : Ptr) (xs : List Ptr) → a ≢ null → contains a xs ≡ false → a ≢ last_or null xs
ne-last_or a [] ne out e = ne e
ne-last_or a (x ∷ xs) ne out e =
    ne_of_contains (last_or x xs) a (x ∷ xs) (contains-last_or x xs) out (sym e)

head_or-insert :
    (h : Links) (q l : Ptr) (xs ys : List Ptr) (n f : Ptr)
    → Chain h q null xs n
    → f ≡ head_or null (xs ++ ys)
    → (if last_or null xs == null then l else f) ≡ head_or null (xs ++ l ∷ ys)
head_or-insert h q l [] ys n f c e = refl
head_or-insert h q l (x ∷ xs) ys n f c e = ground (arith, Chain-last h q null x xs n c)

last_or-insert :
    (h : Links) (q l p : Ptr) (xs ys : List Ptr) (z : Ptr)
    → Chain h q p ys null
    → z ≡ last_or null (xs ++ ys)
    → (if head_or null ys == null then l else z) ≡ last_or null (xs ++ l ∷ ys)
last_or-insert h q l p xs [] z c e = sym (last_or-append null xs l [])
last_or-insert h q l p xs (y ∷ ys) z (node, c) e =
    rw (==_ne y null node.not_null)
      (e ∙ last_or-append null xs y ys ∙ sym (last_or-append null xs l (y ∷ ys)))

-- A link of another queue is none of a chain's.
pub not_contains :
    (h : Links) (q p : Ptr) (xs : List Ptr) (n a : Ptr)
    → Chain h q p xs n
    → (h a).queue ≢ q
    → contains a xs ≡ false
not_contains h q p xs n a c ne = elim (Bool-cases (contains a xs)) [
  | inl i ↦ absurd (ne (Chain-queue h q p xs n a c i).0)
  | inr o ↦ o
]

-- `l` comes to stand between the links `xs` and the links `ys` of the queue `q`.
module _ (s t : Store) (q l : Ptr) (xs ys : List Ptr) (l_ne : l ≢ null)
    (is : IsQueue s q (xs ++ ys)) (new : contains l (xs ++ ys) ≡ false)
    (sp : Spliced s q (last_or null xs) l (head_or null ys) t) where
  l_out : (contains l xs ≡ false) × (contains l ys ≡ false)
  l_out = ground (arith, contains-append l xs ys)

  parts : Chain s.links q null xs (head_or null ys) × Chain s.links q (last_or null xs) ys null
  parts = Chain-split s.links q null xs ys null is.chain

  apart : Distinct xs × Distinct ys × Apart xs ys
  apart = Distinct-split xs ys is.distinct

  left_links :
      (a : Ptr)
      → contains a xs ≡ true
      → t.links a ≡ (if a == last_or null xs then record (s.links a) { next = l } else s.links a)
  left_links a i =
      let ne = (Chain-queue s.links q null xs (head_or null ys) a parts.0 i).1 in
      let far = ne-head_or a ys ne (apart.2 a i) in
      ground (arith, sp.links a ne, ne_of_contains a l xs i l_out.0)

  right_links :
      (a : Ptr)
      → contains a ys ≡ true
      → t.links a ≡ (if a == head_or null ys then record (s.links a) { prev = l } else s.links a)
  right_links a i =
      let ne = (Chain-queue s.links q (last_or null xs) ys null a parts.1 i).1 in
      let out : contains a xs ≡ false = elim (Bool-cases (contains a xs)) [
        | inl j ↦ absurd (false≢true (sym (apart.2 a j) ∙ i))
        | inr j ↦ j
      ] in
      let far = ne-last_or a xs ne out in
      ground (arith, sp.links a ne, ne_of_contains a l ys i l_out.1)

  middle : IsNode t.links q (last_or null xs) (head_or null ys) l
  middle = ground (arith, sp.links l l_ne)

  chain : Chain t.links q null (xs ++ l ∷ ys) null
  chain =
      Chain-append t.links q null xs (l ∷ ys) null
        (Chain-relink_last s.links q t.links null xs (head_or null ys) l parts.0 apart.0 left_links)
        (
          middle,
          Chain-relink_first s.links q t.links (last_or null xs) l ys null parts.1 apart.1
              right_links,
        )

  distinct : Distinct (xs ++ l ∷ ys)
  distinct =
      Distinct-append xs (l ∷ ys) apart.0 (l_out.1, apart.1)
        λ a i. ground (arith, apart.2 a, ne_of_contains a l xs i l_out.0)

  first : (t.queues q).first ≡ head_or null (xs ++ l ∷ ys)
  first =
      rw sp.header
        (head_or-insert s.links q l xs ys (head_or null ys) (s.queues q).first parts.0 is.first)

  last : (t.queues q).last ≡ last_or null (xs ++ l ∷ ys)
  last =
      rw sp.header
        (last_or-insert s.links q l (last_or null xs) xs ys (s.queues q).last parts.1 is.last)

  pub Spliced-IsQueue : IsQueue t q (xs ++ l ∷ ys)
  Spliced-IsQueue = record {
    first = first;
    last = last;
    nitems =
        rw sp.header
          (ground (arith, is.nitems, length-append {0} xs ys, length-append {0} xs (l ∷ ys)));
    chain = chain;
    distinct = distinct;
  }

  Spliced-frame :
      (k : Ptr) (zs : List Ptr)
      → k ≢ q
      → contains l zs ≡ false
      → Chain s.links k null zs null
      → Agree s.links t.links zs
  Spliced-frame k zs ne out c a i =
      let (on, a_ne) = Chain-queue s.links k null zs null a c i in
      let off : (s.links a).queue ≢ q = λ e. ne (sym on ∙ e) in
      let left =
        ne-last_or a xs a_ne (not_contains s.links q null xs (head_or null ys) a parts.0 off) in
      let right =
        ne-head_or a ys a_ne (not_contains s.links q (last_or null xs) ys null a parts.1 off) in
      ground (arith, sp.links a a_ne, ne_of_contains a l zs i out)

  -- The other queues are left alone.
  pub Spliced-others :
      (k : Ptr) (zs : List Ptr) → k ≢ q → contains l zs ≡ false → IsQueue s k zs → IsQueue t k zs
  Spliced-others k zs ne out other = record {
    first = rw (sp.others k ne) other.first;
    last = rw (sp.others k ne) other.last;
    nitems = rw (sp.others k ne) other.nitems;
    chain =
        Chain-frame s.links k t.links null zs null other.chain
          (Spliced-frame k zs ne out other.chain);
    distinct = other.distinct;
  }
