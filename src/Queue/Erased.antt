-- ===== src/Queue/Erased.antt =====
-- A queue after one of its links has left: it holds the list without that link.
use lab.Prelude.{
  ◌≡◌, ◌≢◌, sym, ◌∙◌, ap, true, false, inl, inr, List, [], ◌∷◌, ◌++◌, arith, ◌==◌, if◌then◌else◌,
  Bool-cases, ==_self, ==_ne, length-append,
}
use lab.Queue.Store.{Ptr, null, Store}
use mathlib.Core.Bool.{false≢true}
use lab.Queue.Shape.{
  Agree, Links, contains, head_or, last_or, Chain, IsQueue, Chain-frame, Chain-append, Chain-queue,
  Chain-last, contains-last_or, last_or-append, ne_of_contains, Distinct-append, Chain-relink_last,
  Chain-relink_first,
}
use lab.Queue.Inserted.{ne-head_or, ne-last_or, not_contains}
use lab.Queue.Unlinked.{Unlinked, parts, apart, IsNode-of, head_or-erase, last_or-erase}

-- Whether `l` is the first link shows in whether a link stands before it.
pub first_iff :
    (h : Links) (q l f : Ptr) (xs ys : List Ptr) (n : Ptr)
    → Chain h q null xs n
    → contains l xs ≡ false
    → f ≡ head_or null (xs ++ l ∷ ys)
    → (f == l) ≡ (last_or null xs == null)
first_iff h q l f [] ys n c out e = rw (e, ==_self l)
first_iff h q l f (x ∷ xs) ys n c out e =
    rw (e, ==_ne (last_or x xs) null (Chain-last h q null x xs n c).0) (ground arith)

pub last_iff :
    (h : Links) (q l z p : Ptr) (xs ys : List Ptr)
    → Chain h q p ys null
    → contains l ys ≡ false
    → z ≡ last_or null (xs ++ l ∷ ys)
    → (z == l) ≡ (head_or null ys == null)
last_iff h q l z p xs [] c out e = rw (e, last_or-append null xs l [], ==_self l)
last_iff h q l z p xs (y ∷ ys) (node, c) out e =
    rw (e, last_or-append null xs l (y ∷ ys), ==_ne y null node.not_null)
      (==_ne _ l (ne_of_contains (last_or y ys) l (y ∷ ys) (contains-last_or y ys) out))

module _ (s t : Store) (q l : Ptr) (xs ys : List Ptr) (is : IsQueue s q (xs ++ l ∷ ys))
    (un : Unlinked s q (last_or null xs) l (head_or null ys) t) where
  left_links :
      (a : Ptr)
      → contains a xs ≡ true
      → t.links a ≡ (
          if a == last_or null xs then record (s.links a) { next = head_or null ys } else s.links a)
  left_links a i =
      let ne = (Chain-queue s.links q null xs l a (parts s q l xs ys is).0 i).1 in
      let off = (apart s q l xs ys is).2 a i in
      let far = ne-head_or a (l ∷ ys) ne off in
      let far' = ne-head_or a ys ne (ground arith) in ground (arith, un.links a ne far)

  right_links :
      (a : Ptr)
      → contains a ys ≡ true
      → t.links a ≡ (
          if a == head_or null ys then record (s.links a) { prev = last_or null xs } else s.links a)
  right_links a i =
      let ne = (Chain-queue s.links q l ys null a (parts s q l xs ys is).1.1 i).1 in
      let out : contains a xs ≡ false = elim (Bool-cases (contains a xs)) [
        | inl j ↦ absurd (false≢true (sym ((apart s q l xs ys is).2 a j) ∙ ground arith))
        | inr j ↦ j
      ] in
      let far = ne-last_or a xs ne out in
      let off = ne_of_contains a l ys i (apart s q l xs ys is).1.0 in
      ground (arith, un.links a ne off)

  chain : Chain t.links q null (xs ++ ys) null
  chain =
      Chain-append t.links q null xs ys null
        (Chain-relink_last s.links q t.links null xs l (head_or null ys) (parts s q l xs ys is).0
          (apart s q l xs ys is).0 left_links)
        (Chain-relink_first s.links q t.links l (last_or null xs) ys null (parts s q l xs ys is).1.1
          (apart s q l xs ys is).1.1 right_links)

  pub Unlinked-IsQueue : IsQueue t q (xs ++ ys)
  Unlinked-IsQueue = record {
    first =
        rw un.header
          (head_or-erase s.links q l xs ys l (s.queues q).first (parts s q l xs ys is).0 is.first);
    last =
        rw un.header
          (last_or-erase s.links q l l xs ys (s.queues q).last (parts s q l xs ys is).1.1 is.last);
    nitems =
        rw (un.header, is.nitems, length-append {0} xs ys, length-append {0} xs (l ∷ ys))
          (ground arith);
    chain = chain;
    distinct =
        Distinct-append xs ys (apart s q l xs ys is).0 (apart s q l xs ys is).1.1
          λ a i. ground (arith, (apart s q l xs ys is).2 a);
  }

  Unlinked-frame :
      (k : Ptr) (zs : List Ptr) → k ≢ q → Chain s.links k null zs null → Agree s.links t.links zs
  Unlinked-frame k zs ne c a i =
      let (on, a_ne) = Chain-queue s.links k null zs null a c i in
      let off : (s.links a).queue ≢ q = λ e. ne (sym on ∙ e) in
      let left =
        ne-last_or a xs a_ne (not_contains s.links q null xs l a (parts s q l xs ys is).0 off) in
      let right =
        ne-head_or a ys a_ne (not_contains s.links q l ys null a (parts s q l xs ys is).1.1 off) in
      let here : a ≢ l =
        λ e. off (ap (λ (b : Ptr). (s.links b).queue) e ∙ (IsNode-of s q l xs ys is).queue) in
      ground (arith, un.links a a_ne here)

  pub Unlinked-others : (k : Ptr) (zs : List Ptr) → k ≢ q → IsQueue s k zs → IsQueue t k zs
  Unlinked-others k zs ne other = record {
    first = rw (un.others k ne) other.first;
    last = rw (un.others k ne) other.last;
    nitems = rw (un.others k ne) other.nitems;
    chain =
        Chain-frame s.links k t.links null zs null other.chain (Unlinked-frame k zs ne other.chain);
    distinct = other.distinct;
  }
