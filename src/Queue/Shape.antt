-- ===== src/Queue/Shape.antt =====
-- What it is for the links and the header of a queue to hold a list: the representation invariant
-- of include/os/queue.h, and how it survives writes.
use lab.Prelude.{
  ◌≡◌, ◌≢◌, refl, ap, Bool, true, false, ◌||◌, List, [], ◌∷◌, ◌++◌, arith, ◌==◌, length,
  if◌then◌else◌,
}
use lab.Prelude.Int.{pos}
use lab.Queue.Store.{Ptr, null, Link, Store}

abbrev pub Links : Type 0
Links = Ptr → Link

abbrev pub contains : Ptr → List Ptr → Bool
contains a [] = false
contains a (x ∷ xs) = (a == x) || contains a xs

abbrev pub head_or : Ptr → List Ptr → Ptr
head_or n [] = n
head_or n (x ∷ xs) = x

abbrev pub last_or : Ptr → List Ptr → Ptr
last_or p [] = p
last_or p (x ∷ xs) = last_or x xs

-- `x` is a link of the queue `q` between `p` and `n`.
pub record IsNode (h : Links) (q p n x : Ptr) : Type 0 where
  pub not_null : x ≢ null
  pub prev : (h x).prev ≡ p
  pub next : (h x).next ≡ n
  pub queue : (h x).queue ≡ q

-- The links `xs` of the queue `q`, in order, behind `p` and before `n`.
abbrev pub Chain : Links → Ptr → Ptr → List Ptr → Ptr → Type 0
Chain h q p [] n = Unit {0}
Chain h q p (x ∷ xs) n = IsNode h q p (head_or n xs) x × Chain h q x xs n

abbrev pub Distinct : List Ptr → Type 0
Distinct [] = Unit {0}
Distinct (x ∷ xs) = (contains x xs ≡ false) × Distinct xs

-- The queue at address `q` holds the links `xs`.
pub record IsQueue (s : Store) (q : Ptr) (xs : List Ptr) : Type 0 where
  pub first : (s.queues q).first ≡ head_or null xs
  pub last : (s.queues q).last ≡ last_or null xs
  pub nitems : (s.queues q).nitems ≡ pos (length xs)
  pub chain : Chain s.links q null xs null
  pub distinct : Distinct xs

-- The lists that all queues of the kernel hold.
abbrev pub View : Type 0
View = Ptr → List Ptr

abbrev pub Holds : Store → View → Type 0
Holds s v = (q : Ptr) → q ≢ null → IsQueue s q (v q)

-- The two heaps agree on the links of a list.
abbrev pub Agree : Links → Links → List Ptr → Type 0
Agree h g xs = (a : Ptr) → contains a xs ≡ true → g a ≡ h a

pub contains-append :
    (a : Ptr) (xs ys : List Ptr) → contains a (xs ++ ys) ≡ (contains a xs || contains a ys)
contains-append a [] ys = refl
contains-append a (x ∷ xs) ys = ground (arith, contains-append a xs ys)

pub not_contains-append :
    (a : Ptr) (xs ys : List Ptr)
    → contains a (xs ++ ys) ≡ false
    → (contains a xs ≡ false) × (contains a ys ≡ false)
not_contains-append a xs ys out = ground (arith, contains-append a xs ys)

-- `contains` is false of a list without the link, so a link of the list is another one.
pub ne_of_contains :
    (a b : Ptr) (xs : List Ptr) → contains a xs ≡ true → contains b xs ≡ false → a ≢ b
ne_of_contains a b xs i o e = cc (ap (λ c. contains c xs) e)

pub contains-last_or : (x : Ptr) (xs : List Ptr) → contains (last_or x xs) (x ∷ xs) ≡ true
contains-last_or x [] = ground arith
contains-last_or x (y ∷ xs) = ground (arith, contains-last_or y xs)

pub last_or-append :
    (p : Ptr) (xs : List Ptr) (y : Ptr) (ys : List Ptr) → last_or p (xs ++ y ∷ ys) ≡ last_or y ys
last_or-append p [] y ys = refl
last_or-append p (x ∷ xs) y ys = last_or-append x xs y ys

pub head_or-append :
    (n : Ptr) (xs : List Ptr) (y : Ptr) (ys : List Ptr) → head_or n (xs ++ y ∷ ys) ≡ head_or y xs
head_or-append n [] y ys = refl
head_or-append n (x ∷ xs) y ys = refl

-- The links of two lists are apart.
abbrev pub Apart : List Ptr → List Ptr → Type 0
Apart xs ys = (a : Ptr) → contains a xs ≡ true → contains a ys ≡ false

pub Distinct-append :
    (xs ys : List Ptr) → Distinct xs → Distinct ys → Apart xs ys → Distinct (xs ++ ys)
Distinct-append [] ys d e apart = e
Distinct-append (x ∷ xs) ys d e apart = (
  ground (arith, contains-append x xs ys, apart x),
  Distinct-append xs ys d.1 e (λ a i. apart a (ground arith)),
)

pub Distinct-split :
    (xs ys : List Ptr) → Distinct (xs ++ ys) → Distinct xs × Distinct ys × Apart xs ys
Distinct-split [] ys d = (tt, d, λ a i. cc)
Distinct-split (x ∷ xs) ys d =
    let rest = Distinct-split xs ys d.1 in
    (
      (ground (arith, contains-append x xs ys), rest.0),
      rest.1,
      λ a i. ground (arith, contains-append x xs ys, rest.2 a),
    )

module _ (h : Links) (q : Ptr) where
  pub Chain-frame :
      (g : Links) (p : Ptr) (xs : List Ptr) (n : Ptr)
      → Chain h q p xs n
      → Agree h g xs
      → Chain g q p xs n
  Chain-frame g p [] n c same = tt
  Chain-frame g p (x ∷ xs) n (node, c) same =
      (ground (arith, same x), Chain-frame g x xs n c (λ a i. same a (ground arith)))

  pub Chain-queue :
      (p : Ptr) (xs : List Ptr) (n a : Ptr)
      → Chain h q p xs n
      → contains a xs ≡ true
      → ((h a).queue ≡ q) × (a ≢ null)
  Chain-queue p [] n a c i = cc
  Chain-queue p (x ∷ xs) n a (node, c) i = ground (arith, Chain-queue x xs n a c)

  pub Chain-append :
      (p : Ptr) (xs ys : List Ptr) (n : Ptr)
      → Chain h q p xs (head_or n ys)
      → Chain h q (last_or p xs) ys n
      → Chain h q p (xs ++ ys) n
  Chain-append p [] ys n c d = d
  Chain-append p (x ∷ []) ys n (node, c) d = (node, d)
  Chain-append p (x ∷ z ∷ xs) ys n (node, c) d = (node, Chain-append x (z ∷ xs) ys n c d)

  pub Chain-split :
      (p : Ptr) (xs ys : List Ptr) (n : Ptr)
      → Chain h q p (xs ++ ys) n
      → Chain h q p xs (head_or n ys) × Chain h q (last_or p xs) ys n
  Chain-split p [] ys n c = (tt, c)
  Chain-split p (x ∷ []) ys n (node, c) = ((node, tt), c)
  Chain-split p (x ∷ z ∷ xs) ys n (node, c) =
      let rest = Chain-split x (z ∷ xs) ys n c in ((node, rest.0), rest.1)

  -- The last link of a list, seen from behind.
  pub Chain-last :
      (p x : Ptr) (xs : List Ptr) (n : Ptr)
      → Chain h q p (x ∷ xs) n
      → let z = last_or x xs in (z ≢ null) × ((h z).next ≡ n) × ((h z).queue ≡ q)
  Chain-last p x [] n (node, c) = (node.not_null, node.next, node.queue)
  Chain-last p x (y ∷ xs) n (node, c) = Chain-last x y xs n c

  IsNode-same : (g : Links) (p n x : Ptr) → IsNode h q p n x → g x ≡ h x → IsNode g q p n x
  IsNode-same g p n x node e = ground arith

  relink_other :
      (g : Links) (x z n' : Ptr)
      → g x ≡ (if x == z then record (h x) { next = n' } else h x)
      → z ≢ x
      → g x ≡ h x
  relink_other g x z n' e ne = ground arith

  -- A new link behind the last one of a list.
  pub Chain-relink_last :
      (g : Links) (p : Ptr) (xs : List Ptr) (n n' : Ptr)
      → Chain h q p xs n
      → Distinct xs
      → ((a : Ptr)
          → contains a xs ≡ true
          → g a ≡ (if a == last_or p xs then record (h a) { next = n' } else h a))
      → Chain g q p xs n'
  Chain-relink_last g p [] n n' c d same = tt
  Chain-relink_last g p (x ∷ []) n n' (node, c) d same = (ground (arith, same x), tt)
  Chain-relink_last g p (x ∷ y ∷ xs) n n' (node, c) (out, d) same = (
    IsNode-same g p y x node (
        relink_other g x (last_or y xs) n' (same x (ground arith))
          (ne_of_contains (last_or y xs) x (y ∷ xs) (contains-last_or y xs) out)),
    Chain-relink_last g x (y ∷ xs) n n' c d (λ a i. same a (ground arith)),
  )

  -- A new link before the first one of a list.
  pub Chain-relink_first :
      (g : Links) (p p' : Ptr) (xs : List Ptr) (n : Ptr)
      → Chain h q p xs n
      → Distinct xs
      → ((a : Ptr)
          → contains a xs ≡ true
          → g a ≡ (if a == head_or n xs then record (h a) { prev = p' } else h a))
      → Chain g q p' xs n
  Chain-relink_first g p p' [] n c d same = tt
  Chain-relink_first g p p' (x ∷ xs) n (node, c) (out, d) same = (
    ground (arith, same x),
    Chain-frame g x xs n c λ a i. ground (arith, same a, ne_of_contains a x xs i out),
  )
