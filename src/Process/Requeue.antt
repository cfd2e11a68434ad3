-- ===== src/Process/Requeue.antt =====
-- What the transitions of os/process.c have in common: a process leaves the queue on which its link
-- stands, and a link that carries it joins another queue.
use lab.Prelude.{
  ℕ, suc, ◌≡◌, ◌≢◌, refl, sym, subst, ◌∙◌, ap, true, false, List, [], ◌∷◌, ◌++◌, arith, ==_self,
  ==_ne, length,
}
use mathlib.Core.Path.{ap₂}
use lab.Run.{Run, Cmd, Returns, returns, and_then}
use lab.Queue.Store.{Ptr, null, Store, update, queue_success, free_links}
use lab.Queue.Insertion.{insert_last, insert_first}
use lab.Queue.Shape.{contains, contains-append, ne_of_contains, View, Holds, Chain-queue}
use lab.Queue.InsertionLaws.{IsLoose, Rewrites, insert_last-snoc, insert_first-cons}
use lab.Queue.RemovalLaws.{Allocated}
use lab.Kernel.{Kernel, with_store}

-- A routine of queue.c called from the kernel, with its post-condition.
pub Returns-queued :
    {A B : Type 0} {P : A → Store → Type 0} {Q : B → Kernel → Type 0} {r : Run Store A} (k : Kernel)
    (f : A → Cmd Kernel B)
    → Returns P r
    → ((a : A) (s : Store) → P a s → Returns Q (f a (record k { store = s })))
    → Returns Q (and_then (with_store k r) f)
Returns-queued k f (returns p) next = next _ _ p

-- The objects that the links of a list carry.
abbrev pub items : Store → List Ptr → List Ptr
items s [] = []
items s (l ∷ ls) = (s.links l).object ∷ items s ls

pub items-append : (s : Store) (xs ys : List Ptr) → items s (xs ++ ys) ≡ items s xs ++ items s ys
items-append s [] ys = refl
items-append s (x ∷ xs) ys = ap (λ (zs : List Ptr). (s.links x).object ∷ zs) (items-append s xs ys)

-- Where the objects of the links in a list stay, so do its items.
pub items-same :
    (s t : Store) (xs : List Ptr)
    → ((a : Ptr) → contains a xs ≡ true → (t.links a).object ≡ (s.links a).object)
    → items t xs ≡ items s xs
items-same s t [] same = refl
items-same s t (x ∷ xs) same =
    ap₂ ◌∷◌ (same x (ground arith)) (items-same s t xs (λ a i. same a (ground arith)))

-- A place in a list for a new link: the end, or the front.
pub data Place : Type 0 where
  back front : Place

abbrev pub placed : Place → Ptr → List Ptr → List Ptr
placed back a xs = xs ++ a ∷ []
placed front a xs = a ∷ xs

abbrev pub insert_at : Place → Ptr → Ptr → Cmd Store ℕ
insert_at back = insert_last
insert_at front = insert_first

pub insert_at-placed :
    (e : Place) (s : Store) (v : View) (q l : Ptr)
    → q ≢ null
    → l ≢ null
    → Holds s v
    → IsLoose v l
    → Returns (Rewrites s v q (placed e l (v q))) (insert_at e q l s)
insert_at-placed back s v q l q_ne l_ne all loose = insert_last-snoc s v q l q_ne l_ne all loose
insert_at-placed front s v q l q_ne l_ne all loose = insert_first-cons s v q l q_ne l_ne all loose

pub items-placed :
    (e : Place) (s : Store) (a : Ptr) (xs : List Ptr)
    → items s (placed e a xs) ≡ placed e (s.links a).object (items s xs)
items-placed back s a xs = items-append s xs (a ∷ [])
items-placed front s a xs = refl

-- A free link has come to carry the object `p` in the queue `d`: the post-condition of
-- AQueueAllocLink followed by an insertion.
pub record Enlisted (s : Store) (v : View) (e : Place) (d p : Ptr) (m : Ptr) (t : Store)
    : Type 0 where
  pub view : View
  pub holds : Holds t view
  pub not_null : m ≢ null
  pub fresh : contains m (v free_links) ≡ true
  pub carries : (t.links m).object ≡ p
  pub member : contains m (view d) ≡ true
  pub target : items t (view d) ≡ placed e p (items s (v d))
  pub links : view d ≡ placed e m (v d)
  pub others :
      (j : Ptr)
      → j ≢ null
      → j ≢ free_links
      → j ≢ d
      → (view j ≡ v j) × (items t (view j) ≡ items s (v j))
  pub pool : suc (length (view free_links)) ≡ length (v free_links)
  pub kept : (a : Ptr) → a ≢ null → a ≢ m → (t.links a).object ≡ (s.links a).object

contains-placed : (e : Place) (a : Ptr) (xs : List Ptr) → contains a (placed e a xs) ≡ true
contains-placed back a xs = ground (arith, contains-append a xs (a ∷ []))
contains-placed front a xs = ground arith

module _ (s t u : Store) (v : View) (e : Place) (d p m : Ptr) (rest : List Ptr) (d_ne : d ≢ null)
    (d_free : d ≢ free_links) (all : Holds s v) (free : v free_links ≡ m ∷ rest)
    (al : Allocated s v p m rest m t)
    (re : let w = update v free_links rest in
      Rewrites t w d (placed e m (w d)) queue_success u) where
  -- A link of a queue other than the pool is not the one that was handed out.
  other_link :
      (j : Ptr) (a : Ptr)
      → j ≢ null
      → j ≢ free_links
      → contains a (v j) ≡ true
      → (a ≢ null) × (a ≢ m)
  unfolding update
  other_link j a j_ne j_free i =
      let (on, a_ne) = Chain-queue s.links j null (v j) null a (all j j_ne).chain i in
      (
        a_ne,
        λ e.
            ne_of_contains a m (v j) i
              (subst (λ (ws : List Ptr). contains m ws ≡ false)
                (rw (==_ne j free_links j_free) refl) (al.loose j j_ne))
              e,
      )

  objects : (a : Ptr) → a ≢ null → a ≢ m → (u.links a).object ≡ (s.links a).object
  objects a ne off = re.2 a ne ∙ al.kept a ne off

  items-kept : (j : Ptr) → j ≢ null → j ≢ free_links → items u (v j) ≡ items s (v j)
  items-kept j j_ne j_free =
      items-same s u (v j) λ a i. let (ne, off) = other_link j a j_ne j_free i in objects a ne off

  pub Enlisted-of : Enlisted s v e d p m u
  unfolding update
  Enlisted-of = record {
    view = update (update v free_links rest) d (placed e m (update v free_links rest d));
    holds = re.1;
    not_null = al.not_null;
    fresh = rw free (ground arith);
    carries = re.2 m al.not_null ∙ al.carries;
    member = rw (==_self d) (contains-placed e m _);
    target =
        rw (==_self d, ==_ne d free_links d_free)
          (items-placed e u m (v d)
            ∙ ap₂ (placed e) (re.2 m al.not_null ∙ al.carries) (items-kept d d_ne d_free));
    links = rw (==_self d) (ap (placed e m) (rw (==_ne d free_links d_free) refl));
    others = λ j j_ne j_free j_d.
        rw (==_ne j d j_d, ==_ne j free_links j_free) (refl, items-kept j j_ne j_free);
    pool = rw (==_ne free_links d (λ x. d_free (sym x)), free) refl;
    kept = objects;
  }
