-- ===== src/Queue/InitLaws.antt =====
-- AQueueInit and AQueueModuleInit of os/queue.c: the pool of free links at start-up.
use lab.Prelude.{
  length, ℕ, zero, suc, ◌+◌, ◌<◌, ◌≡◌, ◌≢◌, refl, sym, subst, true, inl, inr, List, [], ◌∷◌, ◌++◌,
  arith, ◌==◌, if◌then◌else◌, Bool-cases, ==_ne,
}
use lab.Prelude.Int.{pos}
use lab.Run.{Returns, returns, Returns-mono, Returns-and_then, Returns-go_on}
use mathlib.Core.List.{append_assoc, append-nil}
use lab.Queue.Store.{
  Ptr, null, Link, Store, update, queue_success, free_links, queue_max_links, init_queue,
  write_link,
}
use lab.Queue.Moving.{init_links, init_module}
use lab.Queue.Shape.{contains, contains-append, IsQueue, View, Holds, Chain-frame, ne_of_contains}
use lab.Queue.InsertionLaws.{IsLoose, insert_last-snoc}

-- The addresses of `n` links from `l` on.
pub pool : ℕ → Ptr → List Ptr
pool zero l = []
pool (suc n) l = l ∷ pool n (l + 1)

-- A write to a loose link disturbs no queue.
module _ (v : View) (l : Ptr) (l_ne : l ≢ null) (loose : IsLoose v l) where
  write_link-Holds :
      (f : Link → Link) (s : Store) → Holds s v → Returns (λ r t. Holds t v) (write_link l f s)
  unfolding write_link update
  write_link-Holds f s all = rw (==_ne l null l_ne) (
      returns λ k ne. record {
        first = (all k ne).first;
        last = (all k ne).last;
        nitems = (all k ne).nitems;
        chain =
            Chain-frame s.links k _ null (v k) null (all k ne).chain
              λ a i. let off = ne_of_contains a l (v k) i (loose k ne) in rw (==_ne a l off) refl;
        distinct = (all k ne).distinct;
      })

-- The lists once the pool has the links `ws`.
abbrev pooled : List Ptr → View
pooled ws k = if k == free_links then ws else []

pooled-snoc :
    (ws : List Ptr) (l k : Ptr)
    → update (pooled ws) free_links (ws ++ l ∷ []) k ≡ pooled (ws ++ l ∷ []) k
unfolding update
pooled-snoc ws l k = ground arith

pooled-IsLoose :
    (ws : List Ptr) (l : Ptr) → ((a : Ptr) → contains a ws ≡ true → a < l) → IsLoose (pooled ws) l
pooled-IsLoose ws l below k ne = elim (Bool-cases (contains l (pooled ws k))) [
  | inl i ↦ absurd (ground (arith, below l))
  | inr o ↦ o
]

pub empty-IsQueue :
    (s : Store) (k : Ptr)
    → s.queues k ≡ record { first = null; last = null; nitems = pos 0 }
    → IsQueue s k []
empty-IsQueue s k e = record {
  first = rw e refl;
  last = rw e refl;
  nitems = rw e refl;
  chain = tt;
  distinct = tt;
}

init_links-pool :
    (n : ℕ) (l : Ptr) (s : Store) (ws : List Ptr)
    → l ≢ null
    → ((a : Ptr) → contains a ws ≡ true → a < l)
    → Holds s (pooled ws)
    → Returns (λ r t. (r ≡ queue_success) × Holds t (pooled (ws ++ pool n l))) (init_links n l s)
unfolding init_links pool
init_links-pool zero l s ws l_ne below all =
    returns (refl, subst (λ (us : List Ptr). Holds s (pooled us)) (sym (append-nil ws)) all)
init_links-pool (suc n) l s ws l_ne below all =
    let loose = pooled-IsLoose ws l below in
    Returns-and_then
      (write_link-Holds (pooled ws) l l_ne loose (λ r. record r { next = null }) s all)
      λ _ s1 h1.
        Returns-and_then
          (write_link-Holds (pooled ws) l l_ne loose (λ r. record r { prev = null }) s1 h1)
          λ _ s2 h2.
            Returns-and_then
              (write_link-Holds (pooled ws) l l_ne loose (λ r. record r { object = null }) s2 h2)
              λ _ s3 h3.
                Returns-and_then
                  (insert_last-snoc s3 (pooled ws) free_links l (omega arith) l_ne h3 loose)
                  λ r t post. Returns-go_on r queue_success (init_links n (l + 1)) t post.0 refl (
                    Returns-mono
                      (init_links-pool n (l + 1) t (ws ++ l ∷ []) (omega arith)
                        (λ a i. ground (arith, below a, contains-append a ws (l ∷ [])))
                        (λ k ne.
                          subst (λ (us : List Ptr). IsQueue t k us) (pooled-snoc ws l k)
                            (post.1 k ne)))
                      λ r' u (done, h). (
                        done,
                        subst (λ (us : List Ptr). Holds u (pooled us))
                            (append_assoc ws (l ∷ []) (pool n (l + 1))) h,
                      ))

pub length-pool : (n l : ℕ) → length (pool n l) ≡ n
unfolding pool
length-pool zero l = refl
length-pool (suc n) l = omega (arith, length-pool n (l + 1))

-- Memory as the kernel starts: zero everywhere.
abbrev pub boot : Store
boot = record {
  links = λ a. record { next = null; prev = null; queue = null; object = null };
  queues = λ q. record { first = null; last = null; nitems = pos 0 };
}

-- The lists after `AQueueModuleInit`: all links of the pool are free, in the order of the array.
abbrev pub fresh_view : View
fresh_view k = if k == free_links then pool queue_max_links 1 else []

-- `AQueueModuleInit` makes every link of the pool a free one, in order, and every queue a
-- well-formed one.
pub init_module-pool : Returns (λ r t. (r ≡ queue_success) × Holds t fresh_view) (init_module boot)
unfolding init_module init_queue update
init_module-pool =
    init_links-pool queue_max_links 1 _ [] (omega arith) (λ a i. cc)
      (λ k ne. ground (arith, empty-IsQueue _ k))
