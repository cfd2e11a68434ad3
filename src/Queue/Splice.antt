-- ===== src/Queue/Splice.antt =====
-- What the insertions of os/queue.c do to the store: `l` comes to stand between `p` and `n`.
use lab.Prelude.{sym, ◌∙◌, ℕ, ◌≡◌, ◌≢◌, refl, arith, ◌==◌, if◌then◌else◌, ==_self, ==_ne}
use lab.Prelude.Int.{pos, ◌+ℤ◌}
use lab.Run.{Returns, returns}
use lab.Queue.Store.{Ptr, null, Store, update, queue_success}
use lab.Queue.Insertion.{link_after, link_before}

pub record Spliced (s : Store) (q p l n : Ptr) (t : Store) : Type 0 where
  pub links :
      (a : Ptr)
      → a ≢ null
      → t.links a ≡ (
          if a == l
          then record { next = n; prev = p; queue = q; object = (s.links l).object }
          else if a == p
          then record (s.links a) { next = l }
          else if a == n
          then record (s.links a) { prev = l }
          else s.links a)
  pub header : t.queues q ≡ record {
    first = if p == null then l else (s.queues q).first;
    last = if n == null then l else (s.queues q).last;
    nitems = (s.queues q).nitems +ℤ pos 1;
  }
  pub others : (k : Ptr) → k ≢ q → t.queues k ≡ s.queues k

module _ (s : Store) (q p l n : Ptr) (q_ne : q ≢ null) (l_ne : l ≢ null) where
  -- The post-condition of `link_after` and `link_before`.
  abbrev pub LinksIn : ℕ → Store → Type 0
  LinksIn r t = (r ≡ queue_success) × Spliced s q p l n t

  pub link_after-single :
      p ≡ null → n ≡ null → (s.queues q).nitems ≡ pos 0 → Returns LinksIn (link_after q p l s)
  unfolding link_after update
  link_after-single e f z =
      rw (e, f)
        (simp (==_ne l null l_ne, ==_ne q null q_ne, ==_self l)
          (returns (
            refl,
            record {
              links = λ a ne. ground arith;
              header = ground arith;
              others = λ k ne. ground arith;
            },
          )))

  pub link_before-single :
      p ≡ null → n ≡ null → (s.queues q).nitems ≡ pos 0 → Returns LinksIn (link_before q n l s)
  unfolding link_before update
  link_before-single e f z =
      rw (e, f)
        (simp (==_ne l null l_ne, ==_ne q null q_ne, ==_self l)
          (returns (
            refl,
            record {
              links = λ a ne. ground arith;
              header = ground arith;
              others = λ k ne. ground arith;
            },
          )))

  module _ (p_ne : p ≢ null) (apart : p ≢ l) (next : (s.links p).next ≡ n) where
    pub link_after-end : n ≡ null → (s.queues q).last ≡ p → Returns LinksIn (link_after q p l s)
    unfolding link_after update
    link_after-end f z = rw f (
        simp
          (
            ==_ne p null p_ne,
            ==_ne l null l_ne,
            ==_ne q null q_ne,
            ==_ne p l apart,
            ==_self l,
            ==_self p,
            next ∙ f,
            z,
            ==_ne l p (λ e. apart (sym e)),
          )
          (returns (
            refl,
            record {
              links = λ a ne. ground arith;
              header = ground arith;
              others = λ k ne. ground arith;
            },
          )))

    pub link_after-middle :
        n ≢ null → n ≢ p → n ≢ l → (s.queues q).last ≢ p → Returns LinksIn (link_after q p l s)
    unfolding link_after update
    link_after-middle n_ne off off' z =
        simp
          (
            ==_ne p null p_ne,
            ==_ne l null l_ne,
            ==_ne q null q_ne,
            ==_ne p l apart,
            ==_self l,
            next,
            ==_ne n null n_ne,
            ==_ne _ p z,
            ==_ne n p off,
            ==_ne l p (λ e. apart (sym e)),
          )
          (returns (
            refl,
            record {
              links = λ a ne. ground arith;
              header = ground arith;
              others = λ k ne. ground arith;
            },
          ))

  module _ (n_ne : n ≢ null) (apart : n ≢ l) (prev : (s.links n).prev ≡ p) where
    pub link_before-start :
        p ≡ null → (s.queues q).first ≡ n → Returns LinksIn (link_before q n l s)
    unfolding link_before update
    link_before-start f z = rw f (
        simp
          (
            ==_ne n null n_ne,
            ==_ne l null l_ne,
            ==_ne q null q_ne,
            ==_ne n l apart,
            ==_self l,
            ==_self n,
            prev ∙ f,
            z,
            ==_ne l n (λ e. apart (sym e)),
          )
          (returns (
            refl,
            record {
              links = λ a ne. ground arith;
              header = ground arith;
              others = λ k ne. ground arith;
            },
          )))

    pub link_before-middle :
        p ≢ null → p ≢ n → p ≢ l → (s.queues q).first ≢ n → Returns LinksIn (link_before q n l s)
    unfolding link_before update
    link_before-middle p_ne off off' z =
        simp
          (
            ==_ne n null n_ne,
            ==_ne l null l_ne,
            ==_ne q null q_ne,
            ==_ne n l apart,
            ==_self l,
            prev,
            ==_ne p null p_ne,
            ==_ne _ n z,
            ==_ne p n off,
            ==_ne l n (λ e. apart (sym e)),
          )
          (returns (
            refl,
            record {
              links = λ a ne. ground arith;
              header = ground arith;
              others = λ k ne. ground arith;
            },
          ))
