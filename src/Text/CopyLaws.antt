-- ===== src/Text/CopyLaws.antt =====
-- dstrcpy of os/misc.c.
use lab.Prelude.{
  ℕ, zero, suc, ◌+◌, ◌≡◌, ◌<◌, ◌≤◌, ◌⊎◌, inl, refl, ◌∙◌, List, [], ◌∷◌, arith, ==_ne, ==_self,
  length,
}
use lab.Run.{Returns, returns, Returns-and_then, Returns-mono}
use lab.Queue.Store.{update}
use lab.Text.Strings.{Bytes, load, store, copy_chars, dstrcpy}
use lab.Text.StringLaws.{HasString, no_round}

-- Two stretches of `n + 1` bytes that have none in common.
abbrev pub Apart : ℕ → ℕ → ℕ → Type 0
Apart to from n = (to + n < from) ⊎ (from + n < to)

-- The address is none of the `n + 1` from `to` on.
abbrev pub IsOutside : ℕ → ℕ → ℕ → Type 0
IsOutside to n a = (a < to) ⊎ (to + n < a)

HasString-same :
    (m t : Bytes) (p : ℕ) (cs : List ℕ)
    → ((a : ℕ) → p ≤ a → a ≤ p + length cs → t a ≡ m a)
    → HasString m p cs
    → HasString t p cs
HasString-same m t p [] same nul = same p (omega arith) (omega arith) ∙ nul
HasString-same m t p (c ∷ cs) same (here, c_ne, rest) = (
  same p (omega arith) (omega arith) ∙ here,
  c_ne,
  HasString-same m t (p + 1) cs (λ a lo hi. same a (omega (arith, lo)) (omega (arith, hi))) rest,
)

copied :
    (m : Bytes) (to from rounds : ℕ) (cs : List ℕ)
    → HasString m from cs
    → length cs < rounds
    → Apart to from (length cs)
    → Returns
        (λ _ t. HasString t to cs × ((a : ℕ) → IsOutside to (length cs) a → t a ≡ m a))
        (copy_chars rounds to from m)
unfolding copy_chars load store update
copied m to from zero cs str enough apart = elim (no_round (length cs) enough) [ ]
copied m to from (suc rounds) [] nul enough apart =
    simp nul
      (returns (rw (==_self to) refl, λ a out. rw (==_ne a to (λ e. omega (arith, e, out))) refl))
copied m to from (suc rounds) (c ∷ cs) (here, c_ne, rest) enough apart =
    let m1 = update m to c in
    let rest1 : HasString m1 (from + 1) cs =
      HasString-same m m1 (from + 1) cs
        (λ a lo hi. rw (==_ne a to (λ e. omega (arith, e, lo, hi, apart))) refl) rest in
    simp (here, ==_ne c 0 c_ne)
      (Returns-mono
        (copied m1 (to + 1) (from + 1) rounds cs rest1 (omega (arith, enough))
          (omega (arith, apart)))
        λ _ t (str, frame). (
          (frame to (inl (omega arith)) ∙ rw (==_self to) refl, c_ne, str),
          λ a out. frame a (omega (arith, out)) ∙ rw (==_ne a to (λ e. omega (arith, e, out))) refl,
        ))

-- `dstrcpy` returns its first argument, where the string stands afterwards, and writes to no other
-- byte, if the two strings do not overlap and there are more rounds than characters.
pub dstrcpy-HasString :
    (m : Bytes) (to from rounds : ℕ) (cs : List ℕ)
    → HasString m from cs
    → length cs < rounds
    → Apart to from (length cs)
    → Returns
        (λ r t. (r ≡ to) × HasString t to cs × ((a : ℕ) → IsOutside to (length cs) a → t a ≡ m a))
        (dstrcpy rounds to from m)
unfolding dstrcpy
dstrcpy-HasString m to from rounds cs str enough apart =
    Returns-and_then (copied m to from rounds cs str enough apart)
      λ _ t (here, frame). returns (refl, here, frame)
