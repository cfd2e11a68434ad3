-- ===== src/Text/StringLaws.antt =====
-- The string routines of os/misc.c against lists of characters.
use lab.Prelude.{
  ℕ, zero, suc, ◌+◌, ◌≡◌, ◌≢◌, ◌<◌, inl, inr, refl, sym, ap, ◌∙◌, Bool, true, false, List, [], ◌∷◌,
  ◌++◌, arith, ◌==◌, if◌then◌else◌, ==_ne, ==_self, Bool-cases, length, take, ◌↔◌, ltb, starts_with,
}
use lab.Prelude.Int.{pos, negsuc}
use lab.Run.{Returns, returns, ok, out_of_fuel}
use lab.Queue.Store.{Ptr}
use lab.Queue.Shape.{contains}
use lab.Text.Strings.{Bytes, load, count_chars, dstrlen, dstrncmp, dindex, dmindex, matches}

-- The characters `cs` and a NUL stand from the address `p` on.
abbrev pub HasString : Bytes → Ptr → List ℕ → Type 0
HasString m p [] = m p ≡ 0
HasString m p (c ∷ cs) = (m p ≡ c) × (c ≢ 0) × HasString m (p + 1) cs

pub no_round : (n : ℕ) → n < 0 → ⊥
no_round n h = omega (arith, h)

count_chars-length :
    (m : Bytes) (s i rounds : ℕ) (cs : List ℕ)
    → HasString m s cs
    → length cs < rounds
    → count_chars rounds s i m ≡ ok (length cs + i) m
unfolding count_chars load
count_chars-length m s i zero cs str enough = elim (no_round (length cs) enough) [ ]
count_chars-length m s i (suc rounds) [] nul enough =
    simp nul (ap (λ (x : ℕ). ok x m) (omega arith))
count_chars-length m s i (suc rounds) (c ∷ cs) (here, c_ne, rest) enough =
    simp (here, ==_ne c 0 c_ne)
      (count_chars-length m (s + 1) (i + 1) rounds cs rest (omega (arith, enough))
        ∙ ap (λ (x : ℕ). ok x m) (omega arith))

-- `dstrlen` returns the number of characters before the NUL, given a round for each of them and one
-- for the NUL; the memory stays.
pub dstrlen-length :
    (m : Bytes) (s rounds : ℕ) (cs : List ℕ)
    → HasString m s cs
    → length cs < rounds
    → dstrlen rounds s m ≡ ok (length cs) m
unfolding dstrlen
dstrlen-length m s rounds cs str enough =
    count_chars-length m s 0 rounds cs str enough ∙ ap (λ (x : ℕ). ok x m) (omega arith)

sign-ne : (b : Bool) → (if b then negsuc 0 else pos 1) ≢ pos 0
sign-ne true e = ground arith
sign-ne false e = ground arith

-- `dstrncmp` returns 0 exactly if the first string starts with the first `n` characters of the second
-- one, or with all of it where it is shorter; the memory stays.
pub dstrncmp-starts_with :
    (m : Bytes) (s1 s2 n : ℕ) (xs ys : List ℕ)
    → HasString m s1 xs
    → HasString m s2 ys
    → Returns
        (λ r t. (t ≡ m) × ((r ≡ pos 0) ↔ (starts_with (take n ys) xs ≡ true)))
        (dstrncmp s1 s2 n m)
unfolding dstrncmp load
dstrncmp-starts_with m s1 s2 zero xs ys h1 h2 = returns (refl, ((λ e. refl), λ e. refl))
dstrncmp-starts_with m s1 s2 (suc n) xs [] h1 h2 =
    simp h2 (returns (refl, ((λ e. refl), λ e. refl)))
dstrncmp-starts_with m s1 s2 (suc n) [] (y ∷ ys) h1 (h2, y_ne, rest) =
    simp (h1, h2, ==_ne y 0 y_ne, ==_ne 0 y (λ e. y_ne (sym e)))
      (returns (refl, ((λ e. elim (sign-ne (ltb 0 y) e) [ ]), λ e. ground arith)))
dstrncmp-starts_with m s1 s2 (suc n) (x ∷ xs) (y ∷ ys) (h1, x_ne, rest1) (h2, y_ne, rest2) =
    elim (Bool-cases (x == y)) [
      | inl same ↦
          simp (h1, h2, ==_ne y 0 y_ne, same)
            (dstrncmp-starts_with m (s1 + 1) (s2 + 1) n xs ys rest1 rest2)
      | inr other ↦
          simp (h1, h2, ==_ne y 0 y_ne, other)
            (returns (refl, ((λ e. elim (sign-ne (ltb x y) e) [ ]), λ e. ground arith)))
    ]

-- `dindex` finds the first place of a character in a string, given more rounds than characters stand
-- before it.
pub dindex-first :
    (m : Bytes) (s c rounds : ℕ) (before after : List ℕ)
    → HasString m s (before ++ c ∷ after)
    → contains c before ≡ false
    → length before < rounds
    → dindex rounds s c m ≡ ok (s + length before) m
unfolding dindex load
dindex-first m s c zero before after str none_before enough =
    elim (no_round (length before) enough) [ ]
dindex-first m s c (suc rounds) [] after (here, c_ne, rest) none_before enough =
    simp (here, ==_ne c 0 c_ne, ==_self c) (ap (λ (x : ℕ). ok x m) (omega arith))
dindex-first m s c (suc rounds) (b ∷ before) after (here, b_ne, rest) none_before enough =
    let other : (b == c) ≡ false = ground arith in
    let none_left : contains c before ≡ false = ground arith in
    simp (here, ==_ne b 0 b_ne, other)
      (dindex-first m (s + 1) c rounds before after rest none_left (omega (arith, enough))
        ∙ ap (λ (x : ℕ). ok x m) (omega arith))

matches-none :
    (m : Bytes) (ch c rounds : ℕ) (cs : List ℕ)
    → HasString m c cs
    → contains ch cs ≡ false
    → length cs < rounds
    → matches rounds ch c m ≡ ok false m
unfolding matches load
matches-none m ch c zero cs str none_left enough = elim (no_round (length cs) enough) [ ]
matches-none m ch c (suc rounds) [] nul none_left enough = simp nul
matches-none m ch c (suc rounds) (d ∷ cs) (here, d_ne, rest) none_left enough =
    let other : (ch == d) ≡ false = ground arith in
    let none_more : contains ch cs ≡ false = ground arith in
    simp (here, ==_ne d 0 d_ne, other)
      (matches-none m ch (c + 1) rounds cs rest none_more (omega (arith, enough)))

-- `dmindex` does not return for a string whose first character is none of those it looks for: however
-- many turns the outer loop has, it uses them up, as it never advances in the string.
pub dmindex-stuck :
    (m : Bytes) (s match rounds turns : ℕ) (cs : List ℕ)
    → m s ≢ 0
    → HasString m match cs
    → contains (m s) cs ≡ false
    → length cs < rounds
    → dmindex rounds turns s match m ≡ out_of_fuel
unfolding dmindex load
dmindex-stuck m s match rounds zero cs s_ne str none_left enough = refl
dmindex-stuck m s match rounds (suc turns) cs s_ne str none_left enough =
    simp (==_ne (m s) 0 s_ne, matches-none m (m s) match rounds cs str none_left enough)
      (dmindex-stuck m s match rounds turns cs s_ne str none_left enough)
