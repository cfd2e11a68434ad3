-- ===== src/Startup/ArgumentLaws.antt =====
-- get_argument of os/process.c on any buffer, and on one that process_create has filled.
use lab.Prelude.{
  ℕ, zero, suc, ◌+◌, ◌-◌, ◌||◌, ◌≤◌, ◌<◌, ◌≡◌, ◌≢◌, refl, ap, ◌∙◌, subst, inl, inr, false,
  Bool-cases, List, [], ◌∷◌, length, leb, ◌==◌, ==_ne, arith,
}
use lab.Run.{Returns, returns, Returns-and_then, Returns-mono, ok}
use lab.Queue.Store.{Ptr, null}
use lab.Text.Strings.{Bytes}
use lab.Text.StringLaws.{HasString, no_round}
use lab.Startup.Arguments.{
  Scanner, skip_argument, next_argument, get_argument, read_offsets, argument_offsets,
}

skip_argument-after :
    (rounds : ℕ) (s : Scanner)
    → Returns (λ _ t. s.location + 1 ≤ t.location) (skip_argument (suc rounds) s)
unfolding skip_argument
skip_argument-after zero s = elim (Bool-cases (s.text (s.str + s.location) == 0)) [
  | inl nul ↦ rw (skip_argument, nul) (returns (omega arith))
  | inr char ↦ rw (skip_argument, char) (returns (omega arith))
]
skip_argument-after (suc rounds) s = elim (Bool-cases (s.text (s.str + s.location) == 0)) [
  | inl nul ↦ rw (skip_argument, nul) (returns (omega arith))
  | inr char ↦
      rw (skip_argument, char)
        (Returns-mono (skip_argument-after rounds (record s { location = s.location + 1 }))
          λ _ t h. omega (arith, h))
]

-- An argument that begins at `location`: it is the one returned, and the search moves on.
next_argument-moves :
    (s : Scanner)
    → Returns
        (λ offset t. (offset ≢ 0) → (s.location < 99) × (s.location + 1 ≤ t.location))
        (next_argument s)
unfolding next_argument
next_argument-moves s = elim (Bool-cases (s.text (s.str + s.location) == 0 || leb 99 s.location)) [
  | inl over ↦ rw over (returns (λ ne. absurd (ne refl)))
  | inr here ↦ rw here (
      Returns-and_then
        (subst (λ (x : ℕ). Returns (λ _ t. s.location + 1 ≤ t.location) (skip_argument x s))
          (ground (arith, here)) (skip_argument-after (99 - s.location) s))
        λ _ t h. returns (λ ne. (ground (arith, here), h)))
]

read_offsets-bounded :
    (rounds : ℕ) (s : Scanner)
    → 0 < rounds
    → 100 ≤ s.location + rounds
    → Returns (λ offs _. length offs ≤ rounds) (read_offsets rounds s)
unfolding read_offsets get_argument
read_offsets-bounded zero s some_left enough = absurd (omega (arith, some_left))
read_offsets-bounded (suc rounds) s some_left enough =
    Returns-and_then (next_argument-moves s) λ offset t moved. elim (Bool-cases (offset == 0)) [
      | inl over ↦ rw over (returns (omega arith))
      | inr more ↦
          let (low, after) = moved (λ e. ground (arith, more, e)) in
          rw more (
            Returns-and_then
              (read_offsets-bounded rounds t (omega (arith, low, enough))
                (omega (arith, after, enough)))
              λ offs u h. returns (omega (arith, h)))
    ]

-- The first call of `get_argument` returns, whatever its argument.
first_argument : (s : Scanner) (param : Ptr) → Returns (λ _ t. Unit {0}) (get_argument param s)
unfolding get_argument
first_argument s param = elim (Bool-cases (param == null)) [
  | inl none ↦ rw none (Returns-mono (next_argument-moves s) (λ _ t h. tt))
  | inr some ↦
      rw some
        (Returns-mono (next_argument-moves (record s { str = param; location = 0 })) (λ _ t h. tt))
]

-- The loop of `ProcessFork` over the arguments ends, whatever bytes it finds, and writes at most 102
-- offsets; `dum` has room for 134 behind its first two words.
pub argument_offsets-bounded :
    (s : Scanner) (param : Ptr)
    → Returns (λ offs _. length offs ≤ 102) (argument_offsets 101 param s)
unfolding argument_offsets get_argument
argument_offsets-bounded s param = Returns-and_then (first_argument s param) λ offset t _.
    Returns-and_then (read_offsets-bounded 101 t (omega arith) (omega arith))
      λ offs u h. returns (omega (arith, h))

-- The bytes at an address are the strings of a list, one after another, and a NUL behind the last; no
-- string is empty.
abbrev pub Packed : Bytes → Ptr → List (List ℕ) → Type 0
Packed m p [] = m p ≡ 0
Packed m p (arg ∷ args) = HasString m p arg × (arg ≢ []) × Packed m (p + length arg + 1) args

-- The bytes of the strings of a list, each with its NUL.
abbrev pub total : List (List ℕ) → ℕ
total [] = 0
total (arg ∷ args) = length arg + 1 + total args

-- Where the strings of a list begin, when the first begins at `o`; a 0 ends the offsets.
abbrev pub offsets : ℕ → List (List ℕ) → List ℕ
offsets o [] = 0 ∷ []
offsets o (arg ∷ args) = o ∷ offsets (o + length arg + 1) args

skip_argument-string :
    (rounds : ℕ) (s : Scanner) (cs : List ℕ)
    → HasString s.text (s.str + s.location) cs
    → length cs < rounds
    → skip_argument rounds s ≡ ok tt (record s { location = s.location + length cs + 1 })
unfolding skip_argument
skip_argument-string zero s cs str enough = absurd (no_round (length cs) enough)
skip_argument-string (suc rounds) s [] nul enough =
    rw (skip_argument, nul) (ap (λ (x : ℕ). ok tt (record s { location = x })) (omega arith))
skip_argument-string (suc rounds) s (c ∷ cs) (here, c_ne, rest) enough =
    rw (skip_argument, here, ==_ne c 0 c_ne)
      (skip_argument-string rounds (record s { location = s.location + 1 }) cs
          (subst (λ (x : ℕ). HasString s.text x cs) (omega arith) rest) (omega (arith, enough))
        ∙ ap (λ (x : ℕ). ok tt (record s { location = x })) (omega arith))

next_argument-string :
    (s : Scanner) (cs : List ℕ)
    → HasString s.text (s.str + s.location) cs
    → cs ≢ []
    → s.location + length cs < 99
    → next_argument s ≡ ok s.location (record s { location = s.location + length cs + 1 })
unfolding next_argument
next_argument-string s [] str ne fits = absurd (ne refl)
next_argument-string s (c ∷ cs) str ne fits =
    let low : leb 99 s.location ≡ false = ground (arith, fits) in
    rw
      (
        str.0,
        ==_ne c 0 str.1,
        low,
        skip_argument-string (100 - s.location) s (c ∷ cs) str (omega (arith, fits)),
      )
      refl

next_argument-nul : (s : Scanner) → s.text (s.str + s.location) ≡ 0 → next_argument s ≡ ok 0 s
unfolding next_argument
next_argument-nul s nul = rw nul refl

read_offsets-offsets :
    (rounds : ℕ) (s : Scanner) (args : List (List ℕ))
    → 0 < s.location
    → Packed s.text (s.str + s.location) args
    → s.location + total args ≤ 99
    → length args < rounds
    → read_offsets rounds s
      ≡ ok (offsets s.location args) (record s { location = s.location + total args })
unfolding read_offsets get_argument
read_offsets-offsets zero s args started packed fits enough = absurd (omega (arith, enough))
read_offsets-offsets (suc rounds) s [] started nul fits enough =
    rw (next_argument-nul s nul)
      (ap (λ (x : ℕ). ok (0 ∷ []) (record s { location = x })) (omega arith))
read_offsets-offsets (suc rounds) s (arg ∷ args) started (str, ne, rest) fits enough =
    let s' = record s { location = s.location + length arg + 1 } in
    rw
      (
        next_argument-string s arg str ne (omega (arith, fits)),
        ==_ne s.location 0 (λ e. omega (arith, e, started)),
        read_offsets-offsets rounds s' args (omega arith)
            (subst (λ (x : ℕ). Packed s.text x args) (omega arith) rest) (omega (arith, fits))
            (omega (arith, enough)),
      )
      (ap
        (λ (x : ℕ).
          ok (s.location ∷ offsets (s.location + length arg + 1) args) (record s { location = x }))
        (omega arith))

-- On a buffer of arguments, not at NULL, none of them empty, that take at most 99 bytes, `ProcessFork` finds where
-- each argument begins, in order, and ends with a 0.
pub argument_offsets-Packed :
    (rounds : ℕ) (s : Scanner) (param : Ptr) (arg : List ℕ) (args : List (List ℕ))
    → param ≢ null
    → Packed s.text param (arg ∷ args)
    → total (arg ∷ args) ≤ 99
    → length args < rounds
    → argument_offsets rounds param s
      ≡ ok (offsets 0 (arg ∷ args)) (record s { str = param; location = total (arg ∷ args) })
unfolding argument_offsets get_argument
argument_offsets-Packed rounds s param arg args p_ne (str, ne, rest) fits enough =
    let s0 = record s { str = param; location = 0 } in
    let s' = record s { str = param; location = length arg + 1 } in
    let str' : HasString s.text (param + 0) arg =
      subst (λ (x : ℕ). HasString s.text x arg) (omega arith) str in
    let rest' : Packed s.text (param + (length arg + 1)) args =
      subst (λ (x : ℕ). Packed s.text x args) (omega arith) rest in
    let found : next_argument s0 ≡ ok 0 s' =
      next_argument-string s0 arg str' ne (omega (arith, fits))
      ∙ ap (λ (x : ℕ). ok 0 (record s0 { location = x })) (omega arith) in
    rw
      (
        ==_ne param null p_ne,
        found,
        read_offsets-offsets rounds s' args (omega arith) rest' (omega (arith, fits)) enough,
      )
      (ap
        (λ (x : ℕ). ok (0 ∷ offsets x args) (record s' { location = length arg + 1 + total args }))
        (omega arith))
