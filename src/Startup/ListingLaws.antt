-- ===== src/Startup/ListingLaws.antt =====
-- What the loop of ProcessGetFromFile in os/process.c makes of the lines of a buffer.
use lab.Prelude.{
  ℕ, zero, suc, ◌+◌, ◌*◌, ◌^◌, ◌%◌, ◌/◌, ◌≡◌, ◌≢◌, ◌<◌, ◌≤◌, ◌⊎◌, inl, inr, refl, subst, ◌∙◌, List,
  [], ◌∷◌, ◌++◌, arith, length, length-append, ◌==◌, ==_ne, ==_self, false,
}
use lab.Run.{Returns, returns, Returns-mono, Returns-and_then, ok}
use lab.Queue.Store.{Ptr, null}
use lab.Text.Strings.{Bytes, load, dindex}
use lab.Startup.Loading.{Cursor, read_lines, read_address}
use lab.Startup.LoadingLaws.{
  hex_digit-range, spelled, AllBytes, HasText, Apart, Loaded, read_line-spelled,
}

-- Lines without an address in front, and the mark behind the last of them.
abbrev pub listing : List (List ℕ) → List ℕ
listing [] = 90 ∷ 0 ∷ []
listing (bs ∷ lines) = 58 ∷ (spelled bs ++ listing lines)

-- The bytes of all lines.
abbrev pub joined : List (List ℕ) → List ℕ
joined [] = []
joined (bs ∷ lines) = bs ++ joined lines

abbrev pub AllLines : List (List ℕ) → Type 0
AllLines [] = Unit {0}
AllLines (bs ∷ lines) = AllBytes bs × AllLines lines

-- The character stands in the list, with no NUL before it.
abbrev Finds : ℕ → List ℕ → Type 0
Finds c [] = ⊥
Finds c (x ∷ xs) = (x ≡ c) ⊎ ((x ≢ 0) × (x ≢ c) × Finds c xs)

dindex-Finds :
    (m : Bytes) (p c rounds : ℕ) (xs : List ℕ)
    → HasText m p xs
    → Finds c xs
    → c ≢ 0
    → 0 < p
    → length xs ≤ rounds
    → (q : Ptr) × ((q == null) ≡ false) × (dindex rounds p c m ≡ ok q m)
unfolding dindex load
dindex-Finds m p c zero [] text finds c_ne p_ne enough = elim finds [ ]
dindex-Finds m p c (suc rounds) [] text finds c_ne p_ne enough = elim finds [ ]
dindex-Finds m p c zero (x ∷ xs) text finds c_ne p_ne enough = absurd (omega (arith, enough))
dindex-Finds m p c (suc rounds) (x ∷ xs) (here, rest) (inl e) c_ne p_ne enough =
    (p, ground arith, simp (here, e, ==_ne c 0 c_ne, ==_self c) refl)
dindex-Finds m p c (suc rounds) (x ∷ xs) (here, rest) (inr (some_char, other, finds)) c_ne p_ne
      enough =
    let (q, q_ne, eq) =
      dindex-Finds m (p + 1) c rounds xs rest finds c_ne (omega arith) (omega (arith, enough)) in
    (q, q_ne, simp (here, ==_ne x 0 some_char, ==_ne x c other) eq)

spelled-Finds : (bs xs : List ℕ) → AllBytes bs → Finds 90 xs → Finds 90 (spelled bs ++ xs)
spelled-Finds [] xs bytes finds = inr ((λ e. omega (arith, e)), (λ e. omega (arith, e)), finds)
spelled-Finds (b ∷ bs) xs (byte, bytes) finds =
    let high = hex_digit-range (b / 16) (omega (arith, byte)) in
    let low = hex_digit-range (b % 16) (omega arith) in
    inr (
      (λ e. omega (arith, high, e)),
      high.3,
      inr ((λ e. omega (arith, low, e)), low.3, spelled-Finds bs xs bytes finds),
    )

listing-Finds : (lines : List (List ℕ)) → AllLines lines → Finds 90 (listing lines)
listing-Finds [] all = inl refl
listing-Finds (bs ∷ lines) (bytes, all) = inr (
  (λ e. omega (arith, e)),
  (λ e. omega (arith, e)),
  spelled-Finds bs (listing lines) bytes (listing-Finds lines all),
)

pub HasText-split :
    (m : Bytes) (p : Ptr) (xs ys : List ℕ)
    → HasText m p (xs ++ ys)
    → HasText m p xs × HasText m (p + length xs) ys
HasText-split m p [] ys text = (tt, subst (λ (x : ℕ). HasText m x ys) (omega arith) text)
HasText-split m p (x ∷ xs) ys (here, rest) =
    let (first, second) = HasText-split m (p + 1) xs ys rest in
    ((here, first), subst (λ (x : ℕ). HasText m x ys) (omega arith) second)

-- A text that lies elsewhere is as it was.
HasText-Loaded :
    (m t : Bytes) (p q : Ptr) (bs xs : List ℕ)
    → Loaded m p bs t
    → Apart p (length bs) q (length xs)
    → HasText m q xs
    → HasText t q xs
HasText-Loaded m t p q bs [] loaded apart text = tt
HasText-Loaded m t p q bs (x ∷ xs) loaded apart (here, rest) = (
  loaded.others q (ground (arith, apart)) ∙ here,
  HasText-Loaded m t p (q + 1) bs xs loaded (ground (arith, apart)) rest,
)

pub HasText-join :
    (m : Bytes) (p : Ptr) (xs ys : List ℕ)
    → HasText m p xs
    → HasText m (p + length xs) ys
    → HasText m p (xs ++ ys)
HasText-join m p [] ys first second = subst (λ (x : ℕ). HasText m x ys) (omega arith) second
HasText-join m p (x ∷ xs) ys (here, first) second = (
  here,
  HasText-join m (p + 1) xs ys first (subst (λ (x : ℕ). HasText m x ys) (omega arith) second),
)

Loaded-append :
    (m j t : Bytes) (p : Ptr) (xs ys : List ℕ)
    → Loaded m p xs j
    → Loaded j (p + length xs) ys t
    → Loaded m p (xs ++ ys) t
Loaded-append m j t p xs ys first second = record {
  there =
      HasText-join t p xs ys
        (HasText-Loaded j t (p + length xs) p ys xs second (inr (omega arith)) first.there)
        second.there;
  others = λ a far.
      second.others a (ground (arith, far, length-append xs ys))
      ∙ first.others a (ground (arith, far, length-append xs ys));
}

pub length-spelled : (bs : List ℕ) → length (spelled bs) ≡ 2 * length bs + 1
length-spelled [] = omega arith
length-spelled (b ∷ bs) = omega (arith, length-spelled bs)

no_colon :
    (m : Bytes) (p rounds : ℕ)
    → m p ≡ 90
    → m (p + 1) ≡ 0
    → dindex (suc (suc rounds)) p 58 m ≡ ok null m
unfolding dindex load
no_colon m p rounds here nul = simp (here, nul) refl

-- What `read_lines` makes of the lines.
pub record ReadsAll (m : Bytes) (buf : Ptr) (s : Cursor) (lines : List (List ℕ)) (r : Cursor)
    (t : Bytes) : Type 0 where
  pub lpos : r.lpos + 2 ≡ s.lpos + length (listing lines)
  pub nbytes : r.nbytes ≡ s.nbytes + length (joined lines)
  pub addr : r.addr ≡ (s.addr + length (joined lines)) % 2 ^ 32
  pub loaded : Loaded m (buf + s.nbytes) (joined lines) t

module _ (buf : Ptr) where
  pub read_lines-listing :
      (m : Bytes) (s : Cursor) (lines : List (List ℕ)) (rounds : ℕ)
      → AllLines lines
      → HasText m s.lpos (listing lines)
      → Apart (buf + s.nbytes) (length (joined lines)) s.lpos (length (listing lines))
      → s.addr < 2 ^ 32
      → 0 < s.lpos
      → length (listing lines) < rounds
      → Returns (λ r t. ReadsAll m buf s lines r t) (read_lines rounds buf s m)
  unfolding read_lines read_address load
  read_lines-listing m s lines zero all text apart word placed enough =
      absurd (omega (arith, enough))
  read_lines-listing m s [] (suc zero) all text apart word placed enough =
      absurd (omega (arith, enough))
  read_lines-listing m s [] (suc (suc rounds)) all (here, (nul, _)) apart word placed enough =
      let (q, q_ne, end) =
        dindex-Finds m s.lpos 90 (suc (suc rounds)) (listing []) (here, (nul, tt)) (inl refl)
          (λ e. omega (arith, e)) placed (omega (arith, enough)) in
      simp (end, q_ne, no_colon m s.lpos rounds here nul)
        (returns (record {
          lpos = refl;
          nbytes = omega arith;
          addr = omega (arith, word);
          loaded = record { there = tt; others = λ a far. refl };
        }))
  read_lines-listing m s (bs ∷ lines) (suc rounds) (bytes, all) (here, text) apart word placed
        enough =
      let (q, q_ne, end) =
        dindex-Finds m s.lpos 90 (suc rounds) (listing (bs ∷ lines)) (here, text)
          (listing-Finds (bs ∷ lines) (bytes, all)) (λ e. omega (arith, e)) placed
          (omega (arith, enough)) in
      let (c, c_ne, colon) =
        dindex-Finds m s.lpos 58 (suc rounds) (listing (bs ∷ lines)) (here, text) (inl refl)
          (λ e. omega (arith, e)) placed (omega (arith, enough)) in
      let (line, others) = HasText-split m (s.lpos + 1) (spelled bs) (listing lines) text in
      let in_bytes = length-append bs (joined lines) in
      let in_text = length-append (spelled bs) (listing lines) in
      let in_line = length-spelled bs in
      simp (end, q_ne, colon, c_ne, here)
        (Returns-and_then
          (read_line-spelled m buf (record s { lpos = s.lpos + 1 }) bs (suc rounds) bytes line
            (ground (arith, apart)) word (omega (arith, enough)))
          λ r j reads.
            Returns-mono
              (read_lines-listing j r lines rounds all
                (subst (λ (x : ℕ). HasText j x (listing lines)) (omega (arith, reads.lpos))
                  (HasText-Loaded m j (buf + s.nbytes) (s.lpos + 1 + length (spelled bs)) bs
                    (listing lines) reads.loaded (ground (arith, apart)) others))
                (ground (arith, apart, reads.lpos, reads.nbytes)) (omega (arith, reads.addr))
                (omega (arith, reads.lpos)) (omega (arith, enough)))
              λ r' t rest. record {
                lpos = omega (arith, rest.lpos, reads.lpos);
                nbytes = omega (arith, rest.nbytes, reads.nbytes);
                addr = omega (arith, rest.addr, reads.addr);
                loaded = Loaded-append m j t (buf + s.nbytes) bs (joined lines) reads.loaded (
                    subst (λ (x : ℕ). Loaded j x (joined lines) t) (omega (arith, reads.nbytes))
                      rest.loaded);
              })
