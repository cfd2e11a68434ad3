-- ===== src/Startup/LoadingLaws.antt =====
-- What ProcessGetFromFile of os/process.c makes of the lines of a program's file.
use lab.Prelude.{
  ℕ, zero, suc, ◌+◌, ◌*◌, ◌^◌, ◌%◌, ◌/◌, ◌≡◌, ◌≢◌, ◌<◌, ◌≤◌, ◌⊎◌, refl, subst, List, [], ◌∷◌, arith,
  length, ltb, if◌then◌else◌, ==_ne, true,
}
use lab.Run.{Returns, returns, Returns-mono, ok}
use lab.Queue.Store.{Ptr, update}
use lab.Text.Strings.{Bytes, load, store}
use lab.Text.Numbers.{isxdigit, getxvalue}
use lab.Startup.Loading.{Cursor, skip_blanks, read_line}

-- A digit of a number in hexadecimal, as the files have it.
unfoldable pub hex_digit : ℕ → ℕ
hex_digit d = if ltb d 10 then d + 48 else d + 87

-- The bytes of a line behind its colon.
abbrev pub spelled : List ℕ → List ℕ
spelled [] = 10 ∷ []
spelled (b ∷ bs) = hex_digit (b / 16) ∷ hex_digit (b % 16) ∷ spelled bs

abbrev pub AllBytes : List ℕ → Type 0
AllBytes [] = Unit {0}
AllBytes (b ∷ bs) = (b < 256) × AllBytes bs

-- The list stands in memory from the address `p` on.
abbrev pub HasText : Bytes → Ptr → List ℕ → Type 0
HasText m p [] = Unit {0}
HasText m p (c ∷ cs) = (m p ≡ c) × HasText m (p + 1) cs

-- The addresses from `p` on, `n` in all, and those from `q` on, `k` in all, are not the same.
abbrev pub Apart : Ptr → ℕ → Ptr → ℕ → Type 0
Apart p n q k = (p + n ≤ q) ⊎ (q + k ≤ p)

-- The bytes were written to `p`, and no other byte has changed.
pub record Loaded (m : Bytes) (p : Ptr) (bs : List ℕ) (t : Bytes) : Type 0 where
  pub there : HasText t p bs
  pub others : (a : Ptr) → (a < p) ⊎ (p + length bs ≤ a) → t a ≡ m a

hex_digit-digit : (d : ℕ) → d < 16 → (isxdigit (hex_digit d) ≡ true) × (getxvalue (hex_digit d) ≡ d)
unfolding hex_digit isxdigit getxvalue
hex_digit-digit d h = ground arith

pub hex_digit-range :
    (d : ℕ)
    → d < 16
    → (48 ≤ hex_digit d) × (hex_digit d < 103) × (hex_digit d ≢ 58) × (hex_digit d ≢ 90)
unfolding hex_digit
hex_digit-range d h = ground arith

pub HasText-update :
    (m : Bytes) (p q : Ptr) (v : ℕ) (cs : List ℕ)
    → HasText m p cs
    → Apart q 1 p (length cs)
    → HasText (update m q v) p cs
unfolding update
HasText-update m p q v [] text apart = tt
HasText-update m p q v (c ∷ cs) (here, rest) apart =
    (ground arith, HasText-update m (p + 1) q v cs rest (ground arith))

skip_blanks-stays :
    (m : Bytes) (p c rounds : ℕ) → m p ≡ c → c ≢ 32 → c ≢ 9 → skip_blanks (suc rounds) p m ≡ ok p m
unfolding skip_blanks load
skip_blanks-stays m p c rounds here a b = simp (here, ==_ne c 32 a, ==_ne c 9 b) refl

Loaded-first :
    (m t : Bytes) (p b : ℕ) (bs : List ℕ)
    → Loaded (update m p b) (p + 1) bs t
    → Loaded m p (b ∷ bs) t
unfolding update
Loaded-first m t p b bs loaded = record {
  there = (ground (arith, loaded.others p), loaded.there);
  others = λ a far. ground (arith, loaded.others a);
}

-- What `read_line` makes of a line.
pub record ReadsLine (m : Bytes) (buf : Ptr) (s : Cursor) (bs : List ℕ) (r : Cursor) (t : Bytes)
    : Type 0 where
  pub lpos : r.lpos ≡ s.lpos + 2 * length bs + 1
  pub nbytes : r.nbytes ≡ s.nbytes + length bs
  pub addr : r.addr ≡ (s.addr + length bs) % 2 ^ 32
  pub loaded : Loaded m (buf + s.nbytes) bs t

pub read_line-spelled :
    (m : Bytes) (buf : Ptr) (s : Cursor) (bs : List ℕ) (rounds : ℕ)
    → AllBytes bs
    → HasText m s.lpos (spelled bs)
    → Apart (buf + s.nbytes) (length bs) s.lpos (length (spelled bs))
    → s.addr < 2 ^ 32
    → length bs < rounds
    → Returns (λ r t. ReadsLine m buf s bs r t) (read_line rounds buf s m)
unfolding read_line load store
read_line-spelled m buf s bs zero bytes text apart word enough = absurd (omega (arith, enough))
read_line-spelled m buf s [] (suc rounds) bytes (here, _) apart word enough =
    simp
      (
        skip_blanks-stays m s.lpos 10 rounds here (λ e. omega (arith, e)) (λ e. omega (arith, e)),
        here,
      )
      (returns (record {
        lpos = omega arith;
        nbytes = omega arith;
        addr = omega (arith, word);
        loaded = record { there = tt; others = λ a far. refl };
      }))
read_line-spelled m buf s (b ∷ bs) (suc rounds) (byte, bytes) (here, (next, rest)) apart word
      enough =
    let high = hex_digit (b / 16) in
    let low = hex_digit (b % 16) in
    let (high_is, high_value) = hex_digit-digit (b / 16) (omega (arith, byte)) in
    let (low_is, low_value) = hex_digit-digit (b % 16) (omega arith) in
    let range = hex_digit-range (b / 16) (omega (arith, byte)) in
    let there : (b / 16 * 16 + b % 16) % 2 ^ 8 ≡ b = omega (arith, byte) in
    simp
      (
        skip_blanks-stays m s.lpos high rounds here (λ e. omega (arith, e, range))
            (λ e. omega (arith, e, range)),
        here,
        next,
        ==_ne high 10 (λ e. omega (arith, e, range)),
        high_is,
        low_is,
        high_value,
        low_value,
        there,
      )
      (Returns-mono
        (read_line-spelled (update m (buf + s.nbytes) b) buf
          (record { lpos = s.lpos + 2; nbytes = s.nbytes + 1; addr = (s.addr + 1) % 2 ^ 32 }) bs
          rounds bytes
          (HasText-update m (s.lpos + 2) (buf + s.nbytes) b (spelled bs)
            (subst (λ (x : ℕ). HasText m x (spelled bs)) (omega arith) rest)
            (ground (arith, apart)))
          (ground (arith, apart)) (omega arith) (omega (arith, enough)))
        λ r t reads. record {
          lpos = omega (arith, reads.lpos);
          nbytes = omega (arith, reads.nbytes);
          addr = omega (arith, reads.addr);
          loaded = Loaded-first m t (buf + s.nbytes) b bs (
              subst (λ (x : ℕ). Loaded (update m (buf + s.nbytes) b) x bs t) (omega arith)
                reads.loaded);
        })
