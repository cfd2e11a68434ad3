-- ===== src/Text/Numbers.antt =====
-- ditoa and dstrtol of os/misc.c, the character tests of include/misc.h, and getxvalue of
-- os/process.c. Characters are ASCII codes.
use lab.Prelude.{
  ℕ, zero, suc, ◌+◌, ◌-◌, ◌*◌, ◌/◌, ◌%◌, ◌&&◌, ◌||◌, Bool, not, ltb, leb, ◌==◌, if◌then◌else◌,
}
use lab.Prelude.Int.{ℤ, pos, negsuc, ◌-ℤ◌}
use lab.Run.{Cmd, pure, starved, ◌>>=◌, ◌>>◌}
use lab.Queue.Store.{Ptr}
use lab.Text.Strings.{Bytes, load, store}

abbrev pub between : ℕ → ℕ → ℕ → Bool
between a b c = leb a c && leb c b

-- `isspace`
unfoldable pub isspace : ℕ → Bool
isspace c = c == 32 || c == 9 || c == 10

-- `isxdigit`, whose last range is from 'A' to 'A'.
unfoldable pub isxdigit : ℕ → Bool
isxdigit c = between 48 57 c || between 97 102 c || between 65 65 c

-- `getxvalue`
unfoldable pub getxvalue : ℕ → ℕ
getxvalue x =
    if between 48 57 x
    then x - 48
    else if between 97 102 x
    then x + 10 - 97
    else if between 65 70 x
    then x + 10 - 65
    else 0

-- The first loop of `ditoa`: the least power of ten above `n`, from `k` on.
unfoldable pub power_above : ℕ → ℕ → ℕ → Cmd Bytes ℕ
power_above zero k n = starved
power_above (suc rounds) k n = if leb k n then power_above rounds (k * 10) n else pure k

-- Its second loop, which writes the digits and returns the address behind them.
unfoldable pub write_digits : ℕ → ℕ → ℕ → Ptr → Cmd Bytes Ptr
write_digits zero k n buf = starved
write_digits (suc rounds) k n buf =
    let k' = k / 10 in
    let rest = write_digits rounds k' (n % k') (buf + 1) in
    store buf (n / k' + 48) >> (if ltb 1 k' then rest else pure (buf + 1))

-- `ditoa` for numbers below 10 ^ 9, where `k` stays within an int. Ten rounds are enough for them.
unfoldable pub ditoa : ℤ → Ptr → Cmd Bytes (Unit {0})
ditoa (negsuc n) buf = do store buf 45; store (buf + 1) 0
ditoa (pos zero) buf = do store buf 48; store (buf + 1) 0
ditoa (pos (suc n)) buf = do
  k ← power_above 10 1 (suc n)
  end ← write_digits 10 k (suc n) buf
  store end 0

-- The value of a character as a digit, 1000 where it is none.
unfoldable pub digit_value : ℕ → ℕ
digit_value c =
    if between 48 57 c
    then c - 48
    else if between 97 122 c
    then c + 10 - 97
    else if between 65 90 c
    then c + 10 - 65
    else 1000

-- The loop of `dstrtol` that skips white space.
unfoldable pub skip_space : ℕ → Ptr → Cmd Bytes Ptr
unfolding isspace
skip_space zero c = starved
skip_space (suc rounds) c = do d ← load c; if isspace d then skip_space rounds (c + 1) else pure c

-- The loop of `dstrtol` that reads digits: the value, and the address behind them.
unfoldable pub read_digits : ℕ → ℕ → ℕ → Ptr → Cmd Bytes (ℕ × Ptr)
read_digits zero base v c = starved
read_digits (suc rounds) base v c = do
  d ← load c
  if ltb (digit_value d) base
      then read_digits rounds base (v * base + digit_value d) (c + 1)
      else pure (v, c)

-- The base and the place of the first digit, after `dstrtol` has looked at a prefix.
unfoldable pub read_prefix : ℕ → Ptr → Cmd Bytes (ℕ × Ptr)
read_prefix zero c = do
  d ← load c
  if not (d == 48)
      then pure (10, c)
      else do e ← load (c + 1); if e == 120 || e == 88 then pure (16, c + 2) else pure (8, c + 1)
read_prefix (suc base) c = pure (suc base, c)

-- The result with its sign.
abbrev pub signed : Bool → ℕ → ℤ
signed negative v = if negative then pos 0 -ℤ pos v else pos v

-- `dstrtol` where the digits make a number within an int: the value, and what `newpos` receives.
unfoldable pub dstrtol : ℕ → Ptr → ℕ → Cmd Bytes (ℤ × Ptr)
dstrtol rounds s base = do
  c ← skip_space rounds s
  d ← load c
  if d == 0 then pure (pos 0, c) else do
    let negative = d == 45
    (base', first) ← read_prefix base (if negative then c + 1 else c)
    if ltb 16 base'
        then pure (pos 0, c)
        else do (v, end) ← read_digits rounds base' 0 first; pure (signed negative v, end)

-- `min`
unfoldable pub min : ℕ → ℕ → ℕ
min a b = if ltb a b then a else b
