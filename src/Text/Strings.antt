-- ===== src/Text/Strings.antt =====
-- The string routines of os/misc.c, over a memory of bytes. A pointer is an address, and NULL is 0. A
-- loop that scans for the end of a string runs on fuel, as the memory need not hold one.
use lab.Prelude.{ℕ, zero, suc, ◌+◌, Bool, true, false, not, ltb, ◌==◌, if◌then◌else◌}
use lab.Prelude.Int.{ℤ, pos, negsuc}
use lab.Run.{Cmd, ok, pure, starved, ◌>>=◌, ◌>>◌}
use lab.Queue.Store.{Ptr, null, update}

abbrev pub Bytes : Type 0
Bytes = Ptr → ℕ

unfoldable pub load : Ptr → Cmd Bytes ℕ
load p m = ok (m p) m

unfoldable pub store : Ptr → ℕ → Cmd Bytes (Unit {0})
store p c m = ok tt (update m p c)

-- `dstrcpy`; it returns `to`.
unfoldable pub copy_chars : ℕ → Ptr → Ptr → Cmd Bytes (Unit {0})
copy_chars zero to from = starved
copy_chars (suc rounds) to from = do
  last ← load from
  store to last
  if last == 0 then pure tt else copy_chars rounds (to + 1) (from + 1)

unfoldable pub dstrcpy : ℕ → Ptr → Ptr → Cmd Bytes Ptr
dstrcpy rounds to from = copy_chars rounds to from >> pure to

-- `dstrncpy`, whose count bounds the loop.
unfoldable pub copy_at_most : ℕ → Ptr → Ptr → Cmd Bytes (Unit {0})
copy_at_most zero to from = pure tt
copy_at_most (suc n) to from = do
  last ← load from
  store to last
  if last == 0 then pure tt else copy_at_most n (to + 1) (from + 1)

unfoldable pub dstrncpy : Ptr → Ptr → ℕ → Cmd Bytes Ptr
dstrncpy to from n = copy_at_most n to from >> pure to

-- The loop of `dstrcat`: the address of the NUL that ends the string.
unfoldable pub find_end : ℕ → Ptr → Cmd Bytes Ptr
find_end zero p = starved
find_end (suc rounds) p = do c ← load p; if c == 0 then pure p else find_end rounds (p + 1)

-- `dstrcat`
unfoldable pub dstrcat : ℕ → Ptr → Ptr → Cmd Bytes Ptr
dstrcat rounds onto addn = do end ← find_end rounds onto; dstrcpy rounds end addn; pure onto

-- The difference of two characters, as `dstrncmp` returns it after its loop.
abbrev pub order : ℕ → ℕ → ℤ
order a b = if ltb a b then negsuc 0 else if a == b then pos 0 else pos 1

-- `dstrncmp`; the count is what is left of `n`.
unfoldable pub dstrncmp : Ptr → Ptr → ℕ → Cmd Bytes ℤ
dstrncmp s1 s2 zero = pure (pos 0)
dstrncmp s1 s2 (suc n) = do
  c2 ← load s2
  c1 ← load s1
  if c2 == 0
      then pure (pos 0)
      else if not (c1 == c2)
      then pure (order c1 c2)
      else dstrncmp (s1 + 1) (s2 + 1) n

-- `dstrlen`, with the value of `i`.
unfoldable pub count_chars : ℕ → Ptr → ℕ → Cmd Bytes ℕ
count_chars zero s i = starved
count_chars (suc rounds) s i = do
  c ← load s
  if c == 0 then pure i else count_chars rounds (s + 1) (i + 1)

unfoldable pub dstrlen : ℕ → Ptr → Cmd Bytes ℕ
dstrlen rounds s = count_chars rounds s 0

-- `dstrstr`
unfoldable pub find_pattern : ℕ → Ptr → Ptr → ℕ → Cmd Bytes Ptr
find_pattern zero buf pattern n = starved
find_pattern (suc rounds) buf pattern n = do
  c ← load buf
  if c == 0 then pure null else do
    found ← dstrncmp buf pattern n
    elim found [ pos zero ↦ pure buf | _ ↦ find_pattern rounds (buf + 1) pattern n ]

unfoldable pub dstrstr : ℕ → Ptr → Ptr → Cmd Bytes Ptr
dstrstr rounds buf pattern = do n ← dstrlen rounds pattern; find_pattern rounds buf pattern n

-- The inner loop of `dmindex`: whether the character stands in the string at `c`.
unfoldable pub matches : ℕ → ℕ → Ptr → Cmd Bytes Bool
matches zero ch c = starved
matches (suc rounds) ch c = do
  d ← load c
  if d == 0 then pure false else if ch == d then pure true else matches rounds ch (c + 1)

-- `dmindex`; the outer loop does not advance `s`. Each round of it has `rounds` of the inner one.
unfoldable pub dmindex : ℕ → ℕ → Ptr → Ptr → Cmd Bytes Ptr
dmindex rounds zero s match = starved
dmindex rounds (suc turns) s match = do
  c ← load s
  if c == 0
      then pure null
      else do found ← matches rounds c match; if found then pure s else dmindex rounds turns s match

-- `dindex`
unfoldable pub dindex : ℕ → Ptr → ℕ → Cmd Bytes Ptr
dindex zero s c = starved
dindex (suc rounds) s c = do
  d ← load s
  if d == 0 then pure null else if d == c then pure s else dindex rounds (s + 1) c

-- `bcopy`
unfoldable pub bcopy : Ptr → Ptr → ℕ → Cmd Bytes (Unit {0})
bcopy src dst zero = pure tt
bcopy src dst (suc count) = do c ← load src; store dst c; bcopy (src + 1) (dst + 1) count

-- `bzero`
unfoldable pub bzero : Ptr → ℕ → Cmd Bytes (Unit {0})
bzero dst zero = pure tt
bzero dst (suc count) = do store dst 0; bzero (dst + 1) count
