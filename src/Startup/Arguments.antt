-- ===== src/Startup/Arguments.antt =====
-- get_argument and process_create of os/process.c: the arguments of a program stand one after another
-- in a buffer, each with its NUL.
use lab.Prelude.{ℕ, zero, suc, ◌+◌, ◌-◌, ◌||◌, true, false, List, [], ◌∷◌, leb, ◌==◌, if◌then◌else◌}
use lab.Run.{Cmd, ok, pure, starved, ◌>>=◌, ◌>>◌}
use lab.Queue.Store.{Ptr, null}
use lab.Text.Strings.{Bytes, load, store}

-- The memory, and the static variables of `get_argument`.
pub record Scanner : Type 0 where
  pub text : Bytes
  pub str : Ptr
  pub location : ℕ

-- The loop of `get_argument`: `location` goes behind the next NUL, or to 100. The rounds are those
-- that are left up to 100.
unfoldable pub skip_argument : ℕ → Cmd Scanner (Unit {0})
skip_argument zero s = ok tt s
skip_argument (suc rounds) s =
    let next = record s { location = s.location + 1 } in
    elim (s.text (s.str + s.location) == 0) [
      | true ↦ ok tt next
      | false ↦ skip_argument rounds next
    ]

-- What `get_argument` does once the buffer is known.
unfoldable pub next_argument : Cmd Scanner ℕ
next_argument s =
    if s.text (s.str + s.location) == 0 || leb 99 s.location
    then ok 0 s
    else (do skip_argument (100 - s.location); pure s.location) s

-- `get_argument`, which goes on where it stands if its argument is NULL.
unfoldable pub get_argument : Ptr → Cmd Scanner ℕ
get_argument string s =
    if string == null
    then next_argument s
    else next_argument (record s { str = string; location = 0 })

-- The loop of `ProcessFork` over the arguments: the offsets that it writes to `dum`, the one that
-- ends it included.
unfoldable pub read_offsets : ℕ → Cmd Scanner (List ℕ)
read_offsets zero = starved
read_offsets (suc rounds) = do
  offset ← get_argument null
  if offset == 0 then pure (0 ∷ []) else do rest ← read_offsets rounds; pure (offset ∷ rest)

-- Both calls of `get_argument` in `ProcessFork`, the first for the buffer itself.
unfoldable pub argument_offsets : ℕ → Ptr → Cmd Scanner (List ℕ)
argument_offsets rounds param = do
  first ← get_argument param
  rest ← read_offsets rounds
  pure (first ∷ rest)

-- The inner loop of `process_create`, which copies one argument with its NUL; the place behind it.
unfoldable pub copy_argument : ℕ → Ptr → Ptr → Cmd Bytes Ptr
copy_argument zero from to = starved
copy_argument (suc rounds) from to = do
  c ← load from
  store to c
  if c == 0 then pure (to + 1) else copy_argument rounds (from + 1) (to + 1)

-- The loops of `process_create` over its arguments, given by their addresses.
unfoldable pub copy_arguments : ℕ → List Ptr → Ptr → Cmd Bytes Ptr
copy_arguments rounds [] to = pure to
copy_arguments rounds (arg ∷ args) to = do
  next ← copy_argument rounds arg to
  copy_arguments rounds args next

-- What `process_create` makes of its arguments before it calls `ProcessFork`.
unfoldable pub pack_arguments : ℕ → List Ptr → Ptr → Cmd Bytes (Unit {0})
pack_arguments rounds args allargs = do
  k ← copy_arguments rounds args allargs
  store (k + 1) 0
  store k 0
