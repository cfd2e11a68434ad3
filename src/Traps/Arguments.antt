-- ===== src/Traps/Arguments.antt =====
-- How os/traps.c reads the arguments of a trap, and its handlers for process_create and printf.
use lab.Prelude.{
  ℕ, zero, suc, ◌+◌, ◌-◌, ◌*◌, ◌^◌, ◌||◌, Bool, true, false, not, ltb, leb, ◌==◌, if◌then◌else◌,
}
use lab.Prelude.Int.{ℤ, pos, negsuc}
use lab.Run.{Cmd, ok, pure, starved, exitsim, ◌>>=◌, ◌>>◌}
use lab.Queue.Store.{Ptr}
use lab.Kernel.{read_pcb}
use lab.Memory.Moving.{copy_to_system}
use lab.Synch.Handles.{current_pcb}
use lab.Text.Strings.{load, store, bcopy, bzero, dstrncpy, dstrcpy, dstrlen}
use lab.Text.Numbers.{between}
use lab.Machine.{Machine, Platform, Layout, in_kernel, in_bytes}
use lab.Startup.Fork.{Loader, fork}

-- `MemoryCopyUserToSystem (currentPCB, ...)`
unfoldable pub from_process : Ptr → Ptr → ℕ → Cmd Machine (Unit {0})
from_process from to n = do
  p ← in_kernel current_pcb
  r ← in_kernel (read_pcb p)
  in_bytes (copy_to_system r.pagetable r.npages from to n)
  pure tt

-- The two's complement number that a word stands for.
unfoldable pub to_int : ℕ → ℤ
to_int w = if ltb w (2 ^ 31) then pos w else negsuc (2 ^ 32 - 1 - w)

module _ (platform : Platform) (layout : Layout) where
  unfoldable pub read_word : Ptr → Cmd Machine ℕ
  read_word p m = ok (platform.load_word m.bytes p) m

  -- `GetUintFromTrapArg`
  unfoldable pub get_uint : Ptr → Bool → Cmd Machine ℕ
  get_uint trap_args sysmode = do
    (if sysmode
        then in_bytes (bcopy trap_args layout.arg 4)
        else from_process trap_args layout.arg 4)
    read_word layout.arg

  -- `GetIntFromTrapArg`
  unfoldable pub get_int : Ptr → Bool → Cmd Machine ℤ
  get_int trap_args sysmode = do w ← get_uint trap_args sysmode; pure (to_int w)

  -- The loops that copy a string from the process, one byte at a time, up to its NUL or for `n` bytes
  -- at most; they return the number of bytes.
  unfoldable pub copy_user_string : ℕ → Ptr → Ptr → Cmd Machine ℕ
  copy_user_string zero from to = pure 0
  copy_user_string (suc n) from to = do
    from_process from to 1
    c ← in_bytes (load to)
    if c == 0 then pure 1 else (do k ← copy_user_string n (from + 1) (to + 1); pure (k + 1))

  -- The loop over the arguments of a user process: `args[j]` for `j` below 11 while it is not 0; `i`
  -- bytes of `allargs` are filled. The `do` loop copies one byte at least.
  unfoldable pub gather : ℕ → ℕ → ℕ → Cmd Machine (Unit {0})
  gather zero j i = pure tt
  gather (suc rounds) j i = do
    a ← read_word (layout.args + 4 * j)
    if a == 0 then pure tt else do
      k ← copy_user_string (if leb 1024 i then 1 else 1024 - i) a (layout.allargs + i)
      gather rounds (j + 1) (i + k)

  -- The loop over the arguments of a system process, `rounds` for each string; `destination` stays at
  -- the front of `allargs`.
  unfoldable pub gather_system : ℕ → ℕ → ℕ → Cmd Machine (Unit {0})
  gather_system rounds zero j = pure tt
  gather_system rounds (suc left) j = do
    a ← read_word (layout.args + 4 * j)
    if a == 0 then pure tt else do
      k ← in_bytes (dstrlen rounds a)
      if ltb 100 k then exitsim else do
        in_bytes (dstrcpy rounds layout.allargs a)
        in_bytes (store (layout.allargs + k) 0)
        gather_system rounds left (j + 1)

  -- `TrapProcessCreateHandler`
  unfoldable pub process_create_trap : Loader → ℕ → Ptr → Bool → Cmd Machine ℤ
  process_create_trap loader rounds trap_args sysmode = do
    in_bytes (bzero layout.allargs 100)
    (if sysmode
        then (do
          in_bytes (bcopy trap_args layout.args 512)
          a ← read_word layout.args
          in_bytes (dstrncpy a layout.name 100)
          pure 0)
        else (do
          from_process trap_args layout.args 512
          a ← read_word layout.args
          copy_user_string 100 a layout.name))
    in_bytes (store (layout.name + 99) 0)
    (if sysmode then gather_system rounds 11 0 else gather 11 0 0)
    in_bytes (store (layout.allargs + 1023) 0)
    fork platform layout loader rounds 0 layout.allargs layout.name true

  -- The assignment `printfArgs[nargs] = args[nargs+1]` of `TrapPrintfHandler`.
  unfoldable pub next_printf_arg : ℕ → Cmd Machine (Unit {0})
  next_printf_arg nargs = do
    w ← read_word (layout.args + 4 * (nargs + 1))
    (λ m.
        ok tt (record m { bytes = platform.store_word (layout.printf_args + 4 * nargs) w m.bytes }))

  -- Its loop over the characters of one conversion, from the one before `c`: the place of the last
  -- one, and whether that takes a second word.
  unfoldable pub conversion : ℕ → Ptr → Cmd Machine (Ptr × Bool)
  conversion zero c = starved
  conversion (suc rounds) c = do
    d ← in_bytes (load (c + 1))
    if d == 115
        then pure (c + 1, false)
        else if d == 108
        then conversion rounds (c + 1)
        else if d == 102 || d == 103 || d == 101
        then pure (c + 1, true)
        else if between 97 122 d
        then pure (c + 1, false)
        else conversion rounds (c + 1)

  -- Its loop over the format, `rounds` for each conversion; the number of arguments.
  unfoldable pub scan_format : ℕ → ℕ → Ptr → ℕ → Cmd Machine ℕ
  scan_format rounds zero c nargs = starved
  scan_format rounds (suc left) c nargs = do
    d ← in_bytes (load c)
    e ← in_bytes (load (c + 1))
    if d == 0
        then pure nargs
        else if not (d == 37)
        then scan_format rounds left (c + 1) nargs
        else if e == 37
        then scan_format rounds left (c + 2) nargs
        else (do
          next_printf_arg nargs
          (c', double) ← conversion rounds c
          if double
              then next_printf_arg (nargs + 1) >> scan_format rounds left (c' + 1) (nargs + 2)
              else scan_format rounds left (c' + 1) (nargs + 1))

  -- `TrapPrintfHandler`, but for the call of `printf` that ends it.
  unfoldable pub printf_trap : ℕ → Ptr → Bool → Cmd Machine ℕ
  printf_trap rounds trap_args sysmode = do
    (if sysmode
        then (do
          in_bytes (bcopy trap_args layout.args 40)
          a ← read_word layout.args
          in_bytes (dstrncpy a layout.formatstr 80)
          pure 0)
        else (do
          from_process trap_args layout.args 40
          a ← read_word layout.args
          copy_user_string 80 a layout.formatstr))
    in_bytes (store (layout.formatstr + 79) 0)
    scan_format rounds rounds layout.formatstr 0
