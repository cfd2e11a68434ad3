-- ===== src/Startup/Loading.antt =====
-- ProcessGetFromFile and ProcessGetCodeInfo of os/process.c, which read a program's file: lines of
-- bytes in hexadecimal, after a first line with the sizes.
use lab.Prelude.{ℕ, zero, suc, ◌+◌, ◌-◌, ◌*◌, ◌^◌, ◌%◌, ◌&&◌, ◌||◌, not, ltb, ◌==◌, if◌then◌else◌}
use lab.Prelude.Int.{ℤ, pos, negsuc, ◌-ℤ◌, eqb_ℤ, is_neg_ℤ, pos_part, neg_part}
use lab.Run.{Cmd, pure, starved, ◌>>=◌, ◌>>◌}
use lab.Queue.Store.{Ptr, null}
use lab.Text.Strings.{Bytes, load, store, dindex, dstrstr}
use lab.Text.Numbers.{isxdigit, getxvalue, dstrtol}
use lab.Machine.{Machine, in_bytes}
use lab.Startup.Fork.{Loader}

-- The calls of os/filesys.c that read a file, on the machine; `read` fills the buffer at an address.
pub record FileCalls : Type 0 where
  pub open_file : Ptr → ℕ → Cmd Machine ℤ
  pub seek : ℤ → ℤ → ℕ → Cmd Machine ℤ
  pub read : ℤ → Ptr → ℕ → Cmd Machine ℤ
  pub close : ℤ → Cmd Machine ℤ

-- The local variables of the loop of `ProcessGetFromFile`, and what `addr` points to.
pub record Cursor : Type 0 where
  pub lpos : Ptr
  pub nbytes : ℕ
  pub addr : ℕ

-- The loop that backs up to the last newline before `p`: `&localbuf[nbytes]` after it.
unfoldable pub back_up : ℕ → Ptr → Cmd Bytes Ptr
back_up zero p = starved
back_up (suc rounds) p = do
  c ← load (p - 1)
  if c == 10 then pure (p - 1) else back_up rounds (p - 1)

-- The loop that skips blanks and tabs.
unfoldable pub skip_blanks : ℕ → Ptr → Cmd Bytes Ptr
skip_blanks zero p = starved
skip_blanks (suc rounds) p = do
  c ← load p
  if c == 32 || c == 9 then skip_blanks rounds (p + 1) else pure p

-- The loop over the bytes of a line, behind its colon; the bytes go to `buf`.
unfoldable pub read_line : ℕ → Ptr → Cursor → Cmd Bytes Cursor
read_line zero buf s = starved
read_line (suc rounds) buf s = do
  p ← skip_blanks (suc rounds) s.lpos
  c ← load p
  d ← load (p + 1)
  if c == 10
      then pure (record s { lpos = p + 1 })
      else if not (isxdigit c && isxdigit d)
      then pure (record s { lpos = p })
      else (do
        store (buf + s.nbytes) ((getxvalue c * 16 + getxvalue d) % 2 ^ 8)
        read_line rounds buf
            (record { lpos = p + 2; nbytes = s.nbytes + 1; addr = (s.addr + 1) % 2 ^ 32 }))

-- A number as an unsigned word.
abbrev pub to_word : ℤ → ℕ
to_word z = (pos_part z + (2 ^ 32 - neg_part z % 2 ^ 32)) % 2 ^ 32

-- The address in front of a line's colon, where there is one.
unfoldable pub read_address : ℕ → Cursor → Cmd Bytes Cursor
read_address rounds s = do
  c ← load s.lpos
  if c == 58 then pure s else (do
    (v, end) ← dstrtol rounds s.lpos 16
    pure (record s { lpos = end; addr = to_word v }))

-- The loop over the lines in `localbuf`, whose end is marked by 'Z'.
unfoldable pub read_lines : ℕ → Ptr → Cursor → Cmd Bytes Cursor
read_lines zero buf s = starved
read_lines (suc rounds) buf s = do
  end ← dindex (suc rounds) s.lpos 90
  if end == null then pure s else do
    colon ← dindex (suc rounds) s.lpos 58
    if colon == null then pure s else do
      c ← load s.lpos
      if not (c == 58) && ltb 0 s.nbytes then pure s else do
        s' ← read_address (suc rounds) s
        c' ← load s'.lpos
        if not (c' == 58) then pure s' else do
          s'' ← read_line (suc rounds) buf (record s' { lpos = s'.lpos + 1 })
          read_lines rounds buf s''

-- The number of bytes to ask for: two characters for each byte, as far as `localbuf` holds them.
unfoldable pub request : ℕ → ℕ
request max = if ltb 200 (max * 2) then 200 else max * 2

module _ (files : FileCalls) (localbuf info_buf start_text buf : Ptr) where
  -- `ProcessGetFromFile`: the number of bytes, and the address behind them.
  unfoldable pub get_from_file : ℕ → ℤ → ℕ → ℕ → Cmd Machine (ℕ × ℕ)
  get_from_file rounds fd addr max = do
    seekpos ← files.seek fd (pos 0) 1
    n ← files.read fd localbuf (request max)
    if is_neg_ℤ n || eqb_ℤ n (pos 0) then pure (0, addr) else do
      newline ← in_bytes (back_up rounds (localbuf + pos_part n))
      in_bytes (store (newline + 1) 90)
      in_bytes (store (newline + 2) 0)
      s ← in_bytes (read_lines rounds buf (record { lpos = localbuf; nbytes = 0; addr = addr }))
      files.seek fd (pos (pos_part seekpos + s.lpos) -ℤ pos (neg_part seekpos + localbuf)) 0
      pure (s.nbytes, s.addr)

  -- `ProcessGetCodeInfo`, with the start address; the sizes that it also reads are used by nobody.
  unfoldable pub get_code_info : ℕ → Ptr → Cmd Machine (ℤ × ℕ)
  get_code_info rounds file = do
    fd ← files.open_file file 1
    if is_neg_ℤ fd then pure (negsuc 0, 0) else do
      totalsize ← files.read fd info_buf 100
      if not (eqb_ℤ totalsize (pos 100)) then (do files.close fd; pure (negsuc 0, 0)) else do
        found ← in_bytes (dstrstr rounds info_buf start_text)
        if found == null then pure (negsuc 0, 0) else do
          colon ← in_bytes (dindex rounds info_buf 58)
          (start, p1) ← in_bytes (dstrtol rounds (colon + 1) 16)
          (total, p2) ← in_bytes (dstrtol rounds p1 16)
          (code_start, p3) ← in_bytes (dstrtol rounds p2 16)
          (code_size, p4) ← in_bytes (dstrtol rounds p3 16)
          (data_start, p5) ← in_bytes (dstrtol rounds p4 16)
          (data_size, p6) ← in_bytes (dstrtol rounds p5 16)
          newline ← in_bytes (dindex rounds info_buf 10)
          files.seek fd (pos (1 + newline) -ℤ pos info_buf) 0
          pure (fd, to_word start)

  -- What `ProcessFork` calls, with `rounds` for every loop and its own buffer of 128 bytes.
  unfoldable pub file_loader : ℕ → ℕ → Loader
  file_loader rounds max = record {
    get_code_info = get_code_info rounds;
    get_from_file = λ fd addr. get_from_file rounds fd addr max;
    close = files.close;
  }
