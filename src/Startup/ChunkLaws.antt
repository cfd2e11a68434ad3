-- ===== src/Startup/ChunkLaws.antt =====
-- ProcessGetFromFile of os/process.c on the characters that one read of the file brings.
use lab.Prelude.{
  ℕ, zero, suc, ◌+◌, ◌-◌, ◌*◌, ◌^◌, ◌%◌, ◌≡◌, ◌≢◌, ◌<◌, inr, refl, subst, ap, ◌∙◌, List, [], ◌∷◌,
  ◌++◌, arith, length, length-append, ==_ne, false,
}
use lab.Prelude.Int.{ℤ, pos, ◌-ℤ◌, eqb_ℤ}
use lab.Run.{Returns-run, ok, pure, and_then}
use lab.Queue.Store.{Ptr, update}
use lab.Text.Strings.{Bytes, load, store}
use lab.Machine.{Machine}
use lab.Startup.Loading.{Cursor, FileCalls, back_up, read_lines, request, get_from_file}
use lab.Startup.LoadingLaws.{spelled, HasText, HasText-update, Apart, Loaded}
use lab.Startup.ListingLaws.{
  listing, joined, AllLines, HasText-split, HasText-join, length-spelled, read_lines-listing,
}

-- The lines of a file, as they stand there.
abbrev pub file_text : List (List ℕ) → List ℕ
file_text [] = []
file_text (bs ∷ lines) = 58 ∷ (spelled bs ++ file_text lines)

back_up-newline :
    (m : Bytes) (p k rounds : ℕ)
    → m p ≡ 10
    → ((i : ℕ) → i < k → m (p + 1 + i) ≢ 10)
    → k < rounds
    → back_up rounds (p + 1 + k) m ≡ ok p m
unfolding back_up load
back_up-newline m p k zero newline none enough = absurd (omega (arith, enough))
back_up-newline m p zero (suc rounds) newline none enough =
    let e : p + 1 + 0 - 1 ≡ p = omega arith in simp (e, newline) refl
back_up-newline m p (suc k) (suc rounds) newline none enough =
    let e : p + 1 + suc k - 1 ≡ p + 1 + k = omega arith in
    simp (e, ==_ne (m (p + 1 + k)) 10 (none k (omega arith)))
      (back_up-newline m p k rounds newline (λ i h. none i (omega (arith, h)))
        (omega (arith, enough)))

spelled-newline :
    (m : Bytes) (p : Ptr) (bs : List ℕ) → HasText m p (spelled bs) → m (p + 2 * length bs) ≡ 10
spelled-newline m p [] (here, _) = subst (λ (x : ℕ). m x ≡ 10) (omega arith) here
spelled-newline m p (b ∷ bs) (_, (_, rest)) =
    subst (λ (x : ℕ). m x ≡ 10) (omega arith) (spelled-newline m (p + 1 + 1) bs rest)

-- The last character of the lines is a newline.
file_text-newline :
    (m : Bytes) (p k : ℕ) (bs : List ℕ) (lines : List (List ℕ))
    → HasText m p (file_text (bs ∷ lines))
    → length (file_text (bs ∷ lines)) ≡ suc k
    → m (p + k) ≡ 10
file_text-newline m p k bs [] (_, rest) size =
    let (line, _) = HasText-split m (p + 1) (spelled bs) [] rest in
    subst (λ (x : ℕ). m x ≡ 10)
      (omega (arith, size, length-append (spelled bs) [], length-spelled bs))
      (spelled-newline m (p + 1) bs line)
file_text-newline m p k bs (cs ∷ lines) (_, rest) size =
    let (_, others) = HasText-split m (p + 1) (spelled bs) (file_text (cs ∷ lines)) rest in
    let sizes = length-append (spelled bs) (file_text (cs ∷ lines)) in
    subst (λ (x : ℕ). m x ≡ 10) (omega (arith, size, sizes))
      (file_text-newline m (p + 1 + length (spelled bs)) (k - 1 - length (spelled bs)) cs lines
        others (omega (arith, size, sizes)))

HasText-listing :
    (m : Bytes) (p : Ptr) (lines : List (List ℕ))
    → HasText m p (file_text lines)
    → m (p + length (file_text lines)) ≡ 90
    → m (p + length (file_text lines) + 1) ≡ 0
    → HasText m p (listing lines)
HasText-listing m p [] text mark nul = (
  subst (λ (x : ℕ). m x ≡ 90) (omega arith) mark,
  (subst (λ (x : ℕ). m x ≡ 0) (omega arith) nul, tt),
)
HasText-listing m p (bs ∷ lines) (here, rest) mark nul =
    let (line, others) = HasText-split m (p + 1) (spelled bs) (file_text lines) rest in
    let sizes = length-append (spelled bs) (file_text lines) in
    (
      here,
      HasText-join m (p + 1) (spelled bs) (listing lines) line (
          HasText-listing m (p + 1 + length (spelled bs)) lines others
            (subst (λ (x : ℕ). m x ≡ 90) (omega (arith, sizes)) mark)
            (subst (λ (x : ℕ). m x ≡ 0) (omega (arith, sizes)) nul)),
    )

length-listing : (lines : List (List ℕ)) → length (listing lines) ≡ length (file_text lines) + 2
length-listing [] = omega arith
length-listing (bs ∷ lines) = omega (
  arith,
  length-listing lines,
  length-append (spelled bs) (listing lines),
  length-append (spelled bs) (file_text lines),
)

-- The memory with the marks behind the lines that end at `p`.
abbrev pub marked : Bytes → Ptr → Bytes
marked m p = update (update m p 90) (p + 1) 0

marked-listing :
    (m : Bytes) (p : Ptr) (lines : List (List ℕ))
    → HasText m p (file_text lines)
    → HasText (marked m (p + length (file_text lines))) p (listing lines)
unfolding update
marked-listing m p lines text =
    let n = length (file_text lines) in
    HasText-listing (marked m (p + n)) p lines
      (HasText-update (update m (p + n) 90) p (p + n + 1) 0 (file_text lines)
        (HasText-update m p (p + n) 90 (file_text lines) text (inr (omega arith)))
        (inr (omega arith)))
      (ground arith) (ground arith)

module _ (files : FileCalls) (localbuf info_buf start_text buf : Ptr) where
  -- `get_from_file` up to its second call of `seek`.
  get_from_file-steps :
      (m j : Machine) (fd : ℤ) (here k tail addr max rounds : ℕ) (r : Cursor) (t : Bytes)
      → files.seek fd (pos 0) 1 m ≡ ok (pos here) m
      → files.read fd localbuf (request max) m ≡ ok (pos (suc k + tail)) j
      → back_up rounds (localbuf + (suc k + tail)) j.bytes ≡ ok (localbuf + k) j.bytes
      → read_lines rounds buf
          (record { lpos = localbuf; nbytes = 0; addr = addr })
          (marked j.bytes (localbuf + suc k))
        ≡ ok r t
      → r.lpos ≡ localbuf + suc k
      → get_from_file files localbuf info_buf start_text buf rounds fd addr max m
        ≡ and_then
            (files.seek fd (pos (here + suc k)) 0 (record j { bytes = t }))
            (λ _. pure (r.nbytes, r.addr))
  unfolding get_from_file store
  get_from_file-steps m j fd here k tail addr max rounds r t asks reads back eq place =
      let some_read : eqb_ℤ (pos (suc k + tail)) (pos 0) ≡ false = ground arith in
      let first_mark : localbuf + k + 1 ≡ localbuf + suc k = omega arith in
      let second_mark : localbuf + k + 2 ≡ localbuf + suc k + 1 = omega arith in
      let offset : pos (here + r.lpos) -ℤ pos (0 + localbuf) ≡ pos (here + suc k) =
        ground (arith, place) in
      simp (asks, reads, some_read, back, first_mark, second_mark, eq, offset) refl

  -- Where one read of the file brings some lines and the beginning of another one, and each of these lines
  -- is a colon, bytes of two hexadecimal digits each and a newline, without an address, a blank or an
  -- upper-case letter, `ProcessGetFromFile` stores the bytes of the lines in its buffer, returns their
  -- number and the address behind them, and seeks to the beginning of the other line. The read has to
  -- bring a line at least, the buffers lie apart, and the rounds are more than the characters by two.
  pub get_from_file-file_text :
      (m j : Machine) (fd : ℤ) (here tail addr max rounds : ℕ) (bs : List ℕ) (lines : List (List ℕ))
      → files.seek fd (pos 0) 1 m ≡ ok (pos here) m
      → files.read fd localbuf (request max) m ≡ ok (pos (length (file_text (bs ∷ lines)) + tail)) j
      → HasText j.bytes localbuf (file_text (bs ∷ lines))
      → ((i : ℕ) → i < tail → j.bytes (localbuf + length (file_text (bs ∷ lines)) + i) ≢ 10)
      → AllLines (bs ∷ lines)
      → Apart buf (length (joined (bs ∷ lines))) localbuf (length (file_text (bs ∷ lines)) + 2)
      → 0 < localbuf
      → addr < 2 ^ 32
      → length (file_text (bs ∷ lines)) + tail + 2 < rounds
      → (t : Bytes) × Loaded
          (marked j.bytes (localbuf + length (file_text (bs ∷ lines))))
          buf
          (joined (bs ∷ lines))
          t
        × (get_from_file files localbuf info_buf start_text buf rounds fd addr max m
            ≡ and_then
                (files.seek fd
                  (pos (here + length (file_text (bs ∷ lines))))
                  0
                  (record j { bytes = t }))
                (λ _.
                  pure
                    (length (joined (bs ∷ lines)), (addr + length (joined (bs ∷ lines))) % 2 ^ 32)))
  get_from_file-file_text m j fd here tail addr max rounds bs lines asks reads text none all apart
        placed word enough =
      let k = length (spelled bs ++ file_text lines) in
      let n = length (file_text (bs ∷ lines)) in
      let size = length-listing (bs ∷ lines) in
      let newline = file_text-newline j.bytes localbuf k bs lines text refl in
      let back : back_up rounds (localbuf + (n + tail)) j.bytes ≡ ok (localbuf + k) j.bytes =
        subst (λ (x : ℕ). back_up rounds x j.bytes ≡ ok (localbuf + k) j.bytes) (omega arith)
          (back_up-newline j.bytes (localbuf + k) tail rounds newline
            (λ i h. subst (λ (x : ℕ). j.bytes (x + i) ≢ 10) (omega arith) (none i h))
            (omega (arith, enough))) in
      let (r, t, all_read, eq) = Returns-run (
        read_lines-listing buf (marked j.bytes (localbuf + n))
          (record { lpos = localbuf; nbytes = 0; addr = addr }) (bs ∷ lines) rounds all
          (marked-listing j.bytes localbuf (bs ∷ lines) text) (ground (arith, apart, size)) word
          placed (omega (arith, size, enough))) in
      let place : r.lpos ≡ localbuf + n = omega (arith, all_read.lpos, size) in
      let count : r.nbytes ≡ length (joined (bs ∷ lines)) = omega (arith, all_read.nbytes) in
      let behind : r.addr ≡ (addr + length (joined (bs ∷ lines))) % 2 ^ 32 = all_read.addr in
      (
        t,
        subst (λ (x : ℕ). Loaded (marked j.bytes (localbuf + n)) x (joined (bs ∷ lines)) t)
            (omega arith) all_read.loaded,
        get_from_file-steps m j fd here k tail addr max rounds r t asks reads back eq place
            ∙ ap
                (λ (w : ℕ × ℕ).
                  and_then (files.seek fd (pos (here + n)) 0 (record j { bytes = t }))
                    (λ _. pure w))
                (λ i. (count i, behind i)),
      )
