-- ===== src/Startup/LoadingExamples.antt =====
-- The law of ProcessGetFromFile at a read that brings one line of two bytes and the start of another line.
use lab.Prelude.{◌≡◌, refl, inl, [], ◌∷◌, arith, ◌==◌, if◌then◌else◌}
use lab.Prelude.Int.{pos}
use lab.Run.{ok, pure, and_then}
use lab.Text.Strings.{Bytes, load}
use lab.Text.Numbers.{dstrtol, skip_space, isspace, read_prefix, read_digits, digit_value}
use lab.Startup.Loading.{FileCalls, get_from_file, read_address}
use lab.Startup.LoadingLaws.{Loaded, hex_digit}
use lab.Startup.ChunkLaws.{marked, get_from_file-file_text}
use lab.Traps.Examples.{machine}

-- ":01ff", a newline and ":2", from the address 1000 on.
abbrev page : Bytes
page p =
    if p == 1000
    then 58
    else if p == 1001
    then 48
    else if p == 1002
    then 49
    else if p == 1003
    then 102
    else if p == 1004
    then 102
    else if p == 1005
    then 10
    else if p == 1006
    then 58
    else if p == 1007
    then 50
    else 0

-- A file whose position is 30.
abbrev files : FileCalls
files = record {
  open_file = λ p mode. pure (pos 3);
  seek = λ fd offset whence. pure (if whence == 1 then pos 30 else offset);
  read = λ fd p n m. ok (pos 8) (record m { bytes = page });
  close = λ fd. pure (pos 0);
}

-- "1a0:", as the address of a line.
address_example :
    read_address 9
      (record { lpos = 5; nbytes = 0; addr = 0 })
      (λ p. if p == 5 then 49 else if p == 6 then 97 else if p == 7 then 48 else 58)
    ≡ ok
        (record { lpos = 8; nbytes = 0; addr = 0x1a0 })
        (λ p. if p == 5 then 49 else if p == 6 then 97 else if p == 7 then 48 else 58)
unfolding read_address dstrtol load skip_space isspace read_prefix read_digits digit_value
address_example = refl

get_from_file-file_text_example :
    (t : Bytes) × Loaded (marked page 1006) 400 (1 ∷ 255 ∷ []) t
    × (get_from_file files 1000 2000 3000 400 50 (pos 3) 64 100 (machine (λ p. 0))
        ≡ and_then
            (files.seek (pos 3) (pos 36) 0 (record (machine page) { bytes = t }))
            (λ _. pure (2, 66)))
unfolding hex_digit
get_from_file-file_text_example =
    get_from_file-file_text files 1000 2000 3000 400 (machine (λ p. 0)) (machine page) (pos 3) 30 2
      64 100 50 (1 ∷ 255 ∷ []) [] refl refl (refl, (refl, (refl, (refl, (refl, (refl, tt))))))
      (λ i h. ground arith) ((omega arith, (omega arith, tt)), tt) (inl (omega arith)) (omega arith)
      (omega arith) (omega arith)
