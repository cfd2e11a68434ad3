-- ===== src/Files/Examples.antt =====
-- The laws of os/filesys.c at a concrete table.
use lab.Prelude.{ℕ, ◌≡◌, ◌≢◌, refl, [], ◌∷◌, arith, ◌==◌, if◌then◌else◌}
use lab.Prelude.Int.{pos, negsuc}
use lab.Run.{Returns, ok}
use lab.Files.Table.{Table}
use lab.Files.Calls.{Simulator, fs_open, fs_close}
use lab.Files.TableLaws.{fs_open-opened, fs_open-zero}

-- A simulator in which the file "a" exists, and no other.
abbrev one_file : Simulator
one_file = record {
  open_trap =
      λ name mode. elim name [ [] ↦ negsuc 0 | c ∷ cs ↦ if c == 97 then pos 5 else negsuc 0 ];
  read_trap = λ fd n. n;
  write_trap = λ fd n. n;
  lseek_trap = λ fd offset whence. offset;
  close_trap = λ fd. pos 0;
}

-- Slot 0 has the flags `n`; the others are free.
abbrev with_flags : ℕ → Table
with_flags n i = record { fs = 0; flags = if i == 0 then n else 0; unix_fd = pos 3; curpos = pos 0 }

fs_open-opened_example :
    Returns
      (λ r t.
        (r ≡ pos 1)
        × ((t 1).flags ≡ 1)
        × ((t 1).fs ≡ 0)
        × ((t 1).unix_fd ≡ pos 5)
        × ((j : ℕ) → j ≢ 1 → t j ≡ with_flags 1 j))
      (fs_open one_file (97 ∷ []) 1 (with_flags 1))
fs_open-opened_example =
    fs_open-opened one_file (with_flags 1) (97 ∷ []) 1 1 5 (omega arith) refl (omega arith) refl
      (λ j lt. ground (arith, lt)) refl

fs_open-zero_example :
    Returns
      (λ r t. (r ≡ pos 0) × (fs_close one_file r t ≡ ok (negsuc 0) t) × ((t 0).flags ≢ 0))
      (fs_open one_file (97 ∷ []) 1 (with_flags 0))
fs_open-zero_example =
    fs_open-zero one_file (with_flags 0) (97 ∷ []) 1 5 (omega arith) refl refl refl
