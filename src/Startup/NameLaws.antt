-- ===== src/Startup/NameLaws.antt =====
-- The name of a new process, in ProcessFork of os/process.c.
use lab.Prelude.{ℕ, ◌<◌, ◌≡◌, List, true, ltb, length, arith}
use lab.Run.{Returns}
use lab.Text.Strings.{Bytes}
use lab.Text.StringLaws.{HasString, dstrlen-length}
use lab.Text.CopyLaws.{Apart, IsOutside, dstrcpy-HasString}
use lab.Startup.Fork.{name_size, copy_name}

-- A name that fits its array is copied, and no other byte is written.
pub copy_name-HasString :
    (m : Bytes) (to from rounds : ℕ) (cs : List ℕ)
    → HasString m from cs
    → length cs < rounds
    → length cs < name_size
    → Apart to from (length cs)
    → Returns
        (λ r t. (r ≡ to) × HasString t to cs × ((a : ℕ) → IsOutside to (length cs) a → t a ≡ m a))
        (copy_name rounds to from m)
unfolding copy_name
copy_name-HasString m to from rounds cs str enough short apart =
    let fits : ltb (length cs) name_size ≡ true = ground (arith, short) in
    simp (dstrlen-length m from rounds cs str enough, fits)
      (dstrcpy-HasString m to from rounds cs str enough apart)
