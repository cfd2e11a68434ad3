-- ===== src/Files/TableLaws.antt =====
-- FsOpen and FsClose of os/filesys.c on the table of open files.
use Prim.Native.Nat.{bit_and}
use lab.Prelude.{
  ℕ, zero, suc, ◌+◌, ◌≡◌, ◌≢◌, ◌<◌, ◌≤◌, refl, sym, ap, ◌∙◌, subst, false, List, arith, ◌==◌, ==_ne,
  ==_self, ==_iff, Bool-cases, inl, inr, leb, starts_with, if◌then◌else◌,
}
use lab.Prelude.Int.{ℤ, pos, negsuc}
use lab.Run.{Returns, returns, Returns-mono, ok}
use lab.Queue.Store.{update}
use lab.Files.Table.{Table, max_open_files, entry, set_entry, fd_valid, free_entry, free_slot}
use lab.Files.Calls.{
  Simulator, dlx_prefix, mode_rw, on_fs, on_fd, fs_open, unix_open, fs_close, fs_read, fs_write,
  fs_seek,
}

ne_of : (a : ℕ) → (a == 0) ≡ false → a ≢ 0
ne_of a h = ground arith

next_of : (i j : ℕ) → (j == i) ≡ false → i ≤ j → i + 1 ≤ j
next_of i j h le = ground arith

-- The search finds a free slot or ends past the last slot; no slot before it is free.
free_slot-first :
    (rounds i : ℕ) (t : Table)
    → (i ≤ free_slot rounds i t)
      × (free_slot rounds i t ≤ i + rounds)
      × (free_slot rounds i t < i + rounds → (t (free_slot rounds i t)).flags ≡ 0)
      × ((j : ℕ) → i ≤ j → j < free_slot rounds i t → (t j).flags ≢ 0)
unfolding free_slot
free_slot-first zero i t =
    (omega arith, omega arith, (λ h. omega (arith, h)), λ j le lt. omega (arith, le, lt))
free_slot-first (suc rounds) i t = elim (Bool-cases ((t i).flags == 0)) [
  | inl free ↦ rw free (
    omega arith,
    omega arith,
    (λ h. (==_iff (t i).flags 0).0 free),
    λ j le lt. omega (arith, le, lt),
  )
  | inr taken ↦
      let (lo, hi, found, before) = free_slot-first rounds (i + 1) t in
      let after : (j : ℕ) → i ≤ j → j < free_slot rounds (i + 1) t → (t j).flags ≢ 0 = λ j le lt.
        elim (Bool-cases (j == i)) [
          | inl same ↦
              subst (λ (x : ℕ). (t x).flags ≢ 0) (sym ((==_iff j i).0 same))
                (ne_of (t i).flags taken)
          | inr other ↦ before j (next_of i j other le) lt
        ] in
      rw taken (
        omega (arith, lo),
        omega (arith, hi),
        (λ h. found (omega (arith, h))),
        λ j le lt. after j le lt,
      )
]

-- An invalid descriptor is refused by FsClose, FsRead, FsWrite and FsSeek, without a change.
pub invalid-refused :
    (sim : Simulator) (fd n whence : ℤ) (t : Table)
    → fd_valid fd t ≡ false
    → (fs_close sim fd t ≡ ok (negsuc 0) t)
      × (fs_read sim fd n t ≡ ok (negsuc 0) t)
      × (fs_write sim fd n t ≡ ok (negsuc 0) t)
      × (fs_seek sim fd n whence t ≡ ok (negsuc 0) t)
unfolding fs_close fs_read fs_write fs_seek on_fd
invalid-refused sim (negsuc k) n whence t bad = (refl, refl, refl, refl)
invalid-refused sim (pos k) n whence t bad = rw bad (refl, refl, refl, refl)

module _ (sim : Simulator) (t : Table) (name : List ℕ) (mode : ℕ)
    (some_mode : bit_and mode mode_rw ≢ 0) (room : free_slot max_open_files 0 t < max_open_files)
    (is_unix : starts_with dlx_prefix name ≡ false) where
  unfoldable pub slot : ℕ
  slot = free_slot max_open_files 0 t

  fs_open-slot :
      (d : ℕ)
      → sim.open_trap name (bit_and mode mode_rw) ≡ pos d
      → Returns
          (λ r t'.
            (r ≡ pos slot)
            × ((t' slot).flags ≡ bit_and mode mode_rw)
            × ((t' slot).fs ≡ 0)
            × ((t' slot).unix_fd ≡ pos d)
            × ((j : ℕ) → j ≢ slot → t' j ≡ t j))
          (fs_open sim name mode t)
  unfolding fs_open unix_open set_entry entry on_fs update slot
  fs_open-slot d opened =
      let below : leb max_open_files (free_slot max_open_files 0 t) ≡ false =
        ground (arith, room) in
      simp
        (
          ==_ne (bit_and mode mode_rw) 0 some_mode,
          below,
          is_unix,
          opened,
          ==_self (free_slot max_open_files 0 t),
        )
        (let self = ==_self (free_slot max_open_files 0 t) in
          returns (
            refl,
            rw self refl,
            rw self refl,
            rw self refl,
            λ j ne. rw (==_ne j (free_slot max_open_files 0 t) ne) refl,
          ))

  -- `FsOpen` of a Unix file that the simulator cannot open, with a mode and a free slot, returns
  -- the simulator's code and leaves the flags of every slot as they were.
  pub fs_open-failed :
      (e : ℕ)
      → sim.open_trap name (bit_and mode mode_rw) ≡ negsuc e
      → Returns
          (λ r t'. (r ≡ negsuc e) × ((j : ℕ) → (t' j).flags ≡ (t j).flags))
          (fs_open sim name mode t)
  unfolding fs_open unix_open set_entry entry on_fs update slot free_entry
  fs_open-failed e failed =
      let below : leb max_open_files (free_slot max_open_files 0 t) ≡ false =
        ground (arith, room) in
      let free = (free_slot-first max_open_files 0 t).2 room in
      simp
        (
          ==_ne (bit_and mode mode_rw) 0 some_mode,
          below,
          is_unix,
          failed,
          ==_self (free_slot max_open_files 0 t),
        )
        (returns (
          refl,
          λ j. elim (Bool-cases (j == free_slot max_open_files 0 t)) [
            | inl same ↦ rw (same, (==_iff j (free_slot max_open_files 0 t)).0 same) (sym free)
            | inr other ↦ rw other refl
          ],
        ))

-- The search returns a free slot that has no free one before it.
free_slot-at :
    (rounds i s : ℕ) (t : Table)
    → i ≤ s
    → s < i + rounds
    → (t s).flags ≡ 0
    → ((j : ℕ) → i ≤ j → j < s → (t j).flags ≢ 0)
    → free_slot rounds i t ≡ s
unfolding free_slot
free_slot-at zero i s t le lt free before = absurd (omega (arith, le, lt))
free_slot-at (suc rounds) i s t le lt free before = elim (Bool-cases (i == s)) [
  | inl same ↦
      subst (λ (x : ℕ). (if (t x).flags == 0 then x else free_slot rounds (x + 1) t) ≡ s)
        (sym ((==_iff i s).0 same)) (rw free refl)
  | inr other ↦
      let ahead : i < s = ground (arith, other, le) in
      rw (==_ne (t i).flags 0 (before i (omega arith) ahead)) (
        free_slot-at rounds (i + 1) s t (omega (arith, ahead)) (omega (arith, lt)) free
          (λ j le' lt'. before j (omega (arith, le')) lt'))
]

-- `FsOpen` of a Unix file that the simulator opens, with a mode, where slot `s` is free and none before
-- it is, returns `s`; that slot holds the mode, the file system and the simulator's descriptor from then
-- on, and the other slots stay.
pub fs_open-opened :
    (sim : Simulator) (t : Table) (name : List ℕ) (mode s d : ℕ)
    → bit_and mode mode_rw ≢ 0
    → starts_with dlx_prefix name ≡ false
    → s < max_open_files
    → (t s).flags ≡ 0
    → ((j : ℕ) → j < s → (t j).flags ≢ 0)
    → sim.open_trap name (bit_and mode mode_rw) ≡ pos d
    → Returns
        (λ r t'.
          (r ≡ pos s)
          × ((t' s).flags ≡ bit_and mode mode_rw)
          × ((t' s).fs ≡ 0)
          × ((t' s).unix_fd ≡ pos d)
          × ((j : ℕ) → j ≢ s → t' j ≡ t j))
        (fs_open sim name mode t)
unfolding slot
fs_open-opened sim t name mode s d some_mode is_unix inside free before opened =
    let at = free_slot-at max_open_files 0 s t (omega arith) inside free (λ j le lt. before j lt) in
    Returns-mono
      (fs_open-slot sim t name mode some_mode
        (subst (λ (x : ℕ). x < max_open_files) (sym at) inside) is_unix d opened)
      λ r t' post.
        subst
          (λ (x : ℕ).
            (r ≡ pos x)
            × ((t' x).flags ≡ bit_and mode mode_rw)
            × ((t' x).fs ≡ 0)
            × ((t' x).unix_fd ≡ pos d)
            × ((j : ℕ) → j ≢ x → t' j ≡ t j))
          at post

-- Slot 0 is lost to its caller: `FsOpen` of a Unix file returns the descriptor 0 when slot 0 is
-- free, and `FsClose` refuses it, so the slot stays taken.
pub fs_open-zero :
    (sim : Simulator) (t : Table) (name : List ℕ) (mode d : ℕ)
    → bit_and mode mode_rw ≢ 0
    → starts_with dlx_prefix name ≡ false
    → (t 0).flags ≡ 0
    → sim.open_trap name (bit_and mode mode_rw) ≡ pos d
    → Returns
        (λ r t'. (r ≡ pos 0) × (fs_close sim r t' ≡ ok (negsuc 0) t') × ((t' 0).flags ≢ 0))
        (fs_open sim name mode t)
unfolding free_slot fd_valid slot fs_close on_fd
fs_open-zero sim t name mode d some_mode is_unix free opened =
    let first : free_slot max_open_files 0 t ≡ 0 = rw free refl in
    Returns-mono
      (fs_open-slot sim t name mode some_mode
        (subst (λ (x : ℕ). x < max_open_files) (sym first) (omega arith)) is_unix d opened)
      λ r t' (code, flags, kind, fd, others).
        let zero_code : r ≡ pos 0 = code ∙ ap pos first in
        let here = subst (λ (x : ℕ). (t' x).flags ≡ bit_and mode mode_rw) first flags in
        (zero_code, rw zero_code refl, λ z. some_mode (sym here ∙ z))
