-- ===== src/Files/Calls.antt =====
-- The calls of os/filesys.c on a file descriptor, which go to the simulator or to the DLX stubs.
use Prim.Native.Nat.{bit_and}
use lab.Prelude.{ℕ, zero, suc, leb, List, [], ◌∷◌, starts_with, ◌==◌, if◌then◌else◌}
use lab.Prelude.Int.{ℤ, pos, negsuc, is_neg_ℤ}
use lab.Run.{Cmd, ok, pure, ◌>>=◌, ◌>>◌}
use lab.Files.Table.{
  Table, OpenFile, max_open_files, entry, set_entry, fd_valid, free_entry, free_slot, dlx_open,
  dlx_io, dlx_seek, dlx_close,
}

-- The traps of the simulator that the Unix routines use: open, read, write, lseek and close.
pub record Simulator : Type 0 where
  pub open_trap : List ℕ → ℕ → ℤ
  pub read_trap : ℤ → ℤ → ℤ
  pub write_trap : ℤ → ℤ → ℤ
  pub lseek_trap : ℤ → ℤ → ℤ → ℤ
  pub close_trap : ℤ → ℤ

-- "dlx:", the prefix of a file in the DLX file system
abbrev pub dlx_prefix : List ℕ
dlx_prefix = 100 ∷ 108 ∷ 120 ∷ 58 ∷ []

-- FS_MODE_RW
abbrev pub mode_rw : ℕ
mode_rw = 3

-- Which file system an entry stands for: `fs[0]` is Unix, `fs[1]` is DLX.
unfoldable pub on_fs : {A : Type 0} → ℕ → A → A → A
on_fs zero unix dlx = unix
on_fs (suc n) unix dlx = dlx

module _ (sim : Simulator) where
  -- `FsUnixOpen`
  unfoldable pub unix_open : ℕ → List ℕ → ℕ → Cmd Table ℤ
  unfolding set_entry
  unix_open x name mode = do
    set_entry x (λ e. record e { unix_fd = sim.open_trap name mode })
    e ← entry x
    if is_neg_ℤ e.unix_fd then pure e.unix_fd else pure (pos 1)

  -- `FsOpen`. A name is the list of its characters; the DLX file system does not look at the rest
  -- of a name that starts with "dlx:".
  unfoldable pub fs_open : List ℕ → ℕ → Cmd Table ℤ
  fs_open name mode t =
      let mode' = bit_and mode mode_rw in
      let i = free_slot max_open_files 0 t in
      if mode' == 0
      then ok (negsuc 0) t
      else if leb max_open_files i
      then ok (negsuc 0) t
      else (do
        set_entry i (λ e. record e { flags = mode' })
        set_entry i (λ e. record e { fs = if starts_with dlx_prefix name then 1 else 0 })
        e ← entry i
        v ← on_fs e.fs (unix_open i name mode') (dlx_open i)
        if is_neg_ℤ v then free_entry i >> pure v else pure (pos i))
          t

  -- A call on a descriptor, refused where the descriptor is not valid.
  unfoldable pub on_fd : ℤ → (ℕ → OpenFile → Cmd Table ℤ) → Cmd Table ℤ
  on_fd (negsuc fd) call t = ok (negsuc 0) t
  on_fd (pos fd) call t = if fd_valid (pos fd) t then call fd (t fd) t else ok (negsuc 0) t

  -- `FsClose`, with `FsUnixClose`
  unfoldable pub fs_close : ℤ → Cmd Table ℤ
  unfolding on_fd
  fs_close fd =
      on_fd fd λ x e. do
        v ← on_fs e.fs (pure (sim.close_trap e.unix_fd)) (dlx_close x)
        free_entry x
        pure v

  -- `FsRead`, with `FsUnixRead`, for `n` bytes
  unfoldable pub fs_read : ℤ → ℤ → Cmd Table ℤ
  unfolding on_fd
  fs_read fd n = on_fd fd λ x e. on_fs e.fs (pure (sim.read_trap e.unix_fd n)) (dlx_io x)

  -- `FsWrite`, with `FsUnixWrite`
  unfoldable pub fs_write : ℤ → ℤ → Cmd Table ℤ
  unfolding on_fd
  fs_write fd n = on_fd fd λ x e. on_fs e.fs (pure (sim.write_trap e.unix_fd n)) (dlx_io x)

  -- `FsSeek`, with `FsUnixSeek`
  unfoldable pub fs_seek : ℤ → ℤ → ℤ → Cmd Table ℤ
  unfolding on_fd
  fs_seek fd offset whence =
      on_fd fd λ x e. on_fs e.fs (pure (sim.lseek_trap e.unix_fd offset whence)) (dlx_seek x)

-- `FsDelete`, with `FsUnixDelete`, which refuses, and `FsDlxDelete`
unfoldable pub fs_delete : List ℕ → ℤ
fs_delete name = if starts_with dlx_prefix name then pos 1 else negsuc 0
