-- ===== src/Files/Table.antt =====
-- The table of open files of os/filesys.c, and the routines of the DLX file system, which are stubs.
use lab.Prelude.{ℕ, zero, suc, ◌+◌, Bool, false, not, ◌&&◌, ltb, ◌==◌, if◌then◌else◌}
use lab.Prelude.Int.{ℤ, pos, negsuc}
use lab.Run.{Cmd, ok, pure, ◌>>=◌, ◌>>◌}
use lab.Queue.Store.{update}

-- FS_MAX_OPEN_FILES
abbrev pub max_open_files : ℕ
max_open_files = 32

-- `FsOpenFile`, without the buffer that nothing uses; of the union only the Unix descriptor and the
-- DLX position are kept, apart.
pub record OpenFile : Type 0 where
  pub fs : ℕ
  pub flags : ℕ
  pub unix_fd : ℤ
  pub curpos : ℤ

-- `openfiles`
abbrev pub Table : Type 0
Table = ℕ → OpenFile

unfoldable pub entry : ℕ → Cmd Table OpenFile
entry i t = ok (t i) t

unfoldable pub set_entry : ℕ → (OpenFile → OpenFile) → Cmd Table (Unit {0})
set_entry i f t = ok tt (update t i (f (t i)))

-- `FdValid`
unfoldable pub fd_valid : ℤ → Table → Bool
fd_valid (pos fd) t = ltb 0 fd && ltb fd max_open_files && not ((t fd).flags == 0)
fd_valid (negsuc fd) t = false

-- `FsFreeEntry`
unfoldable pub free_entry : ℕ → Cmd Table (Unit {0})
unfolding set_entry
free_entry i = set_entry i (λ e. record e { flags = 0 })

-- The search of `FsOpen` from slot `i` on; the slot past the table if none is free.
unfoldable pub free_slot : ℕ → ℕ → Table → ℕ
free_slot zero i t = i
free_slot (suc rounds) i t = if (t i).flags == 0 then i else free_slot rounds (i + 1) t

-- `FsDlxOpen`
unfoldable pub dlx_open : ℕ → Cmd Table ℤ
dlx_open f = do set_entry f (λ e. record e { curpos = pos 0 }); pure (pos 1)

-- `FsDlxIo`, and so `FsDlxRead` and `FsDlxWrite`
unfoldable pub dlx_io : ℕ → Cmd Table ℤ
dlx_io f = pure (pos 1)

-- `FsDlxSeek`, all of whose cases fall through
unfoldable pub dlx_seek : ℕ → Cmd Table ℤ
dlx_seek f = do e ← entry f; pure e.curpos

-- `FsDlxClose`
unfoldable pub dlx_close : ℕ → Cmd Table ℤ
dlx_close f = pure (pos 1)

-- The loop of `FsModuleInit`.
unfoldable pub clear_entries : ℕ → ℕ → Cmd Table (Unit {0})
clear_entries zero i = pure tt
clear_entries (suc rounds) i = do
  set_entry i (λ e. record e { flags = 0 })
  clear_entries rounds (i + 1)

-- `FsModuleInit`; the two tables of function pointers are the branches of the module Calls.
unfoldable pub init_files : Cmd Table (Unit {0})
init_files = clear_entries max_open_files 0
