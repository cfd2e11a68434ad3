-- ===== src/Process/Status.antt =====
-- The status bits of a process: ProcessSetStatus of os/process.c.
use Prim.Native.Nat.{bit_and, bit_or, bit_xor}
use lab.Prelude.{ℕ}
use lab.Run.{Cmd}
use lab.Queue.Store.{Ptr}
use lab.Kernel.{Kernel, write_pcb}

-- PROCESS_STATUS_FREE to PROCESS_STATUS_ZOMBIE, and the mask over them.
abbrev pub status_free : ℕ
status_free = 0x1

abbrev pub status_runnable : ℕ
status_runnable = 0x2

abbrev pub status_waiting : ℕ
status_waiting = 0x4

abbrev pub status_starting : ℕ
status_starting = 0x8

abbrev pub status_zombie : ℕ
status_zombie = 0x10

abbrev pub status_mask : ℕ
status_mask = 0x3f

abbrev pub type_system : ℕ
type_system = 0x100

abbrev pub type_user : ℕ
type_user = 0x200

-- The two assignments of `ProcessSetStatus`; `~` inverts the 32 bits.
unfoldable pub with_status : ℕ → ℕ → ℕ
with_status flags status = bit_or (bit_and flags (bit_xor status_mask 0xffff_ffff)) status

-- `ProcessSetStatus`
unfoldable pub set_status : Ptr → ℕ → Cmd Kernel (Unit {0})
unfolding write_pcb
set_status p status = write_pcb p (λ r. record r { flags = with_status r.flags status })
