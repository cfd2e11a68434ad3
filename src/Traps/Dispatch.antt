-- ===== src/Traps/Dispatch.antt =====
-- dointerrupt of os/traps.c: which routine serves a trap or an interrupt, and what the process gets
-- back. intrreturn(), in the assembly file dlxos.s, then goes on with the current process.
use Prim.Native.Nat.{bit_and}
use lab.Prelude.{
  ℕ, zero, suc, ◌+◌, ◌^◌, ◌%◌, Bool, true, false, not, ltb, Option, none, some, ◌==◌, if◌then◌else◌,
}
use lab.Prelude.Int.{ℤ, pos, negsuc}
use lab.Run.{Cmd, ok, pure, exitsim, out_of_fuel, ◌>>=◌, ◌>>◌}
use lab.Queue.Store.{Ptr}
use lab.Kernel.{Kernel, current_pid, set_intrs, restore_intrs}
use lab.Process.Transitions.{suspend, destroy, set_result}
use lab.Process.Schedule.{schedule}
use lab.Synch.Handles.{Outcome, returned, asleep, current_pcb, sync_success}
use lab.Synch.Semaphore.{sem_create, sem_handle_wait, sem_handle_signal}
use lab.Synch.Mutex.{lock_create, lock_handle_acquire, lock_handle_release}
use lab.Synch.Condition.{cond_create, cond_handle_wait, cond_handle_signal}
use lab.Text.Strings.{store}
use lab.Machine.{Machine, Platform, Layout, in_kernel, in_bytes}
use lab.Startup.Fork.{Loader}
use lab.Traps.Arguments.{
  from_process, read_word, get_uint, get_int, process_create_trap, printf_trap,
}

-- The cases of the switch over the traps; `TRAP_USER_EXIT` and `TRAP_EXIT` are one.
pub data Trap : Type 0 where
  context_switch exit_process process_fork process_sleep_trap print open_file close_file read_file
        write_file delete_file seek_file getpid process_create share_create share_map :
      Trap
  sem_create_trap sem_wait_trap sem_signal_trap lock_create_trap lock_acquire_trap lock_release_trap
        cond_create_trap cond_wait_trap cond_signal_trap :
      Trap

-- The numbers in include/os/traps.h.
unfoldable pub trap_of : ℕ → Option Trap
trap_of cause =
    if cause == 0x400
    then some context_switch
    else if cause == 0x500
    then some exit_process
    else if cause == 0x300
    then some exit_process
    else if cause == 0x430
    then some process_fork
    else if cause == 0x410
    then some process_sleep_trap
    else if cause == 0x201
    then some print
    else if cause == 0x213
    then some open_file
    else if cause == 0x214
    then some close_file
    else if cause == 0x210
    then some read_file
    else if cause == 0x211
    then some write_file
    else if cause == 0x580
    then some delete_file
    else if cause == 0x212
    then some seek_file
    else if cause == 0x431
    then some getpid
    else if cause == 0x432
    then some process_create
    else if cause == 0x440
    then some share_create
    else if cause == 0x441
    then some share_map
    else if cause == 0x450
    then some sem_create_trap
    else if cause == 0x451
    then some sem_wait_trap
    else if cause == 0x452
    then some sem_signal_trap
    else if cause == 0x453
    then some lock_create_trap
    else if cause == 0x454
    then some lock_acquire_trap
    else if cause == 0x455
    then some lock_release_trap
    else if cause == 0x456
    then some cond_create_trap
    else if cause == 0x457
    then some cond_wait_trap
    else if cause == 0x458
    then some cond_signal_trap
    else none

-- How `dointerrupt` ends: it returns, or the process lies in ProcessSleep() inside the handler, with
-- the interrupt level that it is to restore.
pub data Ending : Type 0 where
  done : Ending
  blocked : ℕ → Ending

-- `ProcessSetResult (currentPCB, v)`
unfoldable pub answer : ℤ → Cmd Kernel Ending
answer v = do p ← current_pcb; set_result p v; pure done

-- The result of a routine that may sleep.
unfoldable pub answer_outcome : Outcome → Cmd Kernel Ending
answer_outcome (returned v) = answer v
answer_outcome (asleep level) = pure (blocked level)

-- What is left of the handler when a process wakes up in it.
unfoldable pub resume_trap : Ending → Cmd Kernel Ending
resume_trap done = pure done
resume_trap (blocked level) = do restore_intrs level; answer sync_success

-- `EnableIntrs`
unfoldable pub enable_intrs : Cmd Kernel ℕ
enable_intrs = set_intrs 0

-- The traps of the file system, which are not there yet: a result with the interrupts enabled.
unfoldable pub file_answer : ℤ → Cmd Kernel Ending
file_answer v = do level ← enable_intrs; e ← answer v; restore_intrs level; pure e

module _ (platform : Platform) (layout : Layout) (loader : Loader) (rounds : ℕ) where
  -- The traps on semaphores, locks and conditions, for a handle or a number that has been read.
  unfoldable pub synch_trap : Trap → ℤ → Cmd Kernel Ending
  synch_trap sem_create_trap h = sem_create h >>= answer
  synch_trap sem_wait_trap h = sem_handle_wait platform.free_shared_pte h >>= answer_outcome
  synch_trap sem_signal_trap h = sem_handle_signal h >>= answer
  synch_trap lock_acquire_trap h = lock_handle_acquire platform.free_shared_pte h >>= answer_outcome
  synch_trap lock_release_trap h = lock_handle_release h >>= answer
  synch_trap cond_create_trap h = cond_create h >>= answer
  synch_trap cond_wait_trap h = cond_handle_wait platform.free_shared_pte h >>= answer_outcome
  synch_trap cond_signal_trap h = cond_handle_signal platform.free_shared_pte h >>= answer_outcome
  synch_trap _ h = pure done

  -- The second argument of an open, which the process gets back; nothing uses the file's name.
  unfoldable pub open_mode : Ptr → Bool → Cmd Machine ℕ
  open_mode trap_args sysmode = if sysmode then read_word platform layout (trap_args + 4) else (do
    from_process trap_args layout.args 8
    a ← read_word platform layout layout.args
    from_process a layout.name 31
    in_bytes (store (layout.name + 31) 0)
    read_word platform layout (layout.args + 4))

  -- The traps that change the processes.
  unfoldable pub process_trap : Trap → Cmd Kernel Ending
  process_trap context_switch = schedule platform.free_shared_pte false >> pure done
  process_trap exit_process = do
    p ← current_pcb
    destroy p
    schedule platform.free_shared_pte false
    pure done
  process_trap process_sleep_trap = do
    p ← current_pcb
    suspend p
    schedule platform.free_shared_pte true
    pure done
  process_trap getpid = current_pid >>= answer
  process_trap lock_create_trap = lock_create >>= answer
  process_trap share_create = do p ← current_pcb; h ← platform.create_shared_page p; answer (pos h)
  process_trap _ = pure done

  -- The switch over the traps.
  unfoldable pub serve : Trap → Ptr → Bool → Cmd Machine Ending
  serve print trap_args sysmode = printf_trap platform layout rounds trap_args sysmode >> pure done
  serve open_file trap_args sysmode = do
    mode ← open_mode trap_args sysmode
    in_kernel (file_answer (pos ((mode + 0x10000) % 2 ^ 32)))
  serve close_file trap_args sysmode = in_kernel (file_answer (negsuc 0))
  serve read_file trap_args sysmode = in_kernel (file_answer (negsuc 0))
  serve write_file trap_args sysmode = in_kernel (file_answer (negsuc 0))
  serve delete_file trap_args sysmode = in_kernel (file_answer (negsuc 0))
  serve seek_file trap_args sysmode = in_kernel (file_answer (negsuc 0))
  serve process_create trap_args sysmode =
      process_create_trap platform layout loader rounds trap_args sysmode >> pure done
  serve share_map trap_args sysmode = do
    h ← get_uint platform layout trap_args sysmode
    in_kernel (do p ← current_pcb; page ← platform.mmap p h; answer (pos page))
  serve context_switch trap_args sysmode = in_kernel (process_trap context_switch)
  serve exit_process trap_args sysmode = in_kernel (process_trap exit_process)
  serve process_fork trap_args sysmode = in_kernel (process_trap process_fork)
  serve process_sleep_trap trap_args sysmode = in_kernel (process_trap process_sleep_trap)
  serve getpid trap_args sysmode = in_kernel (process_trap getpid)
  serve share_create trap_args sysmode = in_kernel (process_trap share_create)
  serve lock_create_trap trap_args sysmode = in_kernel (process_trap lock_create_trap)
  serve trap trap_args sysmode = do
    h ← get_int platform layout trap_args sysmode
    in_kernel (synch_trap trap h)

  -- The loop of the keyboard interrupt.
  unfoldable pub drain_keyboard : ℕ → Cmd Machine (Unit {0})
  drain_keyboard zero m = out_of_fuel
  drain_keyboard (suc left) m =
      let rest = drain_keyboard left (record m { kbd_reads = m.kbd_reads + 1 }) in
      if ltb 1 (platform.chars_in m.kbd_reads)
      then rest
      else ok tt (record m { kbd_reads = m.kbd_reads + 1 })

  -- The switch over the interrupts: the timer, the keyboard, and those that stop the simulator.
  unfoldable pub interrupt : ℕ → Cmd Machine Ending
  interrupt cause =
      if cause == 0x40
      then in_kernel (schedule platform.free_shared_pte false) >> pure done
      else if cause == 0x48
      then drain_keyboard rounds >> pure done
      else exitsim

  -- `dointerrupt`
  unfoldable pub dointerrupt : ℕ → ℕ → Ptr → Cmd Machine Ending
  dointerrupt cause isr trap_args =
      if bit_and cause 0x800_0000 == 0
      then interrupt cause
      else elim (trap_of (bit_and cause 0xf7ff_ffff)) [
        | none ↦ exitsim
        | some trap ↦ serve trap trap_args (not (bit_and isr 0x40 == 0))
      ]

-- `KbdModuleInit`
unfoldable pub kbd_init : Cmd Machine (Unit {0})
kbd_init m = ok tt (record m { kbd_intr = 1 })
