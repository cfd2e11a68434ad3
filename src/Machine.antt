-- ===== src/Machine.antt =====
-- The kernel with the memory of bytes, the stack frames of the processes and the keyboard, for
-- os/traps.c and for the creation of processes in os/process.c.
use lab.Prelude.{ℕ}
use lab.Run.{Run, Cmd, ok, fault, halted, out_of_fuel}
use lab.Queue.Store.{Ptr, update}
use lab.Text.Strings.{Bytes}
use lab.Kernel.{Kernel}
use lab.Startup.Arguments.{Scanner}

-- The slots of the stack frame that `ProcessFork` fills: `r29` and `r31` stand for
-- `stackframe[PROCESS_STACK_IREG+29]` and `[PROCESS_STACK_IREG+31]`. `address` is what `sysStackPtr`
-- and `currentSavedFrame` point to.
pub record Frame : Type 0 where
  pub address : ℕ
  pub prev_frame : ℕ
  pub ptbase : ℕ
  pub ptsize : ℕ
  pub ptbits : ℕ
  pub r29 : ℕ
  pub r31 : ℕ
  pub iar : ℕ
  pub isr : ℕ

-- `str` and `location` are the static variables of `get_argument`; `kbd_reads` counts the reads of the
-- keyboard's character register, and `kbd_intr` is its interrupt register.
pub record Machine : Type 0 where
  pub kernel : Kernel
  pub bytes : Bytes
  pub frames : Ptr → Frame
  pub str : Ptr
  pub location : ℕ
  pub kbd_intr : ℕ
  pub kbd_reads : ℕ

-- What comes with the processor and with lib/share_memory.o: loads and stores of words, the
-- routines for shared pages, and the keyboard's count of characters after a number of reads.
pub record Platform : Type 0 where
  pub load_word : Bytes → Ptr → ℕ
  pub store_word : Ptr → ℕ → Bytes → Bytes
  pub free_shared_pte : Ptr → ℕ → Cmd Kernel (Unit {0})
  pub create_shared_page : Ptr → Cmd Kernel ℕ
  pub mmap : Ptr → ℕ → Cmd Kernel ℕ
  pub chars_in : ℕ → ℕ

-- Where the compiler has put the local variables of the routines of os/traps.c and of `ProcessFork`, the
-- name and the page table of a PCB, and the code of `ProcessExit`. A name that several routines of
-- os/traps.c declare is one field, as no two of them use it at a time; `name` is also the `filename`
-- of an open.
pub record Layout : Type 0 where
  pub arg : Ptr
  pub args : Ptr
  pub allargs : Ptr
  pub name : Ptr
  pub formatstr : Ptr
  pub printf_args : Ptr
  pub dum : Ptr
  pub buf : Ptr
  pub pcb_name : Ptr → Ptr
  pub pagetable : Ptr → Ptr
  pub process_exit : Ptr

-- A routine on the kernel, called on the machine.
abbrev pub with_kernel : {A : Type 0} → Machine → Run Kernel A → Run Machine A
with_kernel m (ok a k) = ok a (record m { kernel = k })
with_kernel m fault = fault
with_kernel m halted = halted
with_kernel m out_of_fuel = out_of_fuel

abbrev pub in_kernel : {A : Type 0} → Cmd Kernel A → Cmd Machine A
in_kernel c m = with_kernel m (c m.kernel)

-- A routine on the memory, called on the machine.
abbrev pub with_bytes : {A : Type 0} → Machine → Run Bytes A → Run Machine A
with_bytes m (ok a b) = ok a (record m { bytes = b })
with_bytes m fault = fault
with_bytes m halted = halted
with_bytes m out_of_fuel = out_of_fuel

abbrev pub in_bytes : {A : Type 0} → Cmd Bytes A → Cmd Machine A
in_bytes c m = with_bytes m (c m.bytes)

-- The calls of `get_argument`, on the machine.
abbrev pub with_scanner : {A : Type 0} → Machine → Run Scanner A → Run Machine A
with_scanner m (ok a s) = ok a (record m { str = s.str; location = s.location })
with_scanner m fault = fault
with_scanner m halted = halted
with_scanner m out_of_fuel = out_of_fuel

abbrev pub in_scanner : {A : Type 0} → Cmd Scanner A → Cmd Machine A
in_scanner c m = with_scanner m (c (record { text = m.bytes; str = m.str; location = m.location }))

unfoldable pub write_frame : Ptr → (Frame → Frame) → Cmd Machine (Unit {0})
write_frame p f m = ok tt (record m { frames = update m.frames p (f (m.frames p)) })

unfoldable pub read_frame : Ptr → Cmd Machine Frame
read_frame p m = ok (m.frames p) m
