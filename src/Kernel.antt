-- ===== src/Kernel.antt =====
-- The state that the modules of os/ share: the static variables of process.c, synch.c and memory.c
-- over the queues of queue.c, and the interrupt level of the processor.
use lab.Prelude.{ℕ, ◌+◌, List, ◌==◌, if◌then◌else◌}
use lab.Prelude.Int.{ℤ, sub_ℕ}
use lab.Run.{Run, Cmd, ok, fault, halted, out_of_fuel}
use lab.Queue.Store.{Ptr, null, Store, update}
use lab.Memory.Freemap.{Memory}

-- `PCB` of include/os/process.h. `result` is the saved register r1, the slot
-- `currentSavedFrame[PROCESS_STACK_IREG+1]`; the rest of the saved frame and the name are left out.
pub record Pcb : Type 0 where
  pub flags : ℕ
  pub link : Ptr
  pub npages : ℕ
  pub pagetable : List ℕ
  pub sys_stack_area : ℕ
  pub result : ℤ

-- `Sem`, `Lock` and `Cond` of include/os/synch.h, but for their queues, which stand in the store.
pub record Sem : Type 0 where
  pub count : ℤ
  pub inuse : ℕ

pub record Lock : Type 0 where
  pub pid : ℤ
  pub inuse : ℕ

pub record Cond : Type 0 where
  pub lock : ℕ
  pub inuse : ℕ

-- `pcbs[i]` has the address `i + 1`; semaphores, locks and conditions go by their indices.
pub record Kernel : Type 0 where
  pub store : Store
  pub pcbs : Ptr → Pcb
  pub current : Ptr
  pub sems : ℕ → Sem
  pub locks : ℕ → Lock
  pub conds : ℕ → Cond
  pub memory : Memory
  pub intrs : ℕ
  pub timer : ℕ

-- The addresses of the kernel's queues; freeLinks has the address 1.
abbrev pub free_pcbs : Ptr
free_pcbs = 2

abbrev pub run_queue : Ptr
run_queue = 3

abbrev pub wait_queue : Ptr
wait_queue = 4

abbrev pub zombie_queue : Ptr
zombie_queue = 5

-- `&sems[i].waiting`, `&locks[i].waiting` and `&conds[i].waiting`
abbrev pub sem_queue : ℕ → Ptr
sem_queue i = 6 + i

abbrev pub lock_queue : ℕ → Ptr
lock_queue i = 38 + i

abbrev pub cond_queue : ℕ → Ptr
cond_queue i = 102 + i

-- A routine of queue.c, called from the kernel.
abbrev pub with_store : {A : Type 0} → Kernel → Run Store A → Run Kernel A
with_store k (ok a s) = ok a (record k { store = s })
with_store k fault = fault
with_store k halted = halted
with_store k out_of_fuel = out_of_fuel

abbrev pub queued : {A : Type 0} → Cmd Store A → Cmd Kernel A
queued m k = with_store k (m k.store)

-- A routine of memory.c, called from the kernel.
abbrev pub with_memory : {A : Type 0} → Kernel → Run Memory A → Run Kernel A
with_memory k (ok a m) = ok a (record k { memory = m })
with_memory k fault = fault
with_memory k halted = halted
with_memory k out_of_fuel = out_of_fuel

abbrev pub in_memory : {A : Type 0} → Cmd Memory A → Cmd Kernel A
in_memory m k = with_memory k (m k.memory)

unfoldable pub read_pcb : Ptr → Cmd Kernel Pcb
read_pcb p k = if p == null then fault else ok (k.pcbs p) k

unfoldable pub write_pcb : Ptr → (Pcb → Pcb) → Cmd Kernel (Unit {0})
write_pcb p f k =
    if p == null then fault else ok tt (record k { pcbs = update k.pcbs p (f (k.pcbs p)) })

-- `GetPidFromAddress`, also `findpid`: the index of a PCB in the array.
unfoldable pub pid_of : Ptr → ℤ
pid_of p = sub_ℕ p 1

-- `GetCurrentPid`
unfoldable pub current_pid : Cmd Kernel ℤ
unfolding pid_of
current_pid k = ok (pid_of k.current) k

-- `SetIntrs`, in the assembly file dlxos.s: the level is set, and the former one comes back.
unfoldable pub set_intrs : ℕ → Cmd Kernel ℕ
set_intrs level k = ok k.intrs (record k { intrs = level })

-- `DisableIntrs`
unfoldable pub disable_intrs : Cmd Kernel ℕ
unfolding set_intrs
disable_intrs = set_intrs 15

-- `RestoreIntrs`
unfoldable pub restore_intrs : ℕ → Cmd Kernel ℕ
unfolding set_intrs
restore_intrs level = set_intrs level
