-- ===== src/Startup/Fork.antt =====
-- ProcessFork of os/process.c.
use Prim.Native.Nat.{bit_or}
use lab.Prelude.{
  ℕ, zero, suc, ◌+◌, ◌-◌, ◌*◌, ◌^◌, ◌%◌, Bool, true, false, not, List, [], ◌∷◌, ◌==◌, if◌then◌else◌,
  set, length, ltb,
}
use lab.Prelude.Int.{ℤ, negsuc, is_neg_ℤ}
use lab.Run.{Cmd, ok, fault, pure, starved, exitsim, ◌>>=◌, ◌>>◌}
use lab.Queue.Store.{Ptr, null, queue_success, is_empty, first_of, object_of}
use lab.Queue.Insertion.{insert_last}
use lab.Queue.Removal.{remove}
use lab.Memory.Freemap.{page_size, alloc_page}
use lab.Memory.Address.{setup_pte}
use lab.Memory.Moving.{copy_to_user}
use lab.Kernel.{
  Kernel, free_pcbs, run_queue, queued, in_memory, read_pcb, write_pcb, disable_intrs,
  restore_intrs, pid_of,
}
use lab.Process.Status.{status_runnable, type_system, type_user, set_status}
use lab.Process.Transitions.{set_link, enqueue, free_resources}
use lab.Process.Schedule.{set_current}
use lab.Text.Strings.{Bytes, dstrlen, dstrcpy}
use lab.Startup.Arguments.{argument_offsets}
use lab.Machine.{
  Machine, Platform, Layout, in_kernel, in_bytes, in_scanner, write_frame, read_frame,
}

-- The size of the array `name` of a PCB.
abbrev pub name_size : ℕ
name_size = 80

-- The call of `dstrcpy` on `pcb->name`. A name of 80 characters or more runs past the array into the other
-- fields of the PCB and into the next one, which is a fault here.
unfoldable pub copy_name : ℕ → Ptr → Ptr → Cmd Bytes Ptr
copy_name rounds to from = do
  n ← dstrlen rounds from
  if ltb n name_size then dstrcpy rounds to from else (λ b. fault)

-- The first part of `ProcessFork`: a PCB leaves the queue of free ones.
unfoldable pub claim_pcb : Cmd Kernel Ptr
claim_pcb = do
  level ← disable_intrs
  none_free ← queued (is_empty free_pcbs)
  if none_free then exitsim else do
    l ← queued (first_of free_pcbs)
    p ← queued (object_of l)
    r ← read_pcb p
    (status, l') ← queued (remove r.link)
    set_link p l'
    if not (status == queue_success)
        then exitsim
        else do set_status p status_runnable; restore_intrs level; pure p

-- The second part: a page for the process, and one for its system stack.
unfoldable pub give_pages : Ptr → Cmd Kernel (Unit {0})
give_pages p = do
  write_pcb p (λ r. record r { npages = 1 })
  page ← in_memory alloc_page
  if page == 0 then exitsim else do
    write_pcb p (λ r. record r { pagetable = set r.pagetable 0 (setup_pte page) })
    stack ← in_memory alloc_page
    if stack == 0
        then exitsim
        else write_pcb p (λ r. record r { sys_stack_area = stack * page_size % 2 ^ 32 })

-- The last part: the process joins the run queue, and the first process becomes the current one.
unfoldable pub admit : Ptr → Cmd Kernel ℤ
admit p = do
  level ← disable_intrs
  enqueue (insert_last run_queue) p
  restore_intrs level
  (λ k. (if k.current == null then set_current p else pure tt) k)
  pure (pid_of p)

-- PROCESS_STACK_FRAME_SIZE and SIZE_ARG_BUFF
abbrev pub frame_size : ℕ
frame_size = 85

abbrev pub arg_buffer : ℕ
arg_buffer = 1024

-- What `ProcessFork` uses to load a program: `ProcessGetCodeInfo` with the descriptor and the start
-- address, `ProcessGetFromFile` with the number of bytes and the address behind them, and `FsClose`.
pub record Loader : Type 0 where
  pub get_code_info : Ptr → Cmd Machine (ℤ × ℕ)
  pub get_from_file : ℤ → ℕ → Cmd Machine (ℕ × ℕ)
  pub close : ℤ → Cmd Machine ℤ

module _ (platform : Platform) (layout : Layout) where
  -- The part that sets up the stack frame.
  unfoldable pub set_up_frame : Ptr → Cmd Machine (Unit {0})
  set_up_frame p = do
    r ← in_kernel (read_pcb p)
    write_frame p (λ f. record f {
      address = r.sys_stack_area + page_size - 4 * (frame_size + 8);
      prev_frame = 0;
      ptbase = layout.pagetable p;
      ptsize = r.npages;
      ptbits = 16 + 16 * 2 ^ 16;
    })

  -- The branch for a system process.
  unfoldable pub start_system : Ptr → ℕ → ℕ → Cmd Machine (Unit {0})
  start_system p func param = do
    r ← in_kernel (read_pcb p)
    write_frame p
        (λ f. record f { r31 = layout.process_exit; r29 = r.sys_stack_area + page_size - 32 })
    f ← read_frame p
    (λ m. ok tt (record m { bytes = platform.store_word f.r29 param m.bytes }))
    write_frame p (λ f'. record f' { iar = func; isr = 0x140 })
    in_kernel (write_pcb p (λ q. record q { flags = bit_or q.flags type_system }))

  -- The words that go to `dum`, from its word `i` on.
  unfoldable pub store_words : ℕ → List ℕ → Cmd Machine (Unit {0})
  store_words i [] = pure tt
  store_words i (w ∷ ws) = do
    (λ m. ok tt (record m { bytes = platform.store_word (layout.dum + 4 * i) w m.bytes }))
    store_words (i + 1) ws

  -- The addresses in the user's memory that belong to a list of offsets.
  unfoldable pub user_addresses : List ℕ → List ℕ
  user_addresses [] = []
  user_addresses (o ∷ os) = (page_size - arg_buffer + o) ∷ user_addresses os

  -- A copy from the system's memory to that of the process.
  unfoldable pub to_process : Ptr → Ptr → ℕ → ℕ → Cmd Machine ℕ
  to_process p from to n = do
    r ← in_kernel (read_pcb p)
    in_bytes (copy_to_user r.pagetable r.npages from to n)

  -- The arguments of a user process, copied below the top of its stack. With `n` offsets the variable
  -- `count` ends at `n + 1`.
  unfoldable pub pass_arguments : Ptr → Ptr → Cmd Machine (Unit {0})
  pass_arguments p param = do
    write_frame p (λ f. record f { r29 = page_size - arg_buffer })
    to_process p param (page_size - arg_buffer) (arg_buffer - 32)
    offs ← in_scanner (argument_offsets 101 param)
    let count = length offs + 1
    store_words 0 ((count - 2) ∷ (page_size - arg_buffer - (count - 2) * 4) ∷ user_addresses offs)
    to_process p layout.dum (page_size - arg_buffer - count * 4) (count * 4)
    write_frame p (λ f. record f { r29 = f.r29 - 4 * count })

  module _ (loader : Loader) where
    -- The loop that loads the program, on fuel.
    unfoldable pub load_program : ℕ → Ptr → ℤ → ℕ → Cmd Machine (Unit {0})
    load_program zero p fd addr = starved
    load_program (suc rounds) p fd addr = do
      (n, addr') ← loader.get_from_file fd addr
      if n == 0
          then pure tt
          else do to_process p layout.buf (addr' - n) n; load_program rounds p fd addr'

    -- The branch for a user process; false if the program cannot be read, in which case the resources
    -- are free again.
    unfoldable pub start_user : ℕ → Ptr → Ptr → Ptr → Cmd Machine Bool
    start_user rounds p param name = do
      (fd, start) ← loader.get_code_info name
      if is_neg_ℤ fd
          then (do in_kernel (free_resources platform.free_shared_pte p); pure false)
          else (do
            load_program rounds p fd 0
            loader.close fd
            write_frame p (λ f. record f { isr = 0x100 })
            pass_arguments p param
            write_frame p (λ f. record f { iar = start })
            in_kernel (write_pcb p (λ q. record q { flags = bit_or q.flags type_user }))
            pure true)

    -- `ProcessFork`, with `rounds` for the loops over the name and the file.
    unfoldable pub fork : ℕ → ℕ → ℕ → Ptr → Bool → Cmd Machine ℤ
    fork rounds func param name is_user = do
      p ← in_kernel claim_pcb
      in_bytes (copy_name rounds (layout.pcb_name p) name)
      in_kernel (give_pages p)
      set_up_frame p
      ready ←
          (if is_user
            then start_user rounds p param name
            else start_system p func param >> pure true)
      if not ready then pure (negsuc 0) else in_kernel (admit p)
