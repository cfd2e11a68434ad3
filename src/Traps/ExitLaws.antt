-- ===== src/Traps/ExitLaws.antt =====
-- The exit trap of os/traps.c, from the interrupt to the next process.
use Prim.Native.Nat.{bit_and}
use lab.Prelude.{ℕ, ◌≡◌, ◌≢◌, refl, List, [], ◌∷◌, false, ==_ne, some, length}
use lab.Process.Transitions.{destroy}
use lab.Process.Schedule.{schedule}
use lab.Run.{
  pure, Run, Cmd, Returns, returns, Returns-and_then, and_then, ok, fault, halted, out_of_fuel,
}
use lab.Queue.Store.{Ptr, null}
use lab.Queue.Shape.{View, Holds}
use lab.Kernel.{Kernel, run_queue, zombie_queue}
use lab.Synch.Handles.{current_pcb}
use lab.Process.Requeue.{items}
use lab.Process.Freeing.{InRoom}
use lab.Process.Reclaim.{owned, SharesNone}
use lab.Process.Exit.{Exited, destroy-Exited}
use lab.Machine.{Machine, Platform, Layout}
use lab.Startup.CallLaws.{Returns-in_kernel}
use lab.Startup.Fork.{Loader}
use lab.Traps.Dispatch.{done, trap_of, exit_process, process_trap, serve, dointerrupt}

-- A run that goes on behind two that were joined.
Returns-behind :
    {A B C : Type 0} {P : B → Kernel → Type 0} {Q : C → Kernel → Type 0} (r : Run Kernel A)
    (f : A → Cmd Kernel B) (g : B → Cmd Kernel C)
    → Returns P (and_then r f)
    → ((b : B) (s : Kernel) → P b s → Returns Q (g b s))
    → Returns Q (and_then r (λ a s. and_then (f a s) g))
Returns-behind (ok a s) f g h next = Returns-and_then h next
Returns-behind fault f g h next = elim h [ ]
Returns-behind halted f g h next = elim h [ ]
Returns-behind out_of_fuel f g h next = elim h [ ]

module _ (platform : Platform) (layout : Layout) (loader : Loader) (rounds : ℕ) where
  -- The exit trap of a process that shares no page (`MemoryFreeSharedPte` of its pages changes nothing while
  -- it has its page table) and whose pages stand in the map, with two other processes at least in the run
  -- queue and no zombie: the process becomes a free one and its pages become free; the process that stood
  -- directly behind it moves to the end of the run queue without having run, and the one behind that is
  -- the current process for a quantum.
  pub dointerrupt-Exited :
      (cause isr : ℕ) (trap_args : Ptr) (m : Machine) (v : View) (l c d : Ptr) (ls es : List Ptr)
      → bit_and cause 0x800_0000 ≢ 0
      → trap_of (bit_and cause 0xf7ff_ffff) ≡ some exit_process
      → m.kernel.current ≢ null
      → Holds m.kernel.store v
      → v run_queue ≡ l ∷ ls
      → items m.kernel.store ls ≡ c ∷ d ∷ es
      → v zombie_queue ≡ []
      → (m.kernel.pcbs m.kernel.current).link ≡ l
      → SharesNone platform.free_shared_pte m.kernel m.kernel.current
      → InRoom (length m.kernel.memory.freepages) (owned (m.kernel.pcbs m.kernel.current))
      → Returns
          (λ e t.
            ((e ≡ done) × Exited m.kernel v m.kernel.current c d es t.kernel)
            × (t ≡ record m { kernel = t.kernel }))
          (dointerrupt platform layout loader rounds cause isr trap_args m)
  unfolding dointerrupt serve process_trap current_pcb
  dointerrupt-Exited cause isr trap_args m v l c d ls es instr code some_process all run behind
        none_yet link none room =
      rw (==_ne (bit_and cause 0x800_0000) 0 instr, code)
        (Returns-in_kernel m (
          Returns-behind {A = Unit {0}} (destroy m.kernel.current m.kernel)
            (λ _. schedule platform.free_shared_pte false) (λ _. pure done)
            (destroy-Exited platform.free_shared_pte m.kernel v m.kernel.current l c d ls es
              some_process all run behind none_yet link none room)
            λ _ t ex. returns (refl, ex)))
