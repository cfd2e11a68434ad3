-- ===== src/Startup/RefusalLaws.antt =====
-- ProcessFork of os/process.c for a program that cannot be opened.
use lab.Prelude.{ℕ, ◌+◌, ◌-◌, ◌*◌, ◌^◌, ◌%◌, ◌≡◌, ◌≢◌, true, List, length}
use lab.Prelude.Int.{ℤ, is_neg_ℤ}
use lab.Run.{ok}
use lab.Queue.Store.{Ptr, Store}
use lab.Queue.Shape.{View}
use lab.Memory.Freemap.{Memory, page_size}
use lab.Kernel.{Kernel}
use lab.Text.StringLaws.{HasString}
use lab.Text.CopyLaws.{IsOutside}
use lab.Startup.Loading.{FileCalls, file_loader}
use lab.Machine.{Machine, Platform, Layout}
use lab.Startup.Fork.{Loader, frame_size}
use lab.Startup.GivingBackLaws.{Refused}

module _ (platform : Platform) (layout : Layout) (files : FileCalls)
    (localbuf info_buf start_text max rounds func param name : ℕ) (fd : ℤ)
    (unopened : (x : Machine) → files.open_file name 1 x ≡ ok fd x)
    (negative : is_neg_ℤ fd ≡ true) where
  -- The loader of os/process.c.
  abbrev loader : Loader
  loader = file_loader files localbuf info_buf start_text layout.buf rounds max

  -- What is left of a new user process `p` of the name `cs` whose program cannot be opened.
  pub record Undone (m : Machine) (v : View) (p : Ptr) (ls : List Ptr) (cs : List ℕ) (t : Machine)
      : Type 0 where
    pub page : ℕ
    pub stack : ℕ
    pub refused : Refused m.kernel v p page stack ls t.kernel
    pub frame : t.frames p ≡ record (m.frames p) {
      address = stack * page_size % 2 ^ 32 + page_size - 4 * (frame_size + 8);
      prev_frame = 0;
      ptbase = layout.pagetable p;
      ptsize = 1;
      ptbits = 16 + 16 * 2 ^ 16;
    }
    pub frames : (a : Ptr) → a ≢ p → t.frames a ≡ m.frames a
    pub called : HasString t.bytes (layout.pcb_name p) cs
    pub around : (a : ℕ) → IsOutside (layout.pcb_name p) (length cs) a → t.bytes a ≡ m.bytes a
    pub rest : t ≡ record m { kernel = t.kernel; frames = t.frames; bytes = t.bytes }
