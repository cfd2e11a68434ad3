-- ===== src/Startup/ForkLaws.antt =====
-- ProcessFork of os/process.c for a system process, from the free PCBs to the run queue.
use lab.Prelude.{
  ℕ, ◌+◌, ◌-◌, ◌*◌, ◌^◌, ◌%◌, ◌<◌, ◌≡◌, ◌≢◌, refl, sym, subst, ◌∙◌, ap, List, [], ◌∷◌, arith, false,
  ==_self, ==_ne, length,
}
use mathlib.Core.Path.{ap₂}
use lab.Run.{Returns, Returns-mono}
use lab.Queue.Store.{Ptr, null, update, free_links, Store}
use lab.Queue.Shape.{View, Holds, head_or}
use lab.Queue.RemovalLaws.{returned}
use lab.Queue.ReturnedLaws.{snoc-cons, returned-free}
use lab.Memory.Freemap.{Memory, page_size}
use lab.Text.Strings.{Bytes}
use lab.Text.StringLaws.{HasString}
use lab.Text.CopyLaws.{Apart, IsOutside}
use lab.Startup.NameLaws.{copy_name-HasString}
use lab.Kernel.{Kernel, free_pcbs, pid_of, read_pcb, write_pcb}
use lab.Process.Status.{type_system}
use lab.Machine.{Machine, Frame, Platform, Layout, write_frame, read_frame}
use lab.Startup.Fork.{Loader, fork, set_up_frame, start_system, frame_size, name_size}
use lab.Startup.CallLaws.{Returns-in_kernel, Returns-kernel, Returns-bytes}
use lab.Startup.ClaimLaws.{HasTwo, Provided, claim_pcb-Claimed, give_pages-Provided}
use lab.Startup.AdmitLaws.{admit-Admitted}
use lab.Startup.SpawnLaws.{Spawned, Spawned-of, typed}

module _ (platform : Platform) (layout : Layout) (loader : Loader)
    (rounds func param name : ℕ) where
  -- The stack frame of a new system process whose system stack lies at the address `area`.
  abbrev first_frame : Ptr → ℕ → Frame
  first_frame p area = record {
    address = area + page_size - 4 * (frame_size + 8);
    prev_frame = 0;
    ptbase = layout.pagetable p;
    ptsize = 1;
    ptbits = 16 + 16 * 2 ^ 16;
    r29 = area + page_size - 32;
    r31 = layout.process_exit;
    iar = func;
    isr = 0x140;
  }

  -- The machine `t` has a new process `p`, called `cs`, more than `m`.
  pub record Forked (m : Machine) (v : View) (p : Ptr) (ls : List Ptr) (cs : List ℕ) (t : Machine)
      : Type 0 where
    pub page : ℕ
    pub stack : ℕ
    pub spawned : Spawned m.kernel v p type_system page stack ls t.kernel
    pub frame : t.frames p ≡ first_frame p (stack * page_size % 2 ^ 32)
    pub frames : (a : Ptr) → a ≢ p → t.frames a ≡ m.frames a
    pub text : Bytes
    pub called : HasString text (layout.pcb_name p) cs
    pub around : (a : ℕ) → IsOutside (layout.pcb_name p) (length cs) a → text a ≡ m.bytes a
    pub passed :
        t.bytes ≡ platform.store_word (stack * page_size % 2 ^ 32 + page_size - 32) param text
    pub rest : t ≡ record m { kernel = t.kernel; frames = t.frames; bytes = t.bytes }

  -- The stack frames after the three changes of `set_up_frame` and `start_system`.
  abbrev changed : (Ptr → Frame) → Ptr → (Frame → Frame) → Ptr → Frame
  changed frames p f = update frames p (f (frames p))

  abbrev frame1 : Machine → Kernel → Ptr → Ptr → Frame
  frame1 m k p = changed m.frames p λ f. record f {
    address = (k.pcbs p).sys_stack_area + page_size - 4 * (frame_size + 8);
    prev_frame = 0;
    ptbase = layout.pagetable p;
    ptsize = (k.pcbs p).npages;
    ptbits = 16 + 16 * 2 ^ 16;
  }

  abbrev frame2 : Machine → Kernel → Ptr → Ptr → Frame
  frame2 m k p =
      changed (frame1 m k p) p λ f. record f {
        r31 = layout.process_exit;
        r29 = (k.pcbs p).sys_stack_area + page_size - 32;
      }

  abbrev frame3 : Machine → Kernel → Ptr → Ptr → Frame
  frame3 m k p = changed (frame2 m k p) p λ f. record f { iar = func; isr = 0x140 }

  -- The machine before the process joins the run queue.
  abbrev set_up : Machine → Kernel → Ptr → Bytes → Machine
  set_up m k p text = record m {
    kernel = typed k p type_system;
    bytes = platform.store_word (frame2 m k p p).r29 param text;
    frames = frame3 m k p;
  }

  frame2-top :
      (m : Machine) (k1 k2 : Kernel) (p a b : ℕ)
      → Provided k1 p a b k2
      → (frame2 m k2 p p).r29 ≡ b * page_size % 2 ^ 32 + page_size - 32
  unfolding update
  frame2-top m k1 k2 p a b pr = simp (==_self p, pr.pcbs p)

  frame3-first :
      (m : Machine) (k1 k2 : Kernel) (p a b : ℕ)
      → Provided k1 p a b k2
      → frame3 m k2 p p ≡ first_frame p (b * page_size % 2 ^ 32)
  unfolding update
  frame3-first m k1 k2 p a b pr = simp (==_self p, pr.pcbs p)

  -- `ProcessFork` of a system process returns the pid of the first free PCB, where one is free, two pages
  -- at least are free, page 0 is not, and the name has less than 80 characters, ends within the rounds and
  -- does not overlap the PCB's.
  -- The process is the last of the run queue, runnable, and the current one if there was none; it has
  -- the name, a page, another one for its stack, which now are not free, and a frame that starts at
  -- `func` with `param` in the word that r29 points to. It needs no free link to spare; the other
  -- queues, pages, processes and frames stay.
  pub fork-Forked :
      (m : Machine) (v : View) (p l q1 q2 : ℕ) (ls : List Ptr) (cs : List ℕ)
      → p ≢ null
      → Holds m.kernel.store v
      → v free_pcbs ≡ l ∷ ls
      → (m.kernel.store.links l).object ≡ p
      → (m.kernel.pcbs p).link ≡ l
      → HasTwo m.kernel.memory q1 q2
      → HasString m.bytes name cs
      → length cs < rounds
      → length cs < name_size
      → Apart (layout.pcb_name p) name (length cs)
      → Returns
          (λ r t. (r ≡ pid_of p) × Forked m v p ls cs t)
          (fork platform layout loader rounds func param name false m)
  unfolding fork set_up_frame start_system write_frame read_frame read_pcb write_pcb update
  fork-Forked m v p l q1 q2 ls cs p_ne all at carry link two called enough short apart =
      Returns-kernel m _ (claim_pcb-Claimed m.kernel v p l ls p_ne all at carry link)
        λ p' k1 (e, c). rw e (
          Returns-bytes (record m { kernel = k1 }) _
            (copy_name-HasString m.bytes (layout.pcb_name p) name rounds cs called enough short
              apart)
            λ _ text (_, here, around).
              Returns-kernel (record m { kernel = k1; bytes = text }) _
                (give_pages-Provided k1 p q1 q2 p_ne (
                  subst (λ (x : Memory). HasTwo x q1 q2)
                    (sym (ap (λ (x : Kernel). x.memory) c.rest)) two))
                λ _ k2 (a, b, pr). simp (==_ne p null p_ne) (
                  let (rest, next) = snoc-cons l (v free_links) in
                  let first = head_or l (v free_links) in
                  Returns-mono
                    (Returns-in_kernel (set_up m k2 p text) (
                      admit-Admitted (typed k2 p type_system) (returned v free_pcbs l [] ls) p first
                        rest p_ne
                        (subst (λ (s : Store). Holds s (returned v free_pcbs l [] ls))
                          (sym (ap (λ (x : Kernel). x.store) pr.rest)) c.holds)
                        (returned-free v free_pcbs l [] ls (omega arith) ∙ next)))
                    λ r t ((is_pid, ad), is). (
                      is_pid,
                      record {
                        page = a;
                        stack = b;
                        spawned =
                            Spawned-of m.kernel k1 k2 t.kernel v p type_system l a b first ls at c
                              pr ad;
                        frame = ap (λ (x : Machine). x.frames p) is ∙ frame3-first m k1 k2 p a b pr;
                        frames =
                            λ j ne. ap (λ (x : Machine). x.frames j) is ∙ rw (==_ne j p ne) refl;
                        text = text;
                        called = here;
                        around = around;
                        passed =
                            ap (λ (x : Machine). x.bytes) is
                            ∙ ap (λ (x : Ptr). platform.store_word x param text)
                                (frame2-top m k1 k2 p a b pr);
                        rest =
                            is
                            ∙ ap₂
                                (λ (bs : Bytes) (fs : Ptr → Frame). record m {
                                  kernel = t.kernel;
                                  bytes = bs;
                                  frames = fs;
                                })
                                (sym (ap (λ (x : Machine). x.bytes) is))
                                (sym (ap (λ (x : Machine). x.frames) is));
                      },
                    )))
