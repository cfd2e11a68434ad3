-- ===== src/Traps/Examples.antt =====
-- The laws of os/traps.c at the kernel of the examples of os/process.c.
use lab.Prelude.{◌+◌, ◌*◌, ◌-◌, ◌^◌, arith, ◌==◌, if◌then◌else◌}
use lab.Prelude.Int.{negsuc}
use lab.Run.{Returns, pure}
use lab.Queue.Store.{update}
use lab.Process.Examples.{world, no_shared_pages}
use lab.Text.Strings.{Bytes}
use lab.Machine.{Machine, Platform, Layout}
use lab.Startup.Fork.{Loader}
use lab.Traps.Dispatch.{drain_keyboard}
use lab.Traps.Laws.{Drained, drain_keyboard-Drained}

-- A processor whose words have their highest byte first, and a keyboard with three characters.
abbrev pub platform : Platform
platform = record {
  load_word = λ b p. b p * 2 ^ 24 + b (p + 1) * 2 ^ 16 + b (p + 2) * 2 ^ 8 + b (p + 3);
  store_word = λ p w b. update b (p + 3) w;
  free_shared_pte = no_shared_pages;
  create_shared_page = λ p. pure 0;
  mmap = λ p h. pure 0;
  chars_in = λ r. 3 - r;
}

abbrev pub layout : Layout
layout = record {
  arg = 200;
  args = 300;
  allargs = 1000;
  name = 4000;
  formatstr = 5000;
  printf_args = 6000;
  dum = 7000;
  buf = 8000;
  pcb_name = λ p. 9000;
  pagetable = λ p. 9500;
  process_exit = 0;
}

abbrev pub no_programs : Loader
no_programs = record {
  get_code_info = λ p. pure (negsuc 0, 0);
  get_from_file = λ fd addr. pure (0, addr);
  close = λ fd. pure fd;
}

-- The word 40 stands at the address 100.
abbrev pub forty : Bytes
forty p = if p == 103 then 40 else 0

abbrev pub machine : Bytes → Machine
machine b = record {
  kernel = world;
  bytes = b;
  frames = λ p. record {
    address = 0;
    prev_frame = 0;
    ptbase = 0;
    ptsize = 0;
    ptbits = 0;
    r29 = 0;
    r31 = 0;
    iar = 0;
    isr = 0;
  };
  str = 0;
  location = 0;
  kbd_intr = 1;
  kbd_reads = 0;
}

-- The memory once the argument of the trap has been copied.
abbrev with_arg : Bytes
with_arg = update (update (update (update forty 200 0) 201 0) 202 0) 203 40

drain_keyboard-Drained_example :
    Returns
      (λ _ t. Drained platform.chars_in (machine forty) 2 t)
      (drain_keyboard platform layout no_programs 99 5 (machine forty))
drain_keyboard-Drained_example =
    drain_keyboard-Drained platform layout no_programs 99 2 5 (machine forty) (omega arith)
      (omega arith)
