-- ===== src/Startup/ForkExamples.antt =====
-- ProcessFork where one process runs and one PCB is free.
use lab.Prelude.{
  ◌≡◌, refl, sym, subst, false, inl, inr, [], ◌∷◌, arith, ◌==◌, if◌then◌else◌, Bool-cases, ==_iff,
}
use lab.Prelude.Int.{pos, negsuc}
use lab.Run.{Returns, pure}
use lab.Queue.Store.{Ptr, Store}
use lab.Queue.Shape.{IsQueue, View, Holds}
use lab.Queue.InitLaws.{empty-IsQueue}
use lab.Memory.Examples.{two_words, two_words-IsMap}
use lab.Kernel.{Kernel, pid_of}
use lab.Process.Examples.{node, world}
use lab.Text.Strings.{Bytes}
use lab.Machine.{Machine}
use lab.Startup.Fork.{fork}
use lab.Startup.ClaimLaws.{HasTwo}
use lab.Startup.Loading.{FileCalls}
use lab.Startup.ForkLaws.{Forked, fork-Forked}
use lab.Traps.Examples.{platform, layout, no_programs, machine}

-- No link is free, the link 20 carries the free PCB 5, and the process 1 stands in the run queue.
abbrev sparse : Store
sparse = record {
  links = λ a. if a == 20 then node 0 0 2 5 else if a == 7 then node 0 0 3 1 else node 0 0 0 0;
  queues = λ k.
      if k == 2
      then record { first = 20; last = 20; nitems = pos 1 }
      else if k == 3
      then record { first = 7; last = 7; nitems = pos 1 }
      else record { first = 0; last = 0; nitems = pos 0 };
}

abbrev sparse_view : View
sparse_view k = if k == 2 then 20 ∷ [] else if k == 3 then 7 ∷ [] else []

spare-IsQueue : IsQueue sparse 2 (20 ∷ [])
spare-IsQueue = record {
  first = refl;
  last = refl;
  nitems = refl;
  chain = (record { not_null = omega arith; prev = refl; next = refl; queue = refl }, tt);
  distinct = (refl, tt);
}

lone-IsQueue : IsQueue sparse 3 (7 ∷ [])
lone-IsQueue = record {
  first = refl;
  last = refl;
  nitems = refl;
  chain = (record { not_null = omega arith; prev = refl; next = refl; queue = refl }, tt);
  distinct = (refl, tt);
}

sparse-Holds : Holds sparse sparse_view
sparse-Holds k ne = elim (Bool-cases (k == 2)) [
  | inl same ↦
      subst (λ (j : Ptr). IsQueue sparse j (sparse_view j)) (sym ((==_iff k 2).0 same))
        spare-IsQueue
  | inr a ↦ elim (Bool-cases (k == 3)) [
    | inl same ↦
        subst (λ (j : Ptr). IsQueue sparse j (sparse_view j)) (sym ((==_iff k 3).0 same))
          lone-IsQueue
    | inr b ↦ rw (a, b) (empty-IsQueue sparse k (rw (a, b) refl))
  ]
]

abbrev lonely : Kernel
lonely = record world {
  store = sparse;
  pcbs =
      λ a. if a == 5 then record (world.pcbs 5) { link = 20; pagetable = 0 ∷ [] } else world.pcbs a;
  memory = two_words;
}

two_words-HasTwo : HasTwo two_words 34 36
two_words-HasTwo = record {
  map = two_words-IsMap;
  counted = omega arith;
  zero_taken = refl;
  in_map1 = omega arith;
  in_map2 = omega arith;
  free1 = refl;
  free2 = refl;
  two = λ e. omega (arith, e);
}

-- The name "sh" stands at the address 40.
abbrev sh_at_40 : Bytes
sh_at_40 a = if a == 40 then 115 else if a == 41 then 104 else 0

abbrev quiet : Machine
quiet = record (machine sh_at_40) { kernel = lonely }

fork-Forked_example :
    Returns
      (λ r t.
        (r ≡ pid_of 5)
        × Forked platform layout no_programs 9 0x4000 7 40 quiet sparse_view 5 []
            (115 ∷ 104 ∷ [])
            t)
      (fork platform layout no_programs 9 0x4000 7 40 false quiet)
fork-Forked_example =
    fork-Forked platform layout no_programs 9 0x4000 7 40 quiet sparse_view 5 20 34 36 []
      (115 ∷ 104 ∷ []) (λ e. omega (arith, e)) sparse-Holds refl refl refl two_words-HasTwo
      (refl, (λ e. omega (arith, e)), (refl, (λ e. omega (arith, e)), refl)) (omega arith)
      (omega arith) (inr (omega arith))

-- Files of which none can be opened.
abbrev no_files : FileCalls
no_files = record {
  open_file = λ p mode. pure (negsuc 0);
  seek = λ fd offset whence. pure (negsuc 0);
  read = λ fd p n. pure (negsuc 0);
  close = λ fd. pure (negsuc 0);
}
