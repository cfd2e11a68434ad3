-- ===== src/Traps/ExitExamples.antt =====
-- The exit trap at three running processes.
use Prim.Native.Nat.{bit_and}
use lab.Prelude.{
  ◌≡◌, refl, sym, subst, inl, inr, [], ◌∷◌, arith, ◌==◌, if◌then◌else◌, Bool-cases, ==_iff, some,
}
use lab.Prelude.Int.{pos}
use lab.Run.{Returns}
use lab.Queue.Store.{Ptr, Store}
use lab.Queue.Shape.{IsQueue, View, Holds}
use lab.Queue.InitLaws.{empty-IsQueue}
use lab.Kernel.{Kernel}
use lab.Process.Examples.{node, world}
use lab.Process.Exit.{Exited}
use lab.Machine.{Machine}
use lab.Traps.Dispatch.{done, trap_of, exit_process, dointerrupt}
use lab.Traps.ExitLaws.{dointerrupt-Exited}
use lab.Traps.Examples.{platform, layout, no_programs, forty, machine}

-- Two links are free, and the processes 1, 2 and 3 stand in the run queue.
abbrev crowd_store : Store
crowd_store = record {
  links = λ a.
      if a == 12
      then node 0 13 1 0
      else if a == 13
      then node 12 0 1 0
      else if a == 7
      then node 0 8 3 1
      else if a == 8
      then node 7 9 3 2
      else if a == 9
      then node 8 0 3 3
      else node 0 0 0 0;
  queues = λ k.
      if k == 1
      then record { first = 12; last = 13; nitems = pos 2 }
      else if k == 3
      then record { first = 7; last = 9; nitems = pos 3 }
      else record { first = 0; last = 0; nitems = pos 0 };
}

abbrev crowd_view : View
crowd_view k = if k == 1 then 12 ∷ 13 ∷ [] else if k == 3 then 7 ∷ 8 ∷ 9 ∷ [] else []

crowd_pool : IsQueue crowd_store 1 (12 ∷ 13 ∷ [])
crowd_pool = record {
  first = refl;
  last = refl;
  nitems = refl;
  chain = (
    record { not_null = omega arith; prev = refl; next = refl; queue = refl },
    (record { not_null = omega arith; prev = refl; next = refl; queue = refl }, tt),
  );
  distinct = (refl, (refl, tt));
}

crowd_run : IsQueue crowd_store 3 (7 ∷ 8 ∷ 9 ∷ [])
crowd_run = record {
  first = refl;
  last = refl;
  nitems = refl;
  chain = (
    record { not_null = omega arith; prev = refl; next = refl; queue = refl },
    (
      record { not_null = omega arith; prev = refl; next = refl; queue = refl },
      (record { not_null = omega arith; prev = refl; next = refl; queue = refl }, tt),
    ),
  );
  distinct = (refl, (refl, (refl, tt)));
}

crowd-Holds : Holds crowd_store crowd_view
crowd-Holds k ne = elim (Bool-cases (k == 1)) [
  | inl same ↦
      subst (λ (j : Ptr). IsQueue crowd_store j (crowd_view j)) (sym ((==_iff k 1).0 same))
        crowd_pool
  | inr a ↦ elim (Bool-cases (k == 3)) [
    | inl same ↦
        subst (λ (j : Ptr). IsQueue crowd_store j (crowd_view j)) (sym ((==_iff k 3).0 same))
          crowd_run
    | inr b ↦ rw (a, b) (empty-IsQueue crowd_store k (rw (a, b) refl))
  ]
]

abbrev crowd : Kernel
crowd = record world { store = crowd_store }

abbrev crowded : Machine
crowded = record (machine forty) { kernel = crowd }

is_exit : trap_of (bit_and 0x800_0300 0xf7ff_ffff) ≡ some exit_process
unfolding trap_of
is_exit = refl

dointerrupt-Exited_example :
    Returns
      (λ e t.
        ((e ≡ done) × Exited crowd crowd_view 1 2 3 [] t.kernel)
        × (t ≡ record crowded { kernel = t.kernel }))
      (dointerrupt platform layout no_programs 9 0x800_0300 0 100 crowded)
dointerrupt-Exited_example =
    dointerrupt-Exited platform layout no_programs 9 0x800_0300 0 100 crowded crowd_view 7 2 3
      (8 ∷ 9 ∷ []) [] (λ e. omega (arith, e)) is_exit (λ e. omega (arith, e)) crowd-Holds refl refl
      refl refl (λ i t lt count table. refl) (omega arith, tt)
