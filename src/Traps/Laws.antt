-- ===== src/Traps/Laws.antt =====
-- Traps and interrupts of os/traps.c: bad handles, and the keyboard.
use lab.Prelude.{
  ℕ, zero, suc, ◌+◌, ◌-◌, ◌≤◌, ◌<◌, ◌≡◌, refl, subst, inl, inr, false, Bool-cases, ltb, arith,
}
use lab.Prelude.Int.{ℤ, pos, negsuc}
use lab.Run.{Returns, returns, Returns-mono}
use lab.Queue.Store.{update}
use lab.Kernel.{Kernel}
use lab.Synch.Handles.{max_sems, max_locks}
use lab.Machine.{Machine, Platform, Layout}
use lab.Startup.Fork.{Loader}
use lab.Traps.Dispatch.{
  Trap, sem_wait_trap, sem_signal_trap, lock_acquire_trap, lock_release_trap, cond_wait_trap,
  cond_signal_trap, drain_keyboard,
}

-- The traps that take a handle, with the size of the table in whose range it has to be.
pub data Takes : Trap → ℕ → Type 0 where
  takes_wait : Takes sem_wait_trap max_sems
  takes_signal : Takes sem_signal_trap max_sems
  takes_acquire : Takes lock_acquire_trap max_locks
  takes_release : Takes lock_release_trap max_locks
  takes_cond_wait : Takes cond_wait_trap max_sems
  takes_cond_signal : Takes cond_signal_trap max_sems

-- The handle is negative, or not below the size `n` of its table.
pub data IsOutside (n : ℕ) : ℤ → Type 0 where
  below : (i : ℕ) → IsOutside n (negsuc i)
  past : (i : ℕ) → n ≤ i → IsOutside n (pos i)

-- The kernel where the current process gets the result `v`.
abbrev pub answered : Kernel → ℤ → Kernel
answered k v = record k {
  pcbs = update k.pcbs k.current (record (k.pcbs k.current) { result = v });
}

-- The reads of the keyboard from the state `m` to `t`, `n + 1` at most; the last one was made with at
-- most one character left.
pub record Drained (chars_in : ℕ → ℕ) (m : Machine) (n : ℕ) (t : Machine) : Type 0 where
  pub some_read : m.kbd_reads < t.kbd_reads
  pub at_most : t.kbd_reads ≤ m.kbd_reads + n + 1
  pub low : chars_in (t.kbd_reads - 1) ≤ 1
  pub rest : t ≡ record m { kbd_reads = t.kbd_reads }

low_at : (f : ℕ → ℕ) (x y : ℕ) → x ≡ y → f x ≤ 1 → f y ≤ 1
low_at f x y e low = subst (λ (z : ℕ). f z ≤ 1) e low

module _ (platform : Platform) (layout : Layout) (loader : Loader) (rounds : ℕ) where
  one_read :
      (n : ℕ) (m : Machine)
      → ltb 1 (platform.chars_in m.kbd_reads) ≡ false
      → Drained platform.chars_in m n (record m { kbd_reads = m.kbd_reads + 1 })
  one_read n m low = record {
    some_read = omega arith;
    at_most = omega arith;
    low =
        low_at platform.chars_in m.kbd_reads (m.kbd_reads + 1 - 1) (omega arith)
          (ground (arith, low));
    rest = refl;
  }

  -- The keyboard interrupt reads characters up to the first time that the keyboard reports at most one
  -- of them, and so it ends if that happens after `n` reads and there are more than `n` rounds.
  pub drain_keyboard-Drained :
      (n left : ℕ) (m : Machine)
      → platform.chars_in (m.kbd_reads + n) ≤ 1
      → n < left
      → Returns
          (λ _ t. Drained platform.chars_in m n t)
          (drain_keyboard platform layout loader rounds left m)
  unfolding drain_keyboard
  drain_keyboard-Drained n zero m low enough = absurd (omega (arith, enough))
  drain_keyboard-Drained zero (suc left) m low enough =
      let stop : ltb 1 (platform.chars_in m.kbd_reads) ≡ false =
        ground (arith, low_at platform.chars_in (m.kbd_reads + 0) m.kbd_reads (omega arith) low) in
      rw (drain_keyboard, stop) (returns (one_read 0 m stop))
  drain_keyboard-Drained (suc n) (suc left) m low enough =
      elim (Bool-cases (ltb 1 (platform.chars_in m.kbd_reads))) [
        | inr stop ↦ rw (drain_keyboard, stop) (returns (one_read (suc n) m stop))
        | inl more ↦
            rw (drain_keyboard, more)
              (Returns-mono
                (drain_keyboard-Drained n left (record m { kbd_reads = m.kbd_reads + 1 })
                  (low_at platform.chars_in (m.kbd_reads + suc n) (m.kbd_reads + 1 + n)
                    (omega arith) low)
                  (omega (arith, enough)))
                λ _ t d. record {
                  some_read = omega (arith, d.some_read);
                  at_most = omega (arith, d.at_most);
                  low = d.low;
                  rest = d.rest;
                })
      ]
