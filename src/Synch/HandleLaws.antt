-- ===== src/Synch/HandleLaws.antt =====
-- The handles of os/synch.c.
use lab.Prelude.{ℕ, ◌≡◌, ◌<◌, ◌↔◌, refl, sym, ap, subst, true, leb, Bool-cases, inl, inr, arith}
use lab.Prelude.Int.{ℤ, pos, negsuc}
use lab.Run.{Cmd, ok}
use lab.Queue.Store.{Ptr}
use lab.Kernel.{Kernel}
use lab.Synch.Handles.{Handle, index, bad, in_table, max_sems, max_locks, sync_fail, returned}
use lab.Synch.Semaphore.{sem_handle_wait, sem_handle_signal}
use lab.Synch.Mutex.{lock_handle_acquire, lock_handle_release}
use lab.Synch.Condition.{cond_handle_wait, cond_handle_signal}

abbrev index_or_zero : Handle → ℕ
index_or_zero (index i) = i
index_or_zero bad = 0

abbrev at_or_zero : ℤ → ℕ
at_or_zero (pos i) = i
at_or_zero (negsuc i) = 0

not_below : (n k : ℕ) → leb n k ≡ true → k < n → ⊥
not_below n k h lt = ground arith

-- The range check of a handle: it lets exactly the numbers from 0 to `n - 1` pass, as they are.
pub in_table-index : (n i : ℕ) (h : ℤ) → ((in_table n h ≡ index i) ↔ ((h ≡ pos i) × (i < n)))
unfolding in_table
in_table-index n i (negsuc k) = ((λ e. ground arith), λ e. ground arith)
in_table-index n i (pos k) = elim (Bool-cases (leb n k)) [
  | inl past ↦ rw past (
    (λ e. ground arith),
    λ (same, lt).
        elim (not_below n k past (subst (λ (x : ℕ). x < n) (ap at_or_zero (sym same)) lt)) [ ],
  )
  | inr inside ↦ rw inside (
    (λ e.
        let same : k ≡ i = ap index_or_zero e in
        (ap pos same, subst (λ (x : ℕ). x < n) same (ground arith))),
    λ (same, lt). ap (λ (x : ℕ). index x) (ap at_or_zero same),
  )
]

-- The calls that wait, signal, acquire and release by a handle refuse one that is out of the range of
-- its table, and change nothing.
pub handles-refused :
    (free_shared_pte : Ptr → ℕ → Cmd Kernel (Unit {0})) (k : Kernel) (s l : ℤ)
    → in_table max_sems s ≡ bad
    → in_table max_locks l ≡ bad
    → (sem_handle_wait free_shared_pte s k ≡ ok (returned sync_fail) k)
      × (sem_handle_signal s k ≡ ok sync_fail k)
      × (lock_handle_acquire free_shared_pte l k ≡ ok (returned sync_fail) k)
      × (lock_handle_release l k ≡ ok sync_fail k)
      × (cond_handle_wait free_shared_pte s k ≡ ok (returned sync_fail) k)
      × (cond_handle_signal free_shared_pte s k ≡ ok (returned sync_fail) k)
unfolding sem_handle_wait sem_handle_signal lock_handle_acquire lock_handle_release cond_handle_wait
    cond_handle_signal
handles-refused free_shared_pte k s l bad_s bad_l = (
  rw (sem_handle_wait, bad_s) refl,
  rw (sem_handle_signal, bad_s) refl,
  rw (lock_handle_acquire, bad_l) refl,
  rw (lock_handle_release, bad_l) refl,
  rw (cond_handle_wait, bad_s) refl,
  rw (cond_handle_signal, bad_s) refl,
)
