-- ===== src/Buffer/Ring.antt =====
-- The circular buffer of apps/q2, and what producer.c and consumer.c do to it while they hold its lock.
use lab.Prelude.{ℕ, ◌+◌, ◌%◌, Bool, true, false, ◌==◌, if◌then◌else◌}
use lab.Queue.Store.{update}

-- BUFFER_SIZE
abbrev pub buffer_size : ℕ
buffer_size = 32

-- `shared_buffer`, without the number of processes and the handle of the lock.
pub record Ring : Type 0 where
  pub w_idx : ℕ
  pub r_idx : ℕ
  pub buffer : ℕ → ℕ

abbrev pub next_idx : ℕ → ℕ
next_idx i = (i + 1) % buffer_size

-- The critical section of producer.c: whether the product was inserted, and the buffer.
unfoldable pub insert : ℕ → Ring → Bool × Ring
insert product b =
    if next_idx b.w_idx == b.r_idx
    then (false, b)
    else (true, record b { buffer = update b.buffer b.w_idx product; w_idx = next_idx b.w_idx })

-- The critical section of consumer.c: whether the expected item was removed, and the buffer.
unfoldable pub remove_item : ℕ → Ring → Bool × Ring
remove_item expected b =
    if b.w_idx == b.r_idx
    then (false, b)
    else if b.buffer b.r_idx == expected
    then (true, record b { r_idx = next_idx b.r_idx })
    else (false, b)
