-- ===== src/Queue/Insertion.antt =====
-- AQueueInsertAfter, AQueueInsertBefore, AQueueInsertFirst and AQueueInsertLast of os/queue.c.
use lab.Prelude.{ℕ, Bool, not, ◌&&◌, ◌==◌, if◌then◌else◌}
use lab.Prelude.Int.{pos, eqb_ℤ}
use lab.Run.{Cmd, pure, ◌>>=◌, ◌>>◌, when}
use lab.Queue.Store.{
  Ptr, null, Store, queue_fail, queue_success, read_link, read_queue, write_queue, set_next,
  set_prev, set_queue, set_first, set_last, add_items, next_of, prev_of, first_of, last_of,
}

-- The test that opens `AQueueInsertAfter` and `AQueueInsertBefore`: a link to stand beside must be
-- on the queue, and NULL stands for an empty queue.
unfoldable pub is_anchor : Ptr → Ptr → Cmd Store Bool
unfolding read_link read_queue
is_anchor q anchor =
    if anchor == null
    then (do
      r ← read_queue q
      pure ((r.first == null) && (r.last == null) && eqb_ℤ r.nitems (pos 0)))
    else (do r ← read_link anchor; pure (r.queue == q))

-- `l->next->prev = p`, where `l->next` is not NULL.
unfoldable pub fix_next : Ptr → Ptr → Cmd Store (Unit {0})
unfolding read_link set_prev
fix_next l p = do r ← read_link l; when (not (r.next == null)) (set_prev r.next p)

-- `l->prev->next = n`, where `l->prev` is not NULL.
unfoldable pub fix_prev : Ptr → Ptr → Cmd Store (Unit {0})
unfolding read_link set_next
fix_prev l n = do r ← read_link l; when (not (r.prev == null)) (set_next r.prev n)

-- The queue of the single link `l`.
unfoldable pub only_item : Ptr → Ptr → Cmd Store (Unit {0})
unfolding write_queue
only_item q l = write_queue q (λ r. record { first = l; last = l; nitems = pos 1 })

unfoldable pub link_after : Ptr → Ptr → Ptr → Cmd Store ℕ
unfolding next_of read_queue set_queue set_prev set_next fix_next only_item set_last add_items
link_after q after l = do
  set_queue l q
  set_prev l after
  n ← if after == null then pure null else next_of after
  set_next l n
  when (not (after == null)) (set_next after l)
  fix_next l l
  if after == null
      then only_item q l
      else (do r ← read_queue q; when (r.last == after) (set_last q l); add_items q)
  pure queue_success

-- `AQueueInsertAfter`
unfoldable pub insert_after : Ptr → Ptr → Ptr → Cmd Store ℕ
insert_after q after l =
    if l == null
    then pure queue_fail
    else if q == null
    then pure queue_fail
    else do fits ← is_anchor q after; if fits then link_after q after l else pure queue_fail

unfoldable pub link_before : Ptr → Ptr → Ptr → Cmd Store ℕ
unfolding prev_of read_queue set_queue set_prev set_next fix_prev only_item set_first add_items
link_before q before l = do
  set_queue l q
  set_next l before
  p ← if before == null then pure null else prev_of before
  set_prev l p
  when (not (before == null)) (set_prev before l)
  fix_prev l l
  if before == null
      then only_item q l
      else (do r ← read_queue q; when (r.first == before) (set_first q l); add_items q)
  pure queue_success

-- `AQueueInsertBefore`
unfoldable pub insert_before : Ptr → Ptr → Ptr → Cmd Store ℕ
insert_before q before l =
    if l == null
    then pure queue_fail
    else if q == null
    then pure queue_fail
    else do fits ← is_anchor q before; if fits then link_before q before l else pure queue_fail

-- `AQueueInsertFirst`
unfoldable pub insert_first : Ptr → Ptr → Cmd Store ℕ
insert_first q l =
    if l == null
    then pure queue_fail
    else if q == null
    then pure queue_fail
    else do f ← first_of q; insert_before q f l

-- `AQueueInsertLast`
unfoldable pub insert_last : Ptr → Ptr → Cmd Store ℕ
insert_last q l =
    if l == null
    then pure queue_fail
    else if q == null
    then pure queue_fail
    else do z ← last_of q; insert_after q z l
