-- ===== src/Queue/Removal.antt =====
-- AQueueAllocLink and AQueueRemove of os/queue.c.
use lab.Prelude.{ℕ, ◌==◌, if◌then◌else◌}
use lab.Run.{Cmd, pure, ◌>>=◌, ◌>>◌, when}
use lab.Queue.Store.{
  Ptr, null, Store, queue_fail, queue_success, free_links, read_link, set_next, set_prev, set_queue,
  set_object, set_first, set_last, drop_item, next_of, prev_of, first_of, last_of, is_empty,
}
use lab.Queue.Insertion.{fix_next, fix_prev, insert_last}

-- The part that `AQueueAllocLink` and `AQueueRemove` share: `l` leaves the ends of the queue `q`
-- and its neighbours are joined.
unfoldable pub drop_ends : Ptr → Ptr → Cmd Store (Unit {0})
unfolding first_of last_of next_of prev_of set_first set_last
drop_ends q l = do
  f ← first_of q
  when (f == l) (next_of l >>= set_first q)
  z ← last_of q
  when (z == l) (prev_of l >>= set_last q)

unfoldable pub join_around : Ptr → Cmd Store (Unit {0})
unfolding fix_prev fix_next next_of prev_of
join_around l = do n ← next_of l; fix_prev l n; p ← prev_of l; fix_next l p

-- `AQueueAllocLink`; NULL when no link is free.
unfoldable pub alloc_link : Ptr → Cmd Store Ptr
alloc_link object = do
  none_free ← is_empty free_links
  if none_free then pure null else do
    l ← first_of free_links
    if l == null then pure null else do
      drop_ends free_links l
      drop_item free_links
      join_around l
      set_next l null
      set_prev l null
      set_queue l null
      set_object l object
      pure l

-- `AQueueRemove (&l)`, where the caller's own pointer is not NULL; the pointer that comes back
-- beside the status is what `*pl` holds afterwards.
unfoldable pub remove : Ptr → Cmd Store (ℕ × Ptr)
unfolding read_link
remove l = if l == null then pure (queue_fail, l) else do
  r ← read_link l
  if r.queue == null then pure (queue_fail, l) else do
    drop_ends r.queue l
    join_around l
    drop_item r.queue
    insert_last free_links l
    pure (queue_success, null)
