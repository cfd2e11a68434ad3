-- ===== src/Queue/Moving.antt =====
-- AQueueMoveAfter and AQueueModuleInit of os/queue.c.
use lab.Prelude.{ℕ, zero, suc, ◌+◌, not, ◌==◌, if◌then◌else◌}
use lab.Prelude.Int.{pos, eqb_ℤ}
use lab.Run.{Cmd, pure, exitsim, ◌>>=◌, ◌>>◌, when}
use lab.Queue.Store.{
  Ptr, null, Store, queue_fail, queue_success, free_links, queue_max_links, read_link, set_next,
  set_prev, set_object, set_first, set_last, next_of, prev_of, first_of, last_of, length_of,
  init_queue,
}
use lab.Queue.Insertion.{fix_next, fix_prev, insert_last}

unfoldable pub move_links : Ptr → Ptr → Ptr → Cmd Store ℕ
unfolding first_of last_of next_of prev_of set_first set_last fix_next fix_prev set_prev set_next
move_links q after l = do
  z ← last_of q
  if z == l then pure queue_fail else do
    f ← first_of q
    when (f == l) (next_of l >>= set_first q)
    z' ← last_of q
    when (z' == after) (set_last q l)
    p ← prev_of l
    fix_next l p
    n ← next_of l
    fix_prev l n
    set_prev l after
    m ← next_of after
    set_next l m
    set_next after l
    fix_next l l
    pure queue_success

-- `AQueueMoveAfter` with `after == NULL`.
unfoldable pub check_single : Ptr → Cmd Store ℕ
unfolding first_of last_of length_of
check_single q = do
  n ← length_of q
  if not (eqb_ℤ n (pos 1)) then pure queue_fail else do
    f ← first_of q
    z ← last_of q
    if not (f == z) then pure queue_fail else pure queue_success

-- `AQueueMoveAfter`
unfoldable pub move_after : Ptr → Ptr → Ptr → Cmd Store ℕ
unfolding read_link
move_after q after l =
    if q == null then pure queue_fail else if l == null then pure queue_fail else do
      r ← read_link l
      if not (r.queue == q) then pure queue_fail else if after == null then check_single q else (do
        a ← read_link after
        if not (a.queue == q)
            then pure queue_fail
            else if after == l
            then pure queue_success
            else move_links q after l)

-- The loop of `AQueueModuleInit`: `rounds` links from the address `l` on join `freeLinks`.
unfoldable pub init_links : ℕ → Ptr → Cmd Store ℕ
unfolding set_next set_prev set_object
init_links zero l = pure queue_success
init_links (suc rounds) l = do
  set_next l null
  set_prev l null
  set_object l null
  status ← insert_last free_links l
  if not (status == queue_success) then exitsim else init_links rounds (l + 1)

-- `AQueueModuleInit`; `linkpool[i]` has the address `i + 1`.
unfoldable pub init_module : Cmd Store ℕ
init_module = do
  status ← init_queue free_links
  if not (status == queue_success) then exitsim else init_links queue_max_links 1
