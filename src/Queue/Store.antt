-- ===== src/Queue/Store.antt =====
-- The data of include/os/queue.h and the access functions of os/queue.c. Links and queues live in a
-- store, under the addresses by which the C code points to them; 0 is NULL.
use lab.Prelude.{ℕ, Bool, ◌==◌, if◌then◌else◌}
use lab.Prelude.Int.{ℤ, pos, ◌+ℤ◌, ◌-ℤ◌, eqb_ℤ}
use lab.Run.{Cmd, ok, fault, pure, ◌>>=◌, ◌>>◌}

abbrev pub Ptr : Type 0
Ptr = ℕ

abbrev pub null : Ptr
null = 0

pub record Link : Type 0 where
  pub next : Ptr
  pub prev : Ptr
  pub queue : Ptr
  pub object : Ptr

pub record Queue : Type 0 where
  pub first : Ptr
  pub last : Ptr
  pub nitems : ℤ

pub record Store : Type 0 where
  pub links : Ptr → Link
  pub queues : Ptr → Queue

abbrev pub queue_fail : ℕ
queue_fail = 0

abbrev pub queue_success : ℕ
queue_success = 1

-- `freeLinks`
abbrev pub free_links : Ptr
free_links = 1

abbrev pub queue_max_links : ℕ
queue_max_links = 400

-- An array cell or struct that is given a new value.
unfoldable pub update {ℓ} : {A : Type ℓ} → (Ptr → A) → Ptr → A → Ptr → A
update f p v a = if a == p then v else f a

unfoldable pub read_link : Ptr → Cmd Store Link
read_link p s = if p == null then fault else ok (s.links p) s

unfoldable pub write_link : Ptr → (Link → Link) → Cmd Store (Unit {0})
write_link p f s =
    if p == null then fault else ok tt (record s { links = update s.links p (f (s.links p)) })

unfoldable pub read_queue : Ptr → Cmd Store Queue
read_queue q s = if q == null then fault else ok (s.queues q) s

unfoldable pub write_queue : Ptr → (Queue → Queue) → Cmd Store (Unit {0})
write_queue q f s =
    if q == null then fault else ok tt (record s { queues = update s.queues q (f (s.queues q)) })

unfoldable pub set_next : Ptr → Ptr → Cmd Store (Unit {0})
unfolding write_link
set_next l v = write_link l (λ r. record r { next = v })

unfoldable pub set_prev : Ptr → Ptr → Cmd Store (Unit {0})
unfolding write_link
set_prev l v = write_link l (λ r. record r { prev = v })

unfoldable pub set_queue : Ptr → Ptr → Cmd Store (Unit {0})
unfolding write_link
set_queue l v = write_link l (λ r. record r { queue = v })

unfoldable pub set_object : Ptr → Ptr → Cmd Store (Unit {0})
unfolding write_link
set_object l v = write_link l (λ r. record r { object = v })

unfoldable pub set_first : Ptr → Ptr → Cmd Store (Unit {0})
unfolding write_queue
set_first q v = write_queue q (λ r. record r { first = v })

unfoldable pub set_last : Ptr → Ptr → Cmd Store (Unit {0})
unfolding write_queue
set_last q v = write_queue q (λ r. record r { last = v })

unfoldable pub add_items : Ptr → Cmd Store (Unit {0})
unfolding write_queue
add_items q = write_queue q (λ r. record r { nitems = r.nitems +ℤ pos 1 })

unfoldable pub drop_item : Ptr → Cmd Store (Unit {0})
unfolding write_queue
drop_item q = write_queue q (λ r. record r { nitems = r.nitems -ℤ pos 1 })

-- The access functions, `AQueueNext` to `AQueueEmpty`.
unfoldable pub next_of : Ptr → Cmd Store Ptr
unfolding read_link
next_of l = do r ← read_link l; pure r.next

unfoldable pub prev_of : Ptr → Cmd Store Ptr
unfolding read_link
prev_of l = do r ← read_link l; pure r.prev

unfoldable pub object_of : Ptr → Cmd Store Ptr
unfolding read_link
object_of l = do r ← read_link l; pure r.object

unfoldable pub first_of : Ptr → Cmd Store Ptr
unfolding read_queue
first_of q = do r ← read_queue q; pure r.first

unfoldable pub last_of : Ptr → Cmd Store Ptr
unfolding read_queue
last_of q = do r ← read_queue q; pure r.last

unfoldable pub length_of : Ptr → Cmd Store ℤ
unfolding read_queue
length_of q = do r ← read_queue q; pure r.nitems

unfoldable pub is_empty : Ptr → Cmd Store Bool
unfolding length_of
is_empty q = do n ← length_of q; pure (eqb_ℤ n (pos 0))

-- `AQueueInit`
unfoldable pub init_queue : Ptr → Cmd Store ℕ
unfolding write_queue
init_queue q = if q == null then pure queue_fail else do
  write_queue q (λ r. record { first = null; last = null; nitems = pos 0 })
  pure queue_success
