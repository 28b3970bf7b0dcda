-- ===== src/Util/LinkList.antt =====
-- peli/util/List.hpp: an intrusive doubly linked list over one `Link` member of the objects. An
-- object is named by its address, `nullptr` is 0, and the store holds the member of every object.
-- An access through `nullptr` faults (`none`).
pub mod Chain
pub mod Enqueue
pub mod Dequeue
pub mod Unlink
mod Tests
use libpeli.Base.{ℕ, Bool, Option, none, some, ◌==◌, if◌then◌else◌, ◌>>=◌}

abbrev pub nullptr : ℕ
nullptr = 0

pub record Link : Type 0 where
  pub next : ℕ
  pub prev : ℕ

pub record LinkList : Type 0 where
  pub head : ℕ
  pub tail : ℕ

abbrev pub Store : Type 0
Store = ℕ → Link

abbrev pub no_link : Link
no_link = record { next = nullptr; prev = nullptr }

abbrev pub no_list : LinkList
no_list = record { head = nullptr; tail = nullptr }

unfoldable pub update : Store → ℕ → Link → Store
update s p v a = if a == p then v else s a

pub read : ℕ → Store → Option Link
read p s = if p == nullptr then none else some (s p)

pub write : ℕ → Link → Store → Option Store
write p v s = if p == nullptr then none else some (update s p v)

pub write_next : ℕ → ℕ → Store → Option Store
unfolding write
write_next p q s = write p (record (s p) { next = q }) s

pub write_prev : ℕ → ℕ → Store → Option Store
unfolding write
write_prev p q s = write p (record (s p) { prev = q }) s

pub is_empty : LinkList → Bool
is_empty l = l.head == nullptr

abbrev pub Result : Type 0
Result = Option (Store × LinkList)

only_element : ℕ → Store → Result
only_element thread s = do
  s ← write thread no_link s
  some (s, record { head = thread; tail = thread })

prepend : ℕ → Store → LinkList → Result
prepend thread s l = do
  s ← write_prev l.head thread s
  s ← write_next thread l.head s
  s ← write_prev thread nullptr s
  some (s, record l { head = thread })

append : ℕ → Store → LinkList → Result
append thread s l = do
  s ← write_next l.tail thread s
  s ← write_prev thread l.tail s
  s ← write_next thread nullptr s
  some (s, record l { tail = thread })

pub enqueue_head : ℕ → Store → LinkList → Result
unfolding only_element prepend
enqueue_head thread s l = if l.head == nullptr then only_element thread s else prepend thread s l

pub enqueue_tail : ℕ → Store → LinkList → Result
unfolding only_element append
enqueue_tail thread s l = if l.head == nullptr then only_element thread s else append thread s l

-- The new head has no predecessor; with no new head the list is empty.
pub drop_head : ℕ → Store → LinkList → Result
drop_head head s l =
    if head == nullptr
    then some (s, no_list)
    else (do s ← write_prev head nullptr s; some (s, record l { head = head }))

pub drop_tail : ℕ → Store → LinkList → Result
drop_tail tail s l =
    if tail == nullptr
    then some (s, no_list)
    else (do s ← write_next tail nullptr s; some (s, record l { tail = tail }))

-- The branch of `Dequeue` for an object that is not the head, as it is written: the second test
-- writes to the predecessor again.
pub unlink : ℕ → Store → LinkList → Result
unlink thread s l = do
  link ← read thread s
  s ← if link.prev == nullptr then some s else write_next link.prev link.next s
  link ← read thread s
  s ← if link.next == nullptr then some s else write_prev link.prev link.prev s
  some (s, l)

pub dequeue : ℕ → Store → LinkList → Result
unfolding drop_head unlink
dequeue thread s l =
    if l.head == thread
    then (do link ← read thread s; drop_head link.next s l)
    else unlink thread s l

pub dequeue_head : Store → LinkList → Option (ℕ × Store × LinkList)
unfolding drop_head
dequeue_head s l =
    if l.head == nullptr
    then some (nullptr, s, l)
    else (do link ← read l.head s; (s, l') ← drop_head link.next s l; some (l.head, s, l'))

pub dequeue_tail : Store → LinkList → Option (ℕ × Store × LinkList)
unfolding drop_tail
dequeue_tail s l =
    if l.tail == nullptr
    then some (nullptr, s, l)
    else (do link ← read l.tail s; (s, l') ← drop_tail link.prev s l; some (l.tail, s, l'))
