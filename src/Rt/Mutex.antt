-- ===== src/Rt/Mutex.antt =====
-- peli/rt/Mutex.cpp, peli/rt/Mutex.hpp and peli/rt/Cond.hpp, on the kernel of Rt.Thread. A method
-- runs with interrupts off; where it sleeps, the rest of its body is a function of its own. A
-- failed assertion is `none`.
pub mod Laws
pub mod Signal
mod Tests
use libpeli.Base.{
  ℕ, ◌+◌, ◌-◌, ◌%◌, ◌^◌, Bool, true, false, not, ◌&&◌, Option, none, some, ◌==◌, ltb, if◌then◌else◌,
  ◌>>=◌,
}
use libpeli.Base.Word.{u16}
use libpeli.Util.LinkList.{nullptr, enqueue_tail}
use libpeli.Rt.Thread.{Kernel, Dispatched, returned, set_at, sleep, wakeup, wakeup_all}

-- `wait_queue` is the address of the member. `RecursiveMutex` is one with `recursive`.
pub record Mutex : Type 0 where
  pub owner_thread : ℕ
  pub wait_queue : ℕ
  pub lock_count : ℕ
  pub recursive : Bool

pub destroy : Mutex → Option (Unit {0})
destroy m = if m.lock_count == 0 then some tt else none

-- The owner's own lock, or a free mutex: `m_lock_count++; m_owner_thread = current`.
abbrev pub count_up : Mutex → Mutex
count_up m = record m { lock_count = u16 (m.lock_count + 1) }

pub own : ℕ → Mutex → Mutex
own current m = record (count_up m) { owner_thread = current }

abbrev pub is_own : ℕ → Mutex → Bool
is_own current m = m.recursive && (m.owner_thread == current)

pub try_lock : ℕ → Mutex → Bool × Mutex
unfolding own
try_lock current m =
    if ltb 0 m.lock_count
    then if is_own current m then (true, count_up m) else (false, m)
    else (true, own current m)

-- `Lock` up to its return or its sleep; woken, it goes on with `own`.
pub lock : Mutex → Kernel → Option (Mutex × Dispatched)
unfolding own
lock m k =
    let current = k.current in
    if ltb 0 m.lock_count
    then if is_own current m
      then some (count_up m, returned k)
      else (do d ← sleep m.wait_queue k; some (m, d))
    else some (own current m, returned k)

-- `ThreadQueue::WakeupOne`
pub wakeup_one : ℕ → Kernel → Option Kernel
wakeup_one queue k =
    let thread = (k.wait_queues queue).head in if thread == nullptr then some k else wakeup thread k

pub unlock : Mutex → Kernel → Option (Mutex × Kernel)
unfolding wakeup_one
unlock m k =
    if ltb 0 m.lock_count
    then (let m' = record m { lock_count = m.lock_count - 1 } in
        if ltb 0 m'.lock_count
        then some (m', k)
        else (do k' ← wakeup_one m.wait_queue k; some (m', k')))
    else none

-- `ThreadQueue::Enqueue`, which sets no thread's `m_wait_queue`.
pub enqueue : ℕ → ℕ → Kernel → Option Kernel
enqueue queue thread k = if thread == nullptr then some k else (do
  (s, l) ← enqueue_tail thread k.wait_links (k.wait_queues queue)
  some (record k { wait_links = s; wait_queues = set_at queue l k.wait_queues }))

abbrev pub is_queued_on : ℕ → Kernel → Bool
is_queued_on queue k = not (k.current == nullptr) && ((k.threads k.current).wait_queue == queue)

-- `Cond::Wait` up to its sleep, or to its return or sleep in `Lock`; woken from the first, it
-- goes on with `lock`.
pub wait : ℕ → Mutex → Kernel → Option (Mutex × Dispatched)
wait queue m k = do
  k ← enqueue queue k.current k
  (m, k) ← unlock m k
  (if is_queued_on queue k then (do d ← sleep nullptr k; some (m, d)) else lock m k)

pub signal : ℕ → Kernel → Option Kernel
signal queue k = wakeup_one queue k

pub broadcast : ℕ → ℕ → Kernel → Option Kernel
broadcast fuel queue k = wakeup_all fuel queue k
