-- ===== src/Rt/Gthread.antt =====
-- peli/rt/GThread.cpp: the threads, mutexes and conditions of the C++ library on those of Rt.Thread
-- and Rt.Mutex. An answer is 0 or -1. What the caller's function returns and what the allocator gives
-- are arguments.
pub mod Join
mod Tests
use libpeli.Base.{ℕ, ◌-◌, ◌^◌, Bool, true, false, Option, none, some, ◌>>=◌, ◌==◌, if◌then◌else◌}
use libpeli.Util.LinkList.{nullptr}
use libpeli.Rt.Thread.{Kernel, Dispatched, returned, switched, idle, set_at, yield}
use libpeli.Rt.Thread.Life.{create, destroy, exit, join}
use libpeli.Rt.Mutex.{Mutex, lock, unlock, try_lock, wait, signal, broadcast}

-- -1
abbrev pub refused : ℕ
refused = 2 ^ 32 - 1

pub record Args : Type 0 where
  pub thread : ℕ
  pub func : ℕ
  pub arg : ℕ

-- The kernel, `m_detached` of each thread and the arguments by their address.
pub record Gthreads : Type 0 where
  pub kernel : Kernel
  pub detached : ℕ → Bool
  pub args : ℕ → Args

-- `__gthread_create`, where `new` gives `thread` and `args` and the queue of the joining threads is
-- at `join_queue`. The caller gets the thread too.
pub gthread_create : (ℕ → ℕ → ℕ) → ℕ → ℕ → ℕ → ℕ → ℕ → Gthreads → Option (ℕ × ℕ × Gthreads)
gthread_create alloc join_queue thread args func arg g =
    if thread == nullptr then some (refused, nullptr, g) else (do
      k ←
          create alloc thread
            (record {
              stack = nullptr;
              stack_size = 0;
              priority = 16;
              starts_suspended = false;
              join_queue = join_queue;
            })
            g.kernel
      some (
        0,
        thread,
        record {
          kernel = k;
          detached = set_at thread false g.detached;
          args = set_at args (record { thread = thread; func = func; arg = arg }) g.args;
        },
      ))

-- `entry` after the function has returned `value`.
pub finish_entry : ℕ → ℕ → ℕ → ℕ → Gthreads → Option Dispatched
finish_entry none_context fuel args value g =
    let thread = (g.args args).thread in
    if g.detached thread
    then destroy none_context thread g.kernel
    else exit fuel thread value g.kernel

-- `BaseFromId`
abbrev pub base_from_id : ℕ → Kernel → ℕ
base_from_id id k = if id == nullptr then k.current else id

-- An answer, or a sleep in `Join`; woken, the call goes on with `finish_join`.
pub data Joining : Type 0 where
  answered : ℕ → Dispatched → Joining
  joining : Dispatched → Joining

-- `delete thread; return 0`
pub finish_join : ℕ → ℕ → Kernel → Option Joining
finish_join none_context thread k = do d ← destroy none_context thread k; some (answered 0 d)

pub joined : ℕ → ℕ → Bool × Dispatched → Option Joining
unfolding finish_join
joined none_context thread (false, d) = some (answered refused d)
joined none_context thread (true, returned k) = finish_join none_context thread k
joined none_context thread (true, switched k) = some (joining (switched k))
joined none_context thread (true, idle k) = some (joining (idle k))

pub gthread_join : ℕ → ℕ → Kernel → Option Joining
unfolding joined
gthread_join none_context id k =
    let thread = base_from_id id k in
    if thread == nullptr
    then some (answered refused (returned k))
    else (do j ← join thread k; joined none_context thread j)

pub gthread_detach : ℕ → Gthreads → ℕ × Gthreads
gthread_detach id g =
    if id == nullptr then (refused, g) else (0, record g { detached = set_at id true g.detached })

abbrev pub gthread_equal : ℕ → ℕ → Bool
gthread_equal id other = id == other

-- The null pointer stands for the current thread.
abbrev pub gthread_self : ℕ
gthread_self = nullptr

abbrev pub gthread_yield : Kernel → Option (ℕ × Dispatched)
gthread_yield k = do d ← yield k; some (0, d)

abbrev pub mutex_lock : Mutex → Kernel → Option (Mutex × Dispatched)
mutex_lock m k = lock m k

abbrev pub mutex_unlock : Mutex → Kernel → Option (ℕ × Mutex × Kernel)
mutex_unlock m k = do (m, k) ← unlock m k; some (0, m, k)

abbrev pub trylock_answer : Bool × Mutex → ℕ × Mutex
trylock_answer (true, m) = (0, m)
trylock_answer (false, m) = (refused, m)

abbrev pub mutex_trylock : ℕ → Mutex → ℕ × Mutex
mutex_trylock current m = trylock_answer (try_lock current m)

abbrev pub cond_wait : ℕ → Mutex → Kernel → Option (Mutex × Dispatched)
cond_wait queue m k = wait queue m k

abbrev pub cond_signal : ℕ → Kernel → Option (ℕ × Kernel)
cond_signal queue k = do k ← signal queue k; some (0, k)

abbrev pub cond_broadcast : ℕ → ℕ → Kernel → Option (ℕ × Kernel)
cond_broadcast fuel queue k = do k ← broadcast fuel queue k; some (0, k)
