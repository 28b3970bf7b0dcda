-- ===== src/Rt/Thread/Life.antt =====
-- peli/rt/Thread.cpp: how a thread begins and ends. The register context that the constructor fills
-- and the calls of `host::Free` leave no trace in the kernel.
pub mod Begin
pub mod End
use libpeli.Base.{
  ℕ, Bool, true, false, not, ◌&&◌, ◌||◌, ◌==◌, ltb, if◌then◌else◌, ◌>>=◌, Option, some, List, ◌∷◌,
  ◌≡◌, ◌≢◌, arith, refl, ap,
}
use libpeli.Util.Address.{physical}
use libpeli.Util.LinkList.{nullptr, no_link, update, enqueue_tail, dequeue}
use libpeli.Util.LinkList.Chain.{has, Holds, frame, update_ne, ne_of_has}
use libpeli.Util.LinkList.Dequeue.{dequeue-head-Holds}
use libpeli.Rt.Thread.{
  Thread, State, disabled, running, suspended, exited, is_running, Kernel, Dispatched, returned,
  set_at, set_thread, enqueue_run_tail, dequeue_run, dispatch_any, free_stray, update_lo_mem,
  wakeup_all, sleep,
}
use libpeli.Rt.Thread.RunQueue.{set_at_self}

-- What the constructor is given. `alloc` is `host::Alloc`, and `join_queue` the address of the
-- member.
pub record Creation : Type 0 where
  pub stack : ℕ
  pub stack_size : ℕ
  pub priority : ℕ
  pub starts_suspended : Bool
  pub join_queue : ℕ

abbrev pub min_stack_size : ℕ
min_stack_size = 0x1000

-- `m_stack_bottom` and `m_stack_size`.
abbrev pub stack_of : (ℕ → ℕ → ℕ) → Creation → ℕ × ℕ
stack_of alloc c =
    let size = if c.stack_size == 0 then min_stack_size else c.stack_size in
    if not (c.stack == nullptr) && not (c.stack_size == 0)
    then (c.stack, 0)
    else (alloc 32 size, size)

abbrev pub clamp : ℕ → ℕ
clamp priority = if ltb 63 priority then 63 else priority

abbrev pub new_thread : (ℕ → ℕ → ℕ) → Creation → Thread
new_thread alloc c = record {
  state = suspended;
  priority = clamp c.priority;
  stack_bottom = (stack_of alloc c).0;
  stack_size = (stack_of alloc c).1;
  join_thread = nullptr;
  join_queue = c.join_queue;
  wait_queue = nullptr;
  result = nullptr;
}

-- The initialisers of the members for the run queue, the wait queue and the queue of joiners are
-- left out: the memory of a new thread is taken to have them null.
pub create : (ℕ → ℕ → ℕ) → ℕ → Creation → Kernel → Option Kernel
create alloc t c k = do
  let v = new_thread alloc c
  (s, l) ← enqueue_tail t (update k.thread_links t no_link) k.thread_list
  let listed : Kernel = set_thread t v (record k { thread_links = s; thread_list = l })
  (if c.starts_suspended then some listed else (do
    r ← enqueue_run_tail t v.priority k.ready
    some (set_thread t (record v { state = running }) (record listed { ready = r }))))

abbrev pub is_disabled : State → Bool
is_disabled disabled = true
is_disabled _ = false

abbrev pub is_exited : State → Bool
is_exited exited = true
is_exited _ = false

-- The destructor of the current thread, past the thread list: the stack is left for another thread,
-- and `none_context` is the address of `s_none_context`.
pub leave : ℕ → ℕ → Kernel → Option Dispatched
leave none_context t k =
    let cleared = update_lo_mem (record k {
      current = nullptr;
      lo_mem = record k.lo_mem {
        em_current_context = none_context;
        rm_current_context = physical none_context;
      };
    }) in
    let v = k.threads t in
    dispatch_any (
      set_thread t (record v { stack_size = 0 })
        (record cleared { stray_stack = v.stack_bottom; stray_stack_size = v.stack_size }))

pub destroy : ℕ → ℕ → Kernel → Option Dispatched
destroy none_context t k = if is_disabled (k.threads t).state then some (returned k) else (do
  let freed : Kernel = free_stray k
  let stopped : Kernel = set_thread t (record (k.threads t) { state = disabled }) freed
  (s, l) ← dequeue t k.thread_links k.thread_list
  let unlisted : Kernel = record stopped { thread_links = update s t no_link; thread_list = l }
  (if k.current == t
      then leave none_context t unlisted
      else if is_running (unlisted.threads t).state
      then (do
        r ← dequeue_run t (unlisted.threads t).priority unlisted.ready
        some (returned (record unlisted { ready = r })))
      else some (returned unlisted)))

-- `fuel` bounds the threads that wait to join.
pub exit : ℕ → ℕ → ℕ → Kernel → Option Dispatched
exit fuel t result k = do
  let v = k.threads t
  k ← wakeup_all fuel v.join_queue (set_thread t (record v { result = result; state = exited }) k)
  (if k.current == t then dispatch_any k else some (returned k))

-- What `Join` returns, and the kernel when it returns or sleeps. Woken, it returns what
-- `join_result` reads.
unfoldable pub join : ℕ → Kernel → Option (Bool × Dispatched)
join t k =
    let v = k.threads t in
    let own = k.threads k.current in
    if (k.current == nullptr) || (k.current == t)
    then some (false, returned k)
    else if is_disabled v.state
    then some (false, returned k)
    else if is_exited v.state
    then some (true, returned k)
    else (do
      d ← sleep v.join_queue (set_thread k.current (record own { join_thread = t }) k)
      some (true, d))

abbrev pub join_result : ℕ → Kernel → ℕ
join_result t k = (k.threads t).result

-- What the destructor of a thread leaves when it is not the current one.
pub record Destroyed (t : ℕ) (ts : List ℕ) (k k' : Kernel) : Type 0 where
  pub unlisted : Holds k'.thread_links k'.thread_list ts
  pub stopped : (k'.threads t).state ≡ disabled
  pub still_ready : k'.ready ≡ k.ready

-- The destructor of a thread that is not the current one and not disabled, and is the first of a
-- well-formed thread list: it returns with the thread disabled and off the thread list, but the run
-- queues, with the thread where it was on one, are unchanged.
pub destroy-Destroyed :
    (none_context t : ℕ) (ts : List ℕ) (k : Kernel)
    → Holds k.thread_links k.thread_list (t ∷ ts)
    → is_disabled (k.threads t).state ≡ false
    → k.current ≢ t
    → (k' : Kernel) × (destroy none_context t k ≡ some (returned k')) × Destroyed t ts k k'
unfolding destroy
destroy-Destroyed none_context t ts k h alive other =
    let (s', l', e, rest, spares) = dequeue-head-Holds k.thread_links k.thread_list t ts h in
    let v = record (k.threads t) { state = disabled } in
    let not_current : (k.current == t) ≡ false = ground arith in
    let at_t = set_at_self t v k.threads in
    let not_running : is_running (set_at t v k.threads t).state ≡ false = rw at_t in
    let k' =
      set_thread t v
        (record (free_stray k) { thread_links = update s' t no_link; thread_list = l' }) in
    let same : (a : ℕ) → has a ts ≡ true → update s' t no_link a ≡ s' a =
      λ a i. update_ne s' t a no_link (ne_of_has a t ts i h.chain.2) in
    (
      k',
      rw (alive, e, not_current, not_running),
      record {
        unlisted = record {
          chain = frame 0 l'.head ts same rest.chain;
          last_is_tail = rest.last_is_tail;
        };
        stopped = ap (λ w. w.state) at_t;
        still_ready = refl;
      },
    )
