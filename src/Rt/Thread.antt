-- ===== src/Rt/Thread.antt =====
-- peli/rt/Thread.cpp, peli/rt/Thread.hpp and peli/rt/ThreadQueue.hpp: threads, the run queues by
-- priority, the dispatcher and the wait queues. A thread or a queue is named by its address. Each
-- function is the body of the method with interrupts off; an access through `nullptr` and a failed
-- assertion are `none`. The register context and the C library's per-thread data are not modelled.
pub mod RunQueue
pub mod Priority
pub mod Dispatch
pub mod Wait
pub mod Sleep
pub mod Life
mod Tests
use libpeli.Base.{
  ℕ, ◌+◌, ◌-◌, ◌*◌, ◌/◌, ◌%◌, ◌^◌, zero, suc, bit_and, bit_or, Bool, true, false, not, ◌&&◌, Option,
  none, some, ◌==◌, ltb, leb, if◌then◌else◌, ◌>>=◌,
}
use libpeli.Util.Address.{physical}
use libpeli.Util.LinkList.{
  nullptr, no_link, no_list, LinkList, Store, update, is_empty, enqueue_tail, dequeue, dequeue_head,
}

pub data State : Type 0 where
  disabled running suspended waiting exited : State

abbrev pub is_running : State → Bool
is_running running = true
is_running _ = false

-- `join_queue` is the address of the member `m_join_queue`.
pub record Thread : Type 0 where
  pub state : State
  pub priority : ℕ
  pub stack_bottom : ℕ
  pub stack_size : ℕ
  pub join_thread : ℕ
  pub join_queue : ℕ
  pub wait_queue : ℕ
  pub result : ℕ

-- The run links, `s_run_queue` and `s_run_queue_mask`.
pub record Ready : Type 0 where
  pub links : Store
  pub queues : ℕ → LinkList
  pub mask : ℕ

-- The part of the low memory globals that debuggers read.
pub record ThreadInfo : Type 0 where
  pub em_current_context : ℕ
  pub rm_current_context : ℕ
  pub current_thread : ℕ
  pub list_head : ℕ
  pub list_tail : ℕ

pub record Kernel : Type 0 where
  pub threads : ℕ → Thread
  pub thread_links : Store
  pub thread_list : LinkList
  pub ready : Ready
  pub wait_links : Store
  pub wait_queues : ℕ → LinkList
  pub current : ℕ
  pub stray_stack : ℕ
  pub stray_stack_size : ℕ
  pub lo_mem : ThreadInfo

abbrev pub set_at {ℓ} : {A : Type ℓ} → ℕ → A → (ℕ → A) → ℕ → A
set_at p x f j = if j == p then x else f j

abbrev pub set_thread : ℕ → Thread → Kernel → Kernel
set_thread t v k = record k { threads = set_at t v k.threads }

-- `1ull << 63 >> priority`
abbrev pub priority_bit : ℕ → ℕ
priority_bit priority = 2 ^ 63 / 2 ^ priority

-- `while ((value & mask) == 0) { ++count; value <<= 1; }` on 64 bits, for at most `fuel` rounds.
pub leading_zeros : ℕ → ℕ → ℕ
leading_zeros zero value = 0
leading_zeros (suc fuel) value =
    let rest = leading_zeros fuel (value * 2 % 2 ^ 64) in if leb (2 ^ 63) value then 0 else suc rest

abbrev pub count_leading_zero : ℕ → ℕ
count_leading_zero value = leading_zeros 64 value

-- `s_run_queue_mask &= ~priorityBit(priority)` where the queue is empty.
abbrev pub clear_if_empty : ℕ → LinkList → ℕ → ℕ
clear_if_empty priority l mask =
    if l.head == nullptr then bit_and mask (2 ^ 64 - 1 - priority_bit priority) else mask

pub enqueue_run_tail : ℕ → ℕ → Ready → Option Ready
enqueue_run_tail t priority r = do
  (s, l) ← enqueue_tail t r.links (r.queues priority)
  some (record {
    links = s;
    queues = set_at priority l r.queues;
    mask = bit_or r.mask (priority_bit priority);
  })

pub dequeue_run : ℕ → ℕ → Ready → Option Ready
dequeue_run t priority r = do
  (s, l) ← dequeue t r.links (r.queues priority)
  some (record {
    links = s;
    queues = set_at priority l r.queues;
    mask = clear_if_empty priority l r.mask;
  })

-- The first thread of the queue, as `dispatchAny` takes it.
pub take_next : ℕ → Ready → Option (ℕ × Ready)
take_next priority r = do
  (next, s, l) ← dequeue_head r.links (r.queues priority)
  let taken : Ready = record {
    links = s;
    queues = set_at priority l r.queues;
    mask = clear_if_empty priority l r.mask;
  }
  (if next == nullptr then none else some (next, taken))

abbrev pub update_lo_mem : Kernel → Kernel
update_lo_mem k = record k {
  lo_mem = record k.lo_mem {
    current_thread = k.current;
    list_head = k.thread_list.head;
    list_tail = k.thread_list.tail;
  };
}

-- Up to the switch of contexts.
abbrev pub dispatch : ℕ → Kernel → Kernel
dispatch t k = update_lo_mem (record k { current = t })

-- Back from the switch: `host::Free` takes a stack that was left over.
abbrev pub free_stray : Kernel → Kernel
free_stray k =
    let has_none = k.stray_stack_size == 0 in
    record k {
      stray_stack = if has_none then k.stray_stack else nullptr;
      stray_stack_size = if has_none then k.stray_stack_size else 0;
    }

-- `dispatchAny` returns to the current thread, switches, or idles with interrupts on. Once an
-- interrupt has ended the idling, its loop goes on as from the start.
pub data Dispatched : Type 0 where
  returned switched idle : Kernel → Dispatched

abbrev pub current_runs : Kernel → Bool
current_runs k = not (k.current == nullptr) && is_running (k.threads k.current).state

pub switch_to : ℕ → Kernel → Option Dispatched
switch_to priority k = do
  (next, r) ← take_next priority k.ready
  some (switched (dispatch next (record k { ready = r })))

-- The part of `dispatchAny` below the loop.
pub pick_next : Bool → Kernel → Option Dispatched
unfolding switch_to
pick_next yield k =
    let priority = count_leading_zero k.ready.mask in
    let own = (k.threads k.current).priority in
    if current_runs k
    then if not yield && ltb own priority then some (returned k) else (do
      r ← enqueue_run_tail k.current own k.ready
      switch_to priority (record k { ready = r }))
    else switch_to priority k

pub dispatch_any : Kernel → Option Dispatched
unfolding pick_next
dispatch_any k =
    let yield = current_runs k in
    if k.ready.mask == 0
    then if yield then some (returned k) else some (idle k)
    else pick_next yield k

pub yield : Kernel → Option Dispatched
unfolding dispatch_any
yield k = if k.current == nullptr then some (returned k) else dispatch_any k

pub run : ℕ → Kernel → Option Kernel
run t k = do
  let v = k.threads t
  r ← enqueue_run_tail t v.priority k.ready
  some (set_thread t (record v { state = running }) (record k { ready = r }))

-- `Sleep(queue)`; without a queue the thread is on none.
pub sleep : ℕ → Kernel → Option Dispatched
unfolding dispatch_any
sleep queue k =
    if k.current == nullptr
    then some (returned k)
    else (let t = k.current in
        let v = record (k.threads t) { state = waiting } in
        if queue == nullptr then dispatch_any (set_thread t v k) else (do
          (s, l) ← enqueue_tail t k.wait_links (k.wait_queues queue)
          dispatch_any (
              set_thread t (record v { wait_queue = queue })
                (record k { wait_links = s; wait_queues = set_at queue l k.wait_queues }))))

abbrev pub is_waiting : State → Bool
is_waiting waiting = true
is_waiting _ = false

pub wakeup : ℕ → Kernel → Option Kernel
wakeup t k =
    let v = k.threads t in
    if is_waiting v.state
    then if v.wait_queue == nullptr then none else (do
      (s, l) ← dequeue t k.wait_links (k.wait_queues v.wait_queue)
      run t (
          set_thread t (record v { wait_queue = nullptr })
            (record k { wait_links = s; wait_queues = set_at v.wait_queue l k.wait_queues })))
    else some k

-- The loop of `WakeupAll` from `thread`, for at most `fuel` threads.
pub wakeup_from : ℕ → ℕ → Kernel → Option Kernel
unfolding run
wakeup_from zero t k = none
wakeup_from (suc fuel) t k =
    if t == nullptr
    then some k
    else (let next = (k.wait_links t).next in
        do
          k ← run t (
              set_thread t (record (k.threads t) { wait_queue = nullptr })
                (record k { wait_links = update k.wait_links t no_link }))
          wakeup_from fuel next k)

pub wakeup_all : ℕ → ℕ → Kernel → Option Kernel
wakeup_all fuel queue k = do
  k ← wakeup_from fuel (k.wait_queues queue).head k
  some (record k { wait_queues = set_at queue no_list k.wait_queues })
