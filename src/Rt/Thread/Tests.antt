-- ===== src/Rt/Thread/Tests.antt =====
-- A kernel with a current thread, one ready thread and two that wait, and the theorems at it.
use libpeli.Rt.Thread.{
  enqueue_run_tail, Kernel, Thread, Ready, running, waiting, returned, set_at, dispatch_any,
  wakeup_all,
}
use libpeli.Base.{
  ℕ, ◌-◌, ◌<◌, ◌≡◌, ◌≢◌, ◌⊎◌, ◌||◌, false, ◌==◌, List, [], ◌∷◌, some, arith, refl, if◌then◌else◌,
}
use libpeli.Base.Bits.{bit-zero}
use libpeli.Util.LinkList.{no_link, no_list, update}
use libpeli.Util.LinkList.Chain.{Holds, has}
use libpeli.Rt.Thread.RunQueue.{RunQueues, enqueue_run_tail-RunQueues, false_ne_true}
use libpeli.Rt.Thread.Dispatch.{IsScheduled, Stays, Switches, priority_of, dispatch_any_lem}
use libpeli.Rt.Thread.Wait.{IsReady, AreOff, WokeAll, woken, wakeup_all-WokeAll}
use libpeli.Rt.Thread.Life.{Creation, exit, destroy, Destroyed, destroy-Destroyed}
use libpeli.Rt.Thread.Life.End.{exiting, exit-WokeAll}

-- Threads 16 and 24 wait on the queue at 500; the others run, 8 with a lower priority.
abbrev thread_at : ℕ → Thread
thread_at t =
    let waits = (t == 16) || (t == 24) in
    record {
      state = if waits then waiting else running;
      priority = if t == 8 then 20 else 16;
      stack_bottom = 0x80010000;
      stack_size = 0x1000;
      join_thread = 0;
      join_queue = 500;
      wait_queue = if waits then 500 else 0;
      result = 0;
    }

abbrev prio : ℕ → ℕ
prio t = (thread_at t).priority

abbrev no_ready : Ready
no_ready = record { links = λ _. no_link; queues = λ _. no_list; mask = 0 }

no_ready-RunQueues : RunQueues prio no_ready (λ _. [])
no_ready-RunQueues = record {
  holds = λ p _. record { chain = refl; last_is_tail = refl };
  mask_small = omega arith;
  mask_bits = λ p _. bit-zero (63 - p);
  apart = λ a p q _ _ _ _. refl;
  priorities = λ a p _ i. absurd (false_ne_true i);
}

one_queued :
    (r : Ready) × (enqueue_run_tail 8 20 no_ready ≡ some r)
    × RunQueues prio r (set_at 20 (8 ∷ []) (λ _. []))
one_queued =
    enqueue_run_tail-RunQueues prio no_ready (λ _. []) no_ready-RunQueues 20 (omega arith) 8
      (record { not_null = ground arith; nowhere = λ q _. refl; of_priority = refl })

abbrev one_ready : ℕ → List ℕ
one_ready = set_at 20 (8 ∷ []) (λ _. [])

abbrev kernel : Kernel
kernel = record {
  threads = thread_at;
  thread_links = λ _. no_link;
  thread_list = record { head = 8; tail = 8 };
  ready = one_queued.0;
  wait_links =
      update (update (λ _. no_link) 16 (record { next = 24; prev = 0 })) 24
        (record { next = 0; prev = 16 });
  wait_queues = set_at 500 (record { head = 16; tail = 24 }) (λ _. no_list);
  current = 100;
  stray_stack = 0;
  stray_stack_size = 0;
  lo_mem = record {
    em_current_context = 100;
    rm_current_context = 100;
    current_thread = 100;
    list_head = 8;
    list_tail = 8;
  };
}

not_ready : (a : ℕ) → a ≢ 8 → (q : ℕ) → q < 64 → has a (one_ready q) ≡ false
not_ready a n q q_in = ground arith

kernel-IsReady : IsReady (priority_of kernel) kernel one_ready
kernel-IsReady = record { queued = one_queued.2; prio_is = λ a. refl }

waits-Holds : Holds kernel.wait_links (kernel.wait_queues 500) (16 ∷ 24 ∷ [])
unfolding update
waits-Holds = ground arith

waiters_off : AreOff (priority_of kernel) (16 ∷ 24 ∷ []) one_ready
waiters_off a i = (ground arith, not_ready a (ground (arith, i)))

kernel-IsScheduled : IsScheduled kernel one_ready
kernel-IsScheduled = record {
  queued = one_queued.2;
  own_in = omega arith;
  off = λ _ q q_in. not_ready 100 (ground arith) q q_in;
}

dispatch_any_lem_example :
    Stays kernel one_ready (dispatch_any kernel) ⊎ Switches kernel one_ready (dispatch_any kernel)
dispatch_any_lem_example = dispatch_any_lem kernel one_ready kernel-IsScheduled

wakeup_all-WokeAll_example :
    (k' : Kernel) × (wakeup_all 3 500 kernel ≡ some k')
    × WokeAll (priority_of kernel) (16 ∷ 24 ∷ []) 500 kernel k' one_ready
wakeup_all-WokeAll_example =
    wakeup_all-WokeAll (priority_of kernel) 500 (16 ∷ 24 ∷ []) kernel one_ready kernel-IsReady
      waits-Holds waiters_off

exit-WokeAll_example :
    (k' : Kernel) × WokeAll
      (priority_of kernel)
      (16 ∷ 24 ∷ [])
      500
      (exiting 100 7 kernel)
      k'
      one_ready
    × (Stays k' (woken (priority_of kernel) (16 ∷ 24 ∷ []) one_ready) (exit 3 100 7 kernel)
        ⊎ Switches k' (woken (priority_of kernel) (16 ∷ 24 ∷ []) one_ready) (exit 3 100 7 kernel))
exit-WokeAll_example =
    exit-WokeAll 7 (16 ∷ 24 ∷ []) kernel one_ready kernel-IsReady waits-Holds refl (omega arith)
      waiters_off

destroy-Destroyed_example :
    (k' : Kernel) × (destroy 4096 8 kernel ≡ some (returned k')) × Destroyed 8 [] kernel k'
destroy-Destroyed_example = destroy-Destroyed 4096 8 [] kernel (ground arith) refl (ground arith)

abbrev creation : Creation
creation = record {
  stack = 0;
  stack_size = 0;
  priority = 16;
  starts_suspended = false;
  join_queue = 900;
}
