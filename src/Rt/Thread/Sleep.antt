-- ===== src/Rt/Thread/Sleep.antt =====
-- One thread sleeps on a wait queue, and `WakeupOne` wakes the first.
use libpeli.Rt.Thread.{
  is_waiting, Thread, Ready, Kernel, running, waiting, set_at, set_thread, current_runs, sleep,
  wakeup, dispatch_any,
}
use mathlib.Core.Path.{subst}
use native.Mathlib.Decide.{ℕ_discrete}
use libpeli.Util.LinkList.{Store, LinkList, enqueue_tail}
use libpeli.Base.{
  Bool, not, ◌&&◌, ℕ, ◌<◌, ◌≡◌, ◌≢◌, ◌⊎◌, sym, ap, ◌∙◌, true, false, ◌==◌, List, [], ◌∷◌, ◌++◌,
  some, arith, refl,
}
use libpeli.Util.LinkList.Chain.{has, Holds}
use libpeli.Util.LinkList.Enqueue.{enqueue_tail-Holds}
use libpeli.Util.LinkList.Dequeue.{dequeue-head-Holds}
use libpeli.Rt.Thread.RunQueue.{false_ne_true, RunQueues, set_at_self, set_at_ne}
use libpeli.Rt.Thread.Dispatch.{IsScheduled, Stays, Switches, priority_of, dispatch_any_lem}
use libpeli.Rt.Thread.Wait.{IsReady, AreOff, run-Ran}

-- The current thread of `k` waits at the end of the queue in `k'`.
pub record Sleeps (k k' : Kernel) (queue : ℕ) (ts : List ℕ) : Type 0 where
  pub queued : Holds k'.wait_links (k'.wait_queues queue) (ts ++ k.current ∷ [])
  pub waits : (k'.threads k.current).state ≡ waiting
  pub knows : (k'.threads k.current).wait_queue ≡ queue
  pub others : (a : ℕ) → a ≢ k.current → k'.threads a ≡ k.threads a
  pub same_ready : k'.ready ≡ k.ready

pub priority_kept :
    (k : Kernel) (t a : ℕ) (v : Thread)
    → v.priority ≡ (k.threads t).priority
    → (set_at t v k.threads a).priority ≡ (k.threads a).priority
priority_kept k t a v e = elim (ℕ_discrete a t) [
  | yes same ↦ rw (same, set_at_self t v k.threads) e
  | no n ↦ rw (set_at_ne t a v k.threads n)
]

pub and_false : (b : Bool) → (b && false) ≡ false
and_false true = refl
and_false false = refl

pub RunQueues-prio :
    (prio prio' : ℕ → ℕ) (r : Ready) (qs : ℕ → List ℕ)
    → ((a : ℕ) → prio a ≡ prio' a)
    → RunQueues prio r qs
    → RunQueues prio' r qs
RunQueues-prio prio prio' r qs same h = record {
  holds = h.holds;
  mask_small = h.mask_small;
  mask_bits = h.mask_bits;
  apart = h.apart;
  priorities = λ a p p_in i. sym (same a) ∙ h.priorities a p p_in i;
}

-- What `Sleep` hands to the dispatcher, once the wait queue is `l` in `s`.
abbrev waiting_on : ℕ → Thread → Thread
waiting_on queue v = record v { state = waiting; wait_queue = queue }

abbrev asleep : ℕ → Store → LinkList → Kernel → Kernel
asleep queue s l k =
    set_thread k.current (waiting_on queue (k.threads k.current))
      (record k { wait_links = s; wait_queues = set_at queue l k.wait_queues })

sleep-asleep :
    (queue : ℕ) (s : Store) (l : LinkList) (k : Kernel)
    → k.current ≢ 0
    → queue ≢ 0
    → enqueue_tail k.current k.wait_links (k.wait_queues queue) ≡ some (s, l)
    → sleep queue k ≡ dispatch_any (asleep queue s l k)
unfolding sleep
sleep-asleep queue s l k alive some_queue e =
    let current_test : (k.current == 0) ≡ false = ground arith in
    let queue_test : (queue == 0) ≡ false = ground arith in rw (current_test, queue_test, e)

-- With well-formed run queues, `Sleep` on a well-formed wait queue that is not null and does not
-- hold the current thread, which exists and has a priority below 64: the thread waits at the end
-- of the queue, no other thread changes, and the dispatcher runs without it, which faults nowhere
-- and idles or switches as it does for any kernel whose current thread does not run.
pub sleep-Sleeps :
    (queue : ℕ) (ts : List ℕ) (k : Kernel) (qs : ℕ → List ℕ)
    → IsReady (priority_of k) k qs
    → k.current ≢ 0
    → queue ≢ 0
    → (k.threads k.current).priority < 64
    → Holds k.wait_links (k.wait_queues queue) ts
    → has k.current ts ≡ false
    → (k' : Kernel) × Sleeps k k' queue ts
      × (Stays k' qs (sleep queue k) ⊎ Switches k' qs (sleep queue k))
sleep-Sleeps queue ts k qs h alive some_queue own_in holds off =
    let t = k.current in
    let (s', l', e, new_holds, spares) =
      enqueue_tail-Holds k.wait_links (k.wait_queues queue) t ts holds alive off in
    let v = waiting_on queue (k.threads t) in
    let k' = asleep queue s' l' k in
    let at_t = set_at_self t v k.threads in
    let stopped : current_runs k' ≡ false = rw at_t (and_false (not (t == 0))) in
    let same : (a : ℕ) → priority_of k a ≡ priority_of k' a =
      λ a. sym (priority_kept k t a v refl) in
    let scheduled : IsScheduled k' qs = record {
      queued = RunQueues-prio (priority_of k) (priority_of k') k.ready qs same h.queued;
      own_in = rw at_t own_in;
      off = λ runs. absurd (false_ne_true (sym stopped ∙ runs));
    } in
    (
      k',
      record {
        queued = rw (set_at_self queue l' k.wait_queues) new_holds;
        waits = ap (λ w. w.state) at_t;
        knows = ap (λ w. w.wait_queue) at_t;
        others = λ a n. set_at_ne t a v k.threads n;
        same_ready = refl;
      },
      subst (λ r. Stays k' qs r ⊎ Switches k' qs r)
          (sym (sleep-asleep queue s' l' k alive some_queue e)) (dispatch_any_lem k' qs scheduled),
    )

pub wakeup_ignored :
    (t : ℕ) (k : Kernel) → is_waiting (k.threads t).state ≡ false → wakeup t k ≡ some k
unfolding wakeup
wakeup_ignored t k e = rw e

-- `Wakeup` of a waiting thread that is the first of its wait queue, a well-formed one that is not
-- null, has a priority below 64, and is on none of the run queues, which are well formed: it
-- faults nowhere, the thread leaves the wait queue, runs, and goes to the end of the run queue of
-- its priority; the run queues stay well formed.
pub wakeup-Ran :
    (prio : ℕ → ℕ) (t : ℕ) (ts : List ℕ) (k : Kernel) (qs : ℕ → List ℕ)
    → IsReady prio k qs
    → (k.threads t).wait_queue ≢ 0
    → Holds k.wait_links (k.wait_queues (k.threads t).wait_queue) (t ∷ ts)
    → AreOff prio (t ∷ []) qs
    → (k.threads t).state ≡ waiting
    → (k' : Kernel) × (wakeup t k ≡ some k')
      × IsReady prio k' (set_at (prio t) (qs (prio t) ++ t ∷ []) qs)
      × Holds k'.wait_links (k'.wait_queues (k.threads t).wait_queue) ts
      × ((k'.threads t).state ≡ running)
      × ((k'.threads t).wait_queue ≡ 0)
unfolding wakeup
wakeup-Ran prio t ts k qs h some_queue holds off waits =
    let queue = (k.threads t).wait_queue in
    let (s', l', e, rest, spares) =
      dequeue-head-Holds k.wait_links (k.wait_queues queue) t ts holds in
    let v = record (k.threads t) { wait_queue = 0 } in
    let k1 =
      set_thread t v (record k { wait_links = s'; wait_queues = set_at queue l' k.wait_queues }) in
    let ready : IsReady prio k1 qs = record {
      queued = h.queued;
      prio_is = λ a. priority_kept k t a v refl ∙ h.prio_is a;
    } in
    let own = off t (ground arith) in
    let (k', ran) = run-Ran prio t k1 qs ready holds.chain.1 own.0 own.1 in
    let queue_test : (queue == 0) ≡ false = ground arith in
    let waits_test : is_waiting (k.threads t).state ≡ true = ap is_waiting waits in
    let at_queue : k'.wait_queues queue ≡ l' =
      ap (λ f. f queue) ran.same_queues ∙ set_at_self queue l' k.wait_queues in
    (
      k',
      rw (waits_test, queue_test, e, ran.result),
      ran.ready,
      rw (ran.same_links, at_queue) rest,
      ran.runs,
      ran.same_queue ∙ ap (λ w. w.wait_queue) (set_at_self t v k.threads),
    )
