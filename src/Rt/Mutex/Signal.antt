-- ===== src/Rt/Mutex/Signal.antt =====
-- What becomes of a thread that waits on a condition.
use libpeli.Rt.Thread.{is_waiting, Kernel, returned, running, set_at}
use libpeli.Rt.Thread.Sleep.{wakeup_ignored, and_false}
use libpeli.Base.{not, ℕ, ◌≡◌, ◌≢◌, true, false, ◌==◌, [], ◌∷◌, some, arith, refl, ap, ◌∙◌}
use libpeli.Util.LinkList.Chain.{Holds}
use libpeli.Util.LinkList.Enqueue.{enqueue_tail-Holds}
use libpeli.Rt.Thread.RunQueue.{set_at_self, set_at_ne}
use libpeli.Rt.Mutex.{Mutex, wait, signal, enqueue, unlock, lock, own, wakeup_one}

-- The thread runs on with the mutex locked, and stays on the queue of the condition.
pub record GoesOn (queue : ℕ) (m m' : Mutex) (k k' : Kernel) : Type 0 where
  pub locked : m'.lock_count ≡ 1
  pub owned : m'.owner_thread ≡ k.current
  pub same_threads : k'.threads ≡ k.threads
  pub same_current : k'.current ≡ k.current
  pub stays : Holds k'.wait_links (k'.wait_queues queue) (k.current ∷ [])
  pub deaf : signal queue k' ≡ some k'

-- `Wait` on a condition with no thread on its queue, by a running thread that is on no wait queue
-- and has locked the mutex once, with no thread waiting for the mutex: it returns without a
-- sleep, with the mutex locked again. The thread stays on the queue of the condition, and
-- `Signal` then changes nothing.
pub wait-GoesOn :
    (queue : ℕ) (m : Mutex) (k : Kernel)
    → Holds k.wait_links (k.wait_queues queue) []
    → k.current ≢ 0
    → (k.threads k.current).state ≡ running
    → (k.threads k.current).wait_queue ≡ 0
    → queue ≢ 0
    → m.wait_queue ≢ queue
    → (k.wait_queues m.wait_queue).head ≡ 0
    → m.lock_count ≡ 1
    → (m' : Mutex) × (k' : Kernel) × (wait queue m k ≡ some (m', returned k'))
      × GoesOn queue m m' k k'
unfolding wait enqueue unlock wakeup_one lock own signal
wait-GoesOn queue m k h alive runs nowhere some_queue apart nobody once =
    let t = k.current in
    let (s', l', e, holds, spares) =
      enqueue_tail-Holds k.wait_links (k.wait_queues queue) t [] h alive refl in
    let k' = record k { wait_links = s'; wait_queues = set_at queue l' k.wait_queues } in
    let current_test : (t == 0) ≡ false = ground arith in
    let queue_test : ((k.threads t).wait_queue == queue) ≡ false = ground arith in
    let other : set_at queue l' k.wait_queues m.wait_queue ≡ k.wait_queues m.wait_queue =
      set_at_ne queue m.wait_queue l' k.wait_queues apart in
    let nobody_test : ((set_at queue l' k.wait_queues m.wait_queue).head == 0) ≡ true =
      rw other (ground arith) in
    let head : (set_at queue l' k.wait_queues queue).head ≡ t =
      ap (λ q. q.head) (set_at_self queue l' k.wait_queues) ∙ holds.chain.0 in
    (
      record m { lock_count = 1; owner_thread = t },
      k',
      rw (current_test, e, once, nobody_test, queue_test, and_false (not (t == 0))),
      record {
        locked = refl;
        owned = refl;
        same_threads = refl;
        same_current = refl;
        stays = rw (set_at_self queue l' k.wait_queues) holds;
        deaf = rw (head, current_test) (wakeup_ignored t k' (ap is_waiting runs));
      },
    )
