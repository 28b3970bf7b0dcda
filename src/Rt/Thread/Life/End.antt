-- ===== src/Rt/Thread/Life/End.antt =====
-- `Exit` of the current thread.
use mathlib.Core.Path.{subst}
use libpeli.Base.{
  ℕ, suc, ◌<◌, ◌≡◌, ◌⊎◌, sym, ap, ◌∙◌, true, false, ◌==◌, not, length, List, some, arith, refl,
}
use libpeli.Util.LinkList.Chain.{has, Holds}
use libpeli.Rt.Thread.{Kernel, exited, set_thread, current_runs, dispatch_any, wakeup_all}
use libpeli.Rt.Thread.RunQueue.{false_ne_true, set_at_self}
use libpeli.Rt.Thread.Dispatch.{IsScheduled, Stays, Switches, priority_of, dispatch_any_lem}
use libpeli.Rt.Thread.Wait.{IsReady, AreOff, WokeAll, woken, wakeup_all-WokeAll}
use libpeli.Rt.Thread.Sleep.{priority_kept, RunQueues-prio, and_false}
use libpeli.Rt.Thread.Life.{exit}

-- The thread with its result, before any other wakes.
abbrev pub exiting : ℕ → ℕ → Kernel → Kernel
exiting t result k = set_thread t (record (k.threads t) { result = result; state = exited }) k

exit-dispatch_any :
    (result : ℕ) (k k' : Kernel) (ts : List ℕ)
    → wakeup_all (suc (length ts)) (k.threads k.current).join_queue (exiting k.current result k)
      ≡ some k'
    → k'.current ≡ k.current
    → exit (suc (length ts)) k.current result k ≡ dispatch_any k'
unfolding exit
exit-dispatch_any result k k' ts e same =
    let test : (k'.current == k.current) ≡ true = ground arith in rw (e, test)

-- With well-formed run queues, `Exit` of a current thread that exists, with a well-formed join
-- queue that does not hold it and whose threads are on no run queue, all priorities being below
-- 64: each thread of the join queue runs again and is on the run queue of its priority, and the
-- dispatcher runs without the thread that exits, which faults nowhere and idles or switches.
pub exit-WokeAll :
    (result : ℕ) (ts : List ℕ) (k : Kernel) (qs : ℕ → List ℕ)
    → IsReady (priority_of k) k qs
    → Holds k.wait_links (k.wait_queues (k.threads k.current).join_queue) ts
    → has k.current ts ≡ false
    → (k.threads k.current).priority < 64
    → AreOff (priority_of k) ts qs
    → (k' : Kernel) × WokeAll
        (priority_of k)
        ts
        (k.threads k.current).join_queue
        (exiting k.current result k)
        k'
        qs
      × (Stays k' (woken (priority_of k) ts qs) (exit (suc (length ts)) k.current result k)
          ⊎ Switches k' (woken (priority_of k) ts qs) (exit (suc (length ts)) k.current result k))
exit-WokeAll result ts k qs h holds out own_in off =
    let t = k.current in
    let v = record (k.threads t) { result = result; state = exited } in
    let prio = priority_of k in
    let at_t = set_at_self t v k.threads in
    let before : IsReady prio (exiting t result k) qs = record {
      queued = h.queued;
      prio_is = λ a. priority_kept k t a v refl;
    } in
    let (k', e, woke) =
      wakeup_all-WokeAll prio (k.threads t).join_queue ts (exiting t result k) qs before holds
        off in
    let own : k'.threads t ≡ v = woke.others t out ∙ at_t in
    let here : k'.threads k'.current ≡ v = ap k'.threads woke.same_current ∙ own in
    let stopped : current_runs k' ≡ false = rw here (and_false (not (k'.current == 0))) in
    let scheduled : IsScheduled k' (woken prio ts qs) = record {
      queued =
          RunQueues-prio prio (priority_of k') k'.ready (woken prio ts qs)
            (λ a. sym (woke.ready.prio_is a)) woke.ready.queued;
      own_in = rw here own_in;
      off = λ runs. absurd (false_ne_true (sym stopped ∙ runs));
    } in
    let split = dispatch_any_lem k' (woken prio ts qs) scheduled in
    (
      k',
      woke,
      subst (λ r. Stays k' (woken prio ts qs) r ⊎ Switches k' (woken prio ts qs) r)
          (sym (exit-dispatch_any result k k' ts e woke.same_current)) split,
    )
