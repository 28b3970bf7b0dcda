-- ===== src/Rt/Thread/Wait.antt =====
-- Wait queues: `Sleep` puts the current thread on one, `WakeupAll` makes all of its threads ready.
use mathlib.Core.Path.{subst}
use libpeli.Util.LinkList.Chain.{has-append, has, Chain, Holds, frame, ne_of_has, update_ne}
use native.Mathlib.Decide.{ℕ_discrete}
use libpeli.Base.{
  ℕ, zero, suc, ◌<◌, ◌≡◌, ◌≢◌, ap, ◌∙◌, true, false, ◌==◌, length, List, [], ◌∷◌, ◌++◌, some, arith,
  refl,
}
use libpeli.Util.LinkList.{no_list, no_link, update}
use libpeli.Rt.Thread.{Kernel, running, set_at, set_thread, run, wakeup_from, wakeup_all}
use libpeli.Rt.Thread.RunQueue.{
  RunQueues, IsNew, enqueue_run_tail-RunQueues, set_at_self, set_at_ne,
}

-- The run queues once the threads have joined them, one after the other.
abbrev pub woken : (ℕ → ℕ) → List ℕ → (ℕ → List ℕ) → ℕ → List ℕ
woken prio [] qs = qs
woken prio (t ∷ ts) qs = woken prio ts (set_at (prio t) (qs (prio t) ++ t ∷ []) qs)

-- The run queues are `qs`, and `prio` gives the priority of every thread.
pub record IsReady (prio : ℕ → ℕ) (k : Kernel) (qs : ℕ → List ℕ) : Type 0 where
  pub queued : RunQueues prio k.ready qs
  pub prio_is : (a : ℕ) → (k.threads a).priority ≡ prio a

abbrev pub AreOff : (ℕ → ℕ) → List ℕ → (ℕ → List ℕ) → Type 0
AreOff prio ts qs =
    (a : ℕ) → has a ts ≡ true → (prio a < 64) × ((q : ℕ) → q < 64 → has a (qs q) ≡ false)

-- The kernel after `run`, on a kernel whose wait state has been reset.
pub record Ran (prio : ℕ → ℕ) (t : ℕ) (k k' : Kernel) (qs : ℕ → List ℕ) : Type 0 where
  pub result : run t k ≡ some k'
  pub ready : IsReady prio k' (set_at (prio t) (qs (prio t) ++ t ∷ []) qs)
  pub runs : (k'.threads t).state ≡ running
  pub same_queue : (k'.threads t).wait_queue ≡ (k.threads t).wait_queue
  pub others : (a : ℕ) → a ≢ t → k'.threads a ≡ k.threads a
  pub same_links : k'.wait_links ≡ k.wait_links
  pub same_queues : k'.wait_queues ≡ k.wait_queues
  pub same_current : k'.current ≡ k.current

pub run-Ran :
    (prio : ℕ → ℕ) (t : ℕ) (k : Kernel) (qs : ℕ → List ℕ)
    → IsReady prio k qs
    → t ≢ 0
    → prio t < 64
    → ((q : ℕ) → q < 64 → has t (qs q) ≡ false)
    → (k' : Kernel) × Ran prio t k k' qs
unfolding run
run-Ran prio t k qs h ne p_in nowhere =
    let new : IsNew prio qs (prio t) t = record {
      not_null = ne;
      nowhere = nowhere;
      of_priority = refl;
    } in
    let (r', e, queued) = enqueue_run_tail-RunQueues prio k.ready qs h.queued (prio t) p_in t new in
    let v = k.threads t in
    let k' = set_thread t (record v { state = running }) (record k { ready = r' }) in
    let at_t : k'.threads t ≡ record v { state = running } =
      set_at_self t (record v { state = running }) k.threads in
    let away : (a : ℕ) → a ≢ t → k'.threads a ≡ k.threads a =
      λ a n. set_at_ne t a (record v { state = running }) k.threads n in
    (
      k',
      record {
        result = rw (h.prio_is t, e);
        ready = record {
          queued = queued;
          prio_is = λ a. elim (ℕ_discrete a t) [
            | yes same ↦ rw (same, at_t) (h.prio_is t)
            | no n ↦ rw (away a n) (h.prio_is a)
          ];
        };
        runs = ap (λ w. w.state) at_t;
        same_queue = ap (λ w. w.wait_queue) at_t;
        others = away;
        same_links = refl;
        same_queues = refl;
        same_current = refl;
      },
    )

-- `WakeupAll` unlinks a thread before it runs it.
abbrev unlinked : ℕ → Kernel → Kernel
unlinked t k =
    set_thread t (record (k.threads t) { wait_queue = 0 })
      (record k { wait_links = update k.wait_links t no_link })

unlinked-IsReady :
    (prio : ℕ → ℕ) (t : ℕ) (k : Kernel) (qs : ℕ → List ℕ)
    → IsReady prio k qs
    → IsReady prio (unlinked t k) qs
unlinked-IsReady prio t k qs h =
    let v = record (k.threads t) { wait_queue = 0 } in
    record {
      queued = h.queued;
      prio_is = λ a. elim (ℕ_discrete a t) [
        | yes same ↦ rw (same, set_at_self t v k.threads) (h.prio_is t)
        | no n ↦ rw (set_at_ne t a v k.threads n) (h.prio_is a)
      ];
    }

AreOff-rest :
    (prio : ℕ → ℕ) (t : ℕ) (ts : List ℕ) (qs : ℕ → List ℕ)
    → has t ts ≡ false
    → AreOff prio (t ∷ ts) qs
    → AreOff prio ts (set_at (prio t) (qs (prio t) ++ t ∷ []) qs)
AreOff-rest prio t ts qs once off a i =
    let inside = off a (ground (arith, i)) in
    let n : a ≢ t = ne_of_has a t ts i once in
    (
      inside.0,
      λ q q_in. elim (ℕ_discrete q (prio t)) [
        | yes e ↦
            let test : (q == prio t) ≡ true = ground arith in
            let out : has a (qs (prio t)) ≡ false =
              subst (λ p. has a (qs p) ≡ false) e (inside.1 q q_in) in
            rw test (ground (arith, has-append a (qs (prio t)) (t ∷ []), out, n))
        | no m ↦ rw (set_at_ne (prio t) q (qs (prio t) ++ t ∷ []) qs m) (inside.1 q q_in)
      ],
    )

-- What the loop of `WakeupAll` leaves.
pub record Woke (prio : ℕ → ℕ) (ts : List ℕ) (k k' : Kernel) (qs : ℕ → List ℕ) : Type 0 where
  pub ready : IsReady prio k' (woken prio ts qs)
  pub run_now :
      (a : ℕ) → has a ts ≡ true → ((k'.threads a).state ≡ running) × ((k'.threads a).wait_queue ≡ 0)
  pub others : (a : ℕ) → has a ts ≡ false → k'.threads a ≡ k.threads a
  pub same_queues : k'.wait_queues ≡ k.wait_queues
  pub same_current : k'.current ≡ k.current

Woke-cons :
    (prio : ℕ → ℕ) (x : ℕ) (ts : List ℕ) (k k1 k' : Kernel) (qs : ℕ → List ℕ)
    → has x ts ≡ false
    → Ran prio x (unlinked x k) k1 qs
    → Woke prio ts k1 k' (set_at (prio x) (qs (prio x) ++ x ∷ []) qs)
    → Woke prio (x ∷ ts) k k' qs
Woke-cons prio x ts k k1 k' qs once ran woke =
    let v = record (k.threads x) { wait_queue = 0 } in
    record {
      ready = woke.ready;
      run_now = λ a i. elim (ℕ_discrete a x) [
        | yes e ↦
            rw (e, woke.others x once)
              (ran.runs, ran.same_queue ∙ ap (λ w. w.wait_queue) (set_at_self x v k.threads))
        | no n ↦ woke.run_now a (ground (arith, i, n))
      ];
      others = λ a i.
          let n : a ≢ x = ground (arith, i) in
          let out : has a ts ≡ false = ground (arith, i) in
          woke.others a out ∙ ran.others a n ∙ set_at_ne x a v k.threads n;
      same_queues = woke.same_queues ∙ ran.same_queues;
      same_current = woke.same_current ∙ ran.same_current;
    }

wakeup_from-Woke :
    (prio : ℕ → ℕ) (fuel back t : ℕ) (ts : List ℕ) (k : Kernel) (qs : ℕ → List ℕ)
    → length ts < fuel
    → IsReady prio k qs
    → Chain k.wait_links back t ts
    → AreOff prio ts qs
    → (k' : Kernel) × (wakeup_from fuel t k ≡ some k') × Woke prio ts k k' qs
unfolding wakeup_from
wakeup_from-Woke prio zero back t ts k qs fits h c off = absurd (omega arith)
wakeup_from-Woke prio (suc fuel) back t [] k qs fits h c off =
    let test : (t == 0) ≡ true = ground (arith, c) in
    (
      k,
      rw test,
      record {
        ready = h;
        run_now = λ a i. absurd (ground (arith, i));
        others = λ a _. refl;
        same_queues = refl;
        same_current = refl;
      },
    )
wakeup_from-Woke prio (suc fuel) back t (x ∷ ts) k qs fits h c off =
    let test : (x == 0) ≡ false = ground (arith, c.1) in
    let own = off x (ground arith) in
    let (k1, ran) =
      run-Ran prio x (unlinked x k) qs (unlinked-IsReady prio x k qs h) c.1 own.0 own.1 in
    let spares : (a : ℕ) → has a ts ≡ true → k1.wait_links a ≡ k.wait_links a = λ a i.
      ap (λ s. s a) ran.same_links ∙ update_ne k.wait_links x a no_link (ne_of_has a x ts i c.2) in
    let (k', e, woke) =
      wakeup_from-Woke prio fuel x (k.wait_links x).next ts k1
        (set_at (prio x) (qs (prio x) ++ x ∷ []) qs) (omega (arith, fits)) ran.ready
        (frame x (k.wait_links x).next ts spares c.4) (AreOff-rest prio x ts qs c.2 off) in
    (k', rw (c.0, test, ran.result, e), Woke-cons prio x ts k k1 k' qs c.2 ran woke)

-- The queue is empty, and its threads run and are ready in order.
pub record WokeAll (prio : ℕ → ℕ) (ts : List ℕ) (queue : ℕ) (k k' : Kernel) (qs : ℕ → List ℕ)
    : Type 0 where
  pub ready : IsReady prio k' (woken prio ts qs)
  pub run_now :
      (a : ℕ) → has a ts ≡ true → ((k'.threads a).state ≡ running) × ((k'.threads a).wait_queue ≡ 0)
  pub others : (a : ℕ) → has a ts ≡ false → k'.threads a ≡ k.threads a
  pub same_current : k'.current ≡ k.current
  pub emptied : Holds k'.wait_links (k'.wait_queues queue) []

-- On well-formed run queues and a well-formed wait queue of threads that are on no run queue and
-- have priorities below 64, `WakeupAll` ends after one round per thread and faults nowhere. It
-- leaves the wait queue empty, every thread of it running, on no wait queue, and on the run queue
-- of its priority, in their order, the run queues well formed, and every other thread as it was.
pub wakeup_all-WokeAll :
    (prio : ℕ → ℕ) (queue : ℕ) (ts : List ℕ) (k : Kernel) (qs : ℕ → List ℕ)
    → IsReady prio k qs
    → Holds k.wait_links (k.wait_queues queue) ts
    → AreOff prio ts qs
    → (k' : Kernel) × (wakeup_all (suc (length ts)) queue k ≡ some k')
      × WokeAll prio ts queue k k' qs
unfolding wakeup_all
wakeup_all-WokeAll prio queue ts k qs h holds off =
    let (k', e, woke) =
      wakeup_from-Woke prio (suc (length ts)) 0 (k.wait_queues queue).head ts k qs (omega arith) h
        holds.chain off in
    let empty = set_at_self queue no_list k'.wait_queues in
    (
      record k' { wait_queues = set_at queue no_list k'.wait_queues },
      rw e,
      record {
        ready = record { queued = woke.ready.queued; prio_is = woke.ready.prio_is };
        run_now = woke.run_now;
        others = woke.others;
        same_current = woke.same_current;
        emptied = rw empty (record { chain = refl; last_is_tail = refl });
      },
    )
