-- ===== src/Rt/Thread/Life/Begin.antt =====
-- The constructor.
use native.Mathlib.Decide.{ℕ_discrete}
use libpeli.Base.{
  ℕ, ◌<◌, ◌≡◌, ◌≢◌, sym, ap, ◌∙◌, true, false, List, [], ◌∷◌, ◌++◌, some, arith, refl,
}
use libpeli.Util.LinkList.{update, no_link}
use libpeli.Util.LinkList.Chain.{has, Holds, frame, update_ne, ne_of_has}
use libpeli.Util.LinkList.Enqueue.{enqueue_tail-Holds}
use libpeli.Rt.Thread.{Kernel, running, set_at, set_thread}
use libpeli.Rt.Thread.RunQueue.{
  RunQueues, IsNew, set_at_self, set_at_ne, enqueue_run_tail-RunQueues,
}
use libpeli.Rt.Thread.Wait.{IsReady}
use libpeli.Rt.Thread.Life.{Creation, create, new_thread, clamp}

clamp-lt : (p : ℕ) → clamp p < 64
clamp-lt p = ground arith

-- The new thread runs, at the end of the thread list and of the run queue of its priority.
pub record Created (prio : ℕ → ℕ) (t : ℕ) (ts : List ℕ) (k k' : Kernel) (qs : ℕ → List ℕ)
    : Type 0 where
  pub listed : Holds k'.thread_links k'.thread_list (ts ++ t ∷ [])
  pub ready : IsReady prio k' (set_at (prio t) (qs (prio t) ++ t ∷ []) qs)
  pub runs : (k'.threads t).state ≡ running
  pub others : (a : ℕ) → a ≢ t → k'.threads a ≡ k.threads a

-- The constructor of a thread that is not to start suspended, at an address that is not null and on
-- no list, with a well-formed thread list and run queues: it faults nowhere, limits the priority to
-- 63, and leaves the thread running, at the end of the thread list and of the run queue of its
-- priority; the lists stay well formed and no other thread changes.
pub create-Created :
    (prio : ℕ → ℕ) (alloc : ℕ → ℕ → ℕ) (t : ℕ) (c : Creation) (ts : List ℕ) (k : Kernel)
    (qs : ℕ → List ℕ)
    → Holds k.thread_links k.thread_list ts
    → RunQueues prio k.ready qs
    → ((a : ℕ) → a ≢ t → (k.threads a).priority ≡ prio a)
    → prio t ≡ clamp c.priority
    → t ≢ 0
    → has t ts ≡ false
    → ((q : ℕ) → q < 64 → has t (qs q) ≡ false)
    → c.starts_suspended ≡ false
    → (prio t < 64) × (k' : Kernel) × (create alloc t c k ≡ some k') × Created prio t ts k k' qs
unfolding create
create-Created prio alloc t c ts k qs h ready same own alive unlisted nowhere starts =
    let clean = update k.thread_links t no_link in
    let kept : (a : ℕ) → has a ts ≡ true → clean a ≡ k.thread_links a =
      λ a i. update_ne k.thread_links t a no_link (ne_of_has a t ts i unlisted) in
    let h' : Holds clean k.thread_list ts = record {
      chain = frame 0 k.thread_list.head ts kept h.chain;
      last_is_tail = h.last_is_tail;
    } in
    let (s', l', e, holds, spares) =
      enqueue_tail-Holds clean k.thread_list t ts h' alive unlisted in
    let p_in : prio t < 64 = rw own (clamp-lt c.priority) in
    let new : IsNew prio qs (prio t) t = record {
      not_null = alive;
      nowhere = nowhere;
      of_priority = refl;
    } in
    let (r', enqueued, queued) =
      enqueue_run_tail-RunQueues prio k.ready qs ready (prio t) p_in t new in
    let v = record (new_thread alloc c) { state = running } in
    let listed =
      set_thread t (new_thread alloc c) (record k { thread_links = s'; thread_list = l' }) in
    let k' = set_thread t v (record listed { ready = r' }) in
    let at_t = set_at_self t v listed.threads in
    let away : (a : ℕ) → a ≢ t → k'.threads a ≡ k.threads a =
      λ a n. set_at_ne t a v listed.threads n ∙ set_at_ne t a (new_thread alloc c) k.threads n in
    (
      p_in,
      k',
      rw (e, starts, sym own, enqueued),
      record {
        listed = holds;
        ready = record {
          queued = queued;
          prio_is = λ a. elim (ℕ_discrete a t) [
            | yes e ↦ rw (e, at_t) (sym own)
            | no n ↦ rw (away a n) (same a n)
          ];
        };
        runs = ap (λ w. w.state) at_t;
        others = away;
      },
    )
