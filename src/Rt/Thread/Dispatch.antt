-- ===== src/Rt/Thread/Dispatch.antt =====
-- What `dispatchAny` does.
use native.Mathlib.Decide.{ℕ_discrete}
use libpeli.Util.LinkList.Chain.{has}
use libpeli.Base.Bits.{bit, bit-zero}
use libpeli.Rt.Thread.{
  idle, returned, switched, Kernel, Ready, Dispatched, set_at, current_runs, dispatch, dispatch_any,
  pick_next, switch_to, count_leading_zero,
}
use libpeli.Base.{
  ◌-◌, ℕ, ◌<◌, ◌≡◌, ◌⊎◌, inl, inr, ◌∙◌, sym, ap, true, false, Bool-cases, ◌==◌, if◌then◌else◌, List,
  [], ◌∷◌, ◌++◌, Option, some, arith, refl,
}
use libpeli.Rt.Thread.Priority.{first_priority}
use libpeli.Rt.Thread.RunQueue.{
  RunQueues, IsNew, used, enqueue_run_tail-RunQueues, take_next-RunQueues,
}

abbrev pub priority_of : Kernel → ℕ → ℕ
priority_of k t = (k.threads t).priority

-- The run queues with the current thread, if it runs, behind those of its priority.
abbrev pub joined : Kernel → (ℕ → List ℕ) → ℕ → List ℕ
joined k qs =
    let own = (k.threads k.current).priority in
    if current_runs k then set_at own (qs own ++ k.current ∷ []) qs else qs

-- The run queues are `qs`, and the current thread, if it runs, is on none.
pub record IsScheduled (k : Kernel) (qs : ℕ → List ℕ) : Type 0 where
  pub queued : RunQueues (priority_of k) k.ready qs
  pub own_in : (k.threads k.current).priority < 64
  pub off : current_runs k ≡ true → (q : ℕ) → q < 64 → has k.current (qs q) ≡ false

-- No thread is ready: the current one goes on, or the dispatcher idles.
abbrev pub Stays : Kernel → (ℕ → List ℕ) → Option Dispatched → Type 0
Stays k qs r =
    ((p : ℕ) → p < 64 → qs p ≡ []) × (r ≡ some (if current_runs k then returned k else idle k))

-- `x` is the first thread of the first priority that has any: it becomes the current thread, and
-- the run queues are those joined by the old one, without `x`.
pub record Switches (k : Kernel) (qs : ℕ → List ℕ) (r : Option Dispatched) : Type 0 where
  pub p : ℕ
  pub x : ℕ
  pub others : List ℕ
  pub after : List ℕ
  pub ready : Ready
  pub p_in : p < 64
  pub first : qs p ≡ x ∷ others
  pub above : (j : ℕ) → j < p → qs j ≡ []
  pub joins : joined k qs p ≡ x ∷ after
  pub result : r ≡ some (switched (dispatch x (record k { ready = ready })))
  pub queued : RunQueues (priority_of k) ready (set_at p after (joined k qs))

unused : (xs : List ℕ) → used xs ≡ 0 → xs ≡ []
unused [] e = refl
unused (x ∷ xs) e = absurd (omega (arith, e))

front_of : (xs : List ℕ) → used xs ≡ 1 → (x : ℕ) × (ys : List ℕ) × (xs ≡ x ∷ ys)
front_of [] e = absurd (omega (arith, e))
front_of (x ∷ xs) e = (x, xs, refl)

-- The head of a queue is the head still when a thread joins the queues.
joined_front :
    (qs : ℕ → List ℕ) (own t p x : ℕ) (ys : List ℕ)
    → qs p ≡ x ∷ ys
    → (after : List ℕ) × (set_at own (qs own ++ t ∷ []) qs p ≡ x ∷ after)
joined_front qs own t p x ys front = elim (ℕ_discrete p own) [
  | yes e ↦
      let test : (p == own) ≡ true = ground arith in
      rw test (ys ++ t ∷ [], ap (λ xs. xs ++ t ∷ []) (ap qs (sym e) ∙ front))
  | no n ↦ let test : (p == own) ≡ false = ground arith in rw test (ys, front)
]

module _ (k : Kernel) (qs : ℕ → List ℕ) (h : IsScheduled k qs) where
  switch_to-Switches :
      (p x : ℕ) (ys : List ℕ)
      → p < 64
      → qs p ≡ x ∷ ys
      → ((j : ℕ) → j < p → qs j ≡ [])
      → p ≡ count_leading_zero k.ready.mask
      → Switches k qs (pick_next (current_runs k) k)
  unfolding pick_next switch_to
  switch_to-Switches p x ys p_in first above e = elim (Bool-cases (current_runs k)) [
    | inl runs ↦
        let own = (k.threads k.current).priority in
        let new : IsNew (priority_of k) qs own k.current = record {
          not_null = ground (arith, runs);
          nowhere = h.off runs;
          of_priority = refl;
        } in
        let (r1, enqueued, queued1) =
          enqueue_run_tail-RunQueues (priority_of k) k.ready qs h.queued own h.own_in k.current
            new in
        let (after, front) = joined_front qs own k.current p x ys first in
        let (r2, taken, queued2) =
          take_next-RunQueues (priority_of k) r1 (set_at own (qs own ++ k.current ∷ []) qs) queued1
            p p_in x after front in
        record {
          p = p;
          x = x;
          others = ys;
          after = after;
          ready = r2;
          p_in = p_in;
          first = first;
          above = above;
          joins = rw runs front;
          result = rw (sym e, runs, enqueued, taken);
          queued = rw runs queued2;
        }
    | inr stopped ↦
        let (r2, taken, queued2) =
          take_next-RunQueues (priority_of k) k.ready qs h.queued p p_in x ys first in
        record {
          p = p;
          x = x;
          others = ys;
          after = ys;
          ready = r2;
          p_in = p_in;
          first = first;
          above = above;
          joins = rw stopped first;
          result = rw (sym e, stopped, taken);
          queued = rw stopped queued2;
        }
  ]

  idle_or_return :
      (current_runs k ≡ true) ⊎ (current_runs k ≡ false)
      → (k.ready.mask == 0) ≡ true
      → dispatch_any k ≡ some (if current_runs k then returned k else idle k)
  unfolding dispatch_any
  idle_or_return (inl runs) test = rw (test, runs)
  idle_or_return (inr stopped) test = rw (test, stopped)

  -- From run queues that are well formed and do not hold the running current thread,
  -- `dispatchAny` faults nowhere. With no thread ready, it returns where the current thread runs
  -- and idles where it does not. Otherwise it switches to the first thread of the first priority
  -- that has one, whatever the priority of the current thread, which goes to the end of its own
  -- queue if it runs; the run queues stay well formed.
  pub dispatch_any_lem : Stays k qs (dispatch_any k) ⊎ Switches k qs (dispatch_any k)
  unfolding dispatch_any
  dispatch_any_lem = elim (ℕ_discrete k.ready.mask 0) [
    | yes zero_mask ↦
        let test : (k.ready.mask == 0) ≡ true = ground arith in
        inl (
          λ p p_in. unused (qs p) (
              sym (h.queued.mask_bits p p_in)
              ∙ ap (λ m. bit m (63 - p)) zero_mask
              ∙ bit-zero (63 - p)),
          idle_or_return (Bool-cases (current_runs k)) test,
        )
    | no some_mask ↦
        let test : (k.ready.mask == 0) ≡ false = ground arith in
        let c = count_leading_zero k.ready.mask in
        let found = first_priority k.ready.mask h.queued.mask_small (omega (arith, some_mask)) in
        let (x, ys, first) = front_of (qs c) (sym (h.queued.mask_bits c found.0) ∙ found.1) in
        inr (
          rw test (
            switch_to-Switches c x ys found.0 first
              (λ j lt.
                unused (qs j)
                  (sym (h.queued.mask_bits j (omega (arith, lt, found.0))) ∙ found.2 j lt))
              refl))
  ]
