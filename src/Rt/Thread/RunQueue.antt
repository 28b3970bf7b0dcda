-- ===== src/Rt/Thread/RunQueue.antt =====
-- The run queues: `qs` gives the threads of each priority, in order.
use libpeli.Util.LinkList.Chain.{ne_of_has, has-append, Holds, has, frame}
use libpeli.Rt.Thread.{priority_bit, clear_if_empty, take_next, enqueue_run_tail, Ready, set_at}
use libpeli.Base.{
  bit_or, ◌⊎◌, Bool-cases, inl, inr, ℕ, ◌-◌, ◌^◌, ◌<◌, ◌≡◌, ◌≢◌, ap, sym, ◌∙◌, true, false, ◌==◌,
  List, [], ◌∷◌, ◌++◌, some, arith, refl,
}
use mathlib.Core.Path.{subst}
use libpeli.Util.LinkList.Enqueue.{enqueue_tail-Holds}
use native.Mathlib.Decide.{ℕ_discrete}
use libpeli.Util.LinkList.Dequeue.{dequeue_head-Holds}
use libpeli.Base.Bits.{bit}
use libpeli.Util.LinkList.{LinkList, Store}
use libpeli.Rt.Thread.Priority.{mask_set, mask_clear}

-- The bit of a queue in the mask.
abbrev pub used : List ℕ → ℕ
used [] = 0
used (x ∷ xs) = 1

-- Each of the 64 queues is a well-formed list of its threads, no thread is on two, `prio` gives the
-- priority of each, and the mask has exactly the bits of the queues that are not empty.
pub record RunQueues (prio : ℕ → ℕ) (r : Ready) (qs : ℕ → List ℕ) : Type 0 where
  pub holds : (p : ℕ) → p < 64 → Holds r.links (r.queues p) (qs p)
  pub mask_small : r.mask < 2 ^ 64
  pub mask_bits : (p : ℕ) → p < 64 → bit r.mask (63 - p) ≡ used (qs p)
  pub apart : (a p q : ℕ) → p < 64 → q < 64 → p ≢ q → has a (qs p) ≡ true → has a (qs q) ≡ false
  pub priorities : (a p : ℕ) → p < 64 → has a (qs p) ≡ true → prio a ≡ p

pub set_at_self {ℓ} : {A : Type ℓ} (p : ℕ) (x : A) (f : ℕ → A) → set_at p x f p ≡ x
set_at_self p x f = let test : (p == p) ≡ true = ground arith in rw test

pub set_at_ne {ℓ} : {A : Type ℓ} (p j : ℕ) (x : A) (f : ℕ → A) → j ≢ p → set_at p x f j ≡ f j
set_at_ne p j x f n = let test : (j == p) ≡ false = ground arith in rw test

Holds-frame :
    {s s' : Store} (l : LinkList) (xs : List ℕ)
    → ((a : ℕ) → has a xs ≡ true → s' a ≡ s a)
    → Holds s l xs
    → Holds s' l xs
Holds-frame l xs same h = record {
  chain = frame 0 l.head xs same h.chain;
  last_is_tail = h.last_is_tail;
}

-- A thread of the priority that is not null and on no run queue.
pub record IsNew (prio : ℕ → ℕ) (qs : ℕ → List ℕ) (p t : ℕ) : Type 0 where
  pub not_null : t ≢ 0
  pub nowhere : (q : ℕ) → q < 64 → has t (qs q) ≡ false
  pub of_priority : prio t ≡ p

pub false_ne_true : ¬ (false ≡ true)
false_ne_true e = ground arith

old_or_new : (a t : ℕ) (xs : List ℕ) → has a (xs ++ t ∷ []) ≡ true → (has a xs ≡ true) ⊎ (a ≡ t)
old_or_new a t xs i = ground (arith, has-append a xs (t ∷ []), i)

used-append : (xs : List ℕ) (t : ℕ) → used (xs ++ t ∷ []) ≡ 1
used-append [] t = refl
used-append (x ∷ xs) t = refl

not_in_rest : (a x : ℕ) (xs : List ℕ) → has a (x ∷ xs) ≡ false → has a xs ≡ false
not_in_rest a x xs h = ground arith

-- The mask after the test whether the queue is empty.
cleared :
    (s : Store) (l : LinkList) (xs : List ℕ) (m p : ℕ)
    → Holds s l xs
    → p < 64
    → m < 2 ^ 64
    → bit m (63 - p) ≡ 1
    → (clear_if_empty p l m < 2 ^ 64)
      × (bit (clear_if_empty p l m) (63 - p) ≡ used xs)
      × ((j : ℕ) → j < 64 → j ≢ p → bit (clear_if_empty p l m) (63 - j) ≡ bit m (63 - j))
cleared s l [] m p h p_in small set =
    let test : (l.head == 0) ≡ true = ground (arith, h.chain) in rw test (mask_clear m p p_in small)
cleared s l (x ∷ xs) m p h p_in small set =
    let test : (l.head == 0) ≡ false = ground (arith, h.chain) in
    rw test (small, set, λ j _ _. refl)

-- A change of one queue that spares the threads of the others.
module _ (prio : ℕ → ℕ) (r : Ready) (qs : ℕ → List ℕ) (h : RunQueues prio r qs) (p : ℕ)
    (p_in : p < 64) where
  record Change (r' : Ready) (l : LinkList) (xs : List ℕ) : Type 0 where
    new_holds : Holds r'.links l xs
    queues_are : r'.queues ≡ set_at p l r.queues
    spares : (a q : ℕ) → q < 64 → q ≢ p → has a (qs q) ≡ true → r'.links a ≡ r.links a
    fresh : (a q : ℕ) → q < 64 → q ≢ p → has a xs ≡ true → has a (qs q) ≡ false
    own : (a : ℕ) → has a xs ≡ true → prio a ≡ p
    small : r'.mask < 2 ^ 64
    own_bit : bit r'.mask (63 - p) ≡ used xs
    other_bits : (j : ℕ) → j < 64 → j ≢ p → bit r'.mask (63 - j) ≡ bit r.mask (63 - j)

  apart_at :
      (r' : Ready) (l : LinkList) (xs : List ℕ)
      → Change r' l xs
      → (a i j : ℕ) → i < 64
      → j < 64
      → i ≢ j
      → has a (set_at p xs qs i) ≡ true
      → has a (set_at p xs qs j) ≡ false
  apart_at r' l xs c a i j i_in j_in n = elim (ℕ_discrete i p) [
    | yes e ↦
        let i_is : (i == p) ≡ true = ground arith in
        let j_ne : j ≢ p = λ k. n (e ∙ sym k) in
        let j_is : (j == p) ≡ false = ground arith in rw (i_is, j_is) (c.fresh a j j_in j_ne)
    | no i_ne ↦
        let i_is : (i == p) ≡ false = ground arith in
        elim (ℕ_discrete j p) [
          | yes e ↦
              let j_is : (j == p) ≡ true = ground arith in
              rw (i_is, j_is)
                (λ inside. elim (Bool-cases (has a xs)) [
                  | inl found ↦ absurd (false_ne_true (sym (c.fresh a i i_in i_ne found) ∙ inside))
                  | inr missing ↦ missing
                ])
          | no j_ne ↦
              let j_is : (j == p) ≡ false = ground arith in
              rw (i_is, j_is) (h.apart a i j i_in j_in n)
        ]
  ]

  changed-RunQueues :
      (r' : Ready) (l : LinkList) (xs : List ℕ)
      → Change r' l xs
      → RunQueues prio r' (set_at p xs qs)
  changed-RunQueues r' l xs c = record {
    holds = λ j j_in. elim (ℕ_discrete j p) [
      | yes e ↦ let test : (j == p) ≡ true = ground arith in rw (c.queues_are, test) c.new_holds
      | no n ↦
          let test : (j == p) ≡ false = ground arith in
          rw (c.queues_are, test)
            (Holds-frame (r.queues j) (qs j) (λ a. c.spares a j j_in n) (h.holds j j_in))
    ];
    mask_small = c.small;
    mask_bits = λ j j_in. elim (ℕ_discrete j p) [
      | yes e ↦
          let test : (j == p) ≡ true = ground arith in
          rw test (ap (λ t. bit r'.mask (63 - t)) e ∙ c.own_bit)
      | no n ↦
          let test : (j == p) ≡ false = ground arith in
          rw test (c.other_bits j j_in n ∙ h.mask_bits j j_in)
    ];
    apart = λ a i j i_in j_in n. apart_at r' l xs c a i j i_in j_in n;
    priorities = λ a j j_in. elim (ℕ_discrete j p) [
      | yes e ↦ let test : (j == p) ≡ true = ground arith in rw test (λ i. c.own a i ∙ sym e)
      | no n ↦ let test : (j == p) ≡ false = ground arith in rw test (h.priorities a j j_in)
    ];
  }

  pub enqueue_run_tail-RunQueues :
      (t : ℕ)
      → IsNew prio qs p t
      → (r' : Ready) × (enqueue_run_tail t p r ≡ some r')
        × RunQueues prio r' (set_at p (qs p ++ t ∷ []) qs)
  unfolding enqueue_run_tail
  enqueue_run_tail-RunQueues t new =
      let (s', l', e, holds, spares) =
        enqueue_tail-Holds r.links (r.queues p) t (qs p) (h.holds p p_in) new.not_null
          (new.nowhere p p_in) in
      let r' : Ready = record {
        links = s';
        queues = set_at p l' r.queues;
        mask = bit_or r.mask (priority_bit p);
      } in
      let m = mask_set r.mask p p_in h.mask_small in
      let change : Change r' l' (qs p ++ t ∷ []) = record {
        new_holds = holds;
        queues_are = refl;
        spares = λ a q q_in n i.
            spares a (ne_of_has a t (qs q) i (new.nowhere q q_in)) (h.apart a q p q_in p_in n i);
        fresh = λ a q q_in n i. elim (old_or_new a t (qs p) i) [
          | inl old ↦ h.apart a p q p_in q_in (λ k. n (sym k)) old
          | inr k ↦ rw k (new.nowhere q q_in)
        ];
        own = λ a i. elim (old_or_new a t (qs p) i) [
          | inl old ↦ h.priorities a p p_in old
          | inr k ↦ rw k new.of_priority
        ];
        small = m.0;
        own_bit = m.1 ∙ sym (used-append (qs p) t);
        other_bits = m.2;
      } in
      (r', rw e, changed-RunQueues r' l' (qs p ++ t ∷ []) change)

  pub take_next-RunQueues :
      (x : ℕ) (xs : List ℕ)
      → qs p ≡ x ∷ xs
      → (r' : Ready) × (take_next p r ≡ some (x, r')) × RunQueues prio r' (set_at p xs qs)
  unfolding take_next
  take_next-RunQueues x xs front =
      let (s', l', e, holds, spares) =
        dequeue_head-Holds r.links (r.queues p) x xs
          (subst (Holds r.links (r.queues p)) front (h.holds p p_in)) in
      let r' : Ready = record {
        links = s';
        queues = set_at p l' r.queues;
        mask = clear_if_empty p l' r.mask;
      } in
      let m =
        cleared s' l' xs r.mask p holds p_in h.mask_small (h.mask_bits p p_in ∙ ap used front) in
      let old : (a : ℕ) → has a xs ≡ true → has a (qs p) ≡ true =
        λ a i. rw front (ground (arith, i)) in
      let x_ne : (x == 0) ≡ false =
        ground (arith, (subst (Holds r.links (r.queues p)) front (h.holds p p_in)).chain) in
      let change : Change r' l' xs = record {
        new_holds = holds;
        queues_are = refl;
        spares = λ a q q_in n i. spares a (
            not_in_rest a x xs
              (subst (λ ys. has a ys ≡ false) front (h.apart a q p q_in p_in n i)));
        fresh = λ a q q_in n i. h.apart a p q p_in q_in (λ k. n (sym k)) (old a i);
        own = λ a i. h.priorities a p p_in (old a i);
        small = m.0;
        own_bit = m.1;
        other_bits = m.2;
      } in
      (r', rw (e, x_ne), changed-RunQueues r' l' xs change)
