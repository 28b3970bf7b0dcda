-- ===== src/Util/LinkList/Enqueue.antt =====
-- `EnqueueHead` and `EnqueueTail` put an object in front of and behind a well-formed list.
use libpeli.Base.{ℕ, ◌≡◌, sym, ◌∙◌, true, ◌≢◌, false, List, [], ◌∷◌, ◌++◌, some, arith}
use libpeli.Util.LinkList.{
  LinkList, Store, update, write, write_next, write_prev, enqueue_head, enqueue_tail, Result,
  no_link,
}
use mathlib.Core.Path.{subst}
use libpeli.Util.LinkList.Unlink.{Forward}
use libpeli.Util.LinkList.Chain.{
  has, last, Chain, Holds, update_ne, frame, last-append, has-last, has-append, ne_of_has,
  Chain-ne_null, tail_mem,
}

-- Linking `t` behind the last object `q` of a chain extends it.
extend :
    {s s' : Store} (t q back p x : ℕ) (xs : List ℕ)
    → q ≡ last x xs
    → t ≢ 0
    → has t (x ∷ xs) ≡ false
    → ((a : ℕ) → a ≢ t → a ≢ q → s' a ≡ s a)
    → s' t ≡ record { next = 0; prev = q }
    → s' q ≡ record { next = t; prev = (s q).prev }
    → Chain s back p (x ∷ xs)
    → Chain s' back p (x ∷ (xs ++ t ∷ []))
extend {s} {s'} t q back p x [] is_last ne out same at_t at_last c = ground (arith, at_t, at_last)
extend {s} {s'} t q back p x (y ∷ xs) is_last ne out same at_t at_last c =
    let x_ne_last = ne_of_has (last y xs) x (y ∷ xs) (has-last y xs) c.2 in
    let e : s' x ≡ s x = same x (ground arith) (λ h. x_ne_last (sym is_last ∙ sym h)) in
    let rest : Chain s' x (s x).next (y ∷ (xs ++ t ∷ [])) =
      extend t q x (s x).next y xs is_last ne (ground arith) same at_t at_last c.4 in
    let fresh : has x (y ∷ (xs ++ t ∷ [])) ≡ false = ground (arith, has-append x xs (t ∷ [])) in
    (c.0, c.1, fresh, rw e c.3, rw e rest)

-- The stores that `EnqueueTail` and `EnqueueHead` leave, for a list that is not empty.
abbrev appended : ℕ → ℕ → Store → Store
appended t tail s =
    let s1 = update s tail (record (s tail) { next = t }) in
    let s2 = update s1 t (record (s1 t) { prev = tail }) in update s2 t (record (s2 t) { next = 0 })

abbrev prepended : ℕ → ℕ → Store → Store
prepended t head s =
    let s1 = update s head (record (s head) { prev = t }) in
    let s2 = update s1 t (record (s1 t) { next = head }) in update s2 t (record (s2 t) { prev = 0 })

abbrev alone : ℕ → Store → Store
alone t s = update s t no_link

module _ (t q : ℕ) (s : Store) (ne : t ≢ q) where
  appended_spares : (a : ℕ) → a ≢ t → a ≢ q → appended t q s a ≡ s a
  unfolding update
  appended_spares a h k = ground arith

  appended_new : appended t q s t ≡ record { next = 0; prev = q }
  unfolding update
  appended_new = ground arith

  appended_old : appended t q s q ≡ record { next = t; prev = (s q).prev }
  unfolding update
  appended_old = ground arith

  prepended_spares : (a : ℕ) → a ≢ t → a ≢ q → prepended t q s a ≡ s a
  unfolding update
  prepended_spares a h k = ground arith

  prepended_new : prepended t q s t ≡ record { next = q; prev = 0 }
  unfolding update
  prepended_new = ground arith

  prepended_old : prepended t q s q ≡ record { next = (s q).next; prev = t }
  unfolding update
  prepended_old = ground arith

-- `r` is a list of `ys`, and spares every object but `t` and those of `xs`.
abbrev pub Enqueued : Store → ℕ → List ℕ → Result → List ℕ → Type 0
Enqueued s t xs r ys =
    (s' : Store) × (l' : LinkList) × (r ≡ some (s', l'))
    × Holds s' l' ys
    × ((a : ℕ) → a ≢ t → has a xs ≡ false → s' a ≡ s a)

alone_lem : (t : ℕ) (s : Store) → t ≢ 0 → Holds (alone t s) (record { head = t; tail = t }) (t ∷ [])
unfolding update
alone_lem t s ne = ground arith

-- On a well-formed list, `EnqueueTail` of an object that is neither null nor in the list faults
-- nowhere, puts the object at the end, leaves the list well formed, and writes to no object outside
-- the list but the new one.
pub enqueue_tail-Holds :
    (s : Store) (l : LinkList) (t : ℕ) (xs : List ℕ)
    → Holds s l xs
    → t ≢ 0
    → has t xs ≡ false
    → Enqueued s t xs (enqueue_tail t s l) (xs ++ t ∷ [])
unfolding enqueue_tail write write_next write_prev
enqueue_tail-Holds s l t [] h ne out = (
  alone t s,
  record { head = t; tail = t },
  ground arith,
  alone_lem t s ne,
  λ a n _. update_ne s t a no_link n,
)
enqueue_tail-Holds s l t (x ∷ xs) h ne out =
    let q = l.tail in
    let inside : has q (x ∷ xs) ≡ true = tail_mem s l x xs h in
    let t_ne : t ≢ q = λ e. ne_of_has q t (x ∷ xs) inside out (sym e) in
    let q_ne : q ≢ 0 = ne_of_has q 0 (x ∷ xs) inside (Chain-ne_null s 0 l.head (x ∷ xs) h.chain) in
    (
      appended t q s,
      record l { tail = t },
      ground arith,
      record {
        chain =
            extend t q 0 l.head x xs h.last_is_tail ne out (appended_spares t q s t_ne)
              (appended_new t q s t_ne) (appended_old t q s t_ne) h.chain;
        last_is_tail = sym (last-append x t xs);
      },
      λ a n o. appended_spares t q s t_ne a n (λ e. ne_of_has q a (x ∷ xs) inside o (sym e)),
    )

-- On a well-formed list, `EnqueueHead` of an object that is neither null nor in the list faults
-- nowhere, puts the object at the front, leaves the list well formed, and writes to no object
-- outside the list but the new one.
pub enqueue_head-Holds :
    (s : Store) (l : LinkList) (t : ℕ) (xs : List ℕ)
    → Holds s l xs
    → t ≢ 0
    → has t xs ≡ false
    → Enqueued s t xs (enqueue_head t s l) (t ∷ xs)
unfolding enqueue_head write write_next write_prev
enqueue_head-Holds s l t [] h ne out = (
  alone t s,
  record { head = t; tail = t },
  ground arith,
  alone_lem t s ne,
  λ a n _. update_ne s t a no_link n,
)
enqueue_head-Holds s l t (x ∷ xs) h ne out =
    let q = l.head in
    let t_ne : t ≢ q = ground arith in
    let spares = prepended_spares t q s t_ne in
    let below : Chain (prepended t q s) x (s x).next xs =
      frame x (s x).next xs
        (λ a i. spares a (ne_of_has a t xs i (ground arith)) (ne_of_has a q xs i (ground arith)))
        h.chain.4 in
    (
      prepended t q s,
      record l { head = t },
      ground arith,
      record {
        chain = ground (arith, prepended_new t q s t_ne, prepended_old t q s t_ne, below);
        last_is_tail = h.last_is_tail;
      },
      λ a n o. spares a n (ground arith),
    )

-- On a well-formed list, `EnqueueTail` of the object that is already the head of a longer list cuts
-- off all the others: the walk from the head is that one object.
pub enqueue_tail-head-Forward :
    (s : Store) (l : LinkList) (x y : ℕ) (ys : List ℕ)
    → Holds s l (x ∷ y ∷ ys)
    → (s' : Store) × (l' : LinkList) × (enqueue_tail x s l ≡ some (s', l'))
      × Forward s' l'.head (x ∷ [])
unfolding enqueue_tail write write_next write_prev
enqueue_tail-head-Forward s l x y ys h =
    let q = l.tail in
    let inside : has q (y ∷ ys) ≡ true =
      subst (λ p. has p (y ∷ ys) ≡ true) (sym h.last_is_tail) (has-last y ys) in
    let x_ne : x ≢ q = λ e. ne_of_has q x (y ∷ ys) inside h.chain.2 (sym e) in
    let q_ne : q ≢ 0 =
      ne_of_has q 0 (y ∷ ys) inside (Chain-ne_null s x (s x).next (y ∷ ys) h.chain.4) in
    (appended x q s, record l { tail = x }, ground arith, ground (arith, appended_new x q s x_ne))

-- On a well-formed list, for an object that is neither null nor in the list: `EnqueueTail` puts
-- it at the end and `EnqueueHead` at the front; each faults nowhere, leaves the list well formed,
-- and writes to no object outside the list but the new one.
pub enqueue_lem :
    (s : Store) (l : LinkList) (t : ℕ) (xs : List ℕ)
    → Holds s l xs
    → t ≢ 0
    → has t xs ≡ false
    → Enqueued s t xs (enqueue_tail t s l) (xs ++ t ∷ [])
      × Enqueued s t xs (enqueue_head t s l) (t ∷ xs)
enqueue_lem s l t xs h ne out =
    (enqueue_tail-Holds s l t xs h ne out, enqueue_head-Holds s l t xs h ne out)
