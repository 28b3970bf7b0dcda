-- ===== src/Util/LinkList/Dequeue.antt =====
-- `DequeueHead`, `DequeueTail` and `Dequeue` of the head take an object off a well-formed list.
use mathlib.Core.Path.{subst}
use libpeli.Base.{ℕ, ◌≡◌, refl, sym, ◌∙◌, ◌≢◌, false, true, List, [], ◌∷◌, ◌++◌, some, arith}
use mathlib.Core.Path.{subst}
use libpeli.Util.LinkList.{
  LinkList, Store, update, read, write, write_next, write_prev, drop_head, drop_tail, dequeue,
  dequeue_head, dequeue_tail, Result, no_list,
}
use libpeli.Util.LinkList.Chain.{
  has, last, Chain, Holds, update_self, update_ne, frame, last-append, has-last, ne_of_has,
  Chain-ne_null, has-append,
}

-- `r` is a list of `xs`, and spares every object outside it.
abbrev pub Dropped : Store → Result → List ℕ → Type 0
Dropped s r xs =
    (s' : Store) × (l' : LinkList) × (r ≡ some (s', l'))
    × Holds s' l' xs
    × ((a : ℕ) → has a xs ≡ false → s' a ≡ s a)

drop_head-Holds :
    (s : Store) (l : LinkList) (x : ℕ) (xs : List ℕ)
    → Holds s l (x ∷ xs)
    → Dropped s (drop_head (s x).next s l) xs
unfolding drop_head write_prev write
drop_head-Holds s l x [] h =
    (s, no_list, ground arith, record { chain = refl; last_is_tail = refl }, λ a _. refl)
drop_head-Holds s l x (y ∷ ys) h =
    let s' = update s y (record (s y) { prev = 0 }) in
    let spares : (a : ℕ) → a ≢ y → s' a ≡ s a = λ a n. update_ne s y a _ n in
    let below : Chain s' y (s y).next ys =
      frame y (s y).next ys (λ a i. spares a (ne_of_has a y ys i (ground arith))) h.chain.4.4 in
    (
      s',
      record l { head = y },
      ground arith,
      record {
        chain = ground (arith, update_self s y (record (s y) { prev = 0 }), below);
        last_is_tail = h.last_is_tail;
      },
      λ a o. spares a (ground arith),
    )

-- `DequeueHead` of a well-formed list returns the first object and leaves a well-formed list of the
-- others, with no write outside it.
pub dequeue_head-Holds :
    (s : Store) (l : LinkList) (x : ℕ) (xs : List ℕ)
    → Holds s l (x ∷ xs)
    → (s' : Store) × (l' : LinkList) × (dequeue_head s l ≡ some (x, s', l'))
      × Holds s' l' xs
      × ((a : ℕ) → has a xs ≡ false → s' a ≡ s a)
unfolding dequeue_head read
dequeue_head-Holds s l x xs h =
    let (s', l', e, holds, spares) = drop_head-Holds s l x xs h in
    (s', l', ground (arith, e), holds, spares)

-- `Dequeue` of the head of a well-formed list leaves a well-formed list of the others, with no
-- write outside it.
pub dequeue-head-Holds :
    (s : Store) (l : LinkList) (x : ℕ) (xs : List ℕ)
    → Holds s l (x ∷ xs)
    → Dropped s (dequeue x s l) xs
unfolding dequeue read
dequeue-head-Holds s l x xs h =
    let (s', l', e, holds, spares) = drop_head-Holds s l x xs h in
    (s', l', ground (arith, e), holds, spares)

-- The last object of a chain leads back to the one before it.
prev_of_last :
    (s : Store) (back p t : ℕ) (xs : List ℕ)
    → Chain s back p (xs ++ t ∷ [])
    → (s t).prev ≡ last back xs
prev_of_last s back p t [] c = c.3
prev_of_last s back p t (x ∷ xs) c = prev_of_last s x (s x).next t xs c.4

-- Cutting a chain before its last object.
cut :
    {s s' : Store} (t q back p x : ℕ) (xs : List ℕ)
    → q ≡ last x xs
    → ((a : ℕ) → a ≢ q → s' a ≡ s a)
    → s' q ≡ record { next = 0; prev = (s q).prev }
    → Chain s back p (x ∷ (xs ++ t ∷ []))
    → Chain s' back p (x ∷ xs)
cut {s} {s'} t q back p x [] is_last same at_q c = ground (arith, at_q)
cut {s} {s'} t q back p x (y ∷ xs) is_last same at_q c =
    let fresh : has x (y ∷ xs) ≡ false = ground (arith, has-append x xs (t ∷ []), c.2) in
    let x_ne = ne_of_has (last y xs) x (y ∷ xs) (has-last y xs) fresh in
    let e : s' x ≡ s x = same x (λ h. x_ne (sym is_last ∙ sym h)) in
    let rest : Chain s' x (s x).next (y ∷ xs) = cut t q x (s x).next y xs is_last same at_q c.4 in
    (c.0, c.1, fresh, rw e c.3, rw e rest)

-- `DequeueTail` of a well-formed list returns the last object and leaves a well-formed list of the
-- others, with no write outside it.
pub dequeue_tail-Holds :
    (s : Store) (l : LinkList) (t : ℕ) (xs : List ℕ)
    → Holds s l (xs ++ t ∷ [])
    → (s' : Store) × (l' : LinkList) × (dequeue_tail s l ≡ some (t, s', l'))
      × Holds s' l' xs
      × ((a : ℕ) → has a xs ≡ false → s' a ≡ s a)
unfolding dequeue_tail drop_tail write_next write read
dequeue_tail-Holds s l t [] h =
    (s, no_list, ground arith, record { chain = refl; last_is_tail = refl }, λ a _. refl)
dequeue_tail-Holds s l t (x ∷ xs) h =
    let q = (s t).prev in
    let q_last : q ≡ last x xs = prev_of_last s x (s x).next t xs h.chain.4 in
    let s' = update s q (record (s q) { next = 0 }) in
    let inside : has q (x ∷ xs) ≡ true =
      subst (λ p. has p (x ∷ xs) ≡ true) (sym q_last) (has-last x xs) in
    let no_null = Chain-ne_null s 0 l.head (x ∷ (xs ++ t ∷ [])) h.chain in
    let null_out : has 0 (x ∷ xs) ≡ false = ground (arith, has-append 0 xs (t ∷ []), no_null) in
    let t_ne : t ≢ 0 = ground (arith, has-append 0 xs (t ∷ []), no_null) in
    let q_ne : q ≢ 0 = ne_of_has q 0 (x ∷ xs) inside null_out in
    (
      s',
      record l { tail = q },
      ground (arith, last-append x t xs, h.last_is_tail),
      record {
        chain =
            cut t q 0 l.head x xs q_last (λ a n. update_ne s q a (record (s q) { next = 0 }) n)
              (update_self s q (record (s q) { next = 0 })) h.chain;
        last_is_tail = q_last;
      },
      λ a o.
          update_ne s q a (record (s q) { next = 0 })
            (λ e. ne_of_has q a (x ∷ xs) inside o (sym e)),
    )

-- From a well-formed list that is not empty: `DequeueHead` returns the first object, `Dequeue` of
-- the first object removes it and `DequeueTail` returns the last; each leaves a well-formed list
-- of the others, with no write outside it.
pub dequeue_ends_lem :
    (s : Store) (l : LinkList) (x t : ℕ) (xs ys : List ℕ)
    → Holds s l (x ∷ xs)
    → x ∷ xs ≡ ys ++ t ∷ []
    → ((s' : Store) × (l' : LinkList) × (dequeue_head s l ≡ some (x, s', l'))
        × Holds s' l' xs
        × ((a : ℕ) → has a xs ≡ false → s' a ≡ s a))
      × Dropped s (dequeue x s l) xs
      × ((s' : Store) × (l' : LinkList) × (dequeue_tail s l ≡ some (t, s', l'))
          × Holds s' l' ys
          × ((a : ℕ) → has a ys ≡ false → s' a ≡ s a))
dequeue_ends_lem s l x t xs ys h e = (
  dequeue_head-Holds s l x xs h,
  dequeue-head-Holds s l x xs h,
  dequeue_tail-Holds s l t ys (subst (Holds s l) e h),
)
