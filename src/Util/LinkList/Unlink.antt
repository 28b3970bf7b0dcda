-- ===== src/Util/LinkList/Unlink.antt =====
-- `Dequeue` of an object that is not the head. The `next` pointers are right afterwards; the
-- `prev` pointers and the tail are not.
use libpeli.Base.{
  ℕ, ◌≡◌, refl, sym, ap, ◌∙◌, ◌≢◌, false, true, List, [], ◌∷◌, ◌++◌, append-nil, some, arith, ◌==◌,
  if◌then◌else◌,
}
use mathlib.Core.Path.{subst}
use libpeli.Util.LinkList.{
  LinkList, Store, update, read, write, write_next, write_prev, unlink, dequeue,
}
use libpeli.Util.LinkList.Chain.{
  has, last, Chain, Holds, update_ne, frame, last-append, has-last, ne_of_has, Chain-ne_null,
  has-append,
}

-- What a walk along the `next` pointers from `p` meets.
abbrev pub Forward : Store → ℕ → List ℕ → Type 0
Forward s p [] = p ≡ 0
Forward s p (x ∷ xs) = (p ≡ x) × (x ≢ 0) × Forward s (s x).next xs

Chain-Forward : (s : Store) (back p : ℕ) (xs : List ℕ) → Chain s back p xs → Forward s p xs
Chain-Forward s back p [] c = c
Chain-Forward s back p (x ∷ xs) c = (c.0, c.1, Chain-Forward s x (s x).next xs c.4)

-- The store that `Dequeue` leaves of an object `t` with the predecessor `q`.
abbrev unlinked : ℕ → ℕ → Store → Store
unlinked t q s =
    let s1 = update s q (record (s q) { next = (s t).next }) in
    if (s t).next == 0 then s1 else update s1 q (record (s1 q) { prev = q })

module _ (t q : ℕ) (s : Store) where
  unlinked_spares : (a : ℕ) → a ≢ q → unlinked t q s a ≡ s a
  unfolding update
  unlinked_spares a h = ground arith

  unlinked_next : (unlinked t q s q).next ≡ (s t).next
  unfolding update
  unlinked_next = ground arith

  unlinked_prev : (s t).next ≢ 0 → (unlinked t q s q).prev ≡ q
  unfolding update
  unlinked_prev h = ground arith

-- Bypassing `t` from its predecessor `q` takes it out of the walk.
bypass :
    {s s' : Store} (t q back p x : ℕ) (xs ys : List ℕ)
    → q ≡ last x xs
    → ((a : ℕ) → a ≢ q → s' a ≡ s a)
    → (s' q).next ≡ (s t).next
    → Chain s back p (x ∷ (xs ++ t ∷ ys))
    → Forward s' p (x ∷ (xs ++ ys))
bypass {s} {s'} t q back p x [] ys is_last same at_q c =
    let below : Chain s' t (s t).next ys =
      frame t (s t).next ys
        (λ a i. same a (λ e. ne_of_has a x ys i (ground (arith, c.2)) (e ∙ is_last))) c.4.4 in
    let walk = Chain-Forward s' t (s t).next ys below in
    (c.0, c.1, subst (λ k. Forward s' k ys) (sym at_q ∙ ap (λ a. (s' a).next) is_last) walk)
bypass {s} {s'} t q back p x (y ∷ xs) ys is_last same at_q c =
    let fresh : has x (y ∷ xs) ≡ false = ground (arith, has-append x xs (t ∷ ys), c.2) in
    let x_ne = ne_of_has (last y xs) x (y ∷ xs) (has-last y xs) fresh in
    let e : s' x ≡ s x = same x (λ h. x_ne (sym is_last ∙ sym h)) in
    let rest : Forward s' (s x).next (y ∷ (xs ++ ys)) =
      bypass t q x (s x).next y xs ys is_last same at_q c.4 in
    (c.0, c.1, rw e rest)

prev_in :
    (s : Store) (back p t : ℕ) (xs ys : List ℕ)
    → Chain s back p (xs ++ t ∷ ys)
    → (s t).prev ≡ last back xs
prev_in s back p t [] ys c = c.3
prev_in s back p t (x ∷ xs) ys c = prev_in s x (s x).next t xs ys c.4

-- An object of a chain stands in it once.
not_before :
    (s : Store) (back p t : ℕ) (xs ys : List ℕ) → Chain s back p (xs ++ t ∷ ys) → has t xs ≡ false
not_before s back p t [] ys c = refl
not_before s back p t (x ∷ xs) ys c =
    ground (arith, has-append x xs (t ∷ ys), not_before s x (s x).next t xs ys c.4)

-- The facts about `t` and its predecessor that the branch needs.
record Placed (s : Store) (l : LinkList) (t : ℕ) (x : ℕ) (xs : List ℕ) : Type 0 where
  head_ne : l.head ≢ t
  t_ne : t ≢ 0
  before : (s t).prev ≡ last x xs
  before_ne : (s t).prev ≢ 0
  apart : t ≢ (s t).prev

placed :
    (s : Store) (l : LinkList) (t x : ℕ) (xs ys : List ℕ)
    → Holds s l (x ∷ (xs ++ t ∷ ys))
    → Placed s l t x xs
placed s l t x xs ys h =
    let before = prev_in s x (s x).next t xs ys h.chain.4 in
    let no_null = Chain-ne_null s 0 l.head (x ∷ (xs ++ t ∷ ys)) h.chain in
    let null_out : has 0 (x ∷ xs) ≡ false = ground (arith, has-append 0 xs (t ∷ ys), no_null) in
    let null_ne : t ≢ 0 = ground (arith, has-append 0 xs (t ∷ ys), no_null) in
    let inside : has (s t).prev (x ∷ xs) ≡ true =
      subst (λ p. has p (x ∷ xs) ≡ true) (sym before) (has-last x xs) in
    let once = not_before s 0 l.head t (x ∷ xs) ys h.chain in
    record {
      head_ne = ground (arith, once);
      t_ne = null_ne;
      before = before;
      before_ne = ne_of_has (s t).prev 0 (x ∷ xs) inside null_out;
      apart = λ e. ne_of_has (s t).prev t (x ∷ xs) inside once (sym e);
    }

dequeue-unlinked :
    (s : Store) (l : LinkList) (t x : ℕ) (xs ys : List ℕ)
    → Holds s l (x ∷ (xs ++ t ∷ ys))
    → dequeue t s l ≡ some (unlinked t (s t).prev s, l)
unfolding dequeue unlink read write_next write_prev write
dequeue-unlinked s l t x xs ys h =
    let p = placed s l t x xs ys h in
    let q = (s t).prev in
    let reread = update_ne s q t (record (s q) { next = (s t).next }) p.apart in
    ground (arith, reread, p.head_ne, p.t_ne, p.before_ne)

-- On a well-formed list, `Dequeue` of an object that is not the head faults nowhere, keeps the
-- list's head and tail, and takes exactly that object out of the walk along the `next` pointers.
pub dequeue-Forward :
    (s : Store) (l : LinkList) (t x : ℕ) (xs ys : List ℕ)
    → Holds s l (x ∷ (xs ++ t ∷ ys))
    → (s' : Store) × (dequeue t s l ≡ some (s', l)) × Forward s' l.head (x ∷ (xs ++ ys))
dequeue-Forward s l t x xs ys h =
    let q = (s t).prev in
    (
      unlinked t q s,
      dequeue-unlinked s l t x xs ys h,
      bypass t q 0 l.head x xs ys (placed s l t x xs ys h).before (unlinked_spares t q s)
          (unlinked_next t q s) h.chain,
    )

-- No object leads back to itself in a well-formed chain.
prev-ne_self :
    (s : Store) (back p a : ℕ) (xs : List ℕ)
    → has back xs ≡ false
    → Chain s back p xs
    → has a xs ≡ true
    → (s a).prev ≢ a
prev-ne_self s back p a [] out c i e = cc
prev-ne_self s back p a (x ∷ xs) out c i e =
    ground (arith, prev-ne_self s x (s x).next a xs c.2 c.4)

next_in :
    (s : Store) (back p t y : ℕ) (xs ys : List ℕ)
    → Chain s back p (xs ++ t ∷ y ∷ ys)
    → (s t).next ≢ 0
next_in s back p t y [] ys c e = c.4.1 (sym c.4.0 ∙ e)
next_in s back p t y (x ∷ xs) ys c e = next_in s x (s x).next t y xs ys c.4 e

-- After `Dequeue` of an object of a well-formed list that is not the head the list is not the
-- well-formed list of the others: either the predecessor leads back to itself, or the tail is
-- still the removed object.
pub dequeue-not-Holds :
    (s s' : Store) (l l' : LinkList) (t x : ℕ) (xs ys : List ℕ)
    → Holds s l (x ∷ (xs ++ t ∷ ys))
    → dequeue t s l ≡ some (s', l')
    → ¬ Holds s' l' (x ∷ (xs ++ ys))
dequeue-not-Holds s s' l l' t x xs [] h e k =
    let once = not_before s 0 l.head t (x ∷ xs) [] h.chain in
    let same : l' ≡ l = cc (dequeue-unlinked s l t x xs [] h) in
    ne_of_has (last x xs) t (x ∷ xs) (has-last x xs) once
      (ground (arith, append-nil xs, last-append x t xs, same, k.last_is_tail, h.last_is_tail))
dequeue-not-Holds s s' l l' t x xs (y ∷ ys) h e k =
    let p = placed s l t x xs (y ∷ ys) h in
    let q = (s t).prev in
    let same : s' ≡ unlinked t q s = cc (dequeue-unlinked s l t x xs (y ∷ ys) h) in
    let loop : (s' q).prev ≡ q =
      rw same (unlinked_prev t q s (next_in s 0 l.head t y (x ∷ xs) ys h.chain)) in
    let inside : has q (x ∷ (xs ++ y ∷ ys)) ≡ true =
      rw (p.before) (ground (arith, has-last x xs, has-append (last x xs) xs (y ∷ ys))) in
    prev-ne_self s' 0 l'.head q (x ∷ (xs ++ y ∷ ys))
      (Chain-ne_null s' 0 l'.head (x ∷ (xs ++ y ∷ ys)) k.chain) k.chain inside loop
