-- ===== src/Util/LinkList/Chain.antt =====
-- What a list of objects is in the store, and which writes spare it.
use libpeli.Base.{ℕ, Bool, true, false, ◌||◌, ◌≡◌, refl, sym, ◌≢◌, List, [], ◌∷◌, ◌++◌, arith, ◌==◌}
use mathlib.Core.Path.{subst}
use libpeli.Util.LinkList.{Link, LinkList, Store, update}

abbrev pub has : ℕ → List ℕ → Bool
has a [] = false
has a (x ∷ xs) = (a == x) || has a xs

-- The last element, or `d`.
abbrev pub last : ℕ → List ℕ → ℕ
last d [] = d
last d (x ∷ xs) = last x xs

-- From `p` the `next` pointers lead through the distinct objects `xs` to `nullptr`, and the `prev`
-- pointers lead back to `back`.
abbrev pub Chain : Store → ℕ → ℕ → List ℕ → Type 0
Chain s back p [] = p ≡ 0
Chain s back p (x ∷ xs) =
    (p ≡ x) × (x ≢ 0) × (has x xs ≡ false) × ((s x).prev ≡ back) × Chain s x (s x).next xs

-- `l` is a well-formed list of the objects `xs`.
pub record Holds (s : Store) (l : LinkList) (xs : List ℕ) : Type 0 where
  pub chain : Chain s 0 l.head xs
  pub last_is_tail : l.tail ≡ last 0 xs

pub update_self : (s : Store) (p : ℕ) (v : Link) → update s p v p ≡ v
unfolding update
update_self s p v = ground arith

pub update_ne : (s : Store) (p a : ℕ) (v : Link) → a ≢ p → update s p v a ≡ s a
unfolding update
update_ne s p a v h = ground arith

pub has-append : (a : ℕ) (xs ys : List ℕ) → has a (xs ++ ys) ≡ (has a xs || has a ys)
has-append a [] ys = refl
has-append a (x ∷ xs) ys = ground (arith, has-append a xs ys)

pub last-append : (d t : ℕ) (xs : List ℕ) → last d (xs ++ t ∷ []) ≡ t
last-append d t [] = refl
last-append d t (x ∷ xs) = last-append x t xs

pub has-last : (x : ℕ) (xs : List ℕ) → has (last x xs) (x ∷ xs) ≡ true
has-last x [] = ground arith
has-last x (y ∷ xs) = ground (arith, has-last y xs)

-- A chain survives a change of the store that spares its objects.
pub frame :
    {s s' : Store} (back p : ℕ) (xs : List ℕ)
    → ((a : ℕ) → has a xs ≡ true → s' a ≡ s a)
    → Chain s back p xs
    → Chain s' back p xs
frame back p [] same c = c
frame {s} {s'} back p (x ∷ xs) same c =
    let e : s' x ≡ s x = same x (ground arith) in
    let rest : Chain s' x (s x).next xs =
      frame x (s x).next xs (λ a h. same a (ground (arith, h))) c.4 in
    (c.0, c.1, c.2, rw e c.3, rw e rest)

-- An object that is in one list and not in another differs from each of it.
pub ne_of_has : (a b : ℕ) (xs : List ℕ) → has a xs ≡ true → has b xs ≡ false → a ≢ b
ne_of_has a b [] h k e = cc
ne_of_has a b (x ∷ xs) h k e = ground (arith, ne_of_has a b xs)

-- No object of a chain is `nullptr`.
pub Chain-ne_null : (s : Store) (back p : ℕ) (xs : List ℕ) → Chain s back p xs → has 0 xs ≡ false
Chain-ne_null s back p [] c = refl
Chain-ne_null s back p (x ∷ xs) c = ground (arith, Chain-ne_null s x (s x).next xs c.4)

pub tail_mem :
    (s : Store) (l : LinkList) (x : ℕ) (xs : List ℕ)
    → Holds s l (x ∷ xs)
    → has l.tail (x ∷ xs) ≡ true
tail_mem s l x xs h = subst (λ q. has q (x ∷ xs) ≡ true) (sym h.last_is_tail) (has-last x xs)
