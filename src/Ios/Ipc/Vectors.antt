-- ===== src/Ios/Ipc/Vectors.antt =====
-- peli/ios/low/Ipc.cpp: the vectors of a request, turned to physical addresses and back.
use libpeli.Ios.Ipc.{IoVector, IoVectors, each_vector, set_at, to_physical, to_effective}
use libpeli.Base.{
  if_false, if_true, ℕ, zero, suc, ◌+◌, ◌*◌, ◌^◌, ◌≤◌, ◌<◌, ◌≡◌, ◌≢◌, refl, ap, ◌∙◌, true, false,
  arith, ◌==◌,
}
use native.Mathlib.Decide.{dec_lt, ℕ_discrete}
use libpeli.Util.Address.{physical, effective}
use libpeli.Util.Address.Regions.{effective-physical}

-- Cached memory: the addresses that `Effective` and `Physical` carry to each other.
pub record IsCached (a : ℕ) : Type 0 where
  pub from_start : 2 ^ 31 ≤ a
  pub to_end : a < 3 * 2 ^ 30

pub cached : {a : ℕ} → IsCached a → effective (physical a) ≡ a
cached {a} c = effective-physical a c.from_start c.to_end

module _ {ℓ} {A : Type ℓ} (p : ℕ) (x : A) (f : ℕ → A) where
  pub set_at_self : set_at p x f p ≡ x
  set_at_self = ground arith

  pub set_at_ne : (j : ℕ) → j ≢ p → set_at p x f j ≡ f j
  set_at_ne j ne = ground arith

module _ (f : IoVector → IoVector) where
  each_vector-below :
      (left index j : ℕ) (vec : IoVectors) → j < index → each_vector f index left vec j ≡ vec j
  unfolding each_vector
  each_vector-below zero index j vec h = refl
  each_vector-below (suc left) index j vec h =
      each_vector-below left (suc index) j (set_at index (f (vec index)) vec) (omega arith)
      ∙ set_at_ne index (f (vec index)) vec j (omega arith)

  each_vector-in :
      (left index j : ℕ) (vec : IoVectors)
      → index ≤ j
      → j < index + left
      → each_vector f index left vec j ≡ f (vec j)
  unfolding each_vector
  each_vector-in zero index j vec lo hi = absurd (omega arith)
  each_vector-in (suc left) index j vec lo hi = elim (dec_lt index j) [
    | yes h ↦
        each_vector-in left (suc index) j (set_at index (f (vec index)) vec) (omega arith)
          (omega arith)
        ∙ ap f (set_at_ne index (f (vec index)) vec j (omega arith))
    | no h ↦
        let same : j ≡ index = omega arith in
        rw same (
          each_vector-below left (suc index) index (set_at index (f (vec index)) vec) (omega arith)
          ∙ set_at_self index (f (vec index)) vec)
  ]

  each_vector-past :
      (left index j : ℕ) (vec : IoVectors)
      → index + left ≤ j
      → each_vector f index left vec j ≡ vec j
  unfolding each_vector
  each_vector-past zero index j vec h = refl
  each_vector-past (suc left) index j vec h =
      each_vector-past left (suc index) j (set_at index (f (vec index)) vec) (omega arith)
      ∙ set_at_ne index (f (vec index)) vec j (omega arith)

to_effective-to_physical :
    (v : IoVector) → (v.size ≢ 0 → IsCached v.start) → to_effective (to_physical v) ≡ v
to_effective-to_physical v h = elim (ℕ_discrete v.size 0) [
  | yes e ↦
      let none_left : (v.size == 0) ≡ true = ground arith in
      ap to_effective (if_true _ _ none_left) ∙ if_true _ _ none_left
  | no ne ↦
      let some_left : (v.size == 0) ≡ false = ground arith in
      let c = h ne in
      ap to_effective (if_false _ _ some_left)
      ∙ if_false _ _ some_left
      ∙ ap (λ a. record v { start = a }) (cached c)
]

pub each_vector-twice :
    (n i : ℕ) (v : IoVectors)
    → ((v i).size ≢ 0 → IsCached (v i).start)
    → each_vector to_effective 0 n (each_vector to_physical 0 n v) i ≡ v i
each_vector-twice n i v h = elim (dec_lt i n) [
  | yes inside ↦
      each_vector-in to_effective n 0 i (each_vector to_physical 0 n v) (omega arith) (omega arith)
      ∙ ap to_effective (each_vector-in to_physical n 0 i v (omega arith) (omega arith))
      ∙ to_effective-to_physical (v i) h
  | no outside ↦
      each_vector-past to_effective n 0 i (each_vector to_physical 0 n v) (omega arith)
      ∙ each_vector-past to_physical n 0 i v (omega arith)
]
