-- ===== src/Rt/Exceptions/Vector.antt =====
-- peli/rt/Exceptions.cpp and peli/ppc/Exception.hpp: the code of the exception vectors. The memory
-- is words by address; a function is the words of its code.
use native.Mathlib.Decide.{dec_lt}
use libpeli.Base.{
  sym, if_true, ap, ◌∙◌, ℕ, zero, suc, ◌+◌, ◌*◌, ◌<◌, ◌≤◌, ◌≡◌, ◌≢◌, ◌⊎◌, inl, inr, refl, bit_or,
  Bool, false, ◌&&◌, ◌||◌, leb, ltb, ◌==◌, List, [], ◌∷◌, Option, none, some, if◌then◌else◌, arith,
  Bool-cases,
}

abbrev get_elem? : List ℕ → ℕ → Option ℕ
get_elem? [] i = none
get_elem? (x ∷ xs) zero = some x
get_elem? (x ∷ xs) (suc i) = get_elem? xs i

-- `ExceptionHandlers`, by the number of the exception.
abbrev pub vector_offsets : List ℕ
vector_offsets =
    0x100 ∷ 0x200 ∷ 0x300 ∷ 0x400 ∷ 0x500 ∷ 0x600 ∷ 0x700 ∷ 0x800 ∷ 0x900 ∷ 0xc00 ∷ 0xd00 ∷ 0xe00
    ∷ 0xf00 ∷ 0x1300 ∷ 0x1400 ∷ 0x1700 ∷ []

unfoldable pub get_exception_vector_address : ℕ → Option ℕ
get_exception_vector_address type = elim (get_elem? vector_offsets type) [
  | none ↦ none
  | some offset ↦ some (0x80000000 + offset)
]

abbrev pub Memory : Type 0
Memory = ℕ → ℕ

abbrev pub store : ℕ → ℕ → Memory → Memory
store a v mem b = if b == a then v else mem b

-- `DcZero(vector, 64 * sizeof(u32))`
abbrev pub zeroed : ℕ → Memory → Memory
zeroed vector mem a = if leb vector a && ltb a (vector + 256) then 0 else mem a

-- `li r3, 0xDEAD` becomes `li r3, type`.
abbrev pub patched : ℕ → ℕ → ℕ
patched type instruction = if instruction == 0x3860dead then bit_or 0x38600000 type else instruction

-- `left` more words, from `i` up.
pub copy_words : ℕ → (ℕ → ℕ) → ℕ → ℕ → ℕ → Memory → Memory
copy_words type code vector zero i mem = mem
copy_words type code vector (suc left) i mem =
    let rest =
      copy_words type code vector left (suc i)
        (store (vector + 4 * i) (patched type (code i)) mem) in
    if code i == 0 then mem else rest

pub write_function_to_vector : ℕ → (ℕ → ℕ) → Memory → Memory
unfolding copy_words get_exception_vector_address
write_function_to_vector type code mem = elim (get_exception_vector_address type) [
  | none ↦ mem
  | some vector ↦ copy_words type code vector 64 0 (zeroed vector mem)
]

-- A zero among the words from `i` on, of which there are `count`.
abbrev pub ends : (ℕ → ℕ) → ℕ → ℕ → Bool
ends code zero i = false
ends code (suc count) i = code i == 0 || ends code count (suc i)

module _ (type : ℕ) (code : ℕ → ℕ) (vector : ℕ) where
  module _ (i left a : ℕ) (mem : Memory)
      (h : (a < vector + 4 * i) ⊎ (vector + 4 * (i + suc left) ≤ a)) where
    later : (a < vector + 4 * suc i) ⊎ (vector + 4 * (suc i + left) ≤ a)
    later = elim h [ inl p ↦ inl (omega arith) | inr p ↦ inr (omega arith) ]

    kept : store (vector + 4 * i) (patched type (code i)) mem a ≡ mem a
    kept = elim h [ inl p ↦ ground arith | inr p ↦ ground arith ]

  copy_words-outside :
      (left i : ℕ) (mem : Memory) (a : ℕ)
      → (a < vector + 4 * i) ⊎ (vector + 4 * (i + left) ≤ a)
      → copy_words type code vector left i mem a ≡ mem a
  unfolding copy_words
  copy_words-outside zero i mem a h = refl
  copy_words-outside (suc left) i mem a h = elim (Bool-cases (code i == 0)) [
    | inl done ↦ rw done refl
    | inr more ↦ rw more (
        copy_words-outside left (suc i) (store (vector + 4 * i) (patched type (code i)) mem) a
          (later i left a mem h)
        ∙ kept i left a mem h)
  ]

  -- The word `j`, which is `k` places on: a copy, if no zero stands before it.
  copy_words-word :
      (left k i j a : ℕ) (mem : Memory)
      → k < left
      → j ≡ i + k
      → a ≡ vector + 4 * j
      → copy_words type code vector left i mem a
        ≡ (if ends code (suc k) i then mem a else patched type (code j))
  unfolding copy_words
  copy_words-word zero k i j a mem h e f = absurd (omega arith)
  copy_words-word (suc left) zero i j a mem h e f = elim (Bool-cases (code i == 0)) [
    | inl done ↦ rw done refl
    | inr more ↦ rw more (
        copy_words-outside left (suc i) (store (vector + 4 * i) (patched type (code i)) mem) a
          (inl (omega arith))
        ∙ here)
  ]
    where
      same : j ≡ i
      same = omega arith

      here : store (vector + 4 * i) (patched type (code i)) mem a ≡ patched type (code j)
      here =
          if_true {b = a == vector + 4 * i} (patched type (code i)) (mem a) (ground (arith, same))
          ∙ ap (λ x. patched type (code x)) (sym same)
  copy_words-word (suc left) (suc k) i j a mem h e f = elim (Bool-cases (code i == 0)) [
    | inl done ↦ rw done refl
    | inr more ↦ rw more (
        copy_words-word left k (suc i) j a (store (vector + 4 * i) (patched type (code i)) mem)
          (omega arith) (omega arith) f
        ∙ ap (λ m. if ends code (suc k) (suc i) then m else patched type (code j)) there)
  ]
    where
      there : store (vector + 4 * i) (patched type (code i)) mem a ≡ mem a
      there = ground arith

-- The vectors are at least 64 words apart.
abbrev Spaced : ℕ → List ℕ → Type 0
Spaced low [] = Unit {0}
Spaced low (x ∷ xs) = (low ≤ x) × Spaced (x + 256) xs

Spaced-low : (low : ℕ) (xs : List ℕ) (i x : ℕ) → Spaced low xs → get_elem? xs i ≡ some x → low ≤ x
Spaced-low low [] i x s e = cc e
Spaced-low low (y ∷ xs) zero x s e = ground arith
Spaced-low low (y ∷ xs) (suc i) x s e = omega (arith, s.0, Spaced-low (y + 256) xs i x s.1 e)

Spaced-lt :
    (low : ℕ) (xs : List ℕ) (i j x y : ℕ)
    → Spaced low xs
    → i < j
    → get_elem? xs i ≡ some x
    → get_elem? xs j ≡ some y
    → x + 256 ≤ y
Spaced-lt low [] i j x y s h e f = cc e
Spaced-lt low (z ∷ xs) i zero x y s h e f = absurd (omega arith)
Spaced-lt low (z ∷ xs) zero (suc j) x y s h e f = ground (arith, Spaced-low (z + 256) xs j y s.1 f)
Spaced-lt low (z ∷ xs) (suc i) (suc j) x y s h e f =
    Spaced-lt (z + 256) xs i j x y s.1 (omega arith) e f

offset_of :
    (type v : ℕ)
    → get_exception_vector_address type ≡ some v
    → (o : ℕ) × (get_elem? vector_offsets type ≡ some o) × (v ≡ 0x80000000 + o)
unfolding get_exception_vector_address
offset_of type v p = from_entry (get_elem? vector_offsets type) p
  where
    from_entry :
        (e : Option ℕ)
        → elim e [ none ↦ none | some offset ↦ some (0x80000000 + offset) ] ≡ some v
        → (o : ℕ) × (e ≡ some o) × (v ≡ 0x80000000 + o)
    from_entry none q = cc q
    from_entry (some o) q = (o, refl, ground arith)

apart :
    (s t v w : ℕ)
    → get_exception_vector_address s ≡ some v
    → get_exception_vector_address t ≡ some w
    → s ≢ t
    → (v + 256 ≤ w) ⊎ (w + 256 ≤ v)
apart s t v w p q ne =
    let (a, ea, va) = offset_of s v p in
    let (b, eb, vb) = offset_of t w q in
    elim (dec_lt s t) [
      | yes lt ↦
          inl (omega (arith, va, vb, Spaced-lt 0 vector_offsets s t a b (omega arith) lt ea eb))
      | no ge ↦ inr (
          omega (
            arith,
            va,
            vb,
            Spaced-lt 0 vector_offsets t s b a (omega arith) (omega (arith, ne)) eb ea,
          ))
    ]

-- The vector of an exception holds the code up to its first zero, at most 64 words, with the type
-- of the exception put in, and zeros after it; the vectors of the others stay as they were.
pub write_function_to_vector_lem :
    (type vector : ℕ) (code : ℕ → ℕ) (mem : Memory) (k other other_vector : ℕ)
    → get_exception_vector_address type ≡ some vector
    → k < 64
    → other ≢ type
    → get_exception_vector_address other ≡ some other_vector
    → (write_function_to_vector type code mem (vector + 4 * k)
        ≡ (if ends code (suc k) 0 then 0 else patched type (code k)))
      × (write_function_to_vector type code mem (other_vector + 4 * k) ≡ mem (other_vector + 4 * k))
unfolding write_function_to_vector
write_function_to_vector_lem type vector code mem k other other_vector p h ne q =
    let away : (other_vector + 256 ≤ vector) ⊎ (vector + 256 ≤ other_vector) =
      apart other type other_vector vector q p ne in
    rw p (
      copy_words-word type code vector 64 k 0 k (vector + 4 * k) (zeroed vector mem) h (omega arith)
            refl
          ∙ ap (λ m. if ends code (suc k) 0 then m else patched type (code k)) (ground arith),
      copy_words-outside type code vector 64 0 (zeroed vector mem) (other_vector + 4 * k)
            (elim away [ inl l ↦ inl (omega arith) | inr r ↦ inr (omega arith) ])
          ∙ elim away [ inl l ↦ ground arith | inr r ↦ ground arith ],
    )
