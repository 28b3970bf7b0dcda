-- ===== src/Ios/Interface/Packed.antt =====
-- peli/ios/Interface.hpp: the outputs that a call allocates share one block of memory.
use mathlib.Core.Path.{subst}
use libpeli.Base.{
  ℕ, suc, ◌+◌, ◌%◌, ◌^◌, ◌≤◌, ◌<◌, ◌≡◌, refl, sym, ◌∙◌, if_true, if_false, false, Bool-cases, List,
  [], ◌∷◌, Option, none, some, ◌>>=◌, if◌then◌else◌, ltb, ◌==◌, inl, inr, arith,
}
use libpeli.Base.Word.{add32}
use libpeli.Ios.Block.{IoVector, IoVectors}
use libpeli.Ios.Interface.{
  Shape, object, pointer, Given, Stack, construct, grown, set_vec, pointer_vector, object_vector,
  vector_of,
}
use libpeli.Ios.Interface.Pieces.{pieces, cons_piece, total, IsPacked, IsPacked-low, pieces-From}
use libpeli.Ios.Interface.Steps.{some_eq, chained, skip, grown-lem, pointer-GoodIfFits, GoodIfFits}

module _ (ins outs : ℕ) (this alloc : ℕ → ℕ) (base : (n : ℕ) → alloc n % 32 ≡ 0) where
  construct-GoodIfFits :
      (shapes : List Shape) (given : List Given) (index off : ℕ) (vec : IoVectors) (b : Stack)
      → construct false ins outs this alloc shapes given index off vec ≡ some b
      → off % 32 ≡ 0
      → off + total given < 2 ^ 32
      → GoodIfFits off (pieces ins shapes given index) b
  unfolding construct
  construct-GoodIfFits [] [] index off vec b e a small =
      subst (GoodIfFits off [])
        (some_eq
          {a = record {
            vec = vec;
            v_stack_ptr = if off == 0 then 0 else alloc off;
            alloc_size = off;
          }}
          {b = b} e)
        (λ fits. (omega arith, at_base, omega arith))
    where
      at_base : (if off == 0 then 0 else alloc off) % 32 ≡ 0
      at_base = elim (Bool-cases (off == 0)) [ inl z ↦ rw z refl | inr s ↦ rw s (base off) ]
  construct-GoodIfFits [] (g ∷ given) index off vec b e a small = cc e
  construct-GoodIfFits (object size ∷ extra) [] index off vec b e a small =
      elim (Bool-cases (ltb index ins)) [
        | inl i ↦ cc (sym (if_true none after i) ∙ e)
        | inr o ↦
            let (b', got, last) =
              chained (construct false ins outs this alloc extra [] (suc index) off vec) finish b
                (sym (if_false none after o) ∙ e) in
            subst (GoodIfFits off (pieces ins extra [] (suc index))) (some_eq last) (
              skip index off off (vector_of (this index) size) _ b' (omega arith)
                (pieces-From ins extra [] (suc index))
                (construct-GoodIfFits extra [] (suc index) off vec b' got a small))
      ]
    where
      finish : Stack → Option Stack
      finish s = some (set_vec index (vector_of (this index) size) s)

      after : Option Stack
      after = construct false ins outs this alloc extra [] (suc index) off vec >>= finish
  construct-GoodIfFits (object size ∷ extra) (g ∷ given) index off vec b e a small =
      elim (Bool-cases (ltb index ins)) [
        | inl i ↦ rw i (
            let (b', got, rest) =
              chained (construct false ins outs this alloc extra given (suc index) off vec)
                given_one b (sym (if_true input output i) ∙ e) in
            let (v, made, last) = chained (object_vector size g (this index)) (set b') b rest in
            subst (GoodIfFits off (pieces ins extra given (suc index))) (some_eq last) (
              skip index off off v _ b' (omega arith) (pieces-From ins extra given (suc index))
                (construct-GoodIfFits extra given (suc index) off vec b' got a (omega arith))))
        | inr o ↦ rw o (
            let (b', got, last) =
              chained (construct false ins outs this alloc extra (g ∷ given) (suc index) off vec)
                finish b (sym (if_false input output o) ∙ e) in
            subst (GoodIfFits off (pieces ins extra (g ∷ given) (suc index))) (some_eq last) (
              skip index off off (vector_of (this index) size) _ b' (omega arith)
                (pieces-From ins extra (g ∷ given) (suc index))
                (construct-GoodIfFits extra (g ∷ given) (suc index) off vec b' got a small)))
      ]
    where
      set : Stack → IoVector → Option Stack
      set s v = some (set_vec index v s)

      finish : Stack → Option Stack
      finish s = set s (vector_of (this index) size)

      given_one : Stack → Option Stack
      given_one s = object_vector size g (this index) >>= set s

      input : Option Stack
      input = construct false ins outs this alloc extra given (suc index) off vec >>= given_one

      output : Option Stack
      output = construct false ins outs this alloc extra (g ∷ given) (suc index) off vec >>= finish
  construct-GoodIfFits (pointer size ∷ extra) [] index off vec b e a small = cc e
  construct-GoodIfFits (pointer size ∷ extra) (g ∷ given) index off vec b e a small =
      let grows = grown-lem g off a (omega arith) in
      let (b', got, rest) =
        chained (construct false ins outs this alloc extra given (suc index) (grown g off) vec) _ b
          e in
      let (v, made, last) =
        chained (pointer_vector (ltb index ins) size g (add32 b'.v_stack_ptr off)) _ b rest in
      subst (GoodIfFits off (cons_piece index g (pieces ins extra given (suc index))))
        (some_eq last)
        (pointer-GoodIfFits (ltb index ins) size index off g v _ b' a (omega arith)
          (pieces-From ins extra given (suc index)) made
          (construct-GoodIfFits extra given (suc index) (grown g off) vec b' got grows.0
            (omega (arith, grows))))

-- Where the allocator gives multiples of 32, the sizes with 32 for each stay below 2 ^ 32, and the
-- memory of a call ends in the address space: each output to allocate has a vector of its size that
-- starts at a multiple of 32, and they lie one after another in the memory of the call.
pub construct-IsPacked :
    (ins outs : ℕ) (this alloc : ℕ → ℕ) (shapes : List Shape) (given : List Given) (vec : IoVectors)
    (b : Stack)
    → ((n : ℕ) → alloc n % 32 ≡ 0)
    → construct false ins outs this alloc shapes given 0 0 vec ≡ some b
    → total given < 2 ^ 32
    → b.v_stack_ptr + b.alloc_size ≤ 2 ^ 32
    → IsPacked b.vec b.v_stack_ptr (b.v_stack_ptr + b.alloc_size) (pieces ins shapes given 0)
construct-IsPacked ins outs this alloc shapes given vec b base e small fits =
    let (_, _, packed) =
      construct-GoodIfFits ins outs this alloc base shapes given 0 0 vec b e refl
        (omega (arith, small)) fits in
    IsPacked-low b.vec b.v_stack_ptr (b.v_stack_ptr + 0) (b.v_stack_ptr + b.alloc_size)
      (pieces ins shapes given 0) (omega arith) packed
