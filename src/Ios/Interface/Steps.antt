-- ===== src/Ios/Interface/Steps.antt =====
-- peli/ios/Interface.hpp: what the constructor of one type adds to the memory of the outputs.
use mathlib.Core.Path.{subst}
use libpeli.Base.{
  ℕ, suc, ◌+◌, ◌%◌, ◌^◌, ◌≤◌, ◌<◌, ◌≡◌, refl, sym, ◌∙◌, Bool, true, false, Bool-cases, List, ◌∷◌,
  Option, none, some, ◌>>=◌, if◌then◌else◌, ◌==◌, inl, inr, arith,
}
use libpeli.Base.Word.{add32}
use libpeli.Util.Address.{align_up, is_aligned}
use libpeli.Ios.Block.{IoVector, alignment}
use libpeli.Ios.Interface.{
  Given, by_value, null, address, const_address, allocated, io_vector, Stack, grown, set_vec,
  pointer_vector, vector_of,
}
use libpeli.Util.Address.Align.{align_up_lem}
use libpeli.Ios.Interface.Pieces.{
  Piece, cons_piece, amount, IsPacked, IsPacked-set, IsPacked-low, From,
}

pub some_eq : {A : Type 0} {a b : A} → some a ≡ some b → a ≡ b
some_eq e = cc e

-- What is left of a chain that succeeds.
pub chained :
    {A B : Type 0} (o : Option A) (f : A → Option B) (b : B)
    → (o >>= f) ≡ some b
    → (x : A) × (o ≡ some x) × (f x ≡ some b)
chained none f b e = cc e
chained (some x) f b e = (x, refl, e)

abbrev pub IsGood : Stack → ℕ → List Piece → Type 0
IsGood b off ps =
    (off ≤ b.alloc_size)
    × (b.v_stack_ptr % 32 ≡ 0)
    × IsPacked b.vec (b.v_stack_ptr + off) (b.v_stack_ptr + b.alloc_size) ps

-- The memory does not go past the end of the address space.
abbrev pub GoodIfFits : ℕ → List Piece → Stack → Type 0
GoodIfFits off ps b = b.v_stack_ptr + b.alloc_size ≤ 2 ^ 32 → IsGood b off ps

pub skip :
    (index off off' : ℕ) (v : IoVector) (ps : List Piece) (b : Stack)
    → off ≤ off'
    → From (suc index) ps
    → GoodIfFits off' ps b
    → GoodIfFits off ps (set_vec index v b)
skip index off off' v ps b le from h fits =
    let (high, aligned, packed) = h fits in
    (
      omega arith,
      aligned,
      IsPacked-low (set_vec index v b).vec (b.v_stack_ptr + off) (b.v_stack_ptr + off')
          (b.v_stack_ptr + b.alloc_size) ps (omega arith)
          (IsPacked-set index v b.vec (b.v_stack_ptr + off') (b.v_stack_ptr + b.alloc_size) ps from
            packed),
    )

put :
    (index off n : ℕ) (ps : List Piece) (b : Stack)
    → off % 32 ≡ 0
    → 0 < n
    → off + (n + 32) < 2 ^ 32
    → From (suc index) ps
    → GoodIfFits (add32 off (align_up alignment n)) ps b
    → GoodIfFits off
        (record { index = index; size = n } ∷ ps)
        (set_vec index (vector_of (add32 b.v_stack_ptr off) n) b)
put index off n ps b aligned pos small from h fits =
    let (_, above, below) = align_up_lem 32 n (omega arith) (omega arith) in
    let e : add32 off (align_up alignment n) ≡ off + align_up 32 n = omega (arith, below) in
    let (high, base, packed) = h fits in
    let low : b.v_stack_ptr + off < 2 ^ 32 = omega (arith, high, e, above) in
    let d : add32 b.v_stack_ptr off ≡ b.v_stack_ptr + off = omega (arith, low) in
    let same : (index == index) ≡ true = ground arith in
    let start : IoVector = vector_of (add32 b.v_stack_ptr off) n in
    (
      omega (arith, high, e),
      base,
      rw same (
        omega (arith, d),
        omega (arith, d, base),
        refl,
        IsPacked-low (set_vec index start b).vec (add32 b.v_stack_ptr off + n)
            (b.v_stack_ptr + add32 off (align_up alignment n)) (b.v_stack_ptr + b.alloc_size) ps
            (omega (arith, d, e, above))
            (IsPacked-set index start b.vec (b.v_stack_ptr + add32 off (align_up alignment n))
              (b.v_stack_ptr + b.alloc_size) ps from packed),
      ),
    )

-- The offset after an argument.
pub grown-lem :
    (g : Given) (off : ℕ)
    → off % 32 ≡ 0
    → off + amount g < 2 ^ 32
    → (grown g off % 32 ≡ 0) × (off ≤ grown g off) × (grown g off ≤ off + amount g)
unfolding is_aligned
grown-lem by_value off a h = (a, omega arith, omega arith)
grown-lem null off a h = (a, omega arith, omega arith)
grown-lem (address p) off a h = (a, omega arith, omega arith)
grown-lem (const_address p) off a h = (a, omega arith, omega arith)
grown-lem (allocated n) off a h =
    let (m, above, below) = align_up_lem 32 n (omega arith) (omega arith) in
    let z : align_up 32 n % 32 ≡ 0 = ground arith in
    let e : add32 off (align_up 32 n) ≡ off + align_up 32 n = omega (arith, below) in
    (omega (arith, a, z, e), omega (arith, e), omega (arith, e, below))
grown-lem (io_vector start n) off a h = (a, omega arith, omega arith)

pub pointer-GoodIfFits :
    (is_input : Bool) (size index off : ℕ) (g : Given) (v : IoVector) (ps : List Piece) (b : Stack)
    → off % 32 ≡ 0
    → off + amount g < 2 ^ 32
    → From (suc index) ps
    → pointer_vector is_input size g (add32 b.v_stack_ptr off) ≡ some v
    → GoodIfFits (grown g off) ps b
    → GoodIfFits off (cons_piece index g ps) (set_vec index v b)
unfolding pointer_vector
pointer-GoodIfFits i size index off by_value v ps b a small from e h =
    skip index off off v ps b (omega arith) from h
pointer-GoodIfFits i size index off null v ps b a small from e h =
    skip index off off v ps b (omega arith) from h
pointer-GoodIfFits i size index off (address p) v ps b a small from e h =
    skip index off off v ps b (omega arith) from h
pointer-GoodIfFits i size index off (const_address p) v ps b a small from e h =
    skip index off off v ps b (omega arith) from h
pointer-GoodIfFits i size index off (io_vector start n) v ps b a small from e h =
    skip index off off v ps b (omega arith) from h
pointer-GoodIfFits true size index off (allocated n) v ps b a small from e h = cc e
pointer-GoodIfFits false size index off (allocated n) v ps b a small from e h =
    elim (Bool-cases (n == 0)) [
      | inl z ↦ rw z (
          skip index off (grown (allocated n) off) v ps b (grown-lem (allocated n) off a small).1
            from h)
      | inr s ↦ rw s (
          subst (λ w. GoodIfFits off (record { index = index; size = n } ∷ ps) (set_vec index w b))
            (some_eq (here s)) (put index off n ps b a (ground arith) small from h))
    ]
  where
    if_false_some :
        (n == 0) ≡ false
        → some (if n == 0 then vector_of 0 0 else vector_of (add32 b.v_stack_ptr off) n)
          ≡ some (vector_of (add32 b.v_stack_ptr off) n)
    if_false_some s = rw s refl

    here : (n == 0) ≡ false → some (vector_of (add32 b.v_stack_ptr off) n) ≡ some v
    here s = sym (if_false_some s) ∙ e
