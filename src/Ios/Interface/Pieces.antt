-- ===== src/Ios/Interface/Pieces.antt =====
-- peli/ios/Interface.hpp: the memory that the constructors allocate for outputs.
use libpeli.Base.{
  ℕ, suc, ◌+◌, ◌%◌, ◌≤◌, ◌≡◌, false, Bool-cases, List, [], ◌∷◌, if◌then◌else◌, ltb, ◌==◌, inl, inr,
  arith,
}
use libpeli.Ios.Block.{IoVector, IoVectors, set_at}
use libpeli.Ios.Interface.{
  Shape, object, pointer, Given, by_value, null, address, const_address, allocated, io_vector,
}

-- Output data of a size, to be allocated.
pub record Piece : Type 0 where
  pub index : ℕ
  pub size : ℕ

abbrev pub cons_piece : ℕ → Given → List Piece → List Piece
cons_piece index by_value rest = rest
cons_piece index null rest = rest
cons_piece index (address p) rest = rest
cons_piece index (const_address p) rest = rest
cons_piece index (allocated n) rest =
    if n == 0 then rest else record { index = index; size = n } ∷ rest
cons_piece index (io_vector start n) rest = rest

-- The pieces that the arguments ask for, with the index of their vector.
abbrev pub pieces : ℕ → List Shape → List Given → ℕ → List Piece
pieces ins [] given index = []
pieces ins (object size ∷ extra) [] index = pieces ins extra [] (suc index)
pieces ins (object size ∷ extra) (g ∷ given) index =
    if ltb index ins
    then pieces ins extra given (suc index)
    else pieces ins extra (g ∷ given) (suc index)
pieces ins (pointer size ∷ extra) [] index = []
pieces ins (pointer size ∷ extra) (g ∷ given) index =
    cons_piece index g (pieces ins extra given (suc index))

abbrev pub amount : Given → ℕ
amount by_value = 0
amount null = 0
amount (address p) = 0
amount (const_address p) = 0
amount (allocated n) = n + 32
amount (io_vector start n) = 0

abbrev pub total : List Given → ℕ
total [] = 0
total (g ∷ given) = amount g + total given

-- Each piece starts a block of 32 bytes, behind the one before, and all are in the memory.
abbrev pub IsPacked : IoVectors → ℕ → ℕ → List Piece → Type 0
IsPacked vec low high [] = low ≤ high
IsPacked vec low high (p ∷ rest) =
    (low ≤ (vec p.index).start)
    × ((vec p.index).start % 32 ≡ 0)
    × ((vec p.index).size ≡ p.size)
    × IsPacked vec ((vec p.index).start + p.size) high rest

-- All the vectors are from an index on.
abbrev pub From : ℕ → List Piece → Type 0
From low [] = Unit
From low (p ∷ rest) = (low ≤ p.index) × From low rest

From-suc : (low : ℕ) (ps : List Piece) → From (suc low) ps → From low ps
From-suc low [] h = tt
From-suc low (p ∷ rest) h = (omega (arith, h.0), From-suc low rest h.1)

cons_piece-From :
    (index : ℕ) (g : Given) (ps : List Piece)
    → From (suc index) ps
    → From index (cons_piece index g ps)
cons_piece-From index by_value ps h = From-suc index ps h
cons_piece-From index null ps h = From-suc index ps h
cons_piece-From index (address p) ps h = From-suc index ps h
cons_piece-From index (const_address p) ps h = From-suc index ps h
cons_piece-From index (allocated n) ps h = elim (Bool-cases (n == 0)) [
  | inl z ↦ rw z (From-suc index ps h)
  | inr s ↦ rw s (omega arith, From-suc index ps h)
]
cons_piece-From index (io_vector start n) ps h = From-suc index ps h

pub pieces-From :
    (ins : ℕ) (shapes : List Shape) (given : List Given) (index : ℕ)
    → From index (pieces ins shapes given index)
pieces-From ins [] given index = tt
pieces-From ins (object size ∷ extra) [] index =
    From-suc index (pieces ins extra [] (suc index)) (pieces-From ins extra [] (suc index))
pieces-From ins (object size ∷ extra) (g ∷ given) index = elim (Bool-cases (ltb index ins)) [
  | inl i ↦ rw i (From-suc index _ (pieces-From ins extra given (suc index)))
  | inr o ↦ rw o (From-suc index _ (pieces-From ins extra (g ∷ given) (suc index)))
]
pieces-From ins (pointer size ∷ extra) [] index = tt
pieces-From ins (pointer size ∷ extra) (g ∷ given) index =
    cons_piece-From index g (pieces ins extra given (suc index))
      (pieces-From ins extra given (suc index))

-- A vector below the pieces does not matter, and neither does a lower start.
pub IsPacked-set :
    (index : ℕ) (v : IoVector) (vec : IoVectors) (low high : ℕ) (ps : List Piece)
    → From (suc index) ps
    → IsPacked vec low high ps
    → IsPacked (set_at index v vec) low high ps
IsPacked-set index v vec low high [] f h = h
IsPacked-set index v vec low high (p ∷ rest) f h =
    let e : (p.index == index) ≡ false = ground (arith, f.0) in
    rw e (h.0, h.1, h.2, IsPacked-set index v vec ((vec p.index).start + p.size) high rest f.1 h.3)

pub IsPacked-low :
    (vec : IoVectors) (low low' high : ℕ) (ps : List Piece)
    → low ≤ low'
    → IsPacked vec low' high ps
    → IsPacked vec low high ps
IsPacked-low vec low low' high [] le h = omega (arith, h)
IsPacked-low vec low low' high (p ∷ rest) le h = (omega (arith, h.0), h.1, h.2, h.3)
