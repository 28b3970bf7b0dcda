-- ===== src/Ios/Interface.antt =====
-- peli/ios/Interface.hpp: the vectors of a typed call. A type is a struct or a pointer to one, with
-- its size; an argument is what the caller passes for it. A type that no constructor fits, which the
-- compiler refuses, is `none`. `this index` is the address of the member that holds the struct.
-- Strings, whose constructors count or copy characters, are outside the model.
pub mod Order
pub mod Ioctl
pub mod Pieces
pub mod Steps
pub mod Packed
mod Tests
use libpeli.Base.{
  ℕ, zero, suc, ◌+◌, Bool, true, false, List, [], ◌∷◌, Option, none, some, ◌>>=◌, if◌then◌else◌,
  ltb, ◌==◌,
}
use libpeli.Base.Word.{add32, sub32}
use libpeli.Util.Address.{align_up}
use libpeli.Ios.Block.{IoVector, IoVectors, set_at, alignment}
use libpeli.Ios.Ipc.{Ipc, Submitted}
use libpeli.Ios.Request.{Request, new_ioctl, new_ioctlv}

pub data Shape : Type 0 where
  object pointer : ℕ → Shape

pub data Given : Type 0 where
  by_value null : Given
  address const_address allocated : ℕ → Given
  io_vector : ℕ → ℕ → Given

abbrev pub vector_of : ℕ → ℕ → IoVector
vector_of start size = record { start = start; size = size }

-- `VecIndex`; in the reversed order it is meant to put the outputs first.
abbrev pub vec_index : Bool → ℕ → ℕ → ℕ → ℕ
vec_index false ins outs index = index
vec_index true ins outs index = if ltb index ins then add32 index outs else sub32 index outs

abbrev pub output_vec_index : Bool → ℕ → ℕ → ℕ → ℕ
output_vec_index reversed ins outs output = if reversed then output else add32 output ins

abbrev pub input_vec_index : Bool → ℕ → ℕ → ℕ → ℕ
input_vec_index reversed ins outs input = if reversed then add32 input outs else input

-- The vector of a pointer whose data, if allocated, is at `piece`.
pub pointer_vector : Bool → ℕ → Given → ℕ → Option IoVector
pointer_vector is_input size by_value piece = none
pointer_vector is_input size null piece = some (vector_of 0 0)
pointer_vector is_input size (address p) piece = some (vector_of p size)
pointer_vector true size (const_address p) piece = some (vector_of p (if p == 0 then 0 else size))
pointer_vector false size (const_address p) piece = none
pointer_vector true size (allocated n) piece = none
pointer_vector false size (allocated n) piece =
    some (if n == 0 then vector_of 0 0 else vector_of piece n)
pointer_vector is_input size (io_vector start n) piece = some (vector_of start n)

-- The vector of a struct that is an input.
abbrev pub object_vector : ℕ → Given → ℕ → Option IoVector
object_vector size by_value this = some (vector_of this size)
object_vector size null this = some (vector_of 0 0)
object_vector size (address p) this = some (vector_of p size)
object_vector size (const_address p) this = some (vector_of p size)
object_vector size (allocated n) this = none
object_vector size (io_vector start n) this = none

-- What the constructors leave: the vectors, and the memory they allocated.
pub record Stack : Type 0 where
  pub vec : IoVectors
  pub v_stack_ptr : ℕ
  pub alloc_size : ℕ

abbrev pub grown : Given → ℕ → ℕ
grown by_value alloc_size = alloc_size
grown null alloc_size = alloc_size
grown (address p) alloc_size = alloc_size
grown (const_address p) alloc_size = alloc_size
grown (allocated n) alloc_size = add32 alloc_size (align_up alignment n)
grown (io_vector start n) alloc_size = alloc_size

abbrev pub set_vec : ℕ → IoVector → Stack → Stack
set_vec index v b = record b { vec = set_at index v b.vec }

-- `host::Alloc` gives memory of a size.
module _ (reversed : Bool) (ins outs : ℕ) (this : ℕ → ℕ) (alloc : ℕ → ℕ) where
  -- A constructor calls that of the rest of the types first. An output struct takes no argument: a
  -- list whose null or pointer the overloads would take for the struct, and not for a later type, is
  -- outside the model.
  pub construct : List Shape → List Given → ℕ → ℕ → IoVectors → Option Stack
  construct [] [] index alloc_size vec = some (record {
    vec = vec;
    v_stack_ptr = if alloc_size == 0 then 0 else alloc alloc_size;
    alloc_size = alloc_size;
  })
  construct [] (g ∷ given) index alloc_size vec = none
  construct (object size ∷ extra) [] index alloc_size vec =
      let rest = construct extra [] (suc index) alloc_size vec in
      if ltb index ins then none else do
        b ← rest
        some (set_vec (vec_index reversed ins outs index) (vector_of (this index) size) b)
  construct (object size ∷ extra) (g ∷ given) index alloc_size vec =
      let input = construct extra given (suc index) alloc_size vec in
      let output = construct extra (g ∷ given) (suc index) alloc_size vec in
      if ltb index ins
      then (do
        b ← input
        v ← object_vector size g (this index)
        some (set_vec (vec_index reversed ins outs index) v b))
      else (do
        b ← output
        some (set_vec (vec_index reversed ins outs index) (vector_of (this index) size) b))
  construct (pointer size ∷ extra) [] index alloc_size vec = none
  construct (pointer size ∷ extra) (g ∷ given) index alloc_size vec = do
    b ← construct extra given (suc index) (grown g alloc_size) vec
    v ← pointer_vector (ltb index ins) size g (add32 b.v_stack_ptr alloc_size)
    some (set_vec (vec_index reversed ins outs index) v b)

  -- The request of an `IoctlVecDef`, its vectors at `vectors`.
  pub request_ioctlv :
      ℕ → ℕ → ℕ → ℕ → List Shape → List Given → Request → Ipc → Option (Submitted × Request)
  unfolding construct
  request_ioctlv self fd command vectors shapes given r s = do
    b ← construct shapes given 0 0 (s.vectors vectors)
    some (
        new_ioctlv self fd command ins outs vectors r
          (record s { vectors = set_at vectors b.vec s.vectors }))

-- `swap`: the first of two vectors is the input, unless there is none. In the reversed order the
-- second list of types has the inputs.
abbrev pub swap : ℕ → ℕ
swap ins = if ins == 0 then 1 else 0

abbrev pub other : ℕ → ℕ
other index = if index == 0 then 1 else 0

-- `sendRequest` of an `IoctlDef`.
pub send_request : ℕ → ℕ → ℕ → ℕ → IoVectors → Request → Ipc → Submitted × Request
send_request ins self fd command vectors r s =
    let input = vectors (swap ins) in
    let output = vectors (other (swap ins)) in
    new_ioctl self fd command input.start input.size output.start output.size r s

-- The request of an `IoctlDef`, on two vectors that are zero.
pub request_ioctl :
    Bool
    → ℕ
    → ℕ
    → (ℕ → ℕ)
    → (ℕ → ℕ)
    → ℕ
    → ℕ
    → ℕ
    → List Shape
    → List Given
    → Request
    → Ipc
    → Option (Submitted × Request)
unfolding construct send_request
request_ioctl reversed ins outs this alloc self fd command shapes given r s = do
  b ← construct reversed ins outs this alloc shapes given 0 0 (λ i. vector_of 0 0)
  some (send_request ins self fd command b.vec r s)
