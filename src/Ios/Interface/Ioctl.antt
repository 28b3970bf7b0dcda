-- ===== src/Ios/Interface/Ioctl.antt =====
-- peli/ios/Interface.hpp: what the request of an `IoctlDef` tells IOS.
use libpeli.Ios.Interface.{
  other, swap, Shape, object, pointer, Given, by_value, null, address, const_address, allocated,
  io_vector, Stack, vector_of,
}
use libpeli.Base.{ℕ, ◌+◌, ◌^◌, ◌≤◌, ◌<◌, ◌≡◌, ◌≢◌, List, [], ◌∷◌, Option, some}
use libpeli.Util.Address.{align_up}
use libpeli.Ios.Block.{IoVectors, set_at}
use libpeli.Ios.Ipc.{Ipc}
use libpeli.Ios.Ipc.Sync.Submits.{Submits}
use libpeli.Ios.Request.{Request}

module _ (this alloc : ℕ → ℕ) where
  -- The memory that an argument for at most one input type means: the copy in the request, the
  -- caller's, or none.
  pub data Input : List Shape → List Given → ℕ → ℕ → Type 0 where
    no_input : Input [] [] 0 0
    copied : (n : ℕ) → Input (object n ∷ []) (by_value ∷ []) (this 0) n
    struct_null : (n : ℕ) → Input (object n ∷ []) (null ∷ []) 0 0
    struct_at : (n p : ℕ) → Input (object n ∷ []) (address p ∷ []) p n
    const_struct_at : (n p : ℕ) → Input (object n ∷ []) (const_address p ∷ []) p n
    pointer_null : (n : ℕ) → Input (pointer n ∷ []) (null ∷ []) 0 0
    pointer_at : (n p : ℕ) → Input (pointer n ∷ []) (address p ∷ []) p n
    const_null : (n : ℕ) → Input (pointer n ∷ []) (const_address 0 ∷ []) 0 0
    const_at : (n p : ℕ) → p ≢ 0 → Input (pointer n ∷ []) (const_address p ∷ []) p n
    input_vector : (n p m : ℕ) → Input (pointer n ∷ []) (io_vector p m ∷ []) p m

  -- The same for at most one output type: a struct is in the request, and a size is allocated.
  pub data Output (index : ℕ) : List Shape → List Given → ℕ → ℕ → Type 0 where
    no_output : Output index [] [] 0 0
    struct_output : (n : ℕ) → Output index (object n ∷ []) [] (this index) n
    output_null : (n : ℕ) → Output index (pointer n ∷ []) (null ∷ []) 0 0
    output_at : (n p : ℕ) → Output index (pointer n ∷ []) (address p ∷ []) p n
    nothing_allocated : (n : ℕ) → Output index (pointer n ∷ []) (allocated 0 ∷ []) 0 0
    output_allocated :
        (n m : ℕ)
        → 0 < m
        → m + 32 ≤ 2 ^ 32
        → alloc (align_up 32 m) < 2 ^ 32
        → Output index (pointer n ∷ []) (allocated m ∷ []) (alloc (align_up 32 m)) m
    output_vector : (n p m : ℕ) → Output index (pointer n ∷ []) (io_vector p m ∷ []) p m

  zeros : IoVectors
  zeros i = vector_of 0 0

  -- One vector is this, and the others are zero.
  Shows : ℕ → ℕ → ℕ → Stack → Type 0
  Shows index p n b =
      (b.vec index ≡ vector_of p n) × ((j : ℕ) → j ≢ index → b.vec j ≡ vector_of 0 0)

  one_vector : ℕ → ℕ → ℕ → ℕ → ℕ → Stack
  one_vector index p n ptr size = record {
    vec = set_at index (vector_of p n) zeros;
    v_stack_ptr = ptr;
    alloc_size = size;
  }

  Built : ℕ → ℕ → ℕ → Option Stack → Type 0
  Built index p n o = (b : Stack) × (o ≡ some b) × Shows index p n b

  -- The vectors of the types after an input at 0, and one at 0 that is this.
  Requested : (ins a m b k : ℕ) → Option Stack → Type 0
  Requested ins a m b k o =
      (c : Stack) × (o ≡ some c)
      × (c.vec (swap ins) ≡ vector_of a m)
      × (c.vec (other (swap ins)) ≡ vector_of b k)
