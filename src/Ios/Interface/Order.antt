-- ===== src/Ios/Interface/Order.antt =====
-- peli/ios/Interface.hpp: which vector belongs to which type.
use libpeli.Base.{ℕ, ◌+◌, ◌^◌, ◌<◌, ◌≡◌, ◌↔◌, refl, true, false, arith}
use libpeli.Ios.Interface.{vec_index, input_vec_index, output_vec_index}

-- In the plain order a type and its lookup agree on the vector; in the reversed one the inputs
-- agree, but the outputs only if there are as many as inputs.
pub vec_index_lem :
    (ins outs input output : ℕ)
    → input < ins
    → output < outs
    → ins + outs < 2 ^ 31
    → (vec_index false ins outs input ≡ input_vec_index false ins outs input)
      × (vec_index false ins outs (ins + output) ≡ output_vec_index false ins outs output)
      × (vec_index true ins outs input ≡ input_vec_index true ins outs input)
      × ((vec_index true ins outs (ins + output) ≡ output_vec_index true ins outs output)
          ↔ (ins ≡ outs))
vec_index_lem ins outs input output h k small =
    (refl, omega arith, ground arith, ((λ e. ground (arith, e)), (λ e. ground (arith, e))))
