-- ===== src/Util/Address/Align.antt =====
-- What `AlignUp`, `AlignDown`, `IsAligned` and `CheckBounds` compute.
use native.Mathlib.Decide.{dec_le}
use native.Mathlib.Nat.{mul-le-mul_left, div-add-mod, mod-lt, mul-mod_right}
use native.Mathlib.Nat.{mod-eq_of_lt}
use libpeli.Base.{ℕ, ◌+◌, ◌-◌, ◌*◌, ◌/◌, ◌%◌, ◌^◌, ◌≤◌, ◌<◌, ◌≡◌, true, ap, ◌∙◌, ◌↔◌, arith}
use libpeli.Base.Word.{add32, sub32}
use libpeli.Util.Address.{align_up, align_down, is_aligned, check_bounds}

-- Taking the remainder off leaves a multiple.
mod-sub_self : (n a : ℕ) → 0 < a → (n - n % a) % a ≡ 0
mod-sub_self n a h =
    ap (λ t. t % a) {x = n - n % a} {y = a * (n / a)} (omega (arith, div-add-mod n a))
    ∙ mul-mod_right a (n / a)

-- For a positive alignment, `AlignDown` gives a multiple of it that is not above the address and is
-- less than one alignment below.
pub align_down_lem :
    (a n : ℕ)
    → 0 < a
    → (is_aligned a (align_down a n) ≡ true) × (align_down a n ≤ n) × (n < align_down a n + a)
unfolding align_down is_aligned
align_down_lem a n h = ground (arith, mod-sub_self n a h, mod-lt n h)

-- For a positive alignment, where the address plus the alignment is at most 2 ^ 32, `AlignUp`
-- gives a multiple of it that is not below the address and is less than one alignment above.
pub align_up_lem :
    (a n : ℕ)
    → 0 < a
    → n + a ≤ 2 ^ 32
    → (is_aligned a (align_up a n) ≡ true) × (n ≤ align_up a n) × (align_up a n < n + a)
unfolding align_up is_aligned
align_up_lem a n h fits =
    let raw = n + (a - 1) in
    let no_wrap : add32 n (sub32 a 1) ≡ raw = omega arith in
    rw (no_wrap, align_up) (ground (arith, mod-sub_self raw a h, mod-lt raw h))

multiple_le : (a u p : ℕ) → 0 < a → u % a ≡ 0 → p % a ≡ 0 → u < p + a → u ≤ p
multiple_le a u p h eu ep lt = elim (dec_le (u / a) (p / a)) [
  | yes le ↦ omega (arith, div-add-mod u a, div-add-mod p a, mul-le-mul_left a le)
  | no gt ↦ omega (
    arith,
    div-add-mod u a,
    div-add-mod p a,
    mul-le-mul_left {m = p / a + 1} {n = u / a} a (omega (arith, gt)),
  )
]

aligned-mod : (a n : ℕ) → is_aligned a n ≡ true → n % a ≡ 0
unfolding is_aligned
aligned-mod a n e = ground arith

-- No multiple lies between.
pub align_up_least : (a n p : ℕ) → 0 < a → n + a ≤ 2 ^ 32 → p % a ≡ 0 → n ≤ p → align_up a n ≤ p
align_up_least a n p h fits e le =
    let up = align_up_lem a n h fits in
    multiple_le a (align_up a n) p h (aligned-mod a (align_up a n) up.0) e (omega (arith, up))

pub align_down_greatest : (a n p : ℕ) → 0 < a → p % a ≡ 0 → p ≤ n → p ≤ align_down a n
align_down_greatest a n p h e le =
    let down = align_down_lem a n h in
    multiple_le a p (align_down a n) h e (aligned-mod a (align_down a n) down.0)
      (omega (arith, down, le))

-- On 32-bit values, `CheckBounds` accepts exactly the buffers that lie in the bounds where neither
-- end reaches 2 ^ 32.
pub check_bounds_iff :
    (low bound_len inside len : ℕ)
    → low < 2 ^ 32
    → bound_len < 2 ^ 32
    → inside < 2 ^ 32
    → len < 2 ^ 32
    → (check_bounds low bound_len inside len ≡ true) ↔ (
        (low + bound_len < 2 ^ 32)
        × (inside + len < 2 ^ 32)
        × (low ≤ inside)
        × (inside + len ≤ low + bound_len))
unfolding check_bounds
check_bounds_iff low bound_len inside len h1 h2 h3 h4 = (λ e. ground arith, λ e. ground arith)

-- Below the alignment there is no multiple but 0.
pub align_down_small : (a n : ℕ) → n < a → align_down a n ≡ 0
unfolding align_down
align_down_small a n h = omega (arith, mod-eq_of_lt h)
