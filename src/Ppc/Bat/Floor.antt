-- ===== src/Ppc/Bat/Floor.antt =====
-- peli/ppc/Bat.hpp: bit_floor and bit_ceil give powers of two.
use libpeli.Ppc.Bat.{bit_ceil, clz, bit_floor}
use libpeli.Base.{ℕ, zero, suc, ◌+◌, ◌-◌, ◌^◌, ◌≤◌, ◌<◌, ◌≡◌, ap, arith}
use native.Mathlib.Nat.{two-pow-succ, one-le-pow, pow-le-pow_right}
use native.Mathlib.Decide.{dec_lt, dec_le}

-- `value` has its highest bit at `k`.
pub record IsTop (k value : ℕ) : Type 0 where
  pub at : 2 ^ k ≤ value
  pub below : value < 2 ^ k + 2 ^ k

pub clz-IsTop : (width k value : ℕ) → k < width → IsTop k value → suc (clz width value + k) ≡ width
unfolding clz
clz-IsTop zero k value h t = absurd (omega arith)
clz-IsTop (suc width) k value h t = elim (dec_lt k width) [
  | yes lt ↦
      let up : 2 ^ suc k ≤ 2 ^ width = pow-le-pow_right (omega arith) (omega arith) in
      ground (arith, two-pow-succ k, up, clz-IsTop width k value lt t)
  | no ge ↦
      let e : k ≡ width = omega arith in
      let f : 2 ^ k ≡ 2 ^ width = ap (λ j. 2 ^ j) e in ground (arith, e, f)
]

pub bit_floor-IsTop : {k value : ℕ} → k < 32 → IsTop k value → bit_floor value ≡ 2 ^ k
unfolding bit_floor
bit_floor-IsTop {k} {value} h t =
    let c : suc (clz 32 value + k) ≡ 32 = clz-IsTop 32 k value h t in
    let e : 2 ^ (31 - clz 32 value) ≡ 2 ^ k = ap (λ j. 2 ^ j) (omega arith) in
    ground (arith, e, one-le-pow k 2 (omega arith))

-- A positive number below `2 ^ width` has a highest bit.
pub IsTop-of :
    (width value : ℕ) → 0 < value → value < 2 ^ width → (k : ℕ) × (k < width) × IsTop k value
IsTop-of zero value p h = absurd (omega arith)
IsTop-of (suc width) value p h = elim (dec_le (2 ^ width) value) [
  | yes high ↦ (width, omega arith, record { at = high; below = omega (arith, two-pow-succ width) })
  | no low ↦ let (k, lt, top) = IsTop-of width value p (omega arith) in (k, omega arith, top)
]

pub bit_floor_pos : (value : ℕ) → 0 < value → value < 2 ^ 32 → 0 < bit_floor value
bit_floor_pos value p h =
    let (k, lt, top) = IsTop-of 32 value p h in
    omega (arith, bit_floor-IsTop lt top, one-le-pow k 2 (omega arith))

pub pow-le : (j l : ℕ) → j ≤ l → 2 ^ j ≤ 2 ^ l
pow-le j l h = pow-le-pow_right {n = 2} (omega arith) h

pub lt_of_pow : (j l : ℕ) → 2 ^ j < 2 ^ l → j < l
lt_of_pow j l h = elim (dec_lt j l) [ yes lt ↦ lt | no ge ↦ absurd (omega (arith, pow-le l j)) ]

-- The least power of two that covers a size.
pub bit_ceil_lem :
    (size : ℕ)
    → 2 ^ 17 ≤ size
    → size ≤ 2 ^ 28
    → (k : ℕ) × (17 ≤ k) × (k < 29) × (size ≤ 2 ^ k) × (bit_ceil size ≡ 2 ^ k)
unfolding bit_ceil
bit_ceil_lem size l h =
    let (j, lt, top) = IsTop-of 28 (size - 1) (omega arith) (omega arith) in
    let c : suc (clz 32 (size - 1) + j) ≡ 32 = clz-IsTop 32 j (size - 1) (omega arith) top in
    let e : 2 ^ (32 - clz 32 (size - 1)) ≡ 2 ^ suc j = ap (λ i. 2 ^ i) (omega arith) in
    let covers : size ≤ 2 ^ suc j = omega (arith, two-pow-succ j, top.below) in
    let low : 2 ^ 16 < 2 ^ suc j = omega (arith, covers) in
    (
      suc j,
      omega (arith, lt_of_pow 16 (suc j) low),
      omega arith,
      covers,
      ground (arith, e, pow-le (suc j) 28 (omega arith)),
    )

pub double_pow-le : (j k : ℕ) → j < k → 2 ^ j + 2 ^ j ≤ 2 ^ k
double_pow-le j k h = omega (arith, two-pow-succ j, pow-le (suc j) k h)
