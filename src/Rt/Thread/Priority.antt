-- ===== src/Rt/Thread/Priority.antt =====
-- The bit of a priority in the mask, and the count of leading zeros that finds the first one.
use libpeli.Base.Bits.{
  bit-le-one, bit-pow_ne, bit-pow_self, bit_and_step, bit-bit_or, bit-bit_and, bit_or_step, bit,
}
use libpeli.Base.{
  bit_and, bit_or, ◌≢◌, leb, true, false, ℕ, zero, suc, ◌+◌, ◌-◌, ◌*◌, ◌/◌, ◌^◌, ◌%◌, ◌≤◌, ◌<◌, ◌≡◌,
  ap, ◌∙◌, arith,
}
use libpeli.Rt.Thread.{count_leading_zero, priority_bit, suc, ◌^◌, ℕ, leading_zeros}
use Prim.Native.Nat.{bit_and-bitwise}
use mathlib.Core.Path.{subst}
use native.Mathlib.Decide.{dec_le}
use native.Mathlib.Nat.{pow-le-pow_right, div-eq_of_eq-mul_left, pow-suc, one-le-pow}

double_pow : (k : ℕ) → 2 ^ suc k ≡ 2 ^ k + 2 ^ k
double_pow k = omega (arith, pow-suc 2 k)

pow_step : (m n : ℕ) → m ≡ suc n → 2 ^ m ≡ 2 ^ n + 2 ^ n
pow_step m n e = ap (λ t. 2 ^ t) e ∙ double_pow n

more_fuel : (fuel value : ℕ) → 2 ^ (64 - suc fuel) ≤ value → ¬ (2 ^ 63 ≤ value) → 0 < fuel
more_fuel zero value lo below = absurd (below lo)
more_fuel (suc fuel) value lo below = omega arith

-- The bits of a number below a power.
bit_top : (k a : ℕ) → 2 ^ k ≤ a → a < 2 ^ suc k → bit a k ≡ 1
bit_top zero a lo hi = omega arith
bit_top (suc k) a lo hi =
    bit_top k (a / 2) (omega (arith, double_pow k, lo))
      (omega (arith, double_pow k, double_pow (suc k), hi))

bit_above : (k j a : ℕ) → a < 2 ^ k → k ≤ j → bit a j ≡ 0
bit_above zero zero a lt le = omega arith
bit_above zero (suc j) a lt le = bit_above zero j (a / 2) (omega arith) (omega arith)
bit_above (suc k) zero a lt le = absurd (omega arith)
bit_above (suc k) (suc j) a lt le =
    bit_above k j (a / 2) (omega (arith, double_pow k, lt)) (omega arith)

bit-complement : (w j a : ℕ) → a < 2 ^ w → j < w → bit (2 ^ w - 1 - a) j ≡ 1 - bit a j
bit-complement zero j a lt le = absurd (omega arith)
bit-complement (suc w) zero a lt le = omega (arith, double_pow w, lt, one-le-pow w 2 (omega arith))
bit-complement (suc w) (suc j) a lt le =
    ap (λ t. bit t j) (omega (arith, double_pow w, lt, one-le-pow w 2 (omega arith)))
    ∙ bit-complement w j (a / 2) (omega (arith, double_pow w, lt)) (omega arith)

-- `2 ^ (63 - c)` is the highest power that is not above a 64-bit value.
leading_zeros_lem :
    (fuel value : ℕ)
    → 0 < fuel
    → fuel ≤ 64
    → value < 2 ^ 64
    → 2 ^ (64 - fuel) ≤ value
    → (leading_zeros fuel value < fuel)
      × (2 ^ (63 - leading_zeros fuel value) ≤ value)
      × (value < 2 ^ (64 - leading_zeros fuel value))
unfolding leading_zeros
leading_zeros_lem zero value pos le lt lo = absurd (omega arith)
leading_zeros_lem (suc fuel) value pos le lt lo = elim (dec_le (2 ^ 63) value) [
  | yes top ↦ let test : leb (2 ^ 63) value ≡ true = ground arith in rw test (omega arith, top, lt)
  | no below ↦
      let test : leb (2 ^ 63) value ≡ false = ground arith in
      let doubled : value * 2 % 2 ^ 64 ≡ value * 2 = omega (arith, below) in
      let more : 0 < fuel = more_fuel fuel value lo below in
      let rest =
        leading_zeros_lem fuel (value * 2) more (omega (arith, le)) (omega (arith, below))
          (omega (arith, lo, pow_step (64 - fuel) (64 - suc fuel) (omega (arith, le)))) in
      let c = leading_zeros fuel (value * 2) in
      rw (test, doubled)
        (
          omega (arith, rest),
          omega (arith, rest, le, pow_step (63 - c) (63 - suc c) (omega (arith, rest, le))),
          omega (arith, rest, le, pow_step (64 - c) (64 - suc c) (omega (arith, rest, le))),
        )
]

pow_split : (d p : ℕ) → 2 ^ (d + p) ≡ 2 ^ d * 2 ^ p
pow_split d zero = omega (arith, ap (λ t. 2 ^ t) {x = d + 0} {y = d} (omega arith))
pow_split d (suc p) = omega (
  arith,
  pow_step (d + suc p) (d + p) (omega arith),
  pow_split d p,
  ap (λ t. 2 ^ d * t) (double_pow p),
)

priority_bit_lem : (p : ℕ) → p < 64 → priority_bit p ≡ 2 ^ (63 - p)
priority_bit_lem p h =
    div-eq_of_eq-mul_left {n = 2 ^ p} {m = 2 ^ 63} {k = 2 ^ (63 - p)} (one-le-pow p 2 (omega arith))
      (ap (λ t. 2 ^ t) {x = 63} {y = 63 - p + p} (omega (arith, h)) ∙ pow_split (63 - p) p)

below_64 : (n : ℕ) → n < 64 → 2 ^ n < 2 ^ 64
below_64 n h = omega (
  arith,
  pow-le-pow_right {n = 2} (omega arith) {i = suc n} {j = 64} (omega (arith, h)),
  double_pow n,
  one-le-pow n 2 (omega arith),
)

bit_or_lt : (k a b : ℕ) → a < 2 ^ k → b < 2 ^ k → bit_or a b < 2 ^ k
bit_or_lt zero a b ha hb =
    let ea : a ≡ 0 = omega arith in
    rw ea (omega (arith, ap (λ t. bit_or 0 t) {x = b} {y = 0} (omega arith)))
bit_or_lt (suc k) a b ha hb = omega (
  arith,
  double_pow k,
  bit_or_step a b,
  ha,
  hb,
  bit_or_lt k (a / 2) (b / 2) (omega (arith, double_pow k, ha)) (omega (arith, double_pow k, hb)),
)

bit_and_lt : (k a b : ℕ) → a < 2 ^ k → bit_and a b < 2 ^ k
bit_and_lt zero a b h =
    omega (arith, ap (λ t. bit_and t b) {x = a} {y = 0} (omega arith), bit_and-bitwise 0 b)
bit_and_lt (suc k) a b h = omega (
  arith,
  double_pow k,
  bit_and_step a b,
  h,
  bit_and_lt k (a / 2) (b / 2) (omega (arith, double_pow k, h)),
)

index_ne : (j p : ℕ) → j < 64 → p < 64 → j ≢ p → 63 - j ≢ 63 - p
index_ne j p hj hp n e = n (omega (arith, e, hj, hp))

-- Setting and clearing the bit of a priority changes that of no other.
pub mask_set :
    (m p : ℕ)
    → p < 64
    → m < 2 ^ 64
    → (bit_or m (priority_bit p) < 2 ^ 64)
      × (bit (bit_or m (priority_bit p)) (63 - p) ≡ 1)
      × ((j : ℕ) → j < 64 → j ≢ p → bit (bit_or m (priority_bit p)) (63 - j) ≡ bit m (63 - j))
mask_set m p h small = rw (priority_bit_lem p h) (
  bit_or_lt 64 m (2 ^ (63 - p)) small (below_64 (63 - p) (omega arith)),
  omega (arith, bit-bit_or (63 - p) m (2 ^ (63 - p)), bit-pow_self (63 - p), bit-le-one (63 - p) m),
  λ j hj n. omega (
    arith,
    bit-bit_or (63 - j) m (2 ^ (63 - p)),
    bit-pow_ne (63 - j) (63 - p) (index_ne j p hj h n),
  ),
)

pub mask_clear :
    (m p : ℕ)
    → p < 64
    → m < 2 ^ 64
    → (bit_and m (2 ^ 64 - 1 - priority_bit p) < 2 ^ 64)
      × (bit (bit_and m (2 ^ 64 - 1 - priority_bit p)) (63 - p) ≡ 0)
      × ((j : ℕ)
          → j < 64
          → j ≢ p
          → bit (bit_and m (2 ^ 64 - 1 - priority_bit p)) (63 - j) ≡ bit m (63 - j))
mask_clear m p h small = rw (priority_bit_lem p h) (
    let b = 2 ^ (63 - p) in
    let inside : b < 2 ^ 64 = below_64 (63 - p) (omega arith) in
    (
      bit_and_lt 64 m (2 ^ 64 - 1 - b) small,
      omega (
        arith,
        bit-bit_and (63 - p) m (2 ^ 64 - 1 - b),
        bit-complement 64 (63 - p) b inside (omega arith),
        bit-pow_self (63 - p),
      ),
      λ j hj n. omega (
        arith,
        bit-bit_and (63 - j) m (2 ^ 64 - 1 - b),
        bit-complement 64 (63 - j) b inside (omega arith),
        bit-pow_ne (63 - j) (63 - p) (index_ne j p hj h n),
        bit-le-one (63 - j) m,
      ),
    ))

-- The count of leading zeros of a mask that is not zero is the first priority with its bit set.
pub first_priority :
    (m : ℕ)
    → m < 2 ^ 64
    → 0 < m
    → (count_leading_zero m < 64)
      × (bit m (63 - count_leading_zero m) ≡ 1)
      × ((j : ℕ) → j < count_leading_zero m → bit m (63 - j) ≡ 0)
first_priority m small pos =
    let found = leading_zeros_lem 64 m (omega arith) (omega arith) small (omega (arith, pos)) in
    let c = count_leading_zero m in
    let top : m < 2 ^ suc (63 - c) =
      subst (λ t. m < 2 ^ t) {x = 64 - c} {y = suc (63 - c)} (omega (arith, found)) found.2 in
    (
      found.0,
      bit_top (63 - c) m found.1 top,
      λ j lt. bit_above (suc (63 - c)) (63 - j) m top (omega (arith, lt, found)),
    )
