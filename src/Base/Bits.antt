-- ===== src/Base/Bits.antt =====
-- Laws of the bit operations at variables, from their digit recursion.
use Prim.Native.Nat.{
  ◌<◌, ℕ, zero, suc, ◌+◌, ◌-◌, ◌*◌, ◌/◌, ◌%◌, ◌^◌, ◌≤◌, min, max, bit_and, bit_or, digits,
  bit_and-bitwise, bit_or-bitwise,
}
use mathlib.Core.Path.{◌≡◌, refl, ap, ◌∙◌}
use mathlib.Core.Logic.{◌≢◌}
use native.Mathlib.Nat.{pow-suc, one-le-pow, div-add-mod, div-div-eq-div-mul}
use native.Mathlib.Omega.{arith}

module _ (rest : ℕ → ℕ) (op : ℕ → ℕ → ℕ) where
  -- Any two amounts of fuel that cover the first operand agree.
  fuel_irrelevant : (k j a b : ℕ) → a ≤ k → a ≤ j → digits rest op k a b ≡ digits rest op j a b
  fuel_irrelevant zero zero a b hk hj = refl
  fuel_irrelevant zero (suc j) zero b hk hj = refl
  fuel_irrelevant zero (suc j) (suc a) b hk hj = absurd (omega arith)
  fuel_irrelevant (suc k) zero zero b hk hj = refl
  fuel_irrelevant (suc k) zero (suc a) b hk hj = absurd (omega arith)
  fuel_irrelevant (suc k) (suc j) zero b hk hj = refl
  fuel_irrelevant (suc k) (suc j) (suc a) b hk hj =
      ap (λ q. q * 2 + op (suc a % 2) (b % 2))
        (fuel_irrelevant k j (suc a / 2) (b / 2) (omega arith) (omega arith))

pub bit_or_step : (a b : ℕ) → bit_or a b ≡ bit_or (a / 2) (b / 2) * 2 + max (a % 2) (b % 2)
bit_or_step zero b = omega (arith, bit_or-bitwise 0 b, bit_or-bitwise 0 (b / 2))
bit_or_step (suc a) b = omega (
  arith,
  bit_or-bitwise (suc a) b,
  bit_or-bitwise (suc a / 2) (b / 2),
  fuel_irrelevant (λ y. y) max a (suc a / 2) (suc a / 2) (b / 2) (omega arith) (omega arith),
)

pub bit_and_step : (a b : ℕ) → bit_and a b ≡ bit_and (a / 2) (b / 2) * 2 + min (a % 2) (b % 2)
bit_and_step zero b = omega (arith, bit_and-bitwise 0 b, bit_and-bitwise 0 (b / 2))
bit_and_step (suc a) b = omega (
  arith,
  bit_and-bitwise (suc a) b,
  bit_and-bitwise (suc a / 2) (b / 2),
  fuel_irrelevant (λ y. 0) min a (suc a / 2) (suc a / 2) (b / 2) (omega arith) (omega arith),
)

-- The bit of weight `2 ^ k`.
abbrev pub bit : ℕ → ℕ → ℕ
bit a zero = a % 2
bit a (suc k) = bit (a / 2) k

pub bit-bit_or : (k a b : ℕ) → bit (bit_or a b) k ≡ max (bit a k) (bit b k)
bit-bit_or zero a b = omega (arith, bit_or_step a b)
bit-bit_or (suc k) a b =
    ap (λ t. bit t k) (omega (arith, bit_or_step a b)) ∙ bit-bit_or k (a / 2) (b / 2)

pub bit-bit_and : (k a b : ℕ) → bit (bit_and a b) k ≡ min (bit a k) (bit b k)
bit-bit_and zero a b = omega (arith, bit_and_step a b)
bit-bit_and (suc k) a b =
    ap (λ t. bit t k) (omega (arith, bit_and_step a b)) ∙ bit-bit_and k (a / 2) (b / 2)

pub bit-zero : (k : ℕ) → bit 0 k ≡ 0
bit-zero zero = refl
bit-zero (suc k) = bit-zero k

pub bit-le-one : (k a : ℕ) → bit a k ≤ 1
bit-le-one zero a = omega arith
bit-le-one (suc k) a = bit-le-one k (a / 2)

double_pow : (k : ℕ) → 2 ^ suc k ≡ 2 ^ k + 2 ^ k
double_pow k = omega (arith, pow-suc 2 k)

-- `1 << k` has the one bit `k`.
pub bit-pow_self : (k : ℕ) → bit (2 ^ k) k ≡ 1
bit-pow_self zero = refl
bit-pow_self (suc k) = ap (λ t. bit t k) (omega (arith, double_pow k)) ∙ bit-pow_self k

pub bit-pow_ne : (j k : ℕ) → j ≢ k → bit (2 ^ k) j ≡ 0
bit-pow_ne zero zero h = absurd (h refl)
bit-pow_ne zero (suc k) h = omega (arith, double_pow k)
bit-pow_ne (suc j) zero h = bit-zero j
bit-pow_ne (suc j) (suc k) h =
    ap (λ t. bit t j) (omega (arith, double_pow k)) ∙ bit-pow_ne j k (λ e. h (ap suc e))

bit_and-zero_below : (n a : ℕ) → a ≤ n → bit_and a 0 ≡ 0
bit_and-zero_below n zero h = refl
bit_and-zero_below zero (suc a) h = absurd (omega arith)
bit_and-zero_below (suc n) (suc a) h =
    omega (arith, bit_and_step (suc a) 0, bit_and-zero_below n (suc a / 2) (omega arith))

bit_and-zero : (a : ℕ) → bit_and a 0 ≡ 0
bit_and-zero a = bit_and-zero_below a a (omega arith)

halve_twice : (a k : ℕ) → a / 2 ^ suc k ≡ a / 2 / 2 ^ k
halve_twice a k = rw (double_pow k) (omega (arith, twice, div-div-eq-div-mul a 2 (2 ^ k)))
  where
    twice : a / (2 ^ k + 2 ^ k) ≡ a / (2 * 2 ^ k)
    twice = ap (λ t. a / t) {x = 2 ^ k + 2 ^ k} {y = 2 * 2 ^ k} (omega arith)

low_split : (a k : ℕ) → a % 2 ^ suc k ≡ a / 2 % 2 ^ k * 2 + a % 2
low_split a k = omega (
  arith,
  double_pow k,
  halve_twice a k,
  div-add-mod a (2 ^ suc k),
  div-add-mod (a / 2) (2 ^ k),
  ap (λ t. t * (a / 2 / 2 ^ k)) (double_pow k),
  ap (λ t. 2 ^ suc k * t) (halve_twice a k),
)

-- A mask of the bits from `k` up leaves the low `k` bits alone.
pub bit_or_high : (k a q : ℕ) → bit_or a (q * 2 ^ k) ≡ bit_or (a / 2 ^ k) q * 2 ^ k + a % 2 ^ k
bit_or_high zero a q = omega (
  arith,
  ap (λ t. bit_or a t) {x = q * 1} {y = q} (omega arith),
  ap (λ t. bit_or t q) {x = a / 1} {y = a} (omega arith),
)
bit_or_high (suc k) a q = omega (
  arith,
  bit_or_step a (q * 2 ^ suc k),
  shifted,
  halved,
  bit_or_high k (a / 2) q,
  high,
  ap (λ t. bit_or (a / 2 / 2 ^ k) q * t) (double_pow k),
  low_split a k,
)
  where
    shifted : q * 2 ^ suc k ≡ q * 2 ^ k + q * 2 ^ k
    shifted = omega (arith, ap (λ t. q * t) (double_pow k))

    halved : bit_or (a / 2) (q * 2 ^ suc k / 2) ≡ bit_or (a / 2) (q * 2 ^ k)
    halved =
        ap (λ t. bit_or (a / 2) t) {x = q * 2 ^ suc k / 2} {y = q * 2 ^ k} (omega (arith, shifted))

    high : bit_or (a / 2 ^ suc k) q * 2 ^ suc k ≡ bit_or (a / 2 / 2 ^ k) q * 2 ^ suc k
    high = ap (λ t. bit_or t q * 2 ^ suc k) (halve_twice a k)

-- A mask of the low `k` bits is the remainder.
pub bit_and_low : (k a : ℕ) → bit_and a (2 ^ k - 1) ≡ a % 2 ^ k
bit_and_low zero a = omega (arith, bit_and-zero a)
bit_and_low (suc k) a = omega (
  arith,
  bit_and_step a (2 ^ suc k - 1),
  low_split a k,
  double_pow k,
  one-le-pow k 2 (omega arith),
  bit_and_low k (a / 2),
  half,
)
  where
    half : bit_and (a / 2) ((2 ^ suc k - 1) / 2) ≡ bit_and (a / 2) (2 ^ k - 1)
    half =
        ap (λ t. bit_and (a / 2) t) {x = (2 ^ suc k - 1) / 2} {y = 2 ^ k - 1}
          (omega (arith, double_pow k, one-le-pow k 2 (omega arith)))

bit_or-zero_below : (n a : ℕ) → a ≤ n → bit_or a 0 ≡ a
bit_or-zero_below n zero h = refl
bit_or-zero_below zero (suc a) h = absurd (omega arith)
bit_or-zero_below (suc n) (suc a) h =
    omega (arith, bit_or_step (suc a) 0, bit_or-zero_below n (suc a / 2) (omega arith))

-- `|` of a multiple of `2 ^ k` and a smaller number is the sum.
pub bit_or-add : (k q b : ℕ) → b < 2 ^ k → bit_or (q * 2 ^ k) b ≡ q * 2 ^ k + b
bit_or-add zero q b h =
    let e : b ≡ 0 = omega arith in
    rw e (bit_or-zero_below (q * 1) (q * 1) (omega arith) ∙ omega arith)
bit_or-add (suc k) q b h = omega (
  arith,
  bit_or_step (q * 2 ^ suc k) b,
  shifted,
  ap (λ t. bit_or t (b / 2)) {x = q * 2 ^ suc k / 2} {y = q * 2 ^ k} (omega (arith, shifted)),
  bit_or-add k q (b / 2) (omega (arith, double_pow k)),
)
  where
    shifted : q * 2 ^ suc k ≡ q * 2 ^ k + q * 2 ^ k
    shifted = omega (arith, ap (λ t. q * t) (double_pow k))

-- `&` with `1 << k` is the bit in its place.
pub bit_and-pow : (k a : ℕ) → bit_and a (2 ^ k) ≡ bit a k * 2 ^ k
bit_and-pow zero a = omega (arith, bit_and_low 1 a)
bit_and-pow (suc k) a = omega (
  arith,
  bit_and_step a (2 ^ suc k),
  double_pow k,
  ap (λ t. bit_and (a / 2) t) {x = 2 ^ suc k / 2} {y = 2 ^ k} (omega (arith, double_pow k)),
  bit_and-pow k (a / 2),
  ap (λ t. bit (a / 2) k * t) (double_pow k),
)

-- `~` on `width` bits turns each bit round.
pub bit-complement :
    (width a k : ℕ) → a < 2 ^ width → k < width → bit (2 ^ width - 1 - a) k ≡ 1 - bit a k
bit-complement zero a k h lt = absurd (omega arith)
bit-complement (suc width) a zero h lt = omega (arith, double_pow width)
bit-complement (suc width) a (suc k) h lt =
    ap (λ t. bit t k) {x = (2 ^ suc width - 1 - a) / 2} {y = 2 ^ width - 1 - a / 2}
      (omega (arith, double_pow width))
    ∙ bit-complement width (a / 2) k (omega (arith, double_pow width)) (omega arith)
