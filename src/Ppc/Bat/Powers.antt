-- ===== src/Ppc/Bat/Powers.antt =====
-- peli/ppc/Bat.hpp: sums of blocks, whose sizes are powers of two, and multiples of them.
use libpeli.Base.{◌∙◌, ℕ, zero, suc, ◌+◌, ◌*◌, ◌^◌, ◌≤◌, ◌<◌, ◌≡◌, ap, arith}
use libpeli.Ppc.Bat.Floor.{pow-le}
use native.Mathlib.Nat.{two-pow-succ, one-le-pow}

-- A sum of at most `count` different powers from `2 ^ 17` up, each below `2 ^ limit`.
pub data Powers : ℕ → ℕ → ℕ → Type 0 where
  nothing : {count limit m : ℕ} → m ≡ 0 → Powers count limit m
  power :
      {count limit m : ℕ} (k rest : ℕ)
      → 17 ≤ k
      → k < limit
      → Powers count k rest
      → m ≡ 2 ^ k + rest
      → Powers (suc count) limit m

-- A multiple of `2 ^ k`.
pub record Multiple (k a : ℕ) : Type 0 where
  pub times : ℕ
  pub product : a ≡ times * 2 ^ k

pub half_Multiple : {k a : ℕ} → Multiple (suc k) a → Multiple k a
half_Multiple {k} m = record {
  times = m.times + m.times;
  product = omega (arith, m.product, ap (λ t. m.times * t) (two-pow-succ k));
}

pub lower_Multiple : (d k : ℕ) {a : ℕ} → Multiple (d + k) a → Multiple k a
lower_Multiple zero k {a} m = record {
  times = m.times;
  product =
      omega (arith, m.product, ap (λ (j : ℕ). m.times * 2 ^ j) {x = 0 + k} {y = k} (omega arith));
}
lower_Multiple (suc d) k {a} m = lower_Multiple d k (
    half_Multiple (record {
      times = m.times;
      product =
          m.product
          ∙ ap (λ (j : ℕ). m.times * 2 ^ j) {x = suc d + k} {y = suc (d + k)} (omega arith);
    }))

pub Multiple-add : {k a b : ℕ} → Multiple k a → Multiple k b → Multiple k (a + b)
Multiple-add {k} {a} {b} m n = record {
  times = m.times + n.times;
  product = omega (arith, m.product, n.product);
}

pub Powers-lt : {count limit m : ℕ} → Powers count limit m → m < 2 ^ limit
Powers-lt {limit} (nothing e) = omega (arith, one-le-pow limit 2 (omega arith))
Powers-lt {limit} (power k rest ge lt p e) =
    omega (arith, Powers-lt p, two-pow-succ k, pow-le (suc k) limit (omega arith))

pub power_Multiple : (k : ℕ) → Multiple k (2 ^ k)
power_Multiple k = record { times = 1; product = omega arith }
