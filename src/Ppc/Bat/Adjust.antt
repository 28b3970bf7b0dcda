-- ===== src/Ppc/Bat/Adjust.antt =====
-- peli/ppc/Bat.hpp: adjust_block_size covers a size by at most `count` blocks.
use libpeli.Base.Bits.{bit_or-add, bit_and_low}
use libpeli.Base.{
  if_true, ◌∙◌, ℕ, zero, suc, ◌+◌, ◌-◌, ◌*◌, ◌%◌, ◌^◌, ◌≤◌, ◌<◌, ◌≡◌, ◌⊎◌, inl, inr, refl, ap, true,
  bit_or, bit_and, leb, Bool-cases, arith,
}
use libpeli.Ppc.Bat.Floor.{lt_of_pow, bit_floor_pos, pow-le, IsTop, bit_floor-IsTop, IsTop-of}
use native.Mathlib.Nat.{
  mod-eq_of_lt, mul-add-mod_self_right, two-pow-succ, one-le-pow, pow-le-pow_right,
}
use libpeli.Ppc.Bat.{adjust_from, adjust_block_size, bit_floor, min_size, rounded}
use libpeli.Base.Word.{sub32}
use mathlib.Core.Path.{subst}
use native.Mathlib.Decide.{dec_lt}
use libpeli.Ppc.Bat.Powers.{Powers, nothing, power, Multiple, lower_Multiple}

-- `size & (last_bit - 1)` is what lies below `last_bit`.
pub below_last :
    (k c r : ℕ) → k < 32 → Multiple k c → r < 2 ^ k → bit_and (c + r) (sub32 (2 ^ k) 1) ≡ r
below_last k c r h m b =
    ap (λ t. bit_and (c + r) t) {x = sub32 (2 ^ k) 1} {y = 2 ^ k - 1}
      (omega (
        arith,
        one-le-pow k 2 (omega arith),
        pow-le-pow_right {n = 2} (omega arith) {i = k} {j = 31} (omega arith),
      ))
    ∙ bit_and_low k (c + r)
    ∙ ap (λ t. (t + r) % 2 ^ k) m.product
    ∙ mul-add-mod_self_right m.times (2 ^ k) r
    ∙ mod-eq_of_lt b

-- What the loop adds to `corrected`.
pub record Adds (count k r before after : ℕ) : Type 0 where
  pub more : ℕ
  pub sum : after ≡ before + more
  pub enough : r ≤ more
  pub exact : r ≡ 0 → more ≡ 0
  pub at_most : more ≤ 2 ^ k
  pub powers : Powers count k more ⊎ (more ≡ 2 ^ k)

stops-Adds :
    (count k c r : ℕ)
    → k < 32
    → r < 2 ^ k
    → c + 2 ^ k < 2 ^ 32
    → Adds count k r c (rounded c (2 ^ k) (bit_floor r))
unfolding bit_floor
stops-Adds count k c zero h b s = record {
  more = 0;
  sum = ground arith;
  enough = omega arith;
  exact = λ _. refl;
  at_most = omega arith;
  powers = inl (nothing refl);
}
stops-Adds count k c (suc r) h b s = record {
  more = 2 ^ k;
  sum = ground (arith, bit_floor_pos (suc r) (omega arith) (omega arith));
  enough = omega arith;
  exact = λ e. absurd (omega arith);
  at_most = omega arith;
  powers = inr refl;
}

-- One round of the loop, at the highest bit `j` of what is left.
module _ (count j k c r : ℕ) (ge : 17 ≤ j) (lt : j < k) (t : IsTop j r) where
  grow :
      (x : ℕ)
      → Powers count j x ⊎ (x ≡ 2 ^ j)
      → Powers (suc count) k (2 ^ j + x) ⊎ (2 ^ j + x ≡ 2 ^ k)
  grow x (inl p) = inl (power j x ge lt p refl)
  grow x (inr e) = elim (dec_lt (suc j) k) [
    | yes small ↦
        inl (power (suc j) 0 (omega arith) small (nothing refl) (omega (arith, two-pow-succ j)))
    | no big ↦
        inr (omega (arith, two-pow-succ j, ap (λ (i : ℕ). 2 ^ i) {x = suc j} {y = k} (omega arith)))
  ]

  round-Adds :
      (after : ℕ) → Adds count j (r - 2 ^ j) (c + 2 ^ j) after → Adds (suc count) k r c after
  round-Adds after a = record {
    more = 2 ^ j + a.more;
    sum = omega (arith, a.sum);
    enough = omega (arith, a.enough);
    exact = λ e. absurd (omega (arith, t.at, one-le-pow j 2 (omega arith)));
    at_most = omega (arith, a.at_most, two-pow-succ j, pow-le (suc j) k (omega arith));
    powers = grow a.more a.powers;
  }

-- A floor of at least the smallest block is a power of two.
pub block_of :
    (r limit : ℕ)
    → r < 2 ^ limit
    → limit ≤ 32
    → leb min_size (bit_floor r) ≡ true
    → (j : ℕ) × (17 ≤ j) × (j < limit) × IsTop j r × (bit_floor r ≡ 2 ^ j)
unfolding bit_floor
block_of zero limit b h big = cc big
block_of (suc r) limit b h big =
    let (j, lt, top) = IsTop-of limit (suc r) (omega arith) b in
    let e : bit_floor (suc r) ≡ 2 ^ j = bit_floor-IsTop (omega arith) top in
    let low : 2 ^ 16 < 2 ^ j = ground (arith, e) in
    (j, omega (arith, lt_of_pow 16 j low), lt, top, e)

pub with_block : (k c j : ℕ) → Multiple k c → 2 ^ j < 2 ^ k → bit_or c (2 ^ j) ≡ c + 2 ^ j
with_block k c j m h =
    ap (λ t. bit_or t (2 ^ j)) m.product ∙ bit_or-add k m.times (2 ^ j) h ∙ omega (arith, m.product)

pub block_Multiple : (k c j : ℕ) → j < k → Multiple k c → Multiple j (c + 2 ^ j)
block_Multiple k c j h m =
    let low : Multiple j c =
      lower_Multiple (k - j) j
        (subst (λ i. Multiple i c) {x = k} {y = k - j + j} (omega arith) m) in
    record { times = low.times + 1; product = omega (arith, low.product) }

pub adjust_from-Adds :
    (count k c r : ℕ)
    → k < 32
    → Multiple k c
    → r < 2 ^ k
    → c + 2 ^ k < 2 ^ 32
    → Adds count k r c (adjust_from (c + r) count c (2 ^ k))
unfolding adjust_from
adjust_from-Adds zero k c r h m b s = rw (below_last k c r h m b) (stops-Adds 0 k c r h b s)
adjust_from-Adds (suc count) k c r h m b s =
    rw (below_last k c r h m b) (elim (Bool-cases (leb min_size (bit_floor r))) [
      | inl big ↦ rw big (
          let (j, ge, lt, top, e) = block_of r k b (omega arith) big in
          rw e (
            round-Adds count j k c r ge lt top _ (
              rw (with_block k c j m (omega (arith, top.at))) (
                subst
                  (λ n.
                    Adds count j (r - 2 ^ j) (c + 2 ^ j) (adjust_from n count (c + 2 ^ j) (2 ^ j)))
                  {x = c + 2 ^ j + (r - 2 ^ j)} {y = c + r} (omega (arith, top.at))
                  (adjust_from-Adds count j (c + 2 ^ j) (r - 2 ^ j) (omega arith)
                    (block_Multiple k c j lt m) (omega (arith, top.below, top.at))
                    (omega (arith, two-pow-succ j, pow-le (suc j) k (omega arith))))))))
      | inr small ↦ rw small (stops-Adds (suc count) k c r h b s)
    ])

-- The size that is mapped: a sum of at most `count` blocks that covers `size`.
pub record IsAdjusted (count size m : ℕ) : Type 0 where
  pub enough : size ≤ m
  pub at_most : m ≤ 2 ^ 28
  pub powers : Powers count 29 m

whole : (size : ℕ) → size ≤ 2 ^ 28 → bit_and size (sub32 0 1) ≡ size
whole size h = bit_and_low 32 size ∙ omega arith

pub large : (j : ℕ) → 17 ≤ j → leb min_size (2 ^ j) ≡ true
large j h = ground (arith, pow-le 17 j h)

-- The first round, and what the others add.
Adds-IsAdjusted :
    (count j size m : ℕ)
    → 17 ≤ j
    → j < 29
    → size ≤ 2 ^ 28
    → IsTop j size
    → Adds count j (size - 2 ^ j) (2 ^ j) m
    → IsAdjusted (suc count) size m
Adds-IsAdjusted count j size m ge lt h t a = elim (dec_lt j 28) [
  | yes small ↦
      let top : 2 ^ j + a.more ≤ 2 ^ 28 =
        omega (arith, a.at_most, two-pow-succ j, pow-le (suc j) 28 (omega arith)) in
      record {
        enough = omega (arith, a.sum, a.enough);
        at_most = omega (arith, a.sum, top);
        powers = rw a.sum (elim (grow count j 29 0 size ge lt t a.more a.powers) [
          | inl p ↦ p
          | inr e ↦ absurd (omega (arith, top, e))
        ]);
      }
  | no big ↦
      let e : j ≡ 28 = omega arith in
      let f : 2 ^ j ≡ 2 ^ 28 = ap (λ i. 2 ^ i) e in
      let z : a.more ≡ 0 = a.exact (omega (arith, t.at, f)) in
      record {
        enough = omega (arith, a.sum, a.enough);
        at_most = omega (arith, a.sum, z, f);
        powers = power j 0 ge lt (nothing refl) (omega (arith, a.sum, z));
      }
]

from_zero : (j : ℕ) → bit_or 0 (2 ^ j) ≡ 2 ^ j
from_zero j =
    ap (λ t. bit_or t (2 ^ j)) {x = 0} {y = 0 * 2 ^ suc j} (omega arith)
    ∙ bit_or-add (suc j) 0 (2 ^ j) (omega (arith, two-pow-succ j, one-le-pow j 2 (omega arith)))
    ∙ omega arith

pub adjust_block_size_lem :
    (count size : ℕ)
    → min_size ≤ size
    → size ≤ 2 ^ 28
    → IsAdjusted (suc count) size (adjust_block_size size (suc count))
unfolding adjust_block_size adjust_from
adjust_block_size_lem count size l h =
    let (j, lt, top) = IsTop-of 29 size (omega arith) (omega arith) in
    let e : bit_floor size ≡ 2 ^ j = bit_floor-IsTop (omega arith) top in
    let low : 2 ^ 16 < 2 ^ j = omega (arith, top.below) in
    let ge : 17 ≤ j = omega (arith, lt_of_pow 16 j low) in
    rw (whole size h, e)
      (rw (if_true _ _ (large j ge)) (
        rw (from_zero j) (
          Adds-IsAdjusted count j size _ ge lt h top (
            subst (λ n. Adds count j (size - 2 ^ j) (2 ^ j) (adjust_from n count (2 ^ j) (2 ^ j)))
              {x = 2 ^ j + (size - 2 ^ j)} {y = size} (omega (arith, top.at))
              (adjust_from-Adds count j (2 ^ j) (size - 2 ^ j) (omega arith)
                (record { times = 1; product = omega arith }) (omega (arith, top.at, top.below))
                (omega (arith, two-pow-succ j, pow-le (suc j) 29 (omega arith))))))))
