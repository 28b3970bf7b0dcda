-- ===== src/Ppc/Bat/Split.antt =====
-- peli/ppc/Bat.hpp: an adjusted size block by block.
use libpeli.Base.{◌∙◌, suc, ℕ, ◌+◌, ◌-◌, ◌^◌, ◌≤◌, ◌<◌, ◌≡◌, ap, arith}
use libpeli.Ppc.Bat.Floor.{pow-le, bit_floor-IsTop}
use libpeli.Ppc.Bat.Powers.{Multiple}
use libpeli.Ppc.Bat.Adjust.{below_last}
use libpeli.Ppc.Bat.Block.{Maps, IsBlock, IsBlock-Maps}
use libpeli.Ppc.Bat.{BatBits, bit_floor, next_block}
use native.Mathlib.Nat.{two-pow-succ, one-le-pow}
use native.Mathlib.Decide.{dec_lt}

-- One of the blocks from `low` up to `high` maps the address.
abbrev pub IsMapped : ℕ → ℕ → (ℕ → BatBits) → ℕ → ℕ → Type 0
IsMapped low high bats effective physical =
    (i : ℕ) × (low ≤ i) × (i < high) × Maps (bats i) effective physical

-- Every address of a memory is mapped.
abbrev pub MapsAll : ℕ → ℕ → (ℕ → BatBits) → ℕ → ℕ → ℕ → Type 0
MapsAll low high bats effective physical size =
    (a : ℕ) → a < size → IsMapped low high bats (effective + a) (physical + a)

-- The blocks of a sum of powers: the first, and what the mask leaves.
pub record IsSplit (m k rest : ℕ) : Type 0 where
  pub least : 17 ≤ k
  pub most : k < 29
  pub sum : m ≡ 2 ^ k + rest
  pub small : rest < 2 ^ k
  pub floor : bit_floor m ≡ 2 ^ k

pub IsSplit-of :
    (m k rest : ℕ) → 17 ≤ k → k < 29 → m ≡ 2 ^ k + rest → rest < 2 ^ k → IsSplit m k rest
IsSplit-of m k rest ge lt e h = record {
  least = ge;
  most = lt;
  sum = e;
  small = h;
  floor = bit_floor-IsTop {k = k} (omega arith) (record { at = omega arith; below = omega arith });
}

-- `size & (block_size - 1)` below the lowest block that is taken.
pub next-rest :
    (k c r m : ℕ)
    → k < 29
    → Multiple k c
    → r < 2 ^ k
    → m ≡ c + r
    → next_block m (2 ^ k) ≡ bit_floor r
next-rest k c r m h mult b e = rw e (ap bit_floor (below_last k c r (omega arith) mult b))

pub next_power :
    (m k c j : ℕ) → k < 29 → Multiple k c → j < k → m ≡ c + 2 ^ j → next_block m (2 ^ k) ≡ 2 ^ j
next_power m k c j h mult lt e =
    let up : 2 ^ j + 2 ^ j ≤ 2 ^ k = omega (arith, two-pow-succ j, pow-le (suc j) k lt) in
    next-rest k c (2 ^ j) m h mult (omega (arith, one-le-pow j 2 (omega arith))) e
    ∙ bit_floor-IsTop {k = j} (omega arith)
        (record { at = omega arith; below = omega (arith, one-le-pow j 2 (omega arith)) })

module _ {low high : ℕ} (bats : ℕ → BatBits) (effective physical i : ℕ) (l : low ≤ i)
    (h : i < high) where
  pub first_block :
      (k size : ℕ)
      → IsBlock (bats i) effective physical k
      → size ≤ 2 ^ k
      → MapsAll low high bats effective physical size
  first_block k size b s a lt = (i, l, h, IsBlock-Maps a b (omega arith))

  pub next_block_too :
      (k c size : ℕ)
      → MapsAll low high bats effective physical c
      → IsBlock (bats i) (effective + c) (physical + c) k
      → size ≤ c + 2 ^ k
      → MapsAll low high bats effective physical size
  next_block_too k c size all b s a lt = elim (dec_lt a c) [
    | yes before ↦ all a before
    | no after ↦
        let m : Maps (bats i) (effective + c + (a - c)) (physical + c + (a - c)) =
          IsBlock-Maps (a - c) b (omega arith) in
        (
          i,
          l,
          h,
          record {
            valid = m.valid;
            from = omega (arith, m.from);
            to = omega (arith, m.to);
            at = omega (arith, m.at);
          },
        )
  ]
