-- ===== src/Util/Address/Regions.antt =====
-- Physical, effective and uncached addresses.
use libpeli.Base.{ℕ, ◌+◌, ◌*◌, ◌/◌, ◌%◌, ◌^◌, ◌≤◌, ◌<◌, ◌≡◌, refl, ap, suc, zero, bit_or, arith}
use libpeli.Base.Bits.{bit_or_high, bit_and_low}
use libpeli.Util.Address.{
  in_mem1, in_mem2, in_mem1_effective, in_mem2_effective, effective, physical, uncached,
}

pub physical_lem : (a : ℕ) → physical a ≡ a % 2 ^ 30
unfolding physical
physical_lem a = bit_and_low 30 a

pub effective_lem : (a : ℕ) → effective a ≡ 2 ^ 31 + a % 2 ^ 30
unfolding effective
effective_lem a = rw (bit_and_low 30 a) (omega (arith, bit_or_high 31 (a % 2 ^ 30) 1, top))
  where
    top : bit_or (a % 2 ^ 30 / 2 ^ 31) 1 ≡ 1
    top = ap (λ t. bit_or t 1) {x = a % 2 ^ 30 / 2 ^ 31} {y = 0} (omega arith)

bit_or-three : (x : ℕ) → x < 4 → bit_or x 3 ≡ 3
bit_or-three zero h = refl
bit_or-three (suc zero) h = refl
bit_or-three (suc (suc zero)) h = refl
bit_or-three (suc (suc (suc zero))) h = refl
bit_or-three (suc (suc (suc (suc x)))) h = absurd (omega arith)

uncached_lem : (a : ℕ) → a < 2 ^ 32 → uncached a ≡ 3 * 2 ^ 30 + a % 2 ^ 30
unfolding uncached
uncached_lem a h = omega (arith, bit_or_high 30 a 3, bit_or-three (a / 2 ^ 30) (omega arith))

ruleset regions = (arith, physical_lem, effective_lem)

-- On every 32-bit address: the physical, the effective and the uncached view have the low 30 bits of
-- the address at the base of their region, 0, 0x80000000 and 0xC0000000. So the physical view of the
-- effective and of the uncached view is the physical view, and the effective view of the uncached
-- and of the physical view is the effective one.
pub regions_agree :
    (a : ℕ)
    → a < 2 ^ 32
    → (physical a ≡ a % 2 ^ 30)
      × (effective a ≡ 0x80000000 + a % 2 ^ 30)
      × (uncached a ≡ 0xc0000000 + a % 2 ^ 30)
      × (physical (effective a) ≡ physical a)
      × (physical (uncached a) ≡ physical a)
      × (effective (uncached a) ≡ effective a)
      × (effective (physical a) ≡ effective a)
regions_agree a h = omega (regions, uncached_lem a h)

-- From 0x80000000 up to 0xC0000000, `Effective` undoes `Physical`.
pub effective-physical : (a : ℕ) → 2 ^ 31 ≤ a → a < 3 * 2 ^ 30 → effective (physical a) ≡ a
effective-physical a lo hi = omega (regions, lo, hi)

-- From 0x80000000 up to 0xC0000000, an address is in an effective region exactly if its
-- `Physical` is in the physical region of the same memory.
pub regions_match :
    (a : ℕ)
    → 2 ^ 31 ≤ a
    → a < 3 * 2 ^ 30
    → (in_mem1 (physical a) ≡ in_mem1_effective a) × (in_mem2 (physical a) ≡ in_mem2_effective a)
unfolding in_mem1 in_mem2 in_mem1_effective in_mem2_effective
regions_match a lo hi = rw (physical_lem a) (ground arith)
