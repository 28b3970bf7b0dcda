-- ===== src/Ppc/Bat/Mapped.antt =====
-- peli/ppc/Bat.hpp: a configuration maps all of both memories.
use libpeli.Base.{
  ℕ, ◌+◌, ◌^◌, ◌≤◌, ◌<◌, ◌≡◌, sym, Bool, true, false, ◌⊎◌, inl, inr, Bool-cases, arith, leb, suc,
}
use libpeli.Ppc.Bat.{
  BatBits, BatConfig, config, min_size, no_config, map_mem1, map_mem2, adjust_block_size,
}
use libpeli.Ppc.Bat.Powers.{Powers, nothing, power, Powers-lt}
use libpeli.Ppc.Bat.Adjust.{IsAdjusted, adjust_block_size_lem}
use libpeli.Ppc.Bat.Split.{IsMapped, IsSplit, IsSplit-of}
use libpeli.Ppc.Bat.Mem1.{HasMem1, map_mem1_lem}
use libpeli.Ppc.Bat.Mem2.{HasMem2, map_mem2-HasMem2, map_mem2-code, dbat_low, ibat_low}
use libpeli.Ppc.Bat.Block.{Maps}
use mathlib.Core.Path.{subst}

-- The highest block of an adjusted size, and the rest.
record HasTop (n m : ℕ) : Type 0 where
  k : ℕ
  rest : ℕ
  split : IsSplit m k rest
  powers : Powers n k rest

top_block : (n size m : ℕ) → min_size ≤ size → IsAdjusted (suc n) size m → HasTop n m
top_block n size m l a = from_powers m a.powers (omega (arith, a.enough))
  where
    from_powers : (m : ℕ) → Powers (suc n) 29 m → 2 ^ 17 ≤ m → HasTop n m
    from_powers m (nothing z) h = absurd (omega arith)
    from_powers m (power k rest ge lt p e) h = record {
      k = k;
      rest = rest;
      split = IsSplit-of m k rest ge lt e (Powers-lt p);
      powers = p;
    }

module _ (m : ℕ) (x u : Bool) (c : BatConfig) (size : ℕ) where
  -- `map_mem2` leaves the blocks of MEM1 as they are.
  frame_mem1 : HasMem1 c size → HasMem1 (map_mem2 m x u c) size
  frame_mem1 o = record {
    cached = λ a lt. same c.dbat (map_mem2 m x u c).dbat (dbat_low m x u c) (o.cached a lt);
    code = λ a lt. same c.ibat (map_mem2 m x u c).ibat (ibat_low m x u c) (o.code a lt);
    uncached = λ a lt. same c.dbat (map_mem2 m x u c).dbat (dbat_low m x u c) (o.uncached a lt);
  }
    where
      same :
          (f g : ℕ → BatBits) {effective physical : ℕ}
          → ((i : ℕ) → i < 4 → g i ≡ f i)
          → IsMapped 0 4 f effective physical
          → IsMapped 0 4 g effective physical
      same f g {effective} {physical} eq (i, l, h, m) =
          (i, l, h, subst (λ b. Maps b effective physical) (sym (eq i h)) m)

has_mem1 :
    (size : ℕ) (u : Bool)
    → min_size ≤ size
    → size ≤ 2 ^ 28
    → HasMem1 (map_mem1 (adjust_block_size size 2) u no_config) size
has_mem1 size u l h =
    let a : IsAdjusted 2 size (adjust_block_size size 2) = adjust_block_size_lem 1 size l h in
    let t : HasTop 1 (adjust_block_size size 2) = top_block 1 size _ l a in
    map_mem1_lem (adjust_block_size size 2) u no_config size a.enough a.at_most t.k t.rest t.split
      t.powers

from_zero :
    {low high : ℕ} (bats : ℕ → BatBits) (effective a : ℕ)
    → IsMapped low high bats effective (0 + a)
    → IsMapped low high bats effective a
from_zero bats effective a (i, l, h, m) =
    (i, l, h, record { valid = m.valid; from = m.from; to = m.to; at = omega (arith, m.at) })

has_mem2 :
    (mem2 : ℕ) (x u : Bool) (c : BatConfig) (a : ℕ)
    → min_size ≤ mem2
    → mem2 ≤ 2 ^ 28
    → a < mem2
    → IsMapped 4 8
        (map_mem2 (adjust_block_size mem2 3) x u c).dbat
        (0x90000000 + a)
        (0x10000000 + a)
      × IsMapped 4 8
          (map_mem2 (adjust_block_size mem2 3) x u c).dbat
          (0xd0000000 + a)
          (0x10000000 + a)
      × ((x ≡ false)
          ⊎ IsMapped 4 8
              (map_mem2 (adjust_block_size mem2 3) x u c).ibat
              (0x90000000 + a)
              (0x10000000 + a))
has_mem2 mem2 x u c a l h lt =
    let m : ℕ = adjust_block_size mem2 3 in
    let j : IsAdjusted 3 mem2 m = adjust_block_size_lem 2 mem2 l h in
    let t : HasTop 2 m = top_block 2 mem2 m l j in
    let least : 2 ^ 17 ≤ m = omega (arith, j.enough) in
    let o : HasMem2 (map_mem2 m x u c) mem2 =
      map_mem2-HasMem2 m x u c mem2 t.k t.rest j.enough least j.at_most t.split t.powers in
    (
      o.cached a lt,
      o.uncached a lt,
      elim (Bool-cases x) [
        | inl yes_exec ↦ inr (
            map_mem2-code m x u c mem2 t.k t.rest j.enough least j.at_most t.split t.powers yes_exec
              a lt)
        | inr no_exec ↦ inl no_exec
      ],
    )

module _ (mem1 mem2 : ℕ) (locked x u : Bool) where
  has_config : min_size ≤ mem1 → mem1 ≤ 2 ^ 28 → HasMem1 (config mem1 mem2 locked x u) mem1
  unfolding config
  has_config l h =
      let e : leb min_size mem1 ≡ true = ground arith in
      let o : HasMem1 (map_mem1 (adjust_block_size mem1 2) u no_config) mem1 =
        has_mem1 mem1 u l h in
      rw e (elim (Bool-cases (leb min_size mem2)) [
        | inl two ↦ rw two (frame_mem1 (adjust_block_size mem2 3) x u _ mem1 o)
        | inr one ↦ rw one o
      ])

  -- For MEM1 between the smallest block and 256 MB, each address of it is mapped by a block from 0 to
  -- 3: the cached one for data and for instructions, the uncached one for data.
  pub mem1-IsMapped :
      (a : ℕ)
      → min_size ≤ mem1
      → mem1 ≤ 2 ^ 28
      → a < mem1
      → IsMapped 0 4 (config mem1 mem2 locked x u).dbat (0x80000000 + a) a
        × IsMapped 0 4 (config mem1 mem2 locked x u).ibat (0x80000000 + a) a
        × IsMapped 0 4 (config mem1 mem2 locked x u).dbat (0xc0000000 + a) a
  mem1-IsMapped a l h lt =
      let c : BatConfig = config mem1 mem2 locked x u in
      let o : HasMem1 c mem1 = has_config l h in
      (
        from_zero c.dbat (0x80000000 + a) a (o.cached a lt),
        from_zero c.ibat (0x80000000 + a) a (o.code a lt),
        from_zero c.dbat (0xc0000000 + a) a (o.uncached a lt),
      )

  -- For MEM2 between the smallest block and 256 MB, each address of it is mapped by a block from 4 to
  -- 7: the cached and the uncached one for data, and the cached one for instructions if execution in
  -- MEM2 is allowed.
  pub mem2-IsMapped :
      (a : ℕ)
      → min_size ≤ mem2
      → mem2 ≤ 2 ^ 28
      → a < mem2
      → IsMapped 4 8 (config mem1 mem2 locked x u).dbat (0x90000000 + a) (0x10000000 + a)
        × IsMapped 4 8 (config mem1 mem2 locked x u).dbat (0xd0000000 + a) (0x10000000 + a)
        × ((x ≡ false)
            ⊎ IsMapped 4 8 (config mem1 mem2 locked x u).ibat (0x90000000 + a) (0x10000000 + a))
  unfolding config
  mem2-IsMapped a l h lt =
      let e : leb min_size mem2 ≡ true = ground arith in rw e (has_mem2 mem2 x u _ a l h lt)
