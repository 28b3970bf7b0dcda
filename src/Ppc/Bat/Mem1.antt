-- ===== src/Ppc/Bat/Mem1.antt =====
-- peli/ppc/Bat.hpp: the blocks of MEM1.
use libpeli.Base.{refl, ℕ, ◌^◌, ◌≤◌, ◌<◌, ◌≡◌, Bool, true, leb, arith}
use libpeli.Ppc.Bat.Powers.{power, nothing, Powers}
use libpeli.Ppc.Bat.Adjust.{large}
use libpeli.Ppc.Bat.Block.{
  raise_Multiple, mem1_cached-IsBlock, more_cached-IsBlock, mem1_uncached-IsBlock,
}
use libpeli.Ppc.Bat.{
  BatBits, BatConfig, map_mem1, more_cached, mem1_cached, mem1_uncached, bit_floor, next_block,
  min_size,
}
use libpeli.Ppc.Bat.Split.{MapsAll, IsSplit, next_power, first_block, next_block_too}

-- What `map_mem1` sets.
module _ (m : ℕ) (u : Bool) (c : BatConfig) where
  dbat0 : (map_mem1 m u c).dbat 0 ≡ mem1_cached (bit_floor m)
  unfolding map_mem1
  dbat0 = ground arith

  ibat0 : (map_mem1 m u c).ibat 0 ≡ mem1_cached (bit_floor m)
  unfolding map_mem1
  ibat0 = ground arith

  dbat1 : (map_mem1 m u c).dbat 1 ≡ mem1_uncached
  unfolding map_mem1
  dbat1 = ground arith

  module _ (a b : ℕ) (f : bit_floor m ≡ a) (n : next_block m a ≡ b)
      (l : leb min_size b ≡ true) where
    dbat2 : (map_mem1 m u c).dbat 2 ≡ more_cached 0x80000000 0 a b
    unfolding map_mem1
    dbat2 = rw (f, n, l) refl

    ibat2 : (map_mem1 m u c).ibat 2 ≡ more_cached 0x80000000 0 a b
    unfolding map_mem1
    ibat2 = rw (f, n, l) refl

-- By data and by instruction accesses.
pub record HasMem1 (c : BatConfig) (size : ℕ) : Type 0 where
  pub cached : MapsAll 0 4 c.dbat 0x80000000 0 size
  pub code : MapsAll 0 4 c.ibat 0x80000000 0 size
  pub uncached : MapsAll 0 4 c.dbat 0xc0000000 0 size

module _ (m : ℕ) (u : Bool) (c : BatConfig) (size : ℕ) (e : size ≤ m) (h : m ≤ 2 ^ 28) where
  uncached_all : MapsAll 0 4 (map_mem1 m u c).dbat 0xc0000000 0 size
  uncached_all =
      first_block (map_mem1 m u c).dbat 0xc0000000 0 1 (omega arith) (omega arith) 28 size
        (rw (dbat1 m u c) mem1_uncached-IsBlock) (omega arith)

  module _ (k rest : ℕ) (s : IsSplit m k rest) where
    low_part :
        (bats : ℕ → BatBits)
        → bats 0 ≡ mem1_cached (bit_floor m)
        → MapsAll 0 4 bats 0x80000000 0 (2 ^ k)
    low_part bats b =
        first_block bats 0x80000000 0 0 (omega arith) (omega arith) k (2 ^ k)
          (rw (b, s.floor) (mem1_cached-IsBlock k s.least s.most)) (omega arith)

    high_part :
        (bats : ℕ → BatBits) (j : ℕ)
        → 17 ≤ j
        → j < k
        → rest ≡ 2 ^ j
        → bats 0 ≡ mem1_cached (bit_floor m)
        → bats 2 ≡ more_cached 0x80000000 0 (2 ^ k) (2 ^ j)
        → MapsAll 0 4 bats 0x80000000 0 size
    high_part bats j ge lt r b b' =
        next_block_too bats 0x80000000 0 2 (omega arith) (omega arith) j (2 ^ k) size
          (low_part bats b)
          (rw b' (
            more_cached-IsBlock 0x80000000 0 (2 ^ k) j (record { times = 8; product = refl })
              (record { times = 0; product = refl }) (omega arith) (omega arith) ge
              (omega (arith, s.most))
              (raise_Multiple k j (omega arith) (record { times = 1; product = omega arith }))
              (omega (arith, s.sum))))
          (omega (arith, s.sum))

  pub map_mem1_lem :
      (k rest : ℕ) → IsSplit m k rest → Powers 1 k rest → HasMem1 (map_mem1 m u c) size
  map_mem1_lem k rest s (nothing z) = record {
    cached = λ a lt. low_part k rest s (map_mem1 m u c).dbat (dbat0 m u c) a (omega (arith, s.sum));
    code = λ a lt. low_part k rest s (map_mem1 m u c).ibat (ibat0 m u c) a (omega (arith, s.sum));
    uncached = uncached_all;
  }
  map_mem1_lem k rest s (power j rest' ge lt (nothing z) r) =
      let r' : rest ≡ 2 ^ j = omega arith in
      let n : next_block m (2 ^ k) ≡ 2 ^ j =
        next_power m k (2 ^ k) j (omega arith) (record { times = 1; product = omega arith }) lt
          (omega (arith, s.sum)) in
      record {
        cached =
            high_part k rest s (map_mem1 m u c).dbat j ge lt r' (dbat0 m u c)
              (dbat2 m u c (2 ^ k) (2 ^ j) s.floor n (large j ge));
        code =
            high_part k rest s (map_mem1 m u c).ibat j ge lt r' (ibat0 m u c)
              (ibat2 m u c (2 ^ k) (2 ^ j) s.floor n (large j ge));
        uncached = uncached_all;
      }
