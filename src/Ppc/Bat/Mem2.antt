-- ===== src/Ppc/Bat/Mem2.antt =====
-- peli/ppc/Bat.hpp: the blocks of MEM2.
use libpeli.Base.{refl, ◌^◌, ◌+◌, ◌∙◌, bit_or, leb, ◌≤◌, ℕ, ◌<◌, ◌≡◌, Bool, true, arith}
use libpeli.Ppc.Bat.Floor.{double_pow-le, bit_floor-IsTop, bit_ceil_lem}
use libpeli.Ppc.Bat.Powers.{Multiple, power_Multiple, Powers, nothing, power}
use libpeli.Ppc.Bat.Adjust.{block_Multiple, with_block, large}
use libpeli.Ppc.Bat.Block.{raise_Multiple, more_cached-IsBlock, mem2_block-IsBlock, IsBlock}
use libpeli.Ppc.Bat.Split.{MapsAll, IsSplit, next-rest, next_power, first_block, next_block_too}
use native.Mathlib.Nat.{one-le-pow}
use libpeli.Ppc.Bat.{
  more_cached, min_size, BatBits, next_block, bit_ceil, mem2_block, map_mem2, BatConfig, bit_floor,
}

-- What `map_mem2` leaves of MEM1.
module _ (m : ℕ) (x u : Bool) (c : BatConfig) where
  pub dbat_low : (i : ℕ) → i < 4 → (map_mem2 m x u c).dbat i ≡ c.dbat i
  unfolding map_mem2
  dbat_low i h = ground arith

  pub ibat_low : (i : ℕ) → i < 4 → (map_mem2 m x u c).ibat i ≡ c.ibat i
  unfolding map_mem2
  ibat_low i h = ground arith

  dbat4 : (map_mem2 m x u c).dbat 4 ≡ mem2_block 0x90000000 (bit_floor m) 0
  unfolding map_mem2
  dbat4 = ground arith

  dbat5 : (map_mem2 m x u c).dbat 5 ≡ mem2_block 0xd0000000 (bit_ceil m) 5
  unfolding map_mem2
  dbat5 = ground arith

  ibat4 : x ≡ true → (map_mem2 m x u c).ibat 4 ≡ mem2_block 0x90000000 (bit_floor m) 0
  unfolding map_mem2
  ibat4 h = ground arith

  module _ (a b : ℕ) (f : bit_floor m ≡ a) (n : next_block m a ≡ b)
      (l : leb min_size b ≡ true) where
    dbat6 : (map_mem2 m x u c).dbat 6 ≡ more_cached 0x90000000 0x10000000 a b
    unfolding map_mem2
    dbat6 = rw (f, n, l) (ground arith)

    ibat6 : x ≡ true → (map_mem2 m x u c).ibat 6 ≡ more_cached 0x90000000 0x10000000 a b
    unfolding map_mem2
    ibat6 h = rw (f, n, l) (ground arith)

    module _ (d : ℕ) (n' : next_block m b ≡ d) (l' : leb min_size d ≡ true) where
      dbat7 : (map_mem2 m x u c).dbat 7 ≡ more_cached 0x90000000 0x10000000 (bit_or a b) d
      unfolding map_mem2
      dbat7 = rw (f, n, l, n', l') refl

      ibat7 :
          x ≡ true → (map_mem2 m x u c).ibat 7 ≡ more_cached 0x90000000 0x10000000 (bit_or a b) d
      unfolding map_mem2
      ibat7 h = rw (f, n, l, n', l') (ground arith)

-- The cached blocks of one side, for data or for instructions.
record HasBlocks (m : ℕ) (bats : ℕ → BatBits) : Type 0 where
  b4 : bats 4 ≡ mem2_block 0x90000000 (bit_floor m) 0
  b6 :
      (a b : ℕ)
      → bit_floor m ≡ a
      → next_block m a ≡ b
      → leb min_size b ≡ true
      → bats 6 ≡ more_cached 0x90000000 0x10000000 a b
  b7 :
      (a b d : ℕ)
      → bit_floor m ≡ a
      → next_block m a ≡ b
      → leb min_size b ≡ true
      → next_block m b ≡ d
      → leb min_size d ≡ true
      → bats 7 ≡ more_cached 0x90000000 0x10000000 (bit_or a b) d

further :
    (c k : ℕ)
    → 17 ≤ k
    → k < 29
    → Multiple k c
    → c + 2 ^ k ≤ 2 ^ 28
    → IsBlock (more_cached 0x90000000 0x10000000 c (2 ^ k)) (0x90000000 + c) (0x10000000 + c) k
further c k ge lt m h =
    more_cached-IsBlock 0x90000000 0x10000000 c k (record { times = 9; product = refl })
      (record { times = 1; product = refl }) (omega arith) (omega arith) ge lt m h

module _ (m : ℕ) (h : m ≤ 2 ^ 28) (bats : ℕ → BatBits) (t : HasBlocks m bats) (k rest : ℕ)
    (s : IsSplit m k rest) where
  first_all : MapsAll 4 8 bats 0x90000000 0x10000000 (2 ^ k)
  first_all =
      first_block bats 0x90000000 0x10000000 4 (omega arith) (omega arith) k (2 ^ k)
        (rw (t.b4, s.floor) (mem2_block-IsBlock 9 k 0 (omega arith) s.least s.most)) (omega arith)

  module _ (j rest' : ℕ) (ge : 17 ≤ j) (lt : j < k) (e : rest ≡ 2 ^ j + rest')
      (small : rest' < 2 ^ j) where
    second_of : next_block m (2 ^ k) ≡ 2 ^ j
    second_of =
        next-rest k (2 ^ k) rest m s.most (power_Multiple k) s.small s.sum
        ∙ bit_floor-IsTop {k = j} (omega (arith, s.most))
            (record { at = omega arith; below = omega arith })

    second_all : MapsAll 4 8 bats 0x90000000 0x10000000 (2 ^ k + 2 ^ j)
    second_all =
        next_block_too bats 0x90000000 0x10000000 6 (omega arith) (omega arith) j (2 ^ k)
          (2 ^ k + 2 ^ j) first_all
          (rw (t.b6 (2 ^ k) (2 ^ j) s.floor second_of (large j ge)) (
            further (2 ^ k) j ge (omega (arith, s.most))
              (raise_Multiple k j (omega arith) (power_Multiple k)) (omega (arith, s.sum))))
          (omega arith)

    third_all : (i : ℕ) → 17 ≤ i → i < j → rest' ≡ 2 ^ i → MapsAll 4 8 bats 0x90000000 0x10000000 m
    third_all i gi li e' =
        let both : Multiple j (2 ^ k + 2 ^ j) = block_Multiple k (2 ^ k) j lt (power_Multiple k) in
        let joined : bit_or (2 ^ k) (2 ^ j) ≡ 2 ^ k + 2 ^ j =
          with_block k (2 ^ k) j (power_Multiple k)
            (omega (arith, double_pow-le j k lt, one-le-pow j 2 (omega arith))) in
        let third : next_block m (2 ^ j) ≡ 2 ^ i =
          next_power m j (2 ^ k + 2 ^ j) i (omega (arith, s.most)) both li (omega (arith, s.sum)) in
        next_block_too bats 0x90000000 0x10000000 7 (omega arith) (omega arith) i (2 ^ k + 2 ^ j) m
          second_all
          (rw
            (t.b7 (2 ^ k) (2 ^ j) (2 ^ i) s.floor second_of (large j ge) third (large i gi), joined)
            (further (2 ^ k + 2 ^ j) i gi (omega (arith, s.most))
              (raise_Multiple j i (omega arith) both) (omega (arith, s.sum))))
          (omega (arith, s.sum))

  cached_all : Powers 2 k rest → MapsAll 4 8 bats 0x90000000 0x10000000 m
  cached_all (nothing z) = λ a lt. first_all a (omega (arith, s.sum))
  cached_all (power j rest' ge lt p e) = cached_rest j rest' ge lt e p
    where
      cached_rest :
          (j rest' : ℕ)
          → 17 ≤ j
          → j < k
          → rest ≡ 2 ^ j + rest'
          → Powers 1 j rest'
          → MapsAll 4 8 bats 0x90000000 0x10000000 m
      cached_rest j rest' ge lt e (nothing z) = λ a la.
          second_all j rest' ge lt e (omega (arith, one-le-pow j 2 (omega arith))) a
            (omega (arith, s.sum))
      cached_rest j rest' ge lt e (power i z gi li (nothing z') e') =
          third_all j rest' ge lt e
            (omega (arith, double_pow-le i j li, one-le-pow i 2 (omega arith))) i gi li
            (omega arith)

-- By data accesses, and by instruction accesses where they are allowed.
pub record HasMem2 (c : BatConfig) (size : ℕ) : Type 0 where
  pub cached : MapsAll 4 8 c.dbat 0x90000000 0x10000000 size
  pub uncached : MapsAll 4 8 c.dbat 0xd0000000 0x10000000 size

module _ (m : ℕ) (x u : Bool) (c : BatConfig) where
  data_blocks : HasBlocks m (map_mem2 m x u c).dbat
  data_blocks = record {
    b4 = dbat4 m x u c;
    b6 = dbat6 m x u c;
    b7 = λ a b d f n l n' l'. dbat7 m x u c a b f n l d n' l';
  }

  code_blocks : x ≡ true → HasBlocks m (map_mem2 m x u c).ibat
  code_blocks h = record {
    b4 = ibat4 m x u c h;
    b6 = λ a b f n l. ibat6 m x u c a b f n l h;
    b7 = λ a b d f n l n' l'. ibat7 m x u c a b f n l d n' l' h;
  }

  module _ (size k rest : ℕ) (e : size ≤ m) (least : 2 ^ 17 ≤ m) (h : m ≤ 2 ^ 28)
      (s : IsSplit m k rest) (p : Powers 2 k rest) where
    pub map_mem2-HasMem2 : HasMem2 (map_mem2 m x u c) size
    map_mem2-HasMem2 =
        let (i, ge, lt, covers, ceil) = bit_ceil_lem m least h in
        record {
          cached =
              λ a la. cached_all m h (map_mem2 m x u c).dbat data_blocks k rest s p a (omega arith);
          uncached =
              first_block (map_mem2 m x u c).dbat 0xd0000000 0x10000000 5 (omega arith)
                (omega arith) i size
                (rw (dbat5 m x u c, ceil) (mem2_block-IsBlock 13 i 5 (omega arith) ge lt))
                (omega arith);
        }

    pub map_mem2-code : x ≡ true → MapsAll 4 8 (map_mem2 m x u c).ibat 0x90000000 0x10000000 size
    map_mem2-code ex a la =
        cached_all m h (map_mem2 m x u c).ibat (code_blocks ex) k rest s p a (omega arith)
