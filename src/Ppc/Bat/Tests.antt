-- ===== src/Ppc/Bat/Tests.antt =====
-- The configuration of a console with 24 MB and 64 MB, and the theorems at it.
use libpeli.Base.{◌≡◌, ◌⊎◌, ◌+◌, refl, false, arith}
use libpeli.Ppc.Bat.{
  BatConfig, config, adjust_block_size, adjust_from, bit_floor, bit_ceil, clz, map_mem1, map_mem2,
  mem1_cached,
}
use libpeli.Ppc.Bat.Mapped.{mem1-IsMapped, mem2-IsMapped}
use libpeli.Ppc.Bat.Split.{IsMapped}

abbrev retail : BatConfig
retail = config 0x1800000 0x4000000 false false false

mem1_adjusted : adjust_block_size 0x1800000 2 ≡ 0x1800000
unfolding adjust_block_size adjust_from bit_floor clz
mem1_adjusted = refl

-- 28 MB need three blocks, and get two.
rounded_up : adjust_block_size 0x1c00000 2 ≡ 0x2000000
unfolding adjust_block_size adjust_from bit_floor clz
rounded_up = refl

first_length : (retail.dbat 0).up.bl ≡ 0x7f
unfolding config map_mem1 map_mem2 adjust_block_size adjust_from bit_floor bit_ceil clz mem1_cached
first_length = refl

mem1-IsMapped_example :
    IsMapped 0 4 retail.dbat (0x80000000 + 0x17fffff) 0x17fffff
    × IsMapped 0 4 retail.ibat (0x80000000 + 0x17fffff) 0x17fffff
    × IsMapped 0 4 retail.dbat (0xc0000000 + 0x17fffff) 0x17fffff
mem1-IsMapped_example =
    mem1-IsMapped 0x1800000 0x4000000 false false false 0x17fffff (omega arith) (omega arith)
      (omega arith)

mem2-IsMapped_example :
    IsMapped 4 8 retail.dbat (0x90000000 + 0x3ffffff) (0x10000000 + 0x3ffffff)
    × IsMapped 4 8 retail.dbat (0xd0000000 + 0x3ffffff) (0x10000000 + 0x3ffffff)
    × ((false ≡ false) ⊎ IsMapped 4 8 retail.ibat (0x90000000 + 0x3ffffff) (0x10000000 + 0x3ffffff))
mem2-IsMapped_example =
    mem2-IsMapped 0x1800000 0x4000000 false false false 0x3ffffff (omega arith) (omega arith)
      (omega arith)
