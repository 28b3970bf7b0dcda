-- ===== src/Util/Address/Tests.antt =====
-- The theorems about addresses at concrete values.
use libpeli.Base.{◌+◌, ◌%◌, ◌^◌, ◌≡◌, refl, arith}
use libpeli.Util.Address.{align_up, effective, physical, uncached}
use libpeli.Util.Address.Regions.{regions_agree}

aligns : align_up 32 0x80001001 ≡ 0x80001020
unfolding align_up
aligns = refl

regions_agree_example :
    (physical 0x1234 ≡ 0x1234 % 2 ^ 30)
    × (effective 0x1234 ≡ 0x80000000 + 0x1234 % 2 ^ 30)
    × (uncached 0x1234 ≡ 0xc0000000 + 0x1234 % 2 ^ 30)
    × (physical (effective 0x1234) ≡ physical 0x1234)
    × (physical (uncached 0x1234) ≡ physical 0x1234)
    × (effective (uncached 0x1234) ≡ effective 0x1234)
    × (effective (physical 0x1234) ≡ effective 0x1234)
regions_agree_example = regions_agree 0x1234 (omega arith)
