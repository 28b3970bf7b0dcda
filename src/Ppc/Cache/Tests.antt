-- ===== src/Ppc/Cache/Tests.antt =====
-- The cache operations at concrete ranges.
use libpeli.Base.{◌≡◌, ◌≢◌, ◌⊎◌, ◌↔◌, ◌+◌, ◌*◌, ◌/◌, ◌%◌, ◌<◌, refl, [], ◌∷◌, arith}
use libpeli.Ppc.Cache.{op_range, op_from, Touches, op_range-Touches}

-- Two bytes across a boundary touch one block.
one_block : op_range 0x8000001f 2 ≡ 0x8000001f ∷ []
unfolding op_range op_from
one_block = refl

op_range-Touches_example :
    (Touches (0x80000020 / 32) (op_range 0x8000001f 2)
      ↔ (0x80000020 / 32 * 32 + 0x8000001f % 32 < 0x8000001f + 2))
    × ((0x8000001f % 32 ≢ 0) ⊎ Touches (0x80000020 / 32) (op_range 0x8000001f 2))
op_range-Touches_example =
    op_range-Touches 0x8000001f 2 0x80000020 (omega arith) (omega arith) (omega arith)
