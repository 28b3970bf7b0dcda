-- ===== src/Ios/Sdio/Card/Rounds.antt =====
-- peli/ios/sdio/Card.cpp: the rounds of a block transfer.
use libpeli.Ios.Sdio.Card.{Event, sent, copied, round_blocks}
use libpeli.Base.{◌<◌, suc, zero, ℕ, ◌+◌, List, [], ◌∷◌, arith}

-- The blocks that commands transfer, and the commands.
abbrev pub blocks_of : List Event → ℕ
blocks_of [] = 0
blocks_of (sent c ∷ es) = c.block_count + blocks_of es
blocks_of (copied dst src n ∷ es) = blocks_of es

abbrev pub commands_of : List Event → ℕ
commands_of [] = 0
commands_of (sent c ∷ es) = suc (commands_of es)
commands_of (copied dst src n ∷ es) = commands_of es

-- Rounds of `count`, `count - 1` and so on blocks, four at most.
abbrev pub span : ℕ → ℕ
span zero = 0
span (suc n) = round_blocks (suc n) + span n

round_blocks-pos : (n : ℕ) → 0 < round_blocks (suc n)
round_blocks-pos n = ground arith

-- For two blocks and more, the rounds move more blocks than were asked for.
pub span-more : (n : ℕ) → suc (suc n) < span (suc (suc n))
span-more zero = omega arith
span-more (suc n) = omega (arith, span-more n, round_blocks-pos (suc (suc n)))
