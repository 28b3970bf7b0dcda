-- ===== src/Ppc/Bat/Move.antt =====
-- peli/ppc/Bat.hpp and peli/ppc/Spr.hpp: the registers that a configuration is moved to.
use libpeli.Base.{
  ◌-◌, ℕ, zero, suc, ◌+◌, ◌*◌, ◌/◌, ◌%◌, ◌^◌, ◌<◌, ◌≡◌, refl, Bool, true, false, List, [], ◌∷◌,
  ◌++◌, ◌==◌, if◌then◌else◌, ltb, arith,
}
use libpeli.Ppc.Bat.{BatUp, BatLo, BatBits, BatConfig}

-- The 32 bits of the halves; bit 0 is the highest.
pub up_word : BatUp → ℕ
up_word up = up.bepi * 2 ^ 17 + up.resv15 * 2 ^ 13 + up.bl * 2 ^ 2 + up.vs * 2 + up.vp

pub lo_word : BatLo → ℕ
lo_word lo = lo.brpn * 2 ^ 17 + lo.resv15 * 2 ^ 7 + lo.wimg * 2 ^ 3 + lo.resv29 * 2 ^ 2 + lo.pp

pub upper : Bool → ℕ → BatConfig → ℕ
unfolding up_word
upper true index c = up_word (c.dbat index).up
upper false index c = up_word (c.ibat index).up

pub lower : Bool → ℕ → BatConfig → ℕ
unfolding lo_word
lower true index c = lo_word (c.dbat index).lo
lower false index c = lo_word (c.ibat index).lo

-- The number of the upper register; the lower one is next.
abbrev pub spr_ibat : ℕ → ℕ
spr_ibat index = if ltb index 4 then 528 + 2 * index else 560 + 2 * (index - 4)

abbrev pub spr_dbat : ℕ → ℕ
spr_dbat index = if ltb index 4 then 536 + 2 * index else 568 + 2 * (index - 4)

pub data Instruction : Type 0 where
  move_to : ℕ → ℕ → Instruction
  isync sync : Instruction

-- `count` pairs from `index` up: the lower half first, since the upper one has the valid bits.
pub configure_from : ℕ → ℕ → BatConfig → List Instruction
unfolding upper lower
configure_from zero index c = []
configure_from (suc count) index c =
    move_to (spr_dbat index + 1) (lower true index c)
    ∷ move_to (spr_dbat index) (upper true index c)
    ∷ isync
    ∷ move_to (spr_ibat index + 1) (lower false index c)
    ∷ move_to (spr_ibat index) (upper false index c)
    ∷ isync
    ∷ configure_from count (suc index) c

pub bat_configure : BatConfig → List Instruction
unfolding configure_from
bat_configure c = configure_from 8 0 c

-- `count` pairs of one side from `index` up.
abbrev pub clear_from : (ℕ → ℕ) → ℕ → ℕ → List Instruction
clear_from spr zero index = []
clear_from spr (suc count) index =
    move_to (spr index) 0 ∷ move_to (spr index + 1) 0 ∷ clear_from spr count (suc index)

pub bat_clear_all : List Instruction
bat_clear_all = clear_from spr_ibat 8 0 ++ (clear_from spr_dbat 8 0 ++ (isync ∷ sync ∷ []))

-- The registers after a sequence of instructions.
pub execute : List Instruction → (ℕ → ℕ) → ℕ → ℕ
execute [] regs = regs
execute (move_to spr value ∷ rest) regs = execute rest (λ r. if r == spr then value else regs r)
execute (isync ∷ rest) regs = execute rest regs
execute (sync ∷ rest) regs = execute rest regs

-- The four registers of an index hold the words of the configuration.
abbrev pub IsMoved : BatConfig → (ℕ → ℕ) → ℕ → Type 0
IsMoved c regs index =
    (regs (spr_dbat index) ≡ upper true index c)
    × (regs (spr_dbat index + 1) ≡ lower true index c)
    × (regs (spr_ibat index) ≡ upper false index c)
    × (regs (spr_ibat index + 1) ≡ lower false index c)

-- After `BatConfigure` each of the 32 registers holds its word, whatever the registers held before.
pub bat_configure_lem :
    (c : BatConfig) (regs : ℕ → ℕ) (index : ℕ)
    → index < 8
    → IsMoved c (execute (bat_configure c) regs) index
unfolding bat_configure execute
bat_configure_lem c regs zero h = (refl, refl, refl, refl)
bat_configure_lem c regs (suc zero) h = (refl, refl, refl, refl)
bat_configure_lem c regs (suc (suc zero)) h = (refl, refl, refl, refl)
bat_configure_lem c regs (suc (suc (suc zero))) h = (refl, refl, refl, refl)
bat_configure_lem c regs (suc (suc (suc (suc zero)))) h = (refl, refl, refl, refl)
bat_configure_lem c regs (suc (suc (suc (suc (suc zero))))) h = (refl, refl, refl, refl)
bat_configure_lem c regs (suc (suc (suc (suc (suc (suc zero)))))) h = (refl, refl, refl, refl)
bat_configure_lem c regs (suc (suc (suc (suc (suc (suc (suc zero))))))) h = (refl, refl, refl, refl)
bat_configure_lem c regs (suc (suc (suc (suc (suc (suc (suc (suc i)))))))) h = absurd (omega arith)

-- The words hold the fields apart, for fields that fit.
pub record Fits (b : BatBits) : Type 0 where
  pub resv15 : b.up.resv15 < 2 ^ 4
  pub bl : b.up.bl < 2 ^ 11
  pub vs : b.up.vs < 2
  pub vp : b.up.vp < 2
  pub lo_resv15 : b.lo.resv15 < 2 ^ 10
  pub wimg : b.lo.wimg < 2 ^ 4
  pub resv29 : b.lo.resv29 < 2
  pub pp : b.lo.pp < 4

abbrev pub up_of : ℕ → BatUp
up_of w = record {
  bepi = w / 2 ^ 17;
  resv15 = w / 2 ^ 13 % 2 ^ 4;
  bl = w / 2 ^ 2 % 2 ^ 11;
  vs = w / 2 % 2;
  vp = w % 2;
}

abbrev pub lo_of : ℕ → BatLo
lo_of w = record {
  brpn = w / 2 ^ 17;
  resv15 = w / 2 ^ 7 % 2 ^ 10;
  wimg = w / 2 ^ 3 % 2 ^ 4;
  resv29 = w / 2 ^ 2 % 2;
  pp = w % 4;
}

pub words-BatBits :
    (b : BatBits) → Fits b → (up_of (up_word b.up) ≡ b.up) × (lo_of (lo_word b.lo) ≡ b.lo)
unfolding up_word lo_word
words-BatBits b f = (ground arith, ground arith)
