-- ===== src/Log/VideoConsole/Print/Glyph.antt =====
-- peli/log/VideoConsole.cpp: the mask of a glyph's pixel.
use libpeli.Base.{ℕ, suc, ◌-◌, ◌/◌, ◌^◌, ◌<◌, ◌≡◌, ap, bit_and, ◌==◌, if◌then◌else◌, arith}
use libpeli.Base.Bits.{bit_and_step}
use libpeli.Log.VideoConsole.Print.{intensity, bg_intensity, fg_intensity}

bit_and-past : (a : ℕ) → a < 2 ^ 8 → bit_and a (2 ^ 8) ≡ 0
bit_and-past a h = omega (
  arith,
  h,
  bit_and_step a 256,
  bit_and_step (a / 2) 128,
  bit_and_step (a / 2 / 2) 64,
  bit_and_step (a / 2 / 2 / 2) 32,
  bit_and_step (a / 2 / 2 / 2 / 2) 16,
  bit_and_step (a / 2 / 2 / 2 / 2 / 2) 8,
  bit_and_step (a / 2 / 2 / 2 / 2 / 2 / 2) 4,
  bit_and_step (a / 2 / 2 / 2 / 2 / 2 / 2 / 2) 2,
  ap (λ t. bit_and t 1) {x = a / 2 / 2 / 2 / 2 / 2 / 2 / 2 / 2} {y = 0} (omega arith),
)

-- Of a byte of a glyph, whose highest bit is the leftmost pixel, the leftmost pixel drawn is
-- background; each other pixel is the one to the left of it, and the rightmost pixel of the glyph
-- is not drawn.
pub intensity-shifted :
    (byte : ℕ)
    → byte < 2 ^ 8
    → (intensity byte 0 ≡ bg_intensity)
      × ((x : ℕ)
          → x < 7
          → intensity byte (suc x)
            ≡ (if bit_and byte (2 ^ (7 - x)) == 0 then bg_intensity else fg_intensity))
unfolding intensity
intensity-shifted byte h = (
  ap (λ b. if b == 0 then bg_intensity else fg_intensity) (bit_and-past byte h),
  λ x hx. ap (λ k. if bit_and byte (2 ^ k) == 0 then bg_intensity else fg_intensity) (omega arith),
)
