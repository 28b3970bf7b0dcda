-- ===== src/Vi/Video/Taps.antt =====
-- peli/vi/Video.hpp: the filter taps, set and read.
use libpeli.Base.{ℕ, ◌%◌, ◌^◌, ◌≡◌, refl, [], ◌∷◌}
use libpeli.Vi.Video.{Registers, set_taps, get_taps}

-- `GetTaps` gives back the nine taps that `SetTaps` took, cut to ten bits, and the first twelve
-- of the others; of the last two it gives the taps before: the twelfth again and the thirteenth,
-- and the last is lost.
pub get_taps-set_taps :
    (taps taps2 : ℕ → ℕ) (r : Registers)
    → get_taps (set_taps taps taps2 r) ≡ (
      taps 0 % 2 ^ 10
          ∷ taps 1 % 2 ^ 10
          ∷ taps 2 % 2 ^ 10
          ∷ taps 3 % 2 ^ 10
          ∷ taps 4 % 2 ^ 10
          ∷ taps 5 % 2 ^ 10
          ∷ taps 6 % 2 ^ 10
          ∷ taps 7 % 2 ^ 10
          ∷ taps 8 % 2 ^ 10
          ∷ [],
      taps2 0
          ∷ taps2 1
          ∷ taps2 2
          ∷ taps2 3
          ∷ taps2 4
          ∷ taps2 5
          ∷ taps2 6
          ∷ taps2 7
          ∷ taps2 8
          ∷ taps2 9
          ∷ taps2 10
          ∷ taps2 11
          ∷ taps2 11
          ∷ taps2 12
          ∷ [],
    )
unfolding get_taps set_taps
get_taps-set_taps taps taps2 r = refl
