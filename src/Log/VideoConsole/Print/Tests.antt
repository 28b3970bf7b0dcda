-- ===== src/Log/VideoConsole/Print/Tests.antt =====
-- The lock, held once and then free; and a character on a new console.
use libpeli.Base.{refl, ℕ, ◌≡◌, ◌↔◌, List, [], ◌∷◌, some}
use libpeli.Base.{false}
use libpeli.Log.VideoConsole.{VideoConsole, new_share, num_cols}
use libpeli.Log.VideoConsole.Print.{print_char, lock}
use libpeli.Log.VideoConsole.Print.Lock.{HasFree, lock_iff}

-- Held once, then free sixteen times.
abbrev reads : List ℕ
reads = 2 ∷ 0 ∷ 0 ∷ 0 ∷ 0 ∷ 0 ∷ 0 ∷ 0 ∷ 0 ∷ 0 ∷ 0 ∷ 0 ∷ 0 ∷ 0 ∷ 0 ∷ 0 ∷ 0 ∷ []

lock_iff_example : ((ws : List ℕ) × (lock reads ≡ some ws)) ↔ HasFree reads
lock_iff_example = lock_iff reads

abbrev font : ℕ → ℕ → ℕ
font char y = char

abbrev fresh : VideoConsole
fresh = record { share = new_share false (λ i. 0) 40 64; col = 0; newline = false }

-- A character before the first new line is not drawn: the row is still negative.
print_char-first : print_char font 65 fresh ≡ some (record fresh { col = 0 })
unfolding print_char new_share num_cols
print_char-first = refl
