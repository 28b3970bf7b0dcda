-- ===== src/Log/VideoConsole/Tests.antt =====
-- Printing on a small upright console, and the theorems about it.
use libpeli.Base.{ℕ, ◌-◌, ◌^◌, ◌≤◌, ◌<◌, ◌≡◌, refl, some, false, arith}
use libpeli.Log.VideoConsole.{VideoConsole, num_rows, num_cols, read_grayscale, write_grayscale}
use libpeli.Log.VideoConsole.Pixel.{write-read}
use libpeli.Log.VideoConsole.Print.{print_char}
use libpeli.Log.VideoConsole.Print.Cursor.{print_char-stays}

-- Four columns and two rows, with the cursor below the last row.
abbrev small : VideoConsole
small = record {
  share = record {
    xfb = λ i. 0;
    xfb_width = 40;
    xfb_height = 64;
    lock = 0;
    ppc_row = 2;
    ios_row = 2 ^ 32 - 1;
    xfb_init = 1;
    option = 6;
  };
  col = 0;
  newline = false;
}

abbrev font : ℕ → ℕ → ℕ
font char y = char

print_char-stays_example :
    (c' : VideoConsole) × (print_char font 65 small ≡ some c')
    × (c'.col ≤ num_cols c'.share)
    × (c'.share.ppc_row < num_rows c'.share)
unfolding num_rows num_cols
print_char-stays_example =
    print_char-stays font 65 small (omega arith) (omega arith) refl (omega arith) (omega arith)
      (omega arith)

write-read_example :
    (read_grayscale 40 64 3 5 (write_grayscale 40 64 3 5 200 (λ i. 0)) ≡ 200)
    × (read_grayscale 40 64 2 5 (write_grayscale 40 64 3 5 200 (λ i. 0))
        ≡ read_grayscale 40 64 2 5 (λ i. 0))
write-read_example =
    write-read 40 64 3 5 2 5 200 (λ i. 0) refl (omega arith) (omega arith) (omega arith)
      (omega arith) (λ e _. absurd (omega (arith, e))) (omega arith)
