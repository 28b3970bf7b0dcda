-- ===== src/Log/VideoConsole/Print.antt =====
-- peli/log/VideoConsole.cpp: locking, and printing with `font`, the bytes of a glyph by character.
pub mod Lock
pub mod Glyph
pub mod Cursor
mod Tests
use libpeli.Base.{
  ℕ, zero, suc, ◌+◌, ◌*◌, ◌/◌, ◌%◌, ◌^◌, ◌-◌, bit_and, bit_or, Bool, true, false, not, ◌||◌, List,
  [], ◌∷◌, ◌++◌, Option, none, some, ◌==◌, leb, ltb, if◌then◌else◌, ◌>>=◌,
}
use libpeli.Base.Word.{add32, sub32}
use libpeli.Util.Address.{align_up}
use libpeli.Log.VideoConsole.{
  Share, VideoConsole, glyph_width, glyph_height, is_negative, is_sideways, increment_row,
  decrement_row, get_tab_width, num_cols, num_rows, write_grayscale, move_up,
}

abbrev other_lock : ℕ
other_lock = 2

abbrev my_lock : ℕ
my_lock = 1

abbrev pub lock_rounds : ℕ
lock_rounds = 16

abbrev pub next_round : ℕ → ℕ → ℕ
next_round read i = if bit_and read other_lock == 0 then suc i else 0

abbrev pub lock_write : ℕ → List ℕ
lock_write read = if bit_and read other_lock == 0 then bit_or read my_lock ∷ [] else []

-- `reads` is what the rounds read from the shared lock; the result is what they wrote, and none
-- if the lock is not taken in so many rounds. `i` counts.
pub lock_from : List ℕ → ℕ → Option (List ℕ)
lock_from [] i = if leb lock_rounds i then some [] else none
lock_from (r ∷ rs) i =
    let rest = lock_from rs (next_round r i) in
    if leb lock_rounds i then some [] else (do ws ← rest; some (lock_write r ++ ws))

pub lock : List ℕ → Option (List ℕ)
unfolding lock_from
lock reads = lock_from reads 0

abbrev pub bg_intensity : ℕ
bg_intensity = 16

abbrev pub fg_intensity : ℕ
fg_intensity = 235

-- `glyph` is the byte of the glyph's row.
unfoldable pub intensity : ℕ → ℕ → ℕ
intensity byte x = if bit_and byte (2 ^ (8 - x % 8)) == 0 then bg_intensity else fg_intensity

abbrev pub draw_pixel : ℕ → ℕ → ℕ → Share → Share
draw_pixel x y v s = record s {
  xfb =
      if is_sideways s
      then write_grayscale s.xfb_width s.xfb_height y (sub32 s.xfb_height x) v s.xfb
      else write_grayscale s.xfb_width s.xfb_height x y v s.xfb;
}

abbrev pub draw_row : (ℕ → ℕ) → ℕ → ℕ → ℕ → ℕ → ℕ → Share → Share
draw_row glyph x0 y0 y x zero s = s
draw_row glyph x0 y0 y x (suc left) s =
    draw_row glyph x0 y0 y (suc x) left
      (draw_pixel (x0 + x) (y0 + y) (intensity (glyph ((y * glyph_width + x) / 8)) x) s)

abbrev pub draw_rows : (ℕ → ℕ) → ℕ → ℕ → ℕ → ℕ → Share → Share
draw_rows glyph x0 y0 y zero s = s
draw_rows glyph x0 y0 y (suc left) s =
    draw_rows glyph x0 y0 (suc y) left (draw_row glyph x0 y0 y 0 glyph_width s)

-- The loop that scrolls until the row is on the screen; none if the fuel runs out.
pub scroll : ℕ → ℕ → Share → Option (ℕ × Share)
scroll zero row s = if leb (num_rows s) row then none else some (row, s)
scroll (suc fuel) row s =
    let rest = scroll fuel (sub32 row 1) (decrement_row (move_up glyph_height s)) in
    if leb (num_rows s) row then rest else some (row, s)

abbrev pub newline_code : ℕ
newline_code = 10

abbrev pub return_code : ℕ
return_code = 13

abbrev pub tab_code : ℕ
tab_code = 9

abbrev pub space : ℕ
space = 32

-- A new line that is due is begun.
abbrev pub begin_line : VideoConsole → VideoConsole
begin_line c =
    if c.newline then record { share = increment_row c.share; col = c.col; newline = false } else c

-- A byte as the column is.
abbrev pub tab_stop : ℕ → ℕ → ℕ
tab_stop tab col = align_up tab ((col + 1) % 2 ^ 8) % 2 ^ 8

abbrev pub tabbed : ℕ → VideoConsole → VideoConsole
tabbed char c =
    if char == tab_code then record c { col = tab_stop (get_tab_width c.share) c.col } else c

abbrev pub wrapped : VideoConsole → VideoConsole
wrapped c =
    if leb (num_cols c.share) c.col
    then record { share = increment_row c.share; col = 0; newline = c.newline }
    else c

abbrev pub glyph_of : (ℕ → ℕ → ℕ) → ℕ → ℕ → ℕ
glyph_of font char = if ltb char 128 then font char else font space

-- The rest, once the row is on the screen.
abbrev pub drawn : (ℕ → ℕ → ℕ) → ℕ → VideoConsole → ℕ × Share → VideoConsole
drawn font char c (row, s) = record c {
  share =
      draw_rows (glyph_of font char) (c.col * glyph_width + glyph_width / 2)
        (row * glyph_height + glyph_height / 2) 0 glyph_height s;
  col = (c.col + 1) % 2 ^ 8;
}

abbrev pub place : (ℕ → ℕ → ℕ) → ℕ → VideoConsole → Option VideoConsole
place font char c =
    let row = c.share.ppc_row in
    let scrolled = scroll (suc row) row c.share in
    if is_negative row then some c else (do r ← scrolled; some (drawn font char c r))

pub print_char : (ℕ → ℕ → ℕ) → ℕ → VideoConsole → Option VideoConsole
unfolding scroll
print_char font char c =
    if char == newline_code
    then some (record {
      share = (if c.newline then increment_row c.share else c.share);
      col = 0;
      newline = true;
    })
    else if char == return_code
    then some (record c { col = 0 })
    else place font char (wrapped (tabbed char (begin_line c)))

abbrev print_chars : (ℕ → ℕ → ℕ) → List ℕ → VideoConsole → Option VideoConsole
print_chars font [] c = some c
print_chars font (char ∷ chars) c = do c ← print_char font char c; print_chars font chars c

-- `Print`, with what the shared lock reads while it locks; it unlocks by writing 0.
pub print : (ℕ → ℕ → ℕ) → List ℕ → List ℕ → VideoConsole → Option VideoConsole
unfolding lock print_char
print font reads chars c = do
  writes ← lock reads
  c ← print_chars font chars c
  some (record c { share = record c.share { lock = 0 } })

-- The constructor on a block that is there; `col` is not set before the new line that it prints.
pub attach : (ℕ → ℕ → ℕ) → List ℕ → ℕ → Share → Option VideoConsole
unfolding print
attach font reads col s =
    print font reads (newline_code ∷ []) (record { share = s; col = col; newline = false })
