-- ===== src/Log/VideoConsole.antt =====
-- peli/log/VideoConsole.cpp, as the PowerPC side has it: the shared block is a record, the frame
-- buffer a function of the word's index. Synchronising and flushing leave no trace.
pub mod Print
pub mod Pixel
pub mod Scroll
mod Tests
use libpeli.Base.{
  ℕ, zero, suc, ◌+◌, ◌-◌, ◌*◌, ◌/◌, ◌%◌, ◌^◌, bit_and, bit_or, Bool, true, false, not, ◌||◌, List,
  [], ◌∷◌, Option, ◌==◌, leb, ltb, if◌then◌else◌,
}
use libpeli.Base.Word.{add32, sub32}
use libpeli.Util.Address.{align_up, align_down}

abbrev pub glyph_width : ℕ
glyph_width = 8

abbrev pub glyph_height : ℕ
glyph_height = 16

-- Rows are 32-bit patterns. `option` has the direction in its low bit and the tab width above.
pub record Share : Type 0 where
  pub xfb : ℕ → ℕ
  pub xfb_width : ℕ
  pub xfb_height : ℕ
  pub lock : ℕ
  pub ppc_row : ℕ
  pub ios_row : ℕ
  pub xfb_init : ℕ
  pub option : ℕ

pub record VideoConsole : Type 0 where
  pub share : Share
  pub col : ℕ
  pub newline : Bool

-- `<=` and `< 0` on the patterns of signed numbers.
abbrev pub signed_leb : ℕ → ℕ → Bool
signed_leb a b = leb (add32 a (2 ^ 31)) (add32 b (2 ^ 31))

abbrev pub is_negative : ℕ → Bool
is_negative a = leb (2 ^ 31) a

abbrev pub is_sideways : Share → Bool
is_sideways s = not (bit_and s.option 1 == 0)

-- The block that the constructor sets up, with the frame buffer that `ConfigureVideo` cleared.
unfoldable pub new_share : Bool → (ℕ → ℕ) → ℕ → ℕ → Share
new_share sideways xfb width height = record {
  xfb = xfb;
  xfb_width = width;
  xfb_height = height;
  lock = 0;
  ppc_row = 2 ^ 32 - 1;
  ios_row = 2 ^ 32 - 1;
  xfb_init = 1;
  option = bit_or (3 * 2) (if sideways then 1 else 0);
}

unfoldable pub increment_row : Share → Share
increment_row s =
    let row = add32 s.ppc_row 1 in
    record s { ppc_row = if signed_leb row s.ios_row then add32 s.ios_row 1 else row }

unfoldable pub decrement_row : Share → Share
decrement_row s = record s { ppc_row = sub32 s.ppc_row 1; ios_row = sub32 s.ios_row 1 }

-- `mask` is 0xF << 1; `width` is a byte.
unfoldable pub set_tab_width : ℕ → Share → Share
set_tab_width width s =
    let w = sub32 width 1 * 2 % 2 ^ 8 in
    record s { option = bit_or (bit_and s.option (2 ^ 32 - 1 - 30)) (bit_and w 30) }

unfoldable pub get_tab_width : Share → ℕ
get_tab_width s = bit_and (s.option / 2) 15 + 1

unfoldable pub num_cols : Share → ℕ
num_cols s = sub32 ((if is_sideways s then s.xfb_height else s.xfb_width) / glyph_width) 1

unfoldable pub num_rows : Share → ℕ
num_rows s = sub32 ((if is_sideways s then s.xfb_width else s.xfb_height) / glyph_height) 2

-- A frame buffer with its width and height. A word holds two pixels: the even one in its high
-- byte, the odd one in its second lowest.
abbrev pub word_of : ℕ → ℕ → ℕ → ℕ
word_of width x y = y * (width / 2) + x / 2

unfoldable pub read_grayscale : ℕ → ℕ → ℕ → ℕ → (ℕ → ℕ) → ℕ
read_grayscale width height x y xfb =
    let val = xfb (word_of width x y) in
    if ltb width x || ltb height y
    then 16
    else if x % 2 == 1
    then val / 2 ^ 8 % 2 ^ 8
    else val / 2 ^ 24 % 2 ^ 8

abbrev pub with_pixel : Bool → ℕ → ℕ → ℕ
with_pixel true intensity val =
    val / 2 ^ 24 % 2 ^ 8 * 2 ^ 24 + 127 * 2 ^ 16 + intensity * 2 ^ 8 + 127
with_pixel false intensity val =
    intensity * 2 ^ 24 + 127 * 2 ^ 16 + val / 2 ^ 8 % 2 ^ 8 * 2 ^ 8 + 127

abbrev pub put : ℕ → ℕ → (ℕ → ℕ) → ℕ → ℕ
put i v xfb j = if j == i then v else xfb j

unfoldable pub write_grayscale : ℕ → ℕ → ℕ → ℕ → ℕ → (ℕ → ℕ) → ℕ → ℕ
write_grayscale width height x y intensity xfb =
    let w = word_of width x y in
    if ltb width x || ltb height y
    then xfb
    else put w (with_pixel (x % 2 == 1) intensity (xfb w)) xfb

-- `xfb[dest++] = xfb[src++]`, `n` times.
abbrev pub copy_words : ℕ → ℕ → ℕ → (ℕ → ℕ) → ℕ → ℕ
copy_words zero dest src xfb = xfb
copy_words (suc n) dest src xfb = copy_words n (suc dest) (suc src) (put dest (xfb src) xfb)

-- The loop over eight words; a round moves `src` by eight, so `total` rounds are enough.
abbrev copy_eights : ℕ → ℕ → ℕ → ℕ → (ℕ → ℕ) → ℕ → ℕ
copy_eights zero total dest src xfb = xfb
copy_eights (suc fuel) total dest src xfb =
    let rest = copy_eights fuel total (dest + 8) (src + 8) (copy_words 8 dest src xfb) in
    if ltb src total then rest else xfb

abbrev clear_right : ℕ → ℕ → ℕ → ℕ → ℕ → ℕ → (ℕ → ℕ) → ℕ → ℕ
clear_right width height y start i zero xfb = xfb
clear_right width height y start i (suc left) xfb =
    clear_right width height y start (suc i) left
      (write_grayscale width height (add32 start i) y 16 xfb)

-- Row `y` and the `left` rows after it, moved left by `offset` words.
abbrev move_left : ℕ → ℕ → ℕ → ℕ → ℕ → (ℕ → ℕ) → ℕ → ℕ
move_left width height offset y zero xfb = xfb
move_left width height offset y (suc left) xfb =
    let base = y * (width / 2) in
    let copied = copy_words (sub32 (width / 2) offset) base (base + offset) xfb in
    move_left width height offset (suc y) left
      (clear_right width height y (sub32 width offset) 0 offset copied)

-- As in the source, the first argument of `AlignDown` is the alignment.
pub moved : Bool → ℕ → ℕ → ℕ → (ℕ → ℕ) → ℕ → ℕ
unfolding write_grayscale
moved true height width xfb_height xfb = move_left width xfb_height (height / 2) 0 xfb_height xfb
moved false height width xfb_height xfb =
    let total = align_down (xfb_height * (width / 2)) 32 in
    copy_eights total total 0 (align_down (height * (width / 2)) 32) xfb

pub move_up : ℕ → Share → Share
unfolding moved
move_up height s = record s { xfb = moved (is_sideways s) height s.xfb_width s.xfb_height s.xfb }

abbrev clear_row : ℕ → ℕ → ℕ → ℕ → ℕ → (ℕ → ℕ) → ℕ → ℕ
clear_row width height y x zero xfb = xfb
clear_row width height y x (suc left) xfb =
    clear_row width height y (suc x) left (write_grayscale width height x y 16 xfb)

abbrev clear_rows : ℕ → ℕ → ℕ → ℕ → (ℕ → ℕ) → ℕ → ℕ
clear_rows width height y zero xfb = xfb
clear_rows width height y (suc left) xfb =
    clear_rows width height (suc y) left (clear_row width height y 0 width xfb)

-- `ConfigureVideo(true)`, on the frame buffer that is there.
unfoldable pub new_console : Bool → (ℕ → ℕ) → ℕ → ℕ → VideoConsole
unfolding new_share
new_console sideways xfb width height = record {
  share = new_share sideways (clear_rows width height 0 height xfb) width height;
  col = 0;
  newline = false;
}
