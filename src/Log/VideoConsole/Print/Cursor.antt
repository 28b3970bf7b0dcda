-- ===== src/Log/VideoConsole/Print/Cursor.antt =====
-- peli/log/VideoConsole.cpp: the cursor while a character is printed.
use libpeli.Log.VideoConsole.Print.{
  glyph_of, drawn, return_code, tabbed, place, newline_code, begin_line, wrapped, print_char,
  draw_row, draw_rows, scroll,
}
use libpeli.Base.{
  ◌+◌, if◌then◌else◌, ◌==◌, ◌*◌, ◌>>=◌, ◌≤◌, sym, ◌≢◌, Bool, ℕ, zero, suc, ◌-◌, ◌^◌, ◌<◌, ◌≡◌, refl,
  ap, ◌∙◌, true, false, some, leb, arith, if_true, if_false,
}
use libpeli.Log.VideoConsole.{
  is_negative, VideoConsole, Share, increment_row, decrement_row, move_up, num_cols, num_rows,
  glyph_height, glyph_width,
}
use native.Mathlib.Decide.{dec_lt}
use mathlib.Core.Path.{subst}
use libpeli.Base.Word.{sub32}

-- Two states of the shared block with the same size and direction.
record SameSize (s s' : Share) : Type 0 where
  rows : num_rows s' ≡ num_rows s
  cols : num_cols s' ≡ num_cols s

trans_size : (s s' s'' : Share) → SameSize s s' → SameSize s' s'' → SameSize s s''
trans_size s s' s'' a b = record { rows = b.rows ∙ a.rows; cols = b.cols ∙ a.cols }

increment_row-SameSize : (s : Share) → SameSize s (increment_row s)
unfolding increment_row num_rows num_cols
increment_row-SameSize s = record { rows = refl; cols = refl }

scrolled-SameSize : (s : Share) → SameSize s (decrement_row (move_up glyph_height s))
unfolding decrement_row move_up num_rows num_cols
scrolled-SameSize s = record { rows = refl; cols = refl }

scrolled-row : (s : Share) → (decrement_row (move_up glyph_height s)).ppc_row ≡ sub32 s.ppc_row 1
unfolding decrement_row move_up
scrolled-row s = refl

module _ (glyph : ℕ → ℕ) (x0 y0 y : ℕ) where
  draw_row-keeps :
      (x left : ℕ) (s : Share)
      → SameSize s (draw_row glyph x0 y0 y x left s)
        × ((draw_row glyph x0 y0 y x left s).ppc_row ≡ s.ppc_row)
  unfolding num_rows num_cols
  draw_row-keeps x zero s = (record { rows = refl; cols = refl }, refl)
  draw_row-keeps x (suc left) s =
      let (a, b) = draw_row-keeps (suc x) left _ in (record { rows = a.rows; cols = a.cols }, b)

draw_rows-keeps :
    (glyph : ℕ → ℕ) (x0 y0 y left : ℕ) (s : Share)
    → SameSize s (draw_rows glyph x0 y0 y left s)
      × ((draw_rows glyph x0 y0 y left s).ppc_row ≡ s.ppc_row)
unfolding num_rows num_cols
draw_rows-keeps glyph x0 y0 y zero s = (record { rows = refl; cols = refl }, refl)
draw_rows-keeps glyph x0 y0 y (suc left) s =
    let row = draw_row glyph x0 y0 y 0 glyph_width s in
    let (a, b) = draw_row-keeps glyph x0 y0 y 0 glyph_width s in
    let (a', b') = draw_rows-keeps glyph x0 y0 (suc y) left row in (trans_size s row _ a a', b' ∙ b)

-- What the loop leaves.
record OnScreen (s : Share) (row : ℕ) (s' : Share) : Type 0 where
  same : SameSize s s'
  is_row : s'.ppc_row ≡ row
  is_in : row < num_rows s

scroll-OnScreen :
    (fuel row : ℕ) (s : Share)
    → s.ppc_row ≡ row
    → row < 2 ^ 31
    → 0 < num_rows s
    → row < fuel
    → (row' : ℕ) × (s' : Share) × (scroll fuel row s ≡ some (row', s')) × OnScreen s row' s'
unfolding scroll
scroll-OnScreen zero row s e small some_rows enough = absurd (omega arith)
scroll-OnScreen (suc fuel) row s e small some_rows enough = elim (dec_lt row (num_rows s)) [
  | yes inside ↦
      let test : leb (num_rows s) row ≡ false = ground arith in
      (
        row,
        s,
        if_false _ _ test,
        record { same = record { rows = refl; cols = refl }; is_row = e; is_in = inside },
      )
  | no below ↦
      let test : leb (num_rows s) row ≡ true = ground arith in
      let t = decrement_row (move_up glyph_height s) in
      let same = scrolled-SameSize s in
      let down : sub32 row 1 ≡ row - 1 = omega arith in
      let (row', s', r, o) =
        scroll-OnScreen fuel (sub32 row 1) t (scrolled-row s ∙ ap (λ k. sub32 k 1) e) (omega arith)
          (omega (arith, same.rows)) (omega arith) in
      (
        row',
        s',
        if_true _ _ test ∙ r,
        record {
          same = trans_size s t s' same o.same;
          is_row = o.is_row;
          is_in = omega (arith, o.is_in, same.rows);
        },
      )
]

if-SameSize :
    (b : Bool) (s : Share) (x y : VideoConsole)
    → SameSize s x.share
    → SameSize s y.share
    → SameSize s (if b then x else y).share
if-SameSize true s x y hx hy = hx
if-SameSize false s x y hx hy = hy

same_size : (s : Share) → SameSize s s
same_size s = record { rows = refl; cols = refl }

-- The cursor before the character is drawn.
abbrev pub advanced : ℕ → VideoConsole → VideoConsole
advanced char c = wrapped (tabbed char (begin_line c))

wrapped-SameSize : (c : VideoConsole) → SameSize c.share (wrapped c).share
wrapped-SameSize c =
    if-SameSize (leb (num_cols c.share) c.col) c.share
      (record { share = increment_row c.share; col = 0; newline = c.newline }) c
      (increment_row-SameSize c.share) (same_size c.share)

advanced-SameSize : (char : ℕ) (c : VideoConsole) → SameSize c.share (advanced char c).share
advanced-SameSize char c =
    let b = begin_line c in
    let t = tabbed char b in
    trans_size c.share b.share (wrapped t).share
      (if-SameSize c.newline c.share
        (record { share = increment_row c.share; col = c.col; newline = false }) c
        (increment_row-SameSize c.share) (same_size c.share))
      (trans_size b.share t.share (wrapped t).share
        (if-SameSize (char == 9) b.share (record b { col = _ }) b (same_size b.share)
          (same_size b.share))
        (wrapped-SameSize t))

wrapped-col : (c : VideoConsole) → 0 < num_cols c.share → (wrapped c).col < num_cols c.share
wrapped-col c some_cols = elim (dec_lt c.col (num_cols c.share)) [
  | yes inside ↦
      let test : leb (num_cols c.share) c.col ≡ false = ground arith in
      subst (λ (w : VideoConsole). w.col < num_cols c.share) (sym (if_false _ _ test)) inside
  | no outside ↦
      let test : leb (num_cols c.share) c.col ≡ true = ground arith in
      subst (λ (w : VideoConsole). w.col < num_cols c.share) (sym (if_true _ _ test)) some_cols
]

place-stays :
    (font : ℕ → ℕ → ℕ) (char : ℕ) (c : VideoConsole)
    → is_negative c.share.ppc_row ≡ false
    → 0 < num_rows c.share
    → num_cols c.share < 2 ^ 8
    → c.col < num_cols c.share
    → (c' : VideoConsole) × (place font char c ≡ some c')
      × (c'.col ≤ num_cols c'.share)
      × (c'.share.ppc_row < num_rows c'.share)
place-stays font char c positive some_rows few_cols inside =
    let row = c.share.ppc_row in
    let (row', s', e, o) =
      scroll-OnScreen (suc row) row c.share refl (ground arith) some_rows (omega arith) in
    let c' = drawn font char c (row', s') in
    let (k, r) =
      draw_rows-keeps (glyph_of font char) (c.col * glyph_width + 4) (row' * glyph_height + 8) 0
        glyph_height s' in
    (
      c',
      if_false _ _ positive ∙ ap (λ t. t >>= (λ x. some (drawn font char c x))) e,
      omega (arith, k.cols, o.same.cols, few_cols, inside),
      omega (arith, k.rows, o.same.rows, r, o.is_row, o.is_in),
    )

-- Printing a character other than a new line or a return, to a console of at least one row and of
-- 1 to 255 columns, whose row is not negative where the character is to be drawn: the loop that
-- scrolls ends, and then the column is at most the number of columns and the row is on the
-- screen.
pub print_char-stays :
    (font : ℕ → ℕ → ℕ) (char : ℕ) (c : VideoConsole)
    → char ≢ newline_code
    → char ≢ return_code
    → is_negative (advanced char c).share.ppc_row ≡ false
    → 0 < num_rows c.share
    → 0 < num_cols c.share
    → num_cols c.share < 2 ^ 8
    → (c' : VideoConsole) × (print_char font char c ≡ some c')
      × (c'.col ≤ num_cols c'.share)
      × (c'.share.ppc_row < num_rows c'.share)
unfolding print_char
print_char-stays font char c no_newline no_return positive some_rows some_cols few_cols =
    let a = advanced-SameSize char c in
    let t = tabbed char (begin_line c) in
    let w = wrapped-SameSize t in
    let one : (char == 10) ≡ false = ground arith in
    let two : (char == 13) ≡ false = ground arith in
    let (c', e, k, r) =
      place-stays font char (advanced char c) positive (omega (arith, a.rows))
        (omega (arith, a.cols))
        (omega (arith, wrapped-col t (omega (arith, a.cols, w.cols, some_cols)), w.cols)) in
    (c', if_false _ _ one ∙ if_false _ _ two ∙ e, k, r)
