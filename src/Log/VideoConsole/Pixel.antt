-- ===== src/Log/VideoConsole/Pixel.antt =====
-- peli/log/VideoConsole.cpp: the pixels of the frame buffer, written and read.
use native.Mathlib.Decide.{ℕ_discrete}
use mathlib.Core.Path.{ap₂}
use libpeli.Base.{
  if◌then◌else◌, ℕ, zero, suc, ◌+◌, ◌*◌, ◌/◌, ◌%◌, ◌^◌, ◌≤◌, ◌<◌, ◌≡◌, ◌≢◌, refl, sym, ap, ◌∙◌,
  Bool, true, false, ◌||◌, ◌==◌, ltb, arith, if_false,
}
use libpeli.Log.VideoConsole.{read_grayscale, write_grayscale, word_of, with_pixel, put}

-- Rows do not overlap.
row-inj : (h y y' a b : ℕ) → a < h → b < h → y * h + a ≡ y' * h + b → y ≡ y'
row-inj h zero zero a b ha hb e = refl
row-inj h zero (suc y') a b ha hb e = absurd (omega arith)
row-inj h (suc y) zero a b ha hb e = absurd (omega arith)
row-inj h (suc y) (suc y') a b ha hb e = ap suc (row-inj h y y' a b ha hb (omega arith))

put_self : (i v : ℕ) (xfb : ℕ → ℕ) → put i v xfb i ≡ v
put_self i v xfb = ground arith

put_ne : (i j v : ℕ) (xfb : ℕ → ℕ) → j ≢ i → put i v xfb j ≡ xfb j
put_ne i j v xfb ne = ground arith

-- The pixel `odd` of a word.
abbrev half : Bool → ℕ → ℕ
half odd val = if odd then val / 2 ^ 8 % 2 ^ 8 else val / 2 ^ 24 % 2 ^ 8

half-with_pixel : (odd : Bool) (v val : ℕ) → v < 2 ^ 8 → half odd (with_pixel odd v val) ≡ v
half-with_pixel true v val h = omega arith
half-with_pixel false v val h = omega arith

half-other :
    (odd other : Bool) (v val : ℕ)
    → v < 2 ^ 8
    → odd ≢ other
    → half other (with_pixel odd v val) ≡ half other val
half-other true true v val h ne = absurd (ne refl)
half-other true false v val h ne = omega arith
half-other false true v val h ne = omega arith
half-other false false v val h ne = absurd (ne refl)

parity : (x x' : ℕ) → (x % 2 == 1) ≡ (x' % 2 == 1) → x % 2 ≡ x' % 2
parity x x' e = ground arith

module _ (width height : ℕ) where
  read_inside :
      (x y : ℕ) (xfb : ℕ → ℕ)
      → x ≤ width
      → y ≤ height
      → read_grayscale width height x y xfb ≡ half (x % 2 == 1) (xfb (word_of width x y))
  unfolding read_grayscale
  read_inside x y xfb hx hy =
      let test : ltb width x || ltb height y ≡ false = ground arith in if_false _ _ test

  write_inside :
      (x y v : ℕ) (xfb : ℕ → ℕ)
      → x ≤ width
      → y ≤ height
      → write_grayscale width height x y v xfb
        ≡ put (word_of width x y) (with_pixel (x % 2 == 1) v (xfb (word_of width x y))) xfb
  unfolding write_grayscale
  write_inside x y v xfb hx hy =
      let test : ltb width x || ltb height y ≡ false = ground arith in if_false _ _ test

  read-write_self :
      (x y v : ℕ) (xfb : ℕ → ℕ)
      → x ≤ width
      → y ≤ height
      → v < 2 ^ 8
      → read_grayscale width height x y (write_grayscale width height x y v xfb) ≡ v
  read-write_self x y v xfb hx hy hv =
      let w = word_of width x y in
      let pixel = with_pixel (x % 2 == 1) v (xfb w) in
      read_inside x y (write_grayscale width height x y v xfb) hx hy
      ∙ ap (λ f. half (x % 2 == 1) (f w)) (write_inside x y v xfb hx hy)
      ∙ ap (half (x % 2 == 1)) (put_self w pixel xfb)
      ∙ half-with_pixel (x % 2 == 1) v (xfb w) hv

  same_word :
      (x y x' y' : ℕ)
      → width % 2 ≡ 0
      → x < width
      → x' < width
      → word_of width x y ≡ word_of width x' y'
      → (y ≡ y') × (x / 2 ≡ x' / 2)
  same_word x y x' y' even hx hx' e =
      let rows = row-inj (width / 2) y y' (x / 2) (x' / 2) (omega arith) (omega arith) e in
      (rows, omega (arith, e, ap (λ r. r * (width / 2)) rows))

  read-write_other :
      (x y x' y' v : ℕ) (xfb : ℕ → ℕ)
      → width % 2 ≡ 0
      → x < width
      → y ≤ height
      → x' < width
      → y' ≤ height
      → v < 2 ^ 8
      → ((x' ≡ x) → (y' ≡ y) → ⊥)
      → read_grayscale width height x' y' (write_grayscale width height x y v xfb)
        ≡ read_grayscale width height x' y' xfb
  read-write_other x y x' y' v xfb even hx hy hx' hy' hv apart =
      let w = word_of width x y in
      let w' = word_of width x' y' in
      let pixel = with_pixel (x % 2 == 1) v (xfb w) in
      read_inside x' y' (write_grayscale width height x y v xfb) (omega arith) hy'
      ∙ ap (λ f. half (x' % 2 == 1) (f w')) (write_inside x y v xfb (omega arith) hy)
      ∙ (elim (ℕ_discrete w' w) [
        | yes e ↦
            let (rows, halves) = same_word x' y' x y even hx' hx e in
            let sides : (x % 2 == 1) ≢ (x' % 2 == 1) =
              λ s. apart (omega (arith, parity x x' s, halves)) rows in
            ap (λ i. half (x' % 2 == 1) (put w pixel xfb i)) e
            ∙ ap (half (x' % 2 == 1)) (put_self w pixel xfb)
            ∙ half-other (x % 2 == 1) (x' % 2 == 1) v (xfb w) hv sides
            ∙ ap (λ i. half (x' % 2 == 1) (xfb i)) (sym e)
        | no ne ↦ ap (half (x' % 2 == 1)) (put_ne w w' pixel xfb ne)
      ])
      ∙ sym (read_inside x' y' xfb (omega arith) hy')

-- In a frame buffer of an even width, writing a byte to a pixel inside it makes that pixel read as
-- that byte and another pixel inside it read as before.
pub write-read :
    (width height x y x' y' v : ℕ) (xfb : ℕ → ℕ)
    → width % 2 ≡ 0
    → x < width
    → y < height
    → x' < width
    → y' < height
    → ((x' ≡ x) → (y' ≡ y) → ⊥)
    → v < 2 ^ 8
    → (read_grayscale width height x y (write_grayscale width height x y v xfb) ≡ v)
      × (read_grayscale width height x' y' (write_grayscale width height x y v xfb)
          ≡ read_grayscale width height x' y' xfb)
write-read width height x y x' y' v xfb even hx hy hx' hy' apart hv = (
  read-write_self width height x y v xfb (omega arith) (omega arith) hv,
  read-write_other width height x y x' y' v xfb even hx (omega arith) hx' (omega arith) hv apart,
)

-- In a frame buffer of an even width that is not 0, writing a byte to the column behind the last
-- one, which the bounds test lets through, writes the first pixel of the row below.
pub write-next_row :
    (width height y v : ℕ) (xfb : ℕ → ℕ)
    → width % 2 ≡ 0
    → 0 < width
    → y < height
    → v < 2 ^ 8
    → read_grayscale width height 0 (suc y) (write_grayscale width height width y v xfb) ≡ v
write-next_row width height y v xfb even pos hy hv =
    let words : word_of width width y ≡ word_of width 0 (suc y) = omega arith in
    let sides : (width % 2 == 1) ≡ false = ground arith in
    let same =
      write_inside width height width y v xfb (omega arith) (omega arith)
      ∙ ap₂ (λ w odd. put w (with_pixel odd v (xfb w)) xfb) words sides
      ∙ sym (write_inside width height 0 (suc y) v xfb (omega arith) (omega arith)) in
    ap (read_grayscale width height 0 (suc y)) same
    ∙ read-write_self width height 0 (suc y) v xfb (omega arith) (omega arith) hv
