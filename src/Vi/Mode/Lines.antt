-- ===== src/Vi/Mode/Lines.antt =====
-- peli/vi/VideoMode.cpp: the timings of every mode against the lines of its signal.
use libpeli.Base.{ℕ, ◌+◌, ◌*◌, ◌/◌, ◌^◌, ◌<◌, ◌≡◌, refl, arith, Bool, true, ◌&&◌, ltb}
use libpeli.Vi.Register.{Vtr, Vtoe}
use libpeli.Vi.Timings.{
  Timings, interlaced_ntsc_eurgb60, interlaced_pal, interlaced_pal_m, interlaced_gca,
  non_interlaced_ntsc_eurgb60, non_interlaced_pal, non_interlaced_pal_m,
  progressive_ntsc_pal_m_eurgb60, progressive_gca, progressive_pal,
}
use libpeli.Vi.Mode.{
  Standard, ntsc, pal, pal_m, debug, debug_pal, eurgb60, gca, extra, hd720, InterlaceMode,
  interlace, non_interlace, progressive, progressive_3d, TvMode, get_timings, timings_of,
}

-- The half lines of a field: equalization three times, then before, during (in full lines) and
-- after the picture.
abbrev pub half_lines : Vtr → Vtoe → ℕ
half_lines v f = 3 * v.equ + f.prb + 2 * v.acv + f.psb

-- No value is too wide for its bits.
abbrev pub fits : Timings → Bool
fits t =
    ltb t.htr0.hcs (2 ^ 7)
    && ltb t.htr0.hce (2 ^ 7)
    && ltb t.htr0.hlw (2 ^ 9)
    && ltb t.htr1.hbs (2 ^ 10)
    && ltb t.htr1.hbe (2 ^ 10)
    && ltb t.htr1.hsy (2 ^ 7)
    && ltb t.vtr.acv (2 ^ 10)
    && ltb t.vtr.equ (2 ^ 4)
    && ltb t.vto.psb (2 ^ 10)
    && ltb t.vto.prb (2 ^ 10)
    && ltb t.vte.psb (2 ^ 10)
    && ltb t.vte.prb (2 ^ 10)
    && ltb t.bbei.be3 (2 ^ 11)
    && ltb t.bbei.bs3 (2 ^ 5)
    && ltb t.bbei.be1 (2 ^ 11)
    && ltb t.bbei.bs1 (2 ^ 5)
    && ltb t.bboi.be4 (2 ^ 11)
    && ltb t.bboi.bs4 (2 ^ 5)
    && ltb t.bboi.be2 (2 ^ 11)
    && ltb t.bboi.bs2 (2 ^ 5)
    && ltb t.hbe.hbe656 (2 ^ 10)
    && ltb t.hbs.hbs656 (2 ^ 10)
    && ltb t.di.enb 2
    && ltb t.di.vct (2 ^ 10)
    && ltb t.di.hct (2 ^ 10)

-- Both fields have `n` half lines, and the interrupt stands behind the middle of the picture's
-- lines and the end of a half line.
pub record Timed (t : Timings) (n : ℕ) : Type 0 where
  pub odd : half_lines t.vtr t.vto ≡ n
  pub even : half_lines t.vtr t.vte ≡ n
  pub interrupt_line : t.di.vct ≡ n / 2 + 1
  pub interrupt_end : t.di.hct ≡ t.htr0.hlw + 1
  pub is_narrow : fits t ≡ true
  pub odd_room : t.vto.psb + t.vto.prb + t.vtr.acv < 2 ^ 10
  pub even_room : t.vte.psb + t.vte.prb + t.vtr.acv < 2 ^ 10
  pub equ_room : t.vtr.equ < 2 ^ 4

-- The half lines of a field by mode.
abbrev pub signal_lines : InterlaceMode → Standard → ℕ
signal_lines interlace pal = 625
signal_lines interlace _ = 525
signal_lines non_interlace pal = 624
signal_lines non_interlace _ = 526
signal_lines progressive pal = 1250
signal_lines progressive _ = 1050
signal_lines progressive_3d _ = 525

interlaced_ntsc_eurgb60-Timed : Timed interlaced_ntsc_eurgb60 525
interlaced_ntsc_eurgb60-Timed = record {
  odd = refl;
  even = refl;
  interrupt_line = refl;
  interrupt_end = refl;
  is_narrow = refl;
  odd_room = omega arith;
  even_room = omega arith;
  equ_room = omega arith;
}

interlaced_pal-Timed : Timed interlaced_pal 625
interlaced_pal-Timed = record {
  odd = refl;
  even = refl;
  interrupt_line = refl;
  interrupt_end = refl;
  is_narrow = refl;
  odd_room = omega arith;
  even_room = omega arith;
  equ_room = omega arith;
}

interlaced_pal_m-Timed : Timed interlaced_pal_m 525
interlaced_pal_m-Timed = record {
  odd = refl;
  even = refl;
  interrupt_line = refl;
  interrupt_end = refl;
  is_narrow = refl;
  odd_room = omega arith;
  even_room = omega arith;
  equ_room = omega arith;
}

interlaced_gca-Timed : Timed interlaced_gca 525
interlaced_gca-Timed = record {
  odd = refl;
  even = refl;
  interrupt_line = refl;
  interrupt_end = refl;
  is_narrow = refl;
  odd_room = omega arith;
  even_room = omega arith;
  equ_room = omega arith;
}

non_interlaced_ntsc_eurgb60-Timed : Timed non_interlaced_ntsc_eurgb60 526
non_interlaced_ntsc_eurgb60-Timed = record {
  odd = refl;
  even = refl;
  interrupt_line = refl;
  interrupt_end = refl;
  is_narrow = refl;
  odd_room = omega arith;
  even_room = omega arith;
  equ_room = omega arith;
}

non_interlaced_pal-Timed : Timed non_interlaced_pal 624
non_interlaced_pal-Timed = record {
  odd = refl;
  even = refl;
  interrupt_line = refl;
  interrupt_end = refl;
  is_narrow = refl;
  odd_room = omega arith;
  even_room = omega arith;
  equ_room = omega arith;
}

non_interlaced_pal_m-Timed : Timed non_interlaced_pal_m 526
non_interlaced_pal_m-Timed = record {
  odd = refl;
  even = refl;
  interrupt_line = refl;
  interrupt_end = refl;
  is_narrow = refl;
  odd_room = omega arith;
  even_room = omega arith;
  equ_room = omega arith;
}

progressive_ntsc_pal_m_eurgb60-Timed : Timed progressive_ntsc_pal_m_eurgb60 1050
progressive_ntsc_pal_m_eurgb60-Timed = record {
  odd = refl;
  even = refl;
  interrupt_line = refl;
  interrupt_end = refl;
  is_narrow = refl;
  odd_room = omega arith;
  even_room = omega arith;
  equ_room = omega arith;
}

progressive_gca-Timed : Timed progressive_gca 1050
progressive_gca-Timed = record {
  odd = refl;
  even = refl;
  interrupt_line = refl;
  interrupt_end = refl;
  is_narrow = refl;
  odd_room = omega arith;
  even_room = omega arith;
  equ_room = omega arith;
}

progressive_pal-Timed : Timed progressive_pal 1250
progressive_pal-Timed = record {
  odd = refl;
  even = refl;
  interrupt_line = refl;
  interrupt_end = refl;
  is_narrow = refl;
  odd_room = omega arith;
  even_room = omega arith;
  equ_room = omega arith;
}

timings_of-Timed : (i : InterlaceMode) (s : Standard) → Timed (timings_of i s) (signal_lines i s)
timings_of-Timed interlace ntsc = interlaced_ntsc_eurgb60-Timed
timings_of-Timed interlace pal = interlaced_pal-Timed
timings_of-Timed interlace pal_m = interlaced_pal_m-Timed
timings_of-Timed interlace debug = interlaced_ntsc_eurgb60-Timed
timings_of-Timed interlace debug_pal = interlaced_ntsc_eurgb60-Timed
timings_of-Timed interlace eurgb60 = interlaced_ntsc_eurgb60-Timed
timings_of-Timed interlace gca = interlaced_gca-Timed
timings_of-Timed interlace extra = interlaced_ntsc_eurgb60-Timed
timings_of-Timed interlace hd720 = interlaced_ntsc_eurgb60-Timed
timings_of-Timed non_interlace ntsc = non_interlaced_ntsc_eurgb60-Timed
timings_of-Timed non_interlace pal = non_interlaced_pal-Timed
timings_of-Timed non_interlace pal_m = non_interlaced_pal_m-Timed
timings_of-Timed non_interlace debug = non_interlaced_ntsc_eurgb60-Timed
timings_of-Timed non_interlace debug_pal = non_interlaced_ntsc_eurgb60-Timed
timings_of-Timed non_interlace eurgb60 = non_interlaced_ntsc_eurgb60-Timed
timings_of-Timed non_interlace gca = non_interlaced_ntsc_eurgb60-Timed
timings_of-Timed non_interlace extra = non_interlaced_ntsc_eurgb60-Timed
timings_of-Timed non_interlace hd720 = non_interlaced_ntsc_eurgb60-Timed
timings_of-Timed progressive ntsc = progressive_ntsc_pal_m_eurgb60-Timed
timings_of-Timed progressive pal = progressive_pal-Timed
timings_of-Timed progressive pal_m = progressive_ntsc_pal_m_eurgb60-Timed
timings_of-Timed progressive debug = progressive_ntsc_pal_m_eurgb60-Timed
timings_of-Timed progressive debug_pal = progressive_ntsc_pal_m_eurgb60-Timed
timings_of-Timed progressive eurgb60 = progressive_ntsc_pal_m_eurgb60-Timed
timings_of-Timed progressive gca = progressive_gca-Timed
timings_of-Timed progressive extra = progressive_ntsc_pal_m_eurgb60-Timed
timings_of-Timed progressive hd720 = progressive_ntsc_pal_m_eurgb60-Timed
timings_of-Timed progressive_3d ntsc = interlaced_ntsc_eurgb60-Timed
timings_of-Timed progressive_3d pal = interlaced_ntsc_eurgb60-Timed
timings_of-Timed progressive_3d pal_m = interlaced_ntsc_eurgb60-Timed
timings_of-Timed progressive_3d debug = interlaced_ntsc_eurgb60-Timed
timings_of-Timed progressive_3d debug_pal = interlaced_ntsc_eurgb60-Timed
timings_of-Timed progressive_3d eurgb60 = interlaced_ntsc_eurgb60-Timed
timings_of-Timed progressive_3d gca = interlaced_ntsc_eurgb60-Timed
timings_of-Timed progressive_3d extra = interlaced_ntsc_eurgb60-Timed
timings_of-Timed progressive_3d hd720 = interlaced_ntsc_eurgb60-Timed

-- For every standard and interlace mode, both fields of the timings have the half lines of the
-- signal: 625 or 525 interlaced, 624 or 526 not interlaced, 1250 or 1050 progressive, for PAL or
-- any other standard, and 525 in the 3D mode; the interrupt is set for the line after half of
-- them and the position after a half line, and each value fits the bits of its register field.
pub get_timings-Timed :
    (m : TvMode) → Timed (get_timings m) (signal_lines m.interlace_mode m.standard)
unfolding get_timings
get_timings-Timed m = timings_of-Timed m.interlace_mode m.standard
