-- ===== src/Vi/Mode.antt =====
-- peli/vi/VideoMode.cpp and peli/vi/Video.hpp: the modes, the timings of each and its rendering.
pub mod Lines
pub mod Detect
mod Tests
use libpeli.Base.{ℕ, List, [], ◌∷◌, Bool, ◌==◌, bit_and, if◌then◌else◌}
use libpeli.Vi.Register.{Dcr, ViSel}
use libpeli.Vi.Timings.{
  Timings, interlaced_ntsc_eurgb60, interlaced_pal, interlaced_pal_m, interlaced_gca,
  non_interlaced_ntsc_eurgb60, non_interlaced_pal, non_interlaced_pal_m,
  progressive_ntsc_pal_m_eurgb60, progressive_gca, progressive_pal,
}

pub data Standard : Type 0 where
  ntsc pal pal_m debug debug_pal eurgb60 gca extra hd720 : Standard

pub data InterlaceMode : Type 0 where
  interlace non_interlace progressive progressive_3d : InterlaceMode

pub record TvMode : Type 0 where
  pub standard : Standard
  pub interlace_mode : InterlaceMode

abbrev interlaced_timings : Standard → Timings
interlaced_timings pal = interlaced_pal
interlaced_timings pal_m = interlaced_pal_m
interlaced_timings gca = interlaced_gca
interlaced_timings _ = interlaced_ntsc_eurgb60

abbrev non_interlaced_timings : Standard → Timings
non_interlaced_timings pal = non_interlaced_pal
non_interlaced_timings pal_m = non_interlaced_pal_m
non_interlaced_timings _ = non_interlaced_ntsc_eurgb60

abbrev progressive_timings : Standard → Timings
progressive_timings gca = progressive_gca
progressive_timings pal = progressive_pal
progressive_timings _ = progressive_ntsc_pal_m_eurgb60

abbrev timings_of : InterlaceMode → Standard → Timings
timings_of interlace standard = interlaced_timings standard
timings_of non_interlace standard = non_interlaced_timings standard
timings_of progressive standard = progressive_timings standard
timings_of progressive_3d standard = interlaced_ntsc_eurgb60

unfoldable pub get_timings : TvMode → Timings
get_timings m = timings_of m.interlace_mode m.standard

-- Two bytes make a sample; there are twelve in `sample_pattern`.
pub record RenderMode : Type 0 where
  pub mode : TvMode
  pub fb_width : ℕ
  pub efb_height : ℕ
  pub xfb_height : ℕ
  pub vi_x_origin : ℕ
  pub vi_y_origin : ℕ
  pub vi_width : ℕ
  pub vi_height : ℕ
  pub field_rendering : ℕ
  pub antialiasing : ℕ
  pub sample_pattern : List ℕ
  pub vertical_filter : List ℕ

abbrev sixes : List ℕ
sixes =
    6 ∷ 6 ∷ 6 ∷ 6 ∷ 6 ∷ 6 ∷ 6 ∷ 6 ∷ 6 ∷ 6 ∷ 6 ∷ 6 ∷ 6 ∷ 6 ∷ 6 ∷ 6 ∷ 6 ∷ 6 ∷ 6 ∷ 6 ∷ 6 ∷ 6 ∷ 6 ∷ 6
    ∷ []

abbrev zeros : List ℕ
zeros =
    0 ∷ 0 ∷ 0 ∷ 0 ∷ 0 ∷ 0 ∷ 0 ∷ 0 ∷ 0 ∷ 0 ∷ 0 ∷ 0 ∷ 0 ∷ 0 ∷ 0 ∷ 0 ∷ 0 ∷ 0 ∷ 0 ∷ 0 ∷ 0 ∷ 0 ∷ 0 ∷ 0
    ∷ []

abbrev pub render_ntsc_interlaced : RenderMode
render_ntsc_interlaced = record {
  mode = record { standard = ntsc; interlace_mode = interlace };
  fb_width = 608;
  efb_height = 456;
  xfb_height = 456;
  vi_x_origin = 17;
  vi_y_origin = 12;
  vi_width = 686;
  vi_height = 456;
  field_rendering = 0;
  antialiasing = 0;
  sample_pattern = sixes;
  vertical_filter = 7 ∷ 7 ∷ 12 ∷ 12 ∷ 12 ∷ 7 ∷ 7 ∷ [];
}

abbrev pub render_ntsc_progressive : RenderMode
render_ntsc_progressive = record {
  mode = record { standard = ntsc; interlace_mode = progressive };
  fb_width = 608;
  efb_height = 456;
  xfb_height = 456;
  vi_x_origin = 17;
  vi_y_origin = 12;
  vi_width = 686;
  vi_height = 456;
  field_rendering = 0;
  antialiasing = 0;
  sample_pattern = sixes;
  vertical_filter = 0 ∷ 0 ∷ 21 ∷ 22 ∷ 21 ∷ 0 ∷ 0 ∷ [];
}

-- `{}`: each field is 0, and so are the standard and the interlace mode.
abbrev pub render_empty : RenderMode
render_empty = record {
  mode = record { standard = ntsc; interlace_mode = interlace };
  fb_width = 0;
  efb_height = 0;
  xfb_height = 0;
  vi_x_origin = 0;
  vi_y_origin = 0;
  vi_width = 0;
  vi_height = 0;
  field_rendering = 0;
  antialiasing = 0;
  sample_pattern = zeros;
  vertical_filter = 0 ∷ 0 ∷ 0 ∷ 0 ∷ 0 ∷ 0 ∷ 0 ∷ [];
}

-- Interlaced, not interlaced and progressive.
pub record StandardModes : Type 0 where
  pub interlaced : RenderMode
  pub non_interlaced : RenderMode
  pub progressives : RenderMode

abbrev ntsc_modes : StandardModes
ntsc_modes = record {
  interlaced = render_ntsc_interlaced;
  non_interlaced = render_empty;
  progressives = render_ntsc_progressive;
}

abbrev empty_modes : StandardModes
empty_modes = record {
  interlaced = render_empty;
  non_interlaced = render_empty;
  progressives = render_empty;
}

-- The sets of PAL, PAL-M and EURGB60 have the same values, and every other standard has that of
-- NTSC.
abbrev modes_of : Standard → StandardModes
modes_of pal = empty_modes
modes_of eurgb60 = empty_modes
modes_of pal_m = empty_modes
modes_of _ = ntsc_modes

abbrev pick_mode : InterlaceMode → StandardModes → RenderMode
pick_mode interlace m = m.interlaced
pick_mode non_interlace m = m.non_interlaced
pick_mode progressive m = m.progressives
pick_mode progressive_3d m = m.interlaced

unfoldable pub get_render_mode : TvMode → RenderMode
get_render_mode m = pick_mode m.interlace_mode (modes_of m.standard)

-- `Dcr::Fmt`: 0 is NTSC, 1 PAL, 2 PAL-M and 3 a debug mode.
abbrev standard_of : ℕ → Standard
standard_of fmt =
    if fmt == 1 then pal else if fmt == 2 then pal_m else if fmt == 3 then debug else ntsc

unfoldable pub detect : Dcr → ViSel → TvMode
detect dcr visel = record {
  standard = standard_of dcr.fmt;
  interlace_mode =
      if bit_and visel.visel 1 == 0
      then if dcr.nin == 0 then interlace else non_interlace
      else progressive;
}

unfoldable pub get_dcr_fmt : Standard → ℕ
get_dcr_fmt pal = 1
get_dcr_fmt pal_m = 2
get_dcr_fmt debug = 3
get_dcr_fmt _ = 0
