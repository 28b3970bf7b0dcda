-- ===== src/Vi/Video/Shape.antt =====
-- peli/vi/Video.cpp: the picture that a new manager sets up, its lines and the size of its frame
-- buffer.
use libpeli.Base.{
  ℕ, ◌+◌, ◌*◌, ◌/◌, ◌%◌, ◌^◌, ◌<◌, ◌≡◌, ◌≢◌, refl, ap, ◌∙◌, true, false, some, ◌==◌, bit_and, arith,
  if_false, if_true, not,
}
use libpeli.Vi.Register.{Vtr, Vtoe}
use libpeli.Vi.Timings.{Timings}
use libpeli.Vi.Mode.{
  InterlaceMode, interlace, non_interlace, progressive, progressive_3d, RenderMode, get_timings,
}
use libpeli.Vi.Mode.Lines.{half_lines, signal_lines, get_timings-Timed}
use libpeli.Vi.Video.{
  Video, new_video, set_taps, field, active_lines, origin_lines, bit, is_progressive, is_interlace,
}
use libpeli.Vi.Video.Output.{get_xfb_width, get_xfb_height}

-- A picture moved down by its origin and cut by as many lines keeps the half lines of the field.
field-lines :
    (m : RenderMode) (t : Timings) (f : Vtoe)
    → f.psb + f.prb + t.vtr.acv < 2 ^ 10
    → t.vtr.equ < 2 ^ 4
    → active_lines m + origin_lines m ≡ t.vtr.acv
    → half_lines (record { acv = active_lines m; equ = t.vtr.equ % 2 ^ 4 }) (field m t f)
      ≡ half_lines t.vtr f
field-lines m t f room equ e = omega (arith, room, equ, e)

abbrev vtr_of : RenderMode → Vtr
vtr_of m = record { acv = active_lines m; equ = (get_timings m.mode).vtr.equ % 2 ^ 4 }

-- For a render mode with a width to scale to and an even origin, whose lines and origin together
-- are the active lines of its timings: the manager's fields have the half lines of the signal.
pub new_video-lines :
    (m : RenderMode)
    → m.vi_width ≢ 0
    → bit_and m.vi_y_origin 1 ≡ 0
    → active_lines m + origin_lines m ≡ (get_timings m.mode).vtr.acv
    → (v : Video) × (new_video m ≡ some v)
      × (half_lines v.own.vtr v.own.vto ≡ signal_lines m.mode.interlace_mode m.mode.standard)
      × (half_lines v.own.vtr v.own.vte ≡ signal_lines m.mode.interlace_mode m.mode.standard)
unfolding new_video set_taps
new_video-lines m width even e =
    let t = get_timings-Timed m.mode in
    let test : (m.vi_width == 0) ≡ false = ground arith in
    let unswapped : (bit_and m.vi_y_origin 1 == 0) ≡ true = rw even refl in
    (
      _,
      if_false _ _ test,
      ap (λ (f : Vtoe × Vtoe). half_lines (vtr_of m) f.0) (if_true _ _ unswapped)
          ∙ field-lines m (get_timings m.mode) (get_timings m.mode).vto t.odd_room t.equ_room e
          ∙ t.odd,
      ap (λ (f : Vtoe × Vtoe). half_lines (vtr_of m) f.1) (if_true _ _ unswapped)
          ∙ field-lines m (get_timings m.mode) (get_timings m.mode).vte t.even_room t.equ_room e
          ∙ t.even,
    )

height-twice :
    (i : InterlaceMode) (h : ℕ)
    → h < 2 ^ 10
    → h % 2 ≡ 0
    → h
        / 2 ^ bit (not (is_progressive i))
        % 2 ^ 10
        * 2 ^ bit (bit_and (bit_and (bit (not (is_interlace i))) 0) 1 == 0)
      ≡ h * 2 ^ bit (is_progressive i)
height-twice interlace h low even = omega arith
height-twice non_interlace h low even = omega arith
height-twice progressive h low even = omega arith
height-twice progressive_3d h low even = omega arith

-- For a width to scale to, a picture of fewer than 1024 lines, even if interlaced, and a frame
-- buffer width of full words of 16 pixels below 2048: an interlaced or single field manager's
-- frame buffer has the size of the render mode, and a progressive one's twice the height, since
-- VISEL is never set.
pub new_video-size :
    (m : RenderMode)
    → m.vi_width ≢ 0
    → m.xfb_height < 2 ^ 10
    → m.xfb_height % 2 ≡ 0
    → m.fb_width < 2 ^ 11
    → m.fb_width % 2 ^ 4 ≡ 0
    → (v : Video) × (new_video m ≡ some v)
      × (get_xfb_width v ≡ m.fb_width)
      × (get_xfb_height v ≡ m.xfb_height * 2 ^ bit (is_progressive m.mode.interlace_mode))
unfolding new_video set_taps get_xfb_width get_xfb_height
new_video-size m width low even narrow words =
    let test : (m.vi_width == 0) ≡ false = ground arith in
    (_, if_false _ _ test, omega arith, height-twice m.mode.interlace_mode m.xfb_height low even)
