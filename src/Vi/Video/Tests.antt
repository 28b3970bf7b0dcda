-- ===== src/Vi/Video/Tests.antt =====
-- The manager for the interlaced NTSC mode, and the theorems about it.
use libpeli.Base.{[], ◌≡◌, refl, false, true, none, some, arith}
use libpeli.Vi.Mode.{render_ntsc_interlaced, pal, interlace, get_timings, get_render_mode}
use libpeli.Vi.Mode.Lines.{half_lines}
use libpeli.Vi.Video.{Registers, Video, Hardware, new_video, base_registers}
use libpeli.Vi.Video.Output.{flush, flush_all}
use libpeli.Vi.Video.Output.Flushed.{flush_all-registers}
use libpeli.Vi.Video.Shape.{new_video-lines}

-- No PAL mode can be set up: its width is 0, and so is that of every mode but two.
new_video-pal :
    new_video (get_render_mode (record { standard = pal; interlace_mode = interlace })) ≡ none
unfolding new_video get_render_mode
new_video-pal = refl

abbrev shown : Registers
shown = base_registers render_ntsc_interlaced (get_timings render_ntsc_interlaced.mode)

abbrev manager : Video
manager = record {
  changed_config = false;
  changed_vertical = false;
  changed_timings = false;
  changed_taps = true;
  changed_scaling = false;
  changed_interrupts = false;
  changed_framebuffer = false;
  own = shown;
}

abbrev hardware : Hardware
hardware = record { registers = shown; writes = [] }

new_video-lines_example :
    (v : Video) × (new_video render_ntsc_interlaced ≡ some v)
    × (half_lines v.own.vtr v.own.vto ≡ 525)
    × (half_lines v.own.vtr v.own.vte ≡ 525)
unfolding get_timings
new_video-lines_example = new_video-lines render_ntsc_interlaced (omega arith) refl refl

flush_all-registers_example :
    ((flush_all manager hardware).0.registers ≡ shown)
    × (flush (flush_all manager hardware).1 (flush_all manager hardware).0
        ≡ flush_all manager hardware)
flush_all-registers_example = flush_all-registers manager hardware (omega arith)
