-- ===== src/Vi/Mode/Tests.antt =====
-- The timings and the detection of a PAL mode.
use libpeli.Vi.Register.{Dcr, ViSel}
use libpeli.Vi.Mode.{TvMode, pal, interlace, get_timings}
use libpeli.Vi.Mode.Lines.{Timed, get_timings-Timed}

abbrev pal_mode : TvMode
pal_mode = record { standard = pal; interlace_mode = interlace }

get_timings-Timed_example : Timed (get_timings pal_mode) 625
get_timings-Timed_example = get_timings-Timed pal_mode

abbrev pal_dcr : Dcr
pal_dcr = record { fmt = 1; le1 = 0; le0 = 0; dlr = 0; nin = 0; rst = 0; enb = 1 }

abbrev low_visel : ViSel
low_visel = record { visel = 2 }
