-- ===== src/Vi/Video/Output.antt =====
-- peli/vi/Video.cpp: the output to the hardware and the frame buffers. The function of a group
-- gives the writes of the group, if it changed.
pub mod Flushed
pub mod Buffers
use libpeli.Base.{
  ℕ, ◌*◌, ◌/◌, ◌%◌, ◌^◌, bit_and, Bool, true, false, not, ◌&&◌, ◌||◌, List, [], ◌∷◌, ◌++◌, ◌==◌,
  if◌then◌else◌,
}
use libpeli.Base.Word.{add32}
use libpeli.Util.Address.{physical, effective}
use libpeli.Vi.Register.{Dcr, Hsw, Fbl}
use libpeli.Vi.Video.{
  Registers, Video, Hardware, RegisterWrite, bit, write_dcr, write_di0, write_di1, write_di2,
  write_tfbl, write_bfbl, write_fct0, write_fct1, write_fct2, write_fct3, write_fct4, write_fct5,
  write_fct6, write_vtr, write_vto, write_vte, write_htr0, write_htr1, write_bbei, write_bboi,
  write_hbe, write_hbs, write_hsw, write_hsr,
}

-- The registers after a write.
abbrev pub apply : RegisterWrite → Registers → Registers
apply (write_dcr v) r = record r { dcr = v }
apply (write_di0 v) r = record r { di0 = v }
apply (write_di1 v) r = record r { di1 = v }
apply (write_di2 v) r = record r { di2 = v }
apply (write_tfbl v) r = record r { tfbl = v }
apply (write_bfbl v) r = record r { bfbl = v }
apply (write_fct0 v) r = record r { fct0 = v }
apply (write_fct1 v) r = record r { fct1 = v }
apply (write_fct2 v) r = record r { fct2 = v }
apply (write_fct3 v) r = record r { fct3 = v }
apply (write_fct4 v) r = record r { fct4 = v }
apply (write_fct5 v) r = record r { fct5 = v }
apply (write_fct6 v) r = record r { fct6 = v }
apply (write_vtr v) r = record r { vtr = v }
apply (write_vto v) r = record r { vto = v }
apply (write_vte v) r = record r { vte = v }
apply (write_htr0 v) r = record r { htr0 = v }
apply (write_htr1 v) r = record r { htr1 = v }
apply (write_bbei v) r = record r { bbei = v }
apply (write_bboi v) r = record r { bboi = v }
apply (write_hbe v) r = record r { hbe = v }
apply (write_hbs v) r = record r { hbs = v }
apply (write_hsw v) r = record r { hsw = v }
apply (write_hsr v) r = record r { hsr = v }

abbrev pub apply_all : List RegisterWrite → Registers → Registers
apply_all [] r = r
apply_all (w ∷ ws) r = apply_all ws (apply w r)

abbrev pub write_all : List RegisterWrite → Hardware → Hardware
write_all ws h = record { registers = apply_all ws h.registers; writes = h.writes ++ ws }

-- `.RST = rst`, the other fields 0.
abbrev pub dcr_reset : ℕ → Dcr
dcr_reset rst = record { fmt = 0; le1 = 0; le0 = 0; dlr = 0; nin = 0; rst = rst; enb = 0 }

abbrev pub needs_reset : Registers → Video → Bool
needs_reset r v = (r.dcr.enb == 0) || (v.changed_config && not (r.dcr.fmt == v.own.dcr.fmt))

abbrev pub reset_display : Bool → List RegisterWrite
reset_display false = []
reset_display true = write_dcr (dcr_reset 1) ∷ write_dcr (dcr_reset 0) ∷ []

abbrev pub flush_taps : Bool → Registers → List RegisterWrite
flush_taps false o = []
flush_taps true o =
    write_fct0 o.fct0
    ∷ write_fct1 o.fct1
    ∷ write_fct2 o.fct2
    ∷ write_fct3 o.fct3
    ∷ write_fct4 o.fct4
    ∷ write_fct5 o.fct5
    ∷ write_fct6 o.fct6
    ∷ []

abbrev pub flush_vertical : Bool → Registers → List RegisterWrite
flush_vertical false o = []
flush_vertical true o = write_vtr o.vtr ∷ write_vto o.vto ∷ write_vte o.vte ∷ []

abbrev pub flush_timings : Bool → Registers → List RegisterWrite
flush_timings false o = []
flush_timings true o =
    write_htr0 o.htr0
    ∷ write_htr1 o.htr1
    ∷ write_bbei o.bbei
    ∷ write_bboi o.bboi
    ∷ write_hbe o.hbe
    ∷ write_hbs o.hbs
    ∷ []

abbrev pub flush_scaling : Bool → Registers → List RegisterWrite
flush_scaling false o = []
flush_scaling true o = write_hsw o.hsw ∷ write_hsr o.hsr ∷ []

abbrev pub flush_interrupts : Bool → Registers → List RegisterWrite
flush_interrupts false o = []
flush_interrupts true o = write_di0 o.di0 ∷ write_di1 o.di1 ∷ write_di2 o.di2 ∷ []

abbrev pub flush_config : Bool → Registers → List RegisterWrite
flush_config false o = []
flush_config true o = write_dcr o.dcr ∷ []

abbrev pub flush_framebuffer : Bool → Registers → List RegisterWrite
flush_framebuffer false o = []
flush_framebuffer true o = write_tfbl o.tfbl ∷ write_bfbl o.bfbl ∷ []

abbrev pub all_flushed : Video → Video
all_flushed v = record v {
  changed_config = false;
  changed_vertical = false;
  changed_timings = false;
  changed_taps = false;
  changed_scaling = false;
  changed_interrupts = false;
  changed_framebuffer = false;
}

-- The writes of `Flush`, in order.
abbrev pub flushed : Video → Registers → List RegisterWrite
flushed v r =
    reset_display (needs_reset r v)
    ++ (flush_taps v.changed_taps v.own
        ++ (flush_vertical v.changed_vertical v.own
            ++ (flush_timings v.changed_timings v.own
                ++ (flush_scaling v.changed_scaling v.own
                    ++ (flush_interrupts v.changed_interrupts v.own
                        ++ (flush_config v.changed_config v.own
                            ++ flush_framebuffer v.changed_framebuffer v.own))))))

pub flush : Video → Hardware → Hardware × Video
flush v h = (write_all (flushed v h.registers) h, all_flushed v)

pub flush_all : Video → Hardware → Hardware × Video
unfolding flush
flush_all v h =
    flush
      (record v {
        changed_config = true;
        changed_vertical = true;
        changed_timings = true;
        changed_taps = true;
        changed_scaling = true;
        changed_interrupts = true;
        changed_framebuffer = true;
      })
      h

-- The address in a frame buffer register; 0 is null.
pub get_buffer : Fbl → ℕ
get_buffer f =
    let fbb = f.fbb * 2 ^ 9 % 2 ^ 32 in
    let shifted = if f.poff == 0 then fbb else fbb * 2 ^ 5 % 2 ^ 32 in
    if shifted == 0 then 0 else effective shifted

abbrev pub bottom_base : Dcr → Hsw → ℕ → ℕ → ℕ
bottom_base dcr hsw top bottom =
    if bottom == 0
    then if dcr.nin == 0 then add32 (physical top / 2 ^ 5) hsw.wpl else physical top / 2 ^ 5
    else physical bottom / 2 ^ 5

abbrev pub at_base : ℕ → Fbl
at_base base = record { poff = 1; xof = 0; fbb = base % 2 ^ 24 }

-- The registers for the top and the bottom field.
pub set_buffer : Dcr → Hsw → ℕ → ℕ → Fbl × Fbl
set_buffer dcr hsw top bottom =
    (at_base (physical top / 2 ^ 5), at_base (bottom_base dcr hsw top bottom))

pub get_framebuffer : Bool → Hardware → ℕ
unfolding get_buffer
get_framebuffer bottom_field h =
    get_buffer (if bottom_field then h.registers.bfbl else h.registers.tfbl)

pub set_framebuffer : ℕ → ℕ → Hardware → Hardware
unfolding set_buffer
set_framebuffer top bottom h =
    let buffers = set_buffer h.registers.dcr h.registers.hsw top bottom in
    write_all (write_tfbl buffers.0 ∷ write_bfbl buffers.1 ∷ []) h

-- As in the source, this reads the hardware and not what is set to come next.
pub get_next_framebuffer : Bool → Video → Hardware → ℕ
unfolding get_buffer
get_next_framebuffer bottom_field v h =
    get_buffer (if bottom_field then h.registers.bfbl else h.registers.tfbl)

pub set_next_framebuffer : ℕ → ℕ → Video → Video
unfolding set_buffer
set_next_framebuffer top bottom v =
    let buffers = set_buffer v.own.dcr v.own.hsw top bottom in
    record v {
      own = record v.own { tfbl = buffers.0; bfbl = buffers.1 };
      changed_framebuffer = true;
    }

unfoldable pub get_xfb_width : Video → ℕ
get_xfb_width v = v.own.hsw.wpl * 2 ^ 4

unfoldable pub get_xfb_height : Video → ℕ
get_xfb_height v =
    v.own.vtr.acv * 2 ^ bit (bit_and (bit_and v.own.dcr.nin v.own.visel.visel) 1 == 0)

unfoldable pub get_xfb_size : Video → ℕ
unfolding get_xfb_width get_xfb_height
get_xfb_size v = get_xfb_width v * get_xfb_height v * 4
