-- ===== src/Vi/Video.antt =====
-- peli/vi/Video.cpp and peli/vi/Video.hpp: the video manager. It keeps a copy of the registers,
-- `own`, and which groups of them changed; the hardware's are an argument. `writes` lists every write
-- to a register, in order.
pub mod Output
pub mod Shape
pub mod Taps
mod Tests
use libpeli.Base.{
  zero, suc, suc, ℕ, ◌+◌, ◌-◌, ◌*◌, ◌/◌, ◌%◌, ◌^◌, bit_and, Bool, true, false, not, ◌&&◌, ◌||◌,
  List, [], ◌∷◌, ◌++◌, Option, none, some, ◌==◌, if◌then◌else◌,
}
use libpeli.Base.Word.{add32, sub32}
use libpeli.Util.Address.{physical, effective}
use libpeli.Vi.Register.{
  Vtr, Dcr, Htr0, Htr1, Vtoe, Bbei, Bboi, Fbl, Di, Hsw, Hsr, Fct0, Fct1, Fct2, Fct3, Fct4, Fct5,
  Fct6, ViSel, Hbe, Hbs,
}
use libpeli.Vi.Timings.{Timings}
use libpeli.Vi.Mode.{
  InterlaceMode, interlace, non_interlace, progressive, progressive_3d, RenderMode, get_timings,
  get_dcr_fmt, get_render_mode, detect,
}

pub record Registers : Type 0 where
  pub dcr : Dcr
  pub di0 : Di
  pub di1 : Di
  pub di2 : Di
  pub tfbl : Fbl
  pub bfbl : Fbl
  pub fct0 : Fct0
  pub fct1 : Fct1
  pub fct2 : Fct2
  pub fct3 : Fct3
  pub fct4 : Fct4
  pub fct5 : Fct5
  pub fct6 : Fct6
  pub vtr : Vtr
  pub vto : Vtoe
  pub vte : Vtoe
  pub visel : ViSel
  pub htr0 : Htr0
  pub htr1 : Htr1
  pub bbei : Bbei
  pub bboi : Bboi
  pub hbe : Hbe
  pub hbs : Hbs
  pub hsw : Hsw
  pub hsr : Hsr

pub record Video : Type 0 where
  pub changed_config : Bool
  pub changed_vertical : Bool
  pub changed_timings : Bool
  pub changed_taps : Bool
  pub changed_scaling : Bool
  pub changed_interrupts : Bool
  pub changed_framebuffer : Bool
  pub own : Registers

-- A write to a register of the hardware.
pub data RegisterWrite : Type 0 where
  write_dcr : Dcr → RegisterWrite
  write_di0 write_di1 write_di2 : Di → RegisterWrite
  write_tfbl write_bfbl : Fbl → RegisterWrite
  write_fct0 : Fct0 → RegisterWrite
  write_fct1 : Fct1 → RegisterWrite
  write_fct2 : Fct2 → RegisterWrite
  write_fct3 : Fct3 → RegisterWrite
  write_fct4 : Fct4 → RegisterWrite
  write_fct5 : Fct5 → RegisterWrite
  write_fct6 : Fct6 → RegisterWrite
  write_vtr : Vtr → RegisterWrite
  write_vto write_vte : Vtoe → RegisterWrite
  write_htr0 : Htr0 → RegisterWrite
  write_htr1 : Htr1 → RegisterWrite
  write_bbei : Bbei → RegisterWrite
  write_bboi : Bboi → RegisterWrite
  write_hbe : Hbe → RegisterWrite
  write_hbs : Hbs → RegisterWrite
  write_hsw : Hsw → RegisterWrite
  write_hsr : Hsr → RegisterWrite

pub record Hardware : Type 0 where
  pub registers : Registers
  pub writes : List RegisterWrite

abbrev pub bit : Bool → ℕ
bit b = if b then 1 else 0

abbrev pub empty_fbl : Fbl
empty_fbl = record { poff = 0; xof = 0; fbb = 0 }

-- The nine taps of ten bits and the fourteen of eight, by index.
unfoldable pub set_taps : (ℕ → ℕ) → (ℕ → ℕ) → Registers → Registers
set_taps taps taps2 r = record r {
  fct0 = record { t2 = taps 2 % 2 ^ 10; t1 = taps 1 % 2 ^ 10; t0 = taps 0 % 2 ^ 10 };
  fct1 = record { t5 = taps 5 % 2 ^ 10; t4 = taps 4 % 2 ^ 10; t3 = taps 3 % 2 ^ 10 };
  fct2 = record { t8 = taps 8 % 2 ^ 10; t7 = taps 7 % 2 ^ 10; t6 = taps 6 % 2 ^ 10 };
  fct3 = record { t12 = taps2 3; t11 = taps2 2; t10 = taps2 1; t9 = taps2 0 };
  fct4 = record { t16 = taps2 7; t15 = taps2 6; t14 = taps2 5; t13 = taps2 4 };
  fct5 = record { t20 = taps2 11; t19 = taps2 10; t18 = taps2 9; t17 = taps2 8 };
  fct6 = record { t23 = taps2 13; t22 = taps2 12; t21 = taps2 11 };
}

unfoldable pub get_taps : Registers → List ℕ × List ℕ
get_taps r = (
  r.fct0.t0 ∷ r.fct0.t1 ∷ r.fct0.t2 ∷ r.fct1.t3 ∷ r.fct1.t4 ∷ r.fct1.t5 ∷ r.fct2.t6 ∷ r.fct2.t7
      ∷ r.fct2.t8 ∷ [],
  r.fct3.t9 ∷ r.fct3.t10 ∷ r.fct3.t11 ∷ r.fct3.t12 ∷ r.fct4.t13 ∷ r.fct4.t14 ∷ r.fct4.t15
      ∷ r.fct4.t16 ∷ r.fct5.t17 ∷ r.fct5.t18 ∷ r.fct5.t19 ∷ r.fct5.t20 ∷ r.fct6.t21 ∷ r.fct6.t22
      ∷ [],
)

abbrev at : List ℕ → ℕ → ℕ
at [] i = 0
at (x ∷ xs) zero = x
at (x ∷ xs) (suc i) = at xs i

abbrev default_taps : ℕ → ℕ
default_taps = at (496 ∷ 476 ∷ 430 ∷ 372 ∷ 297 ∷ 219 ∷ 142 ∷ 70 ∷ 12 ∷ [])

abbrev default_taps2 : ℕ → ℕ
default_taps2 = at (226 ∷ 203 ∷ 192 ∷ 196 ∷ 207 ∷ 222 ∷ 236 ∷ 252 ∷ 8 ∷ 15 ∷ 19 ∷ 19 ∷ 15 ∷ 12 ∷ [])

abbrev pub is_progressive : InterlaceMode → Bool
is_progressive progressive = true
is_progressive progressive_3d = true
is_progressive interlace = false
is_progressive non_interlace = false

abbrev pub is_3d : InterlaceMode → Bool
is_3d progressive_3d = true
is_3d progressive = false
is_3d interlace = false
is_3d non_interlace = false

abbrev pub is_interlace : InterlaceMode → Bool
is_interlace interlace = true
is_interlace non_interlace = false
is_interlace progressive = false
is_interlace progressive_3d = false

-- The lines of a field, and `vi_y_origin` in half lines of a field.
abbrev pub active_lines : RenderMode → ℕ
active_lines m = m.xfb_height / 2 ^ bit (not (is_progressive m.mode.interlace_mode)) % 2 ^ 10

abbrev pub origin_lines : RenderMode → ℕ
origin_lines m = m.vi_y_origin * 2 ^ bit (is_progressive m.mode.interlace_mode)

abbrev pub field : RenderMode → Timings → Vtoe → Vtoe
field m t f = record {
  psb = sub32 (f.psb + t.vtr.acv) (active_lines m) % 2 ^ 10;
  prb = add32 f.prb (origin_lines m) % 2 ^ 10;
}

-- `m_vto` and `m_vte`, with the fields swapped for an odd origin.
abbrev pub fields : RenderMode → Timings → Vtoe × Vtoe
fields m t =
    if bit_and m.vi_y_origin 1 == 0
    then (field m t t.vto, field m t t.vte)
    else (field m t t.vte, field m t t.vto)

-- The registers before the taps; those that the constructor does not set are 0.
abbrev pub base_registers : RenderMode → Timings → Registers
base_registers m t = record {
  dcr = record {
    fmt = get_dcr_fmt m.mode.standard;
    le1 = 0;
    le0 = 0;
    dlr = bit (is_3d m.mode.interlace_mode);
    nin = bit (not (is_interlace m.mode.interlace_mode));
    rst = 0;
    enb = 1;
  };
  di0 = t.di;
  di1 = record { int = 0; enb = 1; vct = 0; hct = 1 };
  di2 = record { int = 0; enb = 0; vct = 0; hct = 0 };
  tfbl = empty_fbl;
  bfbl = empty_fbl;
  fct0 = record { t2 = 0; t1 = 0; t0 = 0 };
  fct1 = record { t5 = 0; t4 = 0; t3 = 0 };
  fct2 = record { t8 = 0; t7 = 0; t6 = 0 };
  fct3 = record { t12 = 0; t11 = 0; t10 = 0; t9 = 0 };
  fct4 = record { t16 = 0; t15 = 0; t14 = 0; t13 = 0 };
  fct5 = record { t20 = 0; t19 = 0; t18 = 0; t17 = 0 };
  fct6 = record { t23 = 0; t22 = 0; t21 = 0 };
  vtr = record { acv = active_lines m; equ = t.vtr.equ % 2 ^ 4 };
  vto = (fields m t).0;
  vte = (fields m t).1;
  visel = record { visel = 0 };
  htr0 = t.htr0;
  htr1 = t.htr1;
  bbei = t.bbei;
  bboi = t.bboi;
  hbe = t.hbe;
  hbs = t.hbs;
  hsw = record {
    wpl = m.fb_width / 2 ^ 4 % 2 ^ 7;
    std = m.fb_width / 2 ^ 3 / 2 ^ bit (is_progressive m.mode.interlace_mode) % 2 ^ 8;
  };
  hsr = record { hs_en = 0; stp = m.fb_width * 256 / m.vi_width % 2 ^ 9 };
}

-- The constructor; a `vi_width` of 0 is divided by, and gives none.
pub new_video : RenderMode → Option Video
unfolding set_taps
new_video m =
    if m.vi_width == 0
    then none
    else some (record {
      changed_config = true;
      changed_vertical = true;
      changed_timings = true;
      changed_taps = true;
      changed_scaling = true;
      changed_interrupts = true;
      changed_framebuffer = false;
      own = set_taps default_taps default_taps2 (base_registers m (get_timings m.mode));
    })

-- `Video()`, from what the registers DCR and VISEL read.
pub detect_video : Hardware → Option Video
unfolding new_video
detect_video h = new_video (get_render_mode (detect h.registers.dcr h.registers.visel))
