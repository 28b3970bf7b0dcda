-- ===== src/Vi/Mode/Detect.antt =====
-- peli/vi/VideoMode.cpp: the mode that is found from the registers.
use libpeli.Base.{
  ◌&&◌, not, ℕ, zero, suc, ◌<◌, ◌≡◌, refl, ◌==◌, bit_and, if◌then◌else◌, arith, Bool, true, false,
}
use libpeli.Vi.Register.{Dcr, ViSel}
use libpeli.Vi.Mode.{
  InterlaceMode, interlace, non_interlace, progressive, detect, standard_of, get_dcr_fmt,
}

standard_of-fmt : (fmt : ℕ) → fmt < 4 → get_dcr_fmt (standard_of fmt) ≡ fmt
unfolding get_dcr_fmt
standard_of-fmt zero h = refl
standard_of-fmt (suc zero) h = refl
standard_of-fmt (suc (suc zero)) h = refl
standard_of-fmt (suc (suc (suc zero))) h = refl
standard_of-fmt (suc (suc (suc (suc n)))) h = absurd (omega arith)

-- The registers say what the mode does: progressive output or a single field.
abbrev pub scans_all : InterlaceMode → Bool
scans_all progressive = true
scans_all _ = false

abbrev pub has_fields : InterlaceMode → Bool
has_fields interlace = true
has_fields _ = false

-- Of a format of two bits, the mode found has that format again; it is progressive exactly if the
-- low bit of VISEL is set, and interlaced exactly if that bit and NIN are both clear.
pub detect_lem :
    (dcr : Dcr) (visel : ViSel)
    → dcr.fmt < 4
    → (let m = detect dcr visel in
        (get_dcr_fmt m.standard ≡ dcr.fmt)
        × (scans_all m.interlace_mode ≡ not (bit_and visel.visel 1 == 0))
        × (has_fields m.interlace_mode ≡ (bit_and visel.visel 1 == 0) && (dcr.nin == 0)))
unfolding detect
detect_lem dcr visel h = (
  standard_of-fmt dcr.fmt h,
  scans (bit_and visel.visel 1 == 0) (dcr.nin == 0),
  fields (bit_and visel.visel 1 == 0) (dcr.nin == 0),
)
  where
    scans :
        (a b : Bool)
        → scans_all (if a then if b then interlace else non_interlace else progressive) ≡ not a
    scans true true = refl
    scans true false = refl
    scans false b = refl

    fields :
        (a b : Bool)
        → has_fields (if a then if b then interlace else non_interlace else progressive) ≡ a && b
    fields true true = refl
    fields true false = refl
    fields false b = refl
