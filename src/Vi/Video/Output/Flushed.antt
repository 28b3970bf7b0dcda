-- ===== src/Vi/Video/Output/Flushed.antt =====
-- peli/vi/Video.cpp: what a flush leaves in the hardware.
use libpeli.Vi.Register.{Fbl}
use libpeli.Base.{
  [], ◌∷◌, [], List, ◌++◌, append-nil, ◌||◌, sym, ℕ, ◌≡◌, ◌≢◌, refl, ap, ◌∙◌, Bool, true, false,
  ◌==◌, arith,
}
use mathlib.Core.Path.{ap₂, subst}
use libpeli.Vi.Video.{Video, Hardware, Registers, RegisterWrite}
use libpeli.Vi.Video.Output.{
  flush_taps, flush_vertical, flush_timings, flush_scaling, flush_interrupts, flush_config,
  flush_framebuffer, flush, flush_all, set_framebuffer, set_next_framebuffer, set_buffer,
  reset_display, all_flushed, apply, apply_all, write_all, flushed, needs_reset,
}

-- With nothing changed and the video on, a flush does nothing.
flush-idle :
    (v : Video) (h : Hardware)
    → h.registers.dcr.enb ≢ 0
    → flush (all_flushed v) h ≡ (h, all_flushed v)
unfolding flush
flush-idle v h on =
    let test : (h.registers.dcr.enb == 0) ≡ false = ground arith in
    ap (λ b. (write_all (reset_display (b || false) ++ []) h, all_flushed v)) test
    ∙ ap (λ (ws : List RegisterWrite). (record h { writes = ws }, all_flushed v))
        (append-nil h.writes)

-- After `reset_display`, whether it resets or not, every group is written.
flushed-all_changed :
    (b : Bool) (v : Video) (r : Registers)
    → apply_all
        (reset_display b
          ++ (flush_taps true v.own
              ++ (flush_vertical true v.own
                  ++ (flush_timings true v.own
                      ++ (flush_scaling true v.own
                          ++ (flush_interrupts true v.own
                              ++ (flush_config true v.own ++ flush_framebuffer true v.own)))))))
        r
      ≡ record v.own { visel = r.visel }
flushed-all_changed true v r = refl
flushed-all_changed false v r = refl

flush_all-shown :
    (v : Video) (h : Hardware)
    → (flush_all v h).0.registers ≡ record v.own { visel = h.registers.visel }
unfolding flush_all flush
flush_all-shown v h = flushed-all_changed _ v h.registers

-- For a manager that has the video on, `FlushAll` leaves in the hardware every register of the
-- manager, VISEL apart, and a second flush then writes no register at all and changes nothing.
pub flush_all-registers :
    (v : Video) (h : Hardware)
    → v.own.dcr.enb ≢ 0
    → ((flush_all v h).0.registers ≡ record v.own { visel = h.registers.visel })
      × (flush (flush_all v h).1 (flush_all v h).0 ≡ flush_all v h)
unfolding flush_all
flush_all-registers v h on =
    let shown = flush_all-shown v h in
    (shown, flush-idle v _ (λ e. on (ap (λ r. r.dcr.enb) (sym shown) ∙ e)))

-- After the writes the frame buffer registers hold these.
Shows : Fbl → Fbl → List RegisterWrite → Type 0
Shows top bottom ws =
    (r : Registers) → ((apply_all ws r).tfbl ≡ top) × ((apply_all ws r).bfbl ≡ bottom)

append-Shows :
    (top bottom : Fbl) (xs ys : List RegisterWrite)
    → Shows top bottom ys
    → Shows top bottom (xs ++ ys)
unfolding Shows
append-Shows top bottom [] ys h r = h r
append-Shows top bottom (x ∷ xs) ys h r = append-Shows top bottom xs ys h (apply x r)

flushed-Shows :
    (v : Video)
    → v.changed_framebuffer ≡ true
    → (r : Registers)
    → ((apply_all (flushed v r) r).tfbl ≡ v.own.tfbl)
      × ((apply_all (flushed v r) r).bfbl ≡ v.own.bfbl)
unfolding Shows
flushed-Shows v e r =
    let t = v.own.tfbl in
    let b = v.own.bfbl in
    let after = append-Shows t b in
    after (reset_display (needs_reset r v)) _
      (after (flush_taps v.changed_taps v.own) _ (
        after (flush_vertical v.changed_vertical v.own) _ (
          after (flush_timings v.changed_timings v.own) _ (
            after (flush_scaling v.changed_scaling v.own) _ (
              after (flush_interrupts v.changed_interrupts v.own) _ (
                after (flush_config v.changed_config v.own) _ (
                  subst (λ c. Shows t b (flush_framebuffer c v.own)) (sym e)
                    (λ r. (refl, refl)))))))))
      r

-- For a manager with its DCR and HSW in the hardware, setting the next frame buffer and flushing
-- leaves the frame buffer registers that setting the frame buffer leaves.
pub set_next_framebuffer-flush :
    (top bottom : ℕ) (v : Video) (h : Hardware)
    → h.registers.dcr ≡ v.own.dcr
    → h.registers.hsw ≡ v.own.hsw
    → (let shown = (flush (set_next_framebuffer top bottom v) h).0.registers in
        let set = (set_framebuffer top bottom h).registers in
        (shown.tfbl ≡ set.tfbl) × (shown.bfbl ≡ set.bfbl))
unfolding set_framebuffer set_next_framebuffer flush
set_next_framebuffer-flush top bottom v h d w =
    let same = ap₂ (λ dcr hsw. set_buffer dcr hsw top bottom) (sym d) (sym w) in
    let n : Video = set_next_framebuffer top bottom v in
    let (t, b) = flushed-Shows n refl h.registers in
    (t ∙ ap (λ b. b.0) same, b ∙ ap (λ b. b.1) same)
