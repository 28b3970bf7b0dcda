-- ===== src/Vi/Video/Output/Buffers.antt =====
-- peli/vi/Video.cpp: frame buffers through their registers.
use native.Mathlib.Decide.{ℕ_discrete}
use libpeli.Base.{
  ◌-◌, ◌⊎◌, inl, inr, sym, ℕ, ◌+◌, ◌*◌, ◌/◌, ◌%◌, ◌^◌, ◌≤◌, ◌<◌, ◌≡◌, ◌≢◌, ap, ◌∙◌, false, true,
  ◌==◌, arith, if_false, if_true,
}
use libpeli.Util.Address.{physical}
use libpeli.Util.Address.Regions.{physical_lem, effective_lem}
use libpeli.Vi.Video.Output.{get_buffer, set_buffer, set_framebuffer, get_framebuffer, at_base}
use libpeli.Vi.Video.{Hardware}

abbrev shifted : ℕ → ℕ
shifted base = base % 2 ^ 24 * 2 ^ 9 % 2 ^ 32 * 2 ^ 5 % 2 ^ 32

get_buffer-cases :
    (base : ℕ)
    → (get_buffer (at_base base) ≡ 0) ⊎ (get_buffer (at_base base) ≡ 2 ^ 31 + shifted base % 2 ^ 30)
unfolding get_buffer
get_buffer-cases base = elim (ℕ_discrete (shifted base) 0) [
  | yes e ↦ let test : (shifted base == 0) ≡ true = ground arith in inl (if_true _ _ test)
  | no ne ↦
      let test : (shifted base == 0) ≡ false = ground arith in
      inr (if_false _ _ test ∙ effective_lem (shifted base))
]

shifted-ne : (n : ℕ) → 32 ≤ n → n < 2 ^ 29 → shifted (n / 2 ^ 5) % 2 ^ 30 ≢ n
shifted-ne n lo hi e = omega (arith, lo, hi, e)

-- An address in the first half of cached memory is, with the first 32 bytes apart, not what
-- reading the frame buffer gives back after it was set: reading shifts by 14 bits and setting by
-- 5.
pub get_framebuffer-set_framebuffer_ne :
    (top bottom : ℕ) (h : Hardware)
    → 2 ^ 31 + 32 ≤ top
    → top < 2 ^ 31 + 2 ^ 29
    → get_framebuffer false (set_framebuffer top bottom h) ≢ top
unfolding get_framebuffer set_framebuffer set_buffer
get_framebuffer-set_framebuffer_ne top bottom h lo hi e =
    let n = top - 2 ^ 31 in
    let here : physical top ≡ n = omega (arith, physical_lem top, lo, hi) in
    elim (get_buffer-cases (physical top / 2 ^ 5)) [
      | inl null ↦ omega (arith, sym null ∙ e, lo)
      | inr some_address ↦
          shifted-ne n (omega arith) (omega arith) (
            sym (ap (λ p. shifted (p / 2 ^ 5) % 2 ^ 30) here) ∙ omega (arith, sym some_address ∙ e))
    ]
