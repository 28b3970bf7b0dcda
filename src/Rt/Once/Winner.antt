-- ===== src/Rt/Once/Winner.antt =====
-- peli/rt/Once.cpp: who is let in, over any order of the threads' steps.
use native.Mathlib.Decide.{ℕ_discrete}
use mathlib.Core.Path.{subst}
use libpeli.Base.{
  ℕ, ◌≡◌, ◌≢◌, refl, sym, ap, ◌∙◌, Bool, true, false, arith, ◌==◌, if_true, if_false,
}
use libpeli.Rt.Once.{
  Progress, uninitialized, initialized, in_progress, Guards, Phase, before, looping, inside,
  outside, left_inside, left_outside, Reaches, start, enters, tries, leaves_inside, leaves_outside,
  set_phase, enter, try_again, leave_as,
}

-- What is left to do before the work, whether the thread was let in and whether it was turned away.
abbrev pub is_early : Phase → Bool
is_early before = true
is_early looping = true
is_early inside = false
is_early outside = false
is_early left_inside = false
is_early left_outside = false

abbrev pub is_let_in : Phase → Bool
is_let_in inside = true
is_let_in left_inside = true
is_let_in before = false
is_let_in looping = false
is_let_in outside = false
is_let_in left_outside = false

-- The state of the control and the phases of the threads.
pub data Agrees : Progress → (ℕ → Phase) → Type 0 where
  nobody : {phases : ℕ → Phase} → ((t : ℕ) → phases t ≡ before) → Agrees uninitialized phases
  working :
      {phases : ℕ → Phase} (w : ℕ)
      → phases w ≡ inside
      → ((t : ℕ) → t ≢ w → is_early (phases t) ≡ true)
      → Agrees in_progress phases
  worked :
      {phases : ℕ → Phase} (w : ℕ)
      → phases w ≡ left_inside
      → ((t : ℕ) → t ≢ w → is_let_in (phases t) ≡ false)
      → Agrees initialized phases

module _ (t : ℕ) (p : Phase) (f : ℕ → Phase) where
  set_self : set_phase t p f t ≡ p
  set_self = let test : (t == t) ≡ true = ground arith in if_true _ _ test

  set_ne : (u : ℕ) → u ≢ t → set_phase t p f u ≡ f u
  set_ne u ne = let test : (u == t) ≡ false = ground arith in if_false _ _ test

  -- A test that holds of the new phase and of every old one holds of all.
  set_all :
      (test : Phase → Bool) (b : Bool) (u : ℕ)
      → test p ≡ b
      → (u ≢ t → test (f u) ≡ b)
      → test (set_phase t p f u) ≡ b
  set_all test b u here there = elim (ℕ_discrete u t) [
    | yes e ↦ ap (λ k. test (set_phase t p f k)) e ∙ ap test set_self ∙ here
    | no ne ↦ ap test (set_ne u ne) ∙ there ne
  ]

true-ne : true ≢ false
true-ne e = ground arith

-- Tests that tell two phases apart.
abbrev is_before : Phase → Bool
is_before before = true
is_before _ = false

abbrev has_left : Phase → Bool
has_left left_inside = true
has_left _ = false

looping-ne_before : looping ≢ before
looping-ne_before e = true-ne (ap is_before (sym e))

inside-ne_left : inside ≢ left_inside
inside-ne_left e = true-ne (ap has_left (sym e))

early_not_let_in : (p : Phase) → is_early p ≡ true → is_let_in p ≡ false
early_not_let_in before e = refl
early_not_let_in looping e = refl
early_not_let_in inside e = absurd (true-ne (sym e))
early_not_let_in outside e = refl
early_not_let_in left_inside e = absurd (true-ne (sym e))
early_not_let_in left_outside e = refl

enter-Agrees :
    (t : ℕ) (s : Progress) (f : ℕ → Phase)
    → f t ≡ before
    → Agrees s f
    → (let g = enter t (record { progress = s; phases = f }) in Agrees g.progress g.phases)
enter-Agrees t uninitialized f e (nobody all) =
    working t (set_self t inside f) (λ u ne. ap is_early (set_ne t inside f u ne ∙ all u))
enter-Agrees t in_progress f e (working w won others) =
    let apart : w ≢ t = λ same. true-ne (ap is_early (sym e ∙ ap f (sym same) ∙ won)) in
    working w (set_ne t looping f w apart ∙ won)
      (λ u ne. set_all t looping f is_early true u refl (λ _. others u ne))
enter-Agrees t initialized f e (worked w won others) =
    let apart : w ≢ t = λ same. true-ne (ap is_early (sym e ∙ ap f (sym same) ∙ won)) in
    worked w (set_ne t outside f w apart ∙ won)
      (λ u ne. set_all t outside f is_let_in false u refl (λ _. others u ne))

try_again-Agrees :
    (t : ℕ) (s : Progress) (f : ℕ → Phase)
    → f t ≡ looping
    → Agrees s f
    → (let g = try_again t (record { progress = s; phases = f }) in Agrees g.progress g.phases)
try_again-Agrees t uninitialized f e (nobody all) = absurd (looping-ne_before (sym e ∙ all t))
try_again-Agrees t in_progress f e (working w won others) =
    let apart : w ≢ t = λ same. true-ne (ap is_early (sym e ∙ ap f (sym same) ∙ won)) in
    working w (set_ne t looping f w apart ∙ won)
      (λ u ne. set_all t looping f is_early true u refl (λ _. others u ne))
try_again-Agrees t initialized f e (worked w won others) =
    let apart : w ≢ t = λ same. true-ne (ap is_early (sym e ∙ ap f (sym same) ∙ won)) in
    worked w (set_ne t outside f w apart ∙ won)
      (λ u ne. set_all t outside f is_let_in false u refl (λ _. others u ne))

leave_inside-Agrees :
    (t : ℕ) (s : Progress) (f : ℕ → Phase)
    → f t ≡ inside
    → Agrees s f
    → (let g = leave_as t left_inside (record { progress = s; phases = f }) in
        Agrees g.progress g.phases)
leave_inside-Agrees t uninitialized f e (nobody all) =
    absurd (true-ne (ap is_early (sym (all t) ∙ e)))
leave_inside-Agrees t in_progress f e (working w won others) = elim (ℕ_discrete t w) [
  | yes same ↦
      worked w
        (subst (λ k. set_phase k left_inside f w ≡ left_inside) (sym same)
          (set_self w left_inside f))
        (λ u ne.
          ap is_let_in (set_ne t left_inside f u (λ h. ne (h ∙ same)))
          ∙ early_not_let_in (f u) (others u ne))
  | no ne ↦ absurd (true-ne (sym (others t ne) ∙ ap is_early e))
]
leave_inside-Agrees t initialized f e (worked w won others) = elim (ℕ_discrete t w) [
  | yes same ↦ absurd (inside-ne_left (sym e ∙ ap f same ∙ won))
  | no ne ↦ absurd (true-ne (sym (ap is_let_in e) ∙ others t ne))
]

leave_outside-Agrees :
    (t : ℕ) (s : Progress) (f : ℕ → Phase)
    → f t ≡ outside
    → Agrees s f
    → (let g = leave_as t left_outside (record { progress = s; phases = f }) in
        Agrees g.progress g.phases)
leave_outside-Agrees t uninitialized f e (nobody all) =
    absurd (true-ne (ap is_early (sym (all t) ∙ e)))
leave_outside-Agrees t in_progress f e (working w won others) = elim (ℕ_discrete t w) [
  | yes same ↦ absurd (true-ne (ap is_let_in (sym won ∙ ap f (sym same) ∙ e)))
  | no ne ↦ absurd (true-ne (sym (others t ne) ∙ ap is_early e))
]
leave_outside-Agrees t initialized f e (worked w won others) =
    let apart : w ≢ t = λ same. true-ne (ap is_let_in (sym won ∙ ap f same ∙ e)) in
    worked w (set_ne t left_outside f w apart ∙ won)
      (λ u ne. set_all t left_outside f is_let_in false u refl (λ _. others u ne))

-- Whatever the order in which threads test, try again and leave: before the first test the
-- control is uninitialized; it is in progress exactly while one thread is inside, and then every
-- other is still before or in its loop; once initialized, the thread that was let in has left and
-- no other was ever let in.
pub reaches-Agrees : {g : Guards} → Reaches g → Agrees g.progress g.phases
reaches-Agrees start = nobody (λ t. refl)
reaches-Agrees (enters {g} t e r) = enter-Agrees t g.progress g.phases e (reaches-Agrees r)
reaches-Agrees (tries {g} t e r) = try_again-Agrees t g.progress g.phases e (reaches-Agrees r)
reaches-Agrees (leaves_inside {g} t e r) =
    leave_inside-Agrees t g.progress g.phases e (reaches-Agrees r)
reaches-Agrees (leaves_outside {g} t e r) =
    leave_outside-Agrees t g.progress g.phases e (reaches-Agrees r)
