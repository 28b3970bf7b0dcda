-- ===== src/Rt/Once.antt =====
-- peli/rt/Once.cpp and peli/rt/Once.hpp: a control that lets one thread through. `Once` tests the
-- state with interrupts off; a thread that finds it in progress yields and tests again.
pub mod Winner
mod Tests
use libpeli.Base.{◌≡◌, ℕ, Bool, true, false, ◌==◌, if◌then◌else◌}

pub data Progress : Type 0 where
  uninitialized initialized in_progress : Progress

-- `true`, `false`, or the loop that goes on.
pub data Answer : Type 0 where
  lets_in turns_away waits : Answer

abbrev pub once : Progress → Answer × Progress
once uninitialized = (lets_in, in_progress)
once initialized = (turns_away, initialized)
once in_progress = (waits, in_progress)

-- The test of the loop, after a yield.
abbrev pub retry : Progress → Answer
retry in_progress = waits
retry initialized = turns_away
retry uninitialized = turns_away

abbrev pub finish : Progress → Progress
finish in_progress = initialized
finish initialized = initialized
finish uninitialized = uninitialized

-- A thread with a `Guard`: before its test, in the loop, let in, turned away, and after the
-- guard's destructor, which calls `Done` whatever the answer was.
pub data Phase : Type 0 where
  before looping inside outside left_inside left_outside : Phase

abbrev pub phase_of : Answer → Phase
phase_of lets_in = inside
phase_of turns_away = outside
phase_of waits = looping

pub record Guards : Type 0 where
  pub progress : Progress
  pub phases : ℕ → Phase

abbrev pub set_phase : ℕ → Phase → (ℕ → Phase) → ℕ → Phase
set_phase t p f u = if u == t then p else f u

abbrev pub enter : ℕ → Guards → Guards
enter t g = record {
  progress = (once g.progress).1;
  phases = set_phase t (phase_of (once g.progress).0) g.phases;
}

abbrev pub try_again : ℕ → Guards → Guards
try_again t g = record g { phases = set_phase t (phase_of (retry g.progress)) g.phases }

abbrev pub leave_as : ℕ → Phase → Guards → Guards
leave_as t p g = record { progress = finish g.progress; phases = set_phase t p g.phases }

-- The states that threads reach, in any order of their steps.
pub data Reaches : Guards → Type 0 where
  start : Reaches (record { progress = uninitialized; phases = λ t. before })
  enters : {g : Guards} (t : ℕ) → g.phases t ≡ before → Reaches g → Reaches (enter t g)
  tries : {g : Guards} (t : ℕ) → g.phases t ≡ looping → Reaches g → Reaches (try_again t g)
  leaves_inside :
      {g : Guards} (t : ℕ) → g.phases t ≡ inside → Reaches g → Reaches (leave_as t left_inside g)
  leaves_outside :
      {g : Guards} (t : ℕ) → g.phases t ≡ outside → Reaches g → Reaches (leave_as t left_outside g)
