-- ===== src/Rt/MessageQueue/Tests.antt =====
-- Runs of a queue of four, and the theorems about it.
use libpeli.Base.{ℕ, ◌≡◌, refl, List, [], ◌∷◌, true, none, some, arith, ◌==◌, if◌then◌else◌}
use libpeli.Rt.MessageQueue.{MessageQueue, try_send, try_receive, try_peek}
use libpeli.Rt.MessageQueue.Window.{IsValid}
use libpeli.Rt.MessageQueue.Refine.{
  Call, sending, receiving, peeking, accepted, got, run, spec_run, run-spec_run, step,
}

-- 7, then 8, round the end of the array; thread 90 sleeps.
abbrev wrapped : MessageQueue ℕ
wrapped = record {
  max_count = 4;
  first = 3;
  count = 2;
  messages = λ i. if i == 3 then 7 else 8;
  waiting = 90 ∷ [];
}

wrapped-IsValid : IsValid wrapped
wrapped-IsValid = omega arith

abbrev script : List (Call ℕ)
script = sending 9 ∷ peeking ∷ receiving ∷ receiving ∷ receiving ∷ receiving ∷ []

run-wrapped :
    run wrapped script
    ≡ some (accepted true)
      ∷ some (got (some 7))
      ∷ some (got (some 7))
      ∷ some (got (some 8))
      ∷ some (got (some 9))
      ∷ some (got none)
      ∷ []
unfolding run step try_send try_receive try_peek
run-wrapped = refl

run-spec_run_example : run wrapped script ≡ spec_run 4 (7 ∷ 8 ∷ []) script
run-spec_run_example = run-spec_run wrapped script wrapped-IsValid

-- Three slots, with the first message in the first of them.
abbrev three_slots : MessageQueue ℕ
three_slots = record { max_count = 3; first = 0; count = 1; messages = λ i. i; waiting = [] }
