-- ===== src/Rt/MessageQueue/Refine.antt =====
-- A valid message queue cannot be told from a bounded list by any sequence of calls.
use mathlib.Core.Path.{ap₂}
use native.Mathlib.Decide.{dec_lt}
use libpeli.Base.{
  ℕ, ◌≡◌, refl, sym, ap, ◌∙◌, List, [], ◌∷◌, ◌++◌, Bool, true, false, Option, none, some, arith,
  length, ltb, if◌then◌else◌,
}
use libpeli.Rt.MessageQueue.{
  MessageQueue, Outcome, finished, asleep, try_send, try_receive, try_peek,
}
use libpeli.Rt.MessageQueue.Window.{contents, IsValid, length-window}
use libpeli.Rt.MessageQueue.Fifo.{
  send_room, send_full, receive_left, receive_empty, sent-IsValid, taken-IsValid, contents-sent,
  contents-taken, max-sent, max-taken, peek_some, peek_none, contents_empty,
}

pub data Call {ℓ} (A : Type ℓ) : Type ℓ where
  sending : A → Call A
  receiving peeking : Call A

pub data Reply {ℓ} (A : Type ℓ) : Type ℓ where
  accepted : Bool → Reply A
  got : Option A → Reply A

module _ {ℓ} {A : Type ℓ} where
  -- What the caller sees, and the queue that is left.
  abbrev reply {κ} : {R : Type κ} → (R → Reply A) → Outcome A R → Option (Reply A) × MessageQueue A
  reply f (asleep q) = (none, q)
  reply f (finished r q w) = (some (f r), q)

  unfoldable pub step : MessageQueue A → Call A → Option (Reply A) × MessageQueue A
  step q (sending v) = reply accepted (try_send v q q)
  step q receiving = reply got (try_receive q q)
  step q peeking = reply got (try_peek q q)

  -- The replies to a sequence of calls.
  unfoldable pub run : MessageQueue A → List (Call A) → List (Option (Reply A))
  run q [] = []
  run q (c ∷ cs) = (step q c).0 ∷ run (step q c).1 cs

  -- The specification: a list of at most `cap` messages, oldest first.
  abbrev pub spec_step : ℕ → List A → Call A → Reply A × List A
  spec_step cap xs (sending v) =
      if ltb (length xs) cap then (accepted true, xs ++ (v ∷ [])) else (accepted false, xs)
  spec_step cap [] receiving = (got none, [])
  spec_step cap (x ∷ xs) receiving = (got (some x), xs)
  spec_step cap [] peeking = (got none, [])
  spec_step cap (x ∷ xs) peeking = (got (some x), x ∷ xs)

  pub spec_run : ℕ → List A → List (Call A) → List (Option (Reply A))
  spec_run cap xs [] = []
  spec_run cap xs (c ∷ cs) = some (spec_step cap xs c).0 ∷ spec_run cap (spec_step cap xs c).1 cs

  -- One call: the reply and the contents left are those of the specification.
  record Refines (q : MessageQueue A) (c : Call A) : Type ℓ where
    replies : (step q c).0 ≡ some (spec_step q.max_count (contents q) c).0
    leaves : contents (step q c).1 ≡ (spec_step q.max_count (contents q) c).1
    valid : IsValid (step q c).1
    same_max : (step q c).1.max_count ≡ q.max_count

  step-Refines : (q : MessageQueue A) (c : Call A) → IsValid q → Refines q c
  unfolding step
  step-Refines q (sending v) h = elim (dec_lt q.count q.max_count) [
    | yes room ↦
        let e = (send_room q h 0 v room).1 in
        let fits : ltb (length (contents q)) q.max_count ≡ true =
          ground (arith, length-window q.messages q.max_count q.first q.count) in
        record {
          replies = rw (e, fits);
          leaves = rw (e, fits) (contents-sent q h v room);
          valid = rw e (sent-IsValid q h v room);
          same_max = rw e (max-sent v q);
        }
    | no full ↦
        let e = (send_full q h 0 v (omega (arith, full, h.count_in))).1 in
        let over : ltb (length (contents q)) q.max_count ≡ false =
          ground (arith, length-window q.messages q.max_count q.first q.count) in
        record { replies = rw (e, over); leaves = rw (e, over); valid = rw e h; same_max = rw e }
  ]
  step-Refines q receiving h = elim (dec_lt 0 q.count) [
    | yes left ↦
        let e = (receive_left q h 0 left).1 in
        let c = contents-taken q h left in
        record {
          replies = rw e (ap (λ xs. some (spec_step q.max_count xs receiving).0) (sym c));
          leaves = rw e (ap (λ xs. (spec_step q.max_count xs receiving).1) (sym c));
          valid = rw e (taken-IsValid q h left);
          same_max = rw e (max-taken q);
        }
    | no empty ↦
        let none_left : q.count ≡ 0 = omega (arith, empty) in
        let e = (receive_empty q h 0 none_left).1 in
        let c = contents_empty q h none_left in
        record {
          replies = rw e (ap (λ xs. some (spec_step q.max_count xs receiving).0) (sym c));
          leaves = rw e (c ∙ ap (λ xs. (spec_step q.max_count xs receiving).1) (sym c));
          valid = rw e h;
          same_max = rw e;
        }
  ]
  step-Refines q peeking h = elim (dec_lt 0 q.count) [
    | yes left ↦
        let e = peek_some q h left in
        let c = contents-taken q h left in
        record {
          replies = rw e (ap (λ xs. some (spec_step q.max_count xs peeking).0) (sym c));
          leaves = rw e (c ∙ ap (λ xs. (spec_step q.max_count xs peeking).1) (sym c));
          valid = rw e h;
          same_max = rw e;
        }
    | no empty ↦
        let none_left : q.count ≡ 0 = omega (arith, empty) in
        let e = peek_none q h none_left in
        let c = contents_empty q h none_left in
        record {
          replies = rw e (ap (λ xs. some (spec_step q.max_count xs peeking).0) (sym c));
          leaves = rw e (c ∙ ap (λ xs. (spec_step q.max_count xs peeking).1) (sym c));
          valid = rw e h;
          same_max = rw e;
        }
  ]

  -- Every sequence of `TrySend`, `TryReceive` and `TryPeek` on a valid queue gets the replies
  -- that the bounded list of its messages gives; none sleeps.
  pub run-spec_run :
      (q : MessageQueue A) (cs : List (Call A))
      → IsValid q
      → run q cs ≡ spec_run q.max_count (contents q) cs
  unfolding run spec_run
  run-spec_run q [] h = refl
  run-spec_run q (c ∷ cs) h =
      let r = step-Refines q c h in
      ap₂ ◌∷◌ r.replies (
        run-spec_run (step q c).1 cs r.valid
        ∙ ap₂ (λ cap xs. spec_run cap xs cs) r.same_max r.leaves)
