-- ===== src/Ios/Ipc/Reach.antt =====
-- peli/ios/low/Ipc.cpp: the states that the driver reaches.
use libpeli.Base.{
  zero, ℕ, suc, true, false, List, [], ◌∷◌, ◌++◌, append-nil, ◌≡◌, refl, sym, ap, ◌∙◌, Option,
  length,
}
use libpeli.Ios.Ipc.{
  ios_error_ok, Ipc, CommandBlock, IoVectors, returned, blocked, delivered, handle_ack,
  handle_interrupt, queue_request, ipc_async,
}
use mathlib.Core.Path.{subst}
use libpeli.Rt.MessageQueue.Window.{contents, IsValid}
use libpeli.Rt.MessageQueue.{MessageQueue}
use libpeli.Ios.Ipc.Flow.{
  Flowing, messages, all_physical, Fine, FineAfter, queue_request-Fine, ipc_async-Fine,
  handle_interrupt-Fine, handle_ack-Flowing, handle_ack-Acked, moved, zero-ne,
}

-- A history of the driver. `fill` is any change of memory outside the driver's own state;
-- `resume` is a submission that slept on the full queue and goes on.
pub data Reaches : List ℕ → Ipc → Type 0 where
  init : {s : Ipc} → IsValid s.queue_send → contents s.queue_send ≡ [] → s.log ≡ [] → Reaches [] s
  fill :
      {history : List ℕ} {s : Ipc} (b : ℕ → CommandBlock) (v : ℕ → IoVectors)
      (q : ℕ → MessageQueue ℕ)
      → Reaches history s
      → Reaches history (record s { blocks = b; vectors = v; queues = q })
  submit :
      {history : List ℕ} {s s' : Ipc} (self request : ℕ)
      → ipc_async self request s ≡ returned ios_error_ok s'
      → Reaches history s
      → Reaches (history ++ (request ∷ [])) s'
  sleep :
      {history : List ℕ} {s s' : Ipc} (self request : ℕ)
      → ipc_async self request s ≡ blocked s'
      → Reaches history s
      → Reaches history s'
  resume :
      {history : List ℕ} {s s' : Ipc} (self request : ℕ)
      → s.waiting_ack ≡ true
      → queue_request self request s ≡ returned ios_error_ok s'
      → Reaches history s
      → Reaches (history ++ (request ∷ [])) s'
  interrupt :
      {history : List ℕ} {s s' : Ipc} (self ctrl reply_ctrl reply_ptr : ℕ) (woken : Option ℕ)
      → handle_interrupt self ctrl reply_ctrl reply_ptr s ≡ delivered s' woken
      → Reaches history s
      → Reaches history s'

-- In every state that a history of submissions, sleeps on the full queue, returns from them while
-- an acknowledgement is awaited, interrupts and changes of memory reaches, the requests submitted
-- are in order those sent through the register and then those queued, and nothing is queued
-- unless an acknowledgement is awaited.
pub reaches-Flowing : {history : List ℕ} {s : Ipc} → Reaches history s → Flowing history s
reaches-Flowing (init h e l) = record { valid = h; in_order = rw (e, l) refl; drained = λ _. e }
reaches-Flowing (fill {history} {s} b v q r) = moved history s b v q (reaches-Flowing r)
reaches-Flowing (submit {history} {s} {s'} self request e r) =
    subst (Fine history request) e (ipc_async-Fine history self request s (reaches-Flowing r))
reaches-Flowing (sleep {history} {s} {s'} self request e r) =
    subst (Fine history request) e (ipc_async-Fine history self request s (reaches-Flowing r))
reaches-Flowing (resume {history} {s} {s'} self request w e r) =
    subst (Fine history request) e (queue_request-Fine history self request s (reaches-Flowing r) w)
reaches-Flowing (interrupt {history} {s} {s'} self ctrl reply_ctrl reply_ptr woken e r) =
    subst (FineAfter history) e
      (handle_interrupt-Fine history s self ctrl reply_ctrl reply_ptr (reaches-Flowing r))

-- The state after `n` acknowledgements.
pub acks : ℕ → Ipc → Ipc
acks zero s = s
acks (suc n) s = acks n (handle_ack s)

length-zero : (xs : List ℕ) → length xs ≡ 0 → xs ≡ []
length-zero [] e = refl
length-zero (x ∷ xs) e = absurd (zero-ne (length xs) (sym e))

pub acks-Flowing :
    (n : ℕ) (history : List ℕ) (s : Ipc)
    → Flowing history s
    → length (contents s.queue_send) ≡ n
    → Flowing history (acks (suc n) s) × ((acks (suc n) s).waiting_ack ≡ false)
unfolding acks
acks-Flowing zero history s h d =
    (handle_ack-Flowing history s h, (handle_ack-Acked s h.valid).stops (length-zero _ d))
acks-Flowing (suc n) history s h d =
    acks-Flowing n history (handle_ack s) (handle_ack-Flowing history s h)
      ((handle_ack-Acked s h.valid).goes_down n d)

pub Flowing-sent :
    (history : List ℕ) (s : Ipc)
    → Flowing history s
    → s.waiting_ack ≡ false
    → messages s.log ≡ all_physical history
Flowing-sent history s f idle =
    sym (f.in_order ∙ ap (λ xs. messages s.log ++ all_physical xs) (f.drained idle) ∙ append-nil _)

-- From every reachable state, one acknowledgement more than there are requests queued sends every
-- request submitted, in order, and leaves the driver idle.
pub acks-idle :
    {history : List ℕ} {s : Ipc}
    → Reaches history s
    → (let idle = acks (suc (length (contents s.queue_send))) s in
        (messages idle.log ≡ all_physical history)
        × (contents idle.queue_send ≡ [])
        × (idle.waiting_ack ≡ false))
acks-idle {history} {s} r =
    let (f, stopped) = acks-Flowing _ history s (reaches-Flowing r) refl in
    (Flowing-sent history _ f stopped, f.drained stopped, stopped)
