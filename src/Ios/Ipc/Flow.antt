-- ===== src/Ios/Ipc/Flow.antt =====
-- peli/ios/low/Ipc.cpp: the order in which requests reach IOS. `history` lists the requests whose
-- submission has returned.
use libpeli.Base.{
  none, ◌==◌, if◌then◌else◌, ◌≢◌, arith, ℕ, suc, Bool, true, false, List, [], ◌∷◌, ◌++◌,
  append_assoc, append-nil, ◌≡◌, refl, sym, ap, ◌∙◌, inl, inr, length,
}
use libpeli.Ios.Ipc.{
  replied, effective, y1, y2, if_bit, ios_error_ok, handled, Ipc, Write, ppc_msg, ppc_ctrl, int_sts,
  CommandBlock, IoVectors, Submitted, returned, blocked, Handled, delivered, stuck, handle_ack,
  handle_reply, handle_interrupt, queue_request, ipc_async, ipc_acr_send,
}
use libpeli.Rt.MessageQueue.Window.{contents-sleep, sleep-IsValid, contents, IsValid}
use libpeli.Util.Address.{physical}
use libpeli.Rt.MessageQueue.{MessageQueue, Outcome, asleep, finished, send}
use libpeli.Rt.MessageQueue.Fifo.{send_lem, receive_lem}

-- What the registers were told to send, oldest first.
abbrev pub messages : List Write → List ℕ
messages [] = []
messages (ppc_msg p ∷ ws) = p ∷ messages ws
messages (ppc_ctrl x ∷ ws) = messages ws
messages (int_sts x ∷ ws) = messages ws

abbrev pub all_physical : List ℕ → List ℕ
all_physical [] = []
all_physical (r ∷ rs) = physical r ∷ all_physical rs

messages-append : (xs ys : List Write) → messages (xs ++ ys) ≡ messages xs ++ messages ys
messages-append [] ys = refl
messages-append (ppc_msg p ∷ xs) ys = ap (λ t. p ∷ t) (messages-append xs ys)
messages-append (ppc_ctrl x ∷ xs) ys = messages-append xs ys
messages-append (int_sts x ∷ xs) ys = messages-append xs ys

all_physical-append :
    (xs ys : List ℕ) → all_physical (xs ++ ys) ≡ all_physical xs ++ all_physical ys
all_physical-append [] ys = refl
all_physical-append (x ∷ xs) ys = ap (λ t. physical x ∷ t) (all_physical-append xs ys)

-- The requests of the history are those sent and then those queued, and nothing is queued unless an
-- acknowledgement is awaited.
pub record Flowing (history : List ℕ) (s : Ipc) : Type 0 where
  pub valid : IsValid s.queue_send
  pub in_order : all_physical history ≡ messages s.log ++ all_physical (contents s.queue_send)
  pub drained : s.waiting_ack ≡ false → contents s.queue_send ≡ []

pub zero-ne : (n : ℕ) → 0 ≢ suc n
zero-ne n e = omega (arith, e)

true-ne : true ≢ false
true-ne e = ground arith

-- What an acknowledgement does to a valid queue.
pub record Acked (s s' : Ipc) : Type 0 where
  pub valid : IsValid s'.queue_send
  pub same :
      messages s'.log ++ all_physical (contents s'.queue_send)
      ≡ messages s.log ++ all_physical (contents s.queue_send)
  pub drained : s'.waiting_ack ≡ false → contents s'.queue_send ≡ []
  pub goes_down :
      (n : ℕ) → length (contents s.queue_send) ≡ suc n → length (contents s'.queue_send) ≡ n
  pub stops : contents s.queue_send ≡ [] → s'.waiting_ack ≡ false

pub handle_ack-Acked : (s : Ipc) → IsValid s.queue_send → Acked s (handle_ack s)
unfolding handle_ack ipc_acr_send
handle_ack-Acked s h = elim (receive_lem 0 s.queue_send h) [
  | inl (empty, _, e) ↦ rw e (record {
    valid = h;
    same = rw (messages-append, append-nil) refl;
    drained = λ _. empty;
    goes_down = λ n d. absurd (zero-ne n (ap length (sym empty) ∙ d));
    stops = λ _. refl;
  })
  | inr (v, q', _, e, valid, c, _) ↦ rw e (record {
    valid = valid;
    same = simp (messages-append, append_assoc, c);
    drained = λ f. absurd (true-ne f);
    goes_down = λ n d. omega (arith, ap length c, d);
    stops = λ f. absurd (zero-ne (length (contents q')) (ap length (sym f ∙ c)));
  })
]

abbrev pub Fine : List ℕ → ℕ → Submitted → Type 0
Fine history request (returned status s) = Flowing (history ++ (request ∷ [])) s
Fine history request (blocked s) = Flowing history s

abbrev pub FineAfter : List ℕ → Handled → Type 0
FineAfter history (delivered s woken) = Flowing history s
FineAfter history (stuck s) = Flowing history s

module _ (history : List ℕ) (self request : ℕ) (s : Ipc) (h : Flowing history s) where
  pub queue_request-Fine :
      s.waiting_ack ≡ true → Fine history request (queue_request self request s)
  unfolding queue_request
  queue_request-Fine w = elim (send_lem self request s.queue_send h.valid) [
    | inl (_, e, _) ↦ rw e (record {
      valid = sleep-IsValid self s.queue_send h.valid;
      in_order = rw contents-sleep h.in_order;
      drained = λ f. rw contents-sleep (h.drained f);
    })
    | inr (q', e, _, valid, c, _) ↦ rw e (record {
      valid = valid;
      in_order = simp (all_physical-append, c, h.in_order, append_assoc);
      drained = λ f. absurd (true-ne (sym w ∙ f));
    })
  ]

  ipc_acr_send-Flowing :
      s.waiting_ack ≡ false → Flowing (history ++ (request ∷ [])) (ipc_acr_send request s)
  unfolding ipc_acr_send
  ipc_acr_send-Flowing w = record {
    valid = h.valid;
    in_order =
        simp
          (all_physical-append, messages-append, h.in_order, h.drained w, append_assoc, append-nil);
    drained = λ f. absurd (true-ne f);
  }

  branch-Fine :
      (b : Bool)
      → s.waiting_ack ≡ b
      → Fine history request (
          if b
          then queue_request self request s
          else returned ios_error_ok (ipc_acr_send request s))
  branch-Fine true w = queue_request-Fine w
  branch-Fine false w = ipc_acr_send-Flowing w

  pub ipc_async-Fine : Fine history request (ipc_async self request s)
  unfolding ipc_async
  ipc_async-Fine = branch-Fine s.waiting_ack refl

module _ (history : List ℕ) where
  -- Memory outside the driver does not matter.
  pub moved :
      (s : Ipc) (b : ℕ → CommandBlock) (v : ℕ → IoVectors) (q : ℕ → MessageQueue ℕ)
      → Flowing history s
      → Flowing history (record s { blocks = b; vectors = v; queues = q })
  moved s b v q h = record { valid = h.valid; in_order = h.in_order; drained = h.drained }

  handled-Fine :
      (queue : ℕ) (s : Ipc) (o : Outcome ℕ (Unit {0}))
      → Flowing history s
      → FineAfter history (handled queue s o)
  handled-Fine queue s (asleep q) h = moved s _ _ _ h
  handled-Fine queue s (finished _ q woken) h = moved s _ _ _ h

  if-Fine :
      (b : Bool) (x y : Handled)
      → FineAfter history x
      → FineAfter history y
      → FineAfter history (if b then x else y)
  if-Fine true x y hx hy = hx
  if-Fine false x y hx hy = hy

  if-Flowing :
      (b : Bool) (x y : Ipc)
      → Flowing history x
      → Flowing history y
      → Flowing history (if b then x else y)
  if-Flowing true x y hx hy = hx
  if-Flowing false x y hx hy = hy

module _ (history : List ℕ) (s : Ipc) (h : Flowing history s) where
  pub handle_ack-Flowing : Flowing history (handle_ack s)
  handle_ack-Flowing =
      let a = handle_ack-Acked s h.valid in
      record { valid = a.valid; in_order = h.in_order ∙ sym a.same; drained = a.drained }

  replied-Flowing : (ctrl reply : ℕ) → Flowing history (replied ctrl reply s)
  unfolding replied
  replied-Flowing ctrl reply = record {
    valid = h.valid;
    in_order = simp (messages-append, append-nil, h.in_order);
    drained = h.drained;
  }

  handle_reply-Fine :
      (self ctrl reply_ptr : ℕ) → FineAfter history (handle_reply self ctrl reply_ptr s)
  unfolding handle_reply
  handle_reply-Fine self ctrl reply_ptr =
      let reply = effective reply_ptr in
      let queue = (s.blocks reply).queue in
      let fixed = replied-Flowing ctrl reply in
      if-Fine history (queue == 0) (delivered (replied ctrl reply s) none)
        (handled queue (replied ctrl reply s) (send self reply (s.queues queue))) fixed
        (handled-Fine history queue (replied ctrl reply s) (send self reply (s.queues queue)) fixed)

pub handle_interrupt-Fine :
    (history : List ℕ) (s : Ipc) (self ctrl reply_ctrl reply_ptr : ℕ)
    → Flowing history s
    → FineAfter history (handle_interrupt self ctrl reply_ctrl reply_ptr s)
unfolding handle_interrupt
handle_interrupt-Fine history s self ctrl reply_ctrl reply_ptr h =
    let acked = if-Flowing history (if_bit ctrl y2) _ _ (handle_ack-Flowing history s h) h in
    if-Fine history (if_bit ctrl y1) _ _
      (handle_reply-Fine history _ acked self reply_ctrl reply_ptr) acked
