-- ===== src/Ios/Ipc/Sync/Returned.antt =====
-- peli/ios/low/Ipc.cpp: from the reply of IOS to what a waiting call returns.
use libpeli.Ios.Ipc.Sync.{
  Started, failed, receiving, sending, fresh_queue, gave, received, receive_result,
}
use libpeli.Ios.Ipc.Vectors.{set_at_self, IsCached, cached}
use libpeli.Base.{
  if_false, none, length, ℕ, ◌≡◌, ◌≢◌, refl, sym, ap, ◌∙◌, inl, inr, List, [], ◌∷◌, false, Option,
  ◌==◌, arith, if◌then◌else◌,
}
use libpeli.Util.Address.{effective, physical}
use libpeli.Rt.MessageQueue.{is_full, MessageQueue, finished, send, receive}
use libpeli.Rt.MessageQueue.Window.{IsValid}
use libpeli.Rt.MessageQueue.Fifo.{woken, send_lem, receive_lem}
use libpeli.Ios.Ipc.{
  fix_args, Ipc, Handled, delivered, set_at, handled, handle_reply, replied, with_block,
}

pub fresh_queue-IsValid : IsValid fresh_queue
fresh_queue-IsValid = omega arith

head_of : ℕ → List ℕ → ℕ
head_of d [] = d
head_of d (x ∷ xs) = x

-- A message sent to a fresh queue is the one received.
fresh-send-receive :
    (self self' v : ℕ)
    → (q' q'' : MessageQueue ℕ) × (w w' : Option ℕ) × (send self v fresh_queue ≡ finished tt q' w)
      × (receive self' q' ≡ finished v q'' w')
unfolding head_of
fresh-send-receive self self' v = elim (send_lem self v fresh_queue fresh_queue-IsValid) [
  | inl (full, _, _) ↦ absurd (omega (arith, full))
  | inr (q', e, _, valid, c, _) ↦ elim (receive_lem self' q' valid) [
    | inl (empty, _, _) ↦ absurd (omega (arith, ap length (sym c ∙ empty)))
    | inr (m, q'', e', _, _, c', _) ↦
        let same : m ≡ v = ap (head_of 0) (sym c' ∙ c) in
        (q', q'', _, _, e, e' ∙ ap (λ t. finished t q'' (woken (is_full q') q')) same)
  ]
]

-- The block waits for its reply on a fresh queue.
pub record Awaits (block queue : ℕ) (s : Ipc) : Type 0 where
  pub replies_to : (s.blocks block).queue ≡ queue
  pub is_fresh : s.queues queue ≡ fresh_queue

abbrev reply_step : ℕ → ℕ → Ipc → ℕ → ℕ → Handled
reply_step self ctrl s b q =
    if q == 0
    then delivered (replied ctrl b s) none
    else handled q (replied ctrl b s) (send self b (s.queues q))

pub handle_reply-handled :
    (self ctrl p block queue : ℕ) (s : Ipc)
    → effective p ≡ block
    → (s.blocks block).queue ≡ queue
    → queue ≢ 0
    → handle_reply self ctrl p s
      ≡ handled queue (replied ctrl block s) (send self block (s.queues queue))
unfolding handle_reply
handle_reply-handled self ctrl p block queue s e r some_queue =
    let test : (queue == 0) ≡ false = ground arith in
    ap (λ b. reply_step self ctrl s b (s.blocks b).queue) e
    ∙ ap (reply_step self ctrl s block) r
    ∙ if_false _ _ test

pub replied-memory :
    (ctrl block : ℕ) (s : Ipc)
    → (((replied ctrl block s).blocks block).result ≡ (s.blocks block).result)
      × ((replied ctrl block s).queues ≡ s.queues)
unfolding replied
replied-memory ctrl block s = (
  ap (λ b. b.result)
      (set_at_self block (record (s.blocks block) { args = fix_args (s.blocks block).args })
        s.blocks),
  refl,
)

replied-Received :
    (self self' ctrl block queue : ℕ) (s : Ipc)
    → IsCached block
    → queue ≢ 0
    → Awaits block queue s
    → (s' s'' : Ipc) × (w : Option ℕ) × (handle_reply self ctrl (physical block) s ≡ delivered s' w)
      × (receive_result self' queue s' ≡ gave (s.blocks block).result s'')
unfolding receive_result
replied-Received self self' ctrl block queue s c some_queue a =
    let (q', q'', w, w', sent, taken) = fresh-send-receive self self' block in
    let fixed = replied ctrl block s in
    let s' : Ipc = record fixed { queues = set_at queue q' fixed.queues } in
    let s'' : Ipc = record s' { queues = set_at queue q'' s'.queues } in
    (
      s',
      s'',
      w,
      handle_reply-handled self ctrl (physical block) block queue s (cached c) a.replies_to
            some_queue
          ∙ ap (λ q. handled queue fixed (send self block q)) a.is_fresh
          ∙ ap (handled queue fixed) sent,
      ap (λ q. received queue s' (receive self' q)) (set_at_self queue q' fixed.queues)
          ∙ ap (received queue s') taken
          ∙ ap (λ r. gave r s'') (replied-memory ctrl block s).0,
    )

-- What IOS does to a block.
abbrev pub answered : ℕ → ℕ → Ipc → Ipc
answered block result s = with_block block (record (s.blocks block) { result = result }) s

-- Any answer to the block, followed by the reply, is what the call returns.
unfoldable pub Returns : ℕ → ℕ → Ipc → Type 0
Returns block queue s =
    (self self' ctrl result : ℕ)
    → (s' s'' : Ipc) × (w : Option ℕ) × (handle_reply self ctrl (physical block)
          (answered block result s)
        ≡ delivered s' w)
      × (receive_result self' queue s' ≡ gave result s'')

-- The call is not refused, and whatever IOS answers to the block is what it returns. What the call
-- submitted is Ios.Ipc.Sync.Submits.
unfoldable pub Waits : ℕ → ℕ → Started → Type 0
Waits block queue (failed status s) = ⊥
Waits block queue (receiving s) = Returns block queue s
Waits block queue (sending s) = Returns block queue s

pub Awaits-Returns :
    (block queue : ℕ) (s : Ipc)
    → IsCached block
    → queue ≢ 0
    → Awaits block queue s
    → Returns block queue s
unfolding Returns
Awaits-Returns block queue s c some_queue a self self' ctrl result =
    let t = answered block result s in
    let same = set_at_self block (record (s.blocks block) { result = result }) s.blocks in
    let (s', s'', w, e, r) =
      replied-Received self self' ctrl block queue t c some_queue
        (record { replies_to = ap (λ b. b.queue) same ∙ a.replies_to; is_fresh = a.is_fresh }) in
    (s', s'', w, e, r ∙ ap (λ b. gave b.result s'') same)
