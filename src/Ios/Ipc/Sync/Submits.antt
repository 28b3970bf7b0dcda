-- ===== src/Ios/Ipc/Sync/Submits.antt =====
-- peli/ios/low/Ipc.cpp: what a call that waits has told IOS when it goes on to receive.
use libpeli.Ios.Ipc.{
  ioctls, ios_ioctl_async, Ipc, IoVectors, Args, CommandBlock, ppc_msg, ppc_ctrl, alignment, issue,
  ipc_async, ipc_acr_send, queue_request, queued, returned, ios_error_ok,
}
use mathlib.Core.Path.{subst}
use libpeli.Base.{
  ℕ, ◌≡◌, ◌≢◌, ◌⊎◌, inl, inr, refl, sym, ap, ◌∙◌, Bool, true, false, [], ◌∷◌, ◌++◌, if◌then◌else◌,
}
use libpeli.Util.Address.{physical, is_aligned}
use libpeli.Rt.MessageQueue.{send}
use libpeli.Rt.MessageQueue.Window.{IsValid, contents, contents-sleep}
use libpeli.Rt.MessageQueue.Fifo.{send_lem}
use libpeli.Ios.Ipc.Vectors.{set_at_self, set_at_ne}
use libpeli.Ios.Ipc.Pointers.{filled, issue-ipc_async}
use libpeli.Ios.Ipc.Sync.{Started, failed, receiving, sending, started}

abbrev pub state_of : Started → Ipc
state_of (failed status s) = s
state_of (receiving s) = s
state_of (sending s) = s

-- The driver was idle: the two register writes that send the block, and nothing else.
abbrev pub IsSent : ℕ → Ipc → Started → Type 0
IsSent block s o =
    (s.waiting_ack ≡ false)
    × (o ≡ receiving (state_of o))
    × ((state_of o).log ≡ s.log ++ (ppc_msg (physical block) ∷ ppc_ctrl 0x31 ∷ []))
    × ((state_of o).waiting_ack ≡ true)
    × ((state_of o).queue_send ≡ s.queue_send)

-- The driver awaits an acknowledgement: no register is written, and the block is the last of the
-- queue, or the queue is full and the call sleeps.
abbrev pub IsQueued : ℕ → Ipc → Started → Type 0
IsQueued block s o =
    (s.waiting_ack ≡ true)
    × ((state_of o).log ≡ s.log)
    × ((state_of o).waiting_ack ≡ true)
    × ((o ≡ receiving (state_of o))
          × (contents (state_of o).queue_send ≡ contents s.queue_send ++ (block ∷ []))
        ⊎ (o ≡ sending (state_of o))
          × (s.queue_send.count ≡ s.queue_send.max_count)
          × (contents (state_of o).queue_send ≡ contents s.queue_send))

-- The block holds the request, with the queue for the reply, the other blocks are as they were, the
-- vectors are these, and the block is sent or queued.
abbrev pub Submits : ℕ → ℕ → Args → ℕ → (ℕ → IoVectors) → Ipc → Started → Type 0
Submits block fd args queue vectors s o =
    ((state_of o).blocks block ≡ record { result = 0; fd = fd; args = args; queue = queue })
    × ((b : ℕ) → b ≢ block → (state_of o).blocks b ≡ s.blocks b)
    × ((state_of o).vectors ≡ vectors)
    × (IsSent block s o ⊎ IsQueued block s o)

-- The same, and the memory, for a submission of a block that is filled.
abbrev Submitting : ℕ → Ipc → Started → Type 0
Submitting block s o =
    ((state_of o).blocks ≡ s.blocks)
    × ((state_of o).vectors ≡ s.vectors)
    × (IsSent block s o ⊎ IsQueued block s o)

ipc_async-Submitting :
    (self block : ℕ) (s : Ipc)
    → IsValid s.queue_send
    → Submitting block s (started (ipc_async self block s))
unfolding ipc_async queue_request ipc_acr_send
ipc_async-Submitting self block s v = branches s.waiting_ack refl
  where
    branches :
        (b : Bool)
        → s.waiting_ack ≡ b
        → Submitting block s (
            started (
              if b
              then queued s (send self block s.queue_send)
              else returned ios_error_ok (ipc_acr_send block s)))
    branches false w = (refl, refl, inl (w, refl, refl, refl, refl))
    branches true w = elim (send_lem self block s.queue_send v) [
      | inl (full, e, _) ↦
          rw e (refl, refl, inr (w, refl, w, inr (refl, full, contents-sleep self s.queue_send)))
      | inr (q', e, _, _, c, _) ↦ rw e (refl, refl, inr (w, refl, w, inl (refl, c)))
    ]

pub issue-Submits :
    (self block fd : ℕ) (args : Args) (queue : ℕ) (s : Ipc)
    → is_aligned alignment block ≡ true
    → IsValid s.queue_send
    → Submits block fd args queue s.vectors s (started (issue self block fd args queue s))
unfolding filled
issue-Submits self block fd args queue s h v =
    let c : CommandBlock = record { result = 0; fd = fd; args = args; queue = queue } in
    let (blocks, vectors, sent) =
      ipc_async-Submitting self block (filled self block fd args queue s h) v in
    subst (λ o. Submits block fd args queue s.vectors s (started o))
      (sym (issue-ipc_async self block fd args queue s h))
      (
        ap (λ m. m block) blocks ∙ set_at_self block c s.blocks,
        λ b ne. ap (λ m. m b) blocks ∙ set_at_ne block c s.blocks b ne,
        vectors,
        sent,
      )

pub ios_ioctl_async-Submits :
    (self fd command input in_size output out_size queue block : ℕ) (s : Ipc)
    → is_aligned alignment block ≡ true
    → IsValid s.queue_send
    → Submits block fd
        (ioctls command (physical input) in_size (physical output) out_size)
        queue
        s.vectors
        s
        (started (ios_ioctl_async self fd command input in_size output out_size queue block s))
unfolding ios_ioctl_async
ios_ioctl_async-Submits self fd command input in_size output out_size queue block s =
    issue-Submits self block fd (ioctls command (physical input) in_size (physical output) out_size)
      queue s
