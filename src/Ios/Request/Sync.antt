-- ===== src/Ios/Request/Sync.antt =====
-- peli/ios/Request.hpp: when `Sync` ends.
use libpeli.Rt.MessageQueue.Window.{IsValid, length-window}
use libpeli.Ios.Request.{
  new_ioctl, Request, synchronised, peeking, sync, peeked, get_result, new_open,
}
use libpeli.Ios.Ipc.Refuse.{ios_open_async-refused}
use libpeli.Base.{
  if_false, none, ℕ, ◌≡◌, ◌≢◌, refl, sym, ap, ◌∙◌, inl, inr, true, false, Option, arith, not, ◌||◌,
  length,
}
use libpeli.Util.Address.{physical, is_aligned}
use libpeli.Rt.MessageQueue.{sleep, MessageQueue, finished, send, peek}
use libpeli.Rt.MessageQueue.Fifo.{send_lem, peek_left, peek_nothing}
use libpeli.Ios.Ipc.{
  handled, Ipc, alignment, delivered, set_at, handle_reply, replied, returned, ios_error_invalid,
  with_block,
}
use libpeli.Ios.Ipc.Vectors.{IsCached, cached, set_at_self}
use libpeli.Ios.Ipc.{Ipc, ioctls}
use libpeli.Ios.Ipc.Sync.{started, fresh_queue, with_queue}
use libpeli.Ios.Ipc.Sync.Submits.{Submits, ios_ioctl_async-Submits}
use libpeli.Rt.MessageQueue.Window.{IsValid}
use libpeli.Ios.Request.{new_ioctl}
use libpeli.Ios.Ipc.Sync.Returned.{
  Awaits, handle_reply-handled, replied-memory, fresh_queue-IsValid,
}

-- A request whose block or path is not aligned is refused, with the status in its block; its `Sync`
-- then sleeps, with nobody to wake it: nothing was sent or queued.
pub new_open-refused :
    (self self' path flags : ℕ) (r : Request) (s : Ipc)
    → (not (is_aligned alignment r.block) || not (is_aligned alignment path)) ≡ true
    → (s' s'' : Ipc) × ((new_open self path flags r s).0 ≡ returned ios_error_invalid s')
      × (get_result r s' ≡ ios_error_invalid)
      × (s'.log ≡ s.log)
      × (s'.queue_send ≡ s.queue_send)
      × (sync self' (new_open self path flags r s).1 s' ≡ peeking s'')
unfolding new_open sync get_result
new_open-refused self self' path flags r s bad =
    let filled = with_queue r.queue s in
    let s' =
      with_block r.block (record (filled.blocks r.block) { result = ios_error_invalid }) filled in
    (
      s',
      record s' { queues = set_at r.queue (sleep self' fresh_queue) s'.queues },
      ios_open_async-refused self path flags r.queue r.block filled bad,
      ap (λ b. b.result)
          (set_at_self r.block (record (filled.blocks r.block) { result = ios_error_invalid })
            filled.blocks),
      refl,
      refl,
      ap (λ q. peeked (record r { synced = false }) s' (peek self' q))
            (set_at_self r.queue fresh_queue s.queues)
          ∙ ap (peeked (record r { synced = false }) s')
              (peek_nothing fresh_queue fresh_queue-IsValid self' refl),
    )

fresh-send-peek :
    (self self' v : ℕ)
    → (q' : MessageQueue ℕ) × (w : Option ℕ) × (m : ℕ) × (send self v fresh_queue
        ≡ finished tt q' w)
      × (peek self' q' ≡ finished m q' none)
fresh-send-peek self self' v = elim (send_lem self v fresh_queue fresh_queue-IsValid) [
  | inl (full, _, _) ↦ absurd (omega (arith, full))
  | inr (q', e, _, valid, c, _) ↦
      let one : q'.count ≡ 1 =
        sym (length-window q'.messages q'.max_count q'.first q'.count) ∙ ap length c in
      (q', _, _, e, peek_left q' valid self' (omega arith))
]

-- A request that waits on its own queue is synchronised by the reply to its block, and its result
-- is the one in the block.
pub reply-sync :
    (self self' ctrl : ℕ) (r : Request) (s : Ipc)
    → IsCached r.block
    → r.queue ≢ 0
    → Awaits r.block r.queue s
    → r.synced ≡ false
    → (s' s'' : Ipc) × (w : Option ℕ) × (handle_reply self ctrl (physical r.block) s
        ≡ delivered s' w)
      × (sync self' r s' ≡ synchronised (record r { synced = true }) s'')
      × (get_result r s'' ≡ get_result r s)
unfolding sync get_result
reply-sync self self' ctrl r s c some_queue a unsynced =
    let (q', w, m, sent, seen) = fresh-send-peek self self' r.block in
    let fixed = replied ctrl r.block s in
    let s' : Ipc = record fixed { queues = set_at r.queue q' fixed.queues } in
    (
      s',
      record s' { queues = set_at r.queue q' s'.queues },
      w,
      handle_reply-handled self ctrl (physical r.block) r.block r.queue s (cached c) a.replies_to
            some_queue
          ∙ ap (λ q. handled r.queue fixed (send self r.block q)) a.is_fresh
          ∙ ap (handled r.queue fixed) sent,
      if_false _ _ unsynced
          ∙ ap (λ q. peeked r s' (peek self' q)) (set_at_self r.queue q' fixed.queues)
          ∙ ap (peeked r s') seen,
      (replied-memory ctrl r.block s).0,
    )

-- The request of an ioctl tells IOS the call, with the queue of the request for the reply, and is
-- not synchronised.
pub new_ioctl-Submits :
    (self fd command input in_size output out_size : ℕ) (r : Request) (s : Ipc)
    → is_aligned alignment r.block ≡ true
    → IsValid s.queue_send
    → Submits r.block fd
        (ioctls command (physical input) in_size (physical output) out_size)
        r.queue
        s.vectors
        s
        (started (new_ioctl self fd command input in_size output out_size r s).0)
      × ((new_ioctl self fd command input in_size output out_size r s).1
          ≡ record r { synced = false })
unfolding new_ioctl
new_ioctl-Submits self fd command input in_size output out_size r s h v = (
  ios_ioctl_async-Submits self fd command input in_size output out_size r.queue r.block
      (with_queue r.queue s) h v,
  refl,
)
