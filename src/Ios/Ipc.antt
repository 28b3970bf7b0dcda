-- ===== src/Ios/Ipc.antt =====
-- peli/ios/low/Ipc.cpp and peli/ios/low/Ipc.hpp: requests to IOS. Blocks, vectors and reply
-- queues are named by address. The registers are written in order, to `writes`; what a register
-- reads is an argument. Cache operations and barriers leave no trace. Each function runs with
-- interrupts off.
pub mod Flow
pub mod Reach
pub mod Stranded
pub mod Vectors
pub mod Pointers
pub mod Path
pub mod Refuse
pub mod Sync
mod Tests
use libpeli.Base.{
  ℕ, zero, suc, ◌+◌, ◌-◌, ◌*◌, ◌^◌, bit_and, bit_or, Bool, true, false, not, ◌||◌, List, [], ◌∷◌,
  ◌++◌, Option, none, some, ◌==◌, if◌then◌else◌,
}
use libpeli.Base.Word.{add32}
use libpeli.Util.Address.{physical, effective, is_aligned}
use libpeli.Rt.MessageQueue.{MessageQueue, Outcome, asleep, finished, send, try_receive, receive}
pub use libpeli.Ios.Block.{
  alignment, path_size, ios_error_ok, ios_error_invalid, IoVector, Args, opens, closes, reads,
  writes, seeks, ioctls, ioctlvs, cmd_of, CommandBlock, IoVectors, set_at, to_effective,
  to_physical, fix_args, fix_vectors,
}
unfoldable pub use libpeli.Ios.Block.{each_vector}

-- `IPCPPCMSG`, `IPCPPCCTRL` and `PPCINTSTS`.
pub data Write : Type 0 where
  ppc_msg ppc_ctrl int_sts : ℕ → Write

pub record Ipc : Type 0 where
  pub blocks : ℕ → CommandBlock
  pub vectors : ℕ → IoVectors
  pub queues : ℕ → MessageQueue ℕ
  pub queue_send : MessageQueue ℕ
  pub waiting_ack : Bool
  pub log : List Write

abbrev pub x1 : ℕ
x1 = 1

abbrev pub y2 : ℕ
y2 = 2

abbrev pub y1 : ℕ
y1 = 4

abbrev pub x2 : ℕ
x2 = 8

abbrev pub iy1 : ℕ
iy1 = 16

abbrev pub iy2 : ℕ
iy2 = 32

-- `hw::BitMask(hw::Irq::IpcPpc)`
abbrev pub irq_mask : ℕ
irq_mask = 2 ^ 30

pub ipc_acr_send : ℕ → Ipc → Ipc
ipc_acr_send request s = record s {
  log = s.log ++ (ppc_msg (physical request) ∷ ppc_ctrl (iy1 + iy2 + x1) ∷ []);
  waiting_ack = true;
}

-- The message of a `TryReceive` and the queue after it.
abbrev pub taken_from : MessageQueue ℕ → Outcome ℕ (Option ℕ) → Option ℕ × MessageQueue ℕ
taken_from q (asleep q') = (none, q')
taken_from q (finished r q' woken) = (r, q')

-- The end of `handleAck`, with what `TryReceive` took.
abbrev pub send_next : Option ℕ × MessageQueue ℕ → Ipc → Ipc
send_next (none, q) s = record s { queue_send = q }
send_next (some request, q) s = ipc_acr_send request (record s { queue_send = q })

pub handle_ack : Ipc → Ipc
unfolding ipc_acr_send
handle_ack s =
    let acked : Ipc = record s {
      log = s.log ++ (ppc_ctrl (iy1 + y2) ∷ int_sts irq_mask ∷ []);
      waiting_ack = false;
    } in
    send_next (taken_from s.queue_send (try_receive s.queue_send s.queue_send)) acked

-- `handleReply` ends with the thread that it woke, or its `Send` sleeps on a full queue.
pub data Handled : Type 0 where
  delivered : Ipc → Option ℕ → Handled
  stuck : Ipc → Handled

abbrev pub handled : ℕ → Ipc → Outcome ℕ (Unit {0}) → Handled
handled queue s (asleep q) = stuck (record s { queues = set_at queue q s.queues })
handled queue s (finished _ q woken) =
    delivered (record s { queues = set_at queue q s.queues }) woken

-- The registers written, and the block and its vectors as the user sees them again.
pub replied : ℕ → ℕ → Ipc → Ipc
replied ctrl reply s = record s {
  blocks =
      set_at reply (record (s.blocks reply) { args = fix_args (s.blocks reply).args }) s.blocks;
  vectors = fix_vectors (s.blocks reply).args s.vectors;
  log =
      s.log
      ++ (ppc_ctrl (bit_or (bit_and ctrl iy2) y1)
          ∷ int_sts irq_mask
          ∷ ppc_ctrl (iy1 + iy2 + x2)
          ∷ []);
}

-- `ctrl` and `reply_ptr` are what IPCPPCCTRL and IPCIOPMSG read; `self` is the interrupted thread.
pub handle_reply : ℕ → ℕ → ℕ → Ipc → Handled
unfolding replied
handle_reply self ctrl reply_ptr s =
    let reply = effective reply_ptr in
    let queue = (s.blocks reply).queue in
    if queue == 0
    then delivered (replied ctrl reply s) none
    else handled queue (replied ctrl reply s) (send self reply (s.queues queue))

abbrev pub if_bit : ℕ → ℕ → Bool
if_bit ctrl mask = not (bit_and ctrl mask == 0)

-- `reply_ctrl` is what IPCPPCCTRL reads in `handleReply`.
pub handle_interrupt : ℕ → ℕ → ℕ → ℕ → Ipc → Handled
handle_interrupt self ctrl reply_ctrl reply_ptr s =
    let acked = if if_bit ctrl y2 then handle_ack s else s in
    if if_bit ctrl y1 then handle_reply self reply_ctrl reply_ptr acked else delivered acked none

-- A submission returns with its status, or its `Send` sleeps with the block not queued.
pub data Submitted : Type 0 where
  returned : ℕ → Ipc → Submitted
  blocked : Ipc → Submitted

-- `s_queue_send.Send(request)`, also from where it wakes.
abbrev pub queued : Ipc → Outcome ℕ (Unit {0}) → Submitted
queued s (asleep q) = blocked (record s { queue_send = q })
queued s (finished _ q woken) = returned ios_error_ok (record s { queue_send = q })

pub queue_request : ℕ → ℕ → Ipc → Submitted
queue_request self request s = queued s (send self request s.queue_send)

-- `ipcAsync`, and the `return IOS_ERROR_OK` behind each call of it.
pub ipc_async : ℕ → ℕ → Ipc → Submitted
unfolding queue_request ipc_acr_send
ipc_async self request s =
    if s.waiting_ack
    then queue_request self request s
    else returned ios_error_ok (ipc_acr_send request s)

abbrev pub with_block : ℕ → CommandBlock → Ipc → Ipc
with_block block v s = record s { blocks = set_at block v s.blocks }

-- `block->result = IOS_ERROR_INVALID; return IOS_ERROR_INVALID;`
pub refuse : ℕ → Ipc → Submitted
refuse block s =
    returned ios_error_invalid
      (with_block block (record (s.blocks block) { result = ios_error_invalid }) s)

-- A block that is aligned is cleared, filled and submitted.
pub issue : ℕ → ℕ → ℕ → Args → ℕ → Ipc → Submitted
unfolding refuse
issue self block fd args queue s =
    if is_aligned alignment block
    then ipc_async self block
        (with_block block (record { result = 0; fd = fd; args = args; queue = queue }) s)
    else refuse block s

pub ios_open_async : ℕ → ℕ → ℕ → ℕ → ℕ → Ipc → Submitted
unfolding issue refuse
ios_open_async self path flags queue block s =
    if not (is_aligned alignment block) || not (is_aligned alignment path)
    then refuse block s
    else issue self block 0 (opens (physical path) flags) queue s

pub ios_close_async : ℕ → ℕ → ℕ → ℕ → Ipc → Submitted
ios_close_async self fd queue block s = issue self block fd closes queue s

pub ios_seek_async : ℕ → ℕ → ℕ → ℕ → ℕ → ℕ → Ipc → Submitted
ios_seek_async self fd where_to whence queue block s =
    issue self block fd (seeks where_to whence) queue s

pub ios_read_async : ℕ → ℕ → ℕ → ℕ → ℕ → ℕ → Ipc → Submitted
ios_read_async self fd start size queue block s =
    issue self block fd (reads (physical start) size) queue s

pub ios_write_async : ℕ → ℕ → ℕ → ℕ → ℕ → ℕ → Ipc → Submitted
ios_write_async self fd start size queue block s =
    issue self block fd (writes (physical start) size) queue s

pub ios_ioctl_async : ℕ → ℕ → ℕ → ℕ → ℕ → ℕ → ℕ → ℕ → ℕ → Ipc → Submitted
ios_ioctl_async self fd command input in_size output out_size queue block s =
    issue self block fd (ioctls command (physical input) in_size (physical output) out_size) queue s

pub ios_ioctlv_async : ℕ → ℕ → ℕ → ℕ → ℕ → ℕ → ℕ → ℕ → Ipc → Submitted
unfolding issue refuse
ios_ioctlv_async self fd command in_count out_count vec queue block s =
    let turned = each_vector to_physical 0 (add32 in_count out_count) (s.vectors vec) in
    if is_aligned alignment block
    then issue self block fd (ioctlvs command in_count out_count (physical vec)) queue
        (record s { vectors = set_at vec turned s.vectors })
    else refuse block s
