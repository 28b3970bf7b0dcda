-- ===== src/Ios/Ipc/Sync.antt =====
-- peli/ios/low/Ipc.cpp, the calls that wait: each makes a block and a queue of one on its stack,
-- at the addresses `block` and `queue`, submits and receives. `path` is the address of the copy
-- of a path.
pub mod Submits
pub mod Returned
pub mod Calls
use libpeli.Base.{ℕ, zero, suc, [], ◌==◌, if◌then◌else◌}
use libpeli.Rt.MessageQueue.{MessageQueue, Outcome, asleep, finished, receive}
use libpeli.Ios.Ipc.{
  Ipc, Submitted, returned, blocked, set_at, path_size, ios_error_invalid, ios_open_async,
  ios_close_async, ios_read_async, ios_write_async, ios_seek_async, ios_ioctl_async,
  ios_ioctlv_async,
}
use libpeli.Ios.Ipc.Path.{str_copy}

abbrev pub fresh_queue : MessageQueue ℕ
fresh_queue = record { max_count = 1; first = 0; count = 0; messages = λ i. 0; waiting = [] }

abbrev pub with_queue : ℕ → Ipc → Ipc
with_queue queue s = record s { queues = set_at queue fresh_queue s.queues }

-- A call returns at once, or goes on to receive, or sleeps in the `Send` of its submission.
pub data Started : Type 0 where
  failed : ℕ → Ipc → Started
  receiving sending : Ipc → Started

-- `return result != IOS_ERROR_OK ? result : queue.Receive()->result`
abbrev pub started : Submitted → Started
started (returned status s) = if status == 0 then receiving s else failed status s
started (blocked s) = sending s

pub data Received : Type 0 where
  gave : ℕ → Ipc → Received
  waits : Ipc → Received

abbrev pub received : ℕ → Ipc → Outcome ℕ ℕ → Received
received queue s (asleep q) = waits (record s { queues = set_at queue q s.queues })
received queue s (finished block q woken) =
    gave (s.blocks block).result (record s { queues = set_at queue q s.queues })

-- `queue.Receive()->result`
pub receive_result : ℕ → ℕ → Ipc → Received
receive_result self queue s = received queue s (receive self (s.queues queue))

-- The path's copy and what the call does.
pub ios_open : ℕ → (ℕ → ℕ) → ℕ → ℕ → ℕ → ℕ → Ipc → (ℕ → ℕ) × Started
ios_open self source flags path queue block s =
    let copy = str_copy path_size source (λ i. 0) in
    let opened = started (ios_open_async self path flags queue block (with_queue queue s)) in
    (copy.1, if copy.0 == path_size then failed ios_error_invalid s else opened)

pub ios_close : ℕ → ℕ → ℕ → ℕ → Ipc → Started
ios_close self fd queue block s = started (ios_close_async self fd queue block (with_queue queue s))

pub ios_read : ℕ → ℕ → ℕ → ℕ → ℕ → ℕ → Ipc → Started
ios_read self fd start size queue block s =
    started (ios_read_async self fd start size queue block (with_queue queue s))

pub ios_write : ℕ → ℕ → ℕ → ℕ → ℕ → ℕ → Ipc → Started
ios_write self fd start size queue block s =
    started (ios_write_async self fd start size queue block (with_queue queue s))

pub ios_seek : ℕ → ℕ → ℕ → ℕ → ℕ → ℕ → Ipc → Started
ios_seek self fd where_to whence queue block s =
    started (ios_seek_async self fd where_to whence queue block (with_queue queue s))

pub ios_ioctl : ℕ → ℕ → ℕ → ℕ → ℕ → ℕ → ℕ → ℕ → ℕ → Ipc → Started
ios_ioctl self fd command input in_size output out_size queue block s =
    started (
      ios_ioctl_async self fd command input in_size output out_size queue block
        (with_queue queue s))

pub ios_ioctlv : ℕ → ℕ → ℕ → ℕ → ℕ → ℕ → ℕ → ℕ → Ipc → Started
ios_ioctlv self fd command in_count out_count vec queue block s =
    started
      (ios_ioctlv_async self fd command in_count out_count vec queue block (with_queue queue s))
