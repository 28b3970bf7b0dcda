-- ===== src/Ios/Request.antt =====
-- peli/ios/Request.hpp: a request owns a command block and a reply queue, here by their
-- addresses, and knows whether it was synchronised.
pub mod Sync
mod Tests
use libpeli.Base.{ℕ, Bool, true, false, Option, none, some, ◌==◌, ltb, leb, if◌then◌else◌, ◌^◌}
use libpeli.Rt.MessageQueue.{MessageQueue, Outcome, asleep, finished, peek}
use libpeli.Ios.Ipc.{
  Ipc, Submitted, CommandBlock, Args, opens, closes, reads, writes, seeks, ioctls, ioctlvs, cmd_of,
  set_at, ios_open_async, ios_close_async, ios_read_async, ios_write_async, ios_seek_async,
  ios_ioctl_async, ios_ioctlv_async,
}
use libpeli.Ios.Ipc.Sync.{with_queue}

pub record Request : Type 0 where
  pub block : ℕ
  pub queue : ℕ
  pub synced : Bool

-- Each constructor drops the status of its submission.
abbrev pub submitted : Request → (Ipc → Submitted) → Ipc → Submitted × Request
submitted r submit s = (submit (with_queue r.queue s), record r { synced = false })

pub new_open : ℕ → ℕ → ℕ → Request → Ipc → Submitted × Request
new_open self path flags r = submitted r (ios_open_async self path flags r.queue r.block)

pub new_close : ℕ → ℕ → Request → Ipc → Submitted × Request
new_close self fd r = submitted r (ios_close_async self fd r.queue r.block)

pub new_read : ℕ → ℕ → ℕ → ℕ → Request → Ipc → Submitted × Request
new_read self fd start size r = submitted r (ios_read_async self fd start size r.queue r.block)

pub new_write : ℕ → ℕ → ℕ → ℕ → Request → Ipc → Submitted × Request
new_write self fd start size r = submitted r (ios_write_async self fd start size r.queue r.block)

pub new_seek : ℕ → ℕ → ℕ → ℕ → Request → Ipc → Submitted × Request
new_seek self fd where_to whence r =
    submitted r (ios_seek_async self fd where_to whence r.queue r.block)

pub new_ioctl : ℕ → ℕ → ℕ → ℕ → ℕ → ℕ → ℕ → Request → Ipc → Submitted × Request
new_ioctl self fd command input in_size output out_size r =
    submitted r (ios_ioctl_async self fd command input in_size output out_size r.queue r.block)

pub new_ioctlv : ℕ → ℕ → ℕ → ℕ → ℕ → ℕ → Request → Ipc → Submitted × Request
new_ioctlv self fd command in_count out_count vec r =
    submitted r (ios_ioctlv_async self fd command in_count out_count vec r.queue r.block)

pub data Synced : Type 0 where
  synchronised : Request → Ipc → Synced
  peeking : Ipc → Synced

-- `Peek(); m_synced = true`
abbrev pub peeked : Request → Ipc → Outcome ℕ ℕ → Synced
peeked r s (asleep q) = peeking (record s { queues = set_at r.queue q s.queues })
peeked r s (finished _ q woken) =
    synchronised (record r { synced = true }) (record s { queues = set_at r.queue q s.queues })

pub sync : ℕ → Request → Ipc → Synced
sync self r s = if r.synced then synchronised r s else peeked r s (peek self (s.queues r.queue))

pub get_result : Request → Ipc → ℕ
get_result r s = (s.blocks r.block).result

-- The sign bit of the 32-bit result.
pub is_error : Request → Ipc → Bool
unfolding get_result
is_error r s = leb (2 ^ 31) (get_result r s)

pub get_fd : Request → Ipc → ℕ
get_fd r s = (s.blocks r.block).fd

-- `GetOpen` to `GetIoctlv`: the request, if the block has that command.
abbrev pub get_as : ℕ → Request → Ipc → Option Request
get_as cmd r s = if cmd_of (s.blocks r.block).args == cmd then some r else none

pub get_open : Request → Ipc → Option Request
get_open = get_as 1

pub get_close : Request → Ipc → Option Request
get_close = get_as 2

pub get_read : Request → Ipc → Option Request
get_read = get_as 3

pub get_write : Request → Ipc → Option Request
get_write = get_as 4

pub get_seek : Request → Ipc → Option Request
get_seek = get_as 5

pub get_ioctl : Request → Ipc → Option Request
get_ioctl = get_as 6

pub get_ioctlv : Request → Ipc → Option Request
get_ioctlv = get_as 7
