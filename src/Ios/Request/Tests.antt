-- ===== src/Ios/Request/Tests.antt =====
-- A request that is answered, and one whose path is not aligned.
use libpeli.Base.{◌+◌, ◌^◌, ◌≡◌, refl, true, false, not, ◌||◌, []}
use libpeli.Util.Address.{is_aligned}
use libpeli.Ios.Ipc.{Ipc, alignment, closes}
use libpeli.Ios.Ipc.Sync.{fresh_queue}
use libpeli.Ios.Request.{Request}

abbrev request : Request
request = record { block = 2 ^ 31 + 4096; queue = 99; synced = false }

abbrev answered_state : Ipc
answered_state = record {
  blocks = λ b. record { result = 5; fd = 3; args = closes; queue = 99 };
  vectors = λ v i. record { start = 0; size = 0 };
  queues = λ q. fresh_queue;
  queue_send = fresh_queue;
  waiting_ack = false;
  log = [];
}

-- A path at an odd address.
unaligned :
    (not (is_aligned alignment request.block) || not (is_aligned alignment (2 ^ 31 + 1))) ≡ true
unfolding is_aligned
unaligned = refl
