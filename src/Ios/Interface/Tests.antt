-- ===== src/Ios/Interface/Tests.antt =====
-- Runs of the typed calls: ReadDir with a buffer of its own, and GetAttr.
use libpeli.Base.{ℕ, ◌+◌, ◌*◌, ◌≡◌, refl, some, List, [], ◌∷◌, false, arith}
use libpeli.Ios.Block.{IoVectors, set_at}
use libpeli.Ios.Interface.{
  Submitted, Shape, object, pointer, Given, by_value, allocated, Stack, construct, vector_of,
  pointer_vector,
}
use libpeli.Util.Address.{align_up}
use libpeli.Ios.Ipc.{Ipc, closes, Submitted}
use libpeli.Ios.Ipc.Sync.{fresh_queue}
use libpeli.Ios.Request.{Request}
use libpeli.Ios.Interface.Pieces.{IsPacked, pieces}
use libpeli.Ios.Interface.Packed.{construct-IsPacked}
use libpeli.Ios.Ipc.Sync.Submits.{Submits}

abbrev members : ℕ → ℕ
members i = 0x80500000 + 64 * i

abbrev heap : ℕ → ℕ
heap n = 0x80600000

abbrev no_vectors : IoVectors
no_vectors i = vector_of 0 0

-- A path and a count in, two buffers and a count out.
abbrev shapes : List Shape
shapes = object 64 ∷ object 4 ∷ pointer 13 ∷ pointer 1 ∷ object 4 ∷ []

abbrev arguments : List Given
arguments = by_value ∷ by_value ∷ allocated 65 ∷ allocated 4 ∷ []

abbrev stack : Stack
stack = record {
  vec = set_at 0 (vector_of 0x80500000 64) (
      set_at 1 (vector_of 0x80500040 4) (
        set_at 2 (vector_of 0x80600000 65)
          (set_at 3 (vector_of 0x80600060 4) (set_at 4 (vector_of 0x80500100 4) no_vectors))));
  v_stack_ptr = 0x80600000;
  alloc_size = 128;
}

stack_built : construct false 2 3 members heap shapes arguments 0 0 no_vectors ≡ some stack
unfolding construct pointer_vector align_up
stack_built = refl

construct-IsPacked_example :
    IsPacked stack.vec 0x80600000 (0x80600000 + 128) (pieces 2 shapes arguments 0)
construct-IsPacked_example =
    construct-IsPacked 2 3 members heap shapes arguments no_vectors stack (λ n. refl) stack_built
      (omega arith) (omega arith)

abbrev request : Request
request = record { block = 0x80700000; queue = 99; synced = false }

abbrev idle_ipc : Ipc
idle_ipc = record {
  blocks = λ b. record { result = 0; fd = 0; args = closes; queue = 0 };
  vectors = λ v i. vector_of 0 0;
  queues = λ q. fresh_queue;
  queue_send = fresh_queue;
  waiting_ack = false;
  log = [];
}
