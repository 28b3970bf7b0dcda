-- ===== src/Ios/Ipc/Tests.antt =====
-- A driver with two requests submitted, and the theorems about it.
use libpeli.Base.{
  ◌∙◌, sym, ℕ, suc, ◌+◌, ◌^◌, ◌≤◌, ◌<◌, ◌≡◌, ◌≢◌, refl, ap, ◌⊎◌, [], ◌∷◌, true, false, arith,
  length, if◌then◌else◌, ◌==◌,
}
use libpeli.Util.Address.{physical, is_aligned}
use libpeli.Rt.MessageQueue.Window.{length-window, contents}
use libpeli.Rt.MessageQueue.Fifo.{max-sent, contents-sent, sent, send_room}
use libpeli.Ios.Ipc.{
  Ipc, Args, IoVectors, seeks, set_at, each_vector, to_physical, closes, reads, writes, ioctls,
  ioctlvs, alignment, path_size, returned, blocked, queued, ipc_async, ipc_acr_send, queue_request,
  ios_error_ok, ios_error_invalid, ios_read_async, ios_write_async, ios_ioctl_async,
  ios_ioctlv_async,
}
use libpeli.Ios.Ipc.Flow.{Flowing, messages}
use libpeli.Ios.Ipc.Reach.{Reaches, reaches-Flowing, acks, acks-idle}
use libpeli.Ios.Ipc.Stranded.{resume-Stranded}
use libpeli.Ios.Ipc.Pointers.{args_back, vectors_back, reply-gives_back}
use libpeli.Ios.Ipc.Vectors.{IsCached}
use libpeli.Ios.Ipc.Path.{IsRunning}
use libpeli.Ios.Ipc.Sync.{
  Started, fresh_queue, failed, ios_open, ios_close, ios_read, ios_write, ios_seek, ios_ioctl,
  ios_ioctlv,
}
use libpeli.Base.Word.{add32}
use libpeli.Ios.Ipc.Sync.Submits.{Submits}
use libpeli.Ios.Ipc.Sync.Returned.{Waits, fresh_queue-IsValid}
use libpeli.Ios.Ipc.Sync.Calls.{calls-Waits, ios_open-Waits}

abbrev first_block : ℕ
first_block = 2 ^ 31 + 4096

abbrev second_block : ℕ
second_block = 2 ^ 31 + 8192

abbrev idle : Ipc
idle = record {
  blocks = λ b. record { result = 0; fd = 3; args = closes; queue = 0 };
  vectors = λ v i. record { start = 2 ^ 31 + 64; size = 32 };
  queues = λ q. fresh_queue;
  queue_send = fresh_queue;
  waiting_ack = false;
  log = [];
}

one_sent : Ipc
one_sent = ipc_acr_send first_block idle

abbrev two_submitted : Ipc
two_submitted = record one_sent { queue_send = sent second_block fresh_queue }

idle-Reaches : Reaches [] idle
idle-Reaches = Reaches.init fresh_queue-IsValid refl refl

one-Reaches : Reaches (first_block ∷ []) one_sent
unfolding one_sent ipc_async
one-Reaches = Reaches.submit 7 first_block refl idle-Reaches

second-queued : ipc_async 7 second_block one_sent ≡ returned ios_error_ok two_submitted
unfolding ipc_async queue_request one_sent ipc_acr_send
second-queued =
    ap (queued one_sent) (send_room fresh_queue fresh_queue-IsValid 7 second_block (omega arith)).0

two-Reaches : Reaches (first_block ∷ second_block ∷ []) two_submitted
two-Reaches = Reaches.submit 7 second_block second-queued one-Reaches

reaches-Flowing_example : Flowing (first_block ∷ second_block ∷ []) two_submitted
reaches-Flowing_example = reaches-Flowing two-Reaches

acks-idle_example :
    (messages (acks (suc (length (contents two_submitted.queue_send))) two_submitted).log
      ≡ physical first_block ∷ physical second_block ∷ [])
    × (contents (acks (suc (length (contents two_submitted.queue_send))) two_submitted).queue_send
        ≡ [])
    × ((acks (suc (length (contents two_submitted.queue_send))) two_submitted).waiting_ack ≡ false)
acks-idle_example = acks-idle two-Reaches

two_waiting : two_submitted.waiting_ack ≡ true
unfolding one_sent ipc_acr_send
two_waiting = refl

one_queued : two_submitted.queue_send.count ≡ 1
one_queued =
    let q = sent second_block fresh_queue in
    sym (length-window q.messages q.max_count q.first q.count)
    ∙ ap length (contents-sent fresh_queue fresh_queue-IsValid second_block (omega arith))

resume-Stranded_example :
    (asleep_state s' : Ipc) × (ipc_async 8 (2 ^ 31 + 64) two_submitted ≡ blocked asleep_state)
    × (queue_request 8 (2 ^ 31 + 64) (acks 2 asleep_state) ≡ returned ios_error_ok s')
    × (contents s'.queue_send ≡ (2 ^ 31 + 64) ∷ [])
    × (s'.waiting_ack ≡ false)
    × (messages s'.log ≡ physical first_block ∷ physical second_block ∷ [])
resume-Stranded_example =
    resume-Stranded 8 (2 ^ 31 + 64) two-Reaches two_waiting (max-sent second_block fresh_queue)
      one_queued

first-IsCached : IsCached first_block
first-IsCached = omega arith

second-IsCached : IsCached second_block
second-IsCached = omega arith

first-aligned : is_aligned alignment first_block ≡ true
unfolding is_aligned
first-aligned = refl

vectors-IsCached :
    (i : ℕ) → (idle.vectors second_block i).size ≢ 0 → IsCached (idle.vectors second_block i).start
vectors-IsCached i _ = omega arith

reply-gives_back_example :
    (args_back 0 first_block (ios_read_async 7 3 second_block 64 99 first_block idle)
      ≡ reads second_block 64)
    × (args_back 0 first_block (ios_write_async 7 3 second_block 64 99 first_block idle)
        ≡ writes second_block 64)
    × (args_back 0 first_block
          (ios_ioctl_async 7 3 5 second_block 32 second_block 0 99 first_block idle)
        ≡ ioctls 5 second_block 32 (physical second_block) 0)
    × (args_back 0 first_block (ios_ioctlv_async 7 3 5 1 2 second_block 99 first_block idle)
        ≡ ioctlvs 5 1 2 second_block)
    × ((i : ℕ)
        → vectors_back 0 first_block second_block
            (ios_ioctlv_async 7 3 5 1 2 second_block 99 first_block idle)
            i
          ≡ idle.vectors second_block i)
reply-gives_back_example =
    reply-gives_back 7 first_block 3 99 0 second_block 64 5 second_block 32 second_block 0 1 2
      second_block idle first-aligned second-IsCached second-IsCached second-IsCached
      second-IsCached vectors-IsCached

-- Of file 3.
abbrev Answered : Args → (ℕ → IoVectors) → Started → Type 0
Answered args vectors o = Submits first_block 3 args 99 vectors idle o × Waits first_block 99 o

calls-Waits_example :
    Answered closes idle.vectors (ios_close 7 3 99 first_block idle)
    × ((start size : ℕ)
        → Answered
            (reads (physical start) size)
            idle.vectors
            (ios_read 7 3 start size 99 first_block idle)
          × Answered
              (writes (physical start) size)
              idle.vectors
              (ios_write 7 3 start size 99 first_block idle))
    × ((where_to whence : ℕ)
        → Answered
            (seeks where_to whence)
            idle.vectors
            (ios_seek 7 3 where_to whence 99 first_block idle))
    × ((command input in_size output out_size : ℕ)
        → Answered
            (ioctls command (physical input) in_size (physical output) out_size)
            idle.vectors
            (ios_ioctl 7 3 command input in_size output out_size 99 first_block idle))
    × ((command in_count out_count vec : ℕ)
        → Answered
            (ioctlvs command in_count out_count (physical vec))
            (set_at vec
              (each_vector to_physical 0 (add32 in_count out_count) (idle.vectors vec))
              idle.vectors)
            (ios_ioctlv 7 3 command in_count out_count vec 99 first_block idle))
calls-Waits_example =
    calls-Waits 7 3 99 first_block idle first-aligned first-IsCached (omega arith)
      fresh_queue-IsValid

-- "/de", ended.
abbrev short_path : ℕ → ℕ
short_path i = if i == 0 then 47 else if i == 1 then 100 else if i == 2 then 101 else 0

ios_open-Waits_example :
    (IsRunning short_path path_size
      × ((ios_open 7 short_path 0 first_block 99 first_block idle).1
          ≡ failed ios_error_invalid idle))
    ⊎ ((n : ℕ) × (n < path_size)
        × (short_path n ≡ 0)
        × ((j : ℕ)
            → j ≤ n
            → (ios_open 7 short_path 0 first_block 99 first_block idle).0 j ≡ short_path j)
        × Waits first_block 99 (ios_open 7 short_path 0 first_block 99 first_block idle).1)
ios_open-Waits_example =
    ios_open-Waits 7 short_path 0 first_block 99 first_block idle first-aligned first-aligned
      first-IsCached (omega arith)
