-- ===== src/Ios/Ipc/Sync/Calls.antt =====
-- peli/ios/low/Ipc.cpp: the calls that wait, from the submission to the answer.
use libpeli.Ios.Ipc.Sync.{
  Started, ios_open, ios_close, ios_read, ios_write, ios_seek, ios_ioctl, ios_ioctlv, with_queue,
  started, failed, receiving, fresh_queue,
}
use libpeli.Ios.Ipc.Pointers.{issue-queues, issue-block, issue-ipc_async, memory}
use libpeli.Ios.Ipc.Vectors.{set_at_self, IsCached}
use libpeli.Base.Word.{add32}
use libpeli.Ios.Ipc.Path.{IsRunning, Copied, whole, cut, str_copy, str_copy-Copied}
use libpeli.Base.{
  not, ◌||◌, if_true, ◌<◌, ◌≤◌, ◌⊎◌, if_false, ℕ, ◌≡◌, ◌≢◌, refl, sym, ap, ◌∙◌, inl, inr, Bool,
  true, false, ◌==◌, arith, if◌then◌else◌,
}
use mathlib.Core.Path.{subst}
use libpeli.Util.Address.{physical, is_aligned}
use libpeli.Rt.MessageQueue.{Outcome, finished, asleep, send}
use libpeli.Ios.Ipc.{
  path_size, ios_error_invalid, opens, closes, reads, writes, seeks, ioctls, ioctlvs,
  ios_open_async, ios_close_async, ios_read_async, ios_write_async, ios_seek_async, ios_ioctl_async,
  ios_ioctlv_async, each_vector, to_physical, returned, blocked, queued, queue_request, ipc_async,
  ipc_acr_send, ios_error_ok, Ipc, Args, alignment, Submitted, set_at, issue,
}
use libpeli.Ios.Ipc.Sync.Submits.{Submits, issue-Submits}
use libpeli.Rt.MessageQueue.Window.{IsValid}
use libpeli.Ios.Block.{IoVectors}
use libpeli.Ios.Ipc.Sync.Returned.{Returns, Waits, Awaits-Returns}

abbrev status_of : Submitted → ℕ
status_of (returned status s) = status
status_of (blocked s) = ios_error_ok

queued-status : (s : Ipc) (o : Outcome ℕ (Unit {0})) → status_of (queued s o) ≡ ios_error_ok
queued-status s (asleep q) = refl
queued-status s (finished _ q w) = refl

ipc_async-status : (self block : ℕ) (s : Ipc) → status_of (ipc_async self block s) ≡ ios_error_ok
unfolding ipc_async queue_request
ipc_async-status self block s = branches s.waiting_ack
  where
    branches :
        (b : Bool)
        → status_of (
            if b
            then queued s (send self block s.queue_send)
            else returned ios_error_ok (ipc_acr_send block s))
          ≡ ios_error_ok
    branches true = queued-status s (send self block s.queue_send)
    branches false = refl

started-Waits :
    (block queue : ℕ) (o : Submitted)
    → status_of o ≡ ios_error_ok
    → Returns block queue (memory o)
    → Waits block queue (started o)
unfolding Waits
started-Waits block queue (returned status s) e r =
    subst (λ st. Waits block queue (if st == 0 then receiving s else failed st s)) (sym e) r
started-Waits block queue (blocked s) e r = r

issue-Waits :
    (self block fd : ℕ) (args : Args) (queue : ℕ) (s : Ipc)
    → is_aligned alignment block ≡ true
    → IsCached block
    → queue ≢ 0
    → s.queues queue ≡ fresh_queue
    → Waits block queue (started (issue self block fd args queue s))
issue-Waits self block fd args queue s h c some_queue fresh =
    started-Waits block queue (issue self block fd args queue s)
      (ap status_of (issue-ipc_async self block fd args queue s h) ∙ ipc_async-status self block _)
      (Awaits-Returns block queue _ c some_queue (record {
        replies_to = ap (λ b. b.queue) (issue-block self block fd args queue s h);
        is_fresh = ap (λ m. m queue) (issue-queues self block fd args queue s h) ∙ fresh;
      }))

module _ (self fd queue block : ℕ) (s : Ipc) (h : is_aligned alignment block ≡ true)
    (c : IsCached block) (some_queue : queue ≢ 0) where
  queue_is_fresh : (with_queue queue s).queues queue ≡ fresh_queue
  queue_is_fresh = set_at_self queue fresh_queue s.queues

  issued :
      (args : Args)
      → Waits block queue (started (issue self block fd args queue (with_queue queue s)))
  issued args =
      issue-Waits self block fd args queue (with_queue queue s) h c some_queue queue_is_fresh

  -- A call that submits this request, and returns what IOS answers.
  abbrev pub Answers : Args → (ℕ → IoVectors) → Started → Type 0
  Answers args vectors o = Submits block fd args queue vectors s o × Waits block queue o

  issue-Answers :
      (args : Args)
      → IsValid s.queue_send
      → Answers args s.vectors (started (issue self block fd args queue (with_queue queue s)))
  issue-Answers args v =
      (issue-Submits self block fd args queue (with_queue queue s) h v, issued args)

  -- With its block aligned and in cached memory, its queue at an address that is not 0 and the queue
  -- of the driver valid, each waiting call on a file fills its block with its command, the file, its
  -- arguments with physical pointers and the queue, and leaves every other block; of the vectors it
  -- only turns those of an ioctlv to physical addresses. A driver that awaits no acknowledgement
  -- writes the address of the block and then the control register; one that does writes nothing, and
  -- the block is queued last, or the queue is full and the call sleeps with nothing queued. Once IOS
  -- answers the block and the reply comes, the call returns that answer.
  pub calls-Waits :
      IsValid s.queue_send
      → Answers closes s.vectors (ios_close self fd queue block s)
        × ((start size : ℕ)
            → Answers
                (reads (physical start) size)
                s.vectors
                (ios_read self fd start size queue block s)
              × Answers
                  (writes (physical start) size)
                  s.vectors
                  (ios_write self fd start size queue block s))
        × ((where_to whence : ℕ)
            → Answers
                (seeks where_to whence)
                s.vectors
                (ios_seek self fd where_to whence queue block s))
        × ((command input in_size output out_size : ℕ)
            → Answers
                (ioctls command (physical input) in_size (physical output) out_size)
                s.vectors
                (ios_ioctl self fd command input in_size output out_size queue block s))
        × ((command in_count out_count vec : ℕ)
            → Answers
                (ioctlvs command in_count out_count (physical vec))
                (set_at vec
                  (each_vector to_physical 0 (add32 in_count out_count) (s.vectors vec))
                  s.vectors)
                (ios_ioctlv self fd command in_count out_count vec queue block s))
  unfolding ios_close ios_read ios_write ios_seek ios_ioctl ios_ioctlv ios_close_async
      ios_read_async ios_write_async ios_seek_async ios_ioctl_async ios_ioctlv_async
  calls-Waits v = (
    issue-Answers closes v,
    λ start size. (
      issue-Answers (reads (physical start) size) v,
      issue-Answers (writes (physical start) size) v,
    ),
    λ where_to whence. issue-Answers (seeks where_to whence) v,
    λ command input in_size output out_size.
        issue-Answers (ioctls command (physical input) in_size (physical output) out_size) v,
    λ command in_count out_count vec.
        let turned : ℕ → IoVectors =
          set_at vec (each_vector to_physical 0 (add32 in_count out_count) (s.vectors vec))
            s.vectors in
        let args : Args = ioctlvs command in_count out_count (physical vec) in
        let s' : Ipc = record (with_queue queue s) { vectors = turned } in
        subst (λ o. Answers args turned (started o)) (sym (if_true _ _ h))
          (
            issue-Submits self block fd args queue s' h v,
            issue-Waits self block fd args queue s' h c some_queue queue_is_fresh,
          ),
  )

opened-Waits :
    (self path flags queue block : ℕ) (s : Ipc)
    → is_aligned alignment block ≡ true
    → is_aligned alignment path ≡ true
    → IsCached block
    → queue ≢ 0
    → Waits block queue (started (ios_open_async self path flags queue block (with_queue queue s)))
unfolding ios_open_async
opened-Waits self path flags queue block s h hp c some_queue =
    let test : (not (is_aligned alignment block) || not (is_aligned alignment path)) ≡ false =
      rw (h, hp) refl in
    subst (λ o. Waits block queue (started o)) (sym (if_false _ _ test))
      (issued self 0 queue block s h c some_queue (opens (physical path) flags))

Copied-cases :
    (source dst : ℕ → ℕ) (n : ℕ)
    → Copied path_size source dst n
    → (IsRunning source path_size × (n ≡ path_size))
      ⊎ ((n < path_size) × (source n ≡ 0) × ((j : ℕ) → j ≤ n → dst j ≡ source j))
Copied-cases source dst n (whole m lt run stop same) = inr (lt, stop, same)
Copied-cases source dst n (cut run same stop) = inl (run, refl)

-- With its block and its copy of the path aligned, the block in cached memory and its queue at an
-- address that is not 0, an open is refused exactly if no 0 is among the first 64 bytes of the
-- path, and then changes nothing; any other path is copied whole, and the call returns the answer
-- of IOS.
pub ios_open-Waits :
    (self : ℕ) (source : ℕ → ℕ) (flags path queue block : ℕ) (s : Ipc)
    → is_aligned alignment block ≡ true
    → is_aligned alignment path ≡ true
    → IsCached block
    → queue ≢ 0
    → (IsRunning source path_size
        × ((ios_open self source flags path queue block s).1 ≡ failed ios_error_invalid s))
      ⊎ ((n : ℕ) × (n < path_size)
          × (source n ≡ 0)
          × ((j : ℕ) → j ≤ n → (ios_open self source flags path queue block s).0 j ≡ source j)
          × Waits block queue (ios_open self source flags path queue block s).1)
unfolding ios_open
ios_open-Waits self source flags path queue block s h hp c some_queue =
    elim (Copied-cases source _ _ (str_copy-Copied path_size source (λ i. 0) (omega arith))) [
      | inl (run, long) ↦
          let test : ((str_copy path_size source (λ i. 0)).0 == path_size) ≡ true = ground arith in
          inl (run, if_true _ _ test)
      | inr (lt, stop, same) ↦
          let test : ((str_copy path_size source (λ i. 0)).0 == path_size) ≡ false = ground arith in
          inr (
            (str_copy path_size source (λ i. 0)).0,
            lt,
            stop,
            same,
            subst (Waits block queue) (sym (if_false _ _ test))
                (opened-Waits self path flags queue block s h hp c some_queue),
          )
    ]
