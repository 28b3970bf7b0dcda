-- ===== src/Ios/Ipc/Pointers.antt =====
-- peli/ios/low/Ipc.cpp: the pointers of a request, from the submission to its reply.
use libpeli.Ios.Ipc.{
  finished, asleep, send, queued, Outcome, IoVectors, each_vector, Ipc, Args, reads, writes, ioctls,
  ioctlvs, alignment, Submitted, returned, blocked, set_at, to_physical, to_effective, fix_args,
  fix_vectors, replied, issue, ipc_async, queue_request, ipc_acr_send, ios_read_async,
  ios_write_async, ios_ioctl_async, ios_ioctlv_async, with_block,
}
use mathlib.Core.Path.{ap₂}
use libpeli.Base.Word.{add32}
use libpeli.Base.{if_true, ℕ, ◌≡◌, ◌≢◌, refl, ap, ◌∙◌, Bool, true, false, if◌then◌else◌, ◌==◌}
use libpeli.Util.Address.{physical, is_aligned}
use libpeli.Ios.Ipc.Vectors.{IsCached, cached, set_at_self, each_vector-twice}

-- The memory of a submission, whether it returns or sleeps.
abbrev pub memory : Submitted → Ipc
memory (returned status s) = s
memory (blocked s) = s

-- What the submission leaves and the reply then fixes: the arguments of the block.
abbrev pub args_back : ℕ → ℕ → Submitted → Args
args_back ctrl block o = ((replied ctrl block (memory o)).blocks block).args

abbrev pub vectors_back : ℕ → ℕ → ℕ → Submitted → IoVectors
vectors_back ctrl block vec o = (replied ctrl block (memory o)).vectors vec

queued-memory :
    (s : Ipc) (o : Outcome ℕ (Unit {0}))
    → ((memory (queued s o)).blocks ≡ s.blocks)
      × ((memory (queued s o)).vectors ≡ s.vectors)
      × ((memory (queued s o)).queues ≡ s.queues)
queued-memory s (asleep q) = (refl, refl, refl)
queued-memory s (finished _ q woken) = (refl, refl, refl)

pub ipc_async-memory :
    (self block : ℕ) (s : Ipc)
    → ((memory (ipc_async self block s)).blocks ≡ s.blocks)
      × ((memory (ipc_async self block s)).vectors ≡ s.vectors)
      × ((memory (ipc_async self block s)).queues ≡ s.queues)
unfolding ipc_async queue_request ipc_acr_send
ipc_async-memory self block s = branches s.waiting_ack
  where
    branches :
        (b : Bool)
        → ((memory (
              if b
              then queued s (send self block s.queue_send)
              else returned 0 (ipc_acr_send block s))).blocks
            ≡ s.blocks)
          × ((memory (
                if b
                then queued s (send self block s.queue_send)
                else returned 0 (ipc_acr_send block s))).vectors
              ≡ s.vectors)
          × ((memory (
                if b
                then queued s (send self block s.queue_send)
                else returned 0 (ipc_acr_send block s))).queues
              ≡ s.queues)
    branches true = queued-memory s (send self block s.queue_send)
    branches false = (refl, refl, refl)

replied-args :
    (ctrl block : ℕ) (s : Ipc)
    → ((replied ctrl block s).blocks block).args ≡ fix_args (s.blocks block).args
unfolding replied
replied-args ctrl block s =
    ap (λ b. b.args)
      (set_at_self block (record (s.blocks block) { args = fix_args (s.blocks block).args })
        s.blocks)

module _ (self block fd : ℕ) (args : Args) (queue : ℕ) (s : Ipc)
    (h : is_aligned alignment block ≡ true) where
  unfoldable pub filled : Ipc
  filled = with_block block (record { result = 0; fd = fd; args = args; queue = queue }) s

  pub issue-ipc_async : issue self block fd args queue s ≡ ipc_async self block filled
  unfolding issue filled
  issue-ipc_async = if_true _ _ h

  pub issue-block :
      (memory (issue self block fd args queue s)).blocks block
      ≡ record { result = 0; fd = fd; args = args; queue = queue }
  unfolding filled
  issue-block =
      ap (λ o. (memory o).blocks block) issue-ipc_async
      ∙ ap (λ m. m block) (ipc_async-memory self block filled).0
      ∙ set_at_self block (record { result = 0; fd = fd; args = args; queue = queue }) s.blocks

  issue-args : ((memory (issue self block fd args queue s)).blocks block).args ≡ args
  issue-args = ap (λ b. b.args) issue-block

  issue-vectors : (memory (issue self block fd args queue s)).vectors ≡ s.vectors
  unfolding filled
  issue-vectors =
      ap (λ o. (memory o).vectors) issue-ipc_async ∙ (ipc_async-memory self block filled).1

  pub issue-queues : (memory (issue self block fd args queue s)).queues ≡ s.queues
  unfolding filled
  issue-queues =
      ap (λ o. (memory o).queues) issue-ipc_async ∙ (ipc_async-memory self block filled).2

  pub issue-args_back :
      (ctrl : ℕ) → args_back ctrl block (issue self block fd args queue s) ≡ fix_args args
  issue-args_back ctrl =
      replied-args ctrl block (memory (issue self block fd args queue s)) ∙ ap fix_args issue-args

  pub issue-vectors_back :
      (ctrl vec : ℕ)
      → vectors_back ctrl block vec (issue self block fd args queue s)
        ≡ fix_vectors args s.vectors vec
  unfolding replied
  issue-vectors_back ctrl vec =
      ap (λ a. fix_vectors a (memory (issue self block fd args queue s)).vectors vec) issue-args
      ∙ ap (λ v. fix_vectors args v vec) issue-vectors

module _ (self block fd queue ctrl : ℕ) (s : Ipc) (h : is_aligned alignment block ≡ true)
    (command in_count out_count vec : ℕ) (c : IsCached vec)
    (each : (i : ℕ) → (s.vectors vec i).size ≢ 0 → IsCached (s.vectors vec i).start) where
  ioctlv-gives_back :
      (args_back ctrl block (ios_ioctlv_async self fd command in_count out_count vec queue block s)
        ≡ ioctlvs command in_count out_count vec)
      × ((i : ℕ)
          → vectors_back ctrl block vec
              (ios_ioctlv_async self fd command in_count out_count vec queue block s)
              i
            ≡ s.vectors vec i)
  unfolding ios_ioctlv_async
  ioctlv-gives_back =
      let n = add32 in_count out_count in
      let turned = each_vector to_physical 0 n (s.vectors vec) in
      let args = ioctlvs command in_count out_count (physical vec) in
      let s' : Ipc = record s { vectors = set_at vec turned s.vectors } in
      let submitted : ios_ioctlv_async self fd command in_count out_count vec queue block s
          ≡ issue self block fd args queue s' =
        if_true _ _ h in
      (
        ap (args_back ctrl block) submitted
            ∙ issue-args_back self block fd args queue s' h ctrl
            ∙ ap (λ a. ioctlvs command in_count out_count a) (cached c),
        λ i.
            ap (λ o. vectors_back ctrl block vec o i) submitted
            ∙ ap (λ v. v i) (issue-vectors_back self block fd args queue s' h ctrl vec)
            ∙ ap (λ p. set_at p (each_vector to_effective 0 n (s'.vectors p)) s'.vectors vec i)
                (cached c)
            ∙ ap (λ v. v i)
                (set_at_self vec (each_vector to_effective 0 n (s'.vectors vec)) s'.vectors)
            ∙ ap (λ v. each_vector to_effective 0 n v i) (set_at_self vec turned s.vectors)
            ∙ each_vector-twice n i (s.vectors vec) (each i),
      )

-- When the reply to an aligned block comes, whether the request was sent at once or queued, the
-- block again holds the pointers that the caller gave, if they are cached memory; a pointer of
-- size 0 to an ioctl comes back physical. The vectors of an ioctlv come back as they were, if
-- those whose size is not 0 point to cached memory.
pub reply-gives_back :
    (self block fd queue ctrl start size : ℕ)
    (command input in_size output out_size in_count out_count vec : ℕ) (s : Ipc)
    → is_aligned alignment block ≡ true
    → IsCached start
    → IsCached input
    → IsCached output
    → IsCached vec
    → ((i : ℕ) → (s.vectors vec i).size ≢ 0 → IsCached (s.vectors vec i).start)
    → (args_back ctrl block (ios_read_async self fd start size queue block s) ≡ reads start size)
      × (args_back ctrl block (ios_write_async self fd start size queue block s)
          ≡ writes start size)
      × (args_back ctrl block
            (ios_ioctl_async self fd command input in_size output out_size queue block s)
          ≡ ioctls command
              (if in_size == 0 then physical input else input)
              in_size
              (if out_size == 0 then physical output else output)
              out_size)
      × (args_back ctrl block
            (ios_ioctlv_async self fd command in_count out_count vec queue block s)
          ≡ ioctlvs command in_count out_count vec)
      × ((i : ℕ)
          → vectors_back ctrl block vec
              (ios_ioctlv_async self fd command in_count out_count vec queue block s)
              i
            ≡ s.vectors vec i)
unfolding ios_read_async ios_write_async ios_ioctl_async
reply-gives_back self block fd queue ctrl start size command input in_size output out_size in_count
      out_count vec s h cs ci co cv each =
    let v = ioctlv-gives_back self block fd queue ctrl s h command in_count out_count vec cv each in
    (
      issue-args_back self block fd _ queue s h ctrl ∙ ap (λ a. reads a size) (cached cs),
      issue-args_back self block fd _ queue s h ctrl ∙ ap (λ a. writes a size) (cached cs),
      issue-args_back self block fd _ queue s h ctrl
          ∙ ap₂
              (λ a b.
                ioctls command (if in_size == 0 then physical input else a) in_size
                  (if out_size == 0 then physical output else b) out_size)
              (cached ci) (cached co),
      v.0,
      v.1,
    )
