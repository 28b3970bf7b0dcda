-- ===== src/Ios/Ipc/Stranded.antt =====
-- peli/ios/low/Ipc.cpp: a submission that slept on the full queue and goes on later.
use libpeli.Rt.MessageQueue.Window.{contents-sleep, contents, IsValid, length-window}
use libpeli.Ios.Ipc.Flow.{all_physical, messages}
use libpeli.Ios.Ipc.Reach.{acks, Reaches, reaches-Flowing, acks-Flowing, Flowing-sent}
use libpeli.Ios.Ipc.{
  blocked, ipc_async, Ipc, returned, queue_request, ios_error_ok, queued, ipc_acr_send,
}
use libpeli.Base.{
  true, List, ℕ, false, [], ◌∷◌, ◌++◌, ◌≡◌, refl, sym, ap, ◌∙◌, inl, inr, length, arith,
  if◌then◌else◌,
}
use libpeli.Rt.MessageQueue.Fifo.{send_lem, send_full}
use libpeli.Rt.MessageQueue.{sleep}

-- A request that is queued while nothing waits for an acknowledgement is not sent.
queue_request-idle :
    (self request : ℕ) (s : Ipc)
    → IsValid s.queue_send
    → contents s.queue_send ≡ []
    → s.waiting_ack ≡ false
    → (s' : Ipc) × (queue_request self request s ≡ returned ios_error_ok s')
      × (contents s'.queue_send ≡ request ∷ [])
      × (s'.waiting_ack ≡ false)
      × (messages s'.log ≡ messages s.log)
unfolding queue_request
queue_request-idle self request s h empty idle = elim (send_lem self request s.queue_send h) [
  | inl (full, _, _) ↦ absurd (
      omega (
        arith,
        full,
        h.max_pos,
        sym (ap length empty)
            ∙ length-window s.queue_send.messages s.queue_send.max_count s.queue_send.first
                s.queue_send.count,
      ))
  | inr (q', e, _, _, c, _) ↦ (
    record s { queue_send = q' },
    rw e refl,
    c ∙ ap (λ xs. xs ++ (request ∷ [])) empty,
    idle,
    refl,
  )
]

ipc_async-blocked :
    (self request : ℕ) (s : Ipc)
    → IsValid s.queue_send
    → s.waiting_ack ≡ true
    → s.queue_send.count ≡ s.queue_send.max_count
    → ipc_async self request s ≡ blocked (record s { queue_send = sleep self s.queue_send })
unfolding ipc_async queue_request
ipc_async-blocked self request s h w full =
    ap
      (λ b.
        if b then queue_request self request s else returned ios_error_ok (ipc_acr_send request s))
      w
    ∙ ap (queued s) (send_full s.queue_send h self request full).0

-- From a reachable state that awaits an acknowledgement and has one request on its send queue of
-- one: a submission sleeps; two acknowledgements then send the queued request and leave the
-- driver idle; and the submission, when it goes on, leaves its request in the queue although
-- nothing is awaited.
pub resume-Stranded :
    {history : List ℕ} {s : Ipc} (self request : ℕ)
    → Reaches history s
    → s.waiting_ack ≡ true
    → s.queue_send.max_count ≡ 1
    → s.queue_send.count ≡ 1
    → (asleep_state s' : Ipc) × (ipc_async self request s ≡ blocked asleep_state)
      × (queue_request self request (acks 2 asleep_state) ≡ returned ios_error_ok s')
      × (contents s'.queue_send ≡ request ∷ [])
      × (s'.waiting_ack ≡ false)
      × (messages s'.log ≡ all_physical history)
resume-Stranded {history} {s} self request r w max one =
    let h = (reaches-Flowing r).valid in
    let e = ipc_async-blocked self request s h w (one ∙ sym max) in
    let f = reaches-Flowing (Reaches.sleep self request e r) in
    let held = ap length (contents-sleep self s.queue_send) ∙ length-window _ _ _ _ ∙ one in
    let (g, idle) = acks-Flowing 1 history _ f held in
    let (s', q, c, i, m) = queue_request-idle self request _ g.valid (g.drained idle) idle in
    (_, s', e, q, c, i, m ∙ Flowing-sent history _ g idle)
