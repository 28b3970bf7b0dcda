-- ===== src/Rt/MessageQueue/Fifo.antt =====
-- `Send` and `Receive` treat a valid queue as a bounded queue of its contents, first in, first out.
use native.Mathlib.Decide.{dec_lt}
use libpeli.Base.{
  ℕ, zero, suc, ◌+◌, ◌-◌, ◌%◌, ◌<◌, ◌≡◌, refl, sym, ap, ◌∙◌, ◌⊎◌, inl, inr, [], ◌∷◌, ◌++◌, arith,
  Bool, true, false, Option, none, some, ◌==◌, leb, if◌then◌else◌,
}
use libpeli.Base.Word.{add32, sub32}
use libpeli.Rt.MessageQueue.{
  MessageQueue, finished, asleep, front, behind, pushed, popped, try_send, try_receive, send,
  receive, is_full, is_empty, sleep, wakeup_one, wake_if, try_peek, peek,
}
use libpeli.Rt.MessageQueue.Window.{window, contents, IsValid, window-put_end}

module _ {ℓ} {A : Type ℓ} where
  contents-pushed :
      (v : A) (q : MessageQueue A)
      → IsValid q
      → q.count < q.max_count
      → contents (pushed v q) ≡ contents q ++ (v ∷ [])
  contents-pushed v q h room =
      let no_wrap : add32 q.count 1 ≡ suc q.count = omega arith in
      let sum : add32 q.first q.count ≡ q.first + q.count = omega arith in
      rw (no_wrap) (
        window-put_end q.max_count v q.messages q.count q.first
          (add32 q.first q.count % q.max_count) h.first_in room (ap (λ t. t % q.max_count) sum))

  pushed-IsValid :
      (v : A) (q : MessageQueue A) → IsValid q → q.count < q.max_count → IsValid (pushed v q)
  pushed-IsValid v q h room = omega arith

  popped-IsValid : (q : MessageQueue A) → IsValid q → 0 < q.count → IsValid (popped q)
  popped-IsValid q h some_left = omega arith

  window-suc :
      (m : ℕ → A) (max i n : ℕ)
      → 0 < n
      → window m max i n ≡ m i ∷ window m max ((i + 1) % max) (n - 1)
  window-suc m max i zero h = absurd (omega arith)
  window-suc m max i (suc n) h = ap (λ k. m i ∷ window m max ((i + 1) % max) k) (omega arith)

  contents-popped :
      (q : MessageQueue A)
      → IsValid q
      → 0 < q.count
      → contents q ≡ q.messages q.first ∷ contents (popped q)
  contents-popped q h left =
      let sum : add32 q.first 1 ≡ q.first + 1 = omega arith in
      let less : sub32 q.count 1 ≡ q.count - 1 = omega arith in
      rw (sum, less) (window-suc q.messages q.max_count q.first q.count left)

  -- The queue and the woken thread of a method that wakes a thread if `b`.
  abbrev pub after_wake : Bool → MessageQueue A → MessageQueue A
  after_wake b q = if b then wakeup_one q else q

  abbrev pub woken : Bool → MessageQueue A → Option ℕ
  woken b q = if b then front q.waiting else none

  pub after_wake-IsValid : (b : Bool) (q : MessageQueue A) → IsValid q → IsValid (after_wake b q)
  after_wake-IsValid true q h = omega arith
  after_wake-IsValid false q h = h

  pub contents-after_wake : (b : Bool) (q : MessageQueue A) → contents (after_wake b q) ≡ contents q
  contents-after_wake true q = refl
  contents-after_wake false q = refl

  waiting-after_wake :
      (b : Bool) (q : MessageQueue A)
      → (after_wake b q).waiting ≡ (if b then behind q.waiting else q.waiting)
  waiting-after_wake true q = refl
  waiting-after_wake false q = refl

  max-after_wake : (b : Bool) (q : MessageQueue A) → (after_wake b q).max_count ≡ q.max_count
  max-after_wake true q = refl
  max-after_wake false q = refl

  wake_if_lem {κ} :
      {R : Type κ} (b : Bool) (r : R) (q : MessageQueue A)
      → wake_if b r q ≡ finished r (after_wake b q) (woken b q)
  wake_if_lem true r q = refl
  wake_if_lem false r q = refl

  pub wake_if_at {κ} :
      {R : Type κ} (a b : Bool) (r : R) (q : MessageQueue A)
      → a ≡ b
      → wake_if a r q ≡ finished r (after_wake b q) (woken b q)
  wake_if_at a b r q e = ap (λ t. wake_if t r q) e ∙ wake_if_lem b r q

  -- A message sent to a queue with room, and one taken from a queue that is not empty.
  abbrev pub sent : A → MessageQueue A → MessageQueue A
  sent v q = after_wake (is_empty q) (pushed v q)

  abbrev pub taken : MessageQueue A → MessageQueue A
  taken q = after_wake (is_full q) (popped q)

  pub max-sent : (v : A) (q : MessageQueue A) → (sent v q).max_count ≡ q.max_count
  max-sent v q = max-after_wake (is_empty q) (pushed v q)

  pub max-taken : (q : MessageQueue A) → (taken q).max_count ≡ q.max_count
  max-taken q = max-after_wake (is_full q) (popped q)

  module _ (q : MessageQueue A) (h : IsValid q) where
    pub send_room :
        (self : ℕ) (v : A)
        → q.count < q.max_count
        → (send self v q ≡ finished tt (sent v q) (woken (is_empty q) q))
          × (try_send v q q ≡ finished true (sent v q) (woken (is_empty q) q))
    unfolding send try_send is_empty
    send_room self v room =
        let free : leb q.max_count q.count ≡ false = ground arith in
        let first_one : ((pushed v q).count == 1) ≡ (q.count == 0) = ground arith in
        (
          rw (free, send) (wake_if_at _ _ tt (pushed v q) first_one),
          rw (free, try_send) (wake_if_at _ _ true (pushed v q) first_one),
        )

    pub send_full :
        (self : ℕ) (v : A)
        → q.count ≡ q.max_count
        → (send self v q ≡ asleep (sleep self q)) × (try_send v q q ≡ finished false q none)
    unfolding send try_send
    send_full self v full = (ground arith, ground arith)

    pub receive_left :
        (self : ℕ)
        → 0 < q.count
        → (receive self q ≡ finished (q.messages q.first) (taken q) (woken (is_full q) q))
          × (try_receive q q ≡ finished (some (q.messages q.first)) (taken q) (woken (is_full q) q))
    unfolding receive try_receive is_full
    receive_left self left =
        let some_left : (q.count == 0) ≡ false = ground arith in
        let was_full : ((popped q).count == sub32 q.max_count 1) ≡ leb q.max_count q.count =
          ground arith in
        (
          rw (some_left, receive) (wake_if_at _ _ (q.messages q.first) (popped q) was_full),
          rw (some_left, try_receive)
              (wake_if_at _ _ (some (q.messages q.first)) (popped q) was_full),
        )

    pub receive_empty :
        (self : ℕ)
        → q.count ≡ 0
        → (receive self q ≡ asleep (sleep self q)) × (try_receive q q ≡ finished none q none)
    unfolding receive try_receive
    receive_empty self empty = (ground arith, ground arith)

    pub peek_some : 0 < q.count → try_peek q q ≡ finished (some (q.messages q.first)) q none
    unfolding try_peek
    peek_some left = ground arith

    pub peek_none : q.count ≡ 0 → try_peek q q ≡ finished none q none
    unfolding try_peek
    peek_none empty = ground arith

    pub peek_left : (self : ℕ) → 0 < q.count → peek self q ≡ finished (q.messages q.first) q none
    unfolding peek
    peek_left self left = ground arith

    pub peek_nothing : (self : ℕ) → q.count ≡ 0 → peek self q ≡ asleep (sleep self q)
    unfolding peek
    peek_nothing self empty = ground arith

    pub contents_empty : q.count ≡ 0 → contents q ≡ []
    contents_empty e = ap (λ n. window q.messages q.max_count q.first n) e

    pub contents-sent :
        (v : A) → q.count < q.max_count → contents (sent v q) ≡ contents q ++ (v ∷ [])
    contents-sent v room =
        contents-after_wake (is_empty q) (pushed v q) ∙ contents-pushed v q h room

    pub sent-IsValid : (v : A) → q.count < q.max_count → IsValid (sent v q)
    sent-IsValid v room = after_wake-IsValid (is_empty q) (pushed v q) (pushed-IsValid v q h room)

    pub contents-taken : 0 < q.count → contents q ≡ q.messages q.first ∷ contents (taken q)
    contents-taken left =
        contents-popped q h left
        ∙ ap (λ t. q.messages q.first ∷ t) (sym (contents-after_wake (is_full q) (popped q)))

    pub taken-IsValid : 0 < q.count → IsValid (taken q)
    taken-IsValid left = after_wake-IsValid (is_full q) (popped q) (popped-IsValid q h left)

  -- A valid queue that is full is left alone: `TrySend` refuses and `Send` sleeps. To any other
  -- both add the message behind the others, and wake the first sleeping thread exactly if the queue
  -- was empty.
  pub send_lem :
      (self : ℕ) (v : A) (q : MessageQueue A)
      → IsValid q
      → ((q.count ≡ q.max_count)
          × (send self v q ≡ asleep (sleep self q))
          × (try_send v q q ≡ finished false q none))
        ⊎ ((q' : MessageQueue A) × (send self v q ≡ finished tt q' (woken (is_empty q) q))
            × (try_send v q q ≡ finished true q' (woken (is_empty q) q))
            × IsValid q'
            × (contents q' ≡ contents q ++ (v ∷ []))
            × (q'.waiting ≡ (if is_empty q then behind q.waiting else q.waiting)))
  send_lem self v q h = elim (dec_lt q.count q.max_count) [
    | yes room ↦ inr (
      sent v q,
      (send_room q h self v room).0,
      (send_room q h self v room).1,
      sent-IsValid q h v room,
      contents-sent q h v room,
      waiting-after_wake (is_empty q) (pushed v q),
    )
    | no full ↦
        let at_max : q.count ≡ q.max_count = omega (arith, h.count_in) in
        inl (at_max, (send_full q h self v at_max).0, (send_full q h self v at_max).1)
  ]

  -- From a valid queue that is empty nothing is taken: `TryReceive` refuses and `Receive` sleeps.
  -- From any other both take the oldest message, and wake the first sleeping thread exactly if
  -- the queue was full.
  pub receive_lem :
      (self : ℕ) (q : MessageQueue A)
      → IsValid q
      → ((contents q ≡ [])
          × (receive self q ≡ asleep (sleep self q))
          × (try_receive q q ≡ finished none q none))
        ⊎ ((v : A) × (q' : MessageQueue A) × (receive self q ≡ finished v q' (woken (is_full q) q))
            × (try_receive q q ≡ finished (some v) q' (woken (is_full q) q))
            × IsValid q'
            × (contents q ≡ v ∷ contents q')
            × (q'.waiting ≡ (if is_full q then behind q.waiting else q.waiting)))
  receive_lem self q h = elim (dec_lt 0 q.count) [
    | yes left ↦ inr (
      q.messages q.first,
      taken q,
      (receive_left q h self left).0,
      (receive_left q h self left).1,
      taken-IsValid q h left,
      contents-taken q h left,
      waiting-after_wake (is_full q) (popped q),
    )
    | no empty ↦
        let zero_left : q.count ≡ 0 = omega (arith, empty) in
        inl (
          contents_empty q h zero_left,
          (receive_empty q h self zero_left).0,
          (receive_empty q h self zero_left).1,
        )
  ]
