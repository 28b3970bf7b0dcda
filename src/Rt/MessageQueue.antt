-- ===== src/Rt/MessageQueue.antt =====
-- peli/rt/MessageQueue.hpp: a bounded ring of messages with one queue of sleeping threads. Each
-- function is the body of the method with interrupts off, run by the thread `self`. A method that
-- finds its condition false puts `self` to sleep; woken, it runs from its test again. A `Try`
-- method tests once before it turns interrupts off: `before` is the queue at that test.
pub mod Window
pub mod Fifo
pub mod Jam
pub mod Refine
mod Tests
use libpeli.Base.{
  ℕ, ◌-◌, ◌%◌, Bool, true, false, List, [], ◌∷◌, ◌++◌, Option, none, some, ◌==◌, leb, if◌then◌else◌,
}
use libpeli.Base.Word.{add32, sub32}

-- The array is a function of the index. `waiting` is `m_wait_queue`, its head first.
pub record MessageQueue {ℓ} (A : Type ℓ) : Type ℓ where
  pub max_count : ℕ
  pub first : ℕ
  pub count : ℕ
  pub messages : ℕ → A
  pub waiting : List ℕ

-- `finished` holds what the method returns and the thread that it woke.
pub data Outcome {ℓ κ} (A : Type ℓ) (R : Type κ) : Type (ℓ ⊔ κ) where
  asleep : MessageQueue A → Outcome A R
  finished : R → MessageQueue A → Option ℕ → Outcome A R

-- `WakeupOne` takes the head of the queue.
abbrev pub front : List ℕ → Option ℕ
front [] = none
front (t ∷ ts) = some t

abbrev pub behind : List ℕ → List ℕ
behind [] = []
behind (t ∷ ts) = ts

module _ {ℓ} {A : Type ℓ} where
  abbrev pub put : (ℕ → A) → ℕ → A → ℕ → A
  put m i v j = if j == i then v else m j

  pub is_empty : MessageQueue A → Bool
  is_empty q = q.count == 0

  pub is_full : MessageQueue A → Bool
  is_full q = leb q.max_count q.count

  pub sleep : ℕ → MessageQueue A → MessageQueue A
  sleep self q = record q { waiting = q.waiting ++ (self ∷ []) }

  abbrev pub wakeup_one : MessageQueue A → MessageQueue A
  wakeup_one q = record q { waiting = behind q.waiting }

  abbrev pub wake_if {κ} : {R : Type κ} → Bool → R → MessageQueue A → Outcome A R
  wake_if b r q = if b then finished r (wakeup_one q) (front q.waiting) else finished r q none

  -- `m_messages[(m_first + m_count++) % m_max_count] = value`
  abbrev pub pushed : A → MessageQueue A → MessageQueue A
  pushed v q = record q {
    messages = put q.messages (add32 q.first q.count % q.max_count) v;
    count = add32 q.count 1;
  }

  -- `m_first = (m_first - 1) % m_max_count; m_messages[m_first] = value`
  abbrev pub jammed : A → MessageQueue A → MessageQueue A
  jammed v q =
      let i = sub32 q.first 1 % q.max_count in record q { first = i; messages = put q.messages i v }

  -- `m_first = (m_first + 1) % m_max_count; m_count--`
  abbrev pub popped : MessageQueue A → MessageQueue A
  popped q = record q { first = add32 q.first 1 % q.max_count; count = sub32 q.count 1 }

  pub send : ℕ → A → MessageQueue A → Outcome A (Unit {0})
  unfolding is_full sleep
  send self v q =
      if is_full q
      then asleep (sleep self q)
      else (let q' = pushed v q in wake_if (q'.count == 1) tt q')

  pub try_send : A → MessageQueue A → MessageQueue A → Outcome A Bool
  unfolding is_full
  try_send v before q =
      if is_full before
      then finished false q none
      else if is_full q
      then finished false q none
      else (let q' = pushed v q in wake_if (q'.count == 1) true q')

  pub jam : ℕ → A → MessageQueue A → Outcome A (Unit {0})
  unfolding is_full sleep
  jam self v q =
      if is_full q
      then asleep (sleep self q)
      else (let q' = jammed v q in wake_if (q'.count == 1) tt q')

  pub try_jam : A → MessageQueue A → MessageQueue A → Outcome A Bool
  unfolding is_full
  try_jam v before q =
      if is_full before
      then finished false q none
      else if is_full q
      then finished false q none
      else (let q' = jammed v q in
          let q'' = record q' { count = add32 q'.count 1 } in wake_if (q''.count == 1) true q'')

  pub receive : ℕ → MessageQueue A → Outcome A A
  unfolding is_empty sleep
  receive self q =
      if is_empty q
      then asleep (sleep self q)
      else (let q' = popped q in wake_if (q'.count == sub32 q'.max_count 1) (q.messages q.first) q')

  -- The option is what goes through `value`.
  pub try_receive : MessageQueue A → MessageQueue A → Outcome A (Option A)
  unfolding is_empty
  try_receive before q =
      if is_empty before
      then finished none q none
      else if is_empty q
      then finished none q none
      else (let q' = popped q in
          wake_if (q'.count == sub32 q'.max_count 1) (some (q.messages q.first)) q')

  pub peek : ℕ → MessageQueue A → Outcome A A
  unfolding is_empty sleep
  peek self q = if is_empty q then asleep (sleep self q) else finished (q.messages q.first) q none

  -- `Peek` from where it wakes: it wakes the next thread, then tests again.
  pub peek_resume : ℕ → MessageQueue A → Outcome A A × Option ℕ
  unfolding peek
  peek_resume self q = (peek self (wakeup_one q), front q.waiting)

  pub try_peek : MessageQueue A → MessageQueue A → Outcome A (Option A)
  unfolding is_empty
  try_peek before q =
      if is_empty before
      then finished none q none
      else if is_empty q
      then finished none q none
      else finished (some (q.messages q.first)) q none
