-- ===== src/Rt/MessageQueue/Jam.antt =====
-- `Jam` and `TryJam`, which put a message in front of the others.
use mathlib.Core.Path.{ap₂}
use native.Mathlib.Nat.{mod-eq_of_lt, mod-lt, mod-add-mod}
use native.Mathlib.Decide.{dec_lt}
use libpeli.Base.{
  ℕ, zero, suc, ◌+◌, ◌%◌, ◌^◌, ◌≤◌, ◌<◌, ◌≡◌, refl, sym, ap, ◌∙◌, ◌≢◌, ◌⊎◌, inl, inr, List, [], ◌∷◌,
  arith, true, false, none, ◌==◌, leb,
}
use libpeli.Base.Word.{add32, sub32}
use libpeli.Rt.MessageQueue.{MessageQueue, finished, put, jammed, jam, try_jam, is_empty}
use libpeli.Rt.MessageQueue.Window.{
  window, contents, IsValid, window-put_out, put_eq, round-ne, step_round,
}
use libpeli.Rt.MessageQueue.Fifo.{
  after_wake, woken, wake_if_at, after_wake-IsValid, contents-after_wake,
}

abbrev pub take {ℓ} : {A : Type ℓ} → ℕ → List A → List A
take zero xs = []
take (suc n) [] = []
take (suc n) (x ∷ xs) = x ∷ take n xs

-- Where `m_first - 1` does not wrap, or the ring's size divides 2 ^ 32.
abbrev pub StepsBack {ℓ} : {A : Type ℓ} → MessageQueue A → Type 0
StepsBack q = (0 < q.first) ⊎ (2 ^ 32 % q.max_count ≡ 0)

-- The index that `Jam` writes.
abbrev pub slot {ℓ} : {A : Type ℓ} → MessageQueue A → ℕ
slot q = sub32 q.first 1 % q.max_count

module _ {ℓ} {A : Type ℓ} (q : MessageQueue A) (h : IsValid q) where
  -- The jammed index is the one before the first, round the ring.
  slot-next : StepsBack q → (slot q + 1) % q.max_count ≡ q.first
  slot-next b = mod-add-mod (sub32 q.first 1) q.max_count 1 ∙ steps b
    where
      one_more :
          {n : ℕ} → sub32 q.first 1 + 1 ≡ n → (sub32 q.first 1 + 1) % q.max_count ≡ n % q.max_count
      one_more e = ap (λ t. t % q.max_count) e

      steps : StepsBack q → (sub32 q.first 1 + 1) % q.max_count ≡ q.first
      steps (inl p) =
          one_more {n = q.first} (omega (arith, h.first_in, h.max_small)) ∙ mod-eq_of_lt h.first_in
      steps (inr e) = elim (dec_lt 0 q.first) [
        | yes p ↦
            one_more {n = q.first} (omega (arith, h.first_in, h.max_small))
            ∙ mod-eq_of_lt h.first_in
        | no z ↦ one_more {n = 2 ^ 32} (omega arith) ∙ omega (arith, e)
      ]

  -- On a valid queue whose first message is in slot 0 and whose capacity does not divide 2 ^ 32,
  -- the index that `Jam` and `TryJam` write to is not the one before the first, round the ring.
  pub slot-next_ne : q.first ≡ 0 → 2 ^ 32 % q.max_count ≢ 0 → (slot q + 1) % q.max_count ≢ q.first
  slot-next_ne z ne e = ne (
      sym (ap (λ t. t % q.max_count) {x = sub32 q.first 1 + 1} {y = 2 ^ 32} (omega (arith, z)))
      ∙ sym (mod-add-mod (sub32 q.first 1) q.max_count 1)
      ∙ e
      ∙ z)

  slot-lt : slot q < q.max_count
  slot-lt = mod-lt _ h.max_pos

  window-jammed :
      (v : A) (n : ℕ)
      → StepsBack q
      → n < q.max_count
      → window (put q.messages (slot q) v) q.max_count (slot q) (suc n)
        ≡ v ∷ window q.messages q.max_count q.first n
  window-jammed v n b hn = ap₂ ◌∷◌ (put_eq q.messages v (slot q) (slot q) refl) (
      ap (λ i. window (put q.messages (slot q) v) q.max_count i n) (slot-next b)
      ∙ window-put_out q.max_count v q.messages n q.first (slot q) h.first_in apart)
    where
      apart : (k : ℕ) → k < n → (q.first + k) % q.max_count ≢ slot q
      apart k hk e =
          round-ne q.max_count (slot q) k slot-lt (omega (arith, hk, hn))
            (step_round q.max_count (slot q) k ∙ ap (λ i. (i + k) % q.max_count) (slot-next b) ∙ e)

take-window {ℓ} :
    {A : Type ℓ} (m : ℕ → A) (max k n i : ℕ) → k ≤ n → take k (window m max i n) ≡ window m max i k
take-window m max zero n i h = refl
take-window m max (suc k) zero i h = absurd (omega arith)
take-window m max (suc k) (suc n) i h =
    ap (λ t. m i ∷ t) (take-window m max k n ((i + 1) % max) (omega arith))

module _ {ℓ} {A : Type ℓ} where
  abbrev counted : A → MessageQueue A → MessageQueue A
  counted v q = let q' = jammed v q in record q' { count = add32 q'.count 1 }

  -- On a valid queue with a slot before its first message, `TryJam` refuses exactly if the queue is
  -- full; otherwise it puts the message in front of the others, and wakes the first sleeping thread
  -- exactly if the queue was empty.
  pub try_jam_lem :
      (v : A) (q : MessageQueue A)
      → IsValid q
      → StepsBack q
      → ((q.count ≡ q.max_count) × (try_jam v q q ≡ finished false q none))
        ⊎ ((q' : MessageQueue A) × (try_jam v q q ≡ finished true q' (woken (is_empty q) q))
            × IsValid q'
            × (contents q' ≡ v ∷ contents q))
  unfolding try_jam is_empty
  try_jam_lem v q h b = elim (dec_lt q.count q.max_count) [
    | yes room ↦
        let free : leb q.max_count q.count ≡ false = ground arith in
        let more : add32 q.count 1 ≡ suc q.count = omega (arith, h.max_small) in
        let was_empty : (add32 q.count 1 == 1) ≡ (q.count == 0) = ground arith in
        let valid : IsValid (counted v q) = omega (arith, slot-lt q h) in
        inr (
          after_wake (is_empty q) (counted v q),
          rw (free, try_jam) (wake_if_at _ _ true (counted v q) was_empty),
          after_wake-IsValid (is_empty q) (counted v q) valid,
          contents-after_wake (is_empty q) (counted v q)
              ∙ ap (λ n. window (put q.messages (slot q) v) q.max_count (slot q) n) more
              ∙ window-jammed q h v q.count b room,
        )
    | no full ↦ inl (omega (arith, h.count_in), ground arith)
  ]

  -- On a valid queue with room and a slot before its first message, `Jam` leaves as many messages
  -- as there were: the new one in front, and the newest of the others lost; on an empty queue the
  -- new one is lost.
  pub jam-contents :
      (self : ℕ) (v : A) (q : MessageQueue A)
      → IsValid q
      → StepsBack q
      → q.count < q.max_count
      → (q' : MessageQueue A) × (jam self v q ≡ finished tt q' (woken (q.count == 1) q))
        × IsValid q'
        × (contents q' ≡ take q.count (v ∷ contents q))
  unfolding jam
  jam-contents self v q h b room =
      let free : leb q.max_count q.count ≡ false = ground arith in
      let valid : IsValid (jammed v q) = omega (arith, slot-lt q h) in
      (
        after_wake (q.count == 1) (jammed v q),
        rw (free, jam) (wake_if_at (q.count == 1) (q.count == 1) tt (jammed v q) refl),
        after_wake-IsValid (q.count == 1) (jammed v q) valid,
        contents-after_wake (q.count == 1) (jammed v q) ∙ kept q.count (omega arith),
      )
    where
      kept :
          (n : ℕ)
          → n ≤ q.count
          → window (put q.messages (slot q) v) q.max_count (slot q) n ≡ take n (v ∷ contents q)
      kept zero le = refl
      kept (suc n) le =
          window-jammed q h v n b (omega (arith, room, le))
          ∙ ap (λ t. v ∷ t)
              (sym (take-window q.messages q.max_count n q.count q.first (omega (arith, le))))
