-- ===== src/Rt/MessageQueue/Window.antt =====
-- The messages that a queue holds, oldest first.
use native.Mathlib.Nat.{mod-add-mod, mod-eq_of_lt, mod-eq-sub-mod, add-zero}
use mathlib.Core.Path.{ap₂}
use native.Mathlib.Decide.{dec_lt}
use libpeli.Base.{
  ℕ, zero, suc, ◌+◌, ◌-◌, ◌%◌, ◌^◌, ◌≤◌, ◌<◌, ◌≡◌, refl, sym, ap, ◌∙◌, ◌≢◌, List, [], ◌∷◌, ◌++◌,
  arith, length,
}
use libpeli.Rt.MessageQueue.{MessageQueue, put, sleep}

module _ {ℓ} {A : Type ℓ} where
  -- The `n` messages from index `i` on, round the ring.
  abbrev pub window : (ℕ → A) → ℕ → ℕ → ℕ → List A
  window m max i zero = []
  window m max i (suc n) = m i ∷ window m max ((i + 1) % max) n

  abbrev pub contents : MessageQueue A → List A
  contents q = window q.messages q.max_count q.first q.count

  -- The indices are inside the array and no sum of theirs wraps.
  pub record IsValid (q : MessageQueue A) : Type 0 where
    pub max_pos : 0 < q.max_count
    pub max_small : q.max_count ≤ 2 ^ 31
    pub first_in : q.first < q.max_count
    pub count_in : q.count ≤ q.max_count

  pub length-window : (m : ℕ → A) (max i n : ℕ) → length (window m max i n) ≡ n
  length-window m max i zero = refl
  length-window m max i (suc n) = ap suc (length-window m max ((i + 1) % max) n)

module _ {ℓ} {A : Type ℓ} (self : ℕ) (q : MessageQueue A) where
  pub sleep-IsValid : IsValid q → IsValid (sleep self q)
  unfolding sleep
  sleep-IsValid h = omega arith

  pub contents-sleep : contents (sleep self q) ≡ contents q
  unfolding sleep
  contents-sleep = refl

-- `k + 1` steps short of a full round do not come back.
pub round-ne : (max i k : ℕ) → i < max → suc k < max → (i + suc k) % max ≢ i
round-ne max i k hi hk = elim (dec_lt (i + suc k) max) [
  | yes below ↦ omega (arith, mod-eq_of_lt below)
  | no past ↦ omega (
    arith,
    mod-eq-sub-mod {n = i + suc k} {m = max} (omega arith),
    mod-eq_of_lt {n = i + suc k - max} {m = max} (omega arith),
  )
]

pub step_round : (max i n : ℕ) → (i + suc n) % max ≡ ((i + 1) % max + n) % max
step_round max i n = rw mod-add-mod (ap (λ k. k % max) (omega arith))

module _ {ℓ} {A : Type ℓ} (m : ℕ → A) (v : A) where
  pub put_eq : (i j : ℕ) → i ≡ j → put m j v i ≡ v
  put_eq i j e = ground arith

  put_ne : (i j : ℕ) → i ≢ j → put m j v i ≡ m i
  put_ne i j e = ground arith

module _ {ℓ} {A : Type ℓ} (max : ℕ) (v : A) where
  -- A write just behind a window of the ring extends it.
  pub window-put_end :
      (m : ℕ → A) (n i j : ℕ)
      → i < max
      → n < max
      → j ≡ (i + n) % max
      → window (put m j v) max i (suc n) ≡ window m max i n ++ (v ∷ [])
  window-put_end m zero i j hi hn e = ap (λ a. a ∷ []) (put_eq m v i j (sym (e ∙ start)))
    where
      start : (i + 0) % max ≡ i
      start = rw (add-zero, mod-eq_of_lt hi)
  window-put_end m (suc n) i j hi hn e =
      ap₂ ◌∷◌ (put_ne m v i j (λ h. round-ne max i n hi hn (sym e ∙ sym h)))
        (window-put_end m n ((i + 1) % max) j (omega arith) (omega arith) (e ∙ step_round max i n))

  -- A write outside a window leaves it.
  pub window-put_out :
      (m : ℕ → A) (n i j : ℕ)
      → i < max
      → ((k : ℕ) → k < n → (i + k) % max ≢ j)
      → window (put m j v) max i n ≡ window m max i n
  window-put_out m zero i j hi out = refl
  window-put_out m (suc n) i j hi out =
      ap₂ ◌∷◌ (put_ne m v i j (λ h. out 0 (omega arith) (start ∙ h))) (
        window-put_out m n ((i + 1) % max) j (omega arith)
          (λ k hk h. out (suc k) (omega arith) (step_round max i k ∙ h)))
    where
      start : (i + 0) % max ≡ i
      start = rw (add-zero, mod-eq_of_lt hi)
