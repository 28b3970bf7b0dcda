-- ===== src/Rt/Exceptions/Pending.antt =====
-- peli/rt/Exceptions.cpp: which handlers an interrupt calls.
use libpeli.Base.{
  ℕ, zero, suc, ◌+◌, ◌*◌, ◌^◌, ◌≤◌, ◌<◌, ◌≡◌, ◌⊎◌, inl, inr, refl, ap, ◌∙◌, min, bit_and, Bool,
  true, false, List, [], ◌∷◌, ◌++◌, Option, none, some, arith, if◌then◌else◌,
}
use libpeli.Base.Bits.{bit, bit_and-pow, bit-bit_and, bit-le-one}
use libpeli.Rt.Exceptions.{Event, dispatch, is_pending, called}
use mathlib.Core.Path.{subst}
use native.Mathlib.Decide.{dec_lt}
use native.Mathlib.Nat.{one-le-pow}

-- The event is in the list.
abbrev pub Occurs : Event → List Event → Type 0
Occurs e [] = ⊥
Occurs e (x ∷ xs) = (x ≡ e) ⊎ Occurs e xs

pub Occurs-left : (e : Event) (xs ys : List Event) → Occurs e xs → Occurs e (xs ++ ys)
Occurs-left e [] ys p = absurd p
Occurs-left e (x ∷ xs) ys (inl p) = inl p
Occurs-left e (x ∷ xs) ys (inr p) = inr (Occurs-left e xs ys p)

pub Occurs-right : (e : Event) (xs ys : List Event) → Occurs e ys → Occurs e (xs ++ ys)
Occurs-right e [] ys p = p
Occurs-right e (x ∷ xs) ys p = inr (Occurs-right e xs ys p)

pub Occurs-append :
    (e : Event) (xs ys : List Event) → Occurs e (xs ++ ys) → Occurs e xs ⊎ Occurs e ys
Occurs-append e [] ys p = inr p
Occurs-append e (x ∷ xs) ys (inl p) = inl (inl p)
Occurs-append e (x ∷ xs) ys (inr p) = elim (Occurs-append e xs ys p) [
  | inl q ↦ inl (inr q)
  | inr q ↦ inr q
]

-- A bit that is set in the cause and enabled in the mask.
pub record IsEnabled (mask cause i : ℕ) : Type 0 where
  pub in_mask : bit mask i ≡ 1
  pub in_cause : bit cause i ≡ 1

both :
    (mask cause i : ℕ)
    → bit_and (bit_and mask cause) (2 ^ i) ≡ min (bit mask i) (bit cause i) * 2 ^ i
both mask cause i =
    bit_and-pow i (bit_and mask cause) ∙ ap (λ t. t * 2 ^ i) (bit-bit_and i mask cause)

one_or_zero : (x y : ℕ) → x ≤ 1 → y ≤ 1 → ((x ≡ 1) × (y ≡ 1)) ⊎ (min x y ≡ 0)
one_or_zero zero y hx hy = inr (omega arith)
one_or_zero (suc x) zero hx hy = inr (omega arith)
one_or_zero (suc x) (suc y) hx hy = inl (omega arith)

pub pending-IsEnabled : (mask cause i : ℕ) → is_pending mask cause i ≡ true → IsEnabled mask cause i
pending-IsEnabled mask cause i p =
    elim (one_or_zero (bit mask i) (bit cause i) (bit-le-one i mask) (bit-le-one i cause)) [
      | inl e ↦ record { in_mask = e.0; in_cause = e.1 }
      | inr z ↦ absurd (not_set (both mask cause i ∙ ap (λ t. t * 2 ^ i) z ∙ omega arith))
    ]
  where
    not_set : bit_and (bit_and mask cause) (2 ^ i) ≡ 0 → ⊥
    not_set q = ground (arith, q)

pub IsEnabled-pending : (mask cause i : ℕ) → IsEnabled mask cause i → is_pending mask cause i ≡ true
IsEnabled-pending mask cause i e =
    let q : bit_and (bit_and mask cause) (2 ^ i) ≡ 2 ^ i =
      both mask cause i
      ∙ ap (λ t. t * 2 ^ i) {x = min (bit mask i) (bit cause i)} {y = 1}
          (omega (arith, e.in_mask, e.in_cause))
      ∙ omega arith in
    ground (arith, q, one-le-pow i 2 (omega arith))

-- A call of a pending handler, from the bit `i` up.
pub record Calls {ℓ} {A : Type ℓ} (call : ℕ → A → List Event) (handlers : ℕ → Option A)
    (mask cause count i : ℕ) (e : Event) : Type ℓ where
  pub index : ℕ
  pub handler : A
  pub from : i ≤ index
  pub to : index < i + count
  pub enabled : IsEnabled mask cause index
  pub registered : handlers index ≡ some handler
  pub event : Occurs e (call index handler)

module _ {ℓ} {A : Type ℓ} (call : ℕ → A → List Event) (handlers : ℕ → Option A) (mask cause : ℕ)
    (e : Event) where
  in_branch :
      (b : Bool) (xs rest : List Event)
      → Occurs e (if b then xs ++ rest else rest)
      → ((b ≡ true) × Occurs e xs) ⊎ Occurs e rest
  in_branch true xs rest p = elim (Occurs-append e xs rest p) [
    | inl q ↦ inl (refl, q)
    | inr q ↦ inr q
  ]
  in_branch false xs rest p = inr p

  skip :
      (b : Bool) (xs rest : List Event) → Occurs e rest → Occurs e (if b then xs ++ rest else rest)
  skip true xs rest p = Occurs-right e xs rest p
  skip false xs rest p = p

  of_called :
      (i : ℕ) (o : Option A)
      → Occurs e (called call i o)
      → (h : A) × (o ≡ some h) × Occurs e (call i h)
  of_called i none p = absurd p
  of_called i (some h) p = (h, refl, p)

  pub dispatch-Calls :
      (count i : ℕ)
      → Occurs e (dispatch call handlers mask cause count i)
      → Calls call handlers mask cause count i e
  unfolding dispatch
  dispatch-Calls zero i p = absurd p
  dispatch-Calls (suc count) i p =
      elim (in_branch (is_pending mask cause i) (called call i (handlers i))
        (dispatch call handlers mask cause count (suc i)) p) [
          | inl q ↦
              let (h, r, o) = of_called i (handlers i) q.1 in
              record {
                index = i;
                handler = h;
                from = omega arith;
                to = omega arith;
                enabled = pending-IsEnabled mask cause i q.0;
                registered = r;
                event = o;
              }
          | inr q ↦
              let c : Calls call handlers mask cause count (suc i) e =
                dispatch-Calls count (suc i) q in
              record {
                index = c.index;
                handler = c.handler;
                from = omega (arith, c.from);
                to = omega (arith, c.to);
                enabled = c.enabled;
                registered = c.registered;
                event = c.event;
              }
        ]

  call_here :
      (count i : ℕ) (h : A)
      → IsEnabled mask cause i
      → handlers i ≡ some h
      → Occurs e (call i h)
      → Occurs e (dispatch call handlers mask cause (suc count) i)
  unfolding dispatch
  call_here count i h en r o =
      rw (IsEnabled-pending mask cause i en, r) (Occurs-left e (call i h) _ o)

  pub Calls-dispatch :
      (count i : ℕ)
      → Calls call handlers mask cause count i e
      → Occurs e (dispatch call handlers mask cause count i)
  unfolding dispatch
  Calls-dispatch zero i p = absurd (omega (arith, p.from, p.to))
  Calls-dispatch (suc count) i p = elim (dec_lt i p.index) [
    | yes later ↦
        skip (is_pending mask cause i) (called call i (handlers i))
          (dispatch call handlers mask cause count (suc i))
          (Calls-dispatch count (suc i) (record {
            index = p.index;
            handler = p.handler;
            from = later;
            to = omega (arith, p.to);
            enabled = p.enabled;
            registered = p.registered;
            event = p.event;
          }))
    | no now ↦
        subst (λ j. Occurs e (dispatch call handlers mask cause (suc count) j)) {x = p.index}
          {y = i} (omega (arith, p.from))
          (call_here count p.index p.handler p.enabled p.registered p.event)
  ]
