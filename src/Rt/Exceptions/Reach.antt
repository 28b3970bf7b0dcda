-- ===== src/Rt/Exceptions/Reach.antt =====
-- peli/rt/Exceptions.cpp: the states that registrations reach after Init.
use libpeli.Base.{
  ℕ, ◌^◌, ◌≤◌, ◌<◌, ◌≡◌, ◌≢◌, ◌⊎◌, inl, inr, refl, bit_or, leb, false, ◌==◌, Option, some,
  Bool-cases, arith, if◌then◌else◌,
}
use libpeli.Base.Bits.{bit, bit-zero, bit-bit_or, bit-pow_ne, bit-le-one}
use libpeli.Rt.Exceptions.{
  Exceptions, Handler, irq_layer, routine, call_irq, irq_count, int_cause_count, int_cause_irq,
  handle_external_interrupt, set_irq_handler, set_interrupt_event_handler, init_interrupts,
}
use libpeli.Rt.Exceptions.Pending.{Occurs}
use libpeli.Rt.Exceptions.Routed.{handle_external_interrupt_lem}
use native.Mathlib.Decide.{ℕ_discrete}

-- After `Init`, by registrations of handlers that are not null, none for the cause of the IRQs.
pub data Reached (reads : ℕ → ℕ) : Exceptions → Type 0 where
  start : (s : Exceptions) → Reached reads (init_interrupts s)
  interrupt :
      {s : Exceptions} (type h : ℕ)
      → type ≢ int_cause_irq
      → Reached reads s
      → Reached reads (set_interrupt_event_handler type (some (routine h)) s)
  irq :
      {s : Exceptions} (type h : ℕ)
      → Reached reads s
      → Reached reads (set_irq_handler reads type (some h) s)

-- A bit of a mask that is set has a handler.
abbrev pub IsServed {ℓ} : {A : Type ℓ} → (ℕ → Option A) → ℕ → ℕ → Type ℓ
IsServed {A} handlers mask i = (bit mask i ≡ 0) ⊎ ((h : A) × (handlers i ≡ some h))

IsServed-more {ℓ} :
    {A : Type ℓ} (handlers : ℕ → Option A) (type : ℕ) (h : A) (mask i : ℕ)
    → IsServed handlers mask i
    → IsServed (λ j. if j == type then some h else handlers j) (bit_or mask (2 ^ type)) i
IsServed-more handlers type h mask i o = elim (ℕ_discrete i type) [
  | yes e ↦ inr (h, ground (arith, e))
  | no ne ↦ elim o [
    | inl z ↦ inl (omega (arith, bit-bit_or i mask (2 ^ type), z, bit-pow_ne i type ne))
    | inr found ↦ inr (found.0, ground (arith, ne, found.1))
  ]
]

module _ (reads : ℕ → ℕ) where
  -- PPCINTEN reads no bit that is not set, as where it reads what was written, or 0.
  abbrev pub Honest : Type 0
  Honest = (x i : ℕ) → bit (reads x) i ≤ bit x i

  pub registered_interrupt :
      (type : ℕ) (h : Handler) (s : Exceptions) (i : ℕ)
      → IsServed s.interrupt_handlers s.intmr i
      → IsServed
          (set_interrupt_event_handler type (some h) s).interrupt_handlers
          (set_interrupt_event_handler type (some h) s).intmr
          i
  unfolding set_interrupt_event_handler
  registered_interrupt type h s i o = elim (Bool-cases (leb int_cause_count type)) [
    | inl past ↦ rw past o
    | inr fits ↦ rw fits (IsServed-more s.interrupt_handlers type h s.intmr i o)
  ]

  registered_irq :
      (type h : ℕ) (s : Exceptions) (i : ℕ)
      → Honest
      → IsServed s.irq_handlers s.ppcinten i
      → IsServed
          (set_irq_handler reads type (some h) s).irq_handlers
          (set_irq_handler reads type (some h) s).ppcinten
          i
  unfolding set_irq_handler
  registered_irq type h s i honest o = elim (Bool-cases (leb irq_count type)) [
    | inl past ↦ rw past o
    | inr fits ↦ rw fits (
        IsServed-more s.irq_handlers type h (reads s.ppcinten) i
          (elim o [ inl z ↦ inl (omega (arith, honest s.ppcinten i, z)) | inr f ↦ inr f ]))
  ]

  irq_keeps :
      (type h : ℕ) (s : Exceptions)
      → ((set_irq_handler reads type (some h) s).interrupt_handlers ≡ s.interrupt_handlers)
        × ((set_irq_handler reads type (some h) s).intmr ≡ s.intmr)
  unfolding set_irq_handler
  irq_keeps type h s = elim (Bool-cases (leb irq_count type)) [
    | inl past ↦ rw past (refl, refl)
    | inr fits ↦ rw fits (refl, refl)
  ]

  interrupt_keeps :
      (type : ℕ) (h : Handler) (s : Exceptions)
      → ((set_interrupt_event_handler type (some h) s).irq_handlers ≡ s.irq_handlers)
        × ((set_interrupt_event_handler type (some h) s).ppcinten ≡ s.ppcinten)
  unfolding set_interrupt_event_handler
  interrupt_keeps type h s = elim (Bool-cases (leb int_cause_count type)) [
    | inl past ↦ rw past (refl, refl)
    | inr fits ↦ rw fits (refl, refl)
  ]

  start-IsServed :
      (s : Exceptions) (i : ℕ)
      → IsServed (init_interrupts s).interrupt_handlers (init_interrupts s).intmr i
        × IsServed (init_interrupts s).irq_handlers (init_interrupts s).ppcinten i
  unfolding init_interrupts
  start-IsServed s i = (
    registered_interrupt int_cause_irq irq_layer (record s { intmr = 0; ppcinten = 0 }) i
        (inl (bit-zero i)),
    inl (bit-zero i),
  )

  -- Where PPCINTEN reads no bit that it does not hold, and after Init there were only registrations
  -- of handlers that are not null and, for an interrupt, not for the cause of the IRQs: a bit that is
  -- set in INTMR or in PPCINTEN has a handler.
  pub Reached-IsServed :
      (s : Exceptions) (i : ℕ)
      → Honest
      → Reached reads s
      → IsServed s.interrupt_handlers s.intmr i × IsServed s.irq_handlers s.ppcinten i
  Reached-IsServed s i honest (start s') = start-IsServed s' i
  Reached-IsServed s i honest (interrupt {s = s'} type h ne r) =
      let o : IsServed s'.interrupt_handlers s'.intmr i × IsServed s'.irq_handlers s'.ppcinten i =
        Reached-IsServed s' i honest r in
      let (e, f) = interrupt_keeps type (routine h) s' in
      (registered_interrupt type (routine h) s' i o.0, rw (e, f) o.1)
  Reached-IsServed s i honest (irq {s = s'} type h r) =
      let o : IsServed s'.interrupt_handlers s'.intmr i × IsServed s'.irq_handlers s'.ppcinten i =
        Reached-IsServed s' i honest r in
      let (e, f) = irq_keeps type h s' in (rw (e, f) o.0, registered_irq type h s' i honest o.1)

  HasLayer : Exceptions → Type 0
  HasLayer s =
      (s.interrupt_handlers int_cause_irq ≡ some irq_layer) × (bit s.intmr int_cause_irq ≡ 1)

  start_layer : (s : Exceptions) → HasLayer (init_interrupts s)
  unfolding HasLayer init_interrupts
  start_layer s = (refl, refl)

  more_layer :
      (type h : ℕ) (s : Exceptions)
      → type ≢ int_cause_irq
      → HasLayer s
      → HasLayer (set_interrupt_event_handler type (some (routine h)) s)
  unfolding HasLayer set_interrupt_event_handler
  more_layer type h s ne l = elim (Bool-cases (leb int_cause_count type)) [
    | inl past ↦ rw past l
    | inr fits ↦ rw fits (
      ground (arith, ne, l.0),
      omega (
        arith,
        bit-bit_or int_cause_irq s.intmr (2 ^ type),
        bit-le-one int_cause_irq (2 ^ type),
        l.1,
      ),
    )
  ]

  Reached-HasLayer : (s : Exceptions) → Reached reads s → HasLayer s
  unfolding HasLayer
  Reached-HasLayer s (start s') = start_layer s'
  Reached-HasLayer s (interrupt {s = s'} type h ne r) =
      more_layer type h s' ne (Reached-HasLayer s' r)
  Reached-HasLayer s (irq {s = s'} type h r) =
      let (e, f) = irq_keeps type h s' in rw (e, f) (Reached-HasLayer s' r)

  -- Where PPCINTEN reads no bit that it does not hold, and after Init there were only registrations
  -- of handlers that are not null and, for an interrupt, not for the cause of the IRQs, and the
  -- simple mode is off: if the cause of the IRQs is pending, and so is an IRQ below 32 whose enable
  -- bit reads 1, then that IRQ has a routine, and the handler of external interrupts calls it.
  pub irq-reaches :
      (s : Exceptions) (t intsr ppcintsts cr lr srr0 srr1 xer : ℕ)
      → Honest
      → Reached reads s
      → bit intsr int_cause_irq ≡ 1
      → s.use_simple_irq ≡ false
      → t < 32
      → bit ppcintsts t ≡ 1
      → bit (reads s.ppcinten) t ≡ 1
      → (h : ℕ) × (s.irq_handlers t ≡ some h)
        × Occurs
            (call_irq t h)
            (handle_external_interrupt reads intsr ppcintsts cr lr srr0 srr1 xer s).0
  unfolding HasLayer
  irq-reaches s t intsr ppcintsts cr lr srr0 srr1 xer honest r pending simple lt cause mask =
      let l : HasLayer s = Reached-HasLayer s r in
      elim (Reached-IsServed s t honest r).1 [
        | inl z ↦ absurd (omega (arith, honest s.ppcinten t, z, mask))
        | inr f ↦ (
          f.0,
          f.1,
          (handle_external_interrupt_lem reads intsr ppcintsts cr lr srr0 srr1 xer s t f.0).1.1 (
            (int_cause_irq, omega arith, record { in_mask = l.1; in_cause = pending }, l.0),
            record {
              below = lt;
              enabled = rw simple (record { in_mask = mask; in_cause = cause });
              registered = f.1;
            },
          ),
        )
      ]
