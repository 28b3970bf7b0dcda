-- ===== src/Rt/Exceptions/Routed.antt =====
-- peli/rt/Exceptions.cpp: which routines an interrupt reaches.
use libpeli.Rt.Exceptions.{
  dispatch, int_cause_count, handle_external_interrupt, Handler, call_handler, move_xer, move_srr1,
  move_srr0, unhandled, write_intsr, irq_layer, routine, Event, Exceptions, call_interrupt,
  call_irq, irq_count, handle_irq, irq_mask_of, irq_cause_of, call_one,
}
use libpeli.Rt.Exceptions.Pending.{
  Occurs-append, Occurs-left, Occurs, IsEnabled, Calls, dispatch-Calls, Calls-dispatch,
}
use libpeli.Base.{List, ◌≢◌, ℕ, ◌<◌, ◌≡◌, ◌↔◌, inl, inr, refl, ap, sym, ◌∙◌, [], ◌∷◌, some, arith}
use mathlib.Core.Path.{subst}

module _ (reads : ℕ → ℕ) where
  -- A pending IRQ with a routine.
  pub record IsIrq (ppcintsts : ℕ) (s : Exceptions) (t h : ℕ) : Type 0 where
    pub below : t < 32
    pub enabled : IsEnabled (irq_mask_of reads s) (irq_cause_of ppcintsts s) t
    pub registered : s.irq_handlers t ≡ some h

  module _ (ppcintsts t h : ℕ) (s : Exceptions) where
    of_Calls :
        Calls call_one s.irq_handlers
          (irq_mask_of reads s)
          (irq_cause_of ppcintsts s)
          irq_count
          0
          (call_irq t h)
        → IsIrq ppcintsts s t h
    of_Calls c = elim c.event [
      | inl q ↦
          let i : c.index ≡ t = cc q in
          let e : c.handler ≡ h = cc q in
          record {
            below = omega (arith, i, c.to);
            enabled =
                subst (λ j. IsEnabled (irq_mask_of reads s) (irq_cause_of ppcintsts s) j) i
                  c.enabled;
            registered = ap s.irq_handlers (sym i) ∙ c.registered ∙ ap some e;
          }
      | inr q ↦ absurd q
    ]

    pub handle_irq-calls :
        Occurs (call_irq t h) (handle_irq reads ppcintsts s) ↔ IsIrq ppcintsts s t h
    unfolding handle_irq
    handle_irq-calls = (
      λ p. elim p [
        | inl q ↦ absurd (cc q)
        | inr q ↦ of_Calls (
            dispatch-Calls call_one s.irq_handlers (irq_mask_of reads s) (irq_cause_of ppcintsts s)
              (call_irq t h) irq_count 0 q)
      ],
      λ p. inr (
          Calls-dispatch call_one s.irq_handlers (irq_mask_of reads s) (irq_cause_of ppcintsts s)
            (call_irq t h) irq_count 0
            (record {
              index = t;
              handler = h;
              from = omega arith;
              to = omega (arith, p.below);
              enabled = p.enabled;
              registered = p.registered;
              event = inl refl;
            })),
    )

    no_interrupt : (i k : ℕ) → Occurs (call_interrupt i k) (handle_irq reads ppcintsts s) → ⊥
    unfolding handle_irq
    no_interrupt i k p = elim p [
      | inl q ↦ cc q
      | inr q ↦
          let c : Calls call_one s.irq_handlers (irq_mask_of reads s) (irq_cause_of ppcintsts s)
              irq_count 0 (call_interrupt i k) =
            dispatch-Calls call_one s.irq_handlers (irq_mask_of reads s) (irq_cause_of ppcintsts s)
              (call_interrupt i k) irq_count 0 q in
          elim c.event [ inl e ↦ cc e | inr e ↦ e ]
    ]

  -- A pending cause that goes on to the IRQs.
  abbrev pub ReachesIrqs : ℕ → Exceptions → Type 0
  ReachesIrqs intsr s =
      (i : ℕ) × (i < 32) × IsEnabled s.intmr intsr i × (s.interrupt_handlers i ≡ some irq_layer)

  pub record IsInterrupt (intsr : ℕ) (s : Exceptions) (i h : ℕ) : Type 0 where
    pub below : i < 32
    pub enabled : IsEnabled s.intmr intsr i
    pub registered : s.interrupt_handlers i ≡ some (routine h)

  module _ (intsr ppcintsts cr lr srr0 srr1 xer : ℕ) (s : Exceptions) where
    abbrev events : List Event
    events = (handle_external_interrupt reads intsr ppcintsts cr lr srr0 srr1 xer s).0

    abbrev CallsIn : Event → Type 0
    CallsIn =
        Calls (call_handler reads ppcintsts s) s.interrupt_handlers s.intmr intsr int_cause_count 0

    inside : (e : Event) → CallsIn e → Occurs e events
    unfolding handle_external_interrupt
    inside e c = inr (
        Occurs-left e _ _ (
          Calls-dispatch (call_handler reads ppcintsts s) s.interrupt_handlers s.intmr intsr e
            int_cause_count 0 c))

    outside :
        (e : Event)
        → write_intsr (unhandled intsr s.intmr) ≢ e
        → (Occurs e (move_srr0 srr0 ∷ move_srr1 srr1 ∷ move_xer xer ∷ []) → ⊥)
        → Occurs e events
        → CallsIn e
    unfolding handle_external_interrupt
    outside e first last (inl q) = absurd (first q)
    outside e first last (inr q) =
        elim (Occurs-append e
          (dispatch (call_handler reads ppcintsts s) s.interrupt_handlers s.intmr intsr
            int_cause_count 0)
          _ q) [
            | inl d ↦
                dispatch-Calls (call_handler reads ppcintsts s) s.interrupt_handlers s.intmr intsr e
                  int_cause_count 0 d
            | inr m ↦ absurd (last m)
          ]

    by-IsInterrupt :
        (i h j : ℕ) (o : Handler)
        → s.interrupt_handlers j ≡ some o
        → j < 32
        → IsEnabled s.intmr intsr j
        → Occurs (call_interrupt i h) (call_handler reads ppcintsts s j o)
        → IsInterrupt intsr s i h
    by-IsInterrupt i h j irq_layer r lt en p = absurd (no_interrupt ppcintsts i h s i h p)
    by-IsInterrupt i h j (routine k) r lt en (inr q) = absurd q
    by-IsInterrupt i h j (routine k) r lt en (inl q) =
        let e : j ≡ i = cc q in
        let f : k ≡ h = cc q in
        record {
          below = omega (arith, e);
          enabled = subst (λ x. IsEnabled s.intmr intsr x) e en;
          registered = ap s.interrupt_handlers (sym e) ∙ r ∙ ap (λ x. some (routine x)) f;
        }

    by-IsIrq :
        (t h j : ℕ) (o : Handler)
        → s.interrupt_handlers j ≡ some o
        → j < 32
        → IsEnabled s.intmr intsr j
        → Occurs (call_irq t h) (call_handler reads ppcintsts s j o)
        → ReachesIrqs intsr s × IsIrq ppcintsts s t h
    by-IsIrq t h j irq_layer r lt en p = ((j, lt, en, r), (handle_irq-calls ppcintsts t h s).0 p)
    by-IsIrq t h j (routine k) r lt en (inr q) = absurd q
    by-IsIrq t h j (routine k) r lt en (inl q) = absurd (cc q)

    -- A routine is called exactly if it is registered for a cause below 32 that is pending and
    -- enabled: directly as a handler of an external interrupt, or behind `handleIrq` as the handler of
    -- an IRQ, where such a cause has `handleIrq` as its handler and the IRQ is pending and enabled.
    pub handle_external_interrupt_lem :
        (i h : ℕ)
        → (Occurs
              (call_interrupt i h)
              (handle_external_interrupt reads intsr ppcintsts cr lr srr0 srr1 xer s).0
            ↔ IsInterrupt intsr s i h)
          × (Occurs
                (call_irq i h)
                (handle_external_interrupt reads intsr ppcintsts cr lr srr0 srr1 xer s).0
              ↔ (ReachesIrqs intsr s × IsIrq ppcintsts s i h))
    handle_external_interrupt_lem i h = (
      (
        λ p.
            let c : CallsIn (call_interrupt i h) =
              outside _ (λ q. cc q) (λ q. no_moves_interrupt q) p in
            by-IsInterrupt i h c.index c.handler c.registered (omega (arith, c.to)) c.enabled
              c.event,
        λ p. inside _ (record {
          index = i;
          handler = routine h;
          from = omega arith;
          to = omega (arith, p.below);
          enabled = p.enabled;
          registered = p.registered;
          event = inl refl;
        }),
      ),
      (
        λ p.
            let c : CallsIn (call_irq i h) = outside _ (λ q. cc q) (λ q. no_moves_irq q) p in
            by-IsIrq i h c.index c.handler c.registered (omega (arith, c.to)) c.enabled c.event,
        λ p. inside _ (record {
          index = p.0.0;
          handler = irq_layer;
          from = omega arith;
          to = omega (arith, p.0.1);
          enabled = p.0.2;
          registered = p.0.3;
          event = (handle_irq-calls ppcintsts i h s).1 p.1;
        }),
      ),
    )
      where
        no_moves_interrupt :
            Occurs (call_interrupt i h) (move_srr0 srr0 ∷ move_srr1 srr1 ∷ move_xer xer ∷ []) → ⊥
        no_moves_interrupt (inl q) = cc q
        no_moves_interrupt (inr (inl q)) = cc q
        no_moves_interrupt (inr (inr (inl q))) = cc q
        no_moves_interrupt (inr (inr (inr q))) = q

        no_moves_irq :
            Occurs (call_irq i h) (move_srr0 srr0 ∷ move_srr1 srr1 ∷ move_xer xer ∷ []) → ⊥
        no_moves_irq (inl q) = cc q
        no_moves_irq (inr (inl q)) = cc q
        no_moves_irq (inr (inr (inl q))) = cc q
        no_moves_irq (inr (inr (inr q))) = q
