-- ===== src/Rt/Exceptions.antt =====
-- peli/rt/Exceptions.cpp: the handlers of external interrupts and of the IRQs of IOS behind one of
-- them. A routine is a number; the events are the registers written and the routines called, in
-- order. What PPCINTEN reads when it holds a value is an argument, since an emulator reads 0.
pub mod Pending
pub mod Routed
pub mod Reach
pub mod Vector
pub mod Trace
mod Tests
use libpeli.Base.{
  ℕ, zero, suc, ◌+◌, ◌-◌, ◌^◌, bit_and, bit_or, Bool, true, false, not, leb, ltb, ◌==◌, List, [],
  ◌∷◌, ◌++◌, Option, none, some, if◌then◌else◌,
}

-- `hw::IntCauseCount` and `hw::IrqCount`
abbrev pub int_cause_count : ℕ
int_cause_count = 32

abbrev pub irq_count : ℕ
irq_count = 32

-- `hw::IntCause::Irq`
abbrev pub int_cause_irq : ℕ
int_cause_irq = 14

-- `hw::Irq::IpcPpc`
abbrev pub irq_ipc_ppc : ℕ
irq_ipc_ppc = 30

-- `handleIrq`, or another routine.
pub data Handler : Type 0 where
  irq_layer : Handler
  routine : ℕ → Handler

pub record Exceptions : Type 0 where
  pub interrupt_handlers : ℕ → Option Handler
  pub irq_handlers : ℕ → Option ℕ
  pub use_simple_irq : Bool
  pub intmr : ℕ
  pub ppcinten : ℕ

pub data Event : Type 0 where
  write_intsr write_ppcintsts : ℕ → Event
  call_interrupt call_irq : ℕ → ℕ → Event
  move_srr0 move_srr1 move_xer : ℕ → Event

pub record Context : Type 0 where
  pub cr : ℕ
  pub lr : ℕ

-- `mask & cause & (1 << i)`
abbrev pub is_pending : ℕ → ℕ → ℕ → Bool
is_pending mask cause i = not (bit_and (bit_and mask cause) (2 ^ i) == 0)

-- `cause & ~mask`
abbrev pub unhandled : ℕ → ℕ → ℕ
unhandled cause mask = bit_and cause (2 ^ 32 - 1 - mask)

-- `count` bits from `i` up: what `call` does with the handler of a pending one.
abbrev pub called {ℓ} : {A : Type ℓ} → (ℕ → A → List Event) → ℕ → Option A → List Event
called call i none = []
called call i (some h) = call i h

pub dispatch {ℓ} : {A : Type ℓ} → (ℕ → A → List Event) → (ℕ → Option A) → ℕ → ℕ → ℕ → ℕ → List Event
dispatch call handlers mask cause zero i = []
dispatch call handlers mask cause (suc count) i =
    let rest = dispatch call handlers mask cause count (suc i) in
    if is_pending mask cause i then called call i (handlers i) ++ rest else rest

abbrev pub irq_mask : ℕ
irq_mask = 2 ^ irq_ipc_ppc

abbrev pub call_one : ℕ → ℕ → List Event
call_one i h = call_irq i h ∷ []

-- `handleIrq` after it has its cause and mask.
pub irq_events : ℕ → ℕ → Exceptions → List Event
unfolding dispatch
irq_events cause mask s =
    write_ppcintsts (unhandled cause mask) ∷ dispatch call_one s.irq_handlers mask cause irq_count 0

abbrev pub irq_cause_of : ℕ → Exceptions → ℕ
irq_cause_of ppcintsts s = if s.use_simple_irq then irq_mask else ppcintsts

module _ (ppcinten_reads : ℕ → ℕ) where
  abbrev pub irq_mask_of : Exceptions → ℕ
  irq_mask_of s = if s.use_simple_irq then irq_mask else ppcinten_reads s.ppcinten

  pub handle_irq : ℕ → Exceptions → List Event
  unfolding irq_events
  handle_irq ppcintsts s = irq_events (irq_cause_of ppcintsts s) (irq_mask_of s) s

  abbrev pub call_handler : ℕ → Exceptions → ℕ → Handler → List Event
  call_handler ppcintsts s i irq_layer = handle_irq ppcintsts s
  call_handler ppcintsts s i (routine h) = call_interrupt i h ∷ []

  -- The arguments are what the two cause registers read and what the vector saved.
  pub handle_external_interrupt : ℕ → ℕ → ℕ → ℕ → ℕ → ℕ → ℕ → Exceptions → List Event × Context
  unfolding dispatch handle_irq
  handle_external_interrupt intsr ppcintsts cr lr srr0 srr1 xer s = (
    write_intsr (unhandled intsr s.intmr)
          ∷ dispatch (call_handler ppcintsts s) s.interrupt_handlers s.intmr intsr int_cause_count 0
        ++ (move_srr0 srr0 ∷ move_srr1 srr1 ∷ move_xer xer ∷ []),
    record { cr = cr; lr = lr },
  )

  pub set_irq_handler : ℕ → Option ℕ → Exceptions → Exceptions
  set_irq_handler type handler s =
      let enabled = bit_or (ppcinten_reads s.ppcinten) (2 ^ type) in
      if leb irq_count type then s else record s {
        irq_handlers = λ i. if i == type then handler else s.irq_handlers i;
        ppcinten = enabled;
        use_simple_irq = if ppcinten_reads enabled == 0 then true else s.use_simple_irq;
      }

pub set_interrupt_event_handler : ℕ → Option Handler → Exceptions → Exceptions
set_interrupt_event_handler type handler s = if leb int_cause_count type then s else record s {
  interrupt_handlers = λ i. if i == type then handler else s.interrupt_handlers i;
  intmr = bit_or s.intmr (2 ^ type);
}

-- The end of `Init`: nothing is enabled, and then the layer of the IRQs is registered.
pub init_interrupts : Exceptions → Exceptions
unfolding set_interrupt_event_handler
init_interrupts s =
    set_interrupt_event_handler int_cause_irq (some irq_layer)
      (record s { intmr = 0; ppcinten = 0 })
