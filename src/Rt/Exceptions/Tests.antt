-- ===== src/Rt/Exceptions/Tests.antt =====
-- The theorems of the exceptions at concrete registers.
use libpeli.Base.{
  ◌+◌, ◌*◌, true, List, ◌-◌, ◌⊎◌, inl, inr, ◌==◌, if◌then◌else◌, ℕ, ◌≡◌, ◌↔◌, ◌^◌, refl, false,
  none, some, arith,
}
use libpeli.Rt.Exceptions.{
  Exceptions, routine, call_irq, call_interrupt, init_interrupts, set_irq_handler,
  set_interrupt_event_handler, handle_external_interrupt,
}
use libpeli.Rt.Exceptions.Vector.{
  get_exception_vector_address, write_function_to_vector, ends, patched,
  write_function_to_vector_lem,
}
use libpeli.Rt.Exceptions.Trace.{
  Frame, back_trace, check_stack_addr, prints_lr, Saves, back_trace-shows, OnChain, first, next,
  GoesUp,
}
use libpeli.Rt.Exceptions.Pending.{Occurs}
use libpeli.Rt.Exceptions.Routed.{IsInterrupt, ReachesIrqs, IsIrq, handle_external_interrupt_lem}
use libpeli.Rt.Exceptions.Reach.{
  Reached, start, interrupt, irq, IsServed, Reached-IsServed, irq-reaches,
}

abbrev reset : Exceptions
reset = record {
  interrupt_handlers = λ i. none;
  irq_handlers = λ i. none;
  use_simple_irq = false;
  intmr = 0xffff;
  ppcinten = 0;
}

abbrev reads : ℕ → ℕ
reads x = x

-- The video interrupt and the IRQ of the IPC.
abbrev running : Exceptions
running =
    set_irq_handler reads 30 (some 7)
      (set_interrupt_event_handler 8 (some (routine 5)) (init_interrupts reset))

running-Reached : Reached reads running
running-Reached = irq 30 7 (interrupt 8 5 (omega arith) (start reset))

handle_external_interrupt_lem_example :
    (Occurs
        (call_interrupt 8 5)
        (handle_external_interrupt reads 0x4100 (2 ^ 30) 0 0 0 0 0 running).0
      ↔ IsInterrupt reads 0x4100 running 8 5)
    × (Occurs (call_irq 8 5) (handle_external_interrupt reads 0x4100 (2 ^ 30) 0 0 0 0 0 running).0
        ↔ (ReachesIrqs reads 0x4100 running × IsIrq reads (2 ^ 30) running 8 5))
handle_external_interrupt_lem_example =
    handle_external_interrupt_lem reads 0x4100 (2 ^ 30) 0 0 0 0 0 running 8 5

Reached-IsServed_example :
    IsServed running.interrupt_handlers running.intmr 8
    × IsServed running.irq_handlers running.ppcinten 8
Reached-IsServed_example = Reached-IsServed reads running 8 (λ x i. omega arith) running-Reached

irq-reaches_example :
    (h : ℕ) × (running.irq_handlers 30 ≡ some h)
    × Occurs (call_irq 30 h) (handle_external_interrupt reads 0x4100 (2 ^ 30) 0 0 0 0 0 running).0
unfolding set_irq_handler init_interrupts
irq-reaches_example =
    irq-reaches reads running 30 0x4100 (2 ^ 30) 0 0 0 0 0 (λ x i. omega arith) running-Reached refl
      refl (omega arith) refl refl

-- A function of two words, the first of which takes the type.
abbrev two_words : ℕ → ℕ
two_words i = if i == 0 then 0x3860dead else if i == 1 then 0x4e800020 else 0

write_function_to_vector_lem_example :
    (write_function_to_vector 2 two_words (λ a. a) (0x80000300 + 4 * 0)
      ≡ (if ends two_words 1 0 then 0 else patched 2 (two_words 0)))
    × (write_function_to_vector 2 two_words (λ a. a) (0x80000500 + 4 * 0) ≡ 0x80000500 + 4 * 0)
unfolding get_exception_vector_address
write_function_to_vector_lem_example =
    write_function_to_vector_lem 2 0x80000300 two_words (λ a. a) 0 4 0x80000500 refl (omega arith)
      (omega arith) refl

-- Two frames, the first with the LR of its caller; a pointer elsewhere in memory leads down.
abbrev stack : ℕ → ℕ
stack a =
    if a == 0x80100000
    then 0x80100020
    else if a == 0x80100024
    then 0x81700000
    else if a == 0x80200000
    then 0x80100000
    else 0

two_frames : (a : ℕ) → OnChain stack 0x80100000 a → (a ≡ 0x80100000) ⊎ (a ≡ 0x80100020)
unfolding check_stack_addr
two_frames a (first a' e) = inl (ground (arith, e))
two_frames b (next {a = a} b' c e) = elim (two_frames a c) [
  | inl p ↦ inr (ground (arith, p, e))
  | inr p ↦ absurd (ground (arith, p, e))
]

stack-GoesUp : (a : ℕ) → OnChain stack 0x80100000 a → GoesUp stack a
unfolding check_stack_addr
stack-GoesUp a c = elim (two_frames a c) [
  | inl p ↦ inr (ground (arith, p))
  | inr p ↦ inl (ground (arith, p))
]

back_trace-shows_example :
    (frames : List Frame) × (back_trace
        (0x93600000 - 0x80100000)
        stack
        (check_stack_addr 0x80100000)
      ≡ some frames)
    × ((prints_lr stack 0x80100000 0x81700000 ≡ true) ⊎ Saves 0x81700000 frames)
back_trace-shows_example = back_trace-shows stack 0x80100000 0x81700000 stack-GoesUp
