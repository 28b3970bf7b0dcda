-- ===== src/Rt/Exceptions/Trace.antt =====
-- peli/rt/Exceptions.cpp: what the default error handler prints of the stack. The memory is words by
-- address; the loop runs on fuel, and `none` means that it went on past it.
use libpeli.Base.{
  ℕ, zero, suc, ◌+◌, ◌-◌, ◌<◌, ◌≤◌, ◌≡◌, ◌⊎◌, inl, inr, refl, ap, ◌∙◌, Bool, true, false, not, ◌&&◌,
  ◌||◌, leb, ◌==◌, List, [], ◌∷◌, Option, none, some, if◌then◌else◌, arith,
}

unfoldable pub check_stack_addr : ℕ → Option ℕ
check_stack_addr addr =
    if (leb 0x80003f00 addr && leb addr 0x817ffff8) || (leb 0x90000020 addr && leb addr 0x935ffff8)
    then some addr
    else none

-- A printed line: the address, the back chain and the saved LR.
pub record Frame : Type 0 where
  pub address : ℕ
  pub chain : ℕ
  pub lr_save : ℕ

abbrev pub frame_at : (ℕ → ℕ) → ℕ → Frame
frame_at mem a = record { address = a; chain = mem a; lr_save = mem (a + 4) }

abbrev pub cons_frame : Frame → Option (List Frame) → Option (List Frame)
cons_frame f none = none
cons_frame f (some fs) = some (f ∷ fs)

-- The loop over the frames.
pub back_trace : ℕ → (ℕ → ℕ) → Option ℕ → Option (List Frame)
back_trace fuel mem none = some []
back_trace zero mem (some a) = none
back_trace (suc fuel) mem (some a) =
    cons_frame (frame_at mem a) (back_trace fuel mem (check_stack_addr (mem a)))

-- `stack == nullptr || stack[1] != lr`
abbrev pub is_elsewhere : (ℕ → ℕ) → ℕ → Option ℕ → Bool
is_elsewhere mem lr none = true
is_elsewhere mem lr (some a) = not (mem (a + 4) == lr)

abbrev pub next_frame : (ℕ → ℕ) → Option ℕ → Option ℕ
next_frame mem none = none
next_frame mem (some a) = check_stack_addr (mem a)

-- Whether the LR gets a line of its own.
pub prints_lr : (ℕ → ℕ) → ℕ → ℕ → Bool
prints_lr mem sp lr =
    let stack = check_stack_addr sp in
    is_elsewhere mem lr stack && is_elsewhere mem lr (next_frame mem stack)

-- A line of the LR.
abbrev pub Saves : ℕ → List Frame → Type 0
Saves lr [] = ⊥
Saves lr (f ∷ fs) = (f.lr_save ≡ lr) ⊎ Saves lr fs

-- The frames that the chain from the stack pointer leads to.
pub data OnChain (mem : ℕ → ℕ) (sp : ℕ) : ℕ → Type 0 where
  first : (a : ℕ) → check_stack_addr sp ≡ some a → OnChain mem sp a
  next : {a : ℕ} (b : ℕ) → OnChain mem sp a → check_stack_addr (mem a) ≡ some b → OnChain mem sp b

-- From a frame the chain leaves the stack, or goes up.
abbrev pub GoesUp : (ℕ → ℕ) → ℕ → Type 0
GoesUp mem a = (check_stack_addr (mem a) ≡ none) ⊎ (a < mem a)

check_stack_addr-bounds : (a b : ℕ) → check_stack_addr a ≡ some b → (b ≡ a) × (a < 0x93600000)
unfolding check_stack_addr
check_stack_addr-bounds a b e = ground arith

-- Fuel for the addresses above the frame.
abbrev HasFuel : ℕ → Option ℕ → Type 0
HasFuel fuel none = Unit
HasFuel fuel (some a) = (check_stack_addr a ≡ some a) × (a < 0x93600000) × (0x93600000 ≤ a + fuel)

checked-HasFuel : (fuel a : ℕ) → 0x93600000 ≤ a + fuel → HasFuel fuel (check_stack_addr a)
checked-HasFuel fuel a h = from_answer (check_stack_addr a) refl
  where
    from_answer : (o : Option ℕ) → check_stack_addr a ≡ o → HasFuel fuel o
    from_answer none e = tt
    from_answer (some b) e =
        let (eq, lt) = check_stack_addr-bounds a b e in
        (ap check_stack_addr eq ∙ e, omega (arith, eq), omega (arith, eq))

next-HasFuel :
    (fuel : ℕ) (mem : ℕ → ℕ) (a : ℕ)
    → GoesUp mem a
    → HasFuel (suc fuel) (some a)
    → HasFuel fuel (check_stack_addr (mem a))
next-HasFuel fuel mem a (inl left) h = rw left tt
next-HasFuel fuel mem a (inr up) h = checked-HasFuel fuel (mem a) (omega (arith, h.2))

back_trace-ends :
    (fuel : ℕ) (mem : ℕ → ℕ) (sp : ℕ) (stack : Option ℕ)
    → ((a : ℕ) → OnChain mem sp a → GoesUp mem a)
    → ((a : ℕ) → stack ≡ some a → OnChain mem sp a)
    → HasFuel fuel stack
    → (frames : List Frame) × (back_trace fuel mem stack ≡ some frames)
unfolding back_trace
back_trace-ends fuel mem sp none up on h = ([], refl)
back_trace-ends zero mem sp (some a) up on h = absurd (omega (arith, h.1, h.2))
back_trace-ends (suc fuel) mem sp (some a) up on h =
    let here : OnChain mem sp a = on a refl in
    let (frames, e) =
      back_trace-ends fuel mem sp (check_stack_addr (mem a)) up (λ b. next b here)
        (next-HasFuel fuel mem a (up a here) h) in
    (frame_at mem a ∷ frames, ap (cons_frame (frame_at mem a)) e)

rest_of :
    (f : Frame) (o : Option (List Frame)) (frames : List Frame)
    → cons_frame f o ≡ some frames
    → (rest : List Frame) × (o ≡ some rest) × (frames ≡ f ∷ rest)
rest_of f none frames e = cc e
rest_of f (some rest) frames e = (rest, refl, cc e)

first-Saves :
    (fuel : ℕ) (mem : ℕ → ℕ) (lr : ℕ) (stack : Option ℕ) (frames : List Frame)
    → back_trace fuel mem stack ≡ some frames
    → is_elsewhere mem lr stack ≡ false
    → Saves lr frames
unfolding back_trace
first-Saves fuel mem lr none frames e h = cc h
first-Saves zero mem lr (some a) frames e h = cc e
first-Saves (suc fuel) mem lr (some a) frames e h =
    let (rest, _, f) =
      rest_of (frame_at mem a) (back_trace fuel mem (check_stack_addr (mem a))) frames e in
    rw f (inl (ground arith))

second-Saves :
    (fuel : ℕ) (mem : ℕ → ℕ) (lr : ℕ) (stack : Option ℕ) (frames : List Frame)
    → back_trace fuel mem stack ≡ some frames
    → is_elsewhere mem lr (next_frame mem stack) ≡ false
    → Saves lr frames
unfolding back_trace
second-Saves fuel mem lr none frames e h = cc h
second-Saves zero mem lr (some a) frames e h = cc e
second-Saves (suc fuel) mem lr (some a) frames e h =
    let (rest, g, f) =
      rest_of (frame_at mem a) (back_trace fuel mem (check_stack_addr (mem a))) frames e in
    rw f (inr (first-Saves fuel mem lr (check_stack_addr (mem a)) rest g h))

shows_lr :
    (x y : Bool) (lr : ℕ) (frames : List Frame)
    → (x ≡ false → Saves lr frames)
    → (y ≡ false → Saves lr frames)
    → ((x && y) ≡ true) ⊎ Saves lr frames
shows_lr true true lr frames f g = inl refl
shows_lr true false lr frames f g = inr (g refl)
shows_lr false y lr frames f g = inr (f refl)

-- If from each frame that the stack pointer leads to the chain goes up or leaves the stack, the trace
-- ends within a round for each address above the stack pointer, and the LR is shown: on a line of its
-- own or by a frame.
pub back_trace-shows :
    (mem : ℕ → ℕ) (sp lr : ℕ)
    → ((a : ℕ) → OnChain mem sp a → GoesUp mem a)
    → (frames : List Frame) × (back_trace (0x93600000 - sp) mem (check_stack_addr sp) ≡ some frames)
      × ((prints_lr mem sp lr ≡ true) ⊎ Saves lr frames)
unfolding prints_lr
back_trace-shows mem sp lr up =
    let stack : Option ℕ = check_stack_addr sp in
    let (frames, e) =
      back_trace-ends (0x93600000 - sp) mem sp stack up first
        (checked-HasFuel (0x93600000 - sp) sp (omega arith)) in
    (
      frames,
      e,
      shows_lr (is_elsewhere mem lr stack) (is_elsewhere mem lr (next_frame mem stack)) lr frames
          (first-Saves (0x93600000 - sp) mem lr stack frames e)
          (second-Saves (0x93600000 - sp) mem lr stack frames e),
    )

-- A frame that is its own back chain keeps the handler in the loop.
pub back_trace-cycles :
    (fuel : ℕ) (mem : ℕ → ℕ) (a : ℕ)
    → check_stack_addr a ≡ some a
    → mem a ≡ a
    → back_trace fuel mem (some a) ≡ none
unfolding back_trace
back_trace-cycles zero mem a valid self = refl
back_trace-cycles (suc fuel) mem a valid self =
    rw (self, valid) (rw (back_trace-cycles fuel mem a valid self) refl)
