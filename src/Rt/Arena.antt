-- ===== src/Rt/Arena.antt =====
-- peli/rt/Arena.cpp: the two memory arenas and the heap break. Addresses and sizes are 32 bits
-- wide. The bounds that the linker script gives are the arena that `reset` is handed.
pub mod Region
pub mod Trace
pub mod Sbrk
mod Tests
use libpeli.Base.{ℕ, Option, none, some, ◌==◌, ltb, leb, if◌then◌else◌, ◌^◌, ◌-◌}
use libpeli.Base.Word.{add32, sub32}
use libpeli.Util.Address.{align_up, align_down}

pub record Arena : Type 0 where
  pub mem1_start : ℕ
  pub mem1_end : ℕ
  pub mem2_start : ℕ
  pub mem2_end : ℕ

pub reset : Arena → Arena → Arena
reset linked a = record a {
  mem1_start = linked.mem1_start;
  mem1_end = linked.mem1_end;
  mem2_start = linked.mem2_start;
  mem2_end = linked.mem2_end;
}

pub alloc_from_mem1_lo : Arena → ℕ → ℕ → Option ℕ × Arena
alloc_from_mem1_lo a size align =
    let ptr = align_up align a.mem1_start in
    let end = add32 ptr size in
    if ltb a.mem1_end end then (none, a) else (some ptr, record a { mem1_start = end })

pub alloc_from_mem1_hi : Arena → ℕ → ℕ → Option ℕ × Arena
alloc_from_mem1_hi a size align =
    let ptr = align_down align (sub32 a.mem1_end size) in
    if ltb ptr a.mem1_start then (none, a) else (some ptr, record a { mem1_end = ptr })

pub alloc_from_mem2_lo : Arena → ℕ → ℕ → Option ℕ × Arena
alloc_from_mem2_lo a size align =
    let ptr = align_up align a.mem2_start in
    let end = add32 ptr size in
    if ltb a.mem2_end end then (none, a) else (some ptr, record a { mem2_start = end })

pub alloc_from_mem2_hi : Arena → ℕ → ℕ → Option ℕ × Arena
alloc_from_mem2_hi a size align =
    let ptr = align_down align (sub32 a.mem2_end size) in
    if ltb ptr a.mem2_start then (none, a) else (some ptr, record a { mem2_end = ptr })

pub sbrk_alloc : Arena → ℕ → Option ℕ × Arena
sbrk_alloc a size =
    if leb (add32 a.mem1_start size) a.mem1_end
    then (some a.mem1_start, record a { mem1_start = add32 a.mem1_start size })
    else if leb (add32 a.mem2_start size) a.mem2_end
    then (some a.mem2_start, record a { mem2_start = add32 a.mem2_start size })
    else (none, a)

pub sbrk_free : Arena → ℕ → ℕ × Arena
sbrk_free a size = let start = sub32 a.mem1_start size in (start, record a { mem1_start = start })

-- The errors that `_sbrk_r` stores through `r`.
pub data Errno : Type 0 where
  einval enomem : Errno

-- `reinterpret_cast<void *>(-1)`
abbrev pub failed : ℕ
failed = 2 ^ 32 - 1

-- The two endings of `_sbrk_r` after the call: an address 0 is null, and so is `none`.
abbrev pub freed : ℕ × Arena → (Option Errno × ℕ) × Arena
freed (ptr, a) = if ptr == 0 then ((some enomem, failed), a) else ((none, ptr), a)

abbrev pub taken : Option ℕ × Arena → (Option Errno × ℕ) × Arena
taken (none, a) = ((some enomem, failed), a)
taken (some ptr, a) = ((none, ptr), a)

-- `size` is the bit pattern of a `ptrdiff_t`.
pub sbrk_r : Arena → ℕ → (Option Errno × ℕ) × Arena
sbrk_r a size =
    if size == 0
    then ((some einval, 0), a)
    else if leb (2 ^ 31) size
    then freed (sbrk_free a (sub32 0 size))
    else taken (sbrk_alloc a size)
