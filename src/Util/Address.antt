-- ===== src/Util/Address.antt =====
-- peli/util/Address.hpp. `size_t` and pointers are 32 bits wide; an address is a number.
pub mod Align
pub mod Regions
mod Tests
use libpeli.Base.{ℕ, ◌+◌, ◌-◌, ◌%◌, Bool, ◌&&◌, bit_and, bit_or, ltb, leb, ◌==◌}
use libpeli.Base.Word.{add32, sub32}

-- `raw += align - 1`, then down to a multiple.
unfoldable pub align_up : ℕ → ℕ → ℕ
align_up align num = let raw = add32 num (sub32 align 1) in raw - raw % align

pub align_down : ℕ → ℕ → ℕ
align_down align num = num - num % align

unfoldable pub is_aligned : ℕ → ℕ → Bool
is_aligned align num = num % align == 0

pub check_bounds : ℕ → ℕ → ℕ → ℕ → Bool
check_bounds low bound_len inside len =
    let high = add32 low bound_len in
    let inside_hi = add32 inside len in
    leb low high && leb inside inside_hi && leb low inside && leb inside_hi high

pub in_mem1 : ℕ → Bool
in_mem1 addr = ltb addr 0x01800000

pub in_mem2 : ℕ → Bool
in_mem2 addr = leb 0x10000000 addr && ltb addr 0x14000000

pub in_mem1_effective : ℕ → Bool
in_mem1_effective addr = leb 0x80000000 addr && ltb addr 0x81800000

pub in_mem2_effective : ℕ → Bool
in_mem2_effective addr = leb 0x90000000 addr && ltb addr 0x94000000

-- `~0xC0000000`
abbrev region_mask : ℕ
region_mask = 0x3fffffff

pub effective : ℕ → ℕ
effective addr = bit_or (bit_and addr region_mask) 0x80000000

pub physical : ℕ → ℕ
physical addr = bit_and addr region_mask

pub uncached : ℕ → ℕ
uncached addr = bit_or addr 0xc0000000
