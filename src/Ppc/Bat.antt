-- ===== src/Ppc/Bat.antt =====
-- peli/ppc/Bat.hpp: the configuration of block address translation. A number is 32 bits wide.
pub mod Floor
pub mod Powers
pub mod Adjust
pub mod Block
pub mod Split
pub mod Mem1
pub mod Mem2
pub mod Mapped
pub mod Move
mod Tests
use libpeli.Base.{
  true, ℕ, zero, suc, ◌+◌, ◌-◌, ◌*◌, ◌/◌, ◌%◌, ◌^◌, bit_and, bit_or, Bool, ◌&&◌, ◌||◌, leb, ◌==◌,
  if◌then◌else◌,
}
use libpeli.Base.Word.{u16, add32, sub32}

abbrev pub address_shift : ℕ
address_shift = 17

abbrev pub min_size : ℕ
min_size = 0x20000

pub record BatUp : Type 0 where
  pub bepi : ℕ
  pub resv15 : ℕ
  pub bl : ℕ
  pub vs : ℕ
  pub vp : ℕ

pub record BatLo : Type 0 where
  pub brpn : ℕ
  pub resv15 : ℕ
  pub wimg : ℕ
  pub resv29 : ℕ
  pub pp : ℕ

pub record BatBits : Type 0 where
  pub up : BatUp
  pub lo : BatLo

-- What the initialisers leave out is 0.
abbrev pub bat : ℕ → ℕ → ℕ → ℕ → BatBits
bat bepi bl brpn wimg = record {
  up = record { bepi = bepi; resv15 = 0; bl = bl; vs = 1; vp = 1 };
  lo = record { brpn = brpn; resv15 = 0; wimg = wimg; resv29 = 0; pp = 2 };
}

abbrev pub no_bat : BatBits
no_bat = record {
  up = record { bepi = 0; resv15 = 0; bl = 0; vs = 0; vp = 0 };
  lo = record { brpn = 0; resv15 = 0; wimg = 0; resv29 = 0; pp = 0 };
}

-- `__builtin_clz`: the zeros above the highest bit of a number of `width` bits.
pub clz : ℕ → ℕ → ℕ
clz zero value = 0
clz (suc width) value = if leb (2 ^ width) value then 0 else suc (clz width value)

pub bit_floor : ℕ → ℕ
unfolding clz
bit_floor value = if value == 0 then 0 else 2 ^ (31 - clz 32 value)

pub bit_ceil : ℕ → ℕ
unfolding clz
bit_ceil value = if value == 0 || value == 1 then 1 else 2 ^ (32 - clz 32 (value - 1)) % 2 ^ 32

-- `if (floored != 0) corrected += last_bit`
abbrev pub rounded : ℕ → ℕ → ℕ → ℕ
rounded corrected last_bit floored = if floored == 0 then corrected else add32 corrected last_bit

-- The loop of `adjust_block_size`; the number matched is `count - i`.
pub adjust_from : ℕ → ℕ → ℕ → ℕ → ℕ
adjust_from size zero corrected last_bit =
    rounded corrected last_bit (bit_floor (bit_and size (sub32 last_bit 1)))
adjust_from size (suc left) corrected last_bit =
    let floored = bit_floor (bit_and size (sub32 last_bit 1)) in
    let rest = adjust_from size left (bit_or corrected floored) floored in
    if leb min_size floored then rest else rounded corrected last_bit floored

pub adjust_block_size : ℕ → ℕ → ℕ
unfolding adjust_from
adjust_block_size size count = adjust_from size count 0 0

pub record BatConfig : Type 0 where
  pub ibat : ℕ → BatBits
  pub dbat : ℕ → BatBits

abbrev pub no_config : BatConfig
no_config = record { ibat = λ _. no_bat; dbat = λ _. no_bat }

abbrev pub with_bat : ℕ → BatBits → (ℕ → BatBits) → ℕ → BatBits
with_bat index bits bats i = if i == index then bits else bats i

abbrev pub set_dbat : ℕ → BatBits → BatConfig → BatConfig
set_dbat index bits c = record c { dbat = with_bat index bits c.dbat }

-- `if (allowed) m_ibat[index] = m_dbat[index]`
abbrev pub copy_ibat : Bool → ℕ → BatConfig → BatConfig
copy_ibat allowed index c = record c {
  ibat = if allowed then with_bat index (c.dbat index) c.ibat else c.ibat;
}

-- `((block_size - 1) >> AddressShift) & 0x7FF`
abbrev pub length_field : ℕ → ℕ
length_field block_size = bit_and (sub32 block_size 1 / 2 ^ address_shift) 0x7ff

-- `u16(address >> AddressShift) & 0x7FFF`
abbrev pub page_field : ℕ → ℕ
page_field address = bit_and (u16 (address / 2 ^ address_shift)) 0x7fff

-- A cached block `block_address` behind the start of a memory.
pub more_cached : ℕ → ℕ → ℕ → ℕ → BatBits
more_cached effective physical block_address block_size =
    bat (page_field (add32 effective block_address)) (length_field block_size)
      (page_field (add32 physical block_address)) 0

pub mem1_cached : ℕ → BatBits
mem1_cached block_size =
    bat (0x80000000 / 2 ^ address_shift) (length_field block_size) (0 / 2 ^ address_shift) 0

pub mem1_uncached : BatBits
mem1_uncached =
    bat (0xc0000000 / 2 ^ address_shift) (0x0fffffff / 2 ^ address_shift) (0 / 2 ^ address_shift) 5

-- BAT4 and BAT5 cast the length to `u16` first.
pub mem2_block : ℕ → ℕ → ℕ → BatBits
mem2_block effective block_size wimg =
    bat (effective / 2 ^ address_shift)
      (bit_and (u16 (sub32 block_size 1 / 2 ^ address_shift)) 0x7ff)
      (0x10000000 / 2 ^ address_shift) wimg

-- `bit_floor(size & (block_size - 1))`
abbrev pub next_block : ℕ → ℕ → ℕ
next_block size block_size = bit_floor (bit_and size (sub32 block_size 1))

-- The blocks of MEM1 of an adjusted size.
pub map_mem1 : ℕ → Bool → BatConfig → BatConfig
map_mem1 size allow_exec_in_uncached c =
    let block_size = bit_floor size in
    let next = next_block size block_size in
    let first = copy_ibat true 0 (set_dbat 0 (mem1_cached block_size) c) in
    let two = copy_ibat allow_exec_in_uncached 1 (set_dbat 1 mem1_uncached first) in
    if leb min_size next
    then copy_ibat true 2 (set_dbat 2 (more_cached 0x80000000 0 block_size next) two)
    else two

-- A further block of MEM2.
abbrev pub more_mem2 : ℕ → ℕ → ℕ → Bool → BatConfig → BatConfig
more_mem2 index block_address block_size allow_exec_in_mem2 c =
    copy_ibat allow_exec_in_mem2 index
      (set_dbat index (more_cached 0x90000000 0x10000000 block_address block_size) c)

-- The blocks of MEM2 of an adjusted size.
pub map_mem2 : ℕ → Bool → Bool → BatConfig → BatConfig
map_mem2 size allow_exec_in_mem2 allow_exec_in_uncached c =
    let block_size = bit_floor size in
    let second = next_block size block_size in
    let third = next_block size second in
    let first =
      copy_ibat allow_exec_in_mem2 4 (set_dbat 4 (mem2_block 0x90000000 block_size 0) c) in
    let two =
      copy_ibat (allow_exec_in_uncached && allow_exec_in_mem2) 5
        (set_dbat 5 (mem2_block 0xd0000000 (bit_ceil size) 5) first) in
    let three = more_mem2 6 block_size second allow_exec_in_mem2 two in
    if leb min_size second
    then if leb min_size third
      then more_mem2 7 (bit_or block_size second) third allow_exec_in_mem2 three
      else three
    else two

-- `BatConfig::BatConfig`; `locked_cache` is not used.
pub config : ℕ → ℕ → Bool → Bool → Bool → BatConfig
config mem1_size mem2_size locked_cache allow_exec_in_mem2 allow_exec_in_uncached =
    let mem1 =
      if leb min_size mem1_size
      then map_mem1 (adjust_block_size mem1_size 2) allow_exec_in_uncached no_config
      else no_config in
    if leb min_size mem2_size
    then map_mem2 (adjust_block_size mem2_size 3) allow_exec_in_mem2 allow_exec_in_uncached mem1
    else mem1
