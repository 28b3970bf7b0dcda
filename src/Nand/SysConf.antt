-- ===== src/Nand/SysConf.antt =====
-- peli/nand/conf/SysConf.cpp and peli/nand/conf/SysConf.hpp: the reader of the system
-- configuration. The data is a function of the offset, big endian; a read past its end is `none`.
-- A key is the list of its bytes, without the terminator.
pub mod Match
pub mod Find
pub mod Bounds
pub mod Lock
pub mod Get
pub mod GetData
pub mod GetIndex
mod Tests
use libpeli.Base.{
  ℕ, zero, suc, ◌+◌, ◌-◌, ◌*◌, ◌/◌, ◌%◌, ◌^◌, bit_and, Bool, true, false, not, ◌&&◌, ◌||◌, List, [],
  ◌∷◌, Option, none, some, length, ◌==◌, ltb, leb, if◌then◌else◌, ◌>>=◌,
}
use libpeli.Base.Word.{u16}
use libpeli.Util.Address.{is_aligned}

abbrev pub size : ℕ
size = 0x4000

abbrev pub lookup_table_offset : ℕ
lookup_table_offset = size - 0x52

abbrev pub lookup_table_count : ℕ
lookup_table_count = 49

abbrev pub Data : Type 0
Data = ℕ → ℕ

pub read8 : Data → ℕ → Option ℕ
read8 d offset = if ltb offset size then some (d offset) else none

pub read16 : Data → ℕ → Option ℕ
unfolding read8
read16 d offset = do high ← read8 d offset; low ← read8 d (offset + 1); some (high * 256 + low)

pub get_count : Data → Option ℕ
get_count d = read16 d 4

pub get_header_size : Data → Option ℕ
unfolding get_count
get_header_size d = do count ← get_count d; some (8 + count * 2)

pub get_entry_key_length : Data → ℕ → Option ℕ
get_entry_key_length d offset = do
  type_len ← read8 d offset
  some (bit_and type_len (2 ^ 5 - 1) + 1)

abbrev pub get_entry_data_offset : ℕ → ℕ → ℕ
get_entry_data_offset offset key_length = offset + 1 + key_length

abbrev pub test_entry_length : ℕ → ℕ → ℕ → Bool
test_entry_length offset key_length data_length =
    leb (get_entry_data_offset offset key_length + data_length) lookup_table_offset

-- `MemoryEqual` of the data from `offset` and the whole key.
pub memory_equal : Data → ℕ → List ℕ → Option Bool
memory_equal d offset [] = some true
memory_equal d offset (c ∷ cs) =
    let rest = memory_equal d (suc offset) cs in
    (do b ← read8 d offset; (if b == c then rest else some false))

pub get_entry_offset : Data → ℕ → Option ℕ
get_entry_offset d index = do
  offset ← read16 d (6 + index * 2)
  header_size ← get_header_size d
  some (if ltb offset header_size || not (test_entry_length offset 1 1) then 0 else offset)

-- The tests on one entry, as in the loop of `findEntryOffset`.
pub matches : Data → List ℕ → ℕ → Option Bool
matches d key offset = do
  key_length ← get_entry_key_length d offset
  (if (key_length == length key) && test_entry_length offset key_length 1
      then memory_equal d (offset + 1) key
      else some false)

-- The first part of `findEntryOffset`, by the lookup table; `none` inside where it goes on to the
-- loop.
pub find_by_lookup : Data → List ℕ → ℕ → Option (Option ℕ)
find_by_lookup d key lookup =
    if ltb lookup lookup_table_count
    then (do
      entry_offset ← read16 d (size - 6 - lookup * 2)
      header_size ← get_header_size d
      (if leb 6 entry_offset && ltb entry_offset header_size && is_aligned 2 entry_offset
          then (do
            offset ← read16 d entry_offset
            (if leb header_size offset && test_entry_length offset 1 1
                then (do found ← matches d key offset; some (if found then some offset else none))
                else some none))
          else some none))
    else some none

-- The loop from `index` on, for `left` more entries.
pub find_from : Data → List ℕ → ℕ → ℕ → Option ℕ
find_from d key index zero = some 0
find_from d key index (suc left) =
    let rest = find_from d key (suc index) left in
    (do
      offset ← get_entry_offset d index
      found ← matches d key offset
      (if found then some offset else rest))

pub find_entry_offset : Data → List ℕ → ℕ → Option ℕ
find_entry_offset d key lookup = if length key == 0 then some 0 else (do
  by_lookup ← find_by_lookup d key lookup
  elim by_lookup [
    | some offset ↦ some offset
    | none ↦ do count ← get_count d; find_from d key 0 count
  ])

pub data EntryType : Type 0 where
  no_entry big_array small_array byte short long long_long bool : EntryType

abbrev pub type_of : ℕ → EntryType
type_of n =
    if n == 0
    then no_entry
    else if n == 1
    then big_array
    else if n == 2
    then small_array
    else if n == 3
    then byte
    else if n == 4
    then short
    else if n == 5
    then long
    else if n == 6
    then long_long
    else bool

-- The type, the offset and the size of the data, and the length of the key after `offset + 1`.
pub record Entry : Type 0 where
  pub type : EntryType
  pub data_offset : ℕ
  pub data_size : ℕ
  pub key_length : ℕ

-- The end of `getEntry`; `none` inside is `EntryType::None`.
abbrev pub checked : EntryType → ℕ → ℕ → ℕ → ℕ → Option (Option Entry)
checked type offset key_length data_offset data_size =
    if test_entry_length offset key_length data_size
    then some (
        some (record {
          type = type;
          data_offset = data_offset;
          data_size = data_size;
          key_length = key_length;
        }))
    else some none

-- The case of `SmallArray`, which `BigArray` falls through to with the high byte as `array_size`.
pub array_entry : EntryType → Data → ℕ → ℕ → ℕ → ℕ → Option (Option Entry)
array_entry type d offset key_length data_offset array_size =
    if test_entry_length offset key_length 2
    then (do
      low ← read8 d data_offset
      checked type offset key_length (data_offset + 1) (u16 (array_size + low)))
    else some none

-- The switch of `getEntry`.
pub typed_entry : EntryType → Data → ℕ → ℕ → ℕ → Option (Option Entry)
typed_entry no_entry d offset key_length data_offset = some none
typed_entry byte d offset key_length data_offset = checked byte offset key_length data_offset 1
typed_entry bool d offset key_length data_offset = checked bool offset key_length data_offset 1
typed_entry short d offset key_length data_offset = checked short offset key_length data_offset 2
typed_entry long d offset key_length data_offset = checked long offset key_length data_offset 4
typed_entry long_long d offset key_length data_offset =
    checked long_long offset key_length data_offset 8
typed_entry big_array d offset key_length data_offset = do
  high ← read8 d data_offset
  array_entry big_array d offset key_length (data_offset + 1) (u16 (u16 (high * 2) + 1))
typed_entry small_array d offset key_length data_offset =
    array_entry small_array d offset key_length data_offset 1

pub get_entry : Data → ℕ → Option (Option Entry)
get_entry d offset = do
  type_len ← read8 d offset
  key_length ← get_entry_key_length d offset
  typed_entry (type_of (type_len / 2 ^ 5)) d offset key_length
      (get_entry_data_offset offset key_length)
