-- ===== src/Nand/SysConf/Bounds.antt =====
-- Where the data of an entry lies, and how large it can be.
use libpeli.Nand.SysConf.{
  type_of, u16, size, typed_entry, test_entry_length, array_entry, get_entry, checked, Data,
  lookup_table_offset, EntryType, Entry,
}
use libpeli.Base.{
  refl, ◌*◌, ◌/◌, ◌%◌, ◌^◌, false, arith, true, ◌<◌, ◌≡◌, ◌%◌, ℕ, ◌+◌, ◌≤◌, Option, none, some,
}
use native.Mathlib.Decide.{dec_le}
use libpeli.Nand.SysConf.Match.{IsValid, read8_in, key_length_lem}
use libpeli.Nand.SysConf.EntryType.{
  no_entry, big_array, small_array, byte, short, long, long_long, bool,
}

-- The sizes that a type allows.
abbrev pub SizeOf : EntryType → ℕ → Type 0
SizeOf no_entry n = ⊥
SizeOf byte n = n ≡ 1
SizeOf bool n = n ≡ 1
SizeOf short n = n ≡ 2
SizeOf long n = n ≡ 4
SizeOf long_long n = n ≡ 8
SizeOf small_array n = (1 ≤ n) × (n ≤ 256)
SizeOf big_array n = (1 ≤ n) × (n ≤ 766)

-- Nothing, or data that lies behind the key and before the lookup table, of a size that the type
-- allows.
abbrev pub IsEntryData : ℕ → Option Entry → Type 0
IsEntryData offset none = Unit
IsEntryData offset (some e) =
    (offset + 1 + e.key_length ≤ e.data_offset)
    × (e.data_offset ≤ offset + 3 + e.key_length)
    × (e.data_offset + e.data_size ≤ lookup_table_offset + 2)
    × SizeOf e.type e.data_size

checked_lem :
    (type : EntryType) (offset key_length data_offset data_size : ℕ)
    → offset + 1 + key_length ≤ data_offset
    → data_offset ≤ offset + 3 + key_length
    → SizeOf type data_size
    → (r : Option Entry) × (checked type offset key_length data_offset data_size ≡ some r)
      × IsEntryData offset r
checked_lem type offset key_length data_offset data_size low high sized =
    elim (dec_le (offset + 1 + key_length + data_size) lookup_table_offset) [
      | yes fits ↦
          let test : test_entry_length offset key_length data_size ≡ true = ground arith in
          (
            some (record {
              type = type;
              data_offset = data_offset;
              data_size = data_size;
              key_length = key_length;
            }),
            rw test,
            (low, high, omega (arith, fits, high), sized),
          )
      | no over ↦
          let test : test_entry_length offset key_length data_size ≡ false = ground arith in
          (none, rw test, tt)
    ]

module _ (d : Data) (v : IsValid d) (offset key_length : ℕ) where
  array_entry_lem :
      (type : EntryType) (data_offset array_size : ℕ)
      → offset + 1 + key_length ≤ data_offset
      → data_offset < offset + 3 + key_length
      → ((low : ℕ) → low < 256 → SizeOf type (u16 (array_size + low)))
      → (r : Option Entry) × (array_entry type d offset key_length data_offset array_size ≡ some r)
        × IsEntryData offset r
  unfolding array_entry
  array_entry_lem type data_offset array_size low high sized =
      elim (dec_le (offset + 1 + key_length + 2) lookup_table_offset) [
        | yes fits ↦
            let test : test_entry_length offset key_length 2 ≡ true = ground arith in
            let read = read8_in d data_offset (omega (arith, fits, high)) in
            let (r, e, bounded) =
              checked_lem type offset key_length (data_offset + 1)
                (u16 (array_size + d data_offset)) (omega (arith, low)) (omega (arith, high))
                (sized (d data_offset) (v.bytes data_offset)) in
            (r, rw (test, read, e), bounded)
        | no over ↦
            let test : test_entry_length offset key_length 2 ≡ false = ground arith in
            (none, rw test, tt)
      ]

  typed_entry_lem :
      (type : EntryType)
      → offset + 1 + key_length < size
      → (r : Option Entry) × (typed_entry type d offset key_length (offset + 1 + key_length)
          ≡ some r)
        × IsEntryData offset r
  unfolding typed_entry
  typed_entry_lem no_entry inside = (none, refl, tt)
  typed_entry_lem byte inside =
      checked_lem byte offset key_length (offset + 1 + key_length) 1 (omega arith) (omega arith)
        refl
  typed_entry_lem bool inside =
      checked_lem bool offset key_length (offset + 1 + key_length) 1 (omega arith) (omega arith)
        refl
  typed_entry_lem short inside =
      checked_lem short offset key_length (offset + 1 + key_length) 2 (omega arith) (omega arith)
        refl
  typed_entry_lem long inside =
      checked_lem long offset key_length (offset + 1 + key_length) 4 (omega arith) (omega arith)
        refl
  typed_entry_lem long_long inside =
      checked_lem long_long offset key_length (offset + 1 + key_length) 8 (omega arith)
        (omega arith) refl
  typed_entry_lem small_array inside =
      array_entry_lem small_array (offset + 1 + key_length) 1 (omega arith) (omega arith)
        (λ low h. omega (arith, h))
  typed_entry_lem big_array inside =
      let high = d (offset + 1 + key_length) in
      let byte_high = v.bytes (offset + 1 + key_length) in
      rw (read8_in d (offset + 1 + key_length) inside) (
        array_entry_lem big_array (offset + 1 + key_length + 1) (u16 (u16 (high * 2) + 1))
          (omega arith) (omega arith) (λ low h. omega (arith, h, byte_high)))

-- On data with a valid header, `getEntry` at an offset that leaves room for a key of one byte and
-- a byte of data reads nothing past the data. It gives nothing, or data that starts behind the
-- key and at most two bytes on, ends at most two bytes after the start of the lookup table, and
-- has a size that the type allows: 1 to 256 bytes for a small array, 1 to 766 for a big one.
pub get_entry-IsEntryData :
    (d : Data) (offset : ℕ)
    → IsValid d
    → offset + 3 ≤ lookup_table_offset
    → (r : Option Entry) × (get_entry d offset ≡ some r) × IsEntryData offset r
unfolding get_entry
get_entry-IsEntryData d offset v room =
    let inside : offset < size = omega (arith, room) in
    rw (read8_in d offset inside, key_length_lem d offset inside)
      (typed_entry_lem d v offset (d offset % 32 + 1) (type_of (d offset / 2 ^ 5))
        (omega (arith, room)))
