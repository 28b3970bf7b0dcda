-- ===== src/Nand/SysConf/Tests.antt =====
-- A configuration with one byte under the key `ABC`, and the theorems at it.
use libpeli.Base.{
  none, ◌<◌, length, ℕ, ◌≡◌, ◌⊎◌, Bool, false, List, [], ◌∷◌, Option, some, ◌==◌, if◌then◌else◌,
  arith, refl,
}
use mathlib.Core.Path.{subst}
use libpeli.Nand.SysConf.{
  EntryType, find_by_lookup, find_from, get_entry_offset, matches, memory_equal, read16, read8,
  get_count, get_header_size, get_entry_key_length, Data, Entry, find_entry_offset, get_entry, size,
}
use libpeli.Nand.SysConf.Get.{get, Got, get-Got}
use libpeli.Nand.SysConf.Match.{IsValid, IsKeyAt, count_of}
use libpeli.Nand.SysConf.Find.{IsFound, NoneFrom, find_entry_offset_lem}
use libpeli.Nand.SysConf.Bounds.{IsEntryData, get_entry-IsEntryData}
use libpeli.Nand.SysConf.Lock.{KeepsData, SysConf, valid, Locked, lock, lock-Locked}

-- The count at 4, the table at 6, the entry at 10 with its type, its key and its byte.
abbrev one_entry : Data
one_entry o =
    if o == 5
    then 1
    else if o == 7
    then 10
    else if o == 9
    then 15
    else if o == 10
    then 98
    else if o == 11
    then 65
    else if o == 12
    then 66
    else if o == 13
    then 67
    else if o == 14
    then 5
    else 0

abbrev abc : List ℕ
abc = 65 ∷ 66 ∷ 67 ∷ []

one_entry-IsValid : IsValid one_entry
one_entry-IsValid = record { bytes = λ o. ground arith; header_fits = omega arith }

find_entry_offset_lem_example :
    (o : ℕ) × (find_entry_offset one_entry abc 49 ≡ some o)
    × (IsFound one_entry abc o
        ⊎ (o ≡ 0) × (IsKeyAt one_entry abc 0 ⊎ NoneFrom one_entry abc 0 (count_of one_entry)))
find_entry_offset_lem_example =
    find_entry_offset_lem one_entry abc 49 one_entry-IsValid (omega arith)

get_entry-IsEntryData_example :
    (r : Option Entry) × (get_entry one_entry 10 ≡ some r) × IsEntryData 10 r
get_entry-IsEntryData_example = get_entry-IsEntryData one_entry 10 one_entry-IsValid (omega arith)

abbrev reader : SysConf
reader = record { state = valid; bytes = one_entry; locked = false }

lock-Locked_example :
    (r : Bool × SysConf) × (lock (size, one_entry) reader ≡ some r)
    × Locked reader r
    × KeepsData one_entry reader r
lock-Locked_example = lock-Locked (size, one_entry) reader (λ _. omega arith)

-- The entry is at 10, and its byte at 14.
finds : find_entry_offset one_entry abc 49 ≡ some 10
unfolding find_entry_offset find_by_lookup find_from get_entry_offset matches memory_equal read16
    read8 get_count get_header_size get_entry_key_length
finds = refl

one_byte : (o : ℕ) → one_entry o < 256
one_byte = one_entry-IsValid.bytes

get-Got_example :
    (r : Option (EntryType × ℕ)) × (c' : SysConf) × (get (size, one_entry) (some abc) 49 reader
      ≡ some (r, c'))
    × Got c'
get-Got_example =
    get-Got (size, one_entry) (some abc) 49 reader (refl, (λ _. omega arith), one_byte) one_byte
      (λ k e. subst (λ t. has_bytes t) e (omega arith))
  where
    has_bytes : Option (List ℕ) → Type 0
    has_bytes none = Unit
    has_bytes (some k) = 0 < length k
