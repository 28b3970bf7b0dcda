-- ===== src/Nand/Ipl/Arrays/Large.antt =====
-- peli/nand/conf/Ipl.hpp: the getters of arrays, and the one that wants more than an array can hold.
use libpeli.Base.{
  inr, inl, Bool-cases, ℕ, zero, suc, ◌+◌, ◌*◌, ◌≤◌, ◌<◌, ◌≡◌, refl, List, [], ◌∷◌, Option, none,
  some, length, leb, arith,
}
use libpeli.Nand.SysConf.{Data, Entry, EntryType, lookup_table_offset, size}
use libpeli.Nand.SysConf.EntryType.{
  no_entry, big_array, small_array, byte, short, long, long_long, bool,
}
use libpeli.Nand.SysConf.Bounds.{SizeOf}
use libpeli.Nand.SysConf.Match.{read8_in, read16_in}
use libpeli.Nand.SysConf.Lock.{SysConf}
use libpeli.Nand.SysConf.Get.{Got}
use libpeli.Nand.SysConf.GetData.{get_data-Got, IsWithin}
use libpeli.Nand.Ipl.{ipl}
use libpeli.Nand.Ipl.Arrays.{
  accepted, accepted_entry, get_array, get_simple_address, get_parental_controls,
  read_parental_controls, read_halfwords, read_bytes, ParentalControls, with_array,
}

-- Data that is given out has `least` bytes before the lookup table and two more, and no array has
-- more than 766.
abbrev pub HasRoom : ℕ → Option ℕ → Type 0
HasRoom least none = Unit
HasRoom least (some offset) = (least ≤ 766) × (offset + least ≤ lookup_table_offset + 2)

accepted-HasRoom :
    (type : EntryType) (data_size offset least : ℕ)
    → SizeOf type data_size
    → offset + data_size ≤ lookup_table_offset + 2
    → HasRoom least (accepted type data_size offset least)
accepted-HasRoom small_array n o least s h = elim (Bool-cases (leb least n)) [
  | inl fits ↦ rw fits (ground arith)
  | inr over ↦ rw over tt
]
accepted-HasRoom big_array n o least s h = elim (Bool-cases (leb least n)) [
  | inl fits ↦ rw fits (ground arith)
  | inr over ↦ rw over tt
]
accepted-HasRoom no_entry n o least s h = tt
accepted-HasRoom byte n o least s h = tt
accepted-HasRoom short n o least s h = tt
accepted-HasRoom long n o least s h = tt
accepted-HasRoom long_long n o least s h = tt
accepted-HasRoom bool n o least s h = tt

entry-HasRoom : (least : ℕ) (e : Option Entry) → IsWithin e → HasRoom least (accepted_entry least e)
entry-HasRoom least none w = tt
entry-HasRoom least (some e) (o, (low, high, fits, sized)) =
    accepted-HasRoom e.type e.data_size e.data_offset least sized fits

pub get_array-Got :
    (key : List ℕ) (lookup least : ℕ) (answer : ℕ × Data) (c : SysConf)
    → Got c
    → ((o : ℕ) → answer.1 o < 256)
    → 0 < length key
    → (r : Option ℕ) × (c' : SysConf) × (get_array key lookup least answer c ≡ some (r, c'))
      × Got c'
      × HasRoom least r
unfolding get_array
get_array-Got key lookup least answer c h bytes some_key =
    let (e, c', got, kept, within) = get_data-Got answer key lookup c h bytes some_key in
    (accepted_entry least e, c', rw got refl, kept, entry-HasRoom least e within)

-- On a reader that nobody has locked and whose data has a header that fits if it is valid, the
-- request leaving bytes, the getter ends and never gives an address.
pub get_simple_address-refused :
    (answer : ℕ × Data) (c : SysConf)
    → Got c
    → ((o : ℕ) → answer.1 o < 256)
    → (c' : SysConf) × (get_simple_address answer c ≡ some (none, c')) × Got c'
unfolding get_simple_address
get_simple_address-refused answer c h bytes =
    let (r, c', got, kept, room) =
      get_array-Got (ipl (0x53 ∷ 0x41 ∷ 0x44 ∷ [])) 16 4104 answer c h bytes (omega arith) in
    let e : r ≡ none = no_room r room in (c', rw (got, e) refl, kept)
  where
    no_room : (r : Option ℕ) → HasRoom 4104 r → r ≡ none
    no_room none h = refl
    no_room (some o) h = absurd (omega (arith, h.0))

-- Reads before the end of the data succeed.
pub read_bytes_in :
    (d : Data) (n offset : ℕ)
    → offset + n ≤ size
    → (xs : List ℕ) × (read_bytes d offset n ≡ some xs)
unfolding read_bytes
read_bytes_in d zero offset h = ([], refl)
read_bytes_in d (suc n) offset h =
    let (xs, e) = read_bytes_in d n (offset + 1) (omega arith) in
    (d offset ∷ xs, rw (read8_in d offset (omega arith), e) refl)

pub read_halfwords_in :
    (d : Data) (n offset : ℕ)
    → offset + 2 * n ≤ size
    → (xs : List ℕ) × (read_halfwords d offset n ≡ some xs)
unfolding read_halfwords
read_halfwords_in d zero offset h = ([], refl)
read_halfwords_in d (suc n) offset h =
    let (xs, e) = read_halfwords_in d n (offset + 2) (omega arith) in
    ((d offset * 256 + d (offset + 1)) ∷ xs, rw (read16_in d offset (omega arith), e) refl)

parental_in :
    (d : Data) (offset : ℕ)
    → offset + 74 ≤ size
    → (p : ParentalControls) × (read_parental_controls d offset ≡ some p)
unfolding read_parental_controls
parental_in d offset h =
    let (pin, e) = read_bytes_in d 4 (offset + 3) (omega arith) in
    let (answer, f) = read_halfwords_in d 20 (offset + 8) (omega arith) in
    (
      record {
        enabled = d offset;
        organization = d (offset + 1);
        maximum_rating = d (offset + 2);
        pin = pin;
        secret_question = d (offset + 7);
        answer = answer;
        answer_length = d (offset + 72) * 256 + d (offset + 72 + 1);
      },
      rw
          (
            read8_in d offset (omega arith),
            read8_in d (offset + 1) (omega arith),
            read8_in d (offset + 2) (omega arith),
            e,
            read8_in d (offset + 7) (omega arith),
            f,
            read16_in d (offset + 72) (omega arith),
          )
          refl,
    )

-- The parental controls are read within the data, whatever the file holds.
pub get_parental_controls-Got :
    (answer : ℕ × Data) (c : SysConf)
    → Got c
    → ((o : ℕ) → answer.1 o < 256)
    → (r : Option ParentalControls) × (c' : SysConf) × (get_parental_controls answer c
        ≡ some (r, c'))
      × Got c'
unfolding get_parental_controls
get_parental_controls-Got answer c h bytes =
    let (r, c', got, kept, room) =
      get_array-Got (ipl (0x50 ∷ 0x43 ∷ [])) 13 74 answer c h bytes (omega arith) in
    let (p, e) = answered c' r room in (p, c', rw got e, kept)
  where
    answered :
        (c' : SysConf) (r : Option ℕ)
        → HasRoom 74 r
        → (p : Option ParentalControls) × (with_array (r, c') (read_parental_controls c'.bytes)
            ≡ some (p, c'))
    answered c' none h = (none, refl)
    answered c' (some o) h =
        let (p, e) = parental_in c'.bytes o (omega (arith, h)) in (some p, rw e refl)
