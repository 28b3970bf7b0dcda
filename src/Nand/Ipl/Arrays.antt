-- ===== src/Nand/Ipl/Arrays.antt =====
-- peli/nand/conf/Ipl.hpp: the settings that are arrays. The offset of an entry stands for the pointer
-- to its data; `none` inside is the result false.
pub mod Nickname
pub mod Large
use libpeli.Base.{
  ℕ, zero, suc, ◌+◌, ◌*◌, Bool, not, leb, List, [], ◌∷◌, Option, none, some, ◌==◌, if◌then◌else◌,
  ◌>>=◌,
}
use libpeli.Nand.SysConf.{Data, Entry, EntryType, read8, read16}
use libpeli.Nand.SysConf.EntryType.{
  no_entry, big_array, small_array, byte, short, long, long_long, bool,
}
use libpeli.Nand.SysConf.Lock.{SysConf}
use libpeli.Nand.SysConf.GetData.{get_data}
use libpeli.Nand.Ipl.{ipl, Answer}

-- The type is an array, and the size is enough.
abbrev pub accepted : EntryType → ℕ → ℕ → ℕ → Option ℕ
accepted small_array size offset least = if leb least size then some offset else none
accepted big_array size offset least = if leb least size then some offset else none
accepted no_entry size offset least = none
accepted byte size offset least = none
accepted short size offset least = none
accepted long size offset least = none
accepted long_long size offset least = none
accepted bool size offset least = none

abbrev pub accepted_entry : ℕ → Option Entry → Option ℕ
accepted_entry least none = none
accepted_entry least (some e) = accepted e.type e.data_size e.data_offset least

-- `Get(key, data, size, lookup)`, refused unless it is an array of at least `least` bytes.
pub get_array : List ℕ → ℕ → ℕ → ℕ × Data → SysConf → Answer ℕ
get_array key lookup least answer c = do
  (e, c) ← get_data answer (some key) lookup c
  some (accepted_entry least e, c)

-- `n` numbers of 16 bits from `offset` on.
pub read_halfwords : Data → ℕ → ℕ → Option (List ℕ)
read_halfwords d offset zero = some []
read_halfwords d offset (suc n) = do
  h ← read16 d offset
  rest ← read_halfwords d (offset + 2) n
  some (h ∷ rest)

pub read_bytes : Data → ℕ → ℕ → Option (List ℕ)
read_bytes d offset zero = some []
read_bytes d offset (suc n) = do
  b ← read8 d offset
  rest ← read_bytes d (offset + 1) n
  some (b ∷ rest)

-- What a getter does with the offset of its data.
abbrev pub with_array : {A : Type 0} → Option ℕ × SysConf → (ℕ → Option A) → Answer A
with_array (none, c) f = some (none, c)
with_array (some offset, c) f = do x ← f offset; some (some x, c)

pub record IdleMode : Type 0 where
  pub wc24 : Bool
  pub slot_illumination : ℕ

abbrev read_idle_mode : Data → ℕ → Option IdleMode
read_idle_mode d offset = do
  wc24 ← read8 d offset
  slot ← read8 d (offset + 1)
  some (record { wc24 = not (wc24 == 0); slot_illumination = slot })

pub record ParentalControls : Type 0 where
  pub enabled : ℕ
  pub organization : ℕ
  pub maximum_rating : ℕ
  pub pin : List ℕ
  pub secret_question : ℕ
  pub answer : List ℕ
  pub answer_length : ℕ

pub read_parental_controls : Data → ℕ → Option ParentalControls
read_parental_controls d offset = do
  enabled ← read8 d offset
  organization ← read8 d (offset + 1)
  maximum_rating ← read8 d (offset + 2)
  pin ← read_bytes d (offset + 3) 4
  question ← read8 d (offset + 7)
  answer ← read_halfwords d (offset + 8) 20
  answer_length ← read16 d (offset + 72)
  some (record {
    enabled = enabled;
    organization = organization;
    maximum_rating = maximum_rating;
    pin = pin;
    secret_question = question;
    answer = answer;
    answer_length = answer_length;
  })

pub record SimpleAddress : Type 0 where
  pub country : ℕ
  pub region : ℕ
  pub city : ℕ
  pub country_name : List ℕ
  pub region_name : List ℕ
  pub latitude : ℕ
  pub longitude : ℕ

-- The names are 16 of 64 numbers each, one after another.
pub read_simple_address : Data → ℕ → Option SimpleAddress
read_simple_address d offset = do
  country ← read8 d offset
  region ← read8 d (offset + 1)
  city ← read16 d (offset + 2)
  country_name ← read_halfwords d (offset + 4) (16 * 64)
  region_name ← read_halfwords d (offset + 2052) (16 * 64)
  latitude ← read16 d (offset + 4100)
  longitude ← read16 d (offset + 4102)
  some (record {
    country = country;
    region = region;
    city = city;
    country_name = country_name;
    region_name = region_name;
    latitude = latitude;
    longitude = longitude;
  })

-- The struct of the nickname as halfwords: ten of the name, and the length.
abbrev pub store : ℕ → ℕ → (ℕ → ℕ) → ℕ → ℕ
store i v m j = if j == i then v else m j

-- `for (i < 20) value.name[i] = ...`; `left` more rounds.
pub store_name : Data → ℕ → ℕ → ℕ → (ℕ → ℕ) → Option (ℕ → ℕ)
store_name d offset zero i m = some m
store_name d offset (suc left) i m = do
  h ← read16 d (offset + i * 2)
  store_name d offset left (suc i) (store i h m)

pub read_nickname : Data → ℕ → (ℕ → ℕ) → Option (ℕ → ℕ)
read_nickname d offset m = do
  m ← store_name d offset 20 0 m
  length ← read16 d (offset + 20)
  some (store 10 length m)

module _ (answer : ℕ × Data) (c : SysConf) where
  pub get_idle_mode : Answer IdleMode
  get_idle_mode = do
    (o, c) ← get_array (ipl (0x49 ∷ 0x44 ∷ 0x4c ∷ [])) 9 2 answer c
    with_array (o, c) (read_idle_mode c.bytes)

  pub get_parental_controls : Answer ParentalControls
  get_parental_controls = do
    (o, c) ← get_array (ipl (0x50 ∷ 0x43 ∷ [])) 13 74 answer c
    with_array (o, c) (read_parental_controls c.bytes)

  pub get_simple_address : Answer SimpleAddress
  get_simple_address = do
    (o, c) ← get_array (ipl (0x53 ∷ 0x41 ∷ 0x44 ∷ [])) 16 4104 answer c
    with_array (o, c) (read_simple_address c.bytes)

  -- The argument is the memory from the struct on.
  pub get_console_nickname : (ℕ → ℕ) → Answer (ℕ → ℕ)
  get_console_nickname m = do
    (o, c) ← get_array (ipl (0x4e ∷ 0x49 ∷ 0x4b ∷ [])) 12 22 answer c
    with_array (o, c) (λ offset. read_nickname c.bytes offset m)
