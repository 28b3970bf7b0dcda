-- ===== src/Nand/SysConf/Get.antt =====
-- `Get` of a number by its key.
use libpeli.Nand.SysConf.Bounds.{IsEntryData, get_entry-IsEntryData}
use libpeli.Nand.SysConf.Find.{find_entry_offset_lem}
use libpeli.Nand.SysConf.Match.{IsValid, read8_in, read16_in}
use libpeli.Nand.SysConf.Lock.{error, valid, IsSound, lock-Locked, SysConf, read32, lock}
use libpeli.Nand.SysConf.{size, Entry, Data, read8, read16, find_entry_offset, get_entry, EntryType}
use libpeli.Base.{
  ◌*◌, ◌^◌, inl, inr, sym, ◌∙◌, length, ◌<◌, refl, arith, true, false, ℕ, ◌+◌, ◌-◌, ◌≡◌, List,
  Option, none, some, ◌==◌, ltb, if◌then◌else◌, ◌>>=◌,
}
use libpeli.Nand.SysConf.EntryType.{
  no_entry, big_array, small_array, byte, short, long, long_long, bool,
}

-- A number of `bits` bits as a pattern of 64, with its sign extended.
abbrev pub sign_extend : ℕ → ℕ → ℕ
sign_extend bits n = if ltb n (2 ^ (bits - 1)) then n else n + 2 ^ 64 - 2 ^ bits

pub read64 : Data → ℕ → Option ℕ
read64 d offset = do high ← read32 d offset; low ← read32 d (offset + 4); some (high * 2 ^ 32 + low)

-- The switch of `Get`; `none` inside is `EntryType::None`.
pub decode : EntryType → Data → ℕ → Option (Option (EntryType × ℕ))
unfolding read64
decode byte d offset = do n ← read8 d offset; some (some (byte, sign_extend 8 n))
decode short d offset = do n ← read16 d offset; some (some (short, sign_extend 16 n))
decode long d offset = do n ← read32 d offset; some (some (long, sign_extend 32 n))
decode long_long d offset = do n ← read64 d offset; some (some (long_long, n))
decode bool d offset = do n ← read8 d offset; some (some (bool, if n == 0 then 0 else 1))
decode no_entry d offset = some none
decode big_array d offset = some none
decode small_array d offset = some none

pub get_number : Data → List ℕ → ℕ → Option (Option (EntryType × ℕ))
get_number d key lookup = do
  offset ← find_entry_offset d key lookup
  (if offset == 0 then some none else (do
    e ← get_entry d offset
    elim e [ none ↦ some none | some e ↦ decode e.type d e.data_offset ]))

-- A null key is `none`; the mutex is released on every way out.
pub get : ℕ × Data → Option (List ℕ) → ℕ → SysConf → Option (Option (EntryType × ℕ) × SysConf)
get answer none lookup c = some (none, c)
get answer (some key) lookup c = do
  (ok, c) ← lock answer c
  (if ok
      then (do r ← get_number c.bytes key lookup; some (r, record c { locked = false }))
      else some (none, c))

then_some {ℓ κ} :
    {A : Type ℓ} {B : Type κ} (o : Option A) (a : A) (f : A → B)
    → o ≡ some a
    → (r : B) × ((o >>= (λ x. some (f x))) ≡ some r)
then_some o a f e = (f a, rw e)

read32_in : (d : Data) (o : ℕ) → o + 3 < size → (n : ℕ) × (read32 d o ≡ some n)
unfolding read32
read32_in d o h =
    let high = d o * 256 + d (o + 1) in
    let low = d (o + 2) * 256 + d (o + 2 + 1) in
    (
      high * 65536 + low,
      rw (read16_in d o (omega (arith, h)), read16_in d (o + 2) (omega (arith, h))),
    )

read64_in : (d : Data) (o : ℕ) → o + 7 < size → (n : ℕ) × (read64 d o ≡ some n)
unfolding read64
read64_in d o h =
    let (n, e) = read32_in d o (omega (arith, h)) in
    let (m, e') = read32_in d (o + 4) (omega (arith, h)) in (n * 2 ^ 32 + m, rw (e, e'))

decode_total :
    (d : Data) (offset : ℕ) (type : EntryType)
    → offset + 8 < size
    → (r : Option (EntryType × ℕ)) × (decode type d offset ≡ some r)
unfolding decode
decode_total d offset byte h =
    then_some (read8 d offset) (d offset) (λ n. some (byte, sign_extend 8 n))
      (read8_in d offset (omega (arith, h)))
decode_total d offset bool h =
    then_some (read8 d offset) (d offset) (λ n. some (bool, if n == 0 then 0 else 1))
      (read8_in d offset (omega (arith, h)))
decode_total d offset short h =
    then_some (read16 d offset) (d offset * 256 + d (offset + 1))
      (λ n. some (short, sign_extend 16 n)) (read16_in d offset (omega (arith, h)))
decode_total d offset long h =
    let (m, e) = read32_in d offset (omega (arith, h)) in
    then_some (read32 d offset) m (λ n. some (long, sign_extend 32 n)) e
decode_total d offset long_long h =
    let (m, e) = read64_in d offset (omega (arith, h)) in
    then_some (read64 d offset) m (λ n. some (long_long, n)) e
decode_total d offset no_entry h = (none, refl)
decode_total d offset big_array h = (none, refl)
decode_total d offset small_array h = (none, refl)

get_number_total :
    (d : Data) (key : List ℕ) (lookup : ℕ)
    → IsValid d
    → 0 < length key
    → (r : Option (EntryType × ℕ)) × (get_number d key lookup ≡ some r)
unfolding get_number
get_number_total d key lookup v some_key =
    let (o, found, what) = find_entry_offset_lem d key lookup v some_key in
    elim what [
      | inr (zero_is, rest) ↦ let test : (o == 0) ≡ true = ground arith in (none, rw (found, test))
      | inl (ne, (above, at), listed) ↦
          let test : (o == 0) ≡ false = ground arith in
          let (e, got, bounded) = get_entry-IsEntryData d o v (omega (arith, at.fits, some_key)) in
          entry_total e got bounded test found
    ]
  where
    entry_total :
        {o : ℕ} (e : Option Entry)
        → get_entry d o ≡ some e
        → IsEntryData o e
        → (o == 0) ≡ false
        → find_entry_offset d key lookup ≡ some o
        → (r : Option (EntryType × ℕ)) × (get_number d key lookup ≡ some r)
    entry_total none got bounded test found = (none, rw (found, test, got))
    entry_total (some e) got bounded test found =
        let (r, decoded) = decode_total d e.data_offset e.type (omega (arith, bounded)) in
        (r, rw (found, test, got, decoded))

-- What `Get` leaves, for a reader that nobody has locked.
abbrev pub Got : SysConf → Type 0
Got c = (c.locked ≡ false) × IsSound c × ((o : ℕ) → c.bytes o < 256)

-- `Get` of a number, by a key that is null or not empty, on a reader that nobody has locked and
-- whose data has a header that fits if it is valid, the request leaving bytes: it reads nothing
-- past the data and returns, the mutex is released, and the reader is such a reader again.
pub get-Got :
    (answer : ℕ × Data) (key : Option (List ℕ)) (lookup : ℕ) (c : SysConf)
    → Got c
    → ((o : ℕ) → answer.1 o < 256)
    → ((k : List ℕ) → key ≡ some k → 0 < length k)
    → (r : Option (EntryType × ℕ)) × (c' : SysConf) × (get answer key lookup c ≡ some (r, c'))
      × Got c'
unfolding get
get-Got answer none lookup c h bytes some_key = (none, c, refl, h)
get-Got answer (some key) lookup c h bytes some_key =
    let ((b, c'), e, kind, kept) = lock-Locked answer c h.1 in
    let bytes' : (o : ℕ) → c'.bytes o < 256 = elim kept [
      | inl same ↦ λ o. rw same (h.2 o)
      | inr new ↦ λ o. rw new (bytes o)
    ] in
    elim kind [
      | inl (ok, held, is_valid, fits) ↦
          let (r, got) =
            get_number_total c'.bytes key lookup (record { bytes = bytes'; header_fits = fits })
              (some_key key refl) in
          (r, record c' { locked = false }, rw (e, ok, got), (refl, (λ _. fits), bytes'))
      | inr (refused, free, failed, later) ↦ (
        none,
        c',
        rw (e, refused),
        (free ∙ h.0, (λ v. absurd (not_valid (sym failed ∙ v))), bytes'),
      )
    ]
  where
    not_valid : ¬ (error ≡ valid)
    not_valid k = ground arith
