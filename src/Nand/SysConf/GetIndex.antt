-- ===== src/Nand/SysConf/GetIndex.antt =====
-- peli/nand/conf/SysConf.cpp: `Get` of an entry by its index.
use native.Mathlib.Decide.{dec_lt}
use libpeli.Base.{
  refl, ◌∙◌, sym, inl, inr, ◌<◌, ◌≤◌, true, false, arith, ℕ, ◌≡◌, Option, none, some, ◌==◌, leb,
  if◌then◌else◌, ◌>>=◌, Bool-cases,
}
use libpeli.Nand.SysConf.{Entry, Data, get_entry, get_entry_offset, get_count}
use libpeli.Nand.SysConf.Bounds.{IsEntryData, get_entry-IsEntryData}
use libpeli.Nand.SysConf.Find.{entry_offset_lem}
use libpeli.Nand.SysConf.Match.{IsValid, count_of, header_of, read16_in}
use libpeli.Nand.SysConf.Lock.{SysConf, State, lock, lock-Locked, valid, invalid, error}
use libpeli.Nand.SysConf.Get.{Got}
use libpeli.Nand.SysConf.GetData.{IsWithin}

-- `GetCount`
abbrev pub count_in : State → Data → Option ℕ
count_in valid d = get_count d
count_in invalid d = some 0
count_in error d = some 0

-- The part of `Get` behind the lock.
pub get_entry_at : Data → ℕ → Option (Option Entry)
get_entry_at d index = do
  count ← get_count d
  (if leb count index then some none else (do
    offset ← get_entry_offset d index
    (if offset == 0 then some none else get_entry d offset)))

pub get_index : ℕ × Data → ℕ → SysConf → Option (Option Entry × SysConf)
unfolding get_entry_at
get_index answer index c = do
  count ← count_in c.state c.bytes
  (if leb count index then some (none, c) else (do
    (ok, c) ← lock answer c
    (if ok
        then (do e ← get_entry_at c.bytes index; some (e, record c { locked = false }))
        else some (none, c))))

count_lem : (d : Data) → get_count d ≡ some (count_of d)
unfolding get_count
count_lem d = read16_in d 4 (omega arith)

get_entry_at_lem :
    (d : Data) (index : ℕ)
    → IsValid d
    → (e : Option Entry) × (get_entry_at d index ≡ some e) × IsWithin e
unfolding get_entry_at
get_entry_at_lem d index v = elim (dec_lt index (count_of d)) [
  | no past ↦
      let test : leb (count_of d) index ≡ true = ground arith in (none, rw (count_lem d, test), tt)
  | yes lt ↦
      let test : leb (count_of d) index ≡ false = ground arith in
      let (o, found, what) = entry_offset_lem d index v lt in
      elim what [
        | inr (zero_is, _) ↦
            let z : (o == 0) ≡ true = ground arith in (none, rw (count_lem d, test, found, z), tt)
        | inl (_, low, high) ↦
            let z : (o == 0) ≡ false = omega_test o low in
            let (e, got, bounded) = get_entry-IsEntryData d o v high in
            (e, rw (count_lem d, test, found, z, got), within o e bounded)
      ]
]
  where
    omega_test : (o : ℕ) → header_of d ≤ o → (o == 0) ≡ false
    omega_test o low = ground arith

    within : (o : ℕ) (e : Option Entry) → IsEntryData o e → IsWithin e
    within o none b = tt
    within o (some e) b = (o, b)

-- `get_index` gives nothing on a reader that has not loaded its data.
pub get_index-invalid :
    (answer : ℕ × Data) (index : ℕ) (c : SysConf)
    → c.state ≡ invalid
    → get_index answer index c ≡ some (none, c)
unfolding get_index
get_index-invalid answer index c e =
    let low : leb 0 index ≡ true = ground arith in rw e (rw low refl)

-- On a reader that nobody has locked and whose data has a header that fits if it is valid, the
-- request leaving bytes: `Get` by an index reads nothing past the data and returns, the mutex is
-- released, the reader is such a reader again, and data that is given is in bounds.
pub get_index-Got :
    (answer : ℕ × Data) (index : ℕ) (c : SysConf)
    → Got c
    → ((o : ℕ) → answer.1 o < 256)
    → (r : Option Entry) × (c' : SysConf) × (get_index answer index c ≡ some (r, c'))
      × Got c'
      × IsWithin r
unfolding get_index
get_index-Got answer index c h bytes =
    let (n, counted) = count_lem_in c.state in
    let ((b, c'), e, kind, kept) = lock-Locked answer c h.1 in
    let bytes' : (o : ℕ) → c'.bytes o < 256 = elim kept [
      | inl same ↦ λ o. rw same (h.2 o)
      | inr new ↦ λ o. rw new (bytes o)
    ] in
    elim (Bool-cases (leb n index)) [
      | inl over ↦ (none, c, rw (counted, over) refl, h, tt)
      | inr more ↦ elim kind [
        | inl (ok, held, is_valid, fits) ↦
            let (r, got, within) =
              get_entry_at_lem c'.bytes index (record { bytes = bytes'; header_fits = fits }) in
            (
              r,
              record c' { locked = false },
              rw (counted, more, e, ok, got) refl,
              (refl, (λ _. fits), bytes'),
              within,
            )
        | inr (refused, free, failed, later) ↦ (
          none,
          c',
          rw (counted, more, e, refused) refl,
          (free ∙ h.0, (λ v. absurd (not_valid (sym failed ∙ v))), bytes'),
          tt,
        )
      ]
    ]
  where
    count_lem_in : (s : State) → (n : ℕ) × (count_in s c.bytes ≡ some n)
    count_lem_in valid = (count_of c.bytes, count_lem c.bytes)
    count_lem_in invalid = (0, refl)
    count_lem_in error = (0, refl)

    not_valid : error ≡ valid → ⊥
    not_valid k = ground arith
