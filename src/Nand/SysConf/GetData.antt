-- ===== src/Nand/SysConf/GetData.antt =====
-- `Get` of the data of an entry, by its key.
use libpeli.Nand.SysConf.Bounds.{IsEntryData, get_entry-IsEntryData}
use libpeli.Nand.SysConf.Find.{find_entry_offset_lem}
use libpeli.Nand.SysConf.Match.{IsValid}
use libpeli.Nand.SysConf.Lock.{SysConf, lock, lock-Locked, valid, error}
use libpeli.Nand.SysConf.Get.{Got}
use libpeli.Nand.SysConf.{Entry, Data, find_entry_offset, get_entry}
use libpeli.Base.{
  refl, ◌∙◌, sym, inl, inr, ◌<◌, length, true, false, arith, ℕ, ◌≡◌, List, Option, none, some, ◌==◌,
  if◌then◌else◌, ◌>>=◌,
}

-- The part of `Get` behind the lock; `none` inside is `EntryType::None`.
pub get_entry_of : Data → List ℕ → ℕ → Option (Option Entry)
get_entry_of d key lookup = do
  offset ← find_entry_offset d key lookup
  (if offset == 0 then some none else get_entry d offset)

pub get_data : ℕ × Data → Option (List ℕ) → ℕ → SysConf → Option (Option Entry × SysConf)
unfolding get_entry_of
get_data answer none lookup c = some (none, c)
get_data answer (some key) lookup c = do
  (ok, c) ← lock answer c
  (if ok
      then (do e ← get_entry_of c.bytes key lookup; some (e, record c { locked = false }))
      else some (none, c))

-- Nothing, or data before the lookup table and two bytes more, of a size that the type allows.
abbrev pub IsWithin : Option Entry → Type 0
IsWithin none = Unit
IsWithin (some e) = (offset : ℕ) × IsEntryData offset (some e)

get_entry_of_lem :
    (d : Data) (key : List ℕ) (lookup : ℕ)
    → IsValid d
    → 0 < length key
    → (e : Option Entry) × (get_entry_of d key lookup ≡ some e) × IsWithin e
unfolding get_entry_of
get_entry_of_lem d key lookup v some_key =
    let (o, found, what) = find_entry_offset_lem d key lookup v some_key in
    elim what [
      | inr (zero_is, rest) ↦
          let test : (o == 0) ≡ true = ground arith in (none, rw (found, test), tt)
      | inl (ne, (above, at), listed) ↦
          let test : (o == 0) ≡ false = ground arith in
          let (e, got, bounded) = get_entry-IsEntryData d o v (omega (arith, at.fits, some_key)) in
          (e, rw (found, test, got), within o e bounded)
    ]
  where
    within : (o : ℕ) (e : Option Entry) → IsEntryData o e → IsWithin e
    within o none b = tt
    within o (some e) b = (o, b)

-- `Get` of the data keeps the reader as `Get` of a number does, and gives data in bounds.
pub get_data-Got :
    (answer : ℕ × Data) (key : List ℕ) (lookup : ℕ) (c : SysConf)
    → Got c
    → ((o : ℕ) → answer.1 o < 256)
    → 0 < length key
    → (r : Option Entry) × (c' : SysConf) × (get_data answer (some key) lookup c ≡ some (r, c'))
      × Got c'
      × IsWithin r
unfolding get_data
get_data-Got answer key lookup c h bytes some_key =
    let ((b, c'), e, kind, kept) = lock-Locked answer c h.1 in
    let bytes' : (o : ℕ) → c'.bytes o < 256 = elim kept [
      | inl same ↦ λ o. rw same (h.2 o)
      | inr new ↦ λ o. rw new (bytes o)
    ] in
    elim kind [
      | inl (ok, held, is_valid, fits) ↦
          let (r, got, within) =
            get_entry_of_lem c'.bytes key lookup (record { bytes = bytes'; header_fits = fits })
              some_key in
          (r, record c' { locked = false }, rw (e, ok, got), (refl, (λ _. fits), bytes'), within)
      | inr (refused, free, failed, later) ↦ (
        none,
        c',
        rw (e, refused),
        (free ∙ h.0, (λ v. absurd (not_valid (sym failed ∙ v))), bytes'),
        tt,
      )
    ]
  where
    not_valid : ¬ (error ≡ valid)
    not_valid k = ground arith
