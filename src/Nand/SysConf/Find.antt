-- ===== src/Nand/SysConf/Find.antt =====
-- `findEntryOffset` against the description of an entry.
use libpeli.Base.{
  ap, ◌-◌, ◌/◌, ◌&&◌, ◌==◌, leb, ltb, length, Bool, none, Bool-cases, ℕ, zero, suc, ◌+◌, ◌*◌, ◌<◌,
  ◌≤◌, ◌≡◌, ◌≢◌, ◌⊎◌, inl, inr, true, false, List, Option, some, arith, refl, sym,
}
use libpeli.Nand.SysConf.{
  size, lookup_table_count, get_count, find_by_lookup, find_entry_offset, Data, lookup_table_offset,
  get_entry_offset, test_entry_length, find_from,
}
use mathlib.Core.Path.{subst}
use native.Mathlib.Decide.{dec_lt, dec_le, ℕ_discrete}
use libpeli.Util.Address.{is_aligned}
use libpeli.Nand.SysConf.Match.{
  IsValid, IsEntry, IsKeyAt, count_of, header_of, offset_at, read16_in, header_lem, matches_lem,
}

-- Too low or too high for an entry.
abbrev pub IsOut : Data → ℕ → Type 0
IsOut d o = (o < header_of d) ⊎ (lookup_table_offset < o + 3)

pub entry_offset_lem :
    (d : Data) (i : ℕ)
    → IsValid d
    → i < count_of d
    → (o : ℕ) × (get_entry_offset d i ≡ some o)
      × ((o ≡ offset_at d i) × (header_of d ≤ o) × (o + 3 ≤ lookup_table_offset)
          ⊎ (o ≡ 0) × IsOut d (offset_at d i))
unfolding get_entry_offset
entry_offset_lem d i v h =
    let read = read16_in d (6 + i * 2) (omega (arith, h, v.header_fits)) in
    let o = offset_at d i in
    elim (dec_lt o (header_of d)) [
      | yes low ↦
          let test : ltb o (header_of d) ≡ true = ground arith in
          (0, rw (read, header_lem d, test), inr (refl, inl low))
      | no above ↦
          let test : ltb o (header_of d) ≡ false = ground arith in
          elim (dec_le (o + 3) lookup_table_offset) [
            | yes fits ↦
                let room : test_entry_length o 1 1 ≡ true = ground arith in
                (o, rw (read, header_lem d, test, room), inl (refl, omega (arith, above), fits))
            | no high ↦
                let room : test_entry_length o 1 1 ≡ false = ground arith in
                (0, rw (read, header_lem d, test, room), inr (refl, inr (omega (arith, high))))
          ]
    ]

-- An offset in the table of the header, its last slot (where the entries end) included.
abbrev pub IsListed : Data → ℕ → Type 0
IsListed d o = (j : ℕ) × (j ≤ count_of d) × (o ≡ offset_at d j)

abbrev pub IsFound : Data → List ℕ → ℕ → Type 0
IsFound d key o = (o ≢ 0) × IsEntry d key o × IsListed d o

-- No entry of the key at the indices from `index` up to `end`.
abbrev pub NoneFrom : Data → List ℕ → ℕ → ℕ → Type 0
NoneFrom d key index end = (j : ℕ) → index ≤ j → j < end → ¬ IsEntry d key (offset_at d j)

-- No key is there whose length is at least one and whose offset is out.
out-not-IsEntry : (d : Data) (key : List ℕ) (o : ℕ) → IsOut d o → ¬ IsEntry d key o
out-not-IsEntry d key o (inl low) e = omega (arith, low, e.0)
out-not-IsEntry d key o (inr high) e = omega (arith, high, e.1.fits, e.1.same_length)

abbrev Searched : Data → List ℕ → ℕ → ℕ → Option ℕ → Type 0
Searched d key index end r =
    (o : ℕ) × (r ≡ some o)
    × (IsFound d key o ⊎ (o ≡ 0) × (IsKeyAt d key 0 ⊎ NoneFrom d key index end))

none_more :
    (d : Data) (key : List ℕ) (index end : ℕ)
    → ¬ IsEntry d key (offset_at d index)
    → NoneFrom d key (suc index) end
    → NoneFrom d key index end
none_more d key index end here later j lo hi = elim (ℕ_discrete j index) [
  | yes e ↦ subst (λ t. ¬ IsEntry d key (offset_at d t)) (sym e) here
  | no n ↦ later j (omega (arith, lo, n)) hi
]

go_on :
    (d : Data) (key : List ℕ) (index end : ℕ) (r : Option ℕ)
    → ¬ IsEntry d key (offset_at d index)
    → Searched d key (suc index) end r
    → Searched d key index end r
go_on d key index end r here (o, e, inl found) = (o, e, inl found)
go_on d key index end r here (o, e, inr (z, inl head)) = (o, e, inr (z, inl head))
go_on d key index end r here (o, e, inr (z, inr later)) =
    (o, e, inr (z, inr (none_more d key index end here later)))

find_from-Searched :
    (d : Data) (key : List ℕ) (index left end : ℕ)
    → IsValid d
    → index + left ≡ end
    → end ≤ count_of d
    → Searched d key index end (find_from d key index left)
unfolding find_from
find_from-Searched d key index zero end v ends le =
    (0, refl, inr (refl, inr (λ j lo hi. absurd (omega (arith, lo, hi, ends)))))
find_from-Searched d key index (suc left) end v ends le =
    let rest = find_from-Searched d key (suc index) left end v (omega (arith, ends)) le in
    let (o, e, where_is) = entry_offset_lem d index v (omega (arith, ends, le)) in
    elim where_is [
      | inl (listed, above, fits) ↦
          let (b, m, decided) = matches_lem d key o (omega (arith, fits)) in
          elim decided [
            | inl (t, k) ↦ (
              o,
              rw (e, m, t),
              inl (omega (arith, above), (above, k), (index, omega (arith, ends, le), listed)),
            )
            | inr (f, n) ↦
                rw (e, m, f)
                  (go_on d key index end (find_from d key (suc index) left)
                    (λ i. n (subst (IsKeyAt d key) (sym listed) i.1)) rest)
          ]
      | inr (zero_is, out) ↦
          let (b, m, decided) = matches_lem d key o (omega (arith, zero_is)) in
          elim decided [
            | inl (t, k) ↦ (o, rw (e, m, t), inr (zero_is, inl (subst (IsKeyAt d key) zero_is k)))
            | inr (f, n) ↦
                rw (e, m, f)
                  (go_on d key index end (find_from d key (suc index) left)
                    (out-not-IsEntry d key (offset_at d index) out) rest)
          ]
    ]

-- The tests on the slot of the header that the lookup table names.
abbrev is_slot : Data → ℕ → Bool
is_slot d slot = leb 6 slot && ltb slot (header_of d) && is_aligned 2 slot

slot_lem :
    (d : Data) (slot : ℕ)
    → is_slot d slot ≡ true
    → (6 ≤ slot) × (slot < header_of d) × (slot ≡ 6 + (slot - 6) / 2 * 2)
unfolding is_aligned
slot_lem d slot h = ground arith

abbrev LookedUp : Data → List ℕ → Option (Option ℕ) → Type 0
LookedUp d key r = (r ≡ some none) ⊎ ((o : ℕ) × (r ≡ some (some o)) × IsFound d key o)

find_by_lookup-LookedUp :
    (d : Data) (key : List ℕ) (lookup : ℕ)
    → IsValid d
    → LookedUp d key (find_by_lookup d key lookup)
unfolding find_by_lookup
find_by_lookup-LookedUp d key lookup v = elim (dec_lt lookup lookup_table_count) [
  | no outside ↦ let test : ltb lookup lookup_table_count ≡ false = ground arith in inl (rw test)
  | yes inside ↦
      let test : ltb lookup lookup_table_count ≡ true = ground arith in
      let at = size - 6 - lookup * 2 in
      let slot = d at * 256 + d (at + 1) in
      let read = read16_in d at (omega (arith, inside)) in
      elim (Bool-cases (is_slot d slot)) [
        | inr bad ↦ inl (rw (test, read, header_lem d, bad))
        | inl good ↦
            let s = slot_lem d slot good in
            let o = d slot * 256 + d (slot + 1) in
            let read_slot = read16_in d slot (omega (arith, s, v.header_fits)) in
            elim (Bool-cases (leb (header_of d) o && test_entry_length o 1 1)) [
              | inr out ↦ inl (rw (test, read, header_lem d, good, read_slot, out))
              | inl room ↦
                  let fits : (header_of d ≤ o) × (o + 3 ≤ lookup_table_offset) =
                    ground (arith, room) in
                  let (b, m, decided) = matches_lem d key o (omega (arith, fits)) in
                  elim decided [
                    | inr (f, n) ↦ inl (rw (test, read, header_lem d, good, read_slot, room, m, f))
                    | inl (t, k) ↦ inr (
                      o,
                      rw (test, read, header_lem d, good, read_slot, room, m, t),
                      (
                        omega (arith, fits),
                        (fits.0, k),
                        ((slot - 6) / 2, omega (arith, s), ap (λ t. d t * 256 + d (t + 1)) s.2),
                      ),
                    )
                  ]
            ]
      ]
]

-- On data with a valid header and a key that is not empty, `findEntryOffset` reads nothing past
-- the data and ends. What it gives, unless 0, is the offset of an entry of the key behind the
-- header that the header's table lists. If it gives 0, then no entry that the table counts is one
-- of the key, or the bytes of the header itself read as the key.
pub find_entry_offset_lem :
    (d : Data) (key : List ℕ) (lookup : ℕ)
    → IsValid d
    → 0 < length key
    → (o : ℕ) × (find_entry_offset d key lookup ≡ some o)
      × (IsFound d key o ⊎ (o ≡ 0) × (IsKeyAt d key 0 ⊎ NoneFrom d key 0 (count_of d)))
unfolding find_entry_offset get_count
find_entry_offset_lem d key lookup v some_key =
    let test : (length key == 0) ≡ false = ground arith in
    elim (find_by_lookup-LookedUp d key lookup v) [
      | inr (o, e, found) ↦ (o, rw (test, e), inl found)
      | inl e ↦
          rw (test, e, read16_in d 4 (omega arith))
            (find_from-Searched d key 0 (count_of d) (count_of d) v (omega arith) (omega arith))
    ]
