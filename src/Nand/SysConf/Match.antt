-- ===== src/Nand/SysConf/Match.antt =====
-- What an entry is, and that the test of one entry decides it.
use native.Mathlib.Decide.{dec_le, ℕ_discrete}
use libpeli.Base.{
  ℕ, suc, ◌+◌, ◌*◌, ◌%◌, ◌<◌, ◌≤◌, ◌≡◌, ◌⊎◌, inl, inr, Bool, true, false, List, [], ◌∷◌, some,
  length, ◌==◌, ltb, arith, refl,
}
use libpeli.Base.Bits.{bit_and_low}
use libpeli.Nand.SysConf.{
  Data, size, lookup_table_offset, read8, read16, get_count, get_header_size, get_entry_key_length,
  test_entry_length, memory_equal, matches,
}

abbrev pub count_of : Data → ℕ
count_of d = d 4 * 256 + d 5

abbrev pub header_of : Data → ℕ
header_of d = 8 + count_of d * 2

-- What `lock` checks of the header, on bytes.
pub record IsValid (d : Data) : Type 0 where
  pub bytes : (o : ℕ) → d o < 256
  pub header_fits : header_of d ≤ lookup_table_offset

-- The bytes from `o` on are those of the key.
abbrev pub BytesAt : Data → ℕ → List ℕ → Type 0
BytesAt d o [] = Unit
BytesAt d o (c ∷ cs) = (d o ≡ c) × BytesAt d (suc o) cs

-- The key stands at `o`, with its length in the five low bits before it, and data behind it.
pub record IsKeyAt (d : Data) (key : List ℕ) (o : ℕ) : Type 0 where
  pub same_length : d o % 32 + 1 ≡ length key
  pub fits : o + 1 + length key + 1 ≤ lookup_table_offset
  pub same_bytes : BytesAt d (o + 1) key

-- The offset that the table of the header has at an index.
abbrev pub offset_at : Data → ℕ → ℕ
offset_at d i = d (6 + i * 2) * 256 + d (6 + i * 2 + 1)

-- An entry of the key, behind the header.
abbrev pub IsEntry : Data → List ℕ → ℕ → Type 0
IsEntry d key o = (header_of d ≤ o) × IsKeyAt d key o

pub read8_in : (d : Data) (o : ℕ) → o < size → read8 d o ≡ some (d o)
unfolding read8
read8_in d o h = let test : ltb o size ≡ true = ground arith in rw test

pub read16_in : (d : Data) (o : ℕ) → o + 1 < size → read16 d o ≡ some (d o * 256 + d (o + 1))
unfolding read16
read16_in d o h = rw (read8_in d o (omega (arith, h)), read8_in d (o + 1) h)

pub header_lem : (d : Data) → get_header_size d ≡ some (header_of d)
unfolding get_header_size get_count
header_lem d = rw (read16_in d 4 (omega arith))

pub key_length_lem : (d : Data) (o : ℕ) → o < size → get_entry_key_length d o ≡ some (d o % 32 + 1)
unfolding get_entry_key_length
key_length_lem d o h = rw (read8_in d o h, bit_and_low 5 (d o))

memory_equal_lem :
    (d : Data) (o : ℕ) (key : List ℕ)
    → o + length key ≤ size
    → (b : Bool) × (memory_equal d o key ≡ some b)
      × ((b ≡ true) × BytesAt d o key ⊎ (b ≡ false) × ¬ BytesAt d o key)
unfolding memory_equal
memory_equal_lem d o [] h = (true, refl, inl (refl, tt))
memory_equal_lem d o (c ∷ cs) h =
    let (b, e, rest) = memory_equal_lem d (suc o) cs (omega (arith, h)) in
    let here = read8_in d o (omega (arith, h)) in
    elim (ℕ_discrete (d o) c) [
      | yes same ↦
          let test : (d o == c) ≡ true = ground arith in
          (
            b,
            rw (here, test, e),
            elim rest [
              | inl (t, bytes) ↦ inl (t, (same, bytes))
              | inr (f, differ) ↦ inr (f, λ p. differ p.1)
            ],
          )
      | no other ↦
          let test : (d o == c) ≡ false = ground arith in
          (false, rw (here, test), inr (refl, λ p. other p.0))
    ]

-- The test of one entry decides whether the key stands there.
pub matches_lem :
    (d : Data) (key : List ℕ) (o : ℕ)
    → o < size
    → (b : Bool) × (matches d key o ≡ some b)
      × ((b ≡ true) × IsKeyAt d key o ⊎ (b ≡ false) × ¬ IsKeyAt d key o)
unfolding matches
matches_lem d key o h = elim (ℕ_discrete (d o % 32 + 1) (length key)) [
  | no other ↦
      let test : (d o % 32 + 1 == length key) ≡ false = ground arith in
      (false, rw (key_length_lem d o h, test), inr (refl, λ k. other k.same_length))
  | yes same ↦
      let test : (d o % 32 + 1 == length key) ≡ true = ground arith in
      elim (dec_le (o + 1 + length key + 1) lookup_table_offset) [
        | no long ↦
            let room : test_entry_length o (d o % 32 + 1) 1 ≡ false = ground arith in
            (false, rw (key_length_lem d o h, test, room), inr (refl, λ k. long k.fits))
        | yes fits ↦
            let room : test_entry_length o (d o % 32 + 1) 1 ≡ true = ground arith in
            let (b, e, bytes) = memory_equal_lem d (o + 1) key (omega (arith, fits)) in
            (
              b,
              rw (key_length_lem d o h, test, room, e),
              elim bytes [
                | inl (t, p) ↦ inl (t, record { same_length = same; fits = fits; same_bytes = p })
                | inr (f, n) ↦ inr (f, λ k. n k.same_bytes)
              ],
            )
      ]
]
