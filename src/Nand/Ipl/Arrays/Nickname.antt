-- ===== src/Nand/Ipl/Arrays/Nickname.antt =====
-- peli/nand/conf/Ipl.hpp: what the getter of the nickname writes.
use libpeli.Base.{
  ℕ, zero, suc, ◌+◌, ◌*◌, ◌≤◌, ◌<◌, ◌≡◌, ◌⊎◌, inl, inr, ◌∙◌, refl, [], ◌∷◌, Option, none, some,
  arith, ltb, ◌==◌, if◌then◌else◌,
}
use libpeli.Nand.SysConf.{Data, size}
use libpeli.Nand.SysConf.Match.{read16_in}
use libpeli.Nand.SysConf.Lock.{SysConf}
use libpeli.Nand.SysConf.Get.{Got}
use libpeli.Nand.Ipl.{ipl}
use libpeli.Nand.Ipl.Arrays.{get_console_nickname, read_nickname, store_name, store, with_array}
use libpeli.Nand.Ipl.Arrays.Large.{HasRoom, get_array-Got}
use native.Mathlib.Decide.{ℕ_discrete, dec_lt}

abbrev pub halfword : Data → ℕ → ℕ
halfword d o = d o * 256 + d (o + 1)

-- What the loop has written.
record IsStored (d : Data) (offset left i : ℕ) (m m' : ℕ → ℕ) : Type 0 where
  written : (j : ℕ) → i ≤ j → j < i + left → m' j ≡ halfword d (offset + j * 2)
  kept : (j : ℕ) → (j < i) ⊎ (i + left ≤ j) → m' j ≡ m j

store_name-IsStored :
    (d : Data) (offset left i : ℕ) (m : ℕ → ℕ)
    → offset + (i + left) * 2 ≤ size
    → (m' : ℕ → ℕ) × (store_name d offset left i m ≡ some m') × IsStored d offset left i m m'
unfolding store_name
store_name-IsStored d offset zero i m h =
    (m, refl, record { written = λ j a b. absurd (omega arith); kept = λ j o. refl })
store_name-IsStored d offset (suc left) i m h =
    let (m', e, s) =
      store_name-IsStored d offset left (suc i) (store i (halfword d (offset + i * 2)) m)
        (omega arith) in
    (
      m',
      rw (read16_in d (offset + i * 2) (omega arith)) e,
      record {
        written = λ j a b. elim (ℕ_discrete j i) [
          | yes same ↦ s.kept j (inl (omega arith)) ∙ ground (arith, same)
          | no ne ↦ s.written j (omega (arith, ne)) (omega arith)
        ];
        kept = λ j o. elim o [
          | inl before ↦ s.kept j (inl (omega arith)) ∙ ground arith
          | inr after ↦ s.kept j (inr (omega arith)) ∙ ground arith
        ];
      },
    )

-- A halfword from the struct on, afterwards: the struct has eleven, ten of the name and the length.
abbrev pub after : Data → ℕ → (ℕ → ℕ) → ℕ → ℕ
after d offset m j =
    if j == 10
    then halfword d (offset + 20)
    else if ltb j 20
    then halfword d (offset + j * 2)
    else m j

read_nickname_lem :
    (d : Data) (offset : ℕ) (m : ℕ → ℕ)
    → offset + 40 ≤ size
    → (m' : ℕ → ℕ) × (read_nickname d offset m ≡ some m') × ((j : ℕ) → m' j ≡ after d offset m j)
unfolding read_nickname
read_nickname_lem d offset m h =
    let (m', e, s) = store_name-IsStored d offset 20 0 m (omega arith) in
    (
      store 10 (halfword d (offset + 20)) m',
      rw (e, read16_in d (offset + 20) (omega arith)) refl,
      λ j. elim (dec_lt j 20) [
        | yes lt ↦ ground (arith, s.written j (omega arith) (omega arith))
        | no ge ↦ ground (arith, s.kept j (inr (omega arith)))
      ],
    )

-- On a reader that nobody has locked and whose data has a header that fits if it is valid, the
-- request leaving bytes, the getter gives nothing, or it stores twenty halfwords of the data from
-- the struct on and then the length at halfword 10, so it also writes the nine behind the struct.
pub get_console_nickname-overruns :
    (answer : ℕ × Data) (c : SysConf) (m : ℕ → ℕ)
    → Got c
    → ((o : ℕ) → answer.1 o < 256)
    → (c' : SysConf) × Got c'
      × ((get_console_nickname answer c m ≡ some (none, c'))
          ⊎ ((offset : ℕ) × (m' : ℕ → ℕ) × (get_console_nickname answer c m ≡ some (some m', c'))
              × ((j : ℕ) → m' j ≡ after c'.bytes offset m j)))
unfolding get_console_nickname
get_console_nickname-overruns answer c m h bytes =
    let (r, c', got, kept, room) =
      get_array-Got (ipl (0x4e ∷ 0x49 ∷ 0x4b ∷ [])) 12 22 answer c h bytes (omega arith) in
    (c', kept, rw got (answered c' r room))
  where
    answered :
        (c' : SysConf) (r : Option ℕ)
        → HasRoom 22 r
        → (with_array (r, c') (λ offset. read_nickname c'.bytes offset m) ≡ some (none, c'))
          ⊎ ((offset : ℕ) × (m' : ℕ → ℕ) × (with_array (r, c') (λ o. read_nickname c'.bytes o m)
                ≡ some (some m', c'))
              × ((j : ℕ) → m' j ≡ after c'.bytes offset m j))
    answered c' none h = inl refl
    answered c' (some o) h =
        let (m', e, s) = read_nickname_lem c'.bytes o m (omega (arith, h)) in
        inr (o, m', rw e refl, s)
