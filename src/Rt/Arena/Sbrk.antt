-- ===== src/Rt/Arena/Sbrk.antt =====
-- What the heap break does with memory that is given back, and the entry point of the C library.
use native.Mathlib.Decide.{dec_le}
use libpeli.Base.{
  leb, false, true, ◌==◌, inl, inr, refl, ◌≢◌, ℕ, ◌≡◌, ◌≤◌, ◌<◌, ◌+◌, ◌-◌, ◌^◌, ◌⊎◌, Option, none,
  some, arith,
}
use libpeli.Rt.Arena.{Arena, sbrk_alloc, sbrk_free, sbrk_r, Errno, failed}
use libpeli.Base.Word.{add32}
use libpeli.Rt.Arena.Region.{IsValid}

abbrev pub FreedMem1 : Arena → ℕ → ℕ × Arena → Type 0
FreedMem1 a size r = (a.mem1_start + size ≤ a.mem1_end) × (r ≡ (a.mem1_start, a))

abbrev pub FreedMem2 : Arena → ℕ → ℕ × Arena → Type 0
FreedMem2 a size r =
    (a.mem1_end < a.mem1_start + size)
    × (a.mem2_start + size ≤ a.mem2_end)
    × (r.0 ≡ a.mem1_start - size)
    × (r.1.mem1_start ≡ a.mem1_start - size)
    × (r.1.mem2_start ≡ a.mem2_start + size)

-- On valid arenas, giving back a block of a sane size that the heap just took restores the arenas
-- when it came from MEM1. When MEM1 had no room and it came from MEM2, the start of MEM1 moves
-- below what was free, by the size, and the start of MEM2 stays behind the block.
pub sbrk_alloc-sbrk_free :
    (a : Arena) (size : ℕ)
    → IsValid a
    → size ≤ 0x60000000
    → (size ≤ a.mem1_end - a.mem1_start) ⊎ (size ≤ a.mem2_end - a.mem2_start)
    → FreedMem1 a size (sbrk_free (sbrk_alloc a size).1 size)
      ⊎ FreedMem2 a size (sbrk_free (sbrk_alloc a size).1 size)
unfolding sbrk_alloc sbrk_free
sbrk_alloc-sbrk_free a size v small fits = ground arith

abbrev pub SbrkGrows : Arena → ℕ → (Option Errno × ℕ) × Arena → Type 0
SbrkGrows a size r =
    ((p : ℕ) × (r.0 ≡ (none, p)) × (sbrk_alloc a size ≡ (some p, r.1)) × (p ≢ failed))
    ⊎ ((r ≡ ((some Errno.enomem, failed), a)) × (sbrk_alloc a size ≡ (none, a)))

taken_or_none :
    (a : Arena) (size : ℕ)
    → IsValid a
    → ((p : ℕ) × (b : Arena) × (sbrk_alloc a size ≡ (some p, b)) × (p ≢ failed))
      ⊎ (sbrk_alloc a size ≡ (none, a))
unfolding sbrk_alloc
taken_or_none a size v = elim (dec_le (add32 a.mem1_start size) a.mem1_end) [
  | yes fits1 ↦
      let test1 : leb (add32 a.mem1_start size) a.mem1_end ≡ true = ground arith in
      rw test1 (inl (a.mem1_start, _, refl, ground arith))
  | no full1 ↦
      let test1 : leb (add32 a.mem1_start size) a.mem1_end ≡ false = ground arith in
      elim (dec_le (add32 a.mem2_start size) a.mem2_end) [
        | yes fits2 ↦
            let test2 : leb (add32 a.mem2_start size) a.mem2_end ≡ true = ground arith in
            rw (test1, test2) (inl (a.mem2_start, _, refl, ground arith))
        | no full2 ↦
            let test2 : leb (add32 a.mem2_start size) a.mem2_end ≡ false = ground arith in
            rw (test1, test2) (inr refl)
      ]
]

-- A positive size, on valid arenas: the block that the heap takes, which is not the error value, or
-- `ENOMEM` with the arenas unchanged when the heap has none.
pub sbrk_r-SbrkGrows :
    (a : Arena) (size : ℕ) → IsValid a → 0 < size → size < 2 ^ 31 → SbrkGrows a size (sbrk_r a size)
unfolding sbrk_r
sbrk_r-SbrkGrows a size v pos small =
    let nonzero : (size == 0) ≡ false = ground arith in
    let positive : leb (2 ^ 31) size ≡ false = ground arith in
    elim (taken_or_none a size v) [
      | inl (p, b, e, ne) ↦ rw (nonzero, positive, e) (inl (p, refl, refl, ne))
      | inr e ↦ rw (nonzero, positive, e) (inr (refl, refl))
    ]
