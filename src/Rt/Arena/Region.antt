-- ===== src/Rt/Arena/Region.antt =====
-- What one request takes from the free part of an arena.
use libpeli.Base.Word.{add32, sub32}
use libpeli.Util.Address.Align.{align_down_greatest, align_up_least, align_up_lem, align_down_lem}
use libpeli.Rt.Arena.{
  align_down, align_up, Arena, alloc_from_mem1_lo, alloc_from_mem1_hi, alloc_from_mem2_lo,
  alloc_from_mem2_hi, sbrk_alloc,
}
use native.Mathlib.Decide.{dec_lt, dec_le}
use libpeli.Base.{
  ltb, refl, ◌-◌, ℕ, ◌+◌, ◌%◌, ◌^◌, ◌≤◌, ◌<◌, ◌≡◌, ◌⊎◌, true, Option, none, some, arith,
}
use libpeli.Util.Address.{is_aligned}

-- Both arenas lie in the cached window, MEM1 below MEM2.
pub record IsValid (a : Arena) : Type 0 where
  pub mem1_low : 2 ^ 31 ≤ a.mem1_start
  pub mem1_ordered : a.mem1_start ≤ a.mem1_end
  pub apart : a.mem1_end ≤ a.mem2_start
  pub mem2_ordered : a.mem2_start ≤ a.mem2_end
  pub mem2_high : a.mem2_end ≤ 0x94000000

pub data Request : Type 0 where
  mem1_lo mem1_hi mem2_lo mem2_hi : ℕ → ℕ → Request
  sbrk : ℕ → Request

-- Bytes and alignment; the heap break is not aligned.
abbrev pub size_of : Request → ℕ
size_of (mem1_lo size align) = size
size_of (mem1_hi size align) = size
size_of (mem2_lo size align) = size
size_of (mem2_hi size align) = size
size_of (sbrk size) = size

abbrev pub align_of : Request → ℕ
align_of (mem1_lo size align) = align
align_of (mem1_hi size align) = align
align_of (mem2_lo size align) = align
align_of (mem2_hi size align) = align
align_of (sbrk size) = 1

pub record IsSane (r : Request) : Type 0 where
  pub aligned : 0 < align_of r
  pub small : size_of r + align_of r ≤ 0x60000000

abbrev pub serve : Arena → Request → Option ℕ × Arena
serve a (mem1_lo size align) = alloc_from_mem1_lo a size align
serve a (mem1_hi size align) = alloc_from_mem1_hi a size align
serve a (mem2_lo size align) = alloc_from_mem2_lo a size align
serve a (mem2_hi size align) = alloc_from_mem2_hi a size align
serve a (sbrk size) = sbrk_alloc a size

-- The block lies in the free part of one arena of `a`, and in no free part of `b`, whose free parts
-- are those of `a` without it.
abbrev pub Takes : Arena → Arena → ℕ → ℕ → Type 0
Takes a b ptr size =
    ((a.mem1_start ≤ ptr)
      × (ptr + size ≤ a.mem1_end)
      × ((ptr + size ≤ b.mem1_start) ⊎ (b.mem1_end ≤ ptr)))
    ⊎ ((a.mem2_start ≤ ptr)
        × (ptr + size ≤ a.mem2_end)
        × ((ptr + size ≤ b.mem2_start) ⊎ (b.mem2_end ≤ ptr)))

pub record Shrinks (a b : Arena) : Type 0 where
  pub start1 : a.mem1_start ≤ b.mem1_start
  pub end1 : b.mem1_end ≤ a.mem1_end
  pub start2 : a.mem2_start ≤ b.mem2_start
  pub end2 : b.mem2_end ≤ a.mem2_end

-- No aligned block of the size fits the free part that the request names (either, for the heap).
abbrev pub NoRoom : Arena → Request → Type 0
NoRoom a (mem1_lo size align) = (p : ℕ) → p % align ≡ 0 → a.mem1_start ≤ p → a.mem1_end < p + size
NoRoom a (mem1_hi size align) = (p : ℕ) → p % align ≡ 0 → a.mem1_start ≤ p → a.mem1_end < p + size
NoRoom a (mem2_lo size align) = (p : ℕ) → p % align ≡ 0 → a.mem2_start ≤ p → a.mem2_end < p + size
NoRoom a (mem2_hi size align) = (p : ℕ) → p % align ≡ 0 → a.mem2_start ≤ p → a.mem2_end < p + size
NoRoom a (sbrk size) = (a.mem1_end < a.mem1_start + size) × (a.mem2_end < a.mem2_start + size)

-- What a request gives: no change where no such block fits, or an aligned block from the free part.
abbrev pub Served : Arena → Request → Option ℕ × Arena → Type 0
Served a r (none, b) = (b ≡ a) × NoRoom a r
Served a r (some ptr, b) =
    (is_aligned (align_of r) ptr ≡ true) × Takes a b ptr (size_of r) × Shrinks a b × IsValid b

lo_room :
    (start end size align : ℕ)
    → 0 < align
    → start + align ≤ 2 ^ 32
    → end < align_up align start + size
    → (p : ℕ) → p % align ≡ 0
    → start ≤ p
    → end < p + size
lo_room start end size align h fits over p e le =
    omega (arith, align_up_least align start p h fits e le, over)

hi_room :
    (start end size align : ℕ)
    → 0 < align
    → size ≤ end
    → align_down align (end - size) < start
    → (p : ℕ) → p % align ≡ 0
    → start ≤ p
    → end < p + size
hi_room start end size align h fits under p e le = elim (dec_le p (end - size)) [
  | yes below ↦
      absurd (omega (arith, align_down_greatest align (end - size) p h e below, under, le))
  | no above ↦ omega (arith, above)
]

-- On valid arenas a request of a sane size either changes nothing, and then no aligned block of
-- that size fits the free part it names; or it returns an aligned block that lies in the old free
-- part of one arena and outside the new one, both free parts only shrink, and the arenas stay
-- valid.
pub serve-Served : (a : Arena) (r : Request) → IsValid a → IsSane r → Served a r (serve a r)
unfolding alloc_from_mem1_lo alloc_from_mem1_hi alloc_from_mem2_lo alloc_from_mem2_hi sbrk_alloc
    is_aligned
serve-Served a (mem1_lo size align) v s =
    let up = align_up_lem align a.mem1_start s.aligned (omega (arith, v, s.small)) in
    let ptr = align_up align a.mem1_start in
    let sum : add32 ptr size ≡ ptr + size = omega (arith, up, v, s.small) in
    elim (dec_lt a.mem1_end (ptr + size)) [
      | yes over ↦
          let test : ltb a.mem1_end (add32 ptr size) ≡ true = ground (arith, sum, over) in
          rw test (
            refl,
            lo_room a.mem1_start a.mem1_end size align s.aligned (omega (arith, v, s.small)) over,
          )
      | no fits ↦ ground (arith, up, fits)
    ]
serve-Served a (mem1_hi size align) v s =
    let less : sub32 a.mem1_end size ≡ a.mem1_end - size = omega (arith, v, s.small) in
    let down = align_down_lem align (a.mem1_end - size) s.aligned in
    let ptr = align_down align (a.mem1_end - size) in
    rw (less, alloc_from_mem1_hi)
      (elim (dec_lt ptr a.mem1_start) [
        | yes under ↦
            let test : ltb ptr a.mem1_start ≡ true = ground (arith, under) in
            rw test (
              refl,
              hi_room a.mem1_start a.mem1_end size align s.aligned (omega (arith, v, s.small))
                  under,
            )
        | no fits ↦ ground (arith, down, fits)
      ])
serve-Served a (mem2_lo size align) v s =
    let up = align_up_lem align a.mem2_start s.aligned (omega (arith, v, s.small)) in
    let ptr = align_up align a.mem2_start in
    let sum : add32 ptr size ≡ ptr + size = omega (arith, up, v, s.small) in
    elim (dec_lt a.mem2_end (ptr + size)) [
      | yes over ↦
          let test : ltb a.mem2_end (add32 ptr size) ≡ true = ground (arith, sum, over) in
          rw test (
            refl,
            lo_room a.mem2_start a.mem2_end size align s.aligned (omega (arith, v, s.small)) over,
          )
      | no fits ↦ ground (arith, up, fits)
    ]
serve-Served a (mem2_hi size align) v s =
    let less : sub32 a.mem2_end size ≡ a.mem2_end - size = omega (arith, v, s.small) in
    let down = align_down_lem align (a.mem2_end - size) s.aligned in
    let ptr = align_down align (a.mem2_end - size) in
    rw (less, alloc_from_mem2_hi)
      (elim (dec_lt ptr a.mem2_start) [
        | yes under ↦
            let test : ltb ptr a.mem2_start ≡ true = ground (arith, under) in
            rw test (
              refl,
              hi_room a.mem2_start a.mem2_end size align s.aligned (omega (arith, v, s.small))
                  under,
            )
        | no fits ↦ ground (arith, down, fits)
      ])
serve-Served a (sbrk size) v s = ground arith
