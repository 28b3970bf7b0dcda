-- ===== src/Ppc/Cache.antt =====
-- peli/ppc/Cache.hpp: the operations on a range of cache blocks, as the addresses that the
-- instruction is given, in order. Each acts on the block of 32 bytes around its address.
mod Tests
use libpeli.Base.{
  ◌≢◌, false, ℕ, zero, suc, ◌+◌, ◌-◌, ◌*◌, ◌/◌, ◌%◌, ◌^◌, ◌≤◌, ◌<◌, ◌≡◌, ◌⊎◌, ◌↔◌, inl, inr, refl,
  List, [], ◌∷◌, ltb, ◌==◌, if◌then◌else◌, arith, Bool-cases,
}
use native.Mathlib.Decide.{ℕ_discrete}
use libpeli.Base.Word.{add32}

abbrev pub block_size : ℕ
block_size = 32

-- The loop, on fuel: one more than the size, since a round moves on by 32.
pub op_from : ℕ → ℕ → ℕ → List ℕ
op_from zero start end = []
op_from (suc fuel) start end =
    let rest = op_from fuel (add32 start block_size) end in
    if ltb start end then start ∷ rest else []

pub op_range : ℕ → ℕ → List ℕ
unfolding op_from
op_range address size = if size == 0 then [] else op_from (suc size) address (add32 address size)

-- One of the addresses is in the block.
abbrev pub Touches : ℕ → List ℕ → Type 0
Touches block [] = ⊥
Touches block (a ∷ rest) = (a / 32 ≡ block) ⊎ Touches block rest

op_from-Touches :
    (fuel start end block : ℕ)
    → end + 32 ≤ 2 ^ 32
    → end ≤ start + 32 * fuel
    → Touches block (op_from fuel start end)
      ↔ ((start / 32 ≤ block) × (block * 32 + start % 32 < end))
unfolding op_from
op_from-Touches zero start end block top enough =
    (λ t. absurd t, λ h. absurd (omega (arith, h.0, h.1)))
op_from-Touches (suc fuel) start end block top enough = elim (Bool-cases (ltb start end)) [
  | inr done ↦ rw done (λ t. absurd t, λ h. absurd (past done h))
  | inl more ↦
      let lt : start < end = ground arith in
      let e : add32 start block_size ≡ start + 32 = omega arith in
      let ih : Touches block (op_from fuel (start + 32) end)
          ↔ (((start + 32) / 32 ≤ block) × (block * 32 + (start + 32) % 32 < end)) =
        op_from-Touches fuel (start + 32) end block top (omega arith) in
      rw (more, e)
        (
          λ t. elim t [
            | inl s ↦ (omega (arith, s), omega (arith, s, lt))
            | inr r ↦
                let h : ((start + 32) / 32 ≤ block) × (block * 32 + (start + 32) % 32 < end) =
                  ih.0 r in
                (omega (arith, h.0), omega (arith, h.1))
          ],
          λ h. elim (ℕ_discrete (start / 32) block) [
            | yes s ↦ inl s
            | no ne ↦ inr (ih.1 (omega (arith, ne, h.0), omega (arith, h.1)))
          ],
        )
]
  where
    past : ltb start end ≡ false → (start / 32 ≤ block) × (block * 32 + start % 32 < end) → ⊥
    past done h = ground (arith, done, h.0, h.1)

-- On a range that ends a block before the top of memory, the block of a byte of the range is
-- touched exactly if the offset of the range in its first block, added to the start of that block,
-- is still before the end: always if the range starts a block, otherwise not always in the last one.
pub op_range-Touches :
    (address size b : ℕ)
    → address ≤ b
    → b < address + size
    → address + size + 32 ≤ 2 ^ 32
    → (Touches (b / 32) (op_range address size) ↔ (b / 32 * 32 + address % 32 < address + size))
      × ((address % 32 ≢ 0) ⊎ Touches (b / 32) (op_range address size))
unfolding op_range
op_range-Touches address size b low high top =
    let e : add32 address size ≡ address + size = omega arith in
    let s : (size == 0) ≡ false = ground arith in
    let t : Touches (b / 32) (op_from (suc size) address (address + size))
        ↔ ((address / 32 ≤ b / 32) × (b / 32 * 32 + address % 32 < address + size)) =
      op_from-Touches (suc size) address (address + size) (b / 32) (omega arith) (omega arith) in
    rw (s, e)
      (
        (λ p. (t.0 p).1, λ h. t.1 (omega (arith, low), h)),
        elim (ℕ_discrete (address % 32) 0) [
          | yes z ↦ inr (t.1 (omega (arith, low), omega (arith, z, high)))
          | no ne ↦ inl ne
        ],
      )
