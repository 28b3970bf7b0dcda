-- ===== src/Ppc/Bat/Block.antt =====
-- peli/ppc/Bat.hpp: the block of memory that a register pair maps.
use libpeli.Ppc.Bat.{
  mem2_block, mem1_uncached, mem1_cached, BatBits, more_cached, page_field, length_field,
}
use libpeli.Ppc.Bat.Floor.{pow-le}
use libpeli.Ppc.Bat.Powers.{Multiple, lower_Multiple, Multiple-add}
use libpeli.Base.{ℕ, ◌+◌, ◌-◌, ◌*◌, ◌/◌, ◌^◌, ◌≤◌, ◌<◌, ◌≡◌, refl, arith}
use libpeli.Base.Word.{u16, add32, sub32}
use libpeli.Base.Bits.{bit_and_low}
use mathlib.Core.Path.{subst}

-- The address is in the block of the pair, which the supervisor uses, and goes to the other one.
pub record Maps (b : BatBits) (effective physical : ℕ) : Type 0 where
  pub valid : b.up.vs ≡ 1
  pub from : b.up.bepi * 2 ^ 17 ≤ effective
  pub to : effective < b.up.bepi * 2 ^ 17 + (b.up.bl + 1) * 2 ^ 17
  pub at : physical + b.up.bepi * 2 ^ 17 ≡ b.lo.brpn * 2 ^ 17 + effective

-- A pair as the processor wants it: a power of two of bytes, and both ends on a multiple of it.
pub record IsBlock (b : BatBits) (effective physical k : ℕ) : Type 0 where
  pub valid : b.up.vs ≡ 1
  pub first : b.up.bepi * 2 ^ 17 ≡ effective
  pub length : (b.up.bl + 1) * 2 ^ 17 ≡ 2 ^ k
  pub target : b.lo.brpn * 2 ^ 17 ≡ physical
  pub aligned : Multiple k effective
  pub target_aligned : Multiple k physical

pub IsBlock-Maps :
    {b : BatBits} {effective physical k : ℕ} (a : ℕ)
    → IsBlock b effective physical k
    → a < 2 ^ k
    → Maps b (effective + a) (physical + a)
IsBlock-Maps a i h = record {
  valid = i.valid;
  from = omega (arith, i.first);
  to = omega (arith, i.first, i.length);
  at = omega (arith, i.first, i.target);
}

pub raise_Multiple : {a : ℕ} (j k : ℕ) → k ≤ j → Multiple j a → Multiple k a
raise_Multiple {a} j k h m =
    lower_Multiple (j - k) k (subst (λ i. Multiple i a) {x = j} {y = j - k + k} (omega arith) m)

pub page_field_lem : (x : ℕ) → x < 2 ^ 32 → Multiple 17 x → page_field x * 2 ^ 17 ≡ x
page_field_lem x h m = omega (arith, bit_and_low 15 (u16 (x / 2 ^ 17)), m.product)

pub length_field_lem : (k : ℕ) → 17 ≤ k → k < 29 → (length_field (2 ^ k) + 1) * 2 ^ 17 ≡ 2 ^ k
length_field_lem k ge lt =
    let z : Multiple 17 (2 ^ k) =
      raise_Multiple k 17 ge (record { times = 1; product = omega arith }) in
    omega (
      arith,
      bit_and_low 11 (sub32 (2 ^ k) 1 / 2 ^ 17),
      z.product,
      pow-le k 28 (omega arith),
      pow-le 17 k ge,
    )

module _ (effective physical x k : ℕ) (e : Multiple 28 effective) (p : Multiple 28 physical)
    (he : effective ≤ 15 * 2 ^ 28) (hp : physical ≤ 15 * 2 ^ 28) (ge : 17 ≤ k) (lt : k < 29)
    (m : Multiple k x) (h : x + 2 ^ k ≤ 2 ^ 28) where
  ends : (start : ℕ) → Multiple 28 start → Multiple k (start + x)
  ends start s = Multiple-add (raise_Multiple 28 k (omega arith) s) m

  page :
      (start : ℕ)
      → Multiple 28 start
      → start ≤ 15 * 2 ^ 28
      → page_field (add32 start x) * 2 ^ 17 ≡ start + x
  page start s hs =
      let small : add32 start x ≡ start + x = omega (arith, pow-le 17 k ge) in
      rw small (
        page_field_lem (start + x) (omega (arith, pow-le 17 k ge))
          (raise_Multiple k 17 ge (ends start s)))

  pub more_cached-IsBlock :
      IsBlock (more_cached effective physical x (2 ^ k)) (effective + x) (physical + x) k
  unfolding more_cached
  more_cached-IsBlock = record {
    valid = refl;
    first = page effective e he;
    length = length_field_lem k ge lt;
    target = page physical p hp;
    aligned = ends effective e;
    target_aligned = ends physical p;
  }

pub mem1_cached-IsBlock : (k : ℕ) → 17 ≤ k → k < 29 → IsBlock (mem1_cached (2 ^ k)) 0x80000000 0 k
unfolding mem1_cached
mem1_cached-IsBlock k ge lt = record {
  valid = refl;
  first = refl;
  length = length_field_lem k ge lt;
  target = refl;
  aligned = raise_Multiple 28 k (omega arith) (record { times = 8; product = refl });
  target_aligned = record { times = 0; product = omega arith };
}

pub mem1_uncached-IsBlock : IsBlock mem1_uncached 0xc0000000 0 28
unfolding mem1_uncached
mem1_uncached-IsBlock = record {
  valid = refl;
  first = refl;
  length = refl;
  target = refl;
  aligned = record { times = 12; product = refl };
  target_aligned = record { times = 0; product = refl };
}

-- `effective` is 0x90000000 or 0xd0000000.
pub mem2_block-IsBlock :
    (q k wimg : ℕ)
    → q < 16
    → 17 ≤ k
    → k < 29
    → IsBlock (mem2_block (q * 2 ^ 28) (2 ^ k) wimg) (q * 2 ^ 28) 0x10000000 k
unfolding mem2_block
mem2_block-IsBlock q k wimg small ge lt = record {
  valid = refl;
  first = omega arith;
  length = omega (
    arith,
    length_field_lem k ge lt,
    bit_and_low 11 (sub32 (2 ^ k) 1 / 2 ^ 17),
    bit_and_low 11 (u16 (sub32 (2 ^ k) 1 / 2 ^ 17)),
  );
  target = refl;
  aligned = raise_Multiple 28 k (omega arith) (record { times = q; product = refl });
  target_aligned = raise_Multiple 28 k (omega arith) (record { times = 1; product = refl });
}
