-- ===== src/Ios/Ipc/Path.antt =====
-- peli/util/String.hpp, StrCopy: a bounded copy of a string, here the path of an open. A string
-- is a function of the index.
use mathlib.Core.Path.{subst}
use libpeli.Base.{
  ap, sym, ◌∙◌, ℕ, zero, suc, ◌+◌, ◌-◌, ◌≤◌, ◌<◌, ◌≡◌, ◌≢◌, true, false, ◌==◌, if◌then◌else◌, arith,
}
use native.Mathlib.Decide.{ℕ_discrete}

abbrev put : ℕ → ℕ → (ℕ → ℕ) → ℕ → ℕ
put i c dst j = if j == i then c else dst j

-- The loop from `i` with `left` rounds to go, then the end of a string that does not fit.
pub copy_from : ℕ → ℕ → (ℕ → ℕ) → (ℕ → ℕ) → ℕ × (ℕ → ℕ)
copy_from zero i src dst = (i, put (i - 1) 0 dst)
copy_from (suc left) i src dst =
    let rest = copy_from left (suc i) src (put i (src i) dst) in
    if src i == 0 then (i, put i (src i) dst) else rest

pub str_copy : ℕ → (ℕ → ℕ) → (ℕ → ℕ) → ℕ × (ℕ → ℕ)
unfolding copy_from
str_copy max src dst = if max == 0 then (0, dst) else copy_from max 0 src dst

-- The first `n` bytes are not 0.
abbrev pub IsRunning : (ℕ → ℕ) → ℕ → Type 0
IsRunning src n = (j : ℕ) → j < n → src j ≢ 0

-- The string with its end, if it ends before `max`; else its first `max - 1` bytes, ended.
pub data Copied (max : ℕ) (src dst : ℕ → ℕ) : ℕ → Type 0 where
  whole :
      (n : ℕ)
      → n < max
      → IsRunning src n
      → src n ≡ 0
      → ((j : ℕ) → j ≤ n → dst j ≡ src j)
      → Copied max src dst n
  cut :
      IsRunning src max
      → ((j : ℕ) → j < max - 1 → dst j ≡ src j)
      → dst (max - 1) ≡ 0
      → Copied max src dst max

put_ne : (i c j : ℕ) (dst : ℕ → ℕ) → j ≢ i → put i c dst j ≡ dst j
put_ne i c j dst ne = ground arith

put_self : (i c : ℕ) (dst : ℕ → ℕ) → put i c dst i ≡ c
put_self i c dst = ground arith

-- One byte more is copied.
put-up_to :
    (i : ℕ) (src dst : ℕ → ℕ)
    → ((j : ℕ) → j < i → dst j ≡ src j)
    → (j : ℕ) → j ≤ i
    → put i (src i) dst j ≡ src j
put-up_to i src dst same j le = elim (ℕ_discrete j i) [
  | yes e ↦ rw e (put_self i (src i) dst)
  | no ne ↦ put_ne i (src i) j dst ne ∙ same j (omega arith)
]

IsRunning-suc : (i : ℕ) (src : ℕ → ℕ) → IsRunning src i → src i ≢ 0 → IsRunning src (suc i)
IsRunning-suc i src run more j lt = elim (ℕ_discrete j i) [
  | yes e ↦ λ z. more (ap src (sym e) ∙ z)
  | no ne ↦ run j (omega arith)
]

copy_from-Copied :
    (max left i : ℕ) (src dst : ℕ → ℕ)
    → i + left ≡ max
    → 0 < max
    → IsRunning src i
    → ((j : ℕ) → j < i → dst j ≡ src j)
    → (let r = copy_from left i src dst in Copied max src r.1 r.0)
unfolding copy_from
copy_from-Copied max zero i src dst e pos run same =
    let at_max : i ≡ max = omega arith in
    subst (λ m. Copied m src (put (i - 1) 0 dst) i) at_max
      (cut run (λ j lt. put_ne (i - 1) 0 j dst (omega arith) ∙ same j (omega arith))
        (put_self (i - 1) 0 dst))
copy_from-Copied max (suc left) i src dst e pos run same = elim (ℕ_discrete (src i) 0) [
  | yes stop ↦
      let test : (src i == 0) ≡ true = ground arith in
      rw test (whole i (omega arith) run stop (put-up_to i src dst same))
  | no more ↦
      let test : (src i == 0) ≡ false = ground arith in
      rw test (
        copy_from-Copied max left (suc i) src (put i (src i) dst) (omega arith) pos
          (IsRunning-suc i src run more) (λ j lt. put-up_to i src dst same j (omega arith)))
]

-- Into a buffer that is not empty, a string that ends before the bound is copied whole and its
-- length returned; of any other the bound is returned, and all but the last byte of the buffer
-- holds its start, ended.
pub str_copy-Copied :
    (max : ℕ) (src dst : ℕ → ℕ) → 0 < max → (let r = str_copy max src dst in Copied max src r.1 r.0)
unfolding str_copy
str_copy-Copied max src dst pos =
    let test : (max == 0) ≡ false = ground arith in
    rw test (
      copy_from-Copied max max 0 src dst (omega arith) pos (λ j lt. absurd (omega arith))
        (λ j lt. absurd (omega arith)))
