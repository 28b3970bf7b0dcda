-- ===== src/Nand/SysConf/Lock.antt =====
-- The states of the reader. The request that the constructor started is of another part: `answer`
-- is the result of `m_request.Sync()` and the data that it leaves.
use native.Mathlib.Decide.{ℕ_discrete}
use libpeli.Base.{
  ap, ℕ, ◌+◌, ◌-◌, ◌*◌, ◌≤◌, ◌≡◌, ◌⊎◌, inl, inr, Bool, true, false, Bool-cases, not, ◌&&◌, ◌||◌,
  Option, some, ◌==◌, ltb, if◌then◌else◌, ◌>>=◌, arith, refl,
}
use libpeli.Nand.SysConf.{Data, size, lookup_table_offset, read16, get_header_size}
use libpeli.Nand.SysConf.Match.{header_of, header_lem, read16_in}

pub data State : Type 0 where
  invalid valid error : State

-- `locked` tells whether the caller holds the mutex.
pub record SysConf : Type 0 where
  pub state : State
  pub bytes : Data
  pub locked : Bool

abbrev pub header_magic : ℕ
header_magic = 0x53437630

abbrev pub end_magic : ℕ
end_magic = 0x53436564

unfoldable pub read32 : Data → ℕ → Option ℕ
read32 d offset = do high ← read16 d offset; low ← read16 d (offset + 2); some (high * 65536 + low)

-- The checks of `lock` on the data.
pub is_good : Data → Option Bool
unfolding read32
is_good d = do
  first ← read32 d 0
  final ← read32 d (size - 4)
  header_size ← get_header_size d
  some (
      (first == header_magic)
      && (final == end_magic)
      && not (ltb header_size 8 || ltb lookup_table_offset header_size))

-- `lock` in each state. Refusing, it releases the mutex and returns null.
abbrev lock_in : State → ℕ × Data → SysConf → Option (Bool × SysConf)
lock_in error (result, answer) c = some (false, c)
lock_in valid (result, answer) c = some (true, record c { locked = true })
lock_in invalid (result, answer) c =
    let failed : SysConf = record { state = error; bytes = answer; locked = c.locked } in
    if result == size
    then (do
      good ← is_good answer
      some (
          if good
          then (true, record { state = valid; bytes = answer; locked = true })
          else (false, failed)))
    else some (false, failed)

pub lock : ℕ × Data → SysConf → Option (Bool × SysConf)
unfolding is_good
lock answer c = lock_in c.state answer c

-- A reader that is valid has data with a valid header.
abbrev pub IsSound : SysConf → Type 0
IsSound c = c.state ≡ valid → header_of c.bytes ≤ lookup_table_offset

-- The mutex is handed out on valid data, or the reader is in error for good.
abbrev pub Locked : SysConf → Bool × SysConf → Type 0
Locked c (b, c') =
    ((b ≡ true)
      × (c'.locked ≡ true)
      × (c'.state ≡ valid)
      × (header_of c'.bytes ≤ lookup_table_offset))
    ⊎ ((b ≡ false)
        × (c'.locked ≡ c.locked)
        × (c'.state ≡ error)
        × ((answer : ℕ × Data) → lock answer c' ≡ some (false, c')))

-- The data of the reader afterwards are the old ones or those of the request.
abbrev pub KeepsData : Data → SysConf → Bool × SysConf → Type 0
KeepsData answer c r = (r.1.bytes ≡ c.bytes) ⊎ (r.1.bytes ≡ answer)

is_good_lem :
    (d : Data) → (b : Bool) × (is_good d ≡ some b) × (b ≡ true → header_of d ≤ lookup_table_offset)
unfolding is_good read32
is_good_lem d =
    let first = (d 0 * 256 + d 1) * 65536 + (d 2 * 256 + d 3) in
    let at = size - 4 in
    let final = (d at * 256 + d (at + 1)) * 65536 + (d (at + 2) * 256 + d (at + 2 + 1)) in
    let b =
      (first == header_magic)
      && (final == end_magic)
      && not (ltb (header_of d) 8 || ltb lookup_table_offset (header_of d)) in
    (
      b,
      rw (
        read16_in d 0 (omega arith),
        read16_in d 2 (omega arith),
        read16_in d at (omega arith),
        read16_in d (at + 2) (omega arith),
        header_lem d,
      ),
      λ t. ground (arith, t),
    )

refuses : (c : SysConf) (answer : ℕ × Data) → c.state ≡ error → lock answer c ≡ some (false, c)
unfolding lock
refuses c answer e = ap (λ s. lock_in s answer c) e

lock_in-Locked :
    (s : State) (result : ℕ) (answer : Data) (c : SysConf)
    → c.state ≡ s
    → IsSound c
    → (r : Bool × SysConf) × (lock_in s (result, answer) c ≡ some r)
      × Locked c r
      × KeepsData answer c r
lock_in-Locked error result answer c e h =
    ((false, c), refl, inr (refl, refl, e, λ a. refuses c a e), inl refl)
lock_in-Locked valid result answer c e h =
    ((true, record c { locked = true }), refl, inl (refl, refl, e, h e), inl refl)
lock_in-Locked invalid result answer c e h =
    let failed : SysConf = record { state = error; bytes = answer; locked = c.locked } in
    elim (ℕ_discrete result size) [
      | no other ↦
          let test : (result == size) ≡ false = ground arith in
          ((false, failed), rw test, inr (refl, refl, refl, λ a. refuses failed a refl), inr refl)
      | yes full ↦
          let test : (result == size) ≡ true = ground arith in
          let (b, checks, fits) = is_good_lem answer in
          elim (Bool-cases b) [
            | inl good ↦ (
              (true, record { state = valid; bytes = answer; locked = true }),
              rw (test, checks, good),
              inl (refl, refl, refl, fits good),
              inr refl,
            )
            | inr bad ↦ (
              (false, failed),
              rw (test, checks, bad),
              inr (refl, refl, refl, λ a. refuses failed a refl),
              inr refl,
            )
          ]
    ]

-- `lock` of a reader whose data has a header that fits if it is valid, whatever the request
-- answers: it reads nothing past the data, and either hands out the mutex on a valid reader with
-- such data, or releases it and leaves the reader in error, in which every later `lock` refuses.
-- The data of the reader are the old ones or those of the request.
pub lock-Locked :
    (answer : ℕ × Data) (c : SysConf)
    → IsSound c
    → (r : Bool × SysConf) × (lock answer c ≡ some r) × Locked c r × KeepsData answer.1 c r
unfolding lock
lock-Locked (result, answer) c h = lock_in-Locked c.state result answer c refl h
