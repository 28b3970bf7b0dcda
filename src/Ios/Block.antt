-- ===== src/Ios/Block.antt =====
-- The command block of a request to IOS, its arguments and its vectors, and the pointers that a
-- reply gives back (peli/ios/low/Ipc.hpp, peli/ios/low/Ipc.cpp).
use libpeli.Base.{ℕ, zero, suc, ◌-◌, ◌^◌, ◌==◌, if◌then◌else◌}
use libpeli.Base.Word.{add32}
use libpeli.Util.Address.{physical, effective}

abbrev pub alignment : ℕ
alignment = 32

abbrev pub path_size : ℕ
path_size = 64

abbrev pub ios_error_ok : ℕ
ios_error_ok = 0

-- -4, as a 32-bit pattern.
abbrev pub ios_error_invalid : ℕ
ios_error_invalid = 2 ^ 32 - 4

pub record IoVector : Type 0 where
  pub start : ℕ
  pub size : ℕ

-- The union of arguments, with `cmd` as its tag.
pub data Args : Type 0 where
  opens : ℕ → ℕ → Args
  closes : Args
  reads writes : ℕ → ℕ → Args
  seeks : ℕ → ℕ → Args
  ioctls : ℕ → ℕ → ℕ → ℕ → ℕ → Args
  ioctlvs : ℕ → ℕ → ℕ → ℕ → Args

abbrev pub cmd_of : Args → ℕ
cmd_of (opens path flags) = 1
cmd_of closes = 2
cmd_of (reads start size) = 3
cmd_of (writes start size) = 4
cmd_of (seeks where_to whence) = 5
cmd_of (ioctls cmd input in_size output out_size) = 6
cmd_of (ioctlvs cmd in_count out_count vec) = 7

pub record CommandBlock : Type 0 where
  pub result : ℕ
  pub fd : ℕ
  pub args : Args
  pub queue : ℕ

abbrev pub IoVectors : Type 0
IoVectors = ℕ → IoVector

abbrev pub set_at {ℓ} : {A : Type ℓ} → ℕ → A → (ℕ → A) → ℕ → A
set_at p x f j = if j == p then x else f j

-- `for (i = index; i < index + left; i++) vec[i] = f(vec[i])`
unfoldable pub each_vector : (IoVector → IoVector) → ℕ → ℕ → IoVectors → IoVectors
each_vector f index zero vec = vec
each_vector f index (suc left) vec =
    each_vector f (suc index) left (set_at index (f (vec index)) vec)

abbrev pub to_effective : IoVector → IoVector
to_effective v = if v.size == 0 then v else record v { start = effective v.start }

abbrev pub to_physical : IoVector → IoVector
to_physical v = if v.size == 0 then v else record v { start = physical v.start }

-- The arguments as the user sees them again.
abbrev pub fix_args : Args → Args
fix_args (reads start size) = reads (effective start) size
fix_args (writes start size) = writes (effective start) size
fix_args (ioctls cmd input in_size output out_size) =
    ioctls cmd (if in_size == 0 then input else effective input) in_size
      (if out_size == 0 then output else effective output) out_size
fix_args (ioctlvs cmd in_count out_count vec) = ioctlvs cmd in_count out_count (effective vec)
fix_args (opens path flags) = opens path flags
fix_args closes = closes
fix_args (seeks where_to whence) = seeks where_to whence

abbrev pub fix_vectors : Args → (ℕ → IoVectors) → ℕ → IoVectors
fix_vectors (ioctlvs cmd in_count out_count vec) m =
    set_at (effective vec)
      (each_vector to_effective 0 (add32 in_count out_count) (m (effective vec))) m
fix_vectors (opens path flags) m = m
fix_vectors closes m = m
fix_vectors (reads start size) m = m
fix_vectors (writes start size) m = m
fix_vectors (seeks where_to whence) m = m
fix_vectors (ioctls cmd input in_size output out_size) m = m
