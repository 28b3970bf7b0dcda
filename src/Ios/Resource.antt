-- ===== src/Ios/Resource.antt =====
-- peli/ios/Resource.hpp: the owner of a file descriptor. What the open call answers is an argument;
-- the destructor's close is that of Ios.Ipc.Sync, if there is one.
use libpeli.Base.{
  ℕ, ◌-◌, ◌^◌, ◌<◌, ◌≤◌, ◌≡◌, refl, Bool, true, false, Option, none, some, ltb, if◌then◌else◌,
  arith,
}
use libpeli.Ios.Ipc.{Ipc, Submitted}
use libpeli.Ios.Ipc.Sync.{Started, ios_close}
use libpeli.Ios.Request.{Request, new_close, new_read, new_write, new_seek, new_ioctl, new_ioctlv}

-- -6, on 32 bits.
abbrev pub ios_error_noexists : ℕ
ios_error_noexists = 2 ^ 32 - 6

pub record Resource : Type 0 where
  pub handle : ℕ

abbrev pub no_resource : Resource
no_resource = record { handle = ios_error_noexists }

-- From the answer of `IOS_Open`, or from a handle.
abbrev pub of_handle : ℕ → Resource
of_handle handle = record { handle = handle }

-- The new resource, and the one moved from.
abbrev pub moved_from : Resource → Resource × Resource
moved_from other = (record { handle = other.handle }, other)

pub is_valid : Resource → Bool
is_valid r = ltb r.handle (2 ^ 31)

-- The destructor, with a reply queue and a block.
pub destruct : ℕ → ℕ → ℕ → Resource → Ipc → Option Started
unfolding is_valid
destruct self queue block r s =
    if is_valid r then some (ios_close self r.handle queue block s) else none

module _ (self : ℕ) (resource : Resource) where
  abbrev pub close : Request → Ipc → Submitted × Request
  close r s = new_close self resource.handle r s

  abbrev pub read : ℕ → ℕ → Request → Ipc → Submitted × Request
  read start size r s = new_read self resource.handle start size r s

  abbrev pub write : ℕ → ℕ → Request → Ipc → Submitted × Request
  write start size r s = new_write self resource.handle start size r s

  abbrev pub seek : ℕ → ℕ → Request → Ipc → Submitted × Request
  seek where_to whence r s = new_seek self resource.handle where_to whence r s

  abbrev pub ioctl : ℕ → ℕ → ℕ → ℕ → ℕ → Request → Ipc → Submitted × Request
  ioctl command input in_size output out_size r s =
      new_ioctl self resource.handle command input in_size output out_size r s

  abbrev pub ioctlv : ℕ → ℕ → ℕ → ℕ → Request → Ipc → Submitted × Request
  ioctlv command in_count out_count vec r s =
      new_ioctlv self resource.handle command in_count out_count vec r s

-- A resource that was moved closes its handle like the one moved to: a descriptor is closed twice.
pub moved_from-destruct :
    (self queue block : ℕ) (r : Resource) (s s' : Ipc)
    → r.handle < 2 ^ 31
    → (destruct self queue block (moved_from r).0 s ≡ some (ios_close self r.handle queue block s))
      × (destruct self queue block (moved_from r).1 s'
          ≡ some (ios_close self r.handle queue block s'))
unfolding destruct is_valid
moved_from-destruct self queue block r s s' h =
    let open_one : ltb r.handle (2 ^ 31) ≡ true = ground arith in
    (rw open_one refl, rw open_one refl)

-- A resource without a descriptor, as after an open that failed, closes nothing.
pub destruct-none :
    (self queue block : ℕ) (r : Resource) (s : Ipc)
    → 2 ^ 31 ≤ r.handle
    → destruct self queue block r s ≡ none
unfolding destruct is_valid
destruct-none self queue block r s h =
    let shut : ltb r.handle (2 ^ 31) ≡ false = ground arith in rw shut refl
