-- ===== src/Ios/Ipc/Refuse.antt =====
-- peli/ios/low/Ipc.cpp: a submission of an open that is not aligned.
use libpeli.Base.{ℕ, ◌≡◌, true, not, ◌||◌, if_true}
use libpeli.Util.Address.{is_aligned}
use libpeli.Ios.Ipc.{
  Ipc, alignment, returned, refuse, ios_error_invalid, ios_open_async, with_block,
}

pub ios_open_async-refused :
    (self path flags queue block : ℕ) (s : Ipc)
    → (not (is_aligned alignment block) || not (is_aligned alignment path)) ≡ true
    → ios_open_async self path flags queue block s
      ≡ returned ios_error_invalid
          (with_block block (record (s.blocks block) { result = ios_error_invalid }) s)
unfolding ios_open_async refuse
ios_open_async-refused self path flags queue block s bad = if_true _ _ bad
