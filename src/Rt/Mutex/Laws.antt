-- ===== src/Rt/Mutex/Laws.antt =====
-- Locking and unlocking.
use libpeli.Rt.Thread.RunQueue.{false_ne_true}
use libpeli.Base.Word.{u16}
use libpeli.Base.{
  Bool-cases, ap, sym, ◌∙◌, ℕ, ◌+◌, ◌-◌, ◌^◌, ◌<◌, ◌≡◌, ◌≢◌, ◌⊎◌, inl, inr, true, false, ltb, some,
  arith,
}
use libpeli.Rt.Thread.{Kernel, returned}
use libpeli.Rt.Mutex.{Mutex, try_lock, unlock, lock, own, is_own}

refused :
    (current : ℕ) (m : Mutex)
    → ltb 0 m.lock_count ≡ true
    → is_own current m ≡ false
    → (try_lock current m).0 ≡ false
unfolding try_lock
refused current m test not_own = rw (test, not_own)

-- Where `TryLock` succeeds on a mutex that is held, by its owner on a recursive one and with a
-- count that does not wrap, `Unlock` undoes it, wakes no thread and touches no other state.
pub try_lock-unlock :
    (current : ℕ) (m : Mutex) (k : Kernel)
    → 0 < m.lock_count
    → m.lock_count + 1 < 2 ^ 16
    → (try_lock current m).0 ≡ true
    → unlock (try_lock current m).1 k ≡ some (m, k)
unfolding try_lock unlock
try_lock-unlock current m k held small ok =
    let test : ltb 0 m.lock_count ≡ true = ground arith in
    let after : ltb 0 (u16 (m.lock_count + 1)) ≡ true = ground arith in
    let left : ltb 0 (u16 (m.lock_count + 1) - 1) ≡ true = ground arith in
    elim (Bool-cases (is_own current m)) [
      | inl is ↦
          rw (test, is, after, left)
            (ap (λ c. some (record m { lock_count = c }, k)) {x = u16 (m.lock_count + 1) - 1}
              {y = m.lock_count} (omega (arith, small)))
      | inr not_own ↦ absurd (false_ne_true (sym (refused current m test not_own) ∙ ok))
    ]

-- `TryLock` on every branch: it takes a free mutex, counts up for the owner of a recursive one, and
-- refuses any other that is held, which it leaves alone. `Lock` does the same to the mutex where
-- `TryLock` succeeds, and does not sleep there.
pub try_lock_lem :
    (m : Mutex) (k : Kernel)
    → m.lock_count + 1 < 2 ^ 16
    → ((try_lock k.current m).0 ≡ true)
        × ((try_lock k.current m).1.lock_count ≡ m.lock_count + 1)
        × ((try_lock k.current m).1.owner_thread ≡ k.current)
        × ((m.lock_count ≡ 0) ⊎ ((m.recursive ≡ true) × (m.owner_thread ≡ k.current)))
        × (lock m k ≡ some ((try_lock k.current m).1, returned k))
      ⊎ (try_lock k.current m ≡ (false, m))
        × (0 < m.lock_count)
        × ((m.recursive ≡ false) ⊎ (m.owner_thread ≢ k.current))
unfolding try_lock lock own
try_lock_lem m k small = ground arith

-- Where a thread sleeps in `Lock` and another takes the free mutex before it goes on, the sleeper
-- takes it as well: the count is 2 and the owner is the sleeper, on a mutex that is not recursive
-- too.
pub own-try_lock :
    (taker sleeper : ℕ) (m : Mutex)
    → m.lock_count ≡ 0
    → ((try_lock taker m).0 ≡ true)
      × ((own sleeper (try_lock taker m).1).lock_count ≡ 2)
      × ((own sleeper (try_lock taker m).1).owner_thread ≡ sleeper)
unfolding try_lock own
own-try_lock taker sleeper m free = ground arith
