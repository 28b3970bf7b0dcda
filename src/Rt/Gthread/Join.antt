-- ===== src/Rt/Gthread/Join.antt =====
-- peli/rt/GThread.cpp: what joining a thread does.
use libpeli.Base.{ℕ, ◌≡◌, ◌≢◌, refl, true, false, List, ◌∷◌, some, ◌==◌, arith}
use libpeli.Util.LinkList.{nullptr}
use libpeli.Util.LinkList.Chain.{Holds}
use libpeli.Rt.Thread.{Kernel, exited, returned}
use libpeli.Rt.Thread.Life.{join, Destroyed, destroy-Destroyed, is_disabled, is_exited}
use libpeli.Rt.Gthread.{gthread_join, joined, finish_join, answered, refused, gthread_self}

-- A thread that has exited, the first of the list and not the one that runs, is joined with 0 and
-- destroyed. The thread that runs gets -1 for itself, by its address and by what `self` gives.
pub gthread_join_lem :
    (none_context t : ℕ) (ts : List ℕ) (k : Kernel)
    → Holds k.thread_links k.thread_list (t ∷ ts)
    → (k.threads t).state ≡ exited
    → t ≢ nullptr
    → k.current ≢ nullptr
    → k.current ≢ t
    → ((k' : Kernel) × (gthread_join none_context t k ≡ some (answered 0 (returned k')))
        × Destroyed t ts k k')
      × (gthread_join none_context k.current k ≡ some (answered refused (returned k)))
      × (gthread_join none_context gthread_self k ≡ some (answered refused (returned k)))
unfolding gthread_join join joined finish_join
gthread_join_lem none_context t ts k h e named running not_self =
    let alive : is_disabled (k.threads t).state ≡ false = rw e refl in
    let over : is_exited (k.threads t).state ≡ true = rw e refl in
    let (k', gone, d) = destroy-Destroyed none_context t ts k h alive not_self in
    let a : (t == nullptr) ≡ false = ground arith in
    let b : (k.current == nullptr) ≡ false = ground arith in
    let c : (k.current == t) ≡ false = ground arith in
    let same : (k.current == k.current) ≡ true = ground arith in
    (
      (k', rw (a, b, c, alive, over, gone) (rw a refl), d),
      rw (b, same) (rw b refl),
      rw (b, same) refl,
    )
