-- ===== src/Rt/Once/Tests.antt =====
-- Two threads: one is let in, the other loops until the first has left.
use libpeli.Base.{refl}
use libpeli.Rt.Once.{
  Guards, uninitialized, before, Reaches, start, enters, tries, leaves_inside, enter, try_again,
  leave_as, left_inside,
}
use libpeli.Rt.Once.Winner.{Agrees, reaches-Agrees}

abbrev fresh : Guards
fresh = record { progress = uninitialized; phases = λ t. before }

abbrev one_done : Guards
one_done = try_again 2 (leave_as 1 left_inside (enter 2 (enter 1 fresh)))

one_done-Reaches : Reaches one_done
one_done-Reaches = tries 2 refl (leaves_inside 1 refl (enters 2 refl (enters 1 refl start)))

reaches-Agrees_example : Agrees one_done.progress one_done.phases
reaches-Agrees_example = reaches-Agrees one_done-Reaches
