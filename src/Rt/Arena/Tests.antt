-- ===== src/Rt/Arena/Tests.antt =====
-- The arena theorems at concrete arenas.
use libpeli.Base.{List, [], ◌∷◌, arith}
use libpeli.Rt.Arena.{Arena}
use libpeli.Rt.Arena.Region.{IsValid, Request}
use libpeli.Rt.Arena.Trace.{IsRun, run, run-IsRun}

abbrev two_arenas : Arena
two_arenas = record {
  mem1_start = 0x80004001;
  mem1_end = 0x80004100;
  mem2_start = 0x90000800;
  mem2_end = 0x93400000;
}

abbrev requests : List Request
requests =
    Request.mem1_lo 16 32
    ∷ Request.mem2_hi 100 4
    ∷ Request.mem1_hi 0x300 32
    ∷ Request.sbrk 0x800
    ∷ []

two_arenas-IsValid : IsValid two_arenas
two_arenas-IsValid = ground arith

run-IsRun_example : IsRun two_arenas (run two_arenas requests).0 (run two_arenas requests).1
run-IsRun_example = run-IsRun two_arenas requests two_arenas-IsValid (ground arith)
