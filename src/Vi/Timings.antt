-- ===== src/Vi/Timings.antt =====
-- peli/vi/VideoMode.cpp, the timings: one table for each set of modes, in the order of the
-- source. An unset field of a register is 0.
use libpeli.Base.{◌+◌, ◌/◌}
use libpeli.Vi.Register.{Htr0, Htr1, Vtr, Vtoe, Bbei, Bboi, Hbe, Hbs, Di}

pub record Timings : Type 0 where
  pub htr0 : Htr0
  pub htr1 : Htr1
  pub vtr : Vtr
  pub vto : Vtoe
  pub vte : Vtoe
  pub bbei : Bbei
  pub bboi : Bboi
  pub hbe : Hbe
  pub hbs : Hbs
  pub di : Di

abbrev pub interlaced_ntsc_eurgb60 : Timings
interlaced_ntsc_eurgb60 = record {
  htr0 = record { hcs = 71; hce = 105; hlw = 429 };
  htr1 = record { hbs = 373; hbe = 162; hsy = 64 };
  vtr = record { acv = 240; equ = 6 };
  vto = record { psb = 3; prb = 24 };
  vte = record { psb = 2; prb = 25 };
  bbei = record { be3 = 520; bs3 = 12; be1 = 520; bs1 = 12 };
  bboi = record { be4 = 519; bs4 = 13; be2 = 519; bs2 = 13 };
  hbe = record { hbe656 = 122 };
  hbs = record { hbs656 = 412 };
  di = record { int = 0; enb = 1; vct = 525 / 2 + 1; hct = 429 + 1 };
}

abbrev pub interlaced_pal : Timings
interlaced_pal = record {
  htr0 = record { hcs = 75; hce = 106; hlw = 432 };
  htr1 = record { hbs = 380; hbe = 172; hsy = 64 };
  vtr = record { acv = 287; equ = 5 };
  vto = record { psb = 1; prb = 35 };
  vte = record { psb = 0; prb = 36 };
  bbei = record { be3 = 617; bs3 = 11; be1 = 619; bs1 = 13 };
  bboi = record { be4 = 620; bs4 = 10; be2 = 618; bs2 = 12 };
  hbe = record { hbe656 = 133 };
  hbs = record { hbs656 = 420 };
  di = record { int = 0; enb = 1; vct = 625 / 2 + 1; hct = 432 + 1 };
}

abbrev pub interlaced_pal_m : Timings
interlaced_pal_m = record {
  htr0 = record { hcs = 78; hce = 112; hlw = 429 };
  htr1 = record { hbs = 373; hbe = 162; hsy = 64 };
  vtr = record { acv = 240; equ = 6 };
  vto = record { psb = 3; prb = 24 };
  vte = record { psb = 2; prb = 25 };
  bbei = record { be3 = 516; bs3 = 14; be1 = 518; bs1 = 16 };
  bboi = record { be4 = 519; bs4 = 13; be2 = 517; bs2 = 15 };
  hbe = record { hbe656 = 122 };
  hbs = record { hbs656 = 412 };
  di = record { int = 0; enb = 1; vct = 525 / 2 + 1; hct = 429 + 1 };
}

abbrev pub interlaced_gca : Timings
interlaced_gca = record {
  htr0 = record { hcs = 71; hce = 105; hlw = 429 };
  htr1 = record { hbs = 370; hbe = 159; hsy = 64 };
  vtr = record { acv = 241; equ = 6 };
  vto = record { psb = 1; prb = 24 };
  vte = record { psb = 0; prb = 25 };
  bbei = record { be3 = 520; bs3 = 12; be1 = 520; bs1 = 12 };
  bboi = record { be4 = 519; bs4 = 13; be2 = 519; bs2 = 13 };
  hbe = record { hbe656 = 122 };
  hbs = record { hbs656 = 412 };
  di = record { int = 0; enb = 1; vct = 525 / 2 + 1; hct = 429 + 1 };
}

abbrev pub non_interlaced_ntsc_eurgb60 : Timings
non_interlaced_ntsc_eurgb60 = record {
  htr0 = record { hcs = 71; hce = 105; hlw = 429 };
  htr1 = record { hbs = 373; hbe = 162; hsy = 64 };
  vtr = record { acv = 240; equ = 6 };
  vto = record { psb = 4; prb = 24 };
  vte = record { psb = 4; prb = 24 };
  bbei = record { be3 = 520; bs3 = 12; be1 = 520; bs1 = 12 };
  bboi = record { be4 = 519; bs4 = 13; be2 = 519; bs2 = 13 };
  hbe = record { hbe656 = 122 };
  hbs = record { hbs656 = 412 };
  di = record { int = 0; enb = 1; vct = 526 / 2 + 1; hct = 429 + 1 };
}

abbrev pub non_interlaced_pal : Timings
non_interlaced_pal = record {
  htr0 = record { hcs = 75; hce = 106; hlw = 432 };
  htr1 = record { hbs = 380; hbe = 172; hsy = 64 };
  vtr = record { acv = 287; equ = 5 };
  vto = record { psb = 2; prb = 33 };
  vte = record { psb = 2; prb = 33 };
  bbei = record { be3 = 619; bs3 = 13; be1 = 619; bs1 = 13 };
  bboi = record { be4 = 621; bs4 = 11; be2 = 621; bs2 = 11 };
  hbe = record { hbe656 = 133 };
  hbs = record { hbs656 = 420 };
  di = record { int = 0; enb = 1; vct = 624 / 2 + 1; hct = 432 + 1 };
}

abbrev pub non_interlaced_pal_m : Timings
non_interlaced_pal_m = record {
  htr0 = record { hcs = 78; hce = 112; hlw = 429 };
  htr1 = record { hbs = 373; hbe = 162; hsy = 64 };
  vtr = record { acv = 240; equ = 6 };
  vto = record { psb = 4; prb = 24 };
  vte = record { psb = 4; prb = 24 };
  bbei = record { be3 = 518; bs3 = 16; be1 = 518; bs1 = 16 };
  bboi = record { be4 = 520; bs4 = 14; be2 = 520; bs2 = 14 };
  hbe = record { hbe656 = 122 };
  hbs = record { hbs656 = 412 };
  di = record { int = 0; enb = 1; vct = 526 / 2 + 1; hct = 429 + 1 };
}

abbrev pub progressive_ntsc_pal_m_eurgb60 : Timings
progressive_ntsc_pal_m_eurgb60 = record {
  htr0 = record { hcs = 71; hce = 105; hlw = 429 };
  htr1 = record { hbs = 373; hbe = 162; hsy = 64 };
  vtr = record { acv = 480; equ = 12 };
  vto = record { psb = 6; prb = 48 };
  vte = record { psb = 6; prb = 48 };
  bbei = record { be3 = 1038; bs3 = 24; be1 = 1038; bs1 = 24 };
  bboi = record { be4 = 1038; bs4 = 24; be2 = 1038; bs2 = 24 };
  hbe = record { hbe656 = 122 };
  hbs = record { hbs656 = 412 };
  di = record { int = 0; enb = 1; vct = 1050 / 2 + 1; hct = 429 + 1 };
}

abbrev pub progressive_gca : Timings
progressive_gca = record {
  htr0 = record { hcs = 71; hce = 105; hlw = 429 };
  htr1 = record { hbs = 391; hbe = 180; hsy = 64 };
  vtr = record { acv = 480; equ = 12 };
  vto = record { psb = 6; prb = 48 };
  vte = record { psb = 6; prb = 48 };
  bbei = record { be3 = 1038; bs3 = 24; be1 = 1038; bs1 = 24 };
  bboi = record { be4 = 1038; bs4 = 24; be2 = 1038; bs2 = 24 };
  hbe = record { hbe656 = 122 };
  hbs = record { hbs656 = 412 };
  di = record { int = 0; enb = 1; vct = 1050 / 2 + 1; hct = 429 + 1 };
}

abbrev pub progressive_pal : Timings
progressive_pal = record {
  htr0 = record { hcs = 75; hce = 106; hlw = 432 };
  htr1 = record { hbs = 380; hbe = 172; hsy = 64 };
  vtr = record { acv = 576; equ = 10 };
  vto = record { psb = 6; prb = 62 };
  vte = record { psb = 6; prb = 62 };
  bbei = record { be3 = 1240; bs3 = 20; be1 = 1240; bs1 = 20 };
  bboi = record { be4 = 1240; bs4 = 20; be2 = 1240; bs2 = 20 };
  hbe = record { hbe656 = 122 };
  hbs = record { hbs656 = 420 };
  di = record { int = 0; enb = 1; vct = 1250 / 2 + 1; hct = 432 + 1 };
}

abbrev pub ntsc_3d : Timings
ntsc_3d = record {
  htr0 = record { hcs = 71; hce = 105; hlw = 429 };
  htr1 = record { hbs = 379; hbe = 168; hsy = 64 };
  vtr = record { acv = 480; equ = 12 };
  vto = record { psb = 10; prb = 44 };
  vte = record { psb = 10; prb = 44 };
  bbei = record { be3 = 1038; bs3 = 24; be1 = 1038; bs1 = 24 };
  bboi = record { be4 = 1038; bs4 = 24; be2 = 1038; bs2 = 24 };
  hbe = record { hbe656 = 122 };
  hbs = record { hbs656 = 412 };
  di = record { int = 0; enb = 1; vct = 1050 / 2 + 1; hct = 429 + 1 };
}
