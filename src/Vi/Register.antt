-- ===== src/Vi/Register.antt =====
-- peli/hw/VideoInterface.hpp: the registers of the video interface that the program sets. A field
-- is a number; its bits are named where its bound is stated.
use libpeli.Base.{ℕ}

pub record Vtr : Type 0 where
  pub acv : ℕ
  pub equ : ℕ

pub record Dcr : Type 0 where
  pub fmt : ℕ
  pub le1 : ℕ
  pub le0 : ℕ
  pub dlr : ℕ
  pub nin : ℕ
  pub rst : ℕ
  pub enb : ℕ

pub record Htr0 : Type 0 where
  pub hcs : ℕ
  pub hce : ℕ
  pub hlw : ℕ

pub record Htr1 : Type 0 where
  pub hbs : ℕ
  pub hbe : ℕ
  pub hsy : ℕ

pub record Vtoe : Type 0 where
  pub psb : ℕ
  pub prb : ℕ

pub record Bbei : Type 0 where
  pub be3 : ℕ
  pub bs3 : ℕ
  pub be1 : ℕ
  pub bs1 : ℕ

pub record Bboi : Type 0 where
  pub be4 : ℕ
  pub bs4 : ℕ
  pub be2 : ℕ
  pub bs2 : ℕ

pub record Fbl : Type 0 where
  pub poff : ℕ
  pub xof : ℕ
  pub fbb : ℕ

pub record Di : Type 0 where
  pub int : ℕ
  pub enb : ℕ
  pub vct : ℕ
  pub hct : ℕ

pub record Hsw : Type 0 where
  pub wpl : ℕ
  pub std : ℕ

pub record Hsr : Type 0 where
  pub hs_en : ℕ
  pub stp : ℕ

pub record Fct0 : Type 0 where
  pub t2 : ℕ
  pub t1 : ℕ
  pub t0 : ℕ

pub record Fct1 : Type 0 where
  pub t5 : ℕ
  pub t4 : ℕ
  pub t3 : ℕ

pub record Fct2 : Type 0 where
  pub t8 : ℕ
  pub t7 : ℕ
  pub t6 : ℕ

pub record Fct3 : Type 0 where
  pub t12 : ℕ
  pub t11 : ℕ
  pub t10 : ℕ
  pub t9 : ℕ

pub record Fct4 : Type 0 where
  pub t16 : ℕ
  pub t15 : ℕ
  pub t14 : ℕ
  pub t13 : ℕ

pub record Fct5 : Type 0 where
  pub t20 : ℕ
  pub t19 : ℕ
  pub t18 : ℕ
  pub t17 : ℕ

pub record Fct6 : Type 0 where
  pub t23 : ℕ
  pub t22 : ℕ
  pub t21 : ℕ

pub record ViSel : Type 0 where
  pub visel : ℕ

pub record Hbe : Type 0 where
  pub hbe656 : ℕ

pub record Hbs : Type 0 where
  pub hbs656 : ℕ
