-- ===== src/Log/VideoConsole/Print/Lock.antt =====
-- peli/log/VideoConsole.cpp: when the lock is taken.
use native.Mathlib.Decide.{dec_lt, ℕ_discrete}
use libpeli.Base.{
  ◌>>=◌, ◌≢◌, ◌↔◌, ℕ, zero, suc, ◌+◌, ◌≤◌, ◌<◌, ◌≡◌, refl, ap, ◌∙◌, sym, ◌⊎◌, inl, inr, bit_and,
  List, [], ◌∷◌, ◌++◌, Option, none, some, true, false, leb, arith, Bool, if_true, if_false,
}
use libpeli.Log.VideoConsole.Print.{lock, lock_from, lock_rounds, next_round, lock_write}

-- `n` reads from the start are free.
pub data StartsFree : ℕ → List ℕ → Type 0 where
  done : {reads : List ℕ} → StartsFree zero reads
  free :
      {n r : ℕ} {reads : List ℕ}
      → bit_and r 2 ≡ 0
      → StartsFree n reads
      → StartsFree (suc n) (r ∷ reads)

pub data HasFree : List ℕ → Type 0 where
  here : {reads : List ℕ} → StartsFree lock_rounds reads → HasFree reads
  later : {r : ℕ} {reads : List ℕ} → HasFree reads → HasFree (r ∷ reads)

true-ne_false : true ≢ false
true-ne_false e = ground arith

abbrev is_some : Option (List ℕ) → Bool
is_some none = false
is_some (some x) = true

some_of : (o : Option (List ℕ)) → is_some o ≡ true → (ws : List ℕ) × (o ≡ some ws)
some_of none e = absurd (ground arith)
some_of (some ws) e = (ws, refl)

-- Whether the lock is taken, round by round.
takes-stop : (reads : List ℕ) (i : ℕ) → lock_rounds ≤ i → is_some (lock_from reads i) ≡ true
unfolding lock_from
takes-stop [] i le =
    let test : leb lock_rounds i ≡ true = ground arith in ap is_some (if_true _ _ test)
takes-stop (r ∷ reads) i le =
    let test : leb lock_rounds i ≡ true = ground arith in ap is_some (if_true _ _ test)

is_some-bind : (o : Option (List ℕ)) (w : List ℕ) → is_some (do ws ← o; some (w ++ ws)) ≡ is_some o
is_some-bind none w = refl
is_some-bind (some ws) w = refl

takes-next :
    (r : ℕ) (reads : List ℕ) (i : ℕ)
    → i < lock_rounds
    → is_some (lock_from (r ∷ reads) i) ≡ is_some (lock_from reads (next_round r i))
unfolding lock_from
takes-next r reads i lt =
    let test : leb lock_rounds i ≡ false = ground arith in
    ap is_some (if_false _ _ test) ∙ is_some-bind (lock_from reads (next_round r i)) (lock_write r)

takes-nothing : (i : ℕ) → i < lock_rounds → is_some (lock_from [] i) ≡ false
unfolding lock_from
takes-nothing i lt =
    let test : leb lock_rounds i ≡ false = ground arith in ap is_some (if_false _ _ test)

next_round-free : (r i : ℕ) → bit_and r 2 ≡ 0 → next_round r i ≡ suc i
next_round-free r i e = ground arith

next_round-held : (r i : ℕ) → bit_and r 2 ≢ 0 → next_round r i ≡ 0
next_round-held r i ne = ground arith

StartsFree-takes :
    (reads : List ℕ) (n i : ℕ)
    → StartsFree n reads
    → lock_rounds ≤ n + i
    → is_some (lock_from reads i) ≡ true
StartsFree-takes reads zero i done le = takes-stop reads i (omega arith)
StartsFree-takes (r ∷ reads) (suc n) i (free e s) le = elim (dec_lt i lock_rounds) [
  | yes lt ↦
      takes-next r reads i lt
      ∙ ap (λ k. is_some (lock_from reads k)) (next_round-free r i e)
      ∙ StartsFree-takes reads n (suc i) s (omega arith)
  | no stop ↦ takes-stop (r ∷ reads) i (omega arith)
]
StartsFree-takes [] (suc n) i s le = elim s [ ]

HasFree-takes : (reads : List ℕ) (i : ℕ) → HasFree reads → is_some (lock_from reads i) ≡ true
HasFree-takes reads i (here s) = StartsFree-takes reads lock_rounds i s (omega arith)
HasFree-takes (r ∷ reads) i (later h) = elim (dec_lt i lock_rounds) [
  | yes lt ↦ takes-next r reads i lt ∙ HasFree-takes reads (next_round r i) h
  | no stop ↦ takes-stop (r ∷ reads) i (omega arith)
]

takes-HasFree :
    (reads : List ℕ) (i n : ℕ)
    → n + i ≡ lock_rounds
    → is_some (lock_from reads i) ≡ true
    → StartsFree n reads ⊎ HasFree reads
takes-HasFree reads i zero e taken = inl done
takes-HasFree [] i (suc n) e taken =
    absurd (true-ne_false (sym taken ∙ takes-nothing i (omega arith)))
takes-HasFree (r ∷ reads) i (suc n) e taken =
    let next = sym (takes-next r reads i (omega arith)) ∙ taken in
    elim (ℕ_discrete (bit_and r 2) 0) [
      | yes is_free ↦
          elim (takes-HasFree reads (suc i) n (omega arith)
            (sym (ap (λ k. is_some (lock_from reads k)) (next_round-free r i is_free)) ∙ next)) [
              | inl s ↦ inl (free is_free s)
              | inr h ↦ inr (later h)
            ]
      | no held ↦
          elim (takes-HasFree reads 0 lock_rounds refl
            (sym (ap (λ k. is_some (lock_from reads k)) (next_round-held r i held)) ∙ next)) [
              | inl s ↦ inr (later (here s))
              | inr h ↦ inr (later h)
            ]
    ]

-- The lock is taken exactly if among the reads there are sixteen in a row that do not have the
-- bit of the other side; however the other side interferes before them, the loop then ends.
pub lock_iff : (reads : List ℕ) → ((ws : List ℕ) × (lock reads ≡ some ws)) ↔ HasFree reads
unfolding lock
lock_iff reads = (
  λ r. elim (takes-HasFree reads 0 lock_rounds refl (ap is_some r.1)) [
    | inl s ↦ here s
    | inr h ↦ h
  ],
  λ h. some_of (lock_from reads 0) (HasFree-takes reads 0 h),
)
