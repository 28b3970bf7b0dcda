-- ===== src/Rt/Arena/Trace.antt =====
-- Any sequence of requests hands out disjoint blocks.
use mathlib.Core.Path.{subst, sym}
use libpeli.Base.{ℕ, ◌+◌, ◌≤◌, ◌⊎◌, Option, none, some, List, [], ◌∷◌, arith}
use libpeli.Rt.Arena.{Arena}
use libpeli.Rt.Arena.Region.{
  Served, IsValid, Request, IsSane, Shrinks, serve, size_of, serve-Served,
}

pub record Block : Type 0 where
  pub ptr : ℕ
  pub size : ℕ

-- The block in front of those of the later requests.
abbrev pub note_block : Option ℕ → ℕ → List Block → List Block
note_block none size bs = bs
note_block (some ptr) size bs = record { ptr = ptr; size = size } ∷ bs

unfoldable pub run : Arena → List Request → List Block × Arena
run a [] = ([], a)
run a (r ∷ rs) =
    let rest = run (serve a r).1 rs in (note_block (serve a r).0 (size_of r) rest.0, rest.1)

abbrev pub InFree : Arena → Block → Type 0
InFree a b =
    ((a.mem1_start ≤ b.ptr) × (b.ptr + b.size ≤ a.mem1_end))
    ⊎ ((a.mem2_start ≤ b.ptr) × (b.ptr + b.size ≤ a.mem2_end))

abbrev pub AreDisjoint : Block → Block → Type 0
AreDisjoint b c = (b.ptr + b.size ≤ c.ptr) ⊎ (c.ptr + c.size ≤ b.ptr)

abbrev pub All {ℓ} : {A : Type ℓ} → (A → Type 0) → List A → Type 0
All P [] = Unit
All P (x ∷ xs) = P x × All P xs

abbrev pub Separate : List Block → Type 0
Separate [] = Unit
Separate (b ∷ bs) = All (AreDisjoint b) bs × Separate bs

All-map {ℓ} :
    {A : Type ℓ} (P Q : A → Type 0) (xs : List A) → ((x : A) → P x → Q x) → All P xs → All Q xs
All-map P Q [] f h = tt
All-map P Q (x ∷ xs) f h = (f x h.0, All-map P Q xs f h.1)

InFree-Shrinks : {a b : Arena} (c : Block) → Shrinks a b → InFree b c → InFree a c
InFree-Shrinks c s f = ground arith

-- What holds of the blocks that a run hands out and of the arenas that it leaves.
pub record IsRun (a : Arena) (bs : List Block) (c : Arena) : Type 0 where
  pub valid : IsValid c
  pub shrinks : Shrinks a c
  pub inside : All (InFree a) bs
  pub separate : Separate bs

prepend :
    (a b c : Arena) (r : Request) (o : Option ℕ) (bs : List Block)
    → IsValid a
    → Served a r (o, b)
    → IsRun b bs c
    → IsRun a (note_block o (size_of r) bs) c
prepend a b c r none bs v s h = subst (λ d. IsRun d bs c) s.0 h
prepend a b c r (some ptr) bs v s h = record {
  valid = h.valid;
  shrinks = omega (arith, s.2, h.shrinks);
  inside =
      (ground (arith, s.1), All-map (InFree b) (InFree a) bs (λ d. InFree-Shrinks d s.2) h.inside);
  separate = (
    All-map (InFree b) (AreDisjoint (record { ptr = ptr; size = size_of r })) bs
        (λ d f. ground (arith, s.1, f, v, s.2)) h.inside,
    h.separate,
  );
}

Served-IsValid :
    (a b : Arena) (r : Request) (o : Option ℕ) → IsValid a → Served a r (o, b) → IsValid b
Served-IsValid a b r none v s = subst IsValid (sym s.0) v
Served-IsValid a b r (some ptr) v s = s.3

-- From valid arenas every sequence of requests of sane sizes hands out blocks that lie in the free
-- parts the arenas had at the start and are pairwise disjoint, and leaves valid arenas with smaller
-- free parts.
pub run-IsRun :
    (a : Arena) (rs : List Request) → IsValid a → All IsSane rs → IsRun a (run a rs).0 (run a rs).1
unfolding run
run-IsRun a [] v h = record { valid = v; shrinks = omega arith; inside = tt; separate = tt }
run-IsRun a (r ∷ rs) v h =
    let served = serve-Served a r v h.0 in
    let next = (serve a r).1 in
    prepend a next (run next rs).1 r (serve a r).0 (run next rs).0 v served
      (run-IsRun next rs (Served-IsValid a next r (serve a r).0 v served) h.1)
