-- ===== src/Apply/Steps.antt =====
-- internal/scd/apply: actions on a state that may fail, one after the other until the first error.
use scd.Prelude.{◌≡◌, refl, ◌≢◌, ◌⊎◌, inl, inr, Bool, true, false, Option, none, some}
use scd.Xray.{Error}

abbrev pub Step : Type 0 → Type 0
Step P = P → Option Error × P

module _ {P : Type 0} where
  unfoldable pub and_then : Option Error × P → Step P → Option Error × P
  and_then (none, p) next = next p
  and_then (some e, p) next = (some e, p)

  -- The first action only under the guard, the next one when it did not fail.
  unfoldable pub guarded : Bool → Step P → Step P → Step P
  unfolding and_then
  guarded true first next p = and_then (first p) next
  guarded false first next p = next p

  pub and_then_lem :
      (r : Option Error × P) (next : Step P)
      → ((r.0 ≡ none) × (and_then r next ≡ next r.1))
        ⊎ (((and_then r next).0 ≢ none) × (and_then r next ≡ r))
  unfolding and_then
  and_then_lem (none, w) next = inl (refl, refl)
  and_then_lem (some e, w) next = inr (λ p. cc, refl)

  -- What is run under a guard: nothing, the first action alone, or both.
  pub guarded_lem :
      (b : Bool) (first next : Step P) (p : P)
      → ((b ≡ false) × (guarded b first next p ≡ next p))
        ⊎ ((((first p).0 ≡ none) × (guarded b first next p ≡ next (first p).1))
            ⊎ (((guarded b first next p).0 ≢ none) × (guarded b first next p ≡ first p)))
  unfolding guarded
  guarded_lem false first next p = inl (refl, refl)
  guarded_lem true first next p = inr (and_then_lem (first p) next)

  -- An action keeps what holds of the state, whether it fails or not.
  abbrev pub Keeps : (P → Type 0) → Step P → Type 0
  Keeps I f = (p : P) → I p → I (f p).1

  pub and_then-Keeps :
      (I : P → Type 0) (r : Option Error × P) (next : Step P)
      → I r.1
      → Keeps I next
      → I (and_then r next).1
  unfolding and_then
  and_then-Keeps I (none, p) next i k = k p i
  and_then-Keeps I (some e, p) next i k = i

  pub guarded-Keeps :
      (I : P → Type 0) (b : Bool) (first next : Step P)
      → (b ≡ true → Keeps I first)
      → Keeps I next
      → Keeps I (guarded b first next)
  unfolding guarded
  guarded-Keeps I false first next f n p i = n p i
  guarded-Keeps I true first next f n p i = and_then-Keeps I (first p) next (f refl p i) n

  pub and_then-none :
      (r : Option Error × P) (next : Step P) → r.0 ≡ none → and_then r next ≡ next r.1
  unfolding and_then
  and_then-none (none, p) next h = refl
  and_then-none (some e, p) next h = cc

  pub guarded_pass :
      (b : Bool) (first next : Step P) (p : P)
      → b ≡ true
      → (first p).0 ≡ none
      → guarded b first next p ≡ next (first p).1
  unfolding guarded
  guarded_pass true first next p b h = and_then-none (first p) next h
  guarded_pass false first next p b h = cc

  pub guarded_skip :
      (b : Bool) (first next : Step P) (p : P) → b ≡ false → guarded b first next p ≡ next p
  unfolding guarded
  guarded_skip true first next p b = cc
  guarded_skip false first next p b = refl

  -- One of two actions.
  unfoldable pub branch : Bool → Step P → Step P → Step P
  branch true f g = f
  branch false f g = g

  pub branch-Keeps :
      (I : P → Type 0) (b : Bool) (f g : Step P)
      → (b ≡ true → Keeps I f)
      → (b ≡ false → Keeps I g)
      → Keeps I (branch b f g)
  unfolding branch
  branch-Keeps I true f g y n = y refl
  branch-Keeps I false f g y n = n refl
