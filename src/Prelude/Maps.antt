-- ===== src/Prelude/Maps.antt =====
-- Go maps, as lists of entries with the key in front.
use mathlib.Core.Path.{◌≡◌, refl}
use mathlib.Core.Bool.{Bool, false}
use mathlib.Core.Option.{Option, none, some}
use mathlib.Core.List.{List, [], ◌∷◌, map}
use native.Mathlib.Omega.{arith}
use scd.Prelude.Tests.{Eq, ◌==◌, if◌then◌else◌}
use mathlib.Core.Logic.{inl, inr}
use scd.Prelude.Tests.{Bool-cases, ==_refl}
use scd.Prelude.Lists.{contains, Distinct, All}

abbrev pub keep_value {ℓ} : {V : Type ℓ} → (V → Bool) → Option V → Option V
keep_value p none = none
keep_value p (some v) = if p v then some v else none

module _ {ℓ κ} {K : Type ℓ} {V : Type κ} ⦃e : Eq K⦄ where
  unfoldable pub lookup : K → List (K × V) → Option V
  lookup k [] = none
  lookup k ((j, v) ∷ m) = if j == k then some v else lookup k m

  -- m[k] = v
  unfoldable pub insert : K → V → List (K × V) → List (K × V)
  insert k v [] = (k, v) ∷ []
  insert k v ((j, w) ∷ m) = if j == k then (k, v) ∷ m else (j, w) ∷ insert k v m

  -- delete(m, k)
  unfoldable pub remove_key : K → List (K × V) → List (K × V)
  remove_key k [] = []
  remove_key k ((j, w) ∷ m) = let rest = remove_key k m in if j == k then rest else (j, w) ∷ rest

  pub lookup-insert :
      (new old : K) (value : V) (entries : List (K × V))
      → lookup old (insert new value entries)
        ≡ (if new == old then some value else lookup old entries)
  unfolding lookup insert
  lookup-insert new old value [] = refl
  lookup-insert new old value ((first, x) ∷ entries) = ground (
    arith,
    lookup-insert new old value entries,
    e.beq_iff new old,
    e.beq_iff first new,
    e.beq_iff first old,
  )

  pub lookup-remove_key :
      (k j : K) (m : List (K × V))
      → lookup j (remove_key k m) ≡ (if k == j then none else lookup j m)
  unfolding lookup remove_key
  lookup-remove_key k j [] = ground arith
  lookup-remove_key k j ((i, w) ∷ m) =
      ground (arith, e.beq_iff k j, e.beq_iff i k, e.beq_iff i j, lookup-remove_key k j m)

  abbrev pub keys : List (K × V) → List K
  keys = map (λ entry. entry.0)

  -- The entries whose value passes the test: deletion of the others while ranging over a map.
  unfoldable pub keep_entries : (V → Bool) → List (K × V) → List (K × V)
  keep_entries p [] = []
  keep_entries p ((j, w) ∷ m) = let rest = keep_entries p m in if p w then (j, w) ∷ rest else rest

  pub lookup_absent : (k : K) (m : List (K × V)) → contains (keys m) k ≡ false → lookup k m ≡ none
  unfolding contains lookup
  lookup_absent k [] h = refl
  lookup_absent k ((j, w) ∷ m) h = ground (arith, e.beq_iff k j, e.beq_iff j k, lookup_absent k m)

  pub lookup-keep_entries :
      (p : V → Bool) (k : K) (m : List (K × V))
      → Distinct (keys m)
      → lookup k (keep_entries p m) ≡ keep_value p (lookup k m)
  unfolding lookup keep_entries
  lookup-keep_entries p k [] h = refl
  lookup-keep_entries p k ((j, w) ∷ m) h =
      ground (arith, e.beq_iff j k, lookup-keep_entries p k m h.1, lookup_absent j m h.0)

module _ {ℓ κ μ} {K : Type ℓ} {V : Type κ} ⦃e : Eq K⦄ where
  pub All-insert :
      (P : K × V → Type μ) (k : K) (v : V) (m : List (K × V))
      → P (k, v)
      → All P m
      → All P (insert k v m)
  unfolding insert
  All-insert P k v [] p a = (p, tt)
  All-insert P k v ((j, x) ∷ m) p a = elim (Bool-cases (j == k)) [
    | inl y ↦ rw y (p, a.1)
    | inr n ↦ rw n (a.0, All-insert P k v m p a.1)
  ]

  pub All-remove_key :
      (P : K × V → Type μ) (k : K) (m : List (K × V)) → All P m → All P (remove_key k m)
  unfolding remove_key
  All-remove_key P k [] a = tt
  All-remove_key P k ((j, x) ∷ m) a = elim (Bool-cases (j == k)) [
    | inl y ↦ rw y (All-remove_key P k m a.1)
    | inr n ↦ rw n (a.0, All-remove_key P k m a.1)
  ]

  -- What was put under a key goes with it.
  pub All-remove_inserted :
      (P : K × V → Type μ) (k : K) (v : V) (m : List (K × V))
      → All P m
      → All P (remove_key k (insert k v m))
  unfolding insert remove_key
  All-remove_inserted P k v [] a = elim (Bool-cases (k == k)) [
    | inl y ↦ rw y tt
    | inr n ↦ cc (n, ==_refl k)
  ]
  All-remove_inserted P k v ((j, x) ∷ m) a = elim (Bool-cases (j == k)) [
    | inl y ↦ rw (y, ==_refl k) (All-remove_key P k m a.1)
    | inr n ↦ rw (n, n) (a.0, All-remove_inserted P k v m a.1)
  ]
