-- ===== src/Selection/Decide/KeySets.antt =====
-- The keys that the rounds of Decide's loops add and release, as sets.
use scd.Prelude.{
  ℕ, ◌≡◌, ◌≢◌, sym, true, false, List, [], ◌∷◌, arith, ◌==◌, nat_eq, contains, without, Distinct,
  ==_refl, Bool-cases, inl, inr, ◌⊎◌, subst, ==→eq, ==_false→ne,
}

-- Every key of xs is one of ys.
abbrev pub Sub : List ℕ → List ℕ → Type 0
Sub xs ys = (k : ℕ) → contains xs k ≡ true → contains ys k ≡ true

-- The keys of xs that were in use before belong to ys.
abbrev pub OldIn : List ℕ → List ℕ → List ℕ → Type 0
OldIn before xs ys =
    (k : ℕ) → contains xs k ≡ true → contains before k ≡ true → contains ys k ≡ true

pub contains_head : (k : ℕ) (xs : List ℕ) → contains (k ∷ xs) k ≡ true
unfolding contains
contains_head k xs = ground (arith, ==_refl k)

pub contains_tail : (j k : ℕ) (xs : List ℕ) → contains xs k ≡ true → contains (j ∷ xs) k ≡ true
unfolding contains
contains_tail j k xs h = ground arith

-- A member of a cons is its head or a member of its tail.
pub contains_cases :
    (j k : ℕ) (xs : List ℕ) → contains (j ∷ xs) k ≡ true → (k ≡ j) ⊎ (contains xs k ≡ true)
unfolding contains
contains_cases j k xs h = ground arith

contains-without_ne :
    (xs : List ℕ) (j k : ℕ) → k ≢ j → contains xs k ≡ true → contains (without xs j) k ≡ true
unfolding contains without
contains-without_ne [] j k ne h = cc
contains-without_ne (x ∷ xs) j k ne h = ground (arith, contains-without_ne xs j k ne)

not_member :
    (k : ℕ) (xs : List ℕ) → (contains xs k ≡ true → contains xs k ≡ false) → contains xs k ≡ false
not_member k xs h = ground arith

-- A slot keeps its key, which is in use.
pub kept_step :
    (k : ℕ) (before fin own : List ℕ)
    → Distinct fin
    → OldIn before fin own
    → contains before k ≡ true
    → contains own k ≡ false
    → Distinct (k ∷ fin) × OldIn before (k ∷ fin) (k ∷ own)
kept_step k before fin own d old used fresh = (
  (not_member k fin (λ m. cc (old k m used, fresh)), d),
  λ j m b. elim (contains_cases k j fin m) [
    | inl e ↦ subst (λ n. contains (k ∷ own) n ≡ true) (sym e) (contains_head k own)
    | inr m' ↦ contains_tail k j own (old j m' b)
  ],
)

-- A slot gets a key that is not in use.
pub taken_step :
    (k : ℕ) (before fin own : List ℕ)
    → Distinct fin
    → OldIn (k ∷ before) fin own
    → contains before k ≡ false
    → Sub own before
    → Distinct (k ∷ fin) × OldIn before (k ∷ fin) own
taken_step k before fin own d old fresh sub = (
  (not_member k fin (λ m. cc (sub k (old k m (contains_head k before)), fresh)), d),
  λ j m b. elim (contains_cases k j fin m) [
    | inl e ↦ absurd (cc (subst (λ n. contains before n ≡ true) e b, fresh))
    | inr m' ↦ old j m' (contains_tail k j before b)
  ],
)

pub Sub-without :
    (k : ℕ) (before own : List ℕ)
    → Sub own before
    → contains own k ≡ false
    → Sub own (without before k)
Sub-without k before own sub fresh j m =
    contains-without_ne before k j (λ e. cc (subst (λ n. contains own n ≡ true) e m, fresh))
      (sub j m)

-- A key in use is k, or still in use once k is released.
released_cases :
    (before : List ℕ) (k j : ℕ)
    → contains before j ≡ true
    → (j ≡ k) ⊎ (contains (without before k) j ≡ true)
released_cases before k j b = elim (Bool-cases (j == k)) [
  | inl e ↦ inl (==→eq j k e)
  | inr n ↦ inr (contains-without_ne before k j (==_false→ne j k n) b)
]

-- A slot releases its key k and gets c, which is not in use then; c may be k.
pub switched_step :
    (k c : ℕ) (before fin own : List ℕ)
    → Distinct fin
    → OldIn (c ∷ without before k) fin own
    → contains (without before k) c ≡ false
    → Sub own before
    → contains own k ≡ false
    → Distinct (c ∷ fin) × OldIn before (c ∷ fin) (k ∷ own)
switched_step k c before fin own d old fresh sub apart =
    let (d', old') =
      taken_step c (without before k) fin own d old fresh (Sub-without k before own sub apart) in
    (
      d',
      λ j m b. elim (released_cases before k j b) [
        | inl e ↦ subst (λ n. contains (k ∷ own) n ≡ true) (sym e) (contains_head k own)
        | inr b' ↦ contains_tail k j own (old' j m b')
      ],
    )

pub held :
    (k : ℕ) (before : List ℕ) (j : ℕ)
    → contains before j ≡ true
    → contains (k ∷ without before k) j ≡ true
held k before j b = elim (released_cases before k j b) [
  | inl e ↦ subst (λ n. contains (k ∷ without before k) n ≡ true) (sym e) (contains_head k _)
  | inr b' ↦ contains_tail k j _ b'
]

-- A slot releases its key k and takes it again.
pub reused_step :
    (k : ℕ) (before fin own : List ℕ) → OldIn (k ∷ without before k) fin own → OldIn before fin own
reused_step k before fin own old j m b = old j m (held k before j b)
