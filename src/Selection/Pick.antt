-- ===== src/Selection/Pick.antt =====
-- internal/scd/selection/selection.go: Pick.
use scd.Prelude.{
  ℕ, zero, suc, ◌+◌, ◌≤◌, ◌<◌, ◌≡◌, refl, sym, ◌∙◌, true, false, ◌||◌, List, [], ◌∷◌, map, arith,
  nat_eq, contains, length, take, length-take-le, Distinct, Bool-cases, inl, inr, if◌then◌else◌,
}
use scd.Prelude.{==_refl, subst, All, All-map, map-take, take-Distinct, take_short}
use scd.Selection.{Candidate, pick, pick_loop}

contains_tail : (keys : List ℕ) (k j : ℕ) → contains (k ∷ keys) j ≡ false → contains keys j ≡ false
unfolding contains
contains_tail keys k j h = ground arith

module _ {ℓ} {F : Type 0} {T : Type ℓ} (of : T → Candidate F) where
  abbrev pub key_of : T → ℕ
  key_of it = (of it).key

  -- The items whose key neither stands in `keys` nor belongs to an earlier item.
  unfoldable pub firsts : List ℕ → List T → List T
  firsts keys [] = []
  firsts keys (it ∷ items) =
      let skip = firsts keys items in
      let keep = it ∷ firsts (key_of it ∷ keys) items in
      if contains keys (key_of it) then skip else keep

  pick_loop-eq_take :
      (max left taken : ℕ) (keys : List ℕ) (items : List T)
      → taken + left ≡ max
      → pick_loop of max taken keys items ≡ take left (firsts keys items)
  unfolding pick_loop firsts
  pick_loop-eq_take max zero taken keys [] e = refl
  pick_loop-eq_take max (suc left) taken keys [] e = refl
  pick_loop-eq_take max zero taken keys (it ∷ items) e = ground arith
  pick_loop-eq_take max (suc left) taken keys (it ∷ items) e = ground (
    arith,
    pick_loop-eq_take max (suc left) taken keys items,
    pick_loop-eq_take max left (suc taken) (key_of it ∷ keys) items,
  )

  -- Pick is the list of the first candidates of every key, cut to maxActive.
  pub pick-eq_take : (items : List T) (max : ℕ) → pick of items max ≡ take max (firsts [] items)
  unfolding pick
  pick-eq_take items max = pick_loop-eq_take max max 0 [] items (omega arith)

  pub firsts_fresh :
      (keys : List ℕ) (items : List T)
      → All (λ it. contains keys (key_of it) ≡ false) (firsts keys items)
  unfolding firsts
  firsts_fresh keys [] = tt
  firsts_fresh keys (it ∷ items) = elim (Bool-cases (contains keys (key_of it))) [
    | inl old ↦ rw old (firsts_fresh keys items)
    | inr new ↦ rw new (
      new,
      All-map (λ x. contains_tail keys (key_of it) (key_of x)) _
          (firsts_fresh (key_of it ∷ keys) items),
    )
  ]

  not_among :
      (k : ℕ) (keys : List ℕ) (items : List T)
      → All (λ it. contains (k ∷ keys) (key_of it) ≡ false) items
      → contains (map key_of items) k ≡ false
  unfolding contains
  not_among k keys [] h = refl
  not_among k keys (it ∷ items) h = ground (arith, not_among k keys items h.1)

  firsts-Distinct : (keys : List ℕ) (items : List T) → Distinct (map key_of (firsts keys items))
  unfolding firsts
  firsts-Distinct keys [] = tt
  firsts-Distinct keys (it ∷ items) = elim (Bool-cases (contains keys (key_of it))) [
    | inl old ↦ rw old (firsts-Distinct keys items)
    | inr new ↦ rw new (
      not_among (key_of it) keys _ (firsts_fresh (key_of it ∷ keys) items),
      firsts-Distinct (key_of it ∷ keys) items,
    )
  ]

  pub firsts_old :
      (keys : List ℕ) (it : T) (items : List T)
      → contains keys (key_of it) ≡ true
      → firsts keys (it ∷ items) ≡ firsts keys items
  unfolding firsts
  firsts_old keys it items h = rw h

  pub firsts_new :
      (keys : List ℕ) (it : T) (items : List T)
      → contains keys (key_of it) ≡ false
      → firsts keys (it ∷ items) ≡ it ∷ firsts (key_of it ∷ keys) items
  unfolding firsts
  firsts_new keys it items h = rw h

  -- A key among `keys` or of an item of `picked`.
  abbrev Covered : List ℕ → List T → T → Type 0
  Covered keys picked x =
      (contains keys (key_of x) || contains (map key_of picked) (key_of x)) ≡ true

  Covered-shift :
      (keys : List ℕ) (it : T) (picked : List T) (x : T)
      → Covered (key_of it ∷ keys) picked x
      → Covered keys (it ∷ picked) x
  unfolding contains
  Covered-shift keys it picked x h = ground arith

  Covered-self : (keys : List ℕ) (it : T) (picked : List T) → Covered keys (it ∷ picked) it
  unfolding contains
  Covered-self keys it picked = ground (arith, ==_refl (key_of it))

  firsts_cover : (keys : List ℕ) (items : List T) → All (Covered keys (firsts keys items)) items
  firsts_cover keys [] = tt
  firsts_cover keys (it ∷ items) = elim (Bool-cases (contains keys (key_of it))) [
    | inl old ↦
        subst (λ l. All (Covered keys l) (it ∷ items)) (sym (firsts_old keys it items old))
          (ground arith, firsts_cover keys items)
    | inr new ↦
        subst (λ l. All (Covered keys l) (it ∷ items)) (sym (firsts_new keys it items new))
          (
            Covered-self keys it _,
            All-map (Covered-shift keys it _) items (firsts_cover (key_of it ∷ keys) items),
          )
  ]

  -- At most maxActive items are picked, and never two with the same key.
  pub pick-Distinct :
      (items : List T) (max : ℕ)
      → Distinct (map key_of (pick of items max)) × (length (pick of items max) ≤ max)
  pick-Distinct items max = rw (pick-eq_take items max) (
    rw map-take (take-Distinct max _ (firsts-Distinct [] items)),
    length-take-le max (firsts [] items),
  )

  -- If fewer than maxActive items are picked, the key of every candidate has one.
  pub pick_complete :
      (items : List T) (max : ℕ)
      → length (pick of items max) < max
      → All (λ it. contains (map key_of (pick of items max)) (key_of it) ≡ true) items
  pick_complete items max h =
      let all = pick-eq_take items max in
      subst (λ l. All (λ it. contains (map key_of l) (key_of it) ≡ true) items)
        (sym (all ∙ take_short max (firsts [] items) (subst (λ l. length l < max) all h)))
        (unfold contains in firsts_cover [] items)
