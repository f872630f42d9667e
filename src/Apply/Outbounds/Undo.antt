-- ===== src/Apply/Outbounds/Undo.antt =====
-- internal/scd/apply/outbounds.go on the plain model of Xray: the steps of a rollback.
use scd.Prelude.{
  ℕ, ◌+◌, ◌<◌, ◌≤◌, ◌≡◌, refl, ap, ◌∙◌, sym, subst, ◌⊎◌, inl, inr, String, Bool, true, false, not,
  none, List, [], ◌∷◌, ◌++◌, contains, string_eq, select, All, All-map, arith, map, ◌==◌, Distinct,
  length, ltb, Bool-cases, ==→eq, ==_refl,
}
use scd.Xray.{World, Handler, outbound, list, add, remove}
use scd.Apply.{Owner}
use scd.Apply.Steps.{Step, guarded_pass, guarded_skip}
use scd.Apply.Cap.{check_cap, refuse, count_owned}
use scd.Apply.Cap.Limit.{count_owned-append}
use scd.Apply.Outbounds.{
  Progress, removed_one, remove_one, remove_owned, removable, remove_backward, restore_backups,
}
use scd.Apply.Outbounds.Counts.{append_nil, append_assoc}
use scd.Apply.Outbounds.Plain.{plain, plain_add, ours, outside, outside_cons, outside_nil}

abbrev pub tag_of : Handler → String
tag_of h = h.tag

select-append :
    {A : Type 0} (p : A → Bool) (xs ys : List A) → select p (xs ++ ys) ≡ select p xs ++ select p ys
unfolding select
select-append p [] ys = refl
select-append p (x ∷ xs) ys = ground (arith, select-append p xs ys)

select_all : {A : Type 0} (p : A → Bool) (xs : List A) → All (λ x. p x ≡ true) xs → select p xs ≡ xs
unfolding select
select_all p [] h = refl
select_all p (x ∷ xs) h = ground (arith, select_all p xs h.1)

pub select_none :
    {A : Type 0} (p : A → Bool) (xs : List A) → All (λ x. p x ≡ false) xs → select p xs ≡ []
unfolding select
select_none p [] h = refl
select_none p (x ∷ xs) h = ground (arith, select_none p xs h.1)

pub select-All : {A : Type 0} (p : A → Bool) (xs : List A) → All (λ x. p x ≡ true) (select p xs)
unfolding select
select-All p [] = tt
select-All p (x ∷ xs) = elim (Bool-cases (p x)) [
  | inl t ↦ rw t (t, select-All p xs)
  | inr f ↦ rw f (select-All p xs)
]

module _ (bad : Handler → Bool) (fixed : List String) (owner : Owner) where
  abbrev pub P : Type 0
  P = Progress (List Handler)

  abbrev pub mine : Handler → Bool
  mine = ours fixed owner

  -- None of the handlers has the tag of one that was removed.
  abbrev pub Fresh : List String → List Handler → Type 0
  Fresh removed hs = All (λ h. contains removed h.tag ≡ false) hs

  Fresh-cons :
      (t : String) (removed : List String) (hs : List Handler)
      → contains (map tag_of hs) t ≡ false
      → Fresh removed hs
      → Fresh (t ∷ removed) hs
  unfolding contains
  Fresh-cons t removed [] d f = tt
  Fresh-cons t removed (h ∷ hs) d f = (
    ground (arith, string_eq.beq_iff t h.tag, string_eq.beq_iff h.tag t, f.0),
    Fresh-cons t removed hs (ground arith) f.1,
  )

  backups_one :
      (h : Handler) (p : P)
      → ((remove_one (plain bad) h p).1.backups ≡ p.backups ++ h ∷ [])
        × ((remove_one (plain bad) h p).1.removed ≡ h.tag ∷ p.removed)
        × ((remove_one (plain bad) h p).0 ≡ none)
  unfolding remove_one removed_one remove
  backups_one h p = (refl, refl, refl)

  pub remove_owned-backups :
      (hs : List Handler) (p : P)
      → Distinct (map tag_of hs)
      → Fresh p.removed hs
      → (remove_owned (plain bad) fixed owner hs p).1.backups ≡ p.backups ++ select mine hs
  unfolding remove_owned select
  remove_owned-backups [] p d f = sym (append_nil p.backups)
  remove_owned-backups (h ∷ hs) p d f =
      let first = remove_one (plain bad) h in
      let next = remove_owned (plain bad) fixed owner hs in
      let b = removable fixed owner h p in
      let (bk, rm, n) = backups_one h p in
      elim (Bool-cases b) [
        | inl g ↦
            let own : mine h ≡ true = ground (arith, f.0) in
            rw own (
              ap (λ r. r.1.backups) (guarded_pass b first next p g n)
              ∙ (remove_owned-backups hs (first p).1 d.1
                    (subst (λ l. Fresh l hs) (sym rm) (Fresh-cons h.tag p.removed hs d.0 f.1))
                  ∙ (ap (λ l. l ++ select mine hs) bk
                      ∙ append_assoc p.backups (h ∷ []) (select mine hs))))
        | inr g ↦
            let other : mine h ≡ false = ground (arith, f.0) in
            rw other (
              ap (λ r. r.1.backups) (guarded_skip b first next p g)
              ∙ remove_owned-backups hs p d.1 f.1)
      ]

  -- The removals of a rollback.
  pub remove_backward-server :
      (tags : List String) (w : World (List Handler))
      → (remove_backward (plain bad) tags w).server ≡ outside tags w.server
  unfolding remove_backward remove
  remove_backward-server [] w = sym (outside_nil w.server)
  remove_backward-server (t ∷ tags) w =
      ap (λ l. select (λ h. not (h.tag == t)) l) (remove_backward-server tags w)
      ∙ outside_cons t tags w.server

  -- An owned tag that is not fixed: the tag of an entry.
  abbrev pub Tag : String → Type 0
  Tag t = (contains fixed t ≡ false) × (owner outbound t ≡ true)

  contains_tags : (tags : List String) (t : String) → All Tag tags → contains tags t ≡ true → Tag t
  unfolding contains
  contains_tags [] t a c = cc
  contains_tags (x ∷ tags) t a c = ground (arith, contains_tags tags t a.1, a.0, ==→eq t x)

  outside_others :
      (tags : List String) (hs : List Handler)
      → All Tag tags
      → All (λ h. mine h ≡ false) hs
      → All (λ h. not (contains tags h.tag) ≡ true) hs
  outside_others tags [] a o = tt
  outside_others tags (h ∷ hs) a o =
      (ground (arith, contains_tags tags h.tag a, o.0), outside_others tags hs a o.1)

  abbrev Member : List String → Handler → Type 0
  Member tags h = contains tags h.tag ≡ true

  tags_members : (hs : List Handler) → All (Member (map tag_of hs)) hs
  unfolding contains
  tags_members [] = tt
  tags_members (h ∷ hs) =
      (ground (arith, ==_refl h.tag), All-map (λ a m. ground (arith, m)) hs (tags_members hs))

  -- Without the tags of the additions, what stood before them is left.
  pub outside_additions :
      (kept added : List Handler)
      → All (λ h. mine h ≡ false) kept
      → All Tag (map tag_of added)
      → outside (map tag_of added) (kept ++ added) ≡ kept
  outside_additions kept added o a =
      let tags = map tag_of added in
      select-append (λ h. not (contains tags h.tag)) kept added
      ∙ (ap (λ l. l ++ outside tags added)
            (select_all (λ h. not (contains tags h.tag)) kept (outside_others tags kept a o))
          ∙ (ap (λ l. kept ++ l)
                (select_none (λ h. not (contains tags h.tag)) added
                  (All-map (λ h m. ground (arith, m)) added (tags_members added)))
              ∙ append_nil kept))

  -- Room in Xray for the handlers, if there is a cap.
  abbrev pub Room : ℕ → List Handler → List Handler → Type 0
  Room limit server hs = (limit ≡ 0) ⊎ (count_owned fixed owner server + length hs ≤ limit)

  abbrev pub restore_check : ℕ → Step (World (List Handler))
  restore_check limit = check_cap (plain bad) fixed owner limit

  check_ok :
      (limit : ℕ) (w : World (List Handler))
      → count_owned fixed owner w.server < limit
      → ((restore_check limit w).0 ≡ none) × ((restore_check limit w).1.server ≡ w.server)
  unfolding check_cap refuse list
  check_ok limit w r = (ground (arith, r), refl)

  plain_add_good :
      (h : Handler) (b : Bool) (hs : List Handler) → b ≡ false → (plain_add b h hs).1 ≡ hs ++ h ∷ []
  plain_add_good h true hs g = cc
  plain_add_good h false hs g = refl

  Room-cons :
      (limit : ℕ) (server : List Handler) (h : Handler) (hs : List Handler)
      → Room limit server (h ∷ hs)
      → Room limit (server ++ h ∷ []) hs
  Room-cons limit server h hs (inl z) = inl z
  Room-cons limit server h hs (inr r) =
      inr (ground (arith, count_owned-append fixed owner server h, r))

  Room-left :
      (limit : ℕ) (server : List Handler) (h : Handler) (hs : List Handler)
      → ltb 0 limit ≡ true
      → Room limit server (h ∷ hs)
      → count_owned fixed owner server < limit
  Room-left limit server h hs b (inl z) = absurd (ground (arith, z))
  Room-left limit server h hs b (inr r) = omega (arith, r)

  add_server :
      (h : Handler) (v : World (List Handler))
      → bad h ≡ false
      → (add (plain bad) outbound h v).1.server ≡ v.server ++ h ∷ []
  unfolding add
  add_server h v g = plain_add_good h (bad h) v.server g

  pub restore_backups_lem :
      (limit : ℕ) (hs : List Handler) (w : World (List Handler))
      → All (λ h. bad h ≡ false) hs
      → Room limit w.server hs
      → (restore_backups (plain bad) fixed owner limit hs w).1.server ≡ w.server ++ hs
  unfolding restore_backups
  restore_backups_lem limit [] w g r = sym (append_nil w.server)
  restore_backups_lem limit (h ∷ hs) w g r =
      let next : Step (World (List Handler)) =
        λ v. restore_backups (plain bad) fixed owner limit hs (add (plain bad) outbound h v).1 in
      let added : (v : World (List Handler))
          → v.server ≡ w.server
          → (add (plain bad) outbound h v).1.server ≡ w.server ++ h ∷ [] =
        λ v e. add_server h v g.0 ∙ ap (λ l. l ++ h ∷ []) e in
      let restored : (v : World (List Handler))
          → v.server ≡ w.server
          → (next v).1.server ≡ w.server ++ h ∷ hs =
        λ v e.
          restore_backups_lem limit hs (add (plain bad) outbound h v).1 g.1
            (subst (λ l. Room limit l hs) (sym (added v e)) (Room-cons limit w.server h hs r))
          ∙ (ap (λ l. l ++ hs) (added v e) ∙ append_assoc w.server (h ∷ []) hs) in
      elim (Bool-cases (ltb 0 limit)) [
        | inl b ↦
            let (n, e) = check_ok limit w (Room-left limit w.server h hs b r) in
            ap (λ x. x.1.server) (guarded_pass (ltb 0 limit) (restore_check limit) next w b n)
            ∙ restored (restore_check limit w).1 e
        | inr b ↦
            ap (λ x. x.1.server) (guarded_skip (ltb 0 limit) (restore_check limit) next w b)
            ∙ restored w refl
      ]
