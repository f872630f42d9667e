-- ===== src/Apply/Outbounds/Restores.antt =====
-- internal/scd/apply/outbounds.go on the plain model of Xray: a replacement in which an entry fails.
use scd.Prelude.{
  ℕ, ◌≤◌, ◌≡◌, refl, ap, ◌∙◌, sym, subst, ◌⊎◌, inl, inr, ◌≢◌, String, Bool, true, false, not,
  Option, none, some, List, [], ◌∷◌, ◌++◌, contains, string_eq, select, All, All-map, arith, map,
  Distinct, length, Bool-cases,
}
use scd.Xray.{World, Error, Result, ok, Handler, outbound, list}
use scd.Apply.{Owner, Meta, Report, new_report, fail}
use scd.Apply.Steps.{and_then-none}
use scd.Apply.Cap.{count_owned, counts}
use scd.Outbound.{Spec}
use scd.Apply.Outbounds.{
  Progress, start, add_all, remove_owned, change, rollback, replace_listed, checked, outbounds,
  conflicting, finish, remove_backward,
}
use scd.Apply.Outbounds.Plain.{plain, ours, outside, remove_owned-left}
use scd.Apply.Outbounds.Replaces.{Good, find_first_all}
use scd.Apply.Outbounds.Undo.{
  Tag, Room, tag_of, select-All, select_none, remove_owned-backups, remove_backward-server,
  outside_additions, restore_backups_lem,
}
use scd.Apply.Outbounds.Failing.{Fails, add_all-Halted}

All-select :
    {A : Type 0} (Q : A → Type 0) (p : A → Bool) (xs : List A) → All Q xs → All Q (select p xs)
unfolding select
All-select Q p [] q = tt
All-select Q p (x ∷ xs) q = elim (Bool-cases (p x)) [
  | inl t ↦ rw t (q.0, All-select Q p xs q.1)
  | inr f ↦ rw f (All-select Q p xs q.1)
]

fresh_nil : (hs : List Handler) → All (λ h. contains [] h.tag ≡ false) hs
unfolding contains
fresh_nil [] = tt
fresh_nil (h ∷ hs) = (refl, fresh_nil hs)

module _ (bad : Handler → Bool) (to_proto : Spec → Result Handler) (made : Spec → Handler) where
  abbrev P : Type 0
  P = Progress (List Handler)

  -- After a change that failed: what the rollback leaves, and its report.
  rollback_lem :
      (fixed : List String) (owner : Owner) (limit : ℕ) (entries : List Spec) (r : Option Error × P)
      (kept added backups : List Handler)
      → r.0 ≢ none
      → r.1.world.server ≡ kept ++ added
      → r.1.added ≡ map tag_of added
      → r.1.backups ≡ backups
      → All (λ h. ours fixed owner h ≡ false) kept
      → All (Tag bad fixed owner) (map tag_of added)
      → All (λ h. bad h ≡ false) backups
      → Room bad fixed owner limit kept backups
      → let done = rollback (plain bad) fixed owner limit entries r in
        (done.world.server ≡ kept ++ backups) × (done.report.failed ≡ 1)
  unfolding rollback fail
  rollback_lem fixed owner limit entries (none, p) kept added backups n s a b k t g room =
      absurd (n refl)
  rollback_lem fixed owner limit entries (some x, p) kept added backups n s a b k t g room =
      let cleared : (remove_backward (plain bad) p.added p.world).server ≡ kept =
        remove_backward-server bad fixed owner p.added p.world
        ∙ (ap (λ l. outside l p.world.server) a
            ∙ (ap (λ l. outside (map tag_of added) l) s
                ∙ outside_additions bad fixed owner kept added k t)) in
      let restored =
        restore_backups_lem bad fixed owner limit p.backups
          (remove_backward (plain bad) p.added p.world) (subst (All (λ h. bad h ≡ false)) (sym b) g)
          (subst (λ l. Room bad fixed owner limit l p.backups) (sym cleared)
            (subst (Room bad fixed owner limit kept) (sym b) room)) in
      (restored ∙ (ap (λ l. l ++ p.backups) cleared ∙ ap (λ l. kept ++ l) b), refl)

  Tag-entries :
      (fixed : List String) (owner : Owner) (es : List Spec)
      → All (λ e. contains fixed e.tag ≡ false) es
      → All (λ e. (owner outbound e.tag ≡ true) × ((made e).tag ≡ e.tag)) es
      → All (Tag bad fixed owner) (map tag_of (map made es))
  Tag-entries fixed owner [] f o = tt
  Tag-entries fixed owner (e ∷ es) f o =
      (subst (Tag bad fixed owner) (sym o.0.1) (f.0, o.0.0), Tag-entries fixed owner es f.1 o.1)

  tags_made :
      (owner : Owner) (es : List Spec)
      → All (λ e. (owner outbound e.tag ≡ true) × ((made e).tag ≡ e.tag)) es
      → map (λ e. e.tag) es ≡ map tag_of (map made es)
  tags_made owner [] o = refl
  tags_made owner (e ∷ es) o = cc (o.0.1, tags_made owner es o.1)

  All-front :
      (Q : Spec → Type 0) (front : List Spec) (back : List Spec)
      → All Q (front ++ back)
      → All Q front
  All-front Q [] back a = tt
  All-front Q (e ∷ front) back a = (a.0, All-front Q front back a.1)

  kept-Room :
      (fixed : List String) (owner : Owner) (limit : ℕ) (hs : List Handler)
      → (limit ≡ 0) ⊎ (count_owned fixed owner hs ≤ limit)
      → Room bad fixed owner limit
          (select (λ h. not (ours fixed owner h)) hs)
          (select (ours fixed owner) hs)
  unfolding counts
  kept-Room fixed owner limit hs (inl z) = inl z
  kept-Room fixed owner limit hs (inr r) =
      let none_left = ap length (
        select_none (ours fixed owner) (select (λ h. not (ours fixed owner h)) hs) (
          All-map (λ h k. ground (arith, k)) (select (λ h. not (ours fixed owner h)) hs)
            (select-All (λ h. not (ours fixed owner h)) hs))) in
      inr (omega (arith, none_left, r))

  -- An entry fails after those of `front`. If the listed tags are distinct, Xray takes every listed
  -- outbound back, the tags of `front` are the owner's and no entry's tag is fixed, and there is no
  -- cap or the source was within it, then Outbounds reports one failure and leaves every outbound that
  -- was listed and nothing else: first those that are not the source's, then the source's, in order.
  pub outbounds-restores :
      (fixed : List String) (owner : Owner) (front : List Spec) (e : Spec) (rest : List Spec)
      (m : Meta) (w : World (List Handler))
      → All (λ x. contains fixed x.tag ≡ false) (front ++ e ∷ rest)
      → All (λ x. (owner outbound x.tag ≡ true) × ((made x).tag ≡ x.tag)) front
      → All (Good bad to_proto made) front
      → Fails bad to_proto made e
      → Distinct (map (λ h. h.tag) w.server)
      → All (λ h. bad h ≡ false) w.server
      → (m.max_outbounds ≡ 0) ⊎ (count_owned fixed owner w.server ≤ m.max_outbounds)
      → (r : Report) × (((outbounds (plain bad) to_proto fixed owner (front ++ e ∷ rest) m w).0
            ≡ ok r)
          × (r.failed ≡ 1)
          × ((outbounds (plain bad) to_proto fixed owner (front ++ e ∷ rest) m w).1.server
              ≡ select (λ h. not (ours fixed owner h)) w.server
                ++ select (ours fixed owner) w.server))
  unfolding outbounds conflicting checked list replace_listed change new_report finish
  outbounds-restores fixed owner front e rest m w free own good fails distinct accepted room =
      let entries = front ++ e ∷ rest in
      let others = select (λ h. not (ours fixed owner h)) w.server in
      let begun =
        start (new_report outbound m m.times.started []) (list (plain bad) outbound w).1 in
      let removed = remove_owned (plain bad) fixed owner w.server begun in
      let (n, s, a) = remove_owned-left bad fixed owner w.server begun refl refl refl in
      let b = remove_owned-backups bad fixed owner w.server begun distinct (fresh_nil w.server) in
      let (n', s', a', b') = add_all-Halted bad to_proto made front e rest removed.1 good fails in
      let c : change (plain bad) to_proto fixed owner w.server entries begun
          ≡ add_all (plain bad) to_proto entries removed.1 =
        and_then-none removed (add_all (plain bad) to_proto entries) n in
      let final =
        rollback_lem fixed owner m.max_outbounds entries
          (change (plain bad) to_proto fixed owner w.server entries begun) others (map made front)
          (select (ours fixed owner) w.server) (subst (λ r. r.0 ≢ none) (sym c) n')
          (ap (λ r. r.1.world.server) c ∙ (s' ∙ ap (λ l. l ++ map made front) s))
          (ap (λ r. r.1.added) c
            ∙ (a' ∙ (ap (λ l. l ++ map (λ x. x.tag) front) a ∙ tags_made owner front own)))
          (ap (λ r. r.1.backups) c ∙ (b' ∙ b))
          (All-map (λ h k. ground (arith, k)) others
            (select-All (λ h. not (ours fixed owner h)) w.server))
          (Tag-entries fixed owner front
            (All-front (λ x. contains fixed x.tag ≡ false) front (e ∷ rest) free) own)
          (All-select (λ h. bad h ≡ false) (ours fixed owner) w.server accepted)
          (kept-Room fixed owner m.max_outbounds w.server room) in
      rw (find_first_all (λ x. contains fixed x.tag) entries free) (_, (refl, final.1, final.0))
