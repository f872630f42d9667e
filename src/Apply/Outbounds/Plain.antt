-- ===== src/Apply/Outbounds/Plain.antt =====
-- internal/scd/apply/outbounds.go against a plain model of Xray: a list of outbounds in which a
-- removal drops the tag, an addition appends, and the additions of some outbounds are refused.
use scd.Prelude.{
  ◌≡◌, refl, ap, ◌∙◌, sym, subst, String, Bool, true, false, not, ◌&&◌, Option, none, some, List,
  [], ◌∷◌, ◌++◌, contains, string_eq, select, All, arith, ◌==◌, ==_refl, ==→eq, Bool-cases, inl,
  inr,
}
use scd.Xray.{Server, Error, ok, Handler, outbound, remove}
use scd.Apply.{Owner}
use scd.Apply.Steps.{guarded_pass, guarded_skip}
use scd.Apply.Outbounds.{Progress, removed_one, remove_one, remove_owned, removable}

abbrev pub refused : Error
refused = record { message = "refused"; unavailable = false; is_cap_reached = false }

-- The list without a tag.
abbrev pub drop_tag : String → List Handler → List Handler
drop_tag tag = select (λ h. not (h.tag == tag))

abbrev pub plain_add : Bool → Handler → List Handler → Option Error × List Handler
plain_add true h hs = (some refused, hs)
plain_add false h hs = (none, hs ++ h ∷ [])

abbrev pub plain : (Handler → Bool) → Server (List Handler)
plain bad = record {
  list = λ kind hs. (ok hs, hs);
  add = λ kind h hs. plain_add (bad h) h hs;
  remove = λ kind tag hs. (none, drop_tag tag hs);
}

-- What a replacement takes away.
abbrev pub ours : List String → Owner → Handler → Bool
ours fixed owner h = not (contains fixed h.tag) && owner outbound h.tag

abbrev pub outside : List String → List Handler → List Handler
outside tags = select (λ h. not (contains tags h.tag))

pub select_cong :
    {A : Type 0} (p q : A → Bool) (xs : List A)
    → All (λ x. p x ≡ q x) xs
    → select p xs ≡ select q xs
unfolding select
select_cong p q [] h = refl
select_cong p q (x ∷ xs) h = ground (arith, select_cong p q xs h.1)

pub outside_cons :
    (t : String) (tags : List String) (hs : List Handler)
    → drop_tag t (outside tags hs) ≡ outside (t ∷ tags) hs
unfolding select contains
outside_cons t tags [] = refl
outside_cons t tags (h ∷ hs) = ground (arith, outside_cons t tags hs)

pub outside_nil : (hs : List Handler) → outside [] hs ≡ hs
unfolding select contains
outside_nil [] = refl
outside_nil (h ∷ hs) = ap (λ l. h ∷ l) (outside_nil hs)

module _ (bad : Handler → Bool) (fixed : List String) (owner : Owner) (all : List Handler) where
  abbrev P : Type 0
  P = Progress (List Handler)

  -- After some removals, of removable tags only.
  record Removing (p : P) : Type 0 where
    pub server : p.world.server ≡ outside p.removed all
    pub tags : All (λ t. (contains fixed t ≡ false) × (owner outbound t ≡ true)) p.removed
    pub added : p.added ≡ []

  remove_one-Removing :
      (h : Handler) (p : P)
      → removable fixed owner h p ≡ true
      → Removing p
      → Removing (remove_one (plain bad) h p).1
  unfolding remove_one removed_one remove
  remove_one-Removing h p g i = record {
    server = ap (drop_tag h.tag) i.server ∙ outside_cons h.tag p.removed all;
    tags = ((ground arith, ground arith), i.tags);
    added = i.added;
  }

  -- Every one of the handlers that is ours has been removed.
  abbrev Gone : P → Handler → Type 0
  Gone p h = ours fixed owner h ≡ true → contains p.removed h.tag ≡ true

  removed_more :
      (h : Handler) (p : P) (t : String)
      → contains p.removed t ≡ true
      → contains (remove_one (plain bad) h p).1.removed t ≡ true
  unfolding remove_one removed_one remove contains
  removed_more h p t c = ground arith

  removed_self :
      (h : Handler) (p : P) → contains (remove_one (plain bad) h p).1.removed h.tag ≡ true
  unfolding remove_one removed_one remove contains
  removed_self h p = ground (arith, ==_refl h.tag)

  remove_one_ok : (h : Handler) (p : P) → (remove_one (plain bad) h p).0 ≡ none
  unfolding remove_one removed_one remove
  remove_one_ok h p = refl

  record Removed (p : P) (hs : List Handler) (r : Option Error × P) : Type 0 where
    pub ok : r.0 ≡ none
    pub removing : Removing r.1
    pub more : (t : String) → contains p.removed t ≡ true → contains r.1.removed t ≡ true
    pub gone : All (Gone r.1) hs

  kept-Gone : (h : Handler) (p : P) → removable fixed owner h p ≡ false → Gone p h
  kept-Gone h p g o = ground arith

  remove_owned_lem :
      (hs : List Handler) (p : P)
      → Removing p
      → Removed p hs (remove_owned (plain bad) fixed owner hs p)
  unfolding remove_owned
  remove_owned_lem [] p i = record { ok = refl; removing = i; more = λ t c. c; gone = tt }
  remove_owned_lem (h ∷ hs) p i =
      let first = remove_one (plain bad) h in
      let next = remove_owned (plain bad) fixed owner hs in
      let b = removable fixed owner h p in
      elim (Bool-cases b) [
        | inl g ↦
            let q = (first p).1 in
            let rest = remove_owned_lem hs q (remove_one-Removing h p g i) in
            subst (Removed p (h ∷ hs)) (sym (guarded_pass b first next p g (remove_one_ok h p)))
              (record {
                ok = rest.ok;
                removing = rest.removing;
                more = λ t c. rest.more t (removed_more h p t c);
                gone = ((λ o. rest.more h.tag (removed_self h p)), rest.gone);
              })
        | inr g ↦
            let rest = remove_owned_lem hs p i in
            subst (Removed p (h ∷ hs)) (sym (guarded_skip b first next p g)) (record {
              ok = rest.ok;
              removing = rest.removing;
              more = rest.more;
              gone = ((λ o. rest.more h.tag (kept-Gone h p g o)), rest.gone);
            })
      ]

  contains_ours :
      (tags : List String) (t : String)
      → All (λ t. (contains fixed t ≡ false) × (owner outbound t ≡ true)) tags
      → contains tags t ≡ true
      → (contains fixed t ≡ false) × (owner outbound t ≡ true)
  unfolding contains
  contains_ours [] t a c = cc
  contains_ours (x ∷ tags) t a c = ground (arith, contains_ours tags t a.1, a.0, ==→eq t x)

  outside-Gone :
      (p : P) (hs : List Handler)
      → Removing p
      → All (Gone p) hs
      → All (λ h. not (contains p.removed h.tag) ≡ not (ours fixed owner h)) hs
  outside-Gone p [] i g = tt
  outside-Gone p (h ∷ hs) i g =
      (ground (arith, contains_ours p.removed h.tag i.tags, g.0), outside-Gone p hs i g.1)

  -- After the removals exactly the handlers that are not ours are left.
  pub remove_owned-left :
      (p : P)
      → p.world.server ≡ all
      → p.removed ≡ []
      → p.added ≡ []
      → let r = remove_owned (plain bad) fixed owner all p in
        (r.0 ≡ none)
        × (r.1.world.server ≡ select (λ h. not (ours fixed owner h)) all)
        × (r.1.added ≡ [])
  remove_owned-left p s n a =
      let i : Removing p = record {
        server = s ∙ sym (ap (λ l. outside l all) n ∙ outside_nil all);
        tags = subst (All (λ t. (contains fixed t ≡ false) × (owner outbound t ≡ true))) (sym n) tt;
        added = a;
      } in
      let done = remove_owned_lem all p i in
      let q = (remove_owned (plain bad) fixed owner all p).1 in
      (
        done.ok,
        done.removing.server
            ∙ select_cong (λ h. not (contains q.removed h.tag)) (λ h. not (ours fixed owner h)) all
                (outside-Gone q all done.removing done.gone),
        done.removing.added,
      )
